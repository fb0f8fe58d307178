-- ===== src/Keyboard/Tests.antt =====
-- Keys typed on an empty buffer, in the shell alone.
use tp2_sistemas_operativos.Base.{
  ℕ, zero, suc, ◌≡◌, refl, ap, arith, false, not, none, List, [], ◌∷◌, ◌++◌, pos, ◌==◌, update,
  length, take, drop,
}
use tp2_sistemas_operativos.Samples.{bump, idle_sched, unused_sem}
use tp2_sistemas_operativos.Proc.{Procs, zeroed}
use tp2_sistemas_operativos.Keyboard.{
  Keys, is_key_available, add_to_buffer, clean_read, get_buffer, keys_of, keyboard_handler,
}
use tp2_sistemas_operativos.Keyboard.Queue.{Holds, type_text, type-get_buffer, clean_read_misses}
use tp2_sistemas_operativos.Keyboard.Bounds.{Inside, keyboard_handler-Inside}

abbrev no_keys : Keys
no_keys = record {
  buffer = λ i. 0;
  before_buffer = 0;
  write_index = 0;
  read_index = 0;
  last_index_flag = false;
  ctrl_flag = false;
  shift_flag = false;
  caps_lock_flag = false;
  waiting_to_read = λ i. pos 0;
  waiting_to_read_counter = 0;
}

no_keys-Holds : Holds no_keys []
no_keys-Holds = record {
  content = refl;
  reader = omega arith;
  writer = omega arith;
  between = refl;
  blank = λ j lo hi. refl;
  room = omega arith;
  text = tt;
}

abbrev shell_alone : Procs ℕ
shell_alone = record {
  process_arr = update (λ p. zeroed) (pos 0) (record zeroed { stack_end = 100; name = ([], 90) });
  families = λ p. record { children_arr = λ q. pos 0; number_of_children = pos 0 };
  last_pid = pos 1;
  pipes = record {
    pipe_list = λ k. record {
      pipe_id = 0;
      read_sem = pos 0;
      write_sem = pos 0;
      read_sem_name = none;
      write_sem_name = none;
      write_pos = 0;
      read_pos = 0;
      pipe_at = 0;
      bytes = λ n. 0;
      amount = 0;
      eof = false;
      interested_processes = pos 0;
    };
    active_pipes = pos 0;
    sems = record {
      lock = 1;
      semaphore_list = λ k. unused_sem;
      active = 0;
      sched = idle_sched;
      heap = 1000;
    };
  };
}

abbrev ls : List ℕ
ls = b'l' ∷ b's' ∷ []

type-get_buffer_example :
    ((get_buffer (type_text no_keys idle_sched ls).0 1).0 ≡ take 1 ([] ++ ls))
    × Holds (get_buffer (type_text no_keys idle_sched ls).0 1).1 (drop 1 ([] ++ ls))
type-get_buffer_example =
    type-get_buffer no_keys idle_sched [] ls 1
      ((λ e. omega (arith, e)), ((λ e. omega (arith, e)), tt)) (omega arith) no_keys-Holds

-- The key x, `n` times.
abbrev xs : ℕ → List ℕ
xs zero = []
xs (suc n) = b'x' ∷ xs n

length-xs : (n : ℕ) → length (xs n) ≡ n
length-xs zero = refl
length-xs (suc n) = ap suc (length-xs n)

clean_read_misses_example :
    is_key_available
      (add_to_buffer
        (clean_read (type_text no_keys idle_sched (xs 1024)).0)
        (type_text no_keys idle_sched (xs 1024)).1
        b'y').0
    ≡ not (no_keys.buffer 1024 == 0)
clean_read_misses_example =
    clean_read_misses no_keys idle_sched (xs 1024) b'y' refl (length-xs 1024)

keyboard_handler-Inside_example :
    Inside no_keys (keys_of (keyboard_handler bump no_keys shell_alone 38 500))
keyboard_handler-Inside_example =
    keyboard_handler-Inside bump no_keys shell_alone 38 500 (omega arith)
