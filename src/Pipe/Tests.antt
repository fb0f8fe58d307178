-- ===== src/Pipe/Tests.antt =====
-- The theorems on Kernel/pipes/pipe.c at a concrete pipe.
use tp2_sistemas_operativos.Base.{
  ℕ, ◌+◌, ◌-◌, ◌%◌, ◌≡◌, false, refl, pos, arith, none, some, [], ◌∷◌, eq_ℤ, ltb_ℤ, update,
}
use tp2_sistemas_operativos.Samples.{idle_sched, unused_sem}
use tp2_sistemas_operativos.Sched.Control.{get_pid}
use tp2_sistemas_operativos.Sem.{Sems, Semaphore, is_sem, contains, returned}
use tp2_sistemas_operativos.Pipe.{Pipe, Pipes, find_pipe, write_to_pipe, read_from_pipe}
use tp2_sistemas_operativos.Pipe.Bytes.{IsSound}
use tp2_sistemas_operativos.Pipe.Streams.{
  Moves, write_to_pipe-Moves, read_from_pipe-Moves, write-read,
}

abbrev counter : ℕ → Semaphore
counter n = record unused_sem { sem_value = n; lock = 1; interested = pos 1 ∷ [] }

abbrev pipe_sems : ℕ → Sems ℕ
pipe_sems full = record {
  lock = 1;
  semaphore_list =
      update (update (λ k. unused_sem) (pos 0) (counter (1024 - full))) (pos 1) (counter full);
  active = 2;
  sched = idle_sched;
  heap = 9000;
}

-- The pipe 4 in slot 0, which is about to go round the end of its buffer, with `full` bytes 7.
abbrev one_pipe : ℕ → Pipe
one_pipe full = record {
  pipe_id = 4;
  read_sem = pos 1;
  write_sem = pos 0;
  read_sem_name = none;
  write_sem_name = none;
  write_pos = (1023 + full) % 1024;
  read_pos = 1023;
  pipe_at = 8000;
  bytes = λ k. 7;
  amount = full;
  eof = false;
  interested_processes = pos 1;
}

abbrev pipes : ℕ → Pipes ℕ
pipes full = record { pipe_list = λ k. one_pipe full; active_pipes = pos 1; sems = pipe_sems full }

pipe_4 : (full : ℕ) → find_pipe (pipes full) 4 ≡ pos 0
unfolding find_pipe
pipe_4 full = refl

empty-IsSound : IsSound (pipes 0) (pos 0)
unfolding update eq_ℤ is_sem ltb_ℤ contains get_pid
empty-IsSound = record {
  read_in = omega arith;
  write_at = refl;
  amount_le = omega arith;
  full_places = refl;
  free_places = refl;
  distinct = refl;
  may_read = record { valid = refl; unlocked = refl; sem_unlocked = refl; member = refl };
  may_write = record { valid = refl; unlocked = refl; sem_unlocked = refl; member = refl };
}

two-IsSound : IsSound (pipes 2) (pos 0)
unfolding update eq_ℤ is_sem ltb_ℤ contains get_pid
two-IsSound = record {
  read_in = omega arith;
  write_at = refl;
  amount_le = omega arith;
  full_places = refl;
  free_places = refl;
  distinct = refl;
  may_read = record { valid = refl; unlocked = refl; sem_unlocked = refl; member = refl };
  may_write = record { valid = refl; unlocked = refl; sem_unlocked = refl; member = refl };
}

write_to_pipe-Moves_example :
    Moves (pipes 2) (pos 0) 2 [] (7 ∷ 7 ∷ 1 ∷ 2 ∷ []) (write_to_pipe (pipes 2) 4 (1 ∷ 2 ∷ []) 500)
write_to_pipe-Moves_example =
    write_to_pipe-Moves (pipes 2) 4 0 (1 ∷ 2 ∷ []) 500 (pipe_4 2) two-IsSound (omega arith)

read_from_pipe-Moves_example :
    Moves (pipes 2) (pos 0) 1 (7 ∷ []) (7 ∷ []) (read_from_pipe (pipes 2) 4 1 500)
read_from_pipe-Moves_example =
    read_from_pipe-Moves (pipes 2) 4 0 1 500 (pipe_4 2) two-IsSound (omega arith) (omega arith)

write-read_example :
    (written : Pipes ℕ) × (k : ℕ) × (write_to_pipe (pipes 0) 4 (1 ∷ 2 ∷ 3 ∷ []) 500
      ≡ some (record { outcome = returned (pos 3); left = k; moved = []; after = written }))
    × Moves written (pos 0) 3 (1 ∷ 2 ∷ 3 ∷ []) [] (read_from_pipe written 4 3 501)
write-read_example =
    write-read (pipes 0) 4 0 (1 ∷ 2 ∷ 3 ∷ []) 500 501 (pipe_4 0) empty-IsSound refl (λ e. cc)
      (omega arith)
