-- ===== src/Proc/Tests.antt =====
-- Processes that are created and killed over the kernel's free-list memory manager.
use tp2_sistemas_operativos.Base.{
  ◌≡◌, refl, arith, false, some, none, [], ◌∷◌, pos, eq_ℤ, ltb_ℤ, update, update_at,
}
use tp2_sistemas_operativos.Samples.{idle_sched, unused_sem}
use tp2_sistemas_operativos.Text.{strlen}
use tp2_sistemas_operativos.Proc.{Procs, zeroed}
use tp2_sistemas_operativos.Proc.Create.{
  CreateInfo, create_process, create_named, name_validation, name_loop, slot_loop, take_memory,
  take_args, args_loop, enter_process,
}
use tp2_sistemas_operativos.Proc.Kill.{kill}
use tp2_sistemas_operativos.Proc.Ledger.{Traced, traced, traced_malloc}
use tp2_sistemas_operativos.Memory.{
  Memory, init_memory_manager, malloc, malloc_loop, take_block, split, unlink,
}
use tp2_sistemas_operativos.Memory.Manager.{free_list_manager}
use tp2_sistemas_operativos.Proc.Leaks.{Creates, create_process-Creates, Leaves, create-kill_leaks}

-- The kernel's own memory manager on an area of 65536 bytes at 65536, with its calls written down.
abbrev area : Traced Memory
area = record {
  heap =
      init_memory_manager
        (record {
          size = λ a. 0;
          next = λ a. 0;
          free_list = 0;
          total_size = 0;
          free_size = 0;
          allocated_size = 0;
        })
        65536 65536;
  in_use = [];
  wild = 0;
}

-- Process 0 exists and runs.
abbrev shell_only : Procs (Traced Memory)
shell_only = record {
  process_arr = update (λ p. zeroed) (pos 0) (record zeroed { stack_end = 100; name = ([], 90) });
  families = λ p. record { children_arr = λ q. pos 0; number_of_children = pos 0 };
  last_pid = pos 1;
  pipes = record {
    pipe_list = λ k. record {
      pipe_id = 0;
      read_sem = pos 0;
      write_sem = pos 0;
      read_sem_name = none;
      write_sem_name = none;
      write_pos = 0;
      read_pos = 0;
      pipe_at = 0;
      bytes = λ n. 0;
      amount = 0;
      eof = false;
      interested_processes = pos 0;
    };
    active_pipes = pos 0;
    sems = record {
      lock = 1;
      semaphore_list = λ k. unused_sem;
      active = 0;
      sched = record idle_sched { current_pid = pos 0 };
      heap = area;
    };
  };
}

abbrev info : CreateInfo
info = record {
  name = some (b'l' ∷ b's' ∷ []);
  fg_flag = pos 1;
  priority = pos 3;
  argc = pos 1;
  argv = λ i. b'x' ∷ [];
  input = 0;
  output = 1;
}

create_process-Creates_example :
    Creates free_list_manager shell_only info
      (create_process (traced free_list_manager) shell_only info)
create_process-Creates_example = create_process-Creates free_list_manager shell_only info

created : (create_process (traced free_list_manager) shell_only info).0 ≡ pos 1
unfolding create_process create_named name_validation name_loop slot_loop take_memory take_args
    args_loop enter_process update update_at eq_ℤ ltb_ℤ strlen traced_malloc init_memory_manager
    malloc malloc_loop take_block split unlink
created = refl

create-kill_leaks_example :
    Leaves free_list_manager shell_only info
      ((create_process (traced free_list_manager) shell_only info).1.process_arr (pos 1))
      (kill
        (traced free_list_manager)
        (create_process (traced free_list_manager) shell_only info).1
        (pos 1))
create-kill_leaks_example =
    create-kill_leaks free_list_manager shell_only info 1 created (omega arith)
