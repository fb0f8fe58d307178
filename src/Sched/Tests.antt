-- ===== src/Sched/Tests.antt =====
-- Runs of scheduler.c on a small process table, and its theorems at concrete states.
use tp2_sistemas_operativos.Base.{
  ◌≡◌, true, refl, pos, negsuc, arith, [], ◌∷◌, eq_ℤ, ltb_ℤ, is_slot, update,
}
use tp2_sistemas_operativos.Sched.Select.{Finds, get_next_ready-Finds}
use tp2_sistemas_operativos.Sched.Valid.{Switched, switch_process-Switched}
use tp2_sistemas_operativos.Sched.Steps.{
  IsBoot, OneRuns, Reach, here, next, create, Reach-IsValid, init_scheduler-IsValid,
  init_scheduler-Reach-OneRuns,
}
use tp2_sistemas_operativos.Sched.Slices.{run_ticks, IsRunning, run_ticks_slice, unblock_boost}
use tp2_sistemas_operativos.Sched.{
  Sched, Pcb, ready, running, blocked, can_run, first_of_pid, get_next_ready, init_scheduler,
  process_was_created, create_process_stack, priority_in_range, set_status, set_rsp, put_priority,
  switch_process, save_current, get_quantum, next_ready_loop,
}
use tp2_sistemas_operativos.Sched.Control.{unblock}

abbrev no_process : Pcb
no_process = record { priority = pos 0; process_status = ready; current_rsp = 0 }

abbrev blank : Sched
blank = record {
  process_table = λ p. no_process;
  current_quantum = 0;
  current_pid = pos 0;
  next_pid = pos 0;
  main_rsp = 0;
}

blank-IsBoot : IsBoot blank
unfolding can_run
blank-IsBoot = record { blank = λ p h. refl; outside = λ p h. refl }

-- The shell, then a process of low priority, each with a stack.
abbrev two_processes : Sched
two_processes =
    (process_was_created (process_was_created (init_scheduler blank) (pos 0) (pos 10) 8192).1
      (pos 1) (pos 2) 16384).1

two_processes-Reach : Reach (init_scheduler blank) two_processes
unfolding process_was_created set_status set_rsp put_priority update init_scheduler eq_ℤ
    create_process_stack priority_in_range ltb_ℤ
two_processes-Reach =
    next (next here (create _ (pos 0) (pos 10) 8192 slot_0)) (create _ (pos 1) (pos 2) 16384 slot_1)
  where
    slot_0 : is_slot (pos 0) ≡ true
    slot_0 = unfold is_slot in refl

    slot_1 : is_slot (pos 1) ≡ true
    slot_1 = unfold is_slot in refl

init_scheduler-Reach-OneRuns_example : OneRuns two_processes
init_scheduler-Reach-OneRuns_example = init_scheduler-Reach-OneRuns blank-IsBoot two_processes-Reach

switch_process-Switched_example :
    Switched (save_current two_processes 5) (switch_process two_processes 5)
switch_process-Switched_example =
    switch_process-Switched two_processes 5
      (Reach-IsValid (init_scheduler-IsValid blank blank-IsBoot) two_processes-Reach)

-- From the kernel the search begins at slot 1.
get_next_ready_runs : get_next_ready two_processes ≡ pos 1
unfolding get_next_ready next_ready_loop process_was_created set_status set_rsp put_priority update
    init_scheduler eq_ℤ can_run first_of_pid create_process_stack priority_in_range ltb_ℤ
get_next_ready_runs = refl

get_next_ready-Finds_example : Finds two_processes.process_table 0 (get_next_ready two_processes)
unfolding process_was_created set_status set_rsp put_priority init_scheduler first_of_pid
    create_process_stack
get_next_ready-Finds_example = get_next_ready-Finds two_processes (omega arith)

-- Process 1 runs with quantum 2, and the shell is ready.
abbrev sliced : Sched
sliced = record {
  process_table =
      update
        (update (λ p. no_process) (pos 0)
          (record { priority = pos 10; process_status = ready; current_rsp = 64 }))
        (pos 1) (record { priority = pos 2; process_status = running; current_rsp = 128 });
  current_quantum = 2;
  current_pid = pos 1;
  next_pid = negsuc 1;
  main_rsp = 7;
}

sliced-IsRunning : IsRunning sliced
unfolding update eq_ℤ is_slot can_run
sliced-IsRunning = record { slot = refl; runs = refl; no_next = refl; next_other = refl }

run_ticks_slice_example :
    let t = run_ticks sliced (200 ∷ 201 ∷ []) in
    (t.current_pid ≡ pos 1)
    × ((t.process_table t.current_pid).process_status ≡ running)
    × Finds
        (save_current t 202).process_table
        (first_of_pid (pos 1))
        (switch_process t 202).1.current_pid
run_ticks_slice_example =
    run_ticks_slice (200 ∷ 201 ∷ []) sliced 202 sliced-IsRunning (omega arith) (omega arith) refl

-- A blocked process 4 of priority 9, while process 1 runs.
abbrev waiting : Sched
waiting = record sliced {
  process_table =
      update sliced.process_table (pos 4)
        (record { priority = pos 9; process_status = blocked; current_rsp = 256 });
}

unblock_boost_example :
    let t = (switch_process (unblock waiting (pos 4)).1 300).1 in
    (t.current_pid ≡ pos 4)
    × ((t.process_table (pos 4)).process_status ≡ running)
    × (t.current_quantum ≡ get_quantum waiting (pos 4))
unfolding update eq_ℤ is_slot ltb_ℤ
unblock_boost_example = unblock_boost waiting (pos 4) 300 refl refl (omega arith) refl refl
