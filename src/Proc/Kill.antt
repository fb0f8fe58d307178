-- ===== src/Proc/Kill.antt =====
-- `kill` and `kill_with_children` of Kernel/processes_scheduler/processes.c, and the `kill_current` of
-- scheduler.c.
use tp2_sistemas_operativos.Base.{
  ℕ, zero, suc, ◌+◌, Bool, ◌&&◌, ◌||◌, not, none, some, List, [], ◌∷◌, ℤ, pos, minus1, ◌-ℤ◌, eq_ℤ,
  ◌==◌, if◌then◌else◌, max_processes, take,
}
use tp2_sistemas_operativos.Alloc.{Allocator}
use tp2_sistemas_operativos.Sched.Control.{process_was_killed, get_current_process, discard_current}
use tp2_sistemas_operativos.Pipe.{signal_eof}
use tp2_sistemas_operativos.Proc.{
  Procs, zeroed, stdout, sched_of, with_sched, set_process, find_pid, remove_child, shell_adoption,
  get_process_output,
}
use tp2_sistemas_operativos.Proc.Create.{count_of, free_args, with_heap}

module _ {H : Type 0} where
  abbrev pub is_child : Procs H → ℤ → ℕ → Bool
  is_child st pid i = not (eq_ℤ ((st.families pid).children_arr (pos i)) (pos 0))

  -- The shell adopts the children of `pid` from `i` on, until none is left.
  unfoldable pub adopt_loop : Procs H → ℤ → ℕ → ℕ → Procs H
  adopt_loop st pid zero i = st
  adopt_loop st pid (suc left) i =
      let adopted = shell_adoption st (pos i) pid in
      let rest = adopt_loop (if is_child st pid i then adopted else st) pid left (i + 1) in
      if is_child st pid i && eq_ℤ (adopted.families pid).number_of_children (pos 0)
      then adopted
      else rest

  unfoldable pub orphan : Procs H → ℤ → Procs H
  orphan st pid =
      if eq_ℤ (st.families pid).number_of_children (pos 0)
      then st
      else adopt_loop st pid max_processes 0

  -- The consumer of the pipe of a process that the shell started learns that no more bytes come.
  unfoldable pub close_output : Procs H → ℤ → Procs H
  close_output st pid =
      let p = st.process_arr pid in
      if not (p.output == stdout) && eq_ℤ (get_process_output st p.parent) (pos stdout)
      then record st { pipes = (signal_eof st.pipes p.output).1 }
      else st

  unfoldable pub stop_process : Procs H → ℤ → Procs H
  stop_process st pid = with_sched st (process_was_killed (sched_of st) pid).1

  -- The entry is blank again.
  unfoldable pub clear_process : Procs H → ℤ → Procs H
  clear_process st pid = record (set_process st pid zeroed) { last_pid = st.last_pid -ℤ pos 1 }

module _ (A : Allocator) where
  open A use {Heap, malloc, free}

  unfoldable pub free_blocks : List ℕ → Heap → Heap
  free_blocks [] h = h
  free_blocks (at ∷ blocks) h = free_blocks blocks (free at h)

  -- The memory of a process, and the array that holds it.
  unfoldable pub free_memory : Procs Heap → ℤ → Procs Heap
  free_memory st pid =
      let p = st.process_arr pid in
      with_heap A st (free p.memory (free_blocks p.blocks st.pipes.sems.heap))

  -- Each argument, but not the array of them.
  unfoldable pub free_argv : Procs Heap → ℤ → Procs Heap
  free_argv st pid =
      let p = st.process_arr pid in
      with_heap A st (free_args A (take (count_of p.argc) p.args) st.pipes.sems.heap)

  unfoldable pub free_stack : Procs Heap → ℤ → Procs Heap
  free_stack st pid =
      let p = st.process_arr pid in
      with_heap A st (free p.name.1 (free p.stack_end st.pipes.sems.heap))

  -- What `kill` does with a process that exists.
  unfoldable pub remove_process : Procs Heap → ℤ → Procs Heap
  remove_process st pid =
      let orphaned = orphan (remove_child st pid) pid in
      let stopped = stop_process (free_memory orphaned pid) pid in
      clear_process (free_stack (close_output (free_argv stopped pid) pid) pid) pid

  unfoldable pub kill : Procs Heap → ℤ → ℤ × Procs Heap
  kill st pid =
      if eq_ℤ pid (pos 0) || not (find_pid st pid)
      then (minus1, st)
      else (pos 0, remove_process st pid)

  -- The loop over the children, `left` of them to come.
  unfoldable pub kill_loop : Procs Heap → ℤ → ℕ → ℕ → Procs Heap
  kill_loop st pid zero i = st
  kill_loop st pid (suc left) i =
      kill_loop (if is_child st pid i then (kill st (pos i)).1 else st) pid left (i + 1)

  unfoldable pub remove_family : Procs Heap → ℤ → Procs Heap
  remove_family st pid =
      let alone = remove_child st pid in
      let childless =
        if eq_ℤ (alone.families pid).number_of_children (pos 0)
        then alone
        else kill_loop alone pid max_processes 0 in
      let stopped = stop_process (free_memory childless pid) pid in
      clear_process (free_stack (free_argv stopped pid) pid) pid

  unfoldable pub kill_with_children : Procs Heap → ℤ → ℤ × Procs Heap
  kill_with_children st pid =
      if eq_ℤ pid (pos 0) || not (find_pid st pid)
      then (minus1, st)
      else (pos 0, remove_family st pid)

  -- `kill_current` of scheduler.c.
  unfoldable pub kill_current : Procs Heap → ℤ × Procs Heap
  kill_current st =
      let s = sched_of st in
      elim (get_current_process s) [
        | none ↦ (pos 1, st)
        | some _ ↦ (pos 0, (kill (with_sched st (discard_current s)) s.current_pid).1)
      ]
