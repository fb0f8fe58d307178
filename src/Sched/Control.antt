-- ===== src/Sched/Control.antt =====
-- The calls of Kernel/processes_scheduler/scheduler.c that change or read the state and the priority of
-- a process.
use tp2_sistemas_operativos.Base.{
  ℕ, Bool, ◌&&◌, ◌||◌, not, Option, none, some, ℤ, pos, ltb_ℤ, eq_ℤ, minus1, if◌then◌else◌,
}
use tp2_sistemas_operativos.Sched.{
  Sched, Pcb, Status, ready, blocked, killed, is_ready, is_running, is_killed, no_proc, pid_kernel,
  half_priority, set_status, set_rsp, put_priority, get_state, priority_in_range, yield,
}

unfoldable pub process_was_killed : Sched → ℤ → ℤ × Sched
process_was_killed s pid = elim (get_state s pid) [
  | none ↦ (pos 1, s)
  | some pcb ↦ if is_killed pcb.process_status then (pos 0, s) else (
    pos 0,
    record (set_rsp (set_status s pid killed) pid 0) {
      current_pid = if eq_ℤ s.current_pid pid then no_proc else s.current_pid;
    },
  )
]

unfoldable pub block : Sched → ℤ → ℤ × Sched
block s pid = elim (get_state s pid) [
  | none ↦ (minus1, s)
  | some _ ↦ (
    pos 0,
    record (set_status s pid blocked) {
      current_quantum = if eq_ℤ s.current_pid pid_kernel then 0 else s.current_quantum;
    },
  )
]

-- A process of high priority that becomes ready is the next to run.
unfoldable pub set_next_if : Bool → Sched → ℤ → Sched
set_next_if b s pid = record s { next_pid = if b then pid else s.next_pid }

unfoldable pub unblock : Sched → ℤ → ℤ × Sched
unblock s pid = elim (get_state s pid) [
  | none ↦ (minus1, s)
  | some pcb ↦
      if is_ready pcb.process_status || is_running pcb.process_status then (pos 0, s) else (
        pos 0,
        set_next_if (not (ltb_ℤ pcb.priority half_priority)) (set_status s pid ready) pid,
      )
]

unfoldable pub nice : Sched → ℤ → ℤ → ℤ × Sched
nice s pid prio = elim (get_state s pid) [
  | none ↦ (minus1, s)
  | some pcb ↦ if eq_ℤ pid (pos 0) || not (priority_in_range prio) then (minus1, s) else (
    pos 0,
    set_next_if (not (ltb_ℤ prio half_priority) && is_ready pcb.process_status)
        (put_priority s pid prio) pid,
  )
]

unfoldable pub set_priority : Sched → ℤ → ℤ → ℤ × Sched
set_priority s pid prio =
    if not (priority_in_range prio)
    then (minus1, s)
    else elim (get_state s pid) [ none ↦ (minus1, s) | some _ ↦ (pos 0, put_priority s pid prio) ]

-- `get_current_process`: `none` for NULL.
unfoldable pub get_current_process : Sched → Option Pcb
get_current_process s =
    if ltb_ℤ (pos 0) s.current_pid && is_running (s.process_table s.current_pid).process_status
    then some (s.process_table s.current_pid)
    else none

-- `get_process_info`: the status and the priority, `none` for the result -1.
unfoldable pub get_process_info : Sched → ℤ → Option (Status × ℤ)
get_process_info s pid = elim (get_state s pid) [
  | none ↦ none
  | some pcb ↦ some (pcb.process_status, pcb.priority)
]

-- What `kill_current` does to the entry of the current process, before it calls `kill`.
unfoldable pub discard_current : Sched → Sched
discard_current s = set_rsp (set_status s s.current_pid killed) s.current_pid 0

unfoldable pub get_pid : Sched → ℤ
get_pid s = s.current_pid

unfoldable pub wait_for_children : Sched → ℕ → ℕ × Sched
wait_for_children s rsp = yield (block s s.current_pid).1 rsp

-- One test of the loop of `wait_for_pid`: `none` when the caller goes on, and otherwise the switch
-- away from it.
unfoldable pub wait_for_pid : Sched → ℤ → ℕ → Option (ℕ × Sched)
wait_for_pid s pid rsp = elim (get_state s pid) [
  | none ↦ none
  | some pcb ↦
      if is_killed pcb.process_status then none else some (yield (block s s.current_pid).1 rsp)
]
