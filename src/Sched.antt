-- ===== src/Sched.antt =====
-- Kernel/processes_scheduler/scheduler.c: the process table and the choice of the next process.
-- `Control` has the calls that change a process's state or priority. The stack frames of a new process come from Kernel/asm/processes.asm.
pub mod Control
pub mod Select
pub mod Valid
pub mod Steps
pub mod Slices
mod Tests
use tp2_sistemas_operativos.Base.{
  ℕ, zero, suc, ◌+◌, ◌-◌, ◌%◌, ◌^◌, Bool, true, false, ◌&&◌, ◌||◌, not, Option, none, some, ℤ, pos,
  negsuc, ◌+ℤ◌, ltb_ℤ, eq_ℤ, minus1, minus2, to_u8, ltb, ◌==◌, if◌then◌else◌, update, max_processes,
  is_slot,
}

-- `status` of processes.h
pub data Status : Type 0 where
  ready running blocked killed : Status

abbrev pub is_ready : Status → Bool
is_ready ready = true
is_ready _ = false

abbrev pub is_running : Status → Bool
is_running running = true
is_running _ = false

abbrev pub is_killed : Status → Bool
is_killed killed = true
is_killed _ = false

-- `Pcb`; `current_rsp` is an address, 0 for NULL.
pub record Pcb : Type 0 where
  pub priority : ℤ
  pub process_status : Status
  pub current_rsp : ℕ

-- The static variables of scheduler.c. `process_table` has 15 entries: the value at any other index is
-- what the memory beside the table holds.
pub record Sched : Type 0 where
  pub process_table : ℤ → Pcb
  pub current_quantum : ℕ
  pub current_pid : ℤ
  pub next_pid : ℤ
  pub main_rsp : ℕ

abbrev pub no_proc : ℤ
no_proc = minus2

abbrev pub pid_kernel : ℤ
pid_kernel = minus1

abbrev pub quantum : ℤ
quantum = pos 5

abbrev pub min_priority : ℤ
min_priority = pos 0

abbrev pub default_priority : ℤ
default_priority = pos 3

abbrev pub max_priority : ℤ
max_priority = pos 10

-- `MAX_PRIORITY / 2`
abbrev pub half_priority : ℤ
half_priority = pos 5

unfoldable pub init_scheduler : Sched → Sched
init_scheduler s = record s { next_pid = no_proc; current_pid = pid_kernel; current_quantum = 0 }

-- Assignment to a field of `processTable[pid]`.
unfoldable pub set_status : Sched → ℤ → Status → Sched
set_status s pid st = record s {
  process_table = update s.process_table pid (record (s.process_table pid) { process_status = st });
}

unfoldable pub set_rsp : Sched → ℤ → ℕ → Sched
set_rsp s pid rsp = record s {
  process_table = update s.process_table pid (record (s.process_table pid) { current_rsp = rsp });
}

unfoldable pub put_priority : Sched → ℤ → ℤ → Sched
put_priority s pid p = record s {
  process_table = update s.process_table pid (record (s.process_table pid) { priority = p });
}

-- `get_state`: the entry of a live process, `none` for the result -1.
unfoldable pub get_state : Sched → ℤ → Option Pcb
get_state s pid =
    if not (is_slot pid) || (s.process_table pid).current_rsp == 0
    then none
    else some (s.process_table pid)

-- The frame that `create_process_stack` pushes has 20 words of 8 bytes; its result is the new `rsp`.
unfoldable pub create_process_stack : ℕ → ℕ
create_process_stack rsp = (rsp + 2 ^ 64 - 160) % 2 ^ 64

unfoldable pub priority_in_range : ℤ → Bool
priority_in_range p = not (ltb_ℤ p min_priority || ltb_ℤ max_priority p)

unfoldable pub process_was_created : Sched → ℤ → ℤ → ℕ → ℤ × Sched
process_was_created s pid priority rsp =
    let p = if priority_in_range priority then priority else default_priority in
    let s' = set_rsp (put_priority (set_status s pid ready) pid p) pid (create_process_stack rsp) in
    if create_process_stack rsp == 0 then (minus1, s') else (pos 0, s')

unfoldable pub get_quantum : Sched → ℤ → ℕ
get_quantum s pid = to_u8 (quantum +ℤ (s.process_table pid).priority)

-- `currentRSP != NULL && processStatus == READY`
unfoldable pub can_run : Pcb → Bool
can_run p = not (p.current_rsp == 0) && is_ready p.process_status

-- The loop of `get_next_ready`, with the rounds left; the last round is the one at `first`.
unfoldable pub next_ready_loop : ℕ → (ℤ → Pcb) → ℕ → ℕ → ℤ
next_ready_loop zero table first next = pid_kernel
next_ready_loop (suc fuel) table first next =
    let next' = (next + 1) % max_processes in
    let rest = next_ready_loop fuel table first next' in
    if can_run (table (pos next')) then pos next' else if next' == first then pid_kernel else rest

unfoldable pub first_of_pid : ℤ → ℕ
first_of_pid (pos n) = n
first_of_pid (negsuc n) = 0

unfoldable pub get_next_ready : Sched → ℤ
get_next_ready s =
    next_ready_loop max_processes s.process_table (first_of_pid s.current_pid)
      (first_of_pid s.current_pid)

-- The registers of the process that is leaving are kept, and it is ready again if it was running.
unfoldable pub save_current : Sched → ℕ → Sched
save_current s rsp =
    if eq_ℤ s.current_pid pid_kernel
    then record s { main_rsp = rsp }
    else if ltb_ℤ s.current_pid (pos 0)
    then s
    else (let s' = set_rsp s s.current_pid rsp in
        if is_running (s'.process_table s.current_pid).process_status
        then set_status s' s.current_pid ready
        else s')

-- The end of `switch_process`: the chosen process runs, and its stack pointer is returned.
unfoldable pub resume_current : Sched → ℕ × Sched
resume_current s =
    let s' = set_status s s.current_pid running in
    ((s'.process_table s'.current_pid).current_rsp, s')

unfoldable pub take_next : Sched → Sched
take_next s = record s {
  current_pid = s.next_pid;
  next_pid = no_proc;
  current_quantum = get_quantum s s.next_pid;
}

-- The branch that looks for another process.
unfoldable pub rotate : Sched → ℕ × Sched
rotate s =
    let pid = get_next_ready s in
    if eq_ℤ pid pid_kernel
    then (s.main_rsp, record s { current_pid = pid; current_quantum = 0 })
    else resume_current (record s { current_pid = pid; current_quantum = get_quantum s pid })

unfoldable pub choose : Sched → ℕ × Sched
choose s =
    if can_run (s.process_table s.next_pid)
    then resume_current (take_next s)
    else if not (can_run (s.process_table s.current_pid)) || s.current_quantum == 0
    then rotate s
    else resume_current (record s { current_quantum = s.current_quantum - 1 })

unfoldable pub switch_process : Sched → ℕ → ℕ × Sched
switch_process s rsp = choose (save_current s rsp)

-- `yield` gives the rest of the quantum up and raises interrupt 0x81, whose handler `_schedule` calls
-- `switch_process` with the stack pointer of the caller.
unfoldable pub yield : Sched → ℕ → ℕ × Sched
yield s rsp = switch_process (record s { current_quantum = 0 }) rsp
