-- ===== src/Proc.antt =====
-- Kernel/processes_scheduler/processes.c: the table of processes with their stacks, names and arguments,
-- and who is whose child. `Create` and `Kill` have the calls that add and remove a process. Messages on
-- the screen are not part of the state.
pub mod Create
pub mod Kill
pub mod Heap
pub mod Ledger
pub mod Balance
pub mod Takes
pub mod Fresh
pub mod Leaks
mod Tests
use tp2_sistemas_operativos.Base.{
  ℕ, zero, suc, ◌+◌, ◌-◌, ◌*◌, ◌%◌, ◌^◌, Bool, true, false, ◌&&◌, ◌||◌, not, Option, none, some,
  List, [], ◌∷◌, ℤ, pos, sub_ℕ, minus1, ◌+ℤ◌, ◌-ℤ◌, ltb_ℤ, eq_ℤ, ltb, ◌==◌, if◌then◌else◌, update,
  max_processes, is_slot,
}
use tp2_sistemas_operativos.Text.{Text, strcpy}
use tp2_sistemas_operativos.Sched.{Sched, Status, no_proc, pid_kernel}
use tp2_sistemas_operativos.Sched.Control.{unblock, get_process_info}
use tp2_sistemas_operativos.Pipe.{Pipes}

-- The file descriptors of lib.h, and the two values of `fg_flag`.
abbrev pub stdin : ℕ
stdin = 0

abbrev pub stdout : ℕ
stdout = 1

abbrev pub background : ℤ
background = pos 0

abbrev pub foreground : ℤ
foreground = pos 1

abbrev pub stack_size : ℕ
stack_size = 4096

-- `ProcessS`. An address is 0 for NULL. A name or an argument is its text and its address: `args` is what
-- the array at `argv` holds, and `blocks` what the array at `memory` holds.
pub record ProcessS : Type 0 where
  pub name : Text × ℕ
  pub stack_start : ℕ
  pub stack_end : ℕ
  pub fg_flag : ℤ
  pub argv : ℕ
  pub args : List (Text × ℕ)
  pub argc : ℤ
  pub memory : ℕ
  pub blocks : List ℕ
  pub parent : ℤ
  pub input : ℕ
  pub output : ℕ

-- What `memset(process, 0, sizeof(ProcessS))` leaves.
abbrev pub zeroed : ProcessS
zeroed = record {
  name = ([], 0);
  stack_start = 0;
  stack_end = 0;
  fg_flag = pos 0;
  argv = 0;
  args = [];
  argc = pos 0;
  memory = 0;
  blocks = [];
  parent = pos 0;
  input = 0;
  output = 0;
}

pub record FamilyUnit : Type 0 where
  pub children_arr : ℤ → ℤ
  pub number_of_children : ℤ

-- The static variables, with the pipes, semaphores, scheduler and heap that the calls use. The two arrays
-- have 15 entries: at another index stands what the memory beside them holds.
pub record Procs (Heap : Type 0) : Type 0 where
  pub process_arr : ℤ → ProcessS
  pub families : ℤ → FamilyUnit
  pub last_pid : ℤ
  pub pipes : Pipes Heap

-- `ProcessInfo`; `state` is what get_process_info writes, `none` where it writes nothing.
pub record ProcessInfo : Type 0 where
  pub pid : ℤ
  pub name : Text
  pub stack_start : ℕ
  pub stack_end : ℕ
  pub fg_flag : ℤ
  pub state : Option (Status × ℤ)
  pub parent : ℤ
  pub input : ℕ
  pub output : ℕ

-- An `unsigned int` read as an `int`.
unfoldable pub to_i32 : ℕ → ℤ
to_i32 n = if ltb (n % 2 ^ 32) (2 ^ 31) then pos (n % 2 ^ 32) else sub_ℕ (n % 2 ^ 32) (2 ^ 32)

-- The processes that no pipe can stand before.
unfoldable pub is_outside : ℤ → Bool
is_outside pid = eq_ℤ pid no_proc || (eq_ℤ pid pid_kernel || eq_ℤ pid (pos 0))

module _ {H : Type 0} where
  abbrev pub sched_of : Procs H → Sched
  sched_of st = st.pipes.sems.sched

  abbrev pub with_sched : Procs H → Sched → Procs H
  with_sched st s = record st {
    pipes = record (st.pipes) { sems = record (st.pipes.sems) { sched = s } };
  }

  unfoldable pub set_process : Procs H → ℤ → ProcessS → Procs H
  set_process st pid p = record st { process_arr = update st.process_arr pid p }

  -- `families[parent].childrenArr[child] = flag` and a new count of the children.
  unfoldable pub set_child : Procs H → ℤ → ℤ → ℤ → ℤ → Procs H
  set_child st parent child flag count = record st {
    families = update st.families parent (record {
      children_arr = update (st.families parent).children_arr child flag;
      number_of_children = count;
    });
  }

  unfoldable pub add_child : Procs H → ℤ → ℤ → Procs H
  add_child st parent child =
      set_child st parent child (pos 1) ((st.families parent).number_of_children +ℤ pos 1)

  unfoldable pub drop_child : Procs H → ℤ → ℤ → Procs H
  drop_child st parent child =
      set_child st parent child (pos 0) ((st.families parent).number_of_children -ℤ pos 1)

  -- `find_pid`: whether the process exists.
  unfoldable pub find_pid : Procs H → ℤ → Bool
  find_pid st pid = is_slot pid && not ((st.process_arr pid).stack_end == 0)

  unfoldable pub is_foreground : Procs H → ℤ → ℤ
  is_foreground st pid = if find_pid st pid then (st.process_arr pid).fg_flag else minus1

  unfoldable pub send_to_background : Procs H → ℤ → ℤ × Procs H
  send_to_background st pid =
      if find_pid st pid
      then (pos 0, set_process st pid (record (st.process_arr pid) { fg_flag = background }))
      else (minus1, st)

  unfoldable pub bring_to_foreground : Procs H → ℤ → ℤ × Procs H
  bring_to_foreground st pid =
      if find_pid st pid
      then (foreground, set_process st pid (record (st.process_arr pid) { fg_flag = foreground }))
      else (minus1, st)

  unfoldable pub get_process_input : Procs H → ℤ → ℤ
  get_process_input st pid =
      if is_outside pid
      then pos stdin
      else if find_pid st pid
      then to_i32 (st.process_arr pid).input
      else minus1

  unfoldable pub get_process_output : Procs H → ℤ → ℤ
  get_process_output st pid =
      if is_outside pid
      then pos stdout
      else if find_pid st pid
      then to_i32 (st.process_arr pid).output
      else minus1

  -- The loop of `remove_child` over the children, `left` of them to come: whether one is not in the
  -- background. `is_foreground` is also not 0 for a process that does not exist.
  unfoldable pub fg_child_loop : Procs H → ℤ → ℕ → ℕ → Bool
  fg_child_loop st parent zero i = false
  fg_child_loop st parent (suc left) i =
      let rest = fg_child_loop st parent left (i + 1) in
      (not (eq_ℤ ((st.families parent).children_arr (pos i)) (pos 0))
        && not (eq_ℤ (is_foreground st (pos i)) (pos 0)))
      || rest

  -- The parent waits no longer when its last child in the foreground has gone.
  unfoldable pub unblock_parent : Procs H → ℤ → Procs H
  unblock_parent st parent =
      let has_children = ltb_ℤ (pos 0) (st.families parent).number_of_children in
      if has_children && fg_child_loop st parent max_processes 0
      then st
      else with_sched st (unblock (sched_of st) parent).1

  unfoldable pub remove_child : Procs H → ℤ → Procs H
  remove_child st child =
      let parent = (st.process_arr child).parent in
      if eq_ℤ parent no_proc then st else unblock_parent (drop_child st parent child) parent

  unfoldable pub shell_adoption : Procs H → ℤ → ℤ → Procs H
  shell_adoption st child last_parent =
      let dropped = drop_child st last_parent child in
      add_child (set_process dropped child (record (dropped.process_arr child) { parent = pos 0 }))
        (pos 0) child

  -- One entry of the list of processes.
  unfoldable pub info_of : Procs H → ℤ → ProcessInfo
  info_of st pid =
      let p = st.process_arr pid in
      record {
        pid = pid;
        name = strcpy p.name.0;
        stack_start = p.stack_start;
        stack_end = p.stack_end;
        fg_flag = p.fg_flag;
        state = get_process_info (sched_of st) pid;
        parent = p.parent;
        input = p.input;
        output = p.output;
      }

  -- The loop of `list_processes_info`: `room` more entries fit.
  unfoldable pub list_loop : Procs H → ℕ → ℕ → ℕ → List ProcessInfo
  list_loop st zero i room = []
  list_loop st (suc left) i room =
      let found = not (room == 0) && not ((st.process_arr (pos i)).stack_end == 0) in
      let rest = list_loop st left (i + 1) (if found then room - 1 else room) in
      if found then info_of st (pos i) ∷ rest else rest

  -- A bound that is not positive admits no entry.
  unfoldable pub list_processes_info : Procs H → ℤ → List ProcessInfo
  list_processes_info st (pos max) = list_loop st max_processes 0 max
  list_processes_info st other = []
