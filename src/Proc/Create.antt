-- ===== src/Proc/Create.antt =====
-- `create_process` of Kernel/processes_scheduler/processes.c.
use tp2_sistemas_operativos.Base.{
  ℕ, zero, suc, ◌+◌, ◌*◌, Bool, true, false, ◌&&◌, ◌||◌, not, Option, none, some, List, [], ◌∷◌, ℤ,
  pos, negsuc, minus1, ◌+ℤ◌, ltb_ℤ, eq_ℤ, to_u32, ltb, ◌==◌, if◌then◌else◌, max_processes,
}
use tp2_sistemas_operativos.Alloc.{Allocator}
use tp2_sistemas_operativos.Text.{Text, strlen, strcpy}
use tp2_sistemas_operativos.Sched.{process_was_created}
use tp2_sistemas_operativos.Sched.Control.{get_pid}
use tp2_sistemas_operativos.Proc.{
  Procs, ProcessS, zeroed, stdin, stdout, stack_size, sched_of, with_sched, set_process, add_child,
  get_process_input, get_process_output,
}

abbrev pub max_name_length : ℕ
max_name_length = 20

-- `createProcessInfo`. `name` is `none` for NULL, and `argv` has the text of each argument.
pub record CreateInfo : Type 0 where
  pub name : Option Text
  pub fg_flag : ℤ
  pub priority : ℤ
  pub argc : ℤ
  pub argv : ℕ → Text
  pub input : ℕ
  pub output : ℕ

-- The loop of `name_validation`, with the rounds left: whether the text ends within them.
unfoldable pub name_loop : ℕ → Text → Bool
name_loop zero name = false
name_loop (suc left) [] = true
name_loop (suc left) (c ∷ name) = name_loop left name

unfoldable pub name_validation : Option Text → Bool
name_validation none = false
name_validation (some name) = name_loop (max_name_length + 1) name

-- The first slot from `i` on that no process uses, `left` slots to come.
unfoldable pub slot_loop : (ℤ → ProcessS) → ℕ → ℕ → ℕ
slot_loop arr zero i = i
slot_loop arr (suc left) i =
    let rest = slot_loop arr left (i + 1) in if (arr (pos i)).stack_end == 0 then i else rest

-- The number of arguments that the loop over them goes through.
abbrev pub count_of : ℤ → ℕ
count_of (pos n) = n
count_of (negsuc n) = 0

-- What was allocated for a new process: the stack, the copy of the name, the array of arguments and
-- the arguments, the last one first.
pub record Taken : Type 0 where
  pub stack_at : ℕ
  pub name_at : ℕ
  pub argv_at : ℕ
  pub copied : List (Text × ℕ)

unfoldable pub reverse_args : List (Text × ℕ) → List (Text × ℕ) → List (Text × ℕ)
reverse_args [] args = args
reverse_args (a ∷ copied) args = reverse_args copied (a ∷ args)

-- What the new process reads from or writes to: a pipe of its parent in place of the keyboard or screen.
unfoldable pub inherit : ℤ → ℕ → ℕ → ℕ
inherit of_parent standard wanted =
    if not (eq_ℤ of_parent (pos standard)) && wanted == standard then to_u32 of_parent else wanted

module _ (A : Allocator) where
  open A use {Heap, malloc, free}

  -- The arguments copied last are freed first.
  unfoldable pub free_args : List (Text × ℕ) → Heap → Heap
  free_args [] h = h
  free_args ((text, at) ∷ args) h = free_args args (free at h)

  -- The copies of the arguments from `i` on, the last one first, or `none` when there is no memory.
  unfoldable pub args_loop :
      (ℕ → Text)
      → ℕ
      → ℕ
      → List (Text × ℕ)
      → Heap
      → Option (List (Text × ℕ)) × (List (Text × ℕ) × Heap)
  args_loop argv zero i copied h = (some copied, (copied, h))
  args_loop argv (suc left) i copied h =
      let (at, h') = malloc (strlen (argv i) + 1) h in
      let rest = args_loop argv left (i + 1) ((strcpy (argv i), at) ∷ copied) h' in
      if at == 0 then (none, (copied, h')) else rest

  -- The allocation of the arguments, once the stack and the name have their memory.
  unfoldable pub take_args : CreateInfo → ℕ → ℕ → Heap → Option Taken × Heap
  take_args info stack_at name_at h =
      let (argv_at, h') = malloc (8 * count_of info.argc) h in
      let (all, (copied, h'')) = args_loop info.argv (count_of info.argc) 0 [] h' in
      if eq_ℤ info.argc (pos 0)
      then (some (record { stack_at = stack_at; name_at = name_at; argv_at = 0; copied = [] }), h)
      else if argv_at == 0
      then (none, free name_at (free stack_at h'))
      else elim all [
        | none ↦ (none, free argv_at (free_args copied (free name_at (free stack_at h''))))
        | some args ↦ (
          some
              (record { stack_at = stack_at; name_at = name_at; argv_at = argv_at; copied = args }),
          h'',
        )
      ]

  -- All the memory of a new process, or nothing.
  unfoldable pub take_memory : CreateInfo → Text → Heap → Option Taken × Heap
  take_memory info name h =
      let (stack_at, h1) = malloc stack_size h in
      let (name_at, h2) = malloc (strlen name + 1) h1 in
      if stack_at == 0
      then (none, h1)
      else if name_at == 0
      then (none, free stack_at h2)
      else take_args info stack_at name_at h2

  unfoldable pub new_process : Procs Heap → CreateInfo → Text → Taken → ℤ → ℤ → Procs Heap
  new_process st info name taken parent pid =
      let fresh = set_process st pid (record zeroed {
        stack_end = taken.stack_at;
        stack_start = taken.stack_at + stack_size;
        fg_flag = info.fg_flag;
        name = (strcpy name, taken.name_at);
        argv = taken.argv_at;
        args = reverse_args taken.copied [];
        argc = info.argc;
      }) in
      let born = add_child fresh parent pid in
      let named = set_process born pid (record (born.process_arr pid) { parent = parent }) in
      set_process named pid (record (named.process_arr pid) {
        input = inherit (get_process_input named parent) stdin info.input;
        output = inherit (get_process_output named parent) stdout info.output;
      })

  abbrev pub with_heap : Procs Heap → Heap → Procs Heap
  with_heap st h = record st {
    pipes = record (st.pipes) { sems = record (st.pipes.sems) { heap = h } };
  }

  -- The process enters the tables of processes and of the scheduler.
  unfoldable pub enter_process : Procs Heap → CreateInfo → Text → Taken → ℕ → ℤ × Procs Heap
  enter_process st info name taken pid =
      let entered = new_process st info name taken (get_pid (sched_of st)) (pos pid) in
      let stack_start = taken.stack_at + stack_size in
      let started = process_was_created (sched_of entered) (pos pid) info.priority stack_start in
      (pos pid, record (with_sched entered started.1) { last_pid = entered.last_pid +ℤ pos 1 })

  -- The rest of the call, behind its checks.
  unfoldable pub create_named : Procs Heap → CreateInfo → ℕ → Option Text → ℤ × Procs Heap
  create_named st info pid none = (minus1, st)
  create_named st info pid (some name) =
      let (taken, h) = take_memory info name st.pipes.sems.heap in
      elim taken [
        | none ↦ (minus1, with_heap st h)
        | some t ↦ enter_process (with_heap st h) info name t pid
      ]

  unfoldable pub create_process : Procs Heap → CreateInfo → ℤ × Procs Heap
  create_process st info =
      let pid = slot_loop st.process_arr max_processes 0 in
      if not (ltb pid max_processes) || (ltb_ℤ info.argc (pos 0) || not (name_validation info.name))
      then (minus1, st)
      else create_named st info pid info.name
