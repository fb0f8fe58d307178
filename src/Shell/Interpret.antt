-- ===== src/Shell/Interpret.antt =====
-- `interpret` and `handle_piped_process` of Userland/SampleCodeModule/shell.c. What the system calls
-- return is given by a function of the calls made so far, the latest first.
use tp2_sistemas_operativos.Base.{
  ℕ, zero, suc, ◌+◌, ◌-◌, Bool, false, ◌||◌, not, Option, none, some, List, [], ◌∷◌, map, ℤ, pos,
  negsuc, minus1, eq_ℤ, ltb_ℤ, to_u32, ltb, ◌==◌, if◌then◌else◌, length, take, drop, get_or, set,
}
use tp2_sistemas_operativos.Text.{Text, strcmp}
use tp2_sistemas_operativos.Shell.{
  Command, ProcessStart, no_function, command_list, find_command, codes, tokenize,
}

-- `DEFAULT_PRIORITY` of defs.h
abbrev pub user_priority : ℤ
user_priority = pos 3

-- `createProcessInfo` as the shell fills it; `argv` is the array it points to, with `none` for NULL.
pub record CommandProc : Type 0 where
  pub name : Text
  pub start : ProcessStart
  pub priority : ℤ
  pub argc : ℕ
  pub argv : List (Option Text)
  pub fg_flag : Bool
  pub input : ℕ
  pub output : ℕ

-- The system calls of the shell, and its messages on the screen for errors.
pub data Call : Type 0 where
  sys_create_process : CommandProc → Call
  sys_wait_for_pid : ℤ → Call
  sys_open_pipe : Call
  sys_close_pipe : ℤ → Call
  complain : Call

-- The value of the call, the new `bg_flag`, and the calls made, the latest first.
abbrev pub Outcome : Type 0
Outcome = ℤ × (Bool × List Call)

abbrev pub blank_command : Command
blank_command = record { name = []; is_pipeable = false; number_args = 0; start = no_function }

abbrev pub command_at : List Command → ℕ → Command
command_at [] i = blank_command
command_at (c ∷ commands) zero = c
command_at (c ∷ commands) (suc i) = command_at commands i

abbrev pub index_of : ℤ → ℕ
index_of (pos i) = i
index_of (negsuc i) = 0

abbrev pub arg : List (Option Text) → ℕ → Text
arg args i = elim (get_or args i none) [ none ↦ [] | some text ↦ text ]

-- `args[j] = args[j + 1]` for `left` indices from `j` on.
unfoldable pub shift_loop : ℕ → List (Option Text) → ℕ → List (Option Text)
shift_loop zero args j = args
shift_loop (suc left) args j = shift_loop left (set args j (get_or args (j + 1) none)) (j + 1)

-- The command's name goes, and NULL stands behind the other arguments.
unfoldable pub without_name : List (Option Text) → ℕ → List (Option Text)
without_name args argc = set (shift_loop (argc - 1) args 0) (argc - 1) none

abbrev pub is_text : Text → Text → Bool
is_text a b = eq_ℤ (strcmp a b) (pos 0)

-- Where the loop over the arguments ends: at a pipe, or behind the last argument.
pub data Scan : Type 0 where
  piped : ℕ → List (Option Text) → ℕ → Bool → Scan
  plain : List (Option Text) → ℕ → Bool → Scan

-- The loop of `interpret` from the index `i` on, with `argc` arguments left. An index behind them has at
-- most the rounds of `fuel` to go.
unfoldable pub scan_loop : ℕ → List (Option Text) → ℕ → ℕ → Bool → Scan
scan_loop zero args argc i bg = plain args argc bg
scan_loop (suc fuel) args argc i bg =
    let flag = is_text (arg args i) (codes "-b") in
    let args' = if flag then shift_loop (argc - 1 - i) args i else args in
    let argc' = if flag then argc - 1 else argc in
    let rest = scan_loop fuel args' argc' (i + 1) (bg || flag) in
    if not (ltb i argc)
    then plain args argc bg
    else if is_text (arg args' i) (codes "|")
    then piped i args' argc' (bg || flag)
    else rest

module _ (answer : List Call → ℤ) where
  -- The two processes of a pipe, once the pipe is open.
  unfoldable pub run_piped : CommandProc → CommandProc → ℤ → Bool → List Call → Outcome
  run_piped producer consumer pipe_fd bg calls =
      let created1 = sys_create_process producer ∷ calls in
      let pid1 = answer created1 in
      let created2 = sys_create_process consumer ∷ created1 in
      let pid2 = answer created2 in
      if ltb_ℤ pid1 (pos 0)
      then (minus1, (bg, complain ∷ created1))
      else if ltb_ℤ pid2 (pos 0)
      then (minus1, (bg, complain ∷ created2))
      else (
        pos 0,
        (
          false,
          sys_close_pipe pipe_fd
              ∷ (if bg then created2 else sys_wait_for_pid pid1 ∷ sys_wait_for_pid pid2 ∷ created2),
        ),
      )

  unfoldable pub handle_piped_process :
      ℕ → List (Option Text) → ℕ → List (Option Text) → Bool → Outcome
  handle_piped_process argc1 argv1 argc2 argv2 bg =
      let pos1 = find_command (arg argv1 0) in
      let pos2 = find_command (arg argv2 0) in
      let consumer = command_at command_list (index_of pos2) in
      let pipe_fd = answer (sys_open_pipe ∷ []) in
      if ltb argc1 1 || ltb argc2 1
      then (minus1, (bg, []))
      else if ltb_ℤ pos1 (pos 0) || ltb_ℤ pos2 (pos 0)
      then (minus1, (bg, complain ∷ []))
      else if not consumer.is_pipeable
      then (minus1, (bg, complain ∷ []))
      else if ltb_ℤ pipe_fd (pos 0)
      then (minus1, (bg, complain ∷ sys_open_pipe ∷ []))
      else run_piped
          (record {
            name = (command_at command_list (index_of pos1)).name;
            start = (command_at command_list (index_of pos1)).start;
            priority = user_priority;
            argc = argc1;
            argv = without_name argv1 argc1;
            fg_flag = not bg;
            input = 0;
            output = to_u32 pipe_fd;
          })
          (record {
            name = consumer.name;
            start = consumer.start;
            priority = user_priority;
            argc = argc2;
            argv = without_name argv2 argc2;
            fg_flag = not bg;
            input = to_u32 pipe_fd;
            output = 1;
          })
          pipe_fd bg (sys_open_pipe ∷ [])

  -- A command without a pipe.
  unfoldable pub run_command : List (Option Text) → ℕ → Bool → Outcome
  run_command args argc bg =
      let at = find_command (arg args 0) in
      let found = command_at command_list (index_of at) in
      let process : CommandProc = record {
        name = found.name;
        start = found.start;
        priority = user_priority;
        argc = argc - 1;
        argv = without_name args argc;
        fg_flag = not bg;
        input = 0;
        output = 1;
      } in
      let created = sys_create_process process ∷ [] in
      if ltb_ℤ at (pos 0) || not (argc == found.number_args + 1)
      then (pos 1, (bg, complain ∷ []))
      else (pos 0, (false, if bg then created else sys_wait_for_pid (answer created) ∷ created))

  unfoldable pub run_scan : Scan → Outcome
  run_scan (piped i args argc bg) =
      handle_piped_process i (take i args) (argc - (i + 1))
        (take (argc - (i + 1)) (drop (i + 1) args)) bg
  run_scan (plain args argc bg) = run_command args argc bg

  -- The first `argc` entries of `args` are the arguments.
  unfoldable pub interpret : List (Option Text) → ℕ → Bool → Outcome
  interpret args argc bg = run_scan (scan_loop (argc + 1) args argc 0 bg)

-- `insert_command` behind the reading of a line: its arguments are interpreted. There is always one.
unfoldable pub run_line : (List Call → ℤ) → Text → Bool → Outcome
run_line answer line bg =
    let words = tokenize line in interpret answer (map some words) (length words) bg
