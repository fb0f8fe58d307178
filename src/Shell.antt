-- ===== src/Shell.antt =====
-- The shell of Userland/SampleCodeModule/shell.c: its table of commands and the tokenizer of
-- lib/shellUtils.c. `Interpret` runs a line, and `Line` reads one.
pub mod Interpret
pub mod Line
pub mod Words
pub mod Typing
pub mod Shift
pub mod Runs
pub mod Cut
pub mod Piped
mod Tests
use Prim.Native.Char.{code}
use Prim.Native.String.{String}
use tp2_sistemas_operativos.Base.{
  ℕ, zero, suc, ◌+◌, Bool, true, false, ◌&&◌, not, List, [], ◌∷◌, ◌++◌, map, ℤ, pos, minus1, eq_ℤ,
  ltb, ◌==◌, if◌then◌else◌, length, drop,
}
use tp2_sistemas_operativos.Text.{Text, strcmp}

-- The bytes of a text of ASCII characters.
abbrev pub codes : String → Text
codes String.[] = []
codes (String.◌∷◌ c s) = code c ∷ codes s

-- The functions that the commands start, and NULL.
pub data ProcessStart : Type 0 where
  help time eliminator regs sys_clear_screen scale_down_command scale_up_command div_zero
        invalid_opcode test_mm test_processes test_prio test_sync ps loop sys_kill sys_block
        sys_unblock nice_command print_memory_info test_pipe cat filter wc phylo no_function :
      ProcessStart

-- `Command`, without its line of usage.
pub record Command : Type 0 where
  pub name : Text
  pub is_pipeable : Bool
  pub number_args : ℕ
  pub start : ProcessStart

abbrev command : String → Bool → ℕ → ProcessStart → Command
command name is_pipeable number_args start = record {
  name = codes name;
  is_pipeable = is_pipeable;
  number_args = number_args;
  start = start;
}

unfoldable pub command_list : List Command
command_list =
    command "help" false 0 ProcessStart.help
    ∷ command "time" false 0 ProcessStart.time
    ∷ command "eliminator" false 0 ProcessStart.eliminator
    ∷ command "regs" false 0 ProcessStart.regs
    ∷ command "clear" false 0 ProcessStart.sys_clear_screen
    ∷ command "scaledown" false 0 ProcessStart.scale_down_command
    ∷ command "scaleup" false 0 ProcessStart.scale_up_command
    ∷ command "divzero" false 0 ProcessStart.div_zero
    ∷ command "invalidopcode" false 0 ProcessStart.invalid_opcode
    ∷ command "testmm" false 1 ProcessStart.test_mm
    ∷ command "testproc" false 1 ProcessStart.test_processes
    ∷ command "testprio" false 0 ProcessStart.test_prio
    ∷ command "testsync" false 2 ProcessStart.test_sync
    ∷ command "ps" false 0 ProcessStart.ps
    ∷ command "loop" false 0 ProcessStart.loop
    ∷ command "kill" false 1 ProcessStart.sys_kill
    ∷ command "block" false 1 ProcessStart.sys_block
    ∷ command "unblock" false 1 ProcessStart.sys_unblock
    ∷ command "nice" false 2 ProcessStart.nice_command
    ∷ command "mem" false 0 ProcessStart.print_memory_info
    ∷ command "testpipe" false 0 ProcessStart.test_pipe
    ∷ command "cat" true 0 ProcessStart.cat
    ∷ command "filter" true 0 ProcessStart.filter
    ∷ command "wc" true 0 ProcessStart.wc
    ∷ command "phylo" false 1 ProcessStart.phylo
    ∷ []

-- The loop of `find_command` from the entry `i` on.
unfoldable pub find_loop : List Command → Text → ℕ → ℤ
find_loop [] name i = minus1
find_loop (c ∷ commands) name i =
    let rest = find_loop commands name (i + 1) in
    if eq_ℤ (strcmp c.name name) (pos 0) then pos i else rest

unfoldable pub find_command : Text → ℤ
find_command name = find_loop command_list name 0

abbrev pub buffer_size : ℕ
buffer_size = 1024

abbrev pub space : ℕ
space = b' '

-- The loop of `tokenize`: the bytes from `current` on, and where each argument starts.
unfoldable pub tokenize_loop : Text → ℕ → List ℕ → List ℕ
tokenize_loop [] current args = args
tokenize_loop (c ∷ rest) current args =
    let starts = c == space && (not (length rest == 0) && ltb (length args) buffer_size) in
    tokenize_loop rest (current + 1) (if starts then args ++ (current + 1) ∷ [] else args)

-- Every space in the buffer becomes the end of a text.
unfoldable pub cut_spaces : Text → Text
cut_spaces [] = []
cut_spaces (c ∷ rest) = (if c == space then 0 else c) ∷ cut_spaces rest

-- The text that a buffer holds, up to its first 0.
unfoldable pub text_in : Text → Text
text_in [] = []
text_in (c ∷ rest) = if c == 0 then [] else c ∷ text_in rest

unfoldable pub text_at : Text → ℕ → Text
text_at buffer start = text_in (drop start buffer)

-- The arguments of a line, as the texts at their addresses in the buffer.
unfoldable pub tokenize : Text → List Text
tokenize buffer = map (text_at (cut_spaces buffer)) (tokenize_loop buffer 0 (0 ∷ []))
