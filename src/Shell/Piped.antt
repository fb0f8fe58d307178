-- ===== src/Shell/Piped.antt =====
-- Lines with a pipe, and lines that fail, at the shell.
use tp2_sistemas_operativos.Base.{
  ℕ, ◌+◌, ◌≡◌, ◌≢◌, refl, ap, ◌∙◌, arith, Bool, true, false, not, none, List, [], ◌∷◌, ◌++◌, ℤ, pos,
  negsuc, ltb_ℤ, eq_ℤ, to_u32, if◌then◌else◌, length, ◌⊎◌, minus1,
}
use tp2_sistemas_operativos.Text.{Text, strcmp}
use tp2_sistemas_operativos.Shell.{codes, command_list, find_command}
use tp2_sistemas_operativos.Shell.Shift.{texts}
use tp2_sistemas_operativos.Shell.Words.{IsWord, spaced, tokenize-words}
use tp2_sistemas_operativos.Shell.Runs.{IsWord-IsText, not_text}
use tp2_sistemas_operativos.Shell.Interpret.{
  CommandProc, user_priority, Call, Outcome, sys_create_process, sys_wait_for_pid, sys_open_pipe,
  sys_close_pipe, complain, command_at, run_line, interpret, run_scan, is_text, shift_loop,
  scan_loop, plain, run_command,
}

-- The process that a command of a pipe becomes. Its count of arguments is one more than the arguments
-- that it has.
abbrev pub piped_process : ℕ → List Text → Bool → ℕ → ℕ → CommandProc
piped_process at words fg input output = record {
  name = (command_at command_list at).name;
  start = (command_at command_list at).start;
  priority = user_priority;
  argc = length words + 1;
  argv = texts words ++ none ∷ [];
  fg_flag = fg;
  input = input;
  output = output;
}

-- How a line with a pipe ends, for the values that the system calls return.
module _ (answer : List Call → ℤ) (at1 at2 : ℕ) (a b : List Text) (bg : Bool) where
  abbrev pub pipe_fd : ℤ
  pipe_fd = answer (sys_open_pipe ∷ [])

  abbrev pub with_producer : List Call
  with_producer =
      sys_create_process (piped_process at1 a (not bg) 0 (to_u32 pipe_fd)) ∷ sys_open_pipe ∷ []

  abbrev pub with_both : List Call
  with_both = sys_create_process (piped_process at2 b (not bg) (to_u32 pipe_fd) 1) ∷ with_producer

  abbrev pub waited_for : List Call
  waited_for =
      sys_wait_for_pid (answer with_producer) ∷ sys_wait_for_pid (answer with_both) ∷ with_both

  abbrev pub PipedEnds : Outcome → Type 0
  PipedEnds r =
      ((ltb_ℤ pipe_fd (pos 0) ≡ true) × (r ≡ (minus1, (bg, complain ∷ sys_open_pipe ∷ []))))
      ⊎ ((ltb_ℤ pipe_fd (pos 0) ≡ false)
          × (((ltb_ℤ (answer with_producer) (pos 0) ≡ true)
                × (r ≡ (minus1, (bg, complain ∷ with_producer))))
              ⊎ ((ltb_ℤ (answer with_producer) (pos 0) ≡ false)
                  × (((ltb_ℤ (answer with_both) (pos 0) ≡ true)
                        × (r ≡ (minus1, (bg, complain ∷ with_both))))
                      ⊎ ((ltb_ℤ (answer with_both) (pos 0) ≡ false)
                          × (r ≡ (
                            pos 0,
                            (
                              false,
                              sys_close_pipe pipe_fd ∷ (if bg then with_both else waited_for),
                            ),
                          )))))))

scan-flag :
    (w : Text)
    → is_text w (codes "-b") ≡ false
    → is_text w (codes "|") ≡ false
    → scan_loop 3 (texts (w ∷ codes "-b" ∷ [])) 2 0 false
      ≡ plain (texts (w ∷ codes "-b" ∷ [])) 1 true
unfolding scan_loop shift_loop strcmp eq_ℤ
scan-flag w not_flag not_pipe = rw (not_flag, not_pipe) refl

run_command-unknown :
    (answer : List Call → ℤ) (w : Text)
    → find_command w ≡ negsuc 0
    → run_scan answer (plain (texts (w ∷ codes "-b" ∷ [])) 1 true) ≡ (pos 1, (true, complain ∷ []))
unfolding run_scan run_command ltb_ℤ
run_command-unknown answer w unknown = rw unknown refl

-- A line with an unknown command and -b behind it fails, and leaves the flag set that puts the next
-- command into the background.
pub background_stays :
    (answer : List Call → ℤ) (w : Text)
    → IsWord w
    → w ≢ []
    → w ≢ codes "-b"
    → w ≢ codes "|"
    → find_command w ≡ negsuc 0
    → run_line answer (w ++ spaced (codes "-b" ∷ [])) false ≡ (pos 1, (true, complain ∷ []))
unfolding run_line interpret
background_stays answer w h nonempty not_flag not_pipe unknown =
    ap (λ (l : List Text). interpret answer (texts l) (length l) false)
      (tokenize-words w (codes "-b" ∷ []) (h, (nonempty, (omega arith, (λ e. cc, _))))
        (omega arith))
    ∙ ap (run_scan answer) (
        scan-flag w (not_text w (codes "-b") (IsWord-IsText w h) (omega arith) not_flag)
          (not_text w (codes "|") (IsWord-IsText w h) (omega arith) not_pipe))
    ∙ run_command-unknown answer w unknown
