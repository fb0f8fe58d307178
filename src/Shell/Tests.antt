-- ===== src/Shell/Tests.antt =====
-- Lines typed at the shell.
use tp2_sistemas_operativos.Base.{
  ◌≡◌, refl, arith, true, false, some, List, [], ◌∷◌, ◌++◌, ℤ, pos, negsuc, eq_ℤ,
}
use tp2_sistemas_operativos.Text.{strcmp}
use tp2_sistemas_operativos.Shell.{
  codes, command_list, find_command, find_loop, tokenize, tokenize_loop, text_at, text_in,
  cut_spaces,
}
use tp2_sistemas_operativos.Shell.Line.{read_line, enter, backspace}
use tp2_sistemas_operativos.Shell.Words.{spaced, tokenize-words}
use tp2_sistemas_operativos.Shell.Typing.{read_line-erased}
use tp2_sistemas_operativos.Shell.Interpret.{
  Call, sys_create_process, sys_wait_for_pid, complain, run_line,
}
use tp2_sistemas_operativos.Shell.Runs.{process_of, typed_command}
use tp2_sistemas_operativos.Shell.Piped.{background_stays}

-- Every call of the system succeeds.
abbrev seven : List Call → ℤ
seven calls = pos 7

nice_found : find_command (codes "nice") ≡ pos 18
unfolding find_command find_loop command_list strcmp eq_ℤ
nice_found = refl

oops_unknown : find_command (codes "oops") ≡ negsuc 0
unfolding find_command find_loop command_list strcmp eq_ℤ
oops_unknown = refl

typed_command_example :
    (read_line ((codes "nice" ++ spaced (codes "4" ∷ codes "7" ∷ [])) ++ enter ∷ [])
      ≡ some (codes "nice" ++ spaced (codes "4" ∷ codes "7" ∷ [])))
    × (run_line seven (codes "nice" ++ spaced (codes "4" ∷ codes "7" ∷ [])) false ≡ (
      pos 0,
      (
        false,
        sys_wait_for_pid (pos 7)
            ∷ sys_create_process (process_of 18 (codes "4" ∷ codes "7" ∷ []))
            ∷ [],
      ),
    ))
unfolding spaced command_list
typed_command_example =
    typed_command seven (codes "nice") (codes "4" ∷ codes "7" ∷ []) 18 []
      (omega arith, (λ e. cc, (omega arith, (λ e. cc, (omega arith, (λ e. cc, _))))))
      (
        (λ e. ground arith, λ e. ground arith),
        ((λ e. ground arith, λ e. ground arith), ((λ e. ground arith, λ e. ground arith), _)),
      )
      (omega arith) (omega arith) nice_found refl

tokenize-words_example :
    tokenize (codes "kill" ++ spaced (codes "12" ∷ [])) ≡ codes "kill" ∷ codes "12" ∷ []
tokenize-words_example =
    tokenize-words (codes "kill") (codes "12" ∷ [])
      (omega arith, (λ e. cc, (omega arith, (λ e. cc, _)))) (omega arith)

read_line-erased_example :
    read_line (codes "pas" ++ b'x' ∷ backspace ∷ enter ∷ []) ≡ read_line (codes "pas" ++ enter ∷ [])
read_line-erased_example =
    read_line-erased (codes "pas") b'x' (enter ∷ []) (omega arith) (omega arith) (λ e. omega arith)
      (λ e. omega arith) (λ e. omega arith)

background_stays_example :
    run_line seven (codes "oops" ++ spaced (codes "-b" ∷ [])) false ≡ (pos 1, (true, complain ∷ []))
background_stays_example =
    background_stays seven (codes "oops") (omega arith) (λ e. cc) (λ e. ground arith)
      (λ e. ground arith) oops_unknown

-- Two spaces make an empty argument, and one at the end makes none.
empty_argument : tokenize (codes "a  b ") ≡ codes "a" ∷ [] ∷ codes "b" ∷ []
unfolding tokenize tokenize_loop text_at text_in cut_spaces
empty_argument = refl
