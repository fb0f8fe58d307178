-- ===== src/Shell/Runs.antt =====
-- A line typed at the shell, from its keys to the process it starts.
use tp2_sistemas_operativos.Base.{
  ℕ, zero, suc, ◌+◌, ◌-◌, ◌≤◌, ◌<◌, ◌≡◌, ◌≢◌, refl, ap, ◌∙◌, arith, Bool, true, false, ◌||◌, Option,
  none, some, List, [], ◌∷◌, ◌++◌, ℤ, pos, ltb_ℤ, ltb, ltb→lt, ◌==◌, length, length-append,
  Bool-cases, inl, inr,
}
use tp2_sistemas_operativos.Text.{Text}
use tp2_sistemas_operativos.Text.Compare.{IsText, strcmp_iff}
use tp2_sistemas_operativos.Shell.{codes, command_list, find_command}
use tp2_sistemas_operativos.Shell.Words.{IsWord, AreWords, spaced, tokenize-words}
use tp2_sistemas_operativos.Shell.Line.{read_line, enter}
use tp2_sistemas_operativos.Shell.Typing.{IsTyped, read_line-typed}
use tp2_sistemas_operativos.Shell.Shift.{texts, without_name-words}
use tp2_sistemas_operativos.Shell.Interpret.{
  CommandProc, user_priority, Call, sys_create_process, sys_wait_for_pid, plain, scan_loop, arg,
  is_text, command_at, run_command, interpret, run_scan, run_line,
}

-- Words that the shell gives no meaning of their own.
abbrev pub ArePlain : List Text → Type 0
ArePlain [] = Unit {0}
ArePlain (w ∷ words) = ((w ≢ codes "-b") × (w ≢ codes "|")) × ArePlain words

pub IsWord-IsText : (w : Text) → IsWord w → IsText w
IsWord-IsText [] h = _
IsWord-IsText (c ∷ w) (a, (b, h)) = (b, IsWord-IsText w h)

pub not_text : (w v : Text) → IsText w → IsText v → w ≢ v → is_text w v ≡ false
not_text w v hw hv ne = elim (Bool-cases (is_text w v)) [
  | inl same ↦ absurd (ne ((strcmp_iff w v hw hv).0 same))
  | inr other ↦ other
]

plain_arg :
    (words : List Text) (k : ℕ)
    → AreWords words
    → ArePlain words
    → k < length words
    → (is_text (arg (texts words) k) (codes "-b") ≡ false)
      × (is_text (arg (texts words) k) (codes "|") ≡ false)
plain_arg [] k h p lt = absurd (omega arith)
plain_arg (w ∷ words) zero (a, (b, h)) ((not_flag, not_pipe), p) lt = (
  not_text w (codes "-b") (IsWord-IsText w a) (omega arith) not_flag,
  not_text w (codes "|") (IsWord-IsText w a) (omega arith) not_pipe,
)
plain_arg (w ∷ words) (suc k) (a, (b, h)) (q, p) lt = plain_arg words k h p (omega arith)

pub or_false : (b : Bool) → (b || false) ≡ b
or_false true = refl
or_false false = refl

scan-plain :
    (fuel : ℕ) (args : List (Option Text)) (argc i : ℕ) (bg : Bool)
    → ((k : ℕ)
        → k < argc
        → (is_text (arg args k) (codes "-b") ≡ false) × (is_text (arg args k) (codes "|") ≡ false))
    → scan_loop fuel args argc i bg ≡ plain args argc bg
unfolding scan_loop
scan-plain zero args argc i bg h = refl
scan-plain (suc fuel) args argc i bg h = elim (Bool-cases (ltb i argc)) [
  | inl inside ↦
      let (not_flag, not_pipe) = h i (ltb→lt i argc inside) in
      rw (inside, not_flag, not_pipe)
        (scan-plain fuel args argc (i + 1) (bg || false) h ∙ ap (plain args argc) (or_false bg))
  | inr outside ↦ rw outside refl
]

pub pos_nonneg : (n : ℕ) → ltb_ℤ (pos n) (pos 0) ≡ false
unfolding ltb_ℤ
pos_nonneg n = ground arith

-- The process that a command line starts.
abbrev pub process_of : ℕ → List Text → CommandProc
process_of at words = record {
  name = (command_at command_list at).name;
  start = (command_at command_list at).start;
  priority = user_priority;
  argc = length words;
  argv = texts words ++ none ∷ [];
  fg_flag = true;
  input = 0;
  output = 1;
}

module _ (answer : List Call → ℤ) where
  run_command-words :
      (w : Text) (words : List Text) (at argc : ℕ)
      → argc ≡ length words + 1
      → find_command w ≡ pos at
      → (command_at command_list at).number_args ≡ length words
      → run_command answer (texts (w ∷ words)) argc false ≡ (
        pos 0,
        (
          false,
          sys_wait_for_pid (answer (sys_create_process (process_of at words) ∷ []))
              ∷ sys_create_process (process_of at words)
              ∷ [],
        ),
      )
  unfolding run_command
  run_command-words w words at argc all found args =
      let enough : (length words + 1 == (command_at command_list at).number_args + 1) ≡ true =
        ground arith in
      let less : length words + 1 - 1 ≡ length words = omega arith in
      rw (all, found, enough, without_name-words w words, pos_nonneg at, less) refl

  run_line-words :
      (w : Text) (words : List Text) (at : ℕ)
      → AreWords (w ∷ words)
      → ArePlain (w ∷ words)
      → length words < 1024
      → find_command w ≡ pos at
      → (command_at command_list at).number_args ≡ length words
      → run_line answer (w ++ spaced words) false ≡ (
        pos 0,
        (
          false,
          sys_wait_for_pid (answer (sys_create_process (process_of at words) ∷ []))
              ∷ sys_create_process (process_of at words)
              ∷ [],
        ),
      )
  unfolding run_line interpret run_scan
  run_line-words w words at h p room found args =
      let all : suc (length words) ≡ length words + 1 = omega arith in
      let scanned =
        scan-plain (suc (length words) + 1) (texts (w ∷ words)) (suc (length words)) 0 false
          (λ k lt. plain_arg (w ∷ words) k h p lt) in
      ap (λ (l : List Text). interpret answer (texts l) (length l) false)
        (tokenize-words w words h room)
      ∙ ap (run_scan answer) scanned
      ∙ run_command-words w words at (suc (length words)) all found args

spaced-length : (words : List Text) → length words ≤ length (spaced words)
unfolding spaced
spaced-length [] = omega arith
spaced-length (w ∷ words) = omega (arith, spaced-length words, length-append w (spaced words))

-- A line of less than 1024 characters is typed: words with one space between two of them, and Enter behind
-- them. If its first word is a command that takes as many arguments as there are other words, no word is -b
-- or |, and the flag for the background is clear, then the shell creates one process in the foreground, with
-- the command's name, its function, the default priority, the other words as its arguments, NULL behind
-- them, and the keyboard and the screen, and waits for it. The flag stays clear.
pub typed_command :
    (answer : List Call → ℤ) (w : Text) (words : List Text) (at : ℕ) (rest : Text)
    → AreWords (w ∷ words)
    → ArePlain (w ∷ words)
    → IsTyped (w ++ spaced words)
    → length (w ++ spaced words) < 1024
    → find_command w ≡ pos at
    → (command_at command_list at).number_args ≡ length words
    → (read_line ((w ++ spaced words) ++ enter ∷ rest) ≡ some (w ++ spaced words))
      × (run_line answer (w ++ spaced words) false ≡ (
        pos 0,
        (
          false,
          sys_wait_for_pid (answer (sys_create_process (process_of at words) ∷ []))
              ∷ sys_create_process (process_of at words)
              ∷ [],
        ),
      ))
typed_command answer w words at rest h p typed short found args = (
  read_line-typed (w ++ spaced words) rest typed short,
  run_line-words answer w words at h p
      (omega (arith, spaced-length words, length-append w (spaced words))) found args,
)
