-- ===== src/Shell/Cut.antt =====
-- The arguments of a line with a pipe, in front of it and behind it: the loop of `interpret` in
-- Userland/SampleCodeModule/shell.c.
use tp2_sistemas_operativos.Base.{
  ℕ, ◌+◌, ◌≡◌, refl, ap, ◌∙◌, arith, Bool, true, false, ◌||◌, List, [], ◌∷◌, ◌++◌, eq_ℤ, ltb,
  length, zero, suc, ◌<◌, ap₂, Option, some, take, drop,
}
use tp2_sistemas_operativos.Text.{Text, strcmp}
use tp2_sistemas_operativos.Shell.{codes}
use tp2_sistemas_operativos.Shell.Shift.{texts}
use tp2_sistemas_operativos.Shell.Words.{AreWords}
use tp2_sistemas_operativos.Shell.Runs.{or_false, ArePlain, IsWord-IsText, not_text}
use tp2_sistemas_operativos.Shell.Interpret.{is_text, scan_loop, piped, arg}

pub AreWords-append :
    (front rest : List Text) → AreWords front → AreWords rest → AreWords (front ++ rest)
AreWords-append [] rest h k = k
AreWords-append (w ∷ front) rest (a, (b, h)) k = (a, (b, AreWords-append front rest h k))

-- The words in front of the pipe have no meaning of their own.
pub front_arg :
    (front rest : List Text) (k : ℕ)
    → AreWords front
    → ArePlain front
    → k < length front
    → (is_text (arg (texts (front ++ rest)) k) (codes "-b") ≡ false)
      × (is_text (arg (texts (front ++ rest)) k) (codes "|") ≡ false)
front_arg [] rest k h p lt = absurd (omega arith)
front_arg (w ∷ front) rest zero (a, (b, h)) ((not_flag, not_pipe), p) lt = (
  not_text w (codes "-b") (IsWord-IsText w a) (omega arith) not_flag,
  not_text w (codes "|") (IsWord-IsText w a) (omega arith) not_pipe,
)
front_arg (w ∷ front) rest (suc k) (a, (b, h)) (q, p) lt = front_arg front rest k h p (omega arith)

pub arg-middle :
    (front rest : List Text) (x : Text) → arg (texts (front ++ x ∷ rest)) (length front) ≡ x
arg-middle [] rest x = refl
arg-middle (w ∷ front) rest x = arg-middle front rest x

pub take-front :
    (front rest : List Text) → take (length front) (texts (front ++ rest)) ≡ texts front
take-front [] rest = refl
take-front (w ∷ front) rest = ap (λ (l : List (Option Text)). some w ∷ l) (take-front front rest)

pub drop-front :
    (front rest : List Text) (x : Text)
    → drop (suc (length front)) (texts (front ++ x ∷ rest)) ≡ texts rest
drop-front [] rest x = refl
drop-front (w ∷ front) rest x = drop-front front rest x

pub take-texts : (words : List Text) → take (length words) (texts words) ≡ texts words
take-texts [] = refl
take-texts (w ∷ words) = ap (λ (l : List (Option Text)). some w ∷ l) (take-texts words)

pipe_tests : (is_text (codes "|") (codes "-b") ≡ false) × (is_text (codes "|") (codes "|") ≡ true)
unfolding strcmp eq_ℤ
pipe_tests = (refl, refl)

-- The loop over the arguments stops at the first pipe.
pub scan-piped :
    (left fuel : ℕ) (args : List (Option Text)) (argc i p : ℕ) (bg : Bool)
    → i + left ≡ p
    → left < fuel
    → p < argc
    → arg args p ≡ codes "|"
    → ((k : ℕ)
        → k < p
        → (is_text (arg args k) (codes "-b") ≡ false) × (is_text (arg args k) (codes "|") ≡ false))
    → scan_loop fuel args argc i bg ≡ piped p args argc bg
unfolding scan_loop
scan-piped left zero args argc i p bg e lt inside here h = absurd (omega arith)
scan-piped zero (suc fuel) args argc i p bg e lt inside here h =
    let at_p : i ≡ p = omega arith in
    let inside_i : ltb i argc ≡ true = ground arith in
    let mine : arg args i ≡ codes "|" = ap (arg args) at_p ∙ here in
    rw (inside_i, mine, pipe_tests.0)
      (rw mine (rw (pipe_tests.1) (ap₂ (λ k f. piped k args argc f) at_p (or_false bg))))
scan-piped (suc left) (suc fuel) args argc i p bg e lt inside here h =
    let inside_i : ltb i argc ≡ true = ground arith in
    let (not_flag, not_pipe) = h i (omega arith) in
    rw (inside_i, not_flag, not_pipe)
      (scan-piped left fuel args argc (i + 1) p (bg || false) (omega arith) (omega arith) inside
          here h
        ∙ ap (piped p args argc) (or_false bg))
