-- ===== src/Shell/Shift.antt =====
-- The arguments of a command without its name: `without_name` of the shell.
use tp2_sistemas_operativos.Base.{
  ℕ, suc, ◌+◌, ◌≡◌, refl, sym, ap, ap₂, ◌∙◌, arith, Option, none, some, List, [], ◌∷◌, ◌++◌, map,
  length, length-append, get_or, set,
}
use mathlib.Core.List.{append_assoc}
use tp2_sistemas_operativos.Text.{Text}
use tp2_sistemas_operativos.Shell.Interpret.{shift_loop, without_name}

get_or-middle :
    (before : List (Option Text)) (x y : Option Text) (after : List (Option Text))
    → get_or (before ++ x ∷ y ∷ after) (length before + 1) none ≡ y
get_or-middle [] x y after = refl
get_or-middle (b ∷ before) x y after =
    let e : suc (length before) + 1 ≡ suc (length before + 1) = omega arith in
    ap (λ (n : ℕ). get_or (b ∷ before ++ x ∷ y ∷ after) n none) e ∙ get_or-middle before x y after

set-middle :
    (before : List (Option Text)) (x v : Option Text) (after : List (Option Text))
    → set (before ++ x ∷ after) (length before) v ≡ before ++ v ∷ after
set-middle [] x v after = refl
set-middle (b ∷ before) x v after =
    ap (λ (r : List (Option Text)). b ∷ r) (set-middle before x v after)

-- The entries behind `before` move down by one, and NULL stands behind them.
shift_loop-lem :
    (after before : List (Option Text)) (x : Option Text)
    → set
        (shift_loop (length after) (before ++ x ∷ after) (length before))
        (length before + length after)
        none
      ≡ before ++ (after ++ none ∷ [])
unfolding shift_loop
shift_loop-lem [] before x =
    ap (λ (n : ℕ). set (before ++ x ∷ []) n none) (omega arith) ∙ set-middle before x none []
shift_loop-lem (y ∷ after) before x =
    let moved = before ++ y ∷ [] in
    let n = length-append before (y ∷ []) in
    let step =
      ap (set (before ++ x ∷ y ∷ after) (length before)) (get_or-middle before x y after)
      ∙ set-middle before x y (y ∷ after)
      ∙ sym (append_assoc before (y ∷ []) (y ∷ after)) in
    ap₂
      (λ (l : List (Option Text)) (at : ℕ).
        set (shift_loop (length after) l at) (length before + suc (length after)) none)
      step (sym n)
    ∙ ap (λ (at : ℕ). set (shift_loop (length after) (moved ++ y ∷ after) (length moved)) at none)
        (omega (arith, n))
    ∙ shift_loop-lem after moved y
    ∙ append_assoc before (y ∷ []) (after ++ none ∷ [])

pub length-map : (words : List Text) → length (map (λ (w : Text). some w) words) ≡ length words
length-map [] = refl
length-map (w ∷ words) = ap suc (length-map words)

abbrev pub texts : List Text → List (Option Text)
texts words = map (λ (w : Text). some w) words

pub without_name-words :
    (w : Text) (words : List Text)
    → without_name (texts (w ∷ words)) (length words + 1) ≡ texts words ++ none ∷ []
unfolding without_name
without_name-words w words =
    ap (λ (n : ℕ). set (shift_loop n (texts (w ∷ words)) 0) n none)
      (omega (arith, length-map words))
    ∙ ap (λ (n : ℕ). set (shift_loop (length (texts words)) (texts (w ∷ words)) 0) n none)
        (omega arith)
    ∙ shift_loop-lem (texts words) [] (some w)
