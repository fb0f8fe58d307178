-- ===== src/Convert/Reverse.antt =====
-- The loop of Userland/SampleCodeModule/lib/utils.c and Kernel/lib/lib.c that turns a text round in place.
use tp2_sistemas_operativos.Base.{
  ℕ, zero, suc, ◌+◌, ◌-◌, ◌≤◌, ◌≡◌, refl, sym, ap, ◌∙◌, arith, true, false, List, [], ◌∷◌, ◌++◌,
  ltb, length, length-append, get_or, set,
}
use mathlib.Core.List.{append-nil, append_assoc}
use tp2_sistemas_operativos.Text.{Text, swap_loop, reverse_in_place}

abbrev pub reversed : List ℕ → List ℕ
reversed [] = []
reversed (c ∷ s) = reversed s ++ (c ∷ [])

-- A list is empty, has one element, or has a first and a last one.
data Ends : List ℕ → Type 0 where
  no_end : Ends []
  one_end : (c : ℕ) → Ends (c ∷ [])
  two_ends : (c : ℕ) (s : List ℕ) (d : ℕ) → Ends (c ∷ (s ++ (d ∷ [])))

Ends-of : (s : List ℕ) → Ends s
Ends-of [] = no_end
Ends-of (c ∷ s) = Ends-cons c s (Ends-of s)
  where
    Ends-cons : (c : ℕ) (s : List ℕ) → Ends s → Ends (c ∷ s)
    Ends-cons c s no_end = one_end c
    Ends-cons c s (one_end d) = two_ends c [] d
    Ends-cons c s (two_ends d t e) = two_ends c (d ∷ t) e

get_or-append : (before rest : List ℕ) (c : ℕ) → get_or (before ++ (c ∷ rest)) (length before) 0 ≡ c
get_or-append [] rest c = refl
get_or-append (b ∷ before) rest c = get_or-append before rest c

set-append :
    (before rest : List ℕ) (c v : ℕ)
    → set (before ++ (c ∷ rest)) (length before) v ≡ before ++ (v ∷ rest)
set-append [] rest c v = refl
set-append (b ∷ before) rest c v = ap (λ l. b ∷ l) (set-append before rest c v)

pub reversed_snoc : (s : List ℕ) (d : ℕ) → reversed (s ++ (d ∷ [])) ≡ d ∷ reversed s
reversed_snoc [] d = refl
reversed_snoc (c ∷ s) d = ap (λ l. l ++ (c ∷ [])) (reversed_snoc s d)

-- The place of the last of the elements that change places.
split_at_last :
    (pre s post : List ℕ) (c d : ℕ)
    → pre ++ (c ∷ ((s ++ (d ∷ [])) ++ post)) ≡ (pre ++ (c ∷ s)) ++ (d ∷ post)
split_at_last pre s post c d =
    ap (λ l. pre ++ (c ∷ l)) (append_assoc s (d ∷ []) post)
    ∙ sym (append_assoc pre (c ∷ s) (d ∷ post))

get_last :
    (pre s post : List ℕ) (c d last : ℕ)
    → last ≡ length (pre ++ (c ∷ s))
    → get_or (pre ++ (c ∷ ((s ++ (d ∷ [])) ++ post))) last 0 ≡ d
get_last pre s post c d last e =
    ap (λ l. get_or l last 0) (split_at_last pre s post c d)
    ∙ ap (λ i. get_or ((pre ++ (c ∷ s)) ++ (d ∷ post)) i 0) e
    ∙ get_or-append (pre ++ (c ∷ s)) post d

set_last :
    (pre s post : List ℕ) (c d last v : ℕ)
    → last ≡ length (pre ++ (c ∷ s))
    → set (pre ++ (c ∷ ((s ++ (d ∷ [])) ++ post))) last v ≡ (pre ++ (c ∷ [])) ++ (s ++ (v ∷ post))
set_last pre s post c d last v e =
    ap (λ l. set l last v) (split_at_last pre s post c d)
    ∙ ap (λ i. set ((pre ++ (c ∷ s)) ++ (d ∷ post)) i v) e
    ∙ set-append (pre ++ (c ∷ s)) post d v
    ∙ append_assoc pre (c ∷ s) (v ∷ post)
    ∙ sym (append_assoc pre (c ∷ []) (s ++ (v ∷ post)))

-- One round: the first and the last element change places.
abbrev swapped : List ℕ → ℕ → ℕ → List ℕ
swapped str start last = set (set str start (get_or str last 0)) last (get_or str start 0)

swapped_ends :
    (pre s post : List ℕ) (c d last : ℕ)
    → last ≡ length (pre ++ (c ∷ s))
    → swapped (pre ++ (c ∷ ((s ++ (d ∷ [])) ++ post))) (length pre) last
      ≡ (pre ++ (d ∷ [])) ++ (s ++ (c ∷ post))
swapped_ends pre s post c d last e =
    let same_length : last ≡ length (pre ++ (d ∷ s)) =
      e ∙ length-append pre (c ∷ s) ∙ sym (length-append pre (d ∷ s)) in
    rw
      (
        get_last pre s post c d last e,
        get_or-append pre ((s ++ (d ∷ [])) ++ post) c,
        set-append pre ((s ++ (d ∷ [])) ++ post) c d,
      )
      (set_last pre s post d d last c same_length)

swap_loop_middle :
    (fuel : ℕ) (pre mid post : List ℕ) (last : ℕ)
    → Ends mid
    → length mid ≤ fuel
    → last ≡ length pre + length mid - 1
    → swap_loop fuel (pre ++ (mid ++ post)) (length pre) last ≡ pre ++ (reversed mid ++ post)
unfolding swap_loop
swap_loop_middle zero pre mid post last no_end le e = refl
swap_loop_middle zero pre mid post last (one_end c) le e = refl
swap_loop_middle zero pre mid post last (two_ends c s d) le e = absurd (omega (arith, le))
swap_loop_middle (suc fuel) pre mid post last no_end le e =
    let stop : ltb (length pre) last ≡ false = ground (arith, e) in rw stop refl
swap_loop_middle (suc fuel) pre mid post last (one_end c) le e =
    let stop : ltb (length pre) last ≡ false = ground (arith, e) in rw stop refl
swap_loop_middle (suc fuel) pre mid post last (two_ends c s d) le e =
    let len = length-append s (d ∷ []) in
    let at_last : last ≡ length (pre ++ (c ∷ s)) =
      omega (arith, e, len, length-append pre (c ∷ s)) in
    let go : ltb (length pre) last ≡ true = ground (arith, e, len) in
    let next = length-append pre (d ∷ []) in
    let shorter : length s ≤ fuel = omega (arith, le, len) in
    let inner =
      swap_loop_middle fuel (pre ++ (d ∷ [])) s (c ∷ post) (last - 1) (Ends-of s) shorter
        (omega (arith, e, len, next)) in
    let start : length pre + 1 ≡ length (pre ++ (d ∷ [])) = omega (arith, next) in
    let back : (pre ++ (d ∷ [])) ++ (reversed s ++ (c ∷ post))
        ≡ pre ++ (reversed (c ∷ (s ++ (d ∷ []))) ++ post) =
      append_assoc pre (d ∷ []) (reversed s ++ (c ∷ post))
      ∙ ap (λ l. pre ++ (d ∷ l)) (sym (append_assoc (reversed s) (c ∷ []) post))
      ∙ ap (λ l. pre ++ ((l ++ (c ∷ [])) ++ post)) (sym (reversed_snoc s d)) in
    rw (go, swapped_ends pre s post c d last at_last, start) (inner ∙ back)

-- Turning a text round in place, two characters at a time, reverses it.
pub reverse_in_place-reversed : (str : Text) → reverse_in_place str ≡ reversed str
unfolding reverse_in_place
reverse_in_place-reversed str =
    let whole =
      swap_loop_middle (length str) [] str [] (length str - 1) (Ends-of str) (omega arith)
        (omega arith) in
    ap (λ l. swap_loop (length str) l 0 (length str - 1)) (sym (append-nil str))
    ∙ whole
    ∙ append-nil (reversed str)
