-- ===== src/Memory/Refine.antt =====
-- What a step of memoryManagement.c may do to the blocks: cut them and put neighbours together.
use tp2_sistemas_operativos.Base.{
  ℕ, ◌+◌, ◌-◌, ◌≤◌, ◌<◌, ◌≡◌, refl, inl, inr, [], ◌∷◌, arith, leb, ltb, leb→le, ltb→lt, ◌==◌,
  ==_iff, Option, none, some, Bool-cases,
}
use tp2_sistemas_operativos.Memory.Blocks.{Blocks, All, Clear, AreDisjoint, sizes}
use tp2_sistemas_operativos.Memory.Take.{cut}
use tp2_sistemas_operativos.Memory.FirstFit.{first_fit}
use tp2_sistemas_operativos.Memory.Coalesce.{merge, Clear-merge, AreDisjoint-merge, sizes-merge}

-- The block is inside the area from `low` to `high`.
abbrev pub Within : ℕ → ℕ → ℕ → ℕ → Type 0
Within low high a s = (low ≤ a) × (a + s ≤ high)

pub record Refines (before after : Blocks) : Type 0 where
  pub clear : (c u : ℕ) → 0 < u → Clear c u before → Clear c u after
  pub good : AreDisjoint before → AreDisjoint after
  pub sum : sizes after ≡ sizes before
  pub within : (low high : ℕ) → All (Within low high) before → All (Within low high) after

pub Within-merge :
    (low high a s : ℕ) (l : Blocks)
    → Within low high a s
    → All (Within low high) l
    → All (Within low high) (merge a s l)
unfolding merge
Within-merge low high a s [] h rest = (h, _)
Within-merge low high a s ((b, t) ∷ l) h (h_b, rest) = elim (Bool-cases (a + s == b)) [
  | inl adjacent ↦
      let e = (==_iff (a + s) b).0 adjacent in
      rw adjacent (Within-merge low high a (s + t) l (ground arith) rest)
  | inr gap ↦ rw gap (h, Within-merge low high b t l h_b rest)
]

pub merge-Refines : (a s : ℕ) (l : Blocks) → Refines ((a, s) ∷ l) (merge a s l)
unfolding sizes
merge-Refines a s l = record {
  clear = λ c u positive (apart, rest). Clear-merge c u a s l positive apart rest;
  good = AreDisjoint-merge a s l;
  sum = sizes-merge a s l;
  within = λ low high (h, rest). Within-merge low high a s l h rest;
}

-- What the first fit is, or that there is none.
abbrev pub IsFit : ℕ → Blocks → Option ((ℕ × ℕ) × Blocks) → Type 0
IsFit n l none = All (λ a s. s < n) l
IsFit n l (some ((a, s), left)) = (n ≤ s) × Refines l ((a, s) ∷ left)

Apart-parts : (a s n : ℕ) (l : Blocks) → n < s → Clear a s l → Clear a n l × Clear (a + n) (s - n) l
Apart-parts a s n [] lt h = (_, _)
Apart-parts a s n ((b, t) ∷ l) lt (h, rest) =
    (let (first, second) = Apart-parts a s n l lt rest in
      ((ground arith, first), (ground arith, second)))

cut-IsFit : (n a s : ℕ) (l : Blocks) → 0 < n → n ≤ s → IsFit n ((a, s) ∷ l) (some (cut n a s l))
unfolding cut sizes
cut-IsFit n a s l positive fits = elim (Bool-cases (ltb (n + 16) s)) [
  | inl large ↦
      let lt : n < s = omega (arith, ltb→lt (n + 16) s large) in
      rw large (
        omega arith,
        record {
          clear = λ c u nonempty (apart, rest). (ground arith, (ground arith, rest));
          good = λ (nonzero, nonempty, clear, rest).
              let (first, second) = Apart-parts a s n l lt clear in
              (nonzero, positive, (omega arith, first), (omega arith, omega arith, second, rest));
          sum = omega arith;
          within = λ low high (h, rest). (ground arith, (ground arith, rest));
        },
      )
  | inr exact ↦ rw exact (
    fits,
    record { clear = λ c u nonempty h. h; good = λ h. h; sum = refl; within = λ low high h. h },
  )
]

skip-IsFit :
    (n a s : ℕ) (l : Blocks) (o : Option ((ℕ × ℕ) × Blocks))
    → s < n
    → IsFit n l o
    → IsFit n ((a, s) ∷ l) (elim o [ none ↦ none | some (b, left) ↦ some (b, (a, s) ∷ left) ])
unfolding sizes
skip-IsFit n a s l none low h = (low, h)
skip-IsFit n a s l (some ((b, t), left)) low (fits, r) = (
  fits,
  record {
    clear = λ c u nonempty (apart, rest).
        let (first, second) = r.clear c u nonempty rest in (first, (apart, second));
    good = λ (nonzero, nonempty, clear, rest).
        let (nonzero_b, nonempty_b, clear_b, good_left) = r.good rest in
        let (apart, clear_left) = r.clear a s nonempty clear in
        (
          nonzero_b,
          nonempty_b,
          (ground arith, clear_b),
          (nonzero, nonempty, clear_left, good_left),
        );
    sum = omega (arith, r.sum);
    within =
        λ low high (h, rest). let (first, second) = r.within low high rest in (first, (h, second));
  },
)

pub first_fit-IsFit : (n : ℕ) (l : Blocks) → 0 < n → IsFit n l (first_fit n l)
unfolding first_fit
first_fit-IsFit n [] positive = _
first_fit-IsFit n ((a, s) ∷ l) positive = elim (Bool-cases (leb n s)) [
  | inl large ↦ rw large (cut-IsFit n a s l positive (leb→le n s large))
  | inr low ↦
      rw low (skip-IsFit n a s l (first_fit n l) (ground arith) (first_fit-IsFit n l positive))
]
