-- ===== src/Buddy/Apart.antt =====
-- The leaves of a tree of halves do not overlap.
use native.Mathlib.Nat.{two-pow-succ}
use tp2_sistemas_operativos.Base.{
  ℕ, zero, suc, ◌+◌, ◌^◌, ◌≤◌, ◌<◌, ◌≡◌, sym, ◌∙◌, arith, Bool, true, false, ◌&&◌, ◌⊎◌, inl, inr,
  ◌==◌, if◌then◌else◌, Bool-cases,
}
use tp2_sistemas_operativos.Buddy.Bits.{positive}
use tp2_sistemas_operativos.Buddy.Tree.{Tree, leaf, node, same, count}

counted_here : (f g : Bool) (a k q y : ℕ) → 0 < count f (leaf g) a k q y → (k ≡ q) × (a ≡ y)
counted_here f g a k q y h = at_flag (same f g) a k q y h
  where
    at_flag :
        (b : Bool) (a k q y : ℕ)
        → 0 < (if b && (k == q && a == y) then 1 else 0)
        → (k ≡ q) × (a ≡ y)
    at_flag true a k q y h = (ground (arith, h), ground (arith, h))
    at_flag false a k q y h = absurd (omega (arith, h))

-- A leaf lies inside the block that the tree stands for.
pub count-inside :
    (f : Bool) (t : Tree) (a k q y : ℕ) → 0 < count f t a k q y → (a ≤ y) × (y + 2 ^ q ≤ a + 2 ^ k)
count-inside f (leaf g) a k q y h =
    let (same_k, same_a) = counted_here f g a k q y h in
    (omega (arith, same_a), rw (same_k, same_a) (omega arith))
count-inside f (node l r) a zero q y h = absurd (omega (arith, h))
count-inside f (node l r) a (suc k) q y h = elim (Bool-cases (count f l a k q y == 0)) [
  | inl none_left ↦
      (let (lo, hi) = count-inside f r (a + 2 ^ k) k q y (ground (arith, none_left, h)) in
        (omega (arith, lo), omega (arith, hi, two-pow-succ k)))
  | inr some_left ↦
      (let (lo, hi) = count-inside f l a k q y (ground (arith, some_left)) in
        (lo, omega (arith, hi, two-pow-succ k, positive k)))
]

-- A block is free or in use, and stands in the tree once.
pub counted_once : (t : Tree) (a k q y : ℕ) → count true t a k q y + count false t a k q y ≤ 1
counted_once (leaf true) a k q y = ground arith
counted_once (leaf false) a k q y = ground arith
counted_once (node l r) a zero q y = omega arith
counted_once (node l r) a (suc k) q y =
    let once_left = counted_once l a k q y in
    let once_right = counted_once r (a + 2 ^ k) k q y in
    let lt = count-inside true l a k q y in
    let lf = count-inside false l a k q y in
    let rt = count-inside true r (a + 2 ^ k) k q y in
    let rf = count-inside false r (a + 2 ^ k) k q y in
    let some_byte = positive q in ground (arith, once_left, once_right, lt, lf, rt, rf, some_byte)

-- Two blocks that begin at `x` and `y`, of exponents `o` and `p`.
abbrev pub Clear : ℕ → ℕ → ℕ → ℕ → Type 0
Clear x o y p = (x + 2 ^ o ≤ y) ⊎ (y + 2 ^ p ≤ x)

abbrev pub ClearOrSame : ℕ → ℕ → ℕ → ℕ → Type 0
ClearOrSame x o y p = Clear x o y p ⊎ ((x ≡ y) × (o ≡ p))

turned : (x o y p : ℕ) → ClearOrSame x o y p → ClearOrSame y p x o
turned x o y p (inl (inl h)) = inl (inr h)
turned x o y p (inl (inr h)) = inl (inl h)
turned x o y p (inr (e, e')) = inr (sym e, sym e')

-- Two blocks of a tree do not overlap, unless they are the same block.
pub count-ClearOrSame :
    (f g : Bool) (t : Tree) (a k x o y p : ℕ)
    → 0 < count f t a k o x
    → 0 < count g t a k p y
    → ClearOrSame x o y p
count-ClearOrSame f g (leaf h) a k x o y p cx cy =
    let (ko, ax) = counted_here f h a k o x cx in
    let (kp, ay) = counted_here g h a k p y cy in inr (sym ax ∙ ay, sym ko ∙ kp)
count-ClearOrSame f g (node l r) a zero x o y p cx cy = absurd (omega (arith, cx))
count-ClearOrSame f g (node l r) a (suc k) x o y p cx cy =
    elim (Bool-cases (count f l a k o x == 0)) [
      | inl x_right ↦ elim (Bool-cases (count g l a k p y == 0)) [
        | inl y_right ↦
            count-ClearOrSame f g r (a + 2 ^ k) k x o y p (ground (arith, x_right, cx))
              (ground (arith, y_right, cy))
        | inr y_left ↦
            turned y p x o
              (halves g f y p x o (ground (arith, y_left)) (ground (arith, x_right, cx)))
      ]
      | inr x_left ↦ elim (Bool-cases (count g l a k p y == 0)) [
        | inl y_right ↦ halves f g x o y p (ground (arith, x_left)) (ground (arith, y_right, cy))
        | inr y_left ↦
            count-ClearOrSame f g l a k x o y p (ground (arith, x_left)) (ground (arith, y_left))
      ]
    ]
  where
    halves :
        (f g : Bool) (x o y p : ℕ)
        → 0 < count f l a k o x
        → 0 < count g r (a + 2 ^ k) k p y
        → ClearOrSame x o y p
    halves f g x o y p cx cy =
        let (lo, hi) = count-inside f l a k o x cx in
        let (lo', hi') = count-inside g r (a + 2 ^ k) k p y cy in inl (inl (omega (arith, hi, lo')))
