-- ===== src/Buddy/Pairs.antt =====
-- The buddy of a block in Kernel/memory/buddyMemoryManagement.c, and the walk to it in its list.
use Prim.Native.Nat.{bit_and}
use native.Mathlib.Nat.{two-pow-succ, add-mul-mod_self_right, mul-mod_left, mod-eq_of_lt}
use tp2_sistemas_operativos.Base.{
  ℕ, suc, ◌+◌, ◌-◌, ◌*◌, ◌%◌, ◌^◌, ◌<◌, ◌≡◌, refl, ap, ◌∙◌, arith, false, inl, inr, ◌==◌,
  if◌then◌else◌, Bool-cases, some, List, [], ◌∷◌,
}
use tp2_sistemas_operativos.Memory.{minus64}
use tp2_sistemas_operativos.Buddy.{Buddy, get_buddy, unlink}
use tp2_sistemas_operativos.Buddy.Bits.{positive, bit_and_mask}

masked :
    (offset o : ℕ)
    → 2 ^ o < 2 ^ 63
    → bit_and offset (minus64 (2 ^ o * 2 % 2 ^ 64) 1) ≡ offset % 2 ^ suc o
masked offset o bound =
    let mask : minus64 (2 ^ o * 2 % 2 ^ 64) 1 ≡ 2 ^ suc o - 1 =
      omega (arith, bound, two-pow-succ o, positive o) in
    ap (λ m. bit_and offset m) mask ∙ bit_and_mask (suc o) offset

-- A left half finds the other half behind it, and a right half finds it in front.
pub get_buddy-left :
    (b : Buddy) (x o m : ℕ)
    → 2 ^ o < 2 ^ 63
    → x + 2 ^ o < 2 ^ 64
    → b.size x ≡ 2 ^ o
    → x ≡ b.start + m * 2 ^ suc o
    → get_buddy b x ≡ x + 2 ^ o
unfolding get_buddy
get_buddy-left b x o m bound below s e =
    let offset : minus64 x b.start ≡ m * 2 ^ suc o = omega (arith, e, below) in
    let even : m * 2 ^ suc o % 2 ^ suc o ≡ 0 = mul-mod_left m (2 ^ suc o) in
    rw (s, masked (minus64 x b.start) o bound, offset, even) (omega (arith, below))

pub get_buddy-right :
    (b : Buddy) (x p o m : ℕ)
    → 2 ^ o < 2 ^ 63
    → x + 2 ^ o < 2 ^ 64
    → b.size x ≡ 2 ^ o
    → x ≡ p + 2 ^ o
    → p ≡ b.start + m * 2 ^ suc o
    → get_buddy b x ≡ p
unfolding get_buddy
get_buddy-right b x p o m bound below s ex e =
    let offset : minus64 x b.start ≡ 2 ^ o + m * 2 ^ suc o = omega (arith, e, ex, below) in
    let odd : (2 ^ o + m * 2 ^ suc o) % 2 ^ suc o ≡ 2 ^ o =
      add-mul-mod_self_right (2 ^ o) m (2 ^ suc o)
      ∙ mod-eq_of_lt (omega (arith, two-pow-succ o, positive o)) in
    let set : (2 ^ o == 0) ≡ false = ground (arith, positive o) in
    rw (s, masked (minus64 x b.start) o bound, offset, odd, set) (omega (arith, ex, below))

-- How often an address stands in a list.
abbrev pub occ : ℕ → List ℕ → ℕ
occ y [] = 0
occ y (z ∷ list) = (if z == y then 1 else 0) + occ y list

pub record Unlinks (y : ℕ) (list : List ℕ) : Type 0 where
  pub rest : List ℕ
  pub returns : unlink y list ≡ some rest
  pub fewer : (z : ℕ) → occ z list ≡ (if y == z then 1 else 0) + occ z rest

pub unlink-Unlinks : (y : ℕ) (list : List ℕ) → 0 < occ y list → Unlinks y list
unfolding unlink
unlink-Unlinks y [] h = absurd (omega (arith, h))
unlink-Unlinks y (z ∷ list) h = elim (Bool-cases (z == y)) [
  | inl here ↦ record { rest = list; returns = rw here refl; fewer = λ w. ground (arith, here) }
  | inr there ↦
      (let later = unlink-Unlinks y list (ground (arith, h, there)) in
        record {
          rest = z ∷ later.rest;
          returns = rw (there, later.returns) refl;
          fewer = λ w. omega (arith, later.fewer w);
        })
]
