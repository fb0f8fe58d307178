-- ===== src/Buddy/Bits.antt =====
-- Masks and shifts of Kernel/memory/buddyMemoryManagement.c: the bits below a power of two, and
-- next_power_of_2.
use Prim.Native.Nat.{
  ℕ, zero, suc, ◌+◌, ◌*◌, ◌/◌, ◌%◌, ◌^◌, ◌≤◌, ◌<◌, min, max, bit_and, bit_or, digits,
  bit_and-bitwise, bit_or-bitwise,
}
use native.Mathlib.Nat.{
  two-pow-succ, mod-eq_of_lt, mod-lt, mod-add-div', add-mul-mod_self_right, mul-add,
}
use tp2_sistemas_operativos.Base.{◌-◌, ◌≡◌, refl, ap, ◌∙◌, arith}

abbrev and_digits : ℕ → ℕ → ℕ → ℕ
and_digits n a b = digits (λ c. zero) min n a b

abbrev or_digits : ℕ → ℕ → ℕ → ℕ
or_digits n a b = digits (λ c. c) max n a b

and_digits-fuel : (n m a b : ℕ) → a ≤ n → a ≤ m → and_digits n a b ≡ and_digits m a b
and_digits-fuel zero zero a b p q = refl
and_digits-fuel zero (suc m) zero b p q = refl
and_digits-fuel zero (suc m) (suc a) b p q = absurd (omega arith)
and_digits-fuel (suc n) zero zero b p q = refl
and_digits-fuel (suc n) zero (suc a) b p q = absurd (omega arith)
and_digits-fuel (suc n) (suc m) zero b p q = refl
and_digits-fuel (suc n) (suc m) (suc a) b p q =
    omega (arith, and_digits-fuel n m (suc a / 2) (b / 2) (omega arith) (omega arith))

or_digits-fuel : (n m a b : ℕ) → a ≤ n → a ≤ m → or_digits n a b ≡ or_digits m a b
or_digits-fuel zero zero a b p q = refl
or_digits-fuel zero (suc m) zero b p q = refl
or_digits-fuel zero (suc m) (suc a) b p q = absurd (omega arith)
or_digits-fuel (suc n) zero zero b p q = refl
or_digits-fuel (suc n) zero (suc a) b p q = absurd (omega arith)
or_digits-fuel (suc n) (suc m) zero b p q = refl
or_digits-fuel (suc n) (suc m) (suc a) b p q =
    omega (arith, or_digits-fuel n m (suc a / 2) (b / 2) (omega arith) (omega arith))

-- The lowest digit of each operation.
bit_and-step : (a b : ℕ) → bit_and a b ≡ bit_and (a / 2) (b / 2) * 2 + min (a % 2) (b % 2)
bit_and-step zero b = omega (arith, bit_and-bitwise 0 b, bit_and-bitwise 0 (b / 2))
bit_and-step (suc a) b = omega (
  arith,
  bit_and-bitwise (suc a) b,
  bit_and-bitwise (suc a / 2) (b / 2),
  and_digits-fuel a (suc a / 2) (suc a / 2) (b / 2) (omega arith) (omega arith),
)

pub bit_or-step : (a b : ℕ) → bit_or a b ≡ bit_or (a / 2) (b / 2) * 2 + max (a % 2) (b % 2)
bit_or-step zero b = omega (arith, bit_or-bitwise 0 b, bit_or-bitwise 0 (b / 2))
bit_or-step (suc a) b = omega (
  arith,
  bit_or-bitwise (suc a) b,
  bit_or-bitwise (suc a / 2) (b / 2),
  or_digits-fuel a (suc a / 2) (suc a / 2) (b / 2) (omega arith) (omega arith),
)

bit_and-nothing : (n a : ℕ) → a ≤ n → bit_and a 0 ≡ 0
bit_and-nothing n zero le = bit_and-bitwise 0 0
bit_and-nothing zero (suc a) le = absurd (omega arith)
bit_and-nothing (suc n) (suc a) le =
    omega (arith, bit_and-step (suc a) 0, bit_and-nothing n (suc a / 2) (omega arith))

pub positive : (n : ℕ) → 0 < 2 ^ n
positive zero = omega arith
positive (suc n) = omega (arith, two-pow-succ n, positive n)

pub exponent-le : (m k : ℕ) → 2 ^ m ≤ 2 ^ k → m ≤ k
exponent-le zero k h = omega arith
exponent-le (suc m) zero h = absurd (omega (arith, h, two-pow-succ m, positive m))
exponent-le (suc m) (suc k) h =
    omega (arith, exponent-le m k (omega (arith, h, two-pow-succ m, two-pow-succ k)))

pub power_mono : (m k : ℕ) → m ≤ k → 2 ^ m ≤ 2 ^ k
power_mono zero k h = positive k
power_mono (suc m) zero h = absurd (omega arith)
power_mono (suc m) (suc k) h =
    omega (arith, power_mono m k (omega (arith, h)), two-pow-succ m, two-pow-succ k)

pub exponent-lt : (m k : ℕ) → 2 ^ m < 2 ^ k → m < k
exponent-lt zero zero h = absurd (omega (arith, h))
exponent-lt zero (suc k) h = omega arith
exponent-lt (suc m) zero h = absurd (omega (arith, h, two-pow-succ m, positive m))
exponent-lt (suc m) (suc k) h =
    omega (arith, exponent-lt m k (omega (arith, h, two-pow-succ m, two-pow-succ k)))

mod_double : (p a : ℕ) → 0 < p → a % (p + p) ≡ a / 2 % p * 2 + a % 2
mod_double p a pos_p =
    let q = a / 2 / p in
    let r = a / 2 % p in
    let small : r < p = mod-lt (a / 2) pos_p in
    let parts : r + q * p ≡ a / 2 = mod-add-div' (a / 2) p in
    let twice : q * (p + p) ≡ q * p + q * p = mul-add q p p in
    let whole : a ≡ (r * 2 + a % 2) + q * (p + p) = omega (arith, parts, twice) in
    let inside : r * 2 + a % 2 < p + p = omega (arith, small) in
    ap (λ b. b % (p + p)) whole
    ∙ add-mul-mod_self_right (r * 2 + a % 2) q (p + p)
    ∙ mod-eq_of_lt inside

-- The bits below a power of two are the remainder.
pub bit_and_mask : (n a : ℕ) → bit_and a (2 ^ n - 1) ≡ a % 2 ^ n
bit_and_mask zero a = bit_and-nothing a a (omega arith) ∙ omega arith
bit_and_mask (suc n) a =
    let twice : 2 ^ suc n ≡ 2 ^ n + 2 ^ n = two-pow-succ n in
    let some_bit : 0 < 2 ^ n = positive n in
    let half : (2 ^ suc n - 1) / 2 ≡ 2 ^ n - 1 = omega (arith, twice, some_bit) in
    let low : (2 ^ suc n - 1) % 2 ≡ 1 = omega (arith, twice, some_bit) in
    let rest : bit_and (a / 2) ((2 ^ suc n - 1) / 2) ≡ a / 2 % 2 ^ n =
      ap (λ m. bit_and (a / 2) m) half ∙ bit_and_mask n (a / 2) in
    let back : a % 2 ^ suc n ≡ a / 2 % 2 ^ n * 2 + a % 2 =
      ap (λ m. a % m) twice ∙ mod_double (2 ^ n) a some_bit in
    omega (arith, bit_and-step a (2 ^ suc n - 1), rest, low, back)
