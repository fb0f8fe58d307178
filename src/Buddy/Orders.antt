-- ===== src/Buddy/Orders.antt =====
-- next_power_of_2 and get_order of Kernel/memory/buddyMemoryManagement.c.
use Prim.Native.Nat.{bit_or, max}
use native.Mathlib.Nat.{pow-suc, two-pow-succ, div-div-eq-div-mul, mul_comm}
use tp2_sistemas_operativos.Base.{
  ℕ, zero, suc, ◌+◌, ◌-◌, ◌/◌, ◌%◌, ◌^◌, ◌≤◌, ◌<◌, ◌≡◌, ◌≢◌, refl, sym, ap, ◌∙◌, arith, ◌==◌, false,
}
use tp2_sistemas_operativos.Memory.{plus64, minus64}
use tp2_sistemas_operativos.Buddy.{smear, next_power_of_2, order_loop, get_order}
use tp2_sistemas_operativos.Buddy.Bits.{bit_or-step, positive}

half-shift : (x n : ℕ) → x / 2 ^ n / 2 ≡ x / 2 / 2 ^ n
half-shift x n =
    div-div-eq-div-mul x (2 ^ n) 2
    ∙ ap (λ m. x / m) (mul_comm (2 ^ n) 2)
    ∙ sym (div-div-eq-div-mul x 2 (2 ^ n))

smear-half : (n x : ℕ) → smear n x / 2 ≡ smear n (x / 2)
unfolding smear
smear-half n x =
    let step = bit_or-step x (x / 2 ^ n) in
    let half : bit_or x (x / 2 ^ n) / 2 ≡ bit_or (x / 2) (x / 2 ^ n / 2) = omega (arith, step) in
    half ∙ ap (λ y. bit_or (x / 2) y) (half-shift x n)

smear-low : (n x : ℕ) → smear n x % 2 ≡ max (x % 2) (x / 2 ^ n % 2)
unfolding smear
smear-low n x = omega (arith, bit_or-step x (x / 2 ^ n))

-- Shifts by one that are done `m` times.
abbrev halved : ℕ → ℕ → ℕ
halved zero x = x
halved (suc m) x = halved m (x / 2)

smear-halved : (n m x : ℕ) → halved m (smear n x) ≡ smear n (halved m x)
smear-halved n zero x = refl
smear-halved n (suc m) x = ap (λ y. halved m y) (smear-half n x) ∙ smear-halved n m (x / 2)

halved-shift : (m x : ℕ) → halved m x ≡ x / 2 ^ m
halved-shift zero x = omega arith
halved-shift (suc m) x =
    halved-shift m (x / 2)
    ∙ div-div-eq-div-mul x 2 (2 ^ m)
    ∙ ap (λ d. x / d) (mul_comm 2 (2 ^ m) ∙ sym (pow-suc 2 m))

smear-shift : (n m x : ℕ) → smear n x / 2 ^ m ≡ smear n (x / 2 ^ m)
smear-shift n m x =
    sym (halved-shift m (smear n x)) ∙ smear-halved n m x ∙ ap (λ y. smear n y) (halved-shift m x)

-- The steps so far let each bit see the `n` bits from it on.
record Covers (n : ℕ) (g : ℕ → ℕ) : Type 0 where
  shift : (m x : ℕ) → g x / 2 ^ m ≡ g (x / 2 ^ m)
  low : (x : ℕ) → g x % 2 ≡ 0 → x % 2 ^ n ≡ 0

Covers-smear :
    (n : ℕ) (g : ℕ → ℕ)
    → ((x : ℕ) → x % 2 ^ n ≡ 0 → x / 2 ^ n % 2 ^ n ≡ 0 → x % 2 ^ (n + n) ≡ 0)
    → Covers n g
    → Covers (n + n) (λ x. smear n (g x))
Covers-smear n g together c = record {
  shift = λ m x. smear-shift n m (g x) ∙ ap (λ y. smear n y) (c.shift m x);
  low = λ x e.
      let first : g x % 2 ≡ 0 = omega (arith, smear-low n (g x), e) in
      let rest : g (x / 2 ^ n) % 2 ≡ 0 = omega (arith, smear-low n (g x), c.shift n x, e) in
      together x (c.low x first) (c.low (x / 2 ^ n) rest);
}

-- The six steps.
abbrev all_smeared : ℕ → ℕ
all_smeared x = smear 32 (smear 16 (smear 8 (smear 4 (smear 2 (smear 1 x)))))

all_smeared-Covers : Covers 64 all_smeared
all_smeared-Covers =
    let c1 : Covers 1 (λ x. x) = record { shift = λ m x. refl; low = λ x e. omega (arith, e) } in
    let c2 = Covers-smear 1 (λ x. x) (λ x a b. omega (arith, a, b)) c1 in
    let c4 = Covers-smear 2 (λ x. smear 1 x) (λ x a b. omega (arith, a, b)) c2 in
    let c8 = Covers-smear 4 (λ x. smear 2 (smear 1 x)) (λ x a b. omega (arith, a, b)) c4 in
    let c16 =
      Covers-smear 8 (λ x. smear 4 (smear 2 (smear 1 x))) (λ x a b. omega (arith, a, b)) c8 in
    let c32 =
      Covers-smear 16 (λ x. smear 8 (smear 4 (smear 2 (smear 1 x)))) (λ x a b. omega (arith, a, b))
        c16 in
    Covers-smear 32 (λ x. smear 16 (smear 8 (smear 4 (smear 2 (smear 1 x)))))
      (λ x a b. omega (arith, a, b)) c32

-- A power of two that is at least `x`, while its half is not.
pub record IsLeastPower (x p : ℕ) : Type 0 where
  pub exponent : ℕ
  pub is_power : p ≡ 2 ^ exponent
  pub enough : x ≤ p
  pub least : p < x + x

-- All bits up to the highest one are set.
filled :
    (fuel y : ℕ)
    → y ≤ fuel
    → y < 2 ^ 64
    → (n : ℕ) × (all_smeared y + 1 ≡ 2 ^ n) × (y < 2 ^ n) × (2 ^ n ≤ max 1 (y + y))
filled fuel zero le bound = (0, all_zero, omega arith, omega arith)
  where
    all_zero : all_smeared 0 + 1 ≡ 2 ^ 0
    all_zero = unfold smear in refl
filled zero (suc y) le bound = absurd (omega arith)
filled (suc fuel) (suc y) le bound =
    let (n, power, above, near) = filled fuel (suc y / 2) (omega arith) (omega arith) in
    let twice : 2 ^ suc n ≡ 2 ^ n + 2 ^ n = two-pow-succ n in
    let half : all_smeared (suc y) / 2 ≡ all_smeared (suc y / 2) =
      all_smeared-Covers.shift 1 (suc y) in
    let set : all_smeared (suc y) % 2 ≢ 0 =
      λ e. omega (arith, all_smeared-Covers.low (suc y) e, bound) in
    let whole : all_smeared (suc y) + 1 ≡ 2 ^ suc n = omega (arith, power, half, set, twice) in
    (suc n, whole, omega (arith, twice, above), omega (arith, twice, near))

-- For a size of 1 up to 2 ^ 63, next_power_of_2 is the least power of two that is not smaller.
pub next_power_of_2-IsLeastPower :
    (size : ℕ) → 0 < size → size ≤ 2 ^ 63 → IsLeastPower size (next_power_of_2 size)
unfolding next_power_of_2
next_power_of_2-IsLeastPower size pos_size bound =
    let less : minus64 size 1 ≡ size - 1 = omega arith in
    let (n, power, above, near) = filled (size - 1) (size - 1) (omega arith) (omega arith) in
    let value : next_power_of_2 size ≡ 2 ^ n =
      ap (λ y. plus64 (all_smeared y) 1) less ∙ omega (arith, power, near) in
    record {
      exponent = n;
      is_power = value;
      enough = omega (arith, value, above);
      least = omega (arith, value, near);
    }

order_loop-power : (fuel j order : ℕ) → j < fuel → order_loop fuel (2 ^ suc j - 1) order ≡ order + j
unfolding order_loop
order_loop-power zero j order lt = absurd (omega arith)
order_loop-power (suc fuel) zero order lt = omega arith
order_loop-power (suc fuel) (suc j) order lt =
    let twice = two-pow-succ (suc j) in
    let some_bit = positive (suc j) in
    let half : (2 ^ suc (suc j) - 1) / 2 ≡ 2 ^ suc j - 1 = omega (arith, twice, some_bit) in
    let more : 1 < 2 ^ suc j = omega (arith, two-pow-succ j, positive j) in
    let go : (2 ^ suc j - 1 == 0) ≡ false = ground (arith, more) in
    rw (half, go) (order_loop-power fuel j (order + 1) (omega (arith, lt)) ∙ omega arith)

-- The order of a block is one less than the exponent of its size.
pub get_order-power : (j : ℕ) → 2 ^ suc j < 2 ^ 64 → j < 64 → get_order (2 ^ suc j) ≡ j
unfolding get_order
get_order-power j bound lt =
    let less : minus64 (2 ^ suc j) 1 ≡ 2 ^ suc j - 1 = omega (arith, bound, positive (suc j)) in
    ap (λ n. order_loop 64 n 0) less ∙ order_loop-power 64 j 0 lt ∙ omega arith
