-- ===== src/Buddy/Start.antt =====
-- init_memory_manager of Kernel/memory/buddyMemoryManagement.c.
use mathlib.Core.Path.{subst}
use native.Mathlib.Nat.{two-pow-succ}
use tp2_sistemas_operativos.Base.{
  ℕ, zero, suc, ◌+◌, ◌*◌, ◌%◌, ◌^◌, ◌≤◌, ◌<◌, ◌≡◌, refl, ap, ◌∙◌, arith, true, false, ◌&&◌, inl,
  inr, ltb, leb, ◌==◌, if◌then◌else◌, Bool-cases, List, [], ◌∷◌, update_at, update_at_self,
  update_at_other,
}
use tp2_sistemas_operativos.Buddy.{Buddy, max_order, size_loop, init_memory_manager, get_order}
use tp2_sistemas_operativos.Buddy.Bits.{positive, exponent-le, exponent-lt, power_mono}
use tp2_sistemas_operativos.Buddy.Orders.{get_order-power}
use tp2_sistemas_operativos.Buddy.Tree.{leaf}
use tp2_sistemas_operativos.Buddy.Pairs.{occ}
use tp2_sistemas_operativos.Buddy.Heap.{IsBuddy}

-- The largest power of two that is not larger than the memory.
pub record IsLargestPower (total p : ℕ) : Type 0 where
  pub exponent : ℕ
  pub is_power : p ≡ 2 ^ exponent
  pub fits : p ≤ total
  pub most : total < p + p
  pub large : 6 ≤ exponent

size_loop-IsLargestPower :
    (fuel k total : ℕ)
    → total < 2 ^ 62
    → 62 ≤ k + fuel
    → 6 ≤ k
    → 2 ^ k ≤ total
    → IsLargestPower total (size_loop fuel (2 ^ k) total)
unfolding size_loop
size_loop-IsLargestPower zero k total bound enough large fits =
    absurd (omega (arith, power_mono 62 k (omega (arith, enough)), bound, fits))
size_loop-IsLargestPower (suc fuel) k total bound enough large fits =
    let twice : 2 ^ k * 2 % 2 ^ 64 ≡ 2 ^ suc k = omega (arith, two-pow-succ k, fits, bound) in
    let rest =
      size_loop-IsLargestPower fuel (suc k) total bound (omega (arith, enough))
        (omega (arith, large)) in
    elim (Bool-cases (leb (2 ^ suc k) total)) [
      | inl more ↦ rw (twice, more) (rest (ground (arith, more)))
      | inr last ↦
          rw (twice, last)
            (record {
              exponent = k;
              is_power = refl;
              fits = fits;
              most = ground (arith, last, two-pow-succ k);
              large = large;
            })
    ]

one_listed :
    (f : ℕ → List ℕ) (j q y start : ℕ)
    → f q ≡ []
    → occ y (update_at f j (start ∷ []) q) ≡ (if suc j == suc q && start == y then 1 else 0)
unfolding update_at
one_listed f j q y start e = elim (Bool-cases (j == q)) [
  | inl here ↦ rw here (ground (arith, here))
  | inr other ↦ rw other (ap (λ l. occ y l) e ∙ ground (arith, other))
]

pub init_memory_manager-IsBuddy :
    (b : Buddy) (start total : ℕ)
    → 0 < start
    → 64 ≤ total
    → total ≤ 2 ^ 28
    → start + total < 2 ^ 64
    → ((y : ℕ) → start < y → b.is_free y ≡ false)
    → (n : ℕ) × IsBuddy (init_memory_manager b start total) n (leaf true)
      × (2 ^ n ≤ total)
      × (total < 2 ^ suc n)
unfolding init_memory_manager
init_memory_manager-IsBuddy b start total nonzero enough few below blank =
    let power =
      size_loop-IsLargestPower 64 6 total (omega (arith, few)) (omega arith) (omega arith)
        (omega (arith, enough)) in
    of_power power.exponent power.is_power power.fits power.most power.large
  where
    of_exponent :
        (j p : ℕ)
        → p ≡ 2 ^ suc j
        → p ≤ total
        → 6 ≤ suc j
        → IsBuddy
            (record {
              size = update_at b.size start p;
              is_free = update_at b.is_free start true;
              free_lists =
                  update_at
                    (λ i. if ltb i max_order then [] else b.free_lists i)
                    (get_order p)
                    (start ∷ []);
              start = start;
              total_size = total;
              free_size = total;
              allocated_size = 0;
            })
            (suc j)
            (leaf true)
    of_exponent j p e fits large =
        let small : 2 ^ suc j ≤ 2 ^ 28 = omega (arith, e, fits, few) in
        let orders = exponent-le (suc j) 28 small in
        let is_j : get_order p ≡ j =
          ap (λ s. get_order s) e
          ∙ get_order-power j (omega (arith, small)) (omega (arith, orders)) in
        record {
          area = record {
            small = small;
            orders = orders;
            nonzero = nonzero;
            inside = omega (arith, e, fits);
            below = below;
            edge = inr (
                update_at_other b.is_free start true _
                  (λ same. omega (arith, same, positive (suc j)))
                ∙ blank (start + 2 ^ suc j) (omega (arith, positive (suc j))));
          };
          reps = (update_at_self b.size start p ∙ e, update_at_self b.is_free start true, large);
          lists = λ q y lt.
              ap
                (λ i. occ y (
                  update_at (λ i. if ltb i max_order then [] else b.free_lists i) i (start ∷ []) q))
                is_j
              ∙ one_listed (λ i. if ltb i max_order then [] else b.free_lists i) j q y start
                  (ground (arith, lt));
        }

    of_power :
        (e : ℕ)
        → size_loop 64 64 total ≡ 2 ^ e
        → size_loop 64 64 total ≤ total
        → total < size_loop 64 64 total + size_loop 64 64 total
        → 6 ≤ e
        → (n : ℕ) × IsBuddy (init_memory_manager b start total) n (leaf true)
          × (2 ^ n ≤ total)
          × (total < 2 ^ suc n)
    of_power zero e fits most large = absurd (omega (arith, large))
    of_power (suc j) e fits most large = (
      suc j,
      of_exponent j (size_loop 64 64 total) e fits large,
      omega (arith, e, fits),
      omega (arith, e, most, two-pow-succ (suc j)),
    )

-- The exponent of the first block is that of the largest power of two that fits.
pub init_memory_manager-IsBuddy_at :
    (b : Buddy) (start total n : ℕ)
    → 0 < start
    → 64 ≤ total
    → total ≤ 2 ^ 28
    → start + total < 2 ^ 64
    → ((y : ℕ) → start < y → b.is_free y ≡ false)
    → 2 ^ n ≤ total
    → total < 2 ^ suc n
    → IsBuddy (init_memory_manager b start total) n (leaf true)
init_memory_manager-IsBuddy_at b start total n nonzero enough few below blank fits most =
    let (e, heap, fits_e, most_e) =
      init_memory_manager-IsBuddy b start total nonzero enough few below blank in
    let up : e < suc n = exponent-lt e (suc n) (omega (arith, fits_e, most)) in
    let down : n < suc e = exponent-lt n (suc e) (omega (arith, fits, most_e)) in
    let same : e ≡ n = omega (arith, up, down) in
    subst (λ i. IsBuddy (init_memory_manager b start total) i (leaf true)) same heap
