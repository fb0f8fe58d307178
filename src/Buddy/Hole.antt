-- ===== src/Buddy/Hole.antt =====
-- One block of the heap of Kernel/memory/buddyMemoryManagement.c taken out of its list, and its join with its buddy.
use native.Mathlib.Nat.{two-pow-succ}
use tp2_sistemas_operativos.Base.{
  ℕ, zero, suc, ◌+◌, ◌^◌, ◌≤◌, ◌<◌, ◌≡◌, ◌≢◌, refl, sym, ap, ◌∙◌, arith, Bool, true, false, ◌⊎◌,
  inl, inr, ◌==◌, if◌then◌else◌, Bool-cases, List, update_at, update_at_self, update_at_other,
  ==_iff,
}
use tp2_sistemas_operativos.Memory.{plus64}
use tp2_sistemas_operativos.Buddy.{Buddy, stays_apart, join, set_list}
use tp2_sistemas_operativos.Buddy.Bits.{positive}
use tp2_sistemas_operativos.Buddy.Tree.{
  Tree, leaf, node, Around, Reps, At, At-Place, count_around, At-Agree,
}
use tp2_sistemas_operativos.Buddy.Pairs.{occ}

-- The memory that is managed. The block behind the largest one that fits is not free, if there is memory
-- behind that one.
pub record Area (b : Buddy) (n : ℕ) : Type 0 where
  pub small : 2 ^ n ≤ 2 ^ 28
  pub orders : n ≤ 28
  pub nonzero : 0 < b.start
  pub inside : 2 ^ n ≤ b.total_size
  pub below : b.start + b.total_size < 2 ^ 64
  pub edge : (b.total_size ≡ 2 ^ n) ⊎ (b.is_free (b.start + 2 ^ n) ≡ false)

-- One block is in no list and not in the tree; what is around it is in order.
pub record Hole (b : Buddy) (n : ℕ) (c : Around) (x o : ℕ) : Type 0 where
  pub at : At b.size b.is_free b.start n c x o
  pub header : b.size x ≡ 2 ^ o
  pub flag : b.is_free x ≡ true
  pub large : 6 ≤ o
  pub lists : (q y : ℕ) → q < 28 → occ y (b.free_lists q) ≡ count_around true c x o (suc q) y

Reps-size-le :
    (size : ℕ → ℕ) (is_free : ℕ → Bool) (t : Tree) (a k : ℕ)
    → Reps size is_free t a k
    → size a ≤ 2 ^ k
Reps-size-le size is_free (leaf f) a k h = omega (arith, h.0)
Reps-size-le size is_free (node l r) a zero h = ground (arith, h)
Reps-size-le size is_free (node l r) a (suc k) (hl, hr) =
    omega (arith, Reps-size-le size is_free l a k hl, two-pow-succ k)

-- A buddy that is in use, or has been split, ends the loop.
pub used-apart :
    (b : Buddy) (x y o : ℕ) → Reps b.size b.is_free (leaf false) y o → stays_apart b x y ≡ true
unfolding stays_apart
used-apart b x y o (hs, hf, large) = ground (arith, hf)

pub split-apart :
    (b : Buddy) (l r : Tree) (x y o : ℕ)
    → b.size x ≡ 2 ^ o
    → Reps b.size b.is_free (node l r) y o
    → stays_apart b x y ≡ true
unfolding stays_apart
split-apart b l r x y zero s h = ground (arith, h)
split-apart b l r x y (suc o) s (hl, hr) =
    let less : b.size y < 2 ^ suc o =
      omega (arith, Reps-size-le b.size b.is_free l y o hl, two-pow-succ o, positive o) in
    ground (arith, less, s)

pub free-joins :
    (b : Buddy) (n x y o : ℕ)
    → Area b n
    → b.size x ≡ 2 ^ o
    → b.size y ≡ 2 ^ o
    → b.is_free y ≡ true
    → b.start ≤ y
    → y < b.start + 2 ^ n
    → stays_apart b x y ≡ false
unfolding stays_apart
free-joins b n x y o area sx sy f lo hi =
    let whole : plus64 b.start b.total_size ≡ b.start + b.total_size = omega (arith, area.below) in
    let inside : y < b.start + b.total_size = omega (arith, hi, area.inside) in
    let same_size : b.size y ≡ b.size x = sy ∙ sym sx in
    ground (arith, whole, inside, same_size, f, lo)

-- A list of which one address is taken out, and the counts with and without it.
pub moved_lists :
    (f : ℕ → List ℕ) (j q z cnt d : ℕ) (list : List ℕ)
    → occ z (f q) ≡ (if j == q then d else 0) + cnt
    → occ z (f j) ≡ d + occ z list
    → occ z (update_at f j list q) ≡ cnt
unfolding update_at
moved_lists f j q z cnt d list counts fewer = elim (Bool-cases (j == q)) [
  | inl e ↦
      (let moved = ap (λ i. occ z (f i)) ((==_iff j q).0 e) in
        let with_d : occ z (f q) ≡ d + cnt = ground (arith, counts, e) in
        rw e (omega (arith, moved, with_d, fewer)))
  | inr e ↦ rw e (ground (arith, counts, e))
]

-- After a merge: the lower half stands for both.
abbrev pub joined : Buddy → List ℕ → ℕ → ℕ → Buddy
joined b list p j = join (set_list b j list) p

pub join-Hole :
    (b : Buddy) (n : ℕ) (c : Around) (y p j : ℕ) (list : List ℕ)
    → Area b n
    → At b.size b.is_free b.start n c p (suc (suc j))
    → b.size p ≡ 2 ^ suc j
    → b.is_free p ≡ true
    → 6 ≤ suc j
    → ((q z : ℕ)
        → q < 28
        → occ z (b.free_lists q)
          ≡ (if j == q then (if y == z then 1 else 0) else 0)
            + count_around true c p (suc (suc j)) (suc q) z)
    → ((z : ℕ) → occ z (b.free_lists j) ≡ (if y == z then 1 else 0) + occ z list)
    → Hole (joined b list p j) n c p (suc (suc j))
unfolding join set_list
join-Hole b n c y p j list area at s f large counts fewer =
    let place = At-Place b.size b.is_free b.start n c p (suc (suc j)) at in
    let next = two-pow-succ (suc j) in
    record {
      at =
          At-Agree b.size (joined b list p j).size b.is_free b.is_free b.start n c p (suc (suc j))
            (λ z out. (update_at_other b.size p _ z (away z out), refl)) at;
      header = update_at_self b.size p _ ∙ omega (arith, s, next, place.fits, area.small);
      flag = f;
      large = omega (arith, large);
      lists = λ q z lt.
          moved_lists b.free_lists j q z (count_around true c p (suc (suc j)) (suc q) z)
            (if y == z then 1 else 0) list (counts q z lt) (fewer z);
    }
  where
    away : (z : ℕ) → (z < p) ⊎ (p + 2 ^ suc (suc j) ≤ z) → z ≢ p
    away z (inl lt) e = omega (arith, e, lt)
    away z (inr le) e = omega (arith, e, le, positive (suc (suc j)))

pub join-Area :
    (b : Buddy) (n : ℕ) (list : List ℕ) (p j : ℕ) → Area b n → Area (joined b list p j) n
unfolding join set_list
join-Area b n list p j area = record {
  small = area.small;
  orders = area.orders;
  nonzero = area.nonzero;
  inside = area.inside;
  below = area.below;
  edge = area.edge;
}
