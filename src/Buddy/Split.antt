-- ===== src/Buddy/Split.antt =====
-- The search and the splitting of malloc of Kernel/memory/buddyMemoryManagement.c.
use mathlib.Core.Path.{subst}
use native.Mathlib.Nat.{two-pow-succ}
use tp2_sistemas_operativos.Base.{
  ℕ, zero, suc, ◌+◌, ◌-◌, ◌/◌, ◌^◌, ◌≤◌, ◌<◌, ◌≡◌, ◌≢◌, refl, sym, ap, ◌∙◌, arith, true, false,
  ◌&&◌, ◌⊎◌, inl, inr, ◌==◌, ==_iff, if◌then◌else◌, Bool-cases, none, some, List, [], ◌∷◌,
  update_at, update_at_self, update_at_other,
}
use tp2_sistemas_operativos.Memory.{plus64}
use tp2_sistemas_operativos.Buddy.{Buddy, Found, set_list, take_first, find_loop, split, split_loop}
use tp2_sistemas_operativos.Buddy.Bits.{positive}
use tp2_sistemas_operativos.Buddy.Tree.{leaf, Around, left_half, At-Place, count_around, At-Agree}
use tp2_sistemas_operativos.Buddy.Hole.{Area, Hole}
use tp2_sistemas_operativos.Buddy.Pairs.{occ}

-- What the search returns: the first block of the first list that is not empty.
abbrev pub Finds : Buddy → ℕ → Found → Type 0
Finds b order none = (q : ℕ) → order ≤ q → q < 28 → b.free_lists q ≡ []
Finds b order (some (block, (found, after))) =
    (rest : List ℕ) × (order ≤ found)
    × (found < 28)
    × (b.free_lists found ≡ block ∷ rest)
    × (after ≡ set_list b found rest)
    × ((q : ℕ) → order ≤ q → q < found → b.free_lists q ≡ [])

earlier :
    (b : Buddy) (order : ℕ) (r : Found)
    → b.free_lists order ≡ []
    → Finds b (order + 1) r
    → Finds b order r
earlier b order none e h = λ q le lt. elim (Bool-cases (order == q)) [
  | inl here ↦ ap (λ i. b.free_lists i) (sym ((==_iff order q).0 here)) ∙ e
  | inr other ↦ h q (ground (arith, other, le)) lt
]
earlier b order (some (block, (found, after))) e (rest, le, lt, first, same, empty) = (
  rest,
  omega (arith, le),
  lt,
  first,
  same,
  λ q lo hi. elim (Bool-cases (order == q)) [
    | inl here ↦ ap (λ i. b.free_lists i) (sym ((==_iff order q).0 here)) ∙ e
    | inr other ↦ empty q (ground (arith, other, lo)) hi
  ],
)

take_first-Finds :
    (b : Buddy) (order : ℕ) (list : List ℕ) (later : Found)
    → order < 28
    → b.free_lists order ≡ list
    → Finds b (order + 1) later
    → Finds b order (take_first b order list later)
take_first-Finds b order [] later lt e h = earlier b order later e h
take_first-Finds b order (block ∷ rest) later lt e h =
    (rest, omega arith, lt, e, refl, λ q lo hi. absurd (omega (arith, lo, hi)))

pub find_loop-Finds :
    (left : ℕ) (b : Buddy) (order : ℕ) → left ≡ 28 - order → Finds b order (find_loop left b order)
unfolding find_loop
find_loop-Finds zero b order e = λ q lo hi. absurd (omega (arith, e, lo, hi))
find_loop-Finds (suc left) b order e =
    take_first-Finds b order (b.free_lists order) (find_loop left b (order + 1)) (omega (arith, e))
      refl (find_loop-Finds left b (order + 1) (omega (arith, e)))

-- Splitting keeps the memory that is managed.
split-Area :
    (b : Buddy) (n : ℕ) (c : Around) (x j : ℕ)
    → Area b n
    → Hole b n c x (suc (suc j))
    → Area (split b x j) n
unfolding split
split-Area b n c x j area hole =
    let place = At-Place b.size b.is_free b.start n c x (suc (suc j)) hole.at in
    let twice = two-pow-succ (suc j) in
    let upper : plus64 x (b.size x / 2) ≡ x + 2 ^ suc j =
      omega (arith, hole.header, twice, place.fits, area.inside, area.below) in
    record {
      small = area.small;
      orders = area.orders;
      nonzero = area.nonzero;
      inside = area.inside;
      below = area.below;
      edge = kept upper (omega (arith, twice, place.fits, positive (suc j))) area.edge;
    }
  where
    kept :
        {upper : ℕ}
        → upper ≡ x + 2 ^ suc j
        → x + 2 ^ suc j ≢ b.start + 2 ^ n
        → (b.total_size ≡ 2 ^ n) ⊎ (b.is_free (b.start + 2 ^ n) ≡ false)
        → (b.total_size ≡ 2 ^ n) ⊎ (update_at b.is_free upper true (b.start + 2 ^ n) ≡ false)
    kept e away (inl whole) = inl whole
    kept e away (inr f) =
        inr (update_at_other b.is_free _ true _ (λ same. away (sym (same ∙ e))) ∙ f)

-- A block that becomes the first one of its list, and the counts with and without it.
pub put_in :
    (f : ℕ → List ℕ) (j u q z cnt : ℕ)
    → occ z (f q) ≡ cnt
    → occ z (update_at f j (u ∷ f j) q) ≡ (if suc j == suc q && u == z then 1 else 0) + cnt
unfolding update_at
put_in f j u q z cnt e = elim (Bool-cases (j == q)) [
  | inl here ↦
      (let moved = ap (λ i. occ z (f i)) ((==_iff j q).0 here) in ground (arith, here, moved, e))
  | inr other ↦ ground (arith, other, e)
]

pub split-Hole :
    (b : Buddy) (n : ℕ) (c : Around) (x j : ℕ)
    → Area b n
    → Hole b n c x (suc (suc j))
    → 6 ≤ suc j
    → Hole (split b x j) n (left_half (leaf true) c) x (suc j)
unfolding split
split-Hole b n c x j area hole large =
    let place = At-Place b.size b.is_free b.start n c x (suc (suc j)) hole.at in
    let twice = two-pow-succ (suc j) in
    let half : b.size x / 2 ≡ 2 ^ suc j = omega (arith, hole.header, twice) in
    let upper : plus64 x (b.size x / 2) ≡ x + 2 ^ suc j =
      omega (arith, half, twice, place.fits, area.inside, area.below) in
    let away : x + 2 ^ suc j ≢ x = omega (arith, positive (suc j)) in
    let u = x + 2 ^ suc j in
    let size' = update_at (update_at b.size u (2 ^ suc j)) x (2 ^ suc j) in
    let flag' = update_at b.is_free u true in
    rw (upper, half)
      (record {
        at = (
          (
            update_at_other (update_at b.size u (2 ^ suc j)) x _ u away ∙ update_at_self b.size u _,
            update_at_self b.is_free u true,
            large,
          ),
          At-Agree b.size size' b.is_free flag' b.start n c x (suc (suc j))
              (λ z out. (
                update_at_other (update_at b.size u (2 ^ suc j)) x _ z (not_x z out)
                    ∙ update_at_other b.size u _ z (not_u z out),
                update_at_other b.is_free u true z (not_u z out),
              ))
              hole.at,
        );
        header = update_at_self (update_at b.size u (2 ^ suc j)) x _;
        flag = update_at_other b.is_free u true x (λ e. away (sym e)) ∙ hole.flag;
        large = large;
        lists = λ q z lt. put_in b.free_lists j u q z _ (hole.lists q z lt);
      })
  where
    not_x : (z : ℕ) → (z < x) ⊎ (x + 2 ^ suc (suc j) ≤ z) → z ≢ x
    not_x z (inl lt) e = omega (arith, lt, e)
    not_x z (inr le) e = omega (arith, le, e, positive (suc (suc j)))

    not_u : (z : ℕ) → (z < x) ⊎ (x + 2 ^ suc (suc j) ≤ z) → z ≢ x + 2 ^ suc j
    not_u z (inl lt) e = omega (arith, lt, e)
    not_u z (inr le) e = omega (arith, le, e, two-pow-succ (suc j), positive (suc j))

split-start : (b : Buddy) (x j : ℕ) → (split b x j).start ≡ b.start
unfolding split
split-start b x j = refl

-- What the loop that splits makes of a block: a smaller one at the same address, with the same blocks in use.
pub record Splits (b : Buddy) (n : ℕ) (c : Around) (x current o : ℕ) (b' : Buddy) : Type 0 where
  pub around : Around
  pub area : Area b' n
  pub hole : Hole b' n around x o
  pub same_start : b'.start ≡ b.start
  pub same_used : (q y : ℕ) → count_around false around x o q y ≡ count_around false c x current q y

pub split_loop-Splits :
    (left : ℕ) (b : Buddy) (n : ℕ) (c : Around) (x order current : ℕ)
    → Area b n
    → Hole b n c x (suc current)
    → 6 ≤ suc order
    → current ≡ order + left
    → Splits b n c x (suc current) (suc order) (split_loop left b x current)
unfolding split_loop
split_loop-Splits zero b n c x order current area hole large e =
    let same : current ≡ order = omega (arith, e) in
    record {
      around = c;
      area = area;
      hole = subst (λ i. Hole b n c x (suc i)) same hole;
      same_start = refl;
      same_used = λ q y. ap (λ i. count_around false c x (suc i) q y) (sym same);
    }
split_loop-Splits (suc left) b n c x order zero area hole large e = absurd (omega (arith, e))
split_loop-Splits (suc left) b n c x order (suc current) area hole large e =
    let larger : 6 ≤ suc current = omega (arith, large, e) in
    let one : suc current - 1 ≡ current = omega arith in
    let rest =
      split_loop-Splits left (split b x current) n (left_half (leaf true) c) x order current
        (split-Area b n c x current area hole) (split-Hole b n c x current area hole larger) large
        (omega (arith, e)) in
    rw one (record {
      around = rest.around;
      area = rest.area;
      hole = rest.hole;
      same_start = rest.same_start ∙ split-start b x current;
      same_used = λ q y. omega (arith, rest.same_used q y);
    })
