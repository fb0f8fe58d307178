-- ===== src/Buddy/Merge.antt =====
-- The loop of free of Kernel/memory/buddyMemoryManagement.c.
use mathlib.Core.Path.{subst}
use native.Mathlib.Nat.{two-pow-succ}
use tp2_sistemas_operativos.Base.{
  ℕ, zero, suc, ◌+◌, ◌-◌, ◌^◌, ◌≤◌, ◌<◌, ◌≡◌, refl, ap, ◌∙◌, arith, Bool, true, false, ◌⊎◌, inl,
  inr, ltb, ◌==◌, if◌then◌else◌, Option, some, List,
}
use tp2_sistemas_operativos.Memory.{plus64}
use tp2_sistemas_operativos.Buddy.{
  Buddy, get_buddy, get_order, stays_apart, unlink, join, set_list, merge_loop,
}
use tp2_sistemas_operativos.Buddy.Bits.{positive}
use tp2_sistemas_operativos.Buddy.Orders.{get_order-power}
use tp2_sistemas_operativos.Buddy.Tree.{
  Tree, leaf, node, Around, top, left_half, right_half, Reps, At, At-Place, count, count_around,
}
use tp2_sistemas_operativos.Buddy.Pairs.{get_buddy-left, get_buddy-right, occ, unlink-Unlinks}
use tp2_sistemas_operativos.Buddy.Hole.{
  Area, Hole, used-apart, split-apart, free-joins, joined, join-Hole, join-Area,
}

-- Where the loop of free ends: it has joined blocks, and those in use are as before.
pub record Merged (b : Buddy) (n : ℕ) (c : Around) (x o : ℕ) (result : Option (ℕ × Buddy))
    : Type 0 where
  pub block : ℕ
  pub after : Buddy
  pub around : Around
  pub exponent : ℕ
  pub returns : result ≡ some (block, after)
  pub area : Area after n
  pub hole : Hole after n around block exponent
  pub same_start : after.start ≡ b.start
  pub same_used :
      (q y : ℕ) → count_around false around block exponent q y ≡ count_around false c x o q y
  -- The block has become free, and no other byte has.
  pub inside_start : block ≤ x
  pub inside_end : x + 2 ^ o ≤ block + 2 ^ exponent

stopped :
    (b : Buddy) (n : ℕ) (c : Around) (x o fuel : ℕ)
    → Area b n
    → Hole b n c x o
    → stays_apart b x (get_buddy b x) ≡ true
    → Merged b n c x o (merge_loop (suc fuel) b x)
unfolding merge_loop
stopped b n c x o fuel area hole stop = record {
  block = x;
  after = b;
  around = c;
  exponent = o;
  returns = rw stop refl;
  area = area;
  hole = hole;
  same_start = refl;
  same_used = λ q y. refl;
  inside_start = omega arith;
  inside_end = omega arith;
}

-- One round that joins, and what the loop makes of the rest.
merge-step :
    (b : Buddy) (x y p j fuel : ℕ) (list : List ℕ)
    → get_buddy b x ≡ y
    → stays_apart b x y ≡ false
    → get_order (b.size x) ≡ j
    → unlink y (b.free_lists j) ≡ some list
    → (if ltb y x then y else x) ≡ p
    → merge_loop (suc fuel) b x ≡ merge_loop fuel (joined b list p j) p
unfolding merge_loop
merge-step b x y p j fuel list is_y go is_j found is_p = rw (is_y, go, is_j, found, is_p) refl

-- A block `x` with its buddy, which is the tree `t` at `y`; `p` is the lower of the two.
pub record Sibling (b : Buddy) (n : ℕ) (h c : Around) (t : Tree) (x y p j : ℕ) : Type 0 where
  pub is_y : get_buddy b x ≡ y
  pub tree : Reps b.size b.is_free t y (suc j)
  pub parent : At b.size b.is_free b.start n c p (suc (suc j))
  pub is_p : (if ltb y x then y else x) ≡ p
  pub one_of : (p ≡ x) ⊎ (p ≡ y)
  pub y_start : b.start ≤ y
  pub y_end : y + 2 ^ suc j ≤ b.start + 2 ^ n
  pub counts :
      (f : Bool) (q z : ℕ)
      → count_around f h x (suc j) q z
        ≡ count f t y (suc j) q z + count_around f c p (suc (suc j)) q z
  pub lower : p ≤ x
  pub upper : x + 2 ^ suc j ≤ p + 2 ^ suc (suc j)

either_of {ℓ} :
    {A : Type ℓ} (f : ℕ → A) (p x y : ℕ) (v : A) → f x ≡ v → f y ≡ v → (p ≡ x) ⊎ (p ≡ y) → f p ≡ v
either_of f p x y v ex ey (inl e) = ap f e ∙ ex
either_of f p x y v ex ey (inr e) = ap f e ∙ ey

module _ (b : Buddy) (n : ℕ) (h c : Around) (x y p j fuel : ℕ) where
  leaf_lists :
      Hole b n h x (suc j)
      → Sibling b n h c (leaf true) x y p j
      → (q z : ℕ) → q < 28
      → occ z (b.free_lists q)
        ≡ (if j == q then (if y == z then 1 else 0) else 0)
          + count_around true c p (suc (suc j)) (suc q) z
  leaf_lists hole sib q z lt = ground (arith, hole.lists q z lt, sib.counts true (suc q) z)

  merge-joins :
      Area b n
      → Hole b n h x (suc j)
      → Sibling b n h c (leaf true) x y p j
      → ((b' : Buddy)
          → Area b' n
          → Hole b' n c p (suc (suc j))
          → Merged b' n c p (suc (suc j)) (merge_loop fuel b' p))
      → Merged b n h x (suc j) (merge_loop (suc fuel) b x)
  merge-joins area hole sib ih =
      let (sy, fy, large) = sib.tree in
      let place = At-Place b.size b.is_free b.start n h x (suc j) hole.at in
      let shallow : suc j ≤ n = place.exponent in
      let is_j : get_order (b.size x) ≡ j =
        ap (λ s. get_order s) hole.header
        ∙ get_order-power j (omega (arith, place.fits, area.inside, area.below))
            (omega (arith, shallow, area.orders)) in
      let go : stays_apart b x y ≡ false =
        free-joins b n x y (suc j) area hole.header sy fy sib.y_start
          (omega (arith, sib.y_end, positive (suc j))) in
      let lists = leaf_lists hole sib in
      let small_j : j < 28 = omega (arith, shallow, area.orders) in
      let some_y : 0 < occ y (b.free_lists j) = ground (arith, lists j y small_j) in
      let taken = unlink-Unlinks y (b.free_lists j) some_y in
      let new_hole =
        join-Hole b n c y p j taken.rest area sib.parent
          (either_of b.size p x y (2 ^ suc j) hole.header sy sib.one_of)
          (either_of b.is_free p x y true hole.flag fy sib.one_of) hole.large lists taken.fewer in
      let later = ih (joined b taken.rest p j) (join-Area b n taken.rest p j area) new_hole in
      record {
        block = later.block;
        after = later.after;
        around = later.around;
        exponent = later.exponent;
        returns =
            merge-step b x y p j fuel taken.rest sib.is_y go is_j taken.returns sib.is_p
            ∙ later.returns;
        area = later.area;
        hole = later.hole;
        same_start = later.same_start ∙ joined-start taken.rest;
        same_used = λ q z. later.same_used q z ∙ omega (arith, sib.counts false q z);
        inside_start = omega (arith, later.inside_start, sib.lower);
        inside_end = omega (arith, later.inside_end, sib.upper);
      }
    where
      joined-start : (list : List ℕ) → (joined b list p j).start ≡ b.start
      joined-start list = unfold join set_list in refl

  merge-Sibling :
      (t : Tree)
      → Area b n
      → Hole b n h x (suc j)
      → Sibling b n h c t x y p j
      → ((b' : Buddy)
          → Area b' n
          → Hole b' n c p (suc (suc j))
          → Merged b' n c p (suc (suc j)) (merge_loop fuel b' p))
      → Merged b n h x (suc j) (merge_loop (suc fuel) b x)
  merge-Sibling (leaf true) area hole sib ih = merge-joins area hole sib ih
  merge-Sibling (leaf false) area hole sib ih =
      stopped b n h x (suc j) fuel area hole
        (ap (λ w. stays_apart b x w) sib.is_y ∙ used-apart b x y (suc j) sib.tree)
  merge-Sibling (node l r) area hole sib ih =
      stopped b n h x (suc j) fuel area hole
        (ap (λ w. stays_apart b x w) sib.is_y ∙ split-apart b l r x y (suc j) hole.header sib.tree)

-- The largest block has no buddy.
whole-apart :
    (b : Buddy) (n x : ℕ) → Area b n → Hole b n top x n → stays_apart b x (get_buddy b x) ≡ true
whole-apart b n x area hole =
    let at_start = hole.at.0 in
    let is_y : get_buddy b x ≡ x + 2 ^ n =
      get_buddy-left b x n 0 (omega (arith, area.small))
        (omega (arith, at_start, area.inside, area.below)) hole.header (omega (arith, at_start)) in
    ap (λ w. stays_apart b x w) (is_y ∙ ap (λ s. s + 2 ^ n) at_start) ∙ behind_all area.edge
  where
    behind_all :
        (b.total_size ≡ 2 ^ n) ⊎ (b.is_free (b.start + 2 ^ n) ≡ false)
        → stays_apart b x (b.start + 2 ^ n) ≡ true
    behind_all (inl e) =
        let whole : plus64 b.start b.total_size ≡ b.start + 2 ^ n = omega (arith, area.below, e) in
        unfold stays_apart in ground (arith, whole)
    behind_all (inr f) = unfold stays_apart in ground (arith, f)

left-Sibling :
    (b : Buddy) (n : ℕ) (r : Tree) (c : Around) (x j : ℕ)
    → Area b n
    → Hole b n (left_half r c) x (suc j)
    → Sibling b n (left_half r c) c r x (x + 2 ^ suc j) x j
left-Sibling b n r c x j area hole =
    let next = At-Place b.size b.is_free b.start n c x (suc (suc j)) hole.at.1 in
    let twice = two-pow-succ (suc j) in
    record {
      is_y =
          get_buddy-left b x (suc j) next.multiple
            (omega (arith, twice, next.fits, area.small, next.address))
            (omega (arith, twice, next.fits, area.inside, area.below)) hole.header next.address;
      tree = hole.at.0;
      parent = hole.at.1;
      is_p = ground (arith, positive (suc j));
      one_of = inl refl;
      y_start = omega (arith, next.address);
      y_end = omega (arith, twice, next.fits);
      counts = λ f q z. refl;
      lower = omega arith;
      upper = omega (arith, twice);
    }

right-Sibling :
    (b : Buddy) (n : ℕ) (l : Tree) (c : Around) (x p j : ℕ)
    → Area b n
    → b.size x ≡ 2 ^ suc j
    → x ≡ p + 2 ^ suc j
    → Reps b.size b.is_free l p (suc j)
    → At b.size b.is_free b.start n c p (suc (suc j))
    → Sibling b n (right_half l c) c l x p p j
right-Sibling b n l c x p j area s e hl at =
    let next = At-Place b.size b.is_free b.start n c p (suc (suc j)) at in
    let twice = two-pow-succ (suc j) in
    let back : x - 2 ^ suc j ≡ p = omega (arith, e) in
    record {
      is_y =
          get_buddy-right b x p (suc j) next.multiple
            (omega (arith, twice, next.fits, area.small, next.address))
            (omega (arith, twice, next.fits, area.inside, area.below, e)) s e next.address;
      tree = hl;
      parent = at;
      is_p = ground (arith, positive (suc j), e);
      one_of = inr refl;
      y_start = omega (arith, next.address);
      y_end = omega (arith, twice, next.fits);
      counts = λ f q z. rw back refl;
      lower = omega (arith, e);
      upper = omega (arith, twice, e);
    }

-- The loop ends within the rounds it has, and never walks over the end of a list.
pub merge_loop-Merged :
    (fuel : ℕ) (b : Buddy) (n : ℕ) (c : Around) (x o : ℕ)
    → Area b n
    → Hole b n c x o
    → n < o + fuel
    → Merged b n c x o (merge_loop fuel b x)
merge_loop-Merged zero b n c x o area hole enough =
    let place = At-Place b.size b.is_free b.start n c x o hole.at in
    absurd (omega (arith, place.exponent, enough))
merge_loop-Merged (suc fuel) b n top x o area hole enough =
    let whole : Hole b n top x n = subst (λ k. Hole b n top x k) hole.at.1 hole in
    stopped b n top x o fuel area hole (whole-apart b n x area whole)
merge_loop-Merged (suc fuel) b n (left_half r c) x zero area hole enough =
    absurd (omega (arith, hole.large))
merge_loop-Merged (suc fuel) b n (left_half r c) x (suc j) area hole enough =
    merge-Sibling b n (left_half r c) c x (x + 2 ^ suc j) x j fuel r area hole
      (left-Sibling b n r c x j area hole)
      (λ b' area' hole'.
        merge_loop-Merged fuel b' n c x (suc (suc j)) area' hole' (omega (arith, enough)))
merge_loop-Merged (suc fuel) b n (right_half l c) x zero area hole enough =
    absurd (omega (arith, hole.large))
merge_loop-Merged (suc fuel) b n (right_half l c) x (suc j) area hole enough =
    let (p, e, hl, at) = hole.at in
    merge-Sibling b n (right_half l c) c x p p j fuel l area hole
      (right-Sibling b n l c x p j area hole.header e hl at)
      (λ b' area' hole'.
        merge_loop-Merged fuel b' n c p (suc (suc j)) area' hole' (omega (arith, enough)))
