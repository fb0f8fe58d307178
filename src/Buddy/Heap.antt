-- ===== src/Buddy/Heap.antt =====
-- The heap of Kernel/memory/buddyMemoryManagement.c as a tree of halves, and the block that malloc takes from it.
use tp2_sistemas_operativos.Base.{
  ℕ, suc, ◌+◌, ◌^◌, ◌≤◌, ◌<◌, ◌≡◌, ◌≢◌, refl, sym, ap, ◌∙◌, arith, Bool, true, false, ◌⊎◌, inl, inr,
  ◌==◌, if◌then◌else◌, List, ◌∷◌, update_at, update_at_self, update_at_other,
}
use tp2_sistemas_operativos.Buddy.{Buddy, set_list, get_order, take_block, give_back}
use tp2_sistemas_operativos.Buddy.Bits.{positive}
use tp2_sistemas_operativos.Buddy.Orders.{get_order-power}
use tp2_sistemas_operativos.Buddy.Tree.{
  Tree, leaf, Around, top, plug, Reps, At, At-Place, count, count_around, At-Agree, plug-Reps,
  count-plug, focus, Focus,
}
use tp2_sistemas_operativos.Buddy.Hole.{Area, Hole, moved_lists}
use tp2_sistemas_operativos.Buddy.Pairs.{occ}
use tp2_sistemas_operativos.Buddy.Split.{put_in}

-- The headers are those of the tree `t`, and each free list holds the free blocks of its order.
pub record IsBuddy (b : Buddy) (n : ℕ) (t : Tree) : Type 0 where
  pub area : Area b n
  pub reps : Reps b.size b.is_free t b.start n
  pub lists : (q y : ℕ) → q < 28 → occ y (b.free_lists q) ≡ count true t b.start n (suc q) y

-- The leaves of a tree are the one in focus and those around it.
pub count-Focus :
    (b : Buddy) (n : ℕ) (f g : Bool) (t : Tree) (x o q y : ℕ)
    (foc : Focus b.size b.is_free b.start n f t x o)
    → count g t b.start n q y ≡ count g (leaf f) x o q y + count_around g foc.around x o q y
count-Focus b n f g t x o q y foc =
    ap (λ w. count g w b.start n q y) (sym foc.whole_is)
    ∙ count-plug b.size b.is_free b.start n g foc.around (leaf f) x o q y foc.at

-- The first block of a list is a free block of the tree.
pub first-Focus :
    (b : Buddy) (n : ℕ) (t : Tree) (q x : ℕ) (rest : List ℕ)
    → IsBuddy b n t
    → q < 28
    → b.free_lists q ≡ x ∷ rest
    → Focus b.size b.is_free b.start n true t x (suc q)
first-Focus b n t q x rest heap lt e =
    let listed : occ x (b.free_lists q) ≡ 1 + occ x rest = ap (λ l. occ x l) e ∙ ground arith in
    let counted : 0 < count true t b.start n (suc q) x = omega (arith, heap.lists q x lt, listed) in
    focus b.size b.is_free b.start n true t top b.start n x (suc q) (refl, refl) heap.reps counted

-- It leaves its list.
pub taken-Hole :
    (b : Buddy) (n : ℕ) (t : Tree) (q x : ℕ) (rest : List ℕ)
    → IsBuddy b n t
    → b.free_lists q ≡ x ∷ rest
    → (foc : Focus b.size b.is_free b.start n true t x (suc q))
    → Hole (set_list b q rest) n foc.around x (suc q)
unfolding set_list
taken-Hole b n t q x rest heap e foc = record {
  at = foc.at;
  header = foc.here.0;
  flag = foc.here.1;
  large = foc.here.2;
  lists = λ i z small.
      moved_lists b.free_lists q i z (count_around true foc.around x (suc q) (suc i) z)
        (if x == z then 1 else 0) rest
        (heap.lists i z small
          ∙ count-Focus b n true true t x (suc q) (suc i) z foc
          ∙ leaf_count q i x z _)
        (ap (λ l. occ z l) e);
}
  where
    leaf_count :
        (q i x z cnt : ℕ)
        → count true (leaf true) x (suc q) (suc i) z + cnt
          ≡ (if q == i then (if x == z then 1 else 0) else 0) + cnt
    leaf_count q i x z cnt = ground arith

take-Area : (b : Buddy) (n : ℕ) (x : ℕ) → Area b n → Area (take_block b x) n
unfolding take_block update_at
take-Area b n x area = record {
  small = area.small;
  orders = area.orders;
  nonzero = area.nonzero;
  inside = area.inside;
  below = area.below;
  edge = kept area.edge;
}
  where
    kept :
        (b.total_size ≡ 2 ^ n) ⊎ (b.is_free (b.start + 2 ^ n) ≡ false)
        → (b.total_size ≡ 2 ^ n) ⊎ (update_at b.is_free x false (b.start + 2 ^ n) ≡ false)
    kept (inl whole) = inl whole
    kept (inr f) = inr (ground (arith, f))

pub take-IsBuddy :
    (b : Buddy) (n : ℕ) (c : Around) (x o : ℕ)
    → Area b n
    → Hole b n c x o
    → IsBuddy (take_block b x) n (plug c (leaf false))
unfolding take_block
take-IsBuddy b n c x o area hole =
    let flag' = update_at b.is_free x false in
    let at' : At b.size flag' b.start n c x o =
      At-Agree b.size b.size b.is_free flag' b.start n c x o
        (λ z out. (refl, update_at_other b.is_free x false z (not_x z out))) hole.at in
    record {
      area = take-Area b n x area;
      reps =
          plug-Reps b.size flag' b.start n c (leaf false) x o at'
            (hole.header, update_at_self b.is_free x false, hole.large);
      lists = λ q y lt. omega (
        arith,
        hole.lists q y lt,
        count-plug b.size flag' b.start n true c (leaf false) x o (suc q) y at',
      );
    }
  where
    not_x : (z : ℕ) → (z < x) ⊎ (x + 2 ^ o ≤ z) → z ≢ x
    not_x z (inl lt) e = omega (arith, lt, e)
    not_x z (inr le) e = omega (arith, le, e, positive o)

pub give_back-IsBuddy :
    (b : Buddy) (n : ℕ) (c : Around) (x j : ℕ)
    → Area b n
    → Hole b n c x (suc j)
    → IsBuddy (give_back (x, b)) n (plug c (leaf true))
unfolding give_back set_list
give_back-IsBuddy b n c x j area hole =
    let place = At-Place b.size b.is_free b.start n c x (suc j) hole.at in
    let is_j : get_order (b.size x) ≡ j =
      ap (λ s. get_order s) hole.header
      ∙ get_order-power j (omega (arith, place.fits, area.inside, area.below))
          (omega (arith, place.exponent, area.orders)) in
    rw is_j (record {
      area = record {
        small = area.small;
        orders = area.orders;
        nonzero = area.nonzero;
        inside = area.inside;
        below = area.below;
        edge = area.edge;
      };
      reps =
          plug-Reps b.size b.is_free b.start n c (leaf true) x (suc j) hole.at
            (hole.header, hole.flag, hole.large);
      lists = λ q y lt.
          put_in b.free_lists j x q y _ (hole.lists q y lt)
          ∙ sym (
              count-plug b.size b.is_free b.start n true c (leaf true) x (suc j) (suc q) y hole.at);
    })
