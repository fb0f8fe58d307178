-- ===== src/Buddy/Release.antt =====
-- free of Kernel/memory/buddyMemoryManagement.c on a heap that is a tree of halves.
use mathlib.Core.Path.{subst}
use tp2_sistemas_operativos.Base.{
  ℕ, zero, suc, ◌+◌, ◌^◌, ◌≤◌, ◌<◌, ◌≡◌, ◌≢◌, refl, sym, ap, ◌∙◌, arith, true, false, ◌&&◌, ◌⊎◌,
  inl, inr, ltb, leb, ◌==◌, if◌then◌else◌, Option, some, update_at, update_at_self, update_at_other,
}
use tp2_sistemas_operativos.Memory.{plus64, minus64}
use tp2_sistemas_operativos.Buddy.{Buddy, set_list, release, give_back, finish, merge_loop, free}
use tp2_sistemas_operativos.Buddy.Bits.{positive, power_mono}
use tp2_sistemas_operativos.Buddy.Tree.{
  Tree, leaf, Around, top, plug, At-Place, Place, count, count_around, At-Agree, count-plug, focus,
  Focus,
}
use tp2_sistemas_operativos.Buddy.Hole.{Area, Hole}
use tp2_sistemas_operativos.Buddy.Merge.{merge_loop-Merged}
use tp2_sistemas_operativos.Buddy.Heap.{IsBuddy, count-Focus, give_back-IsBuddy}

-- What free makes of a block in use: it returns, and the tree has this block less in use.
pub record Releases (b : Buddy) (n : ℕ) (t : Tree) (x o : ℕ) (r : Option Buddy) : Type 0 where
  pub after : Buddy
  pub tree : Tree
  pub returns : r ≡ some after
  pub heap : IsBuddy after n tree
  pub same_start : after.start ≡ b.start
  pub used :
      (q y : ℕ)
      → count false t b.start n q y
        ≡ (if o == q && x == y then 1 else 0) + count false tree b.start n q y

release-Area : (b : Buddy) (n x o : ℕ) → Area b n → Place b.start n x o → Area (release b x) n
unfolding release
release-Area b n x o area place = record {
  small = area.small;
  orders = area.orders;
  nonzero = area.nonzero;
  inside = area.inside;
  below = area.below;
  edge = kept area.edge;
}
  where
    kept :
        (b.total_size ≡ 2 ^ n) ⊎ (b.is_free (b.start + 2 ^ n) ≡ false)
        → (b.total_size ≡ 2 ^ n) ⊎ (update_at b.is_free x true (b.start + 2 ^ n) ≡ false)
    kept (inl whole) = inl whole
    kept (inr f) =
        inr (update_at_other b.is_free x true _ (λ e. omega (arith, e, place.fits, positive o)) ∙ f)

release-Hole :
    (b : Buddy) (n : ℕ) (t : Tree) (x o : ℕ)
    → IsBuddy b n t
    → (foc : Focus b.size b.is_free b.start n false t x o) → Hole (release b x) n foc.around x o
unfolding release
release-Hole b n t x o heap foc = record {
  at =
      At-Agree b.size b.size b.is_free (update_at b.is_free x true) b.start n foc.around x o
        (λ z out. (refl, update_at_other b.is_free x true z (not_x z out))) foc.at;
  header = foc.here.0;
  flag = update_at_self b.is_free x true;
  large = foc.here.2;
  lists =
      λ q y lt. omega (arith, heap.lists q y lt, count-Focus b n false true t x o (suc q) y foc);
}
  where
    not_x : (z : ℕ) → (z < x) ⊎ (x + 2 ^ o ≤ z) → z ≢ x
    not_x z (inl lt) e = omega (arith, lt, e)
    not_x z (inr le) e = omega (arith, le, e, positive o)

-- The end of free, behind its loop.
finished :
    (b b' : Buddy) (n : ℕ) (t : Tree) (x o exponent block : ℕ) (c : Around)
    → Area b' n
    → Hole b' n c block exponent
    → b'.start ≡ b.start
    → ((q y : ℕ)
        → count false t b.start n q y
          ≡ (if o == q && x == y then 1 else 0) + count_around false c block exponent q y)
    → Releases b n t x o (finish (some (block, b')))
unfolding give_back set_list
finished b b' n t x o zero block c area hole e used = absurd (omega (arith, hole.large))
finished b b' n t x o (suc j) block c area hole e used = record {
  after = give_back (block, b');
  tree = plug c (leaf true);
  returns = refl;
  heap = give_back-IsBuddy b' n c block j area hole;
  same_start = e;
  used = λ q y.
      let new =
        count-plug b'.size b'.is_free b'.start n false c (leaf true) block (suc j) q y hole.at in
      let moved = ap (λ w. count false (plug c (leaf true)) w n q y) e in
      omega (arith, used q y, new, moved);
}

released :
    (b : Buddy) (n : ℕ) (t : Tree) (x o : ℕ)
    → IsBuddy b n t
    → Focus b.size b.is_free b.start n false t x o
    → Releases b n t x o (finish (merge_loop 64 (release b x) x))
released b n t x o heap foc =
    let place = At-Place b.size b.is_free b.start n foc.around x o foc.at in
    let m =
      merge_loop-Merged 64 (release b x) n foc.around x o (release-Area b n x o heap.area place)
        (release-Hole b n t x o heap foc) (omega (arith, heap.area.orders)) in
    subst (λ r. Releases b n t x o (finish r)) (sym m.returns)
      (finished b m.after n t x o m.exponent m.block m.around m.area m.hole
        (m.same_start ∙ start_kept)
        (λ q y. omega (arith, count-Focus b n false false t x o q y foc, m.same_used q y)))
  where
    start_kept : (release b x).start ≡ b.start
    start_kept = unfold release in refl

-- A block in use, given by the address behind its header, is freed: free returns within its 64 rounds, never
-- walks over the end of a list, and the blocks are again those of a tree, in which this block is no longer
-- in use and every other one that was still is.
pub free-Releases :
    (b : Buddy) (n : ℕ) (t : Tree) (x o : ℕ)
    → IsBuddy b n t
    → 0 < count false t b.start n o x
    → Releases b n t x o (free b (x + 24))
free-Releases b n t x o heap used =
    free_at (focus b.size b.is_free b.start n false t top b.start n x o (refl, refl) heap.reps used)
  where
    free_at : Focus b.size b.is_free b.start n false t x o → Releases b n t x o (free b (x + 24))
    free_at foc =
        let place = At-Place b.size b.is_free b.start n foc.around x o foc.at in
        let large = power_mono 6 o foc.here.2 in
        let below = heap.area.below in
        let inside = heap.area.inside in
        let back : minus64 (x + 24) 24 ≡ x = omega (arith, place.fits, large, below, inside) in
        let set : (x + 24 == 0) ≡ false = ground arith in
        let lo : ltb x b.start ≡ false = ground (arith, place.address) in
        let hi : leb (plus64 b.start b.total_size) x ≡ false =
          let whole : plus64 b.start b.total_size ≡ b.start + b.total_size = omega (arith, below) in
          let under : x < b.start + b.total_size = omega (arith, place.fits, large, inside) in
          ground (arith, whole, under) in
        unfold free in rw (back, set, lo, hi) (released b n t x o heap foc)
