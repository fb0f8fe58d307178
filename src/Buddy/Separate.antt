-- ===== src/Buddy/Separate.antt =====
-- The blocks in use of Kernel/memory/buddyMemoryManagement.c do not overlap.
use tp2_sistemas_operativos.Base.{
  ℕ, suc, ◌+◌, ◌^◌, ◌≤◌, ◌<◌, ◌≡◌, ap₂, arith, Bool, true, false, ◌&&◌, inl, inr, ◌==◌, Bool-cases,
  some, List, [], ◌∷◌, ◌++◌,
}
use tp2_sistemas_operativos.Buddy.{Buddy, free}
use tp2_sistemas_operativos.Buddy.Tree.{Tree, count}
use tp2_sistemas_operativos.Buddy.Pairs.{occ}
use tp2_sistemas_operativos.Buddy.Release.{free-Releases}
use tp2_sistemas_operativos.Buddy.Apart.{
  Clear, ClearOrSame, counted_once, count-inside, count-ClearOrSame,
}
use tp2_sistemas_operativos.Buddy.Runs.{listed, Run, one_block, in_use, Run-Tracks}

abbrev pub AllClear : ℕ → ℕ → List (ℕ × ℕ) → Type 0
AllClear x o [] = Unit {0}
AllClear x o ((y, p) ∷ used) = Clear x o y p × AllClear x o used

abbrev pub AreClear : List (ℕ × ℕ) → Type 0
AreClear [] = Unit {0}
AreClear ((x, o) ∷ used) = AllClear x o used × AreClear used

abbrev pub AreInside : ℕ → ℕ → List (ℕ × ℕ) → Type 0
AreInside start total [] = Unit {0}
AreInside start total ((x, o) ∷ used) =
    (start ≤ x) × (x + 2 ^ o ≤ start + total) × AreInside start total used

module _ (t : Tree) (a n : ℕ) where
  -- A block of the tree is clear of the blocks in use that are counted beside it.
  all_clear :
      (f : Bool) (x o : ℕ) (used : List (ℕ × ℕ))
      → 0 < count f t a n o x
      → ((q y : ℕ)
          → one_block q y o x + listed q y used ≤ count true t a n q y + count false t a n q y)
      → ((q y : ℕ) → listed q y used ≤ count false t a n q y)
      → AllClear x o used
  all_clear f x o [] here most each = tt
  all_clear f x o ((y, p) ∷ used) here most each =
      let mine : one_block p y p y ≡ 1 = ground arith in
      let there : 0 < count false t a n p y = omega (arith, mine, each p y) in
      (
        clear_of (count-ClearOrSame f false t a n x o y p here there),
        all_clear f x o used here (λ q z. omega (arith, most q z)) (λ q z. omega (arith, each q z)),
      )
    where
      clear_of : ClearOrSame x o y p → Clear x o y p
      clear_of (inl clear) = clear
      clear_of (inr (e, e')) =
          let mine : one_block p y p y ≡ 1 = ground arith in
          let same_block = ap₂ (λ i z. one_block p y i z) e' e in
          absurd (omega (arith, mine, same_block, most p y, counted_once t a n p y))

  are_clear :
      (used : List (ℕ × ℕ)) → ((q y : ℕ) → listed q y used ≤ count false t a n q y) → AreClear used
  are_clear [] each = tt
  are_clear ((x, o) ∷ used) each =
      let mine : one_block o x o x ≡ 1 = ground arith in
      (
        all_clear false x o used (omega (arith, mine, each o x)) (λ q y. omega (arith, each q y))
            (λ q y. omega (arith, each q y)),
        are_clear used (λ q y. omega (arith, each q y)),
      )

  are_inside :
      (total : ℕ) (used : List (ℕ × ℕ))
      → 2 ^ n ≤ total
      → ((q y : ℕ) → listed q y used ≤ count false t a n q y)
      → AreInside a total used
  are_inside total [] fits each = tt
  are_inside total ((x, o) ∷ used) fits each =
      let mine : one_block o x o x ≡ 1 = ground arith in
      let (lo, hi) = count-inside false t a n o x (omega (arith, mine, each o x)) in
      (lo, omega (arith, hi, fits), are_inside total used fits (λ q y. omega (arith, each q y)))

block_counted :
    (t : Tree) (a n o x q y : ℕ)
    → 0 < count true t a n o x
    → one_block q y o x ≤ count true t a n q y
block_counted t a n o x q y h = elim (Bool-cases (o == q && x == y)) [
  | inl here ↦
      (let at_o : o ≡ q = ground (arith, here) in
        let at_x : x ≡ y = ground (arith, here) in
        let moved = ap₂ (λ i z. count true t a n i z) at_o at_x in
        rw here (omega (arith, moved, h)))
  | inr other ↦ rw other (omega arith)
]

-- The blocks in use lie in the memory, no two of them overlap, and no free block overlaps one of them.
pub record AreSeparate (b : Buddy) (used : List (ℕ × ℕ)) : Type 0 where
  pub inside : AreInside b.start b.total_size used
  pub clear : AreClear used
  pub free_clear : (q y : ℕ) → q < 28 → 0 < occ y (b.free_lists q) → AllClear y (suc q) used

-- After init_memory_manager on memory of zeros and any run of calls of malloc and of free of blocks in use,
-- the blocks in use lie in the memory, no two of them overlap, and no block of a free list overlaps one of
-- them.
pub Run-AreSeparate :
    (start total : ℕ) (b : Buddy) (used : List (ℕ × ℕ))
    → 0 < start
    → 64 ≤ total
    → total ≤ 2 ^ 28
    → start + total < 2 ^ 64
    → Run start total b used
    → AreSeparate b used
Run-AreSeparate start total b used nonzero enough few below run =
    let tr = Run-Tracks start total b used nonzero enough few below run in
    let n = tr.exponent in
    let each : (q y : ℕ) → listed q y used ≤ count false tr.tree b.start n q y =
      λ q y. omega (arith, tr.same q y) in
    record {
      inside = are_inside tr.tree b.start n b.total_size used tr.heap.area.inside each;
      clear = are_clear tr.tree b.start n used each;
      free_clear = λ q y lt some_y.
          let free_y : 0 < count true tr.tree b.start n (suc q) y =
            omega (arith, some_y, tr.heap.lists q y lt) in
          all_clear tr.tree b.start n true y (suc q) used free_y
            (λ i z. omega (arith, each i z, block_counted tr.tree b.start n (suc q) y i z free_y))
            each;
    }

-- A block in use can always be freed: free returns.
pub Run-free :
    (start total : ℕ) (b : Buddy) (front rest : List (ℕ × ℕ)) (x o : ℕ)
    → 0 < start
    → 64 ≤ total
    → total ≤ 2 ^ 28
    → start + total < 2 ^ 64
    → Run start total b (front ++ (x, o) ∷ rest)
    → (b' : Buddy) × (free b (x + 24) ≡ some b')
Run-free start total b front rest x o nonzero enough few below run =
    let tr = Run-Tracks start total b (front ++ (x, o) ∷ rest) nonzero enough few below run in
    let re = free-Releases b tr.exponent tr.tree x o tr.heap (in_use start b front rest x o tr) in
    (re.after, re.returns)
