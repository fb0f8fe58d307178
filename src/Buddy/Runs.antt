-- ===== src/Buddy/Runs.antt =====
-- Runs of the calls of Kernel/memory/buddyMemoryManagement.c: malloc, and free of the blocks in use in any
-- order.
use mathlib.Core.Path.{subst}
use tp2_sistemas_operativos.Base.{
  ℕ, suc, ◌+◌, ◌^◌, ◌≤◌, ◌<◌, ◌≡◌, refl, sym, ap, ap₂, ◌∙◌, arith, true, false, ◌&&◌, inl, inr,
  ◌==◌, if◌then◌else◌, Option, none, some, List, [], ◌∷◌, ◌++◌,
}
use tp2_sistemas_operativos.Buddy.{Buddy, init_memory_manager, malloc, free}
use tp2_sistemas_operativos.Buddy.Bits.{exponent-le}
use tp2_sistemas_operativos.Buddy.Tree.{Tree, leaf, top, count, focus}
use tp2_sistemas_operativos.Buddy.Heap.{IsBuddy}
use tp2_sistemas_operativos.Buddy.Request.{Serves, Gives, malloc-Serves}
use tp2_sistemas_operativos.Buddy.Release.{Releases, free-Releases}
use tp2_sistemas_operativos.Buddy.Start.{init_memory_manager-IsBuddy}

-- How often a block stands in a list of blocks and their exponents.
abbrev pub listed : ℕ → ℕ → List (ℕ × ℕ) → ℕ
listed q y [] = 0
listed q y ((x, o) ∷ used) = (if o == q && x == y then 1 else 0) + listed q y used

listed-append :
    (q y : ℕ) (front rest : List (ℕ × ℕ))
    → listed q y (front ++ rest) ≡ listed q y front + listed q y rest
listed-append q y [] rest = omega arith
listed-append q y ((x, o) ∷ front) rest = omega (arith, listed-append q y front rest)

-- A sequence of calls that starts with `init_memory_manager` on memory of zeros: the memory after it, and
-- the blocks that were returned and not freed yet, each at its header and with the exponent of its size.
pub data Run (start total : ℕ) : Buddy → List (ℕ × ℕ) → Type 0 where
  begin :
      (b : Buddy)
      → ((y : ℕ) → start < y → b.is_free y ≡ false)
      → Run start total (init_memory_manager b start total) []
  allocated :
      (b : Buddy) (used : List (ℕ × ℕ)) (n x o : ℕ)
      → Run start total b used
      → n + 24 ≤ 2 ^ 63
      → (malloc b n).0 ≡ x + 24
      → (malloc b n).1.size x ≡ 2 ^ o
      → Run start total (malloc b n).1 ((x, o) ∷ used)
  refused :
      (b : Buddy) (used : List (ℕ × ℕ)) (n : ℕ)
      → Run start total b used
      → n + 24 ≤ 2 ^ 63
      → (malloc b n).0 ≡ 0
      → Run start total (malloc b n).1 used
  freed :
      (b b' : Buddy) (front rest : List (ℕ × ℕ)) (x o : ℕ)
      → Run start total b (front ++ (x, o) ∷ rest)
      → free b (x + 24) ≡ some b'
      → Run start total b' (front ++ rest)

-- The blocks in use are those of the tree.
pub record Tracks (start : ℕ) (b : Buddy) (used : List (ℕ × ℕ)) : Type 0 where
  pub exponent : ℕ
  pub tree : Tree
  pub heap : IsBuddy b exponent tree
  pub at_start : b.start ≡ start
  pub same : (q y : ℕ) → listed q y used ≡ count false tree b.start exponent q y

begin-Tracks :
    (b : Buddy) (start total : ℕ)
    → ((n : ℕ) × IsBuddy (init_memory_manager b start total) n (leaf true)
        × (2 ^ n ≤ total)
        × (total < 2 ^ suc n))
    → Tracks start (init_memory_manager b start total) []
begin-Tracks b start total (n, heap, fits, most) = record {
  exponent = n;
  tree = leaf true;
  heap = heap;
  at_start = unfold init_memory_manager in refl;
  same = λ q y. refl;
}

-- The size in its header tells the exponent of a block in use.
used-exponent :
    (b : Buddy) (n : ℕ) (t : Tree) (x o e : ℕ)
    → IsBuddy b n t
    → 0 < count false t b.start n e x
    → b.size x ≡ 2 ^ o
    → e ≡ o
used-exponent b n t x o e heap used size =
    let foc =
      focus b.size b.is_free b.start n false t top b.start n x e (refl, refl) heap.reps used in
    let powers : 2 ^ e ≡ 2 ^ o = sym foc.here.0 ∙ size in
    omega (arith, exponent-le e o (omega (arith, powers)), exponent-le o e (omega (arith, powers)))

abbrev pub one_block : ℕ → ℕ → ℕ → ℕ → ℕ
one_block q y o x = if o == q && x == y then 1 else 0

given-Tracks :
    (start : ℕ) (b : Buddy) (used : List (ℕ × ℕ)) (n x o : ℕ) (r : ℕ × Buddy)
    → (tr : Tracks start b used) → Gives b tr.exponent tr.tree n r
    → r.0 ≡ x + 24
    → r.1.size x ≡ 2 ^ o
    → Tracks start r.1 ((x, o) ∷ used)
given-Tracks start b used n x o r tr g address size =
    let at_x : g.block ≡ x = omega (arith, g.address, address) in
    let moved = λ (q y : ℕ). ap (λ s. count false g.tree s tr.exponent q y) g.same_start in
    let now : 0 < count false g.tree r.1.start tr.exponent g.exponent x =
      ground (arith, moved g.exponent x, g.used g.exponent x, at_x) in
    let at_o : g.exponent ≡ o =
      used-exponent r.1 tr.exponent g.tree x o g.exponent g.heap now size in
    record {
      exponent = tr.exponent;
      tree = g.tree;
      heap = g.heap;
      at_start = g.same_start ∙ tr.at_start;
      same = λ q y.
          omega
            (arith, moved q y, g.used q y, ap₂ (λ i z. one_block q y i z) at_o at_x, tr.same q y);
    }

allocated-Tracks :
    (start : ℕ) (b : Buddy) (used : List (ℕ × ℕ)) (n x o : ℕ) (r : ℕ × Buddy)
    → (tr : Tracks start b used) → Serves b tr.exponent tr.tree n r
    → r.0 ≡ x + 24
    → r.1.size x ≡ 2 ^ o
    → Tracks start r.1 ((x, o) ∷ used)
allocated-Tracks start b used n x o r tr (inl g) address size =
    given-Tracks start b used n x o r tr g address size
allocated-Tracks start b used n x o r tr (inr refusal) address size =
    absurd (omega (arith, ap (λ (w : ℕ × Buddy). w.0) refusal.unchanged, address))

refused-Tracks :
    (start : ℕ) (b : Buddy) (used : List (ℕ × ℕ)) (n : ℕ) (r : ℕ × Buddy)
    → (tr : Tracks start b used) → Serves b tr.exponent tr.tree n r
    → r.0 ≡ 0
    → Tracks start r.1 used
refused-Tracks start b used n r tr (inl g) e = absurd (omega (arith, g.address, e))
refused-Tracks start b used n r tr (inr refusal) e =
    subst (λ (w : ℕ × Buddy). Tracks start w.1 used) (sym refusal.unchanged) tr

listed-front :
    (q y : ℕ) (front rest : List (ℕ × ℕ)) (x o : ℕ)
    → listed q y (front ++ (x, o) ∷ rest) ≡ one_block q y o x + listed q y (front ++ rest)
listed-front q y front rest x o =
    omega (arith, listed-append q y front ((x, o) ∷ rest), listed-append q y front rest)

pub in_use :
    (start : ℕ) (b : Buddy) (front rest : List (ℕ × ℕ)) (x o : ℕ)
    → (tr : Tracks start b (front ++ (x, o) ∷ rest))
    → 0 < count false tr.tree b.start tr.exponent o x
in_use start b front rest x o tr =
    let mine : one_block o x o x ≡ 1 = ground arith in
    omega (arith, mine, tr.same o x, listed-front o x front rest x o)

freed-Tracks :
    (start : ℕ) (b b' : Buddy) (front rest : List (ℕ × ℕ)) (x o : ℕ)
    → (tr : Tracks start b (front ++ (x, o) ∷ rest))
    → Releases b tr.exponent tr.tree x o (free b (x + 24))
    → free b (x + 24) ≡ some b'
    → Tracks start b' (front ++ rest)
freed-Tracks start b b' front rest x o tr re e =
    let same_after : re.after ≡ b' = some-injective (sym re.returns ∙ e) in
    subst (λ w. Tracks start w (front ++ rest)) same_after
      (record {
        exponent = tr.exponent;
        tree = re.tree;
        heap = re.heap;
        at_start = re.same_start ∙ tr.at_start;
        same = λ q y. omega (
          arith,
          ap (λ s. count false re.tree s tr.exponent q y) re.same_start,
          re.used q y,
          tr.same q y,
          listed-front q y front rest x o,
        );
      })
  where
    from_some : Option Buddy → Buddy
    from_some none = b
    from_some (some w) = w

    some-injective : {u v : Buddy} → some u ≡ some v → u ≡ v
    some-injective h = ap (λ (w : Option Buddy). from_some w) h

pub Run-Tracks :
    (start total : ℕ) (b : Buddy) (used : List (ℕ × ℕ))
    → 0 < start
    → 64 ≤ total
    → total ≤ 2 ^ 28
    → start + total < 2 ^ 64
    → Run start total b used
    → Tracks start b used
Run-Tracks start total b used nonzero enough few below (begin b0 blank) =
    begin-Tracks b0 start total
      (init_memory_manager-IsBuddy b0 start total nonzero enough few below blank)
Run-Tracks start total b used nonzero enough few below
      (allocated b0 used0 n x o run bound address size) =
    let tr = Run-Tracks start total b0 used0 nonzero enough few below run in
    allocated-Tracks start b0 used0 n x o (malloc b0 n) tr
      (malloc-Serves b0 tr.exponent tr.tree n tr.heap bound) address size
Run-Tracks start total b used nonzero enough few below (refused b0 used0 n run bound e) =
    let tr = Run-Tracks start total b0 used0 nonzero enough few below run in
    refused-Tracks start b0 used0 n (malloc b0 n) tr
      (malloc-Serves b0 tr.exponent tr.tree n tr.heap bound) e
Run-Tracks start total b used nonzero enough few below (freed b0 b' front rest x o run e) =
    let tr = Run-Tracks start total b0 (front ++ (x, o) ∷ rest) nonzero enough few below run in
    freed-Tracks start b0 b' front rest x o tr
      (free-Releases b0 tr.exponent tr.tree x o tr.heap (in_use start b0 front rest x o tr)) e
