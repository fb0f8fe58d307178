-- ===== src/Memory/Heap.antt =====
-- The heap of memoryManagement.c: the free blocks, the blocks in use, and what malloc and free do to them.
use tp2_sistemas_operativos.Base.{
  ℕ, ◌+◌, ◌-◌, ◌≤◌, ◌<◌, ◌^◌, ◌≡◌, refl, ◌∙◌, ◌⊎◌, inl, inr, [], ◌∷◌, arith, Option, none, some,
  update_at,
}
use tp2_sistemas_operativos.Memory.{
  Memory, init_memory_manager, malloc, malloc_loop, free, give_back, coalesce_loop,
  coalesce_free_blocks, minus64,
}
use tp2_sistemas_operativos.Memory.Blocks.{
  Blocks, All, All-map, All-zip, Apart, Clear, Outside, Outside-null, AreDisjoint, AreDisjoint-All,
  length-sizes, sizes, IsChain, IsChain-frame,
}
use tp2_sistemas_operativos.Memory.Take.{link}
use tp2_sistemas_operativos.Memory.FirstFit.{first_fit, Fits, malloc_loop-Fits}
use tp2_sistemas_operativos.Memory.Coalesce.{merge, Merged, coalesce_loop-Merged}
use tp2_sistemas_operativos.Memory.Refine.{Within, merge-Refines, IsFit, first_fit-IsFit}

-- A block in use, with its header, beside all the free blocks.
abbrev pub InUse : Memory → ℕ → ℕ → Blocks → ℕ → ℕ → Type 0
InUse m low high blocks a s = (m.size a ≡ s) × ((16 < s) × (Clear a s blocks × Within low high a s))

-- The free list holds `blocks`, and `used` are in use. Together they are the whole area, without a byte
-- in two of them.
pub record IsHeap (low high : ℕ) (m : Memory) (blocks used : Blocks) : Type 0 where
  pub chain : IsChain m.size m.next m.free_list blocks
  pub good : AreDisjoint blocks
  pub inside : All (Within low high) blocks
  pub in_use : All (InUse m low high blocks) used
  pub disjoint : AreDisjoint used
  pub total : sizes blocks + sizes used + 16 ≡ m.total_size
  pub small : m.total_size + 16 < 2 ^ 64
  pub below : high < 2 ^ 64
  pub above : 0 < low

-- The only block in the beginning is free.
pub init_memory_manager-IsHeap :
    (m : Memory) (start total : ℕ)
    → 0 < start
    → 16 < total
    → total + 16 < 2 ^ 64
    → start + total < 2 ^ 64
    → IsHeap start (start + total) (init_memory_manager m start total) ((start, total - 16) ∷ []) []
unfolding init_memory_manager update_at sizes
init_memory_manager-IsHeap m start total nonzero large small below = record {
  chain = (refl, ground arith, ground arith);
  good = (nonzero, omega arith, _, _);
  inside = ((omega arith, omega arith), _);
  in_use = _;
  disjoint = _;
  total = omega arith;
  small = small;
  below = below;
  above = nonzero;
}

-- The address is in none of the free blocks, since the block at it has no byte in common with them.
Clear-Outside : (a s : ℕ) (l : Blocks) → 0 < s → Clear a s l → Outside a l
Clear-Outside a s l positive clear =
    All-map (Apart a s) (λ b t. (a < b) ⊎ (b + t ≤ a)) (λ b t h. ground arith) l clear

-- The blocks in use after the free blocks were changed.
InUse-All :
    (m m' : Memory) (low high : ℕ) (blocks left used : Blocks)
    → ((x : ℕ) → Outside x blocks → m'.size x ≡ m.size x)
    → ((c u : ℕ) → 0 < u → Clear c u blocks → Clear c u left)
    → All (InUse m low high blocks) used
    → All (InUse m' low high left) used
InUse-All m m' low high blocks left used same clear =
    All-map (InUse m low high blocks) (InUse m' low high left)
      (λ a s (size_a, (positive, (clear_a, within))). (
        same a (Clear-Outside a s blocks (omega arith) clear_a) ∙ size_a,
        (positive, (clear a s (omega arith) clear_a, within)),
      ))
      used

-- A part of a free block has no byte in common with the blocks in use.
Clear-used :
    (m : Memory) (low high a s : ℕ) (blocks left used : Blocks)
    → ((c u : ℕ) → 0 < u → Clear c u blocks → Clear c u ((a, s) ∷ left))
    → All (InUse m low high blocks) used
    → Clear a s used
Clear-used m low high a s blocks left used clear =
    All-map (InUse m low high blocks) (Apart a s)
      (λ b t (size_b, (positive, (clear_b, within))).
        (let (apart, _) = clear b t (omega arith) clear_b in ground arith))
      used

link_start : (m : Memory) → link m 0 ≡ m.free_list
unfolding link
link_start m = refl

pub malloc-loop :
    (m : Memory) (n : ℕ)
    → 0 < n
    → n + 16 < 2 ^ 64
    → malloc m n ≡ malloc_loop (m.total_size + 1) m (n + 16) 0 m.free_list
unfolding malloc
malloc-loop m n positive small = ground arith

block_of : (a : ℕ) → a + 16 < 2 ^ 64 → minus64 (a + 16) 16 ≡ a
block_of a below = ground arith

pub free-block :
    (m : Memory) (a : ℕ)
    → a + 16 < 2 ^ 64
    → 0 < m.size a
    → m.size a ≤ m.total_size
    → free m (a + 16) ≡ coalesce_loop (m.total_size + 1) (give_back m a) a
unfolding free coalesce_free_blocks give_back
free-block m a below positive small = rw (block_of a below) (ground arith)

-- malloc returns NULL and changes nothing, as no block is large enough, or it returns a block of its own.
abbrev pub Allocates : ℕ → ℕ → Memory → ℕ → ℕ × Memory → Blocks → Blocks → Type 0
Allocates low high m n (p, m') blocks used =
    ((p ≡ 0) × ((m' ≡ m) × All (λ a s. s < n + 16) blocks))
    ⊎ ((a : ℕ) × ((s : ℕ) × ((left : Blocks) × ((p ≡ a + 16)
              × ((n + 16 ≤ s) × IsHeap low high m' left ((a, s) ∷ used))))))

module _ (low high : ℕ) (m : Memory) (blocks used : Blocks)
    (h : IsHeap low high m blocks used) where
  take-Allocates :
      (n : ℕ)
      → 0 < n
      → (r : ℕ × Memory) (o : Option ((ℕ × ℕ) × Blocks)) → Fits m r 0 blocks o
      → IsFit (n + 16) blocks o
      → Allocates low high m n r blocks used
  unfolding sizes
  take-Allocates n some_byte (p, m') none (null, same) low_blocks = inl (null, (same, low_blocks))
  take-Allocates n some_byte (p, m') (some ((a, s), left)) (at, t) (fits, r) =
      let (nonzero, positive, clear, good) = r.good h.good in
      let (within_a, inside) = r.within low high h.inside in
      inr (
        a,
        (
          s,
          (
            left,
            (
              at,
              (
                fits,
                record {
                  chain = rw (link_start m') at t.chain;
                  good = good;
                  inside = inside;
                  in_use = (
                    (t.header, (omega arith, (clear, within_a))),
                    InUse-All m m' low high blocks left used t.same_size
                        (λ c u pu cl. (r.clear c u pu cl).1) h.in_use,
                  );
                  disjoint = (
                    nonzero,
                    positive,
                    Clear-used m low high a s blocks left used r.clear h.in_use,
                    h.disjoint,
                  );
                  total = omega (arith, r.sum, h.total, t.same_total);
                  small = rw t.same_total h.small;
                  below = h.below;
                  above = h.above;
                },
              ),
            ),
          ),
        ),
      )

  pub malloc-Allocates :
      (n : ℕ) → 0 < n → n + 16 < 2 ^ 64 → Allocates low high m n (malloc m n) blocks used
  unfolding sizes
  malloc-Allocates n positive small =
      let shorter = length-sizes blocks h.good in
      let t = h.total in
      let e = h.small in
      rw (malloc-loop m n positive small) (
        take-Allocates n positive (malloc_loop (m.total_size + 1) m (n + 16) 0 m.free_list)
          (first_fit (n + 16) blocks)
          (rw (link_start m) at (
            malloc_loop-Fits (m.total_size + 1) m (n + 16) 0 blocks (omega arith) (omega arith)
              h.good (omega arith) (Outside-null blocks h.good) (rw (link_start m) h.chain)))
          (first_fit-IsFit (n + 16) blocks (omega arith)))

give_back-same :
    (m : Memory) (a s : ℕ) (c u : ℕ)
    → 0 < s
    → ((0 < c) × (0 < u)) × Apart a s c u
    → ((give_back m a).size c ≡ m.size c) × ((give_back m a).next c ≡ m.next c)
unfolding give_back update_at
give_back-same m a s c u positive h = ground arith

give_back-head :
    (m : Memory) (a : ℕ)
    → ((give_back m a).next a ≡ m.free_list)
      × (((give_back m a).size a ≡ m.size a)
          × (((give_back m a).free_list ≡ a) × ((give_back m a).total_size ≡ m.total_size)))
unfolding give_back update_at
give_back-head m a = (ground arith, (refl, (refl, refl)))

give_back-size : (m : Memory) (a x : ℕ) → (give_back m a).size x ≡ m.size x
unfolding give_back
give_back-size m a x = refl

InUse-freed :
    (m : Memory) (low high a s : ℕ) (blocks used : Blocks)
    → Clear a s used
    → All (InUse m low high blocks) used
    → All (InUse m low high ((a, s) ∷ blocks)) used
InUse-freed m low high a s blocks used clear in_use =
    All-map (λ b t. Apart a s b t × InUse m low high blocks b t)
      (InUse m low high ((a, s) ∷ blocks))
      (λ b t (apart, (size_b, (positive, (clear_b, within)))).
        (size_b, (positive, ((ground arith, clear_b), within))))
      used (All-zip (Apart a s) (InUse m low high blocks) used clear in_use)

-- A block in use that is freed joins the free blocks, put together with its neighbours in the list, and
-- the other blocks in use stay as they are.
pub free-IsHeap :
    (low high : ℕ) (m : Memory) (blocks used : Blocks) (a s : ℕ)
    → IsHeap low high m blocks ((a, s) ∷ used)
    → IsHeap low high (free m (a + 16)) (merge a s blocks) used
unfolding sizes
free-IsHeap low high m blocks used a s h =
    let ((size_a, (positive, (clear, within_a))), in_use) = h.in_use in
    let (nonzero, nonempty, clear_used, disjoint) = h.disjoint in
    let (next_a, (size_same, (start, total_same))) = give_back-head m a in
    let r = merge-Refines a s blocks in
    let t = h.total in
    let e = h.small in
    let shorter = length-sizes blocks h.good in
    let good : AreDisjoint ((a, s) ∷ blocks) = (nonzero, nonempty, clear, h.good) in
    let k : Merged (give_back m a) (coalesce_loop (m.total_size + 1) (give_back m a) a) a
        ((a, s) ∷ blocks) (merge a s blocks) =
      coalesce_loop-Merged (m.total_size + 1) (give_back m a) a s blocks (omega arith) good
        (omega arith)
        (
          refl,
          size_same ∙ size_a,
          IsChain-frame m.size m.next (give_back m a).size (give_back m a).next m.free_list
              ((give_back m a).next a) blocks next_a
              (All-map (λ c u. ((0 < c) × (0 < u)) × Apart a s c u)
                (λ c u. ((give_back m a).size c ≡ m.size c) × ((give_back m a).next c ≡ m.next c))
                (λ c u. give_back-same m a s c u nonempty) blocks
                (All-zip (λ c u. (0 < c) × (0 < u)) (Apart a s) blocks
                  (AreDisjoint-All blocks h.good) clear))
              h.chain,
        ) in
    rw (free-block m a (omega (arith, within_a, h.below)) (omega arith) (omega arith)) (record {
      chain = rw (k.same_start ∙ start) k.chain;
      good = r.good good;
      inside = r.within low high (within_a, h.inside);
      in_use =
          InUse-All m (coalesce_loop (m.total_size + 1) (give_back m a) a) low high
            ((a, s) ∷ blocks) (merge a s blocks) used
            (λ x out. k.same_size x out ∙ give_back-size m a x) r.clear
            (InUse-freed m low high a s blocks used clear_used in_use);
      disjoint = disjoint;
      total = omega (arith, r.sum, k.same_total, total_same);
      small = rw (k.same_total ∙ total_same) h.small;
      below = h.below;
      above = h.above;
    })
