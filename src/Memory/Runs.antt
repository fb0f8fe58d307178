-- ===== src/Memory/Runs.antt =====
-- Runs of the calls of memoryManagement.c: malloc, and free of the blocks in use in any order.
use tp2_sistemas_operativos.Base.{
  ℕ, ◌+◌, ◌-◌, ◌<◌, ◌^◌, ◌≡◌, refl, sym, ◌∙◌, inl, inr, [], ◌∷◌, ◌++◌, arith,
}
use tp2_sistemas_operativos.Memory.{Memory, init_memory_manager, malloc, free}
use tp2_sistemas_operativos.Memory.Blocks.{Blocks, All, Apart, AreDisjoint, sizes}
use tp2_sistemas_operativos.Memory.Coalesce.{merge}
use tp2_sistemas_operativos.Memory.Heap.{
  IsHeap, InUse, Allocates, init_memory_manager-IsHeap, malloc-Allocates, free-IsHeap,
}

-- A block may be brought to the front of a list.
All-front :
    (P : ℕ → ℕ → Type 0) (a s : ℕ) (front rest : Blocks)
    → All P (front ++ (a, s) ∷ rest)
    → All P ((a, s) ∷ front ++ rest)
All-front P a s [] rest h = h
All-front P a s ((b, t) ∷ front) rest (p, h) =
    (let (q, k) = All-front P a s front rest h in (q, (p, k)))

AreDisjoint-front :
    (a s : ℕ) (front rest : Blocks)
    → AreDisjoint (front ++ (a, s) ∷ rest)
    → AreDisjoint ((a, s) ∷ front ++ rest)
AreDisjoint-front a s [] rest h = h
AreDisjoint-front a s ((b, t) ∷ front) rest (nonzero, nonempty, clear, h) =
    let (apart, others) = All-front (Apart b t) a s front rest clear in
    let (nonzero_a, nonempty_a, clear_a, good) = AreDisjoint-front a s front rest h in
    (nonzero_a, nonempty_a, (ground arith, clear_a), (nonzero, nonempty, others, good))

sizes-front :
    (a s : ℕ) (front rest : Blocks) → sizes (front ++ (a, s) ∷ rest) ≡ s + sizes (front ++ rest)
unfolding sizes
sizes-front a s [] rest = omega arith
sizes-front a s ((b, t) ∷ front) rest = omega (arith, sizes-front a s front rest)

IsHeap-front :
    (low high : ℕ) (m : Memory) (blocks : Blocks) (a s : ℕ) (front rest : Blocks)
    → IsHeap low high m blocks (front ++ (a, s) ∷ rest)
    → IsHeap low high m blocks ((a, s) ∷ front ++ rest)
unfolding sizes
IsHeap-front low high m blocks a s front rest h = record {
  chain = h.chain;
  good = h.good;
  inside = h.inside;
  in_use = All-front (InUse m low high blocks) a s front rest h.in_use;
  disjoint = AreDisjoint-front a s front rest h.disjoint;
  total = omega (arith, h.total, sizes-front a s front rest);
  small = h.small;
  below = h.below;
  above = h.above;
}

-- A sequence of calls that starts with `init_memory_manager`: the memory after it, and the blocks that
-- were returned and not freed yet, each with its header. A request is less than 2 ^ 64 - 16 bytes: for a
-- larger one the sum with the header overflows, and malloc takes a block that is too small.
pub data Run (start total : ℕ) : Memory → Blocks → Type 0 where
  begin : (m : Memory) → Run start total (init_memory_manager m start total) []
  allocated :
      (m : Memory) (used : Blocks) (n : ℕ) (a s : ℕ)
      → Run start total m used
      → 0 < n
      → n + 16 < 2 ^ 64
      → (malloc m n).0 ≡ a + 16
      → (malloc m n).1.size a ≡ s
      → Run start total (malloc m n).1 ((a, s) ∷ used)
  refused :
      (m : Memory) (used : Blocks) (n : ℕ)
      → Run start total m used
      → 0 < n
      → n + 16 < 2 ^ 64
      → (malloc m n).0 ≡ 0
      → Run start total (malloc m n).1 used
  empty_request :
      (m : Memory) (used : Blocks) → Run start total m used → Run start total (malloc m 0).1 used
  freed :
      (m : Memory) (front rest : Blocks) (a s : ℕ)
      → Run start total m (front ++ (a, s) ∷ rest)
      → Run start total (free m (a + 16)) (front ++ rest)

allocated-IsHeap :
    (low high : ℕ) (m : Memory) (blocks used : Blocks) (n a s : ℕ) (r : ℕ × Memory)
    → Allocates low high m n r blocks used
    → r.0 ≡ a + 16
    → r.1.size a ≡ s
    → (left : Blocks) × IsHeap low high r.1 left ((a, s) ∷ used)
allocated-IsHeap low high m blocks used n a s (p, m') (inl (null, _)) at header = ground arith
allocated-IsHeap low high m blocks used n a s (p, m') (inr (b, (t, (left, (at_b, (fits, h)))))) at
      header =
    let same_block : b ≡ a = omega (arith, at_b, at) in
    let same_size : t ≡ s = sym h.in_use.0.0 ∙ (rw same_block header) in
    (left, rw (sym same_block, sym same_size) h)

refused-IsHeap :
    (low high : ℕ) (m : Memory) (blocks used : Blocks) (n : ℕ) (r : ℕ × Memory)
    → IsHeap low high m blocks used
    → Allocates low high m n r blocks used
    → r.0 ≡ 0
    → IsHeap low high r.1 blocks used
refused-IsHeap low high m blocks used n (p, m') h (inl (_, (same, _))) null = rw same h
refused-IsHeap low high m blocks used n (p, m') h (inr (b, (t, (left, (at_b, _))))) null =
    ground arith

malloc-nothing : (m : Memory) → (malloc m 0).1 ≡ m
unfolding malloc
malloc-nothing m = refl

-- After init_memory_manager on an area of more than 16 bytes that does not reach the end of the address
-- space, and after any run of requests of less than 2 ^ 64 - 16 bytes and of free of blocks in use, some
-- list of free blocks makes the memory a heap: the free blocks and the blocks in use overlap nowhere and
-- make up the area but for its first header.
pub Run-IsHeap :
    (start total : ℕ)
    → 0 < start
    → 16 < total
    → total + 16 < 2 ^ 64
    → start + total < 2 ^ 64
    → (m : Memory) (used : Blocks) → Run start total m used
    → (blocks : Blocks) × IsHeap start (start + total) m blocks used
Run-IsHeap start total nonzero large small below _ _ (begin m) =
    ((start, total - 16) ∷ [], init_memory_manager-IsHeap m start total nonzero large small below)
Run-IsHeap start total nonzero large small below _ _
      (allocated m used n a s run positive fits at header) =
    let (blocks, h) = Run-IsHeap start total nonzero large small below m used run in
    allocated-IsHeap start (start + total) m blocks used n a s (malloc m n)
      (malloc-Allocates start (start + total) m blocks used h n positive fits) at header
Run-IsHeap start total nonzero large small below _ _ (refused m used n run positive fits null) =
    let (blocks, h) = Run-IsHeap start total nonzero large small below m used run in
    (
      blocks,
      refused-IsHeap start (start + total) m blocks used n (malloc m n) h
          (malloc-Allocates start (start + total) m blocks used h n positive fits) null,
    )
Run-IsHeap start total nonzero large small below _ _ (empty_request m used run) =
    rw (malloc-nothing m) (Run-IsHeap start total nonzero large small below m used run)
Run-IsHeap start total nonzero large small below _ _ (freed m front rest a s run) =
    let (blocks, h) =
      Run-IsHeap start total nonzero large small below m (front ++ (a, s) ∷ rest) run in
    (
      merge a s blocks,
      free-IsHeap start (start + total) m blocks (front ++ rest) a s
          (IsHeap-front start (start + total) m blocks a s front rest h),
    )
