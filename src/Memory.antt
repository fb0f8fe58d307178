-- ===== src/Memory.antt =====
-- The memory manager of Kernel/memory/memoryManagement.c. The header `struct block` that stands at an
-- address is kept as two functions of the address, `size` and `next`. Address 0 is NULL, and a
-- `size_t` is a word of 64 bits. What the users of a block write into it is not part of the state.
pub mod Blocks
pub mod Take
pub mod FirstFit
pub mod Coalesce
pub mod Refine
pub mod Heap
pub mod Runs
pub mod Accounts
pub mod Manager
mod Tests
use tp2_sistemas_operativos.Base.{
  ℕ, zero, suc, ◌+◌, ◌-◌, ◌%◌, ◌^◌, Bool, true, false, ◌||◌, ltb, leb, ◌==◌, if◌then◌else◌,
  update_at,
}

-- `memInfo` is given by its three fields.
pub record Memory : Type 0 where
  pub size : ℕ → ℕ
  pub next : ℕ → ℕ
  pub free_list : ℕ
  pub total_size : ℕ
  pub free_size : ℕ
  pub allocated_size : ℕ

abbrev pub block_size : ℕ
block_size = 16

-- `+` and `-` on words of 64 bits.
abbrev pub plus64 : ℕ → ℕ → ℕ
plus64 a b = (a + b) % 2 ^ 64

abbrev pub minus64 : ℕ → ℕ → ℕ
minus64 a b = (a + 2 ^ 64 - b) % 2 ^ 64

unfoldable pub init_memory_manager : Memory → ℕ → ℕ → Memory
init_memory_manager m start total = record {
  size = update_at m.size start (minus64 total block_size);
  next = update_at m.next start 0;
  free_list = start;
  total_size = total;
  free_size = minus64 total block_size;
  allocated_size = 0;
}

-- The rest of a block that is larger than needed becomes a block of its own, behind it in the list.
unfoldable pub split : Memory → ℕ → ℕ → Memory
split m bytes current =
    let new_block = current + bytes in
    record m {
      size = update_at (update_at m.size new_block (minus64 (m.size current) bytes)) current bytes;
      next = update_at (update_at m.next new_block (m.next current)) current new_block;
      free_size = minus64 m.free_size bytes;
      allocated_size = plus64 m.allocated_size (minus64 bytes block_size);
    }

unfoldable pub take_whole : Memory → ℕ → ℕ → Memory
take_whole m bytes current = record m {
  free_size = minus64 m.free_size (m.size current);
  allocated_size = plus64 m.allocated_size (minus64 bytes block_size);
}

unfoldable pub unlink : Memory → ℕ → ℕ → Memory
unlink m previous current =
    if previous == 0
    then record m { free_list = m.next current }
    else record m { next = update_at m.next previous (m.next current) }

-- The body of the loop, once a block is large enough.
unfoldable pub take_block : Memory → ℕ → ℕ → ℕ → ℕ × Memory
take_block m bytes previous current =
    let taken =
      if ltb (plus64 bytes block_size) (m.size current)
      then split m bytes current
      else take_whole m bytes current in
    (current + block_size, unlink taken previous current)

unfoldable pub malloc_loop : ℕ → Memory → ℕ → ℕ → ℕ → ℕ × Memory
malloc_loop zero m bytes previous current = (0, m)
malloc_loop (suc fuel) m bytes previous current = elim (current == 0) [
  | true ↦ (0, m)
  | false ↦ elim (leb bytes (m.size current)) [
    | true ↦ take_block m bytes previous current
    | false ↦ malloc_loop fuel m bytes current (m.next current)
  ]
]

-- A list of disjoint blocks that are not empty is shorter than the heap is large.
unfoldable pub malloc : Memory → ℕ → ℕ × Memory
malloc m bytes =
    if bytes == 0
    then (0, m)
    else malloc_loop (m.total_size + 1) m (plus64 bytes block_size) 0 m.free_list

unfoldable pub join_next : Memory → ℕ → Memory
join_next m current = record m {
  size = update_at m.size current (plus64 (m.size current) (m.size (m.next current)));
  next = update_at m.next current (m.next (m.next current));
}

unfoldable pub coalesce_loop : ℕ → Memory → ℕ → Memory
coalesce_loop zero m current = m
coalesce_loop (suc fuel) m current = elim (current == 0 || m.next current == 0) [
  | true ↦ m
  | false ↦ elim (current + m.size current == m.next current) [
    | true ↦ coalesce_loop fuel (join_next m current) current
    | false ↦ coalesce_loop fuel m (m.next current)
  ]
]

unfoldable pub coalesce_free_blocks : Memory → Memory
coalesce_free_blocks m = coalesce_loop (m.total_size + 1) m m.free_list

-- The block becomes the first of the list.
unfoldable pub give_back : Memory → ℕ → Memory
give_back m block = record m {
  free_size = plus64 m.free_size (minus64 (m.size block) block_size);
  allocated_size = minus64 m.allocated_size (minus64 (m.size block) block_size);
  next = update_at m.next block m.free_list;
  free_list = block;
}

unfoldable pub free : Memory → ℕ → Memory
free m ptr =
    let block = minus64 ptr block_size in
    if ptr == 0
    then m
    else if m.size block == 0 || ltb m.total_size (m.size block)
    then m
    else coalesce_free_blocks (give_back m block)

-- The total size, the free size and the allocated size.
unfoldable pub get_memory_info : Memory → ℕ × (ℕ × ℕ)
get_memory_info m = (m.total_size, (m.free_size, m.allocated_size))
