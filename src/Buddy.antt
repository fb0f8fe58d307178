-- ===== src/Buddy.antt =====
-- The buddy memory manager of Kernel/memory/buddyMemoryManagement.c, which is compiled in place of the other
-- one if BUDDY is defined. The header that stands at an address is kept as two functions of the address, `size`
-- and `is_free`; its link `next` serves the free lists alone, and each of these is the list of its blocks in
-- the order of the links. Address 0 is NULL, and a `size_t` is a word of 64 bits.
pub mod Bits
pub mod Orders
pub mod Tree
pub mod Pairs
pub mod Hole
pub mod Split
pub mod Merge
pub mod Heap
pub mod Request
pub mod Release
pub mod Start
pub mod Apart
pub mod Runs
pub mod Separate
mod Tests
use Prim.Native.Nat.{bit_and, bit_or}
use tp2_sistemas_operativos.Base.{
  ℕ, zero, suc, ◌+◌, ◌-◌, ◌*◌, ◌/◌, ◌%◌, ◌^◌, Bool, true, false, ◌||◌, not, Option, none, some,
  List, [], ◌∷◌, ltb, leb, ◌==◌, if◌then◌else◌, update_at,
}
use tp2_sistemas_operativos.Memory.{plus64, minus64}

abbrev pub min_block_size : ℕ
min_block_size = 64

abbrev pub max_order : ℕ
max_order = 28

-- `sizeof(block_t)`: the size, the flag with its padding, and the link.
abbrev pub block_header_size : ℕ
block_header_size = 24

-- `block_t`, `buddy_t` and `memInfo`. `free_lists` from 28 on is the memory behind the array.
pub record Buddy : Type 0 where
  pub size : ℕ → ℕ
  pub is_free : ℕ → Bool
  pub free_lists : ℕ → List ℕ
  pub start : ℕ
  pub total_size : ℕ
  pub free_size : ℕ
  pub allocated_size : ℕ

unfoldable pub is_power_of_2 : ℕ → Bool
is_power_of_2 x = bit_and x (minus64 x 1) == 0

-- `size |= size >> n`
unfoldable pub smear : ℕ → ℕ → ℕ
smear n size = bit_or size (size / 2 ^ n)

unfoldable pub next_power_of_2 : ℕ → ℕ
next_power_of_2 size =
    plus64 (smear 32 (smear 16 (smear 8 (smear 4 (smear 2 (smear 1 (minus64 size 1))))))) 1

-- `while (size >>= 1)`. A word has 64 bits, so 64 rounds are enough.
unfoldable pub order_loop : ℕ → ℕ → ℕ → ℕ
order_loop zero size order = order
order_loop (suc fuel) size order =
    let rest = order_loop fuel (size / 2) (order + 1) in if size / 2 == 0 then order else rest

unfoldable pub get_order : ℕ → ℕ
get_order size = order_loop 64 (minus64 size 1) 0

unfoldable pub get_buddy : Buddy → ℕ → ℕ
get_buddy b block =
    let offset = minus64 block b.start in
    if bit_and offset (minus64 (b.size block * 2 % 2 ^ 64) 1) == 0
    then plus64 block (b.size block)
    else minus64 block (b.size block)

-- The loop of `init_memory_manager`: each round doubles the size, so 64 rounds are enough.
unfoldable pub size_loop : ℕ → ℕ → ℕ → ℕ
size_loop zero block_size total = block_size
size_loop (suc fuel) block_size total =
    let rest = size_loop fuel (block_size * 2 % 2 ^ 64) total in
    if leb (block_size * 2 % 2 ^ 64) total then rest else block_size

unfoldable pub init_memory_manager : Buddy → ℕ → ℕ → Buddy
init_memory_manager b start total =
    let block_size = size_loop 64 min_block_size total in
    record {
      size = update_at b.size start block_size;
      is_free = update_at b.is_free start true;
      free_lists =
          update_at (λ i. if ltb i max_order then [] else b.free_lists i) (get_order block_size)
            (start ∷ []);
      start = start;
      total_size = total;
      free_size = total;
      allocated_size = 0;
    }

unfoldable pub set_list : Buddy → ℕ → List ℕ → Buddy
set_list b order list = record b { free_lists = update_at b.free_lists order list }

-- The size of the block that a request needs.
unfoldable pub required_size : ℕ → ℕ
required_size size =
    let required = plus64 size block_header_size in
    next_power_of_2 (if ltb required min_block_size then min_block_size else required)

-- A block that was found: its address, its order, and the state without it.
abbrev pub Found : Type 0
Found = Option (ℕ × (ℕ × Buddy))

-- The first block of a list, or what a later list gives.
abbrev pub take_first : Buddy → ℕ → List ℕ → Found → Found
take_first b order [] later = later
take_first b order (block ∷ rest) later = some (block, (order, set_list b order rest))

-- The search for a list that is not empty, `left` orders to come.
unfoldable pub find_loop : ℕ → Buddy → ℕ → Found
find_loop zero b order = none
find_loop (suc left) b order =
    let later = find_loop left b (order + 1) in take_first b order (b.free_lists order) later

-- One round of the loop that splits: the upper half becomes a free block of its own.
unfoldable pub split : Buddy → ℕ → ℕ → Buddy
split b block order =
    let half = b.size block / 2 in
    let upper = plus64 block half in
    record b {
      size = update_at (update_at b.size upper half) block half;
      is_free = update_at b.is_free upper true;
      free_lists = update_at b.free_lists order (upper ∷ b.free_lists order);
    }

-- `while (current_order > order)`, `left` rounds to come.
unfoldable pub split_loop : ℕ → Buddy → ℕ → ℕ → Buddy
split_loop zero b block current_order = b
split_loop (suc left) b block current_order =
    split_loop left (split b block (current_order - 1)) block (current_order - 1)

unfoldable pub take_block : Buddy → ℕ → Buddy
take_block b block = record b {
  is_free = update_at b.is_free block false;
  free_size = minus64 b.free_size (b.size block);
  allocated_size = plus64 b.allocated_size (minus64 (b.size block) block_header_size);
}

-- The end of `malloc`, behind the search.
abbrev pub give : Buddy → ℕ → Found → ℕ × Buddy
give b order none = (0, b)
give b order (some (block, (current_order, found))) = (
  plus64 block block_header_size,
  take_block (split_loop (current_order - order) found block current_order) block,
)

unfoldable pub malloc : Buddy → ℕ → ℕ × Buddy
malloc b size =
    let order = get_order (required_size size) in
    give b order (find_loop (max_order - order) b order)

abbrev pub behind : ℕ → Option (List ℕ) → Option (List ℕ)
behind first none = none
behind first (some list) = some (first ∷ list)

-- The walk to a block in its list, which is then taken out. `none` is a walk over the end of the list.
unfoldable pub unlink : ℕ → List ℕ → Option (List ℕ)
unlink block [] = none
unlink block (first ∷ rest) =
    let later = behind first (unlink block rest) in if first == block then some rest else later

-- The test that ends the loop of `free`.
unfoldable pub stays_apart : Buddy → ℕ → ℕ → Bool
stays_apart b block buddy =
    (leb (plus64 b.start b.total_size) buddy || ltb buddy b.start)
    || (not (b.is_free buddy) || not (b.size buddy == b.size block))

-- The two halves become one block, at the lower one of their addresses.
unfoldable pub join : Buddy → ℕ → Buddy
join b low = record b { size = update_at b.size low (b.size low * 2 % 2 ^ 64) }

-- The end of the loop, or its next round without the buddy in its list.
abbrev pub go_on {ℓ} :
    {A : Type ℓ} → Bool → Option (List ℕ) → Option A → (List ℕ → Option A) → Option A
go_on true list end_of_loop next = end_of_loop
go_on false none end_of_loop next = none
go_on false (some list) end_of_loop next = next list

-- The loop of `free`: each round doubles the block, so 64 rounds are enough. The result is the block at the
-- end of the loop with the state there.
unfoldable pub merge_loop : ℕ → Buddy → ℕ → Option (ℕ × Buddy)
merge_loop zero b block = none
merge_loop (suc fuel) b block =
    let buddy = get_buddy b block in
    let order = get_order (b.size block) in
    let low = if ltb buddy block then buddy else block in
    go_on (stays_apart b block buddy) (unlink buddy (b.free_lists order)) (some (block, b))
      (λ list. merge_loop fuel (join (set_list b order list) low) low)

unfoldable pub release : Buddy → ℕ → Buddy
release b block = record b {
  is_free = update_at b.is_free block true;
  free_size = plus64 b.free_size (b.size block);
  allocated_size = minus64 b.allocated_size (minus64 (b.size block) block_header_size);
}

-- The block becomes the first one of its list.
unfoldable pub give_back : ℕ × Buddy → Buddy
give_back (block, b) =
    let order = get_order (b.size block) in set_list b order (block ∷ b.free_lists order)

abbrev pub finish : Option (ℕ × Buddy) → Option Buddy
finish none = none
finish (some merged) = some (give_back merged)

unfoldable pub free : Buddy → ℕ → Option Buddy
free b ptr =
    let block = minus64 ptr block_header_size in
    if ptr == 0
    then some b
    else if ltb block b.start || leb (plus64 b.start b.total_size) block
    then some b
    else finish (merge_loop 64 (release b block) block)

-- The total size, the free size and the allocated size.
unfoldable pub get_memory_info : Buddy → ℕ × (ℕ × ℕ)
get_memory_info b = (b.total_size, (b.free_size, b.allocated_size))
