-- ===== src/Memory/Tests.antt =====
-- Runs of the memory manager on an area of 1024 bytes at address 4096.
use tp2_sistemas_operativos.Base.{◌+◌, ◌-◌, ◌≡◌, refl, [], ◌∷◌, arith, update_at}
use tp2_sistemas_operativos.Memory.{
  Memory, init_memory_manager, malloc, malloc_loop, take_block, split, unlink, free, give_back,
  get_memory_info, coalesce_free_blocks, coalesce_loop,
}
use tp2_sistemas_operativos.Memory.Blocks.{Blocks, sizes}
use tp2_sistemas_operativos.Memory.Coalesce.{merge}
use tp2_sistemas_operativos.Memory.Heap.{IsHeap, free-IsHeap}
use tp2_sistemas_operativos.Memory.Runs.{Run, begin, allocated, freed, Run-IsHeap}
use tp2_sistemas_operativos.Memory.Accounts.{malloc-free_info}

abbrev blank : Memory
blank = record {
  size = λ a. 0;
  next = λ a. 0;
  free_list = 0;
  total_size = 0;
  free_size = 0;
  allocated_size = 0;
}

abbrev started : Memory
started = init_memory_manager blank 4096 1024

abbrev one_block : Memory
one_block = (malloc started 100).1

abbrev two_blocks : Memory
two_blocks = (malloc one_block 50).1

-- Two blocks, and the first of them is freed.
two_blocks-Run : Run 4096 1024 (free two_blocks (4096 + 16)) ((4212, 66) ∷ [])
unfolding init_memory_manager malloc malloc_loop take_block split unlink update_at
two_blocks-Run = freed two_blocks ((4212, 66) ∷ []) [] 4096 116 (
    allocated one_block ((4096, 116) ∷ []) 50 4212 66
      (allocated started [] 100 4096 116 (begin blank) (omega arith) (omega arith) refl refl)
      (omega arith) (omega arith) refl refl)

Run-IsHeap_example :
    (blocks : Blocks) × IsHeap 4096
      (4096 + 1024)
      (free two_blocks (4096 + 16))
      blocks
      ((4212, 66) ∷ [])
Run-IsHeap_example =
    Run-IsHeap 4096 1024 (omega arith) (omega arith) (omega arith) (omega arith)
      (free two_blocks (4096 + 16)) ((4212, 66) ∷ []) two_blocks-Run

-- The whole area is in use.
abbrev full : Memory
full = record blank { size = λ a. 1008; total_size = 1024 }

full-IsHeap : IsHeap 4096 (4096 + 1024) full [] ((4096, 1008) ∷ [])
unfolding sizes
full-IsHeap = record {
  chain = refl;
  good = _;
  inside = _;
  in_use = ((refl, (omega arith, (_, (omega arith, omega arith)))), _);
  disjoint = (omega arith, omega arith, _, _);
  total = refl;
  small = omega arith;
  below = omega arith;
  above = omega arith;
}

free-IsHeap_example : IsHeap 4096 (4096 + 1024) (free full (4096 + 16)) (merge 4096 1008 []) []
free-IsHeap_example = free-IsHeap 4096 (4096 + 1024) full [] [] 4096 1008 full-IsHeap

freed_first : (free two_blocks (4096 + 16)).free_list ≡ 4096
unfolding init_memory_manager malloc malloc_loop take_block split unlink update_at free give_back
    coalesce_free_blocks coalesce_loop
freed_first = refl

malloc-free_info_example :
    (get_memory_info started ≡ (1024, (1024 - 16, 0)))
    × (get_memory_info (free (malloc started 100).1 (malloc started 100).0)
        ≡ (1024, (1024 - 32, 0)))
malloc-free_info_example =
    malloc-free_info blank 4096 1024 100 (omega arith) (omega arith) (omega arith) (omega arith)
      (omega arith)
