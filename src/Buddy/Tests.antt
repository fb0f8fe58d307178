-- ===== src/Buddy/Tests.antt =====
-- A buddy heap of 256 bytes at the address 4096.
use tp2_sistemas_operativos.Base.{◌+◌, ◌≡◌, refl, arith, true, false, some, [], ◌∷◌, update_at, inl}
use tp2_sistemas_operativos.Buddy.{
  Buddy, smear, next_power_of_2, order_loop, get_order, get_buddy, size_loop, init_memory_manager,
  set_list, required_size, find_loop, split, split_loop, take_block, malloc, unlink, stays_apart,
  join, merge_loop, release, give_back, free, is_power_of_2,
}
use tp2_sistemas_operativos.Buddy.Orders.{IsLeastPower, next_power_of_2-IsLeastPower}
use tp2_sistemas_operativos.Buddy.Tree.{leaf}
use tp2_sistemas_operativos.Buddy.Heap.{IsBuddy}
use tp2_sistemas_operativos.Buddy.Request.{Serves, malloc-Serves}
use tp2_sistemas_operativos.Buddy.Release.{Releases, free-Releases}
use tp2_sistemas_operativos.Buddy.Runs.{Run, begin, allocated}
use tp2_sistemas_operativos.Buddy.Separate.{AreSeparate, Run-AreSeparate}
use tp2_sistemas_operativos.Buddy.Start.{init_memory_manager-IsBuddy_at}

abbrev zeros : Buddy
zeros = record {
  size = λ a. 0;
  is_free = λ a. false;
  free_lists = λ i. [];
  start = 0;
  total_size = 0;
  free_size = 0;
  allocated_size = 0;
}

abbrev fresh : Buddy
fresh = init_memory_manager zeros 4096 256

abbrev one_block : Buddy
one_block = (malloc fresh 40).1

abbrev two_blocks : Buddy
two_blocks = (malloc one_block 100).1

malloc_runs :
    ((malloc fresh 40).0 ≡ 4096 + 24)
    × ((malloc one_block 100).0 ≡ 4096 + 128 + 24)
    × ((malloc two_blocks 100).0 ≡ 0)
    × (two_blocks.free_lists 5 ≡ (4096 + 64) ∷ [])
unfolding init_memory_manager size_loop get_order order_loop malloc required_size next_power_of_2
    smear find_loop set_list split_loop split take_block update_at
malloc_runs = (refl, refl, refl, refl)

next_power_runs :
    (next_power_of_2 65 ≡ 128) × (is_power_of_2 128 ≡ true) × (is_power_of_2 96 ≡ false)
unfolding next_power_of_2 smear is_power_of_2
next_power_runs = (refl, refl, refl)

next_power_of_2-IsLeastPower_example : IsLeastPower 1000 (next_power_of_2 1000)
next_power_of_2-IsLeastPower_example = next_power_of_2-IsLeastPower 1000 (omega arith) (omega arith)

fresh-IsBuddy : IsBuddy fresh 8 (leaf true)
fresh-IsBuddy =
    init_memory_manager-IsBuddy_at zeros 4096 256 8 (omega arith) (omega arith) (omega arith)
      (omega arith) (λ y lt. refl) (omega arith) (omega arith)

malloc-Serves_example : Serves fresh 8 (leaf true) 40 (malloc fresh 40)
malloc-Serves_example = malloc-Serves fresh 8 (leaf true) 40 fresh-IsBuddy (omega arith)

-- One block of 64 bytes, and all of it in use.
abbrev full : Buddy
full = record zeros { size = λ a. 64; start = 4096; total_size = 64 }

full-IsBuddy : IsBuddy full 6 (leaf false)
full-IsBuddy = record {
  area = record {
    small = omega arith;
    orders = omega arith;
    nonzero = omega arith;
    inside = omega arith;
    below = omega arith;
    edge = inl refl;
  };
  reps = (refl, refl, omega arith);
  lists = λ q y lt. refl;
}

free-Releases_example : Releases full 6 (leaf false) 4096 6 (free full (4096 + 24))
free-Releases_example = free-Releases full 6 (leaf false) 4096 6 full-IsBuddy (omega arith)

two_blocks-Run : Run 4096 256 two_blocks ((4096 + 128, 7) ∷ (4096, 6) ∷ [])
unfolding init_memory_manager size_loop get_order order_loop malloc required_size next_power_of_2
    smear find_loop set_list split_loop split take_block update_at
two_blocks-Run =
    allocated one_block ((4096, 6) ∷ []) 100 (4096 + 128) 7
      (allocated fresh [] 40 4096 6 (begin zeros (λ y lt. refl)) (omega arith) refl refl)
      (omega arith) refl refl

Run-AreSeparate_example : AreSeparate two_blocks ((4096 + 128, 7) ∷ (4096, 6) ∷ [])
Run-AreSeparate_example =
    Run-AreSeparate 4096 256 two_blocks ((4096 + 128, 7) ∷ (4096, 6) ∷ []) (omega arith)
      (omega arith) (omega arith) (omega arith) two_blocks-Run

-- Freed blocks become one block again.
joined_again : (b : Buddy) × (free two_blocks (4096 + 24) ≡ some b) × (b.free_lists 6 ≡ 4096 ∷ [])
unfolding init_memory_manager size_loop get_order order_loop malloc required_size next_power_of_2
    smear find_loop set_list split_loop split take_block update_at free merge_loop release get_buddy
    unlink stays_apart join give_back
joined_again = (_, refl, refl)
