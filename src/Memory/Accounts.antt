-- ===== src/Memory/Accounts.antt =====
-- The counters of memInfo in memoryManagement.c.
use tp2_sistemas_operativos.Base.{
  ℕ, zero, suc, ◌+◌, ◌-◌, ◌^◌, ◌<◌, ◌≡◌, refl, ◌∙◌, ap, arith, true, ◌||◌, ◌==◌, ltb, update_at,
  Bool-cases, inl, inr,
}
use tp2_sistemas_operativos.Memory.{
  Memory, init_memory_manager, malloc, malloc_loop, take_block, split, unlink, free, give_back,
  coalesce_loop, join_next, get_memory_info, plus64,
}
use tp2_sistemas_operativos.Memory.FirstFit.{malloc_loop-take}
use tp2_sistemas_operativos.Memory.Heap.{malloc-loop, free-block}

coalesce_loop-info :
    (fuel : ℕ) (m : Memory) (a : ℕ) → get_memory_info (coalesce_loop fuel m a) ≡ get_memory_info m
unfolding coalesce_loop join_next get_memory_info
coalesce_loop-info zero m a = refl
coalesce_loop-info (suc fuel) m a = elim (Bool-cases (a == 0 || m.next a == 0)) [
  | inl last ↦ rw (last, coalesce_loop) refl
  | inr more ↦ elim (Bool-cases (a + m.size a == m.next a)) [
    | inl adjacent ↦ rw (more, adjacent, coalesce_loop) (coalesce_loop-info fuel (join_next m a) a)
    | inr gap ↦ rw (more, gap, coalesce_loop) (coalesce_loop-info fuel m (m.next a))
  ]
]

module _ (m : Memory) (start total n : ℕ) (nonzero : 0 < start) (positive : 0 < n)
    (room : n + 48 < total) (small : total + 16 < 2 ^ 64) (below : start + total < 2 ^ 64) where
  is_large : ltb (plus64 (n + 16) 16) ((init_memory_manager m start total).size start) ≡ true
  unfolding init_memory_manager update_at
  is_large = ground arith

  take_first :
      take_block (init_memory_manager m start total) (n + 16) 0 start
      ≡ (start + 16, unlink (split (init_memory_manager m start total) (n + 16) start) 0 start)
  unfolding take_block
  take_first = rw is_large refl

  first_block :
      malloc (init_memory_manager m start total) n
      ≡ (start + 16, unlink (split (init_memory_manager m start total) (n + 16) start) 0 start)
  unfolding init_memory_manager take_block update_at
  first_block =
      malloc-loop (init_memory_manager m start total) n positive (omega arith)
      ∙ ap (λ f. malloc_loop f (init_memory_manager m start total) (n + 16) 0 start) (omega arith)
      ∙ malloc_loop-take total (init_memory_manager m start total) (n + 16) 0 start nonzero
          (ground arith)
      ∙ take_first

  counted :
      get_memory_info (
        give_back (unlink (split (init_memory_manager m start total) (n + 16) start) 0 start) start)
      ≡ (total, (total - 32, 0))
  unfolding init_memory_manager update_at split unlink give_back get_memory_info
  counted = ground arith

  header :
      ((unlink (split (init_memory_manager m start total) (n + 16) start) 0 start).size start
        ≡ n + 16)
      × ((unlink (split (init_memory_manager m start total) (n + 16) start) 0 start).total_size
          ≡ total)
  unfolding init_memory_manager update_at split unlink
  header = (ground arith, refl)

  -- On a fresh area, a request that leaves more than a header of the block over, and is freed again, brings
  -- the free size to 16 bytes less than before, while the allocated size is 0 again.
  pub malloc-free_info :
      (get_memory_info (init_memory_manager m start total) ≡ (total, (total - 16, 0)))
      × (get_memory_info (
            free
              (malloc (init_memory_manager m start total) n).1
              (malloc (init_memory_manager m start total) n).0)
          ≡ (total, (total - 32, 0)))
  unfolding init_memory_manager get_memory_info
  malloc-free_info =
      let taken = unlink (split (init_memory_manager m start total) (n + 16) start) 0 start in
      let (size_start, total_same) = header in
      (
        ground arith,
        ap (λ r. get_memory_info (free r.1 r.0)) first_block
            ∙ ap get_memory_info (
                free-block taken start (omega arith) (omega (arith, size_start))
                  (omega (arith, size_start, total_same)))
            ∙ coalesce_loop-info (taken.total_size + 1) (give_back taken start) start
            ∙ counted,
      )
