-- ===== src/Alloc.antt =====
-- What the kernel's modules use of a memory manager: `malloc` and `free` of
-- Kernel/include/memoryManagement.h. Address 0 is NULL.
use tp2_sistemas_operativos.Base.{ℕ, ◌≡◌}

pub record Allocator : Type 1 where
  pub Heap : Type 0
  pub malloc : ℕ → Heap → ℕ × Heap
  pub free : ℕ → Heap → Heap
  pub free_null : (h : Heap) → free 0 h ≡ h
