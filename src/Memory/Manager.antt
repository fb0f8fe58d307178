-- ===== src/Memory/Manager.antt =====
-- Kernel/memory/memoryManagement.c as the memory manager that the other parts of the kernel use.
use tp2_sistemas_operativos.Base.{◌≡◌, refl}
use tp2_sistemas_operativos.Alloc.{Allocator}
use tp2_sistemas_operativos.Memory.{Memory, malloc, free}

pub free-null : (m : Memory) → free m 0 ≡ m
unfolding free
free-null m = refl

abbrev pub free_list_manager : Allocator
free_list_manager = record {
  Heap = Memory;
  malloc = λ n m. malloc m n;
  free = λ at m. free m at;
  free_null = free-null;
}
