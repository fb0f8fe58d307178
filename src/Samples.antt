-- ===== src/Samples.antt =====
-- Concrete data for the tests: a memory manager that never reuses memory, and an idle scheduler.
use tp2_sistemas_operativos.Base.{ℕ, ◌+◌, refl, pos, negsuc, []}
use tp2_sistemas_operativos.Alloc.{Allocator}
use tp2_sistemas_operativos.Sched.{Sched, Pcb, ready}
use tp2_sistemas_operativos.Sem.{Semaphore}

abbrev pub bump : Allocator
bump = record { Heap = ℕ; malloc = λ n h. (h, h + n); free = λ at h. h; free_null = λ h. refl }

abbrev pub idle_entry : Pcb
idle_entry = record { priority = pos 0; process_status = ready; current_rsp = 0 }

-- Process 1 runs.
abbrev pub idle_sched : Sched
idle_sched = record {
  process_table = λ p. idle_entry;
  current_quantum = 3;
  current_pid = pos 1;
  next_pid = negsuc 1;
  main_rsp = 0;
}

abbrev pub unused_sem : Semaphore
unused_sem = record {
  name = [];
  name_at = 0;
  sem_value = 0;
  lock = 0;
  interested = [];
  waiting = [];
}
