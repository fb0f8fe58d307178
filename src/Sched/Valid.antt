-- ===== src/Sched/Valid.antt =====
-- The invariant of the process table, and `switch_process` of scheduler.c.
use tp2_sistemas_operativos.Base.{
  ℕ, ◌<◌, ◌≡◌, ◌≢◌, ◌⊎◌, inl, inr, true, false, refl, ℤ, pos, negsuc, arith, Bool-cases, ltb→lt,
  ◌==◌, max_processes, is_slot, eq_ℤ, eq_ℤ_iff, eq_ℤ_self, not, ◌||◌, ltb_ℤ, update, slot_nonneg,
  slot-ne-kernel,
}
use tp2_sistemas_operativos.Sched.Select.{get_next_ready-Finds}
use tp2_sistemas_operativos.Sched.{
  Sched, running, can_run, is_running, first_of_pid, pid_kernel, no_proc, save_current, set_rsp,
  set_status, switch_process, choose, rotate, take_next, resume_current,
}

-- No process but the current one is marked as running, nothing beside the table looks like a process
-- that can run, and the current process is a slot of the table or a negative code.
pub record IsValid (s : Sched) : Type 0 where
  pub single :
      (p : ℤ)
      → is_slot p ≡ true
      → is_running (s.process_table p).process_status ≡ true
      → p ≡ s.current_pid
  pub outside : (p : ℤ) → is_slot p ≡ false → can_run (s.process_table p) ≡ false
  pub current_in : first_of_pid s.current_pid < max_processes

-- Between the two halves of `switch_process` nothing runs.
record IsPaused (s : Sched) : Type 0 where
  idle : (p : ℤ) → is_slot p ≡ true → is_running (s.process_table p).process_status ≡ false
  outside : (p : ℤ) → is_slot p ≡ false → can_run (s.process_table p) ≡ false
  current_in : first_of_pid s.current_pid < max_processes

pub slot-lt : (p : ℤ) → is_slot p ≡ true → first_of_pid p < max_processes
unfolding first_of_pid is_slot
slot-lt (pos n) h = ground arith
slot-lt (negsuc n) h = omega arith

pub slot_of_nonneg :
    (p : ℤ) → first_of_pid p < max_processes → ltb_ℤ p (pos 0) ≡ false → is_slot p ≡ true
unfolding first_of_pid is_slot ltb_ℤ
slot_of_nonneg (pos n) h k = ground arith
slot_of_nonneg (negsuc n) h k = ground arith

save_current-IsPaused : (s : Sched) (rsp : ℕ) → IsValid s → IsPaused (save_current s rsp)
unfolding save_current set_rsp set_status update
save_current-IsPaused s rsp v = record {
  idle = λ p h. ground (
    arith,
    v.single p h,
    eq_ℤ_iff s.current_pid p,
    eq_ℤ_iff p s.current_pid,
    slot_nonneg p h,
    slot-ne-kernel p h,
  );
  outside = λ p h.
      ground
        (arith, v.outside p h, eq_ℤ_iff s.current_pid p, slot_of_nonneg s.current_pid v.current_in);
  current_in = ground (arith, v.current_in);
}

-- What a switch returns and leaves, `s` being the state after the leaving process was saved.
pub record Resumed (s : Sched) (rsp : ℕ) (s' : Sched) : Type 0 where
  pub slot : is_slot s'.current_pid ≡ true
  pub could_run : can_run (s.process_table s'.current_pid) ≡ true
  pub runs : (s'.process_table s'.current_pid).process_status ≡ running
  pub stack : rsp ≡ (s'.process_table s'.current_pid).current_rsp
  pub stack_set : rsp ≢ 0

pub record Idles (s : Sched) (rsp : ℕ) (s' : Sched) : Type 0 where
  pub kernel : s'.current_pid ≡ pid_kernel
  pub main : rsp ≡ s.main_rsp
  pub nobody : (p : ℤ) → is_slot p ≡ true → can_run (s.process_table p) ≡ false

abbrev pub Switched : Sched → ℕ × Sched → Type 0
Switched s (rsp, s') = IsValid s' × (Resumed s rsp s' ⊎ Idles s rsp s')

can_run-slot :
    (s : Sched) (p : ℤ) → IsPaused s → can_run (s.process_table p) ≡ true → is_slot p ≡ true
can_run-slot s p v h = ground (arith, v.outside p)

abbrev chosen : Sched → ℤ → ℤ → ℕ → Sched
chosen s p n q = record s { current_pid = p; next_pid = n; current_quantum = q }

module _ (s : Sched) (p n : ℤ) (q : ℕ) (v : IsPaused s)
    (h : can_run (s.process_table p) ≡ true) where
  resume_current-IsValid : IsValid (resume_current (chosen s p n q)).1
  unfolding resume_current set_status update
  resume_current-IsValid = record {
    single = λ k hk. ground (arith, v.idle k hk, eq_ℤ_iff p k);
    outside = λ k hk. ground (arith, v.outside k hk, eq_ℤ_iff p k, can_run-slot s p v h);
    current_in = ground (arith, slot-lt p (can_run-slot s p v h));
  }

  resume_current-Resumed :
      Resumed s (resume_current (chosen s p n q)).0 (resume_current (chosen s p n q)).1
  unfolding resume_current set_status update can_run
  resume_current-Resumed = record {
    slot = can_run-slot s p v h;
    could_run = h;
    runs = ground (arith, eq_ℤ_self p);
    stack = refl;
    stack_set = ground (arith, eq_ℤ_self p);
  }

  resume_current-Switched : Switched s (resume_current (chosen s p n q))
  resume_current-Switched = (resume_current-IsValid, inl resume_current-Resumed)

rotate-Switched : (s : Sched) → IsPaused s → Switched s (rotate s)
unfolding rotate eq_ℤ is_slot first_of_pid
rotate-Switched s v = elim (get_next_ready-Finds s v.current_in) [
  | inl (none_ready, nobody) ↦ rw (none_ready, rotate) (kernel_runs (nobody))
  | inr (d, below, found, runs, _) ↦
      rw (found, rotate) (resume_current-Switched s _ s.next_pid _ v runs)
]
  where
    nobody_at :
        ((n : ℕ) → n < max_processes → can_run (s.process_table (pos n)) ≡ false)
        → (p : ℤ) → is_slot p ≡ true
        → can_run (s.process_table p) ≡ false
    nobody_at h (pos n) k = h n (ltb→lt n max_processes k)
    nobody_at h (negsuc n) k = cc

    kernel_runs :
        ((n : ℕ) → n < max_processes → can_run (s.process_table (pos n)) ≡ false)
        → Switched s (s.main_rsp, record s { current_pid = pid_kernel; current_quantum = 0 })
    kernel_runs h = (
      record {
        single = λ p k r. ground (arith, v.idle p k);
        outside = v.outside;
        current_in = omega arith;
      },
      inr (record { kernel = refl; main = refl; nobody = nobody_at h }),
    )

choose-Switched : (s : Sched) → IsPaused s → Switched s (choose s)
unfolding choose take_next
choose-Switched s v = elim (Bool-cases (can_run (s.process_table s.next_pid))) [
  | inl next ↦ rw next (resume_current-Switched s s.next_pid no_proc _ v next)
  | inr none_next ↦
      elim (Bool-cases (not (can_run (s.process_table s.current_pid)) || s.current_quantum == 0)) [
        | inl turn ↦ rw (none_next, turn) (rotate-Switched s v)
        | inr keep ↦
            rw (none_next, keep)
              (resume_current-Switched s s.current_pid s.next_pid _ v (ground arith))
      ]
]

-- A timer tick, or a process that gives the processor up, keeps the invariant. Afterwards either a
-- process of the table runs that was ready and had a stack, with its own stack pointer restored, or the
-- kernel's stack pointer is restored, and then no process of the table was able to run.
pub switch_process-Switched :
    (s : Sched) (rsp : ℕ) → IsValid s → Switched (save_current s rsp) (switch_process s rsp)
unfolding switch_process
switch_process-Switched s rsp v =
    choose-Switched (save_current s rsp) (save_current-IsPaused s rsp v)
