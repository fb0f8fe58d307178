-- ===== src/Sched/Select.antt =====
-- `get_next_ready` of Kernel/processes_scheduler/scheduler.c: which process it finds.
use tp2_sistemas_operativos.Base.{
  ℕ, zero, suc, ◌+◌, ◌-◌, ◌%◌, ◌<◌, ◌≡◌, ◌⊎◌, inl, inr, true, false, refl, ℤ, pos, arith, dec_lt,
  Bool-cases, ◌==◌, max_processes,
}
use tp2_sistemas_operativos.Sched.{
  Sched, Pcb, can_run, next_ready_loop, first_of_pid, get_next_ready, pid_kernel,
}

-- The slot that the loop looks at in its round `d`, from 0.
abbrev pub round_slot : ℕ → ℕ → ℕ
round_slot first d = (first + d + 1) % max_processes

-- What a search that began after `first` may return: the first process that can run, going round the
-- table, or the kernel if there is none.
abbrev pub Finds : (ℤ → Pcb) → ℕ → ℤ → Type 0
Finds table first pid =
    ((pid ≡ pid_kernel) × ((n : ℕ) → n < max_processes → can_run (table (pos n)) ≡ false))
    ⊎ ((d : ℕ) × (d < max_processes)
        × (pid ≡ pos (round_slot first d))
        × (can_run (table (pos (round_slot first d))) ≡ true)
        × ((e : ℕ) → e < d → can_run (table (pos (round_slot first e))) ≡ false))

module _ (table : ℤ → Pcb) (first : ℕ) (h : first < max_processes) where
  Tried : ℕ → Type 0
  Tried j = (e : ℕ) → e < j → can_run (table (pos (round_slot first e))) ≡ false

  slot_of_round : (n : ℕ) → n < max_processes → round_slot first ((n + 14 - first) % 15) ≡ n
  slot_of_round n b = omega arith

  none_left : Tried max_processes → (n : ℕ) → n < max_processes → can_run (table (pos n)) ≡ false
  unfolding Tried
  none_left tried n b = rw (slot_of_round n b) at (tried ((n + 14 - first) % 15) (omega arith))

  Tried-next :
      (j : ℕ) → Tried j → can_run (table (pos (round_slot first j))) ≡ false → Tried (j + 1)
  unfolding Tried
  Tried-next j tried no_run e b = elim (dec_lt e j) [
    | yes lt ↦ tried e lt
    | no ge ↦ let same : j ≡ e = omega arith in rw same at no_run
  ]

  next_ready_loop-Finds :
      (fuel j next : ℕ)
      → fuel + j ≡ max_processes
      → next ≡ (first + j) % max_processes
      → Tried j
      → Finds table first (next_ready_loop fuel table first next)
  unfolding next_ready_loop
  next_ready_loop-Finds zero j next e p tried =
      let full : j ≡ max_processes = omega arith in inl (refl, none_left (rw full at tried))
  next_ready_loop-Finds (suc fuel) j next e p tried =
      let at_slot : (next + 1) % max_processes ≡ round_slot first j = omega arith in
      elim (Bool-cases (can_run (table (pos (round_slot first j))))) [
        | inl runs ↦ rw (at_slot, runs) (inr (j, omega arith, refl, runs, unfold Tried in tried))
        | inr stays ↦ elim (Bool-cases (round_slot first j == first)) [
          | inl last ↦
              let full : j + 1 ≡ max_processes = ground arith in
              rw (at_slot, stays, last)
                (inl (refl, none_left (rw full at (Tried-next j tried stays))))
          | inr more ↦
              rw (at_slot, stays, more)
                (next_ready_loop-Finds fuel (j + 1) (round_slot first j) (omega arith) (omega arith)
                  (Tried-next j tried stays))
        ]
      ]

-- `get_next_ready` goes round the table from the slot after the current process, or from slot 1 when
-- the kernel runs, and returns the first process that has a stack and is ready. It returns the kernel
-- exactly when none of the 15 slots holds such a process.
pub get_next_ready-Finds :
    (s : Sched)
    → first_of_pid s.current_pid < max_processes
    → Finds s.process_table (first_of_pid s.current_pid) (get_next_ready s)
unfolding get_next_ready
get_next_ready-Finds s h =
    next_ready_loop-Finds s.process_table (first_of_pid s.current_pid) h max_processes 0
      (first_of_pid s.current_pid) refl (omega arith) (unfold Tried in λ e b. absurd (omega arith))
