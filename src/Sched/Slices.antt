-- ===== src/Sched/Slices.antt =====
-- Time slices and the priority boost of scheduler.c: how long a process runs, and who comes next.
use tp2_sistemas_operativos.Base.{
  ℕ, ◌+◌, ◌-◌, ◌≡◌, ◌≢◌, true, false, refl, ℤ, arith, List, [], ◌∷◌, length, eq_ℤ, eq_ℤ_self, ltb_ℤ,
  is_slot, update, slot_nonneg, slot-ne-kernel,
}
use tp2_sistemas_operativos.Sched.Select.{Finds, get_next_ready-Finds}
use tp2_sistemas_operativos.Sched.Valid.{slot-lt}
use tp2_sistemas_operativos.Sched.{
  Sched, running, blocked, can_run, first_of_pid, save_current, set_rsp, set_status, switch_process,
  choose, rotate, take_next, resume_current, get_state, half_priority, get_quantum,
}
use tp2_sistemas_operativos.Sched.Control.{unblock, set_next_if}

-- Timer ticks, with the stack pointer that each of them saves.
pub run_ticks : Sched → List ℕ → Sched
run_ticks s [] = s
run_ticks s (rsp ∷ rest) = run_ticks (switch_process s rsp).1 rest

abbrev pub AllSet : List ℕ → Type 0
AllSet [] = Unit {0}
AllSet (x ∷ xs) = (x ≢ 0) × AllSet xs

-- A process of the table runs, and no other process is to be taken before its turn.
pub record IsRunning (s : Sched) : Type 0 where
  pub slot : is_slot s.current_pid ≡ true
  pub runs : (s.process_table s.current_pid).process_status ≡ running
  pub no_next : can_run (s.process_table s.next_pid) ≡ false
  pub next_other : eq_ℤ s.current_pid s.next_pid ≡ false

module _ (s : Sched) (rsp : ℕ) (v : IsRunning s) (set : rsp ≢ 0) where
  saved_current : can_run ((save_current s rsp).process_table s.current_pid) ≡ true
  unfolding save_current set_rsp set_status update can_run
  saved_current = ground (
    arith,
    v.runs,
    eq_ℤ_self s.current_pid,
    slot_nonneg s.current_pid v.slot,
    slot-ne-kernel s.current_pid v.slot,
  )

  saved_next : can_run ((save_current s rsp).process_table s.next_pid) ≡ false
  unfolding save_current set_rsp set_status update
  saved_next = ground (arith, v.no_next, v.next_other)

  saved_fields :
      ((save_current s rsp).current_pid ≡ s.current_pid)
      × ((save_current s rsp).next_pid ≡ s.next_pid)
      × ((save_current s rsp).current_quantum ≡ s.current_quantum)
  unfolding save_current set_rsp set_status
  saved_fields = ground arith

  tick_choice :
      s.current_quantum ≢ 0
      → switch_process s rsp
        ≡ resume_current (record (save_current s rsp) { current_quantum = s.current_quantum - 1 })
  unfolding switch_process choose
  tick_choice q = ground (arith, saved_fields, saved_next, saved_current)

  tick_keeps :
      s.current_quantum ≢ 0
      → let t = (switch_process s rsp).1 in
        IsRunning t × (t.current_pid ≡ s.current_pid) × (t.current_quantum + 1 ≡ s.current_quantum)
  unfolding resume_current set_status update
  tick_keeps q =
      rw (tick_choice q)
        (ground (arith, saved_fields, saved_next, v.slot, v.next_other, eq_ℤ_self s.current_pid))

  tick_ends :
      s.current_quantum ≡ 0
      → Finds
          (save_current s rsp).process_table
          (first_of_pid s.current_pid)
          (switch_process s rsp).1.current_pid
  unfolding switch_process choose rotate resume_current set_status
  tick_ends q = ground (
    arith,
    saved_fields,
    saved_next,
    get_next_ready-Finds (save_current s rsp),
    slot-lt s.current_pid v.slot,
  )

-- A process that runs with quantum `q` keeps the processor for `q` timer ticks, whatever else is ready,
-- as long as no other process is to be taken before its turn. The next tick gives the processor to the
-- first process after it in the table that can run, itself the last to be tried.
pub run_ticks_slice :
    (rsps : List ℕ) (s : Sched) (last : ℕ)
    → IsRunning s
    → AllSet rsps
    → last ≢ 0
    → length rsps ≡ s.current_quantum
    → let t = run_ticks s rsps in
      (t.current_pid ≡ s.current_pid)
      × ((t.process_table t.current_pid).process_status ≡ running)
      × Finds
          (save_current t last).process_table
          (first_of_pid s.current_pid)
          (switch_process t last).1.current_pid
unfolding run_ticks
run_ticks_slice [] s last v set nz q = (refl, v.runs, tick_ends s last v nz (omega arith))
run_ticks_slice (rsp ∷ rest) s last v set nz q =
    let (w, same, less) = tick_keeps s rsp v set.0 (omega arith) in
    rw same at (run_ticks_slice rest (switch_process s rsp).1 last w set.1 nz (omega arith))

-- A blocked process of priority at least 5 that is unblocked runs at the next timer tick.
pub unblock_boost :
    (s : Sched) (p : ℤ) (rsp : ℕ)
    → is_slot p ≡ true
    → (s.process_table p).process_status ≡ blocked
    → (s.process_table p).current_rsp ≢ 0
    → ltb_ℤ (s.process_table p).priority half_priority ≡ false
    → eq_ℤ s.current_pid p ≡ false
    → let t = (switch_process (unblock s p).1 rsp).1 in
      (t.current_pid ≡ p)
      × ((t.process_table p).process_status ≡ running)
      × (t.current_quantum ≡ get_quantum s p)
unfolding unblock get_state switch_process save_current choose take_next resume_current set_next_if
    set_status set_rsp update can_run get_quantum
unblock_boost s p rsp h b r hi ne = ground (arith, eq_ℤ_self p)
