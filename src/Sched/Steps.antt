-- ===== src/Sched/Steps.antt =====
-- The operations of scheduler.c as steps, and what holds after any sequence of them.
use tp2_sistemas_operativos.Base.{
  ℕ, ◌≡◌, inl, inr, true, false, refl, ℤ, pos, arith, Option-cases, Bool-cases, is_slot, eq_ℤ,
  eq_ℤ_iff, eq_ℤ_self, if_both, Bool, not, ◌||◌, if◌then◌else◌, update, some, ◌<◌, ltb_ℤ,
  max_processes,
}
use tp2_sistemas_operativos.Sched.Valid.{IsValid, slot_of_nonneg, switch_process-Switched}
use tp2_sistemas_operativos.Sched.{
  Sched, Pcb, Status, ready, blocked, killed, can_run, is_running, first_of_pid, set_rsp,
  set_status, put_priority, switch_process, get_state, process_was_created, yield, no_proc,
  default_priority, is_killed, is_ready, priority_in_range, init_scheduler, create_process_stack,
}
use tp2_sistemas_operativos.Sched.Control.{
  process_was_killed, block, unblock, nice, set_priority, set_next_if, get_current_process,
  discard_current,
}

abbrev ValidAfter : ℤ × Sched → Type 0
ValidAfter r = IsValid r.1

-- One entry of the table is replaced by one that is not running, or as running as it was.
put-IsValid :
    (s : Sched) (p : ℤ) (pcb : Pcb)
    → IsValid s
    → is_slot p ≡ true
    → (is_running pcb.process_status ≡ true → p ≡ s.current_pid)
    → IsValid (record s { process_table = update s.process_table p pcb })
unfolding update
put-IsValid s p pcb v h keep = record {
  single = λ k hk. ground (arith, v.single k hk, eq_ℤ_iff p k, keep);
  outside = λ k hk. ground (arith, v.outside k hk, eq_ℤ_iff p k);
  current_in = v.current_in;
}

get_state-slot : (s : Sched) (p : ℤ) (pcb : Pcb) → get_state s p ≡ some pcb → is_slot p ≡ true
unfolding get_state
get_state-slot s p pcb e = ground arith

get_state-entry :
    (s : Sched) (p : ℤ) (pcb : Pcb) → get_state s p ≡ some pcb → pcb ≡ s.process_table p
unfolding get_state
get_state-entry s p pcb e = ground arith

set_status-IsValid :
    (s : Sched) (p : ℤ) (st : Status)
    → IsValid s
    → is_slot p ≡ true
    → is_running st ≡ false
    → IsValid (set_status s p st)
unfolding set_status
set_status-IsValid s p st v h n = put-IsValid s p _ v h (λ e. ground arith)

set_rsp-IsValid :
    (s : Sched) (p : ℤ) (rsp : ℕ) → IsValid s → is_slot p ≡ true → IsValid (set_rsp s p rsp)
unfolding set_rsp
set_rsp-IsValid s p rsp v h = put-IsValid s p _ v h (v.single p h)

put_priority-IsValid :
    (s : Sched) (p prio : ℤ) → IsValid s → is_slot p ≡ true → IsValid (put_priority s p prio)
unfolding put_priority
put_priority-IsValid s p prio v h = put-IsValid s p _ v h (v.single p h)

created-IsValid :
    (s : Sched) (p prio : ℤ) (rsp : ℕ)
    → IsValid s
    → is_slot p ≡ true
    → IsValid (set_rsp (put_priority (set_status s p ready) p prio) p rsp)
created-IsValid s p prio rsp v h =
    set_rsp-IsValid _ p rsp
      (put_priority-IsValid _ p prio (set_status-IsValid s p ready v h refl) h) h

process_was_created-IsValid :
    (s : Sched) (p prio : ℤ) (rsp : ℕ)
    → IsValid s
    → is_slot p ≡ true
    → IsValid (process_was_created s p prio rsp).1
unfolding process_was_created
process_was_created-IsValid s p prio rsp v h = ground (
  arith,
  created-IsValid s p prio (create_process_stack rsp) v h,
  created-IsValid s p default_priority (create_process_stack rsp) v h,
)

-- The killed entry itself does not run any more.
killed_idle :
    (s : Sched) (p k : ℤ)
    → eq_ℤ p k ≡ true
    → is_running ((set_rsp (set_status s p killed) p 0).process_table k).process_status ≡ false
unfolding set_rsp set_status update
killed_idle s p k h = ground (arith, eq_ℤ_iff p k, eq_ℤ_self p)

process_was_killed-IsValid : (s : Sched) (p : ℤ) → IsValid s → IsValid (process_was_killed s p).1
unfolding process_was_killed first_of_pid set_rsp set_status
process_was_killed-IsValid s p v = elim (Option-cases (get_state s p)) [
  | inl e ↦ rw (e, process_was_killed) v
  | inr (pcb, e) ↦
      rw (e, process_was_killed)
        (if_both ValidAfter (is_killed pcb.process_status) _ _ v
          (killed_state (get_state-slot s p pcb e)))
]
  where
    dead : is_slot p ≡ true → IsValid (set_rsp (set_status s p killed) p 0)
    dead h = set_rsp-IsValid _ p 0 (set_status-IsValid s p killed v h refl) h

    killed_state :
        is_slot p ≡ true
        → IsValid (record (set_rsp (set_status s p killed) p 0) {
          current_pid = if eq_ℤ s.current_pid p then no_proc else s.current_pid;
        })
    killed_state h = record {
      single = λ k hk r. ground (
        arith,
        (dead h).single k hk r,
        killed_idle s p k,
        eq_ℤ_iff s.current_pid p,
        eq_ℤ_iff p k,
      );
      outside = (dead h).outside;
      current_in = ground (arith, v.current_in);
    }

block-IsValid : (s : Sched) (p : ℤ) → IsValid s → IsValid (block s p).1
unfolding block
block-IsValid s p v = elim (Option-cases (get_state s p)) [
  | inl e ↦ rw (e, block) v
  | inr (pcb, e) ↦
      rw (e, block)
        (let w = set_status-IsValid s p blocked v (get_state-slot s p pcb e) refl in
          record { single = w.single; outside = w.outside; current_in = w.current_in })
]

set_next_if-IsValid : (b : Bool) (s : Sched) (p : ℤ) → IsValid s → IsValid (set_next_if b s p)
unfolding set_next_if
set_next_if-IsValid b s p v = record {
  single = v.single;
  outside = v.outside;
  current_in = v.current_in;
}

unblock-IsValid : (s : Sched) (p : ℤ) → IsValid s → IsValid (unblock s p).1
unfolding unblock
unblock-IsValid s p v = elim (Option-cases (get_state s p)) [
  | inl e ↦ rw (e, unblock) v
  | inr (pcb, e) ↦
      rw (e, unblock)
        (if_both ValidAfter (is_ready pcb.process_status || is_running pcb.process_status) _ _ v (
          set_next_if-IsValid _ _ p
            (set_status-IsValid s p ready v (get_state-slot s p pcb e) refl)))
]

nice-IsValid : (s : Sched) (p prio : ℤ) → IsValid s → IsValid (nice s p prio).1
unfolding nice
nice-IsValid s p prio v = elim (Option-cases (get_state s p)) [
  | inl e ↦ rw (e, nice) v
  | inr (pcb, e) ↦
      rw (e, nice)
        (if_both ValidAfter (eq_ℤ p (pos 0) || not (priority_in_range prio)) _ _ v
          (set_next_if-IsValid _ _ p (put_priority-IsValid s p prio v (get_state-slot s p pcb e))))
]

set_priority-IsValid : (s : Sched) (p prio : ℤ) → IsValid s → IsValid (set_priority s p prio).1
unfolding set_priority
set_priority-IsValid s p prio v = elim (Option-cases (get_state s p)) [
  | inl e ↦ rw (e, set_priority) (if_both ValidAfter (not (priority_in_range prio)) _ _ v v)
  | inr (pcb, e) ↦
      rw (e, set_priority)
        (if_both ValidAfter (not (priority_in_range prio)) _ _ v
          (put_priority-IsValid s p prio v (get_state-slot s p pcb e)))
]

not_below : (q : ℤ) → ltb_ℤ (pos 0) q ≡ true → ltb_ℤ q (pos 0) ≡ false
unfolding ltb_ℤ
not_below q h = ground arith

-- `get_current_process` finds a process only if the current one is a slot of the table.
current-slot :
    (s : Sched) (p : Pcb)
    → first_of_pid s.current_pid < max_processes
    → get_current_process s ≡ some p
    → is_slot s.current_pid ≡ true
unfolding get_current_process
current-slot s p h e = elim (Bool-cases (ltb_ℤ (pos 0) s.current_pid)) [
  | inl above ↦ slot_of_nonneg s.current_pid h (not_below s.current_pid above)
  | inr below ↦ absurd (ground (arith, below, e))
]

discard_current-IsValid :
    (s : Sched) (p : Pcb) → IsValid s → get_current_process s ≡ some p → IsValid (discard_current s)
unfolding discard_current
discard_current-IsValid s p v e =
    let slot = current-slot s p v.current_in e in
    set_rsp-IsValid _ s.current_pid 0 (set_status-IsValid s s.current_pid killed v slot refl) slot

-- One call of the scheduler: the process module registers and removes processes, system calls change
-- states and priorities, and the timer or a process gives the processor up. A new process goes to any
-- slot of the table. `kill_current` marks the current process and calls `kill`, which makes other steps.
pub data Step : Sched → Sched → Type 0 where
  create :
      (s : Sched) (p prio : ℤ) (rsp : ℕ)
      → is_slot p ≡ true
      → Step s (process_was_created s p prio rsp).1
  kill : (s : Sched) (p : ℤ) → Step s (process_was_killed s p).1
  kills_current :
      (s : Sched) (p : Pcb) → get_current_process s ≡ some p → Step s (discard_current s)
  blocks : (s : Sched) (p : ℤ) → Step s (block s p).1
  unblocks : (s : Sched) (p : ℤ) → Step s (unblock s p).1
  nices : (s : Sched) (p prio : ℤ) → Step s (nice s p prio).1
  sets_priority : (s : Sched) (p prio : ℤ) → Step s (set_priority s p prio).1
  ticks : (s : Sched) (rsp : ℕ) → Step s (switch_process s rsp).1
  yields : (s : Sched) (rsp : ℕ) → Step s (yield s rsp).1

pub data Reach (s : Sched) : Sched → Type 0 where
  here : Reach s s
  next : {t u : Sched} → Reach s t → Step t u → Reach s u

yield-IsValid : (s : Sched) (rsp : ℕ) → IsValid s → IsValid (yield s rsp).1
unfolding yield
yield-IsValid s rsp v =
    (switch_process-Switched (record s { current_quantum = 0 }) rsp
      (record { single = v.single; outside = v.outside; current_in = v.current_in })).0

Step-IsValid : {s t : Sched} → Step s t → IsValid s → IsValid t
Step-IsValid (create s p prio rsp h) v = process_was_created-IsValid s p prio rsp v h
Step-IsValid (kill s p) v = process_was_killed-IsValid s p v
Step-IsValid (kills_current s p e) v = discard_current-IsValid s p v e
Step-IsValid (blocks s p) v = block-IsValid s p v
Step-IsValid (unblocks s p) v = unblock-IsValid s p v
Step-IsValid (nices s p prio) v = nice-IsValid s p prio v
Step-IsValid (sets_priority s p prio) v = set_priority-IsValid s p prio v
Step-IsValid (ticks s rsp) v = (switch_process-Switched s rsp v).0
Step-IsValid (yields s rsp) v = yield-IsValid s rsp v

-- The memory of the table at boot: every byte of the 15 entries is 0, and what lies beside it does not
-- look like a process that can run.
pub record IsBoot (s : Sched) : Type 0 where
  pub blank : (p : ℤ) → is_slot p ≡ true → (s.process_table p).process_status ≡ ready
  pub outside : (p : ℤ) → is_slot p ≡ false → can_run (s.process_table p) ≡ false

pub init_scheduler-IsValid : (s : Sched) → IsBoot s → IsValid (init_scheduler s)
unfolding init_scheduler first_of_pid
init_scheduler-IsValid s b = record {
  single = λ p h r. ground (arith, b.blank p h);
  outside = b.outside;
  current_in = omega arith;
}

pub Reach-IsValid : {s t : Sched} → IsValid s → Reach s t → IsValid t
Reach-IsValid v here = v
Reach-IsValid v (next r st) = Step-IsValid st (Reach-IsValid v r)

-- No process but the current one is marked as running, and the current one is a slot of the table or one
-- of the negative codes.
pub record OneRuns (s : Sched) : Type 0 where
  pub single :
      (p : ℤ)
      → is_slot p ≡ true
      → is_running (s.process_table p).process_status ≡ true
      → p ≡ s.current_pid
  pub current_in : first_of_pid s.current_pid < max_processes

-- If the entries of the table are blank at boot, and the memory beside the table, which the scheduler
-- reads at index -2 and no call writes, does not look like a process that can run: then after
-- `init_scheduler` and any sequence of scheduler calls at most one process is marked as running, it is
-- the current one, and the current one is a slot of the table or a negative code.
pub init_scheduler-Reach-OneRuns : {s t : Sched} → IsBoot s → Reach (init_scheduler s) t → OneRuns t
init_scheduler-Reach-OneRuns {s} b r =
    let v = Reach-IsValid (init_scheduler-IsValid s b) r in
    record { single = v.single; current_in = v.current_in }
