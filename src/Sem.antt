-- ===== src/Sem.antt =====
-- Kernel/semaphores/semaphores.c, with the spin locks of Kernel/asm/semaphores.asm. An operation is
-- `none` where the processor spins on a lock that nobody can release, or leaves an array. `Open` has the calls that open and close.
pub mod Open
pub mod Calls
pub mod Counting
pub mod Names
pub mod Opening
mod Tests
use tp2_sistemas_operativos.Base.{
  ℕ, zero, suc, ◌+◌, ◌-◌, Bool, true, false, ◌&&◌, ◌||◌, not, Option, none, some, List, [], ◌∷◌,
  ◌++◌, ℤ, pos, negsuc, minus1, minus2, minus3, pos_part, ltb_ℤ, eq_ℤ, ltb, leb, ◌==◌,
  if◌then◌else◌, update, ◌>>=◌, length, max_processes,
}
use tp2_sistemas_operativos.Alloc.{Allocator}
use tp2_sistemas_operativos.Text.{Text, strlen, strcpy, strcmp}
use tp2_sistemas_operativos.Sched.{Sched, yield}
use tp2_sistemas_operativos.Sched.Control.{get_pid, block, unblock}

abbrev pub max_semaphores : ℕ
max_semaphores = 255

abbrev pub max_sems_error : ℤ
max_sems_error = minus2

abbrev pub invalid_value_error : ℤ
invalid_value_error = minus3

-- `struct Semaphore`. `name_at` is the address in the field `name`, and `name` the text that stands
-- there. The two arrays with their counts are lists of process ids. `sem_value` is an `int` that no call
-- makes negative, here a number without a bound: an `int` holds it below 2 ^ 31.
pub record Semaphore : Type 0 where
  pub name : Text
  pub name_at : ℕ
  pub sem_value : ℕ
  pub lock : ℕ
  pub interested : List ℤ
  pub waiting : List ℤ

-- The global variables, with the scheduler and the heap that the operations use.
pub record Sems (Heap : Type 0) : Type 0 where
  pub lock : ℕ
  pub semaphore_list : ℤ → Semaphore
  pub active : ℕ
  pub sched : Sched
  pub heap : Heap

-- `acquire` exchanges the lock with 0 until it finds another value. Nothing else runs meanwhile, so on
-- a lock that is 0 it spins for ever.
unfoldable pub acquire : ℕ → Option ℕ
acquire lock = if lock == 0 then none else some 0

abbrev pub release : ℕ
release = 1

unfoldable pub contains : List ℤ → ℤ → Bool
contains [] pid = false
contains (p ∷ ps) pid = eq_ℤ p pid || contains ps pid

-- The shift to the left from the first entry that is `pid`.
unfoldable pub remove_first : List ℤ → ℤ → List ℤ
remove_first [] pid = []
remove_first (p ∷ ps) pid = if eq_ℤ p pid then ps else p ∷ remove_first ps pid

unfoldable pub is_sem : ℤ → Bool
is_sem sem = not (ltb_ℤ sem (pos 0) || not (ltb_ℤ sem (pos max_semaphores)))

-- The loop of `sem_get` over the first `active` slots, `left` of them still to come.
unfoldable pub sem_get_loop : (ℤ → Semaphore) → Text → ℕ → ℕ → ℤ
sem_get_loop list name zero i = minus1
sem_get_loop list name (suc left) i =
    let rest = sem_get_loop list name left (i + 1) in
    if eq_ℤ (strcmp (list (pos i)).name name) (pos 0) then pos i else rest

unfoldable pub is_unused : Semaphore → Bool
is_unused s = length s.interested == 0

-- The search of `sem_open` for a slot that nobody uses.
unfoldable pub free_slot_loop : (ℤ → Semaphore) → ℕ → ℕ → Option ℕ
free_slot_loop list zero i = none
free_slot_loop list (suc left) i =
    let rest = free_slot_loop list left (i + 1) in if is_unused (list (pos i)) then some i else rest

module _ {H : Type 0} where
  -- Assignments to `semaphoreList[sem]`.
  unfoldable pub set_sem : Sems H → ℤ → Semaphore → Sems H
  set_sem st sem s = record st { semaphore_list = update st.semaphore_list sem s }

  unfoldable pub grab_semaphore : Sems H → ℤ → Option (ℤ × Sems H)
  grab_semaphore st sem = do
    held ← acquire st.lock
    (if not (is_sem sem) then some (invalid_value_error, record st { lock = release }) else (do
      taken ← acquire (st.semaphore_list sem).lock
      some (
        pos 0,
        set_sem (record st { lock = release }) sem
            (record (st.semaphore_list sem) { lock = taken }),
      )))

  unfoldable pub release_sem : Sems H → ℤ → Sems H
  release_sem st sem = set_sem st sem (record (st.semaphore_list sem) { lock = release })

  unfoldable pub sem_get : Sems H → Text → ℤ
  sem_get st name = sem_get_loop st.semaphore_list name st.active 0

  unfoldable pub is_interested : Sems H → ℤ → ℤ → Bool
  is_interested st sem pid = contains (st.semaphore_list sem).interested pid

  unfoldable pub unlock : Sems H → Sems H
  unlock st = record st { lock = release }

  -- `sem_value`; the bound is the number of processes, as in the source.
  unfoldable pub sem_value : Sems H → ℤ → ℤ
  sem_value st sem =
      if ltb_ℤ sem (pos 0) || ltb_ℤ (pos max_processes) sem
      then minus1
      else pos (st.semaphore_list sem).sem_value

-- What a call of `sem_wait` has come to: it returned a code, or its process sleeps in `yield`, and the
-- processor went to the stack pointer given.
pub data Wait : Type 0 where
  returned : ℤ → Wait
  asleep : ℕ → Wait

module _ {H : Type 0} where
  -- The caller joins the waiting processes, lets the lock go, and gives the processor up.
  unfoldable pub go_to_sleep : Sems H → ℤ → ℤ → ℕ → Option (Wait × Sems H)
  go_to_sleep st sem pid rsp =
      let s = st.semaphore_list sem in
      let st' = release_sem (set_sem st sem (record s { waiting = s.waiting ++ (pid ∷ []) })) sem in
      let (to, sched) = yield (block st'.sched pid).1 rsp in
      if ltb (length s.waiting) max_processes
      then some (asleep to, record st' { sched = sched })
      else none

  -- One test of the loop of `sem_wait`, with the lock of the semaphore taken.
  unfoldable pub wait_test : Sems H → ℤ → ℤ → ℕ → Option (Wait × Sems H)
  wait_test st sem pid rsp =
      let s = st.semaphore_list sem in
      if s.sem_value == 0
      then go_to_sleep st sem pid rsp
      else some (
        returned (pos 0),
        release_sem (set_sem st sem (record s { sem_value = s.sem_value - 1 })) sem,
      )

  unfoldable pub sem_wait : Sems H → ℤ → ℕ → Option (Wait × Sems H)
  sem_wait st sem rsp = do
    (code, st') ← grab_semaphore st sem
    (if not (eq_ℤ code (pos 0))
        then some (returned minus1, st')
        else if is_interested st' sem (get_pid st'.sched)
        then wait_test st' sem (get_pid st'.sched) rsp
        else some (returned invalid_value_error, release_sem st' sem))

  -- `sem_wait` of process `pid` goes on after its `yield`.
  unfoldable pub sem_wait_resume : Sems H → ℤ → ℤ → ℕ → Option (Wait × Sems H)
  sem_wait_resume st sem pid rsp = do
    (code, st') ← grab_semaphore st sem
    (if not (eq_ℤ code (pos 0)) then some (returned minus1, st') else wait_test st' sem pid rsp)

  -- The first waiting process leaves the queue and is unblocked.
  unfoldable pub wake_first : Sems H → ℤ → Sems H
  wake_first st sem = elim (st.semaphore_list sem).waiting [
    | [] ↦ st
    | pid ∷ rest ↦ record (set_sem st sem (record (st.semaphore_list sem) { waiting = rest })) {
      sched = (unblock st.sched pid).1;
    }
  ]

  unfoldable pub add_one : Sems H → ℤ → Sems H
  add_one st sem =
      let s = st.semaphore_list sem in set_sem st sem (record s { sem_value = s.sem_value + 1 })

  unfoldable pub sem_post : Sems H → ℤ → Option (ℤ × Sems H)
  sem_post st sem = do
    (code, st') ← grab_semaphore st sem
    (if not (eq_ℤ code (pos 0))
        then some (minus1, st')
        else if is_interested st' sem (get_pid st'.sched)
        then some (pos 0, release_sem (wake_first (add_one st' sem) sem) sem)
        else some (invalid_value_error, release_sem st' sem))
