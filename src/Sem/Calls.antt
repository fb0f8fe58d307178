-- ===== src/Sem/Calls.antt =====
-- `sem_wait`, `sem_post` and `sem_close` of Kernel/semaphores/semaphores.c on a semaphore that is open.
use tp2_sistemas_operativos.Base.{
  ℕ, ◌+◌, ◌-◌, ◌<◌, ◌≡◌, ◌≢◌, ◌⊎◌, true, false, refl, ℤ, pos, arith, ℕ_discrete, inl, inr, List, [],
  ◌∷◌, ◌++◌, length, eq_ℤ, eq_ℤ_self, eq_ℤ_iff, Bool-cases, update, Option, some, max_processes,
}
use tp2_sistemas_operativos.Sched.{Sched, yield, set_status}
use tp2_sistemas_operativos.Sched.Control.{get_pid, block, unblock, set_next_if}
use tp2_sistemas_operativos.Sem.{
  Sems, Wait, returned, asleep, is_sem, contains, set_sem, acquire, grab_semaphore, is_interested,
  release_sem, sem_wait, wait_test, go_to_sleep, sem_post, add_one, wake_first,
}

-- Both spin locks can be taken, and the caller is one of the semaphore's processes.
pub record CanUse {H : Type 0} (st : Sems H) (sem : ℤ) : Type 0 where
  pub valid : is_sem sem ≡ true
  pub unlocked : st.lock ≡ 1
  pub sem_unlocked : (st.semaphore_list sem).lock ≡ 1
  pub member : contains (st.semaphore_list sem).interested (get_pid st.sched) ≡ true

-- The state with the lock of the semaphore taken.
abbrev pub grabbed : {H : Type 0} → Sems H → ℤ → Sems H
grabbed st sem = record st {
  lock = 1;
  semaphore_list = update st.semaphore_list sem (record (st.semaphore_list sem) { lock = 0 });
}

-- The value and the waiting processes of `sem`, and the scheduler, may differ; every other field of the
-- semaphore and of the state is as before, and both locks can be taken again.
pub record Keeps {H : Type 0} (st : Sems H) (sem : ℤ) (st' : Sems H) : Type 0 where
  pub unlocked : st'.lock ≡ 1
  pub sem_unlocked : (st'.semaphore_list sem).lock ≡ 1
  pub same_name : (st'.semaphore_list sem).name ≡ (st.semaphore_list sem).name
  pub same_address : (st'.semaphore_list sem).name_at ≡ (st.semaphore_list sem).name_at
  pub members : (st'.semaphore_list sem).interested ≡ (st.semaphore_list sem).interested
  pub others : (k : ℤ) → eq_ℤ sem k ≡ false → st'.semaphore_list k ≡ st.semaphore_list k
  pub opens : st'.active ≡ st.active
  pub heap_kept : st'.heap ≡ st.heap

-- The processes that still wait after a post, and the scheduler after it.
abbrev pub rest_of : List ℤ → List ℤ
rest_of [] = []
rest_of (p ∷ ps) = ps

abbrev pub woken : Sched → List ℤ → Sched
woken s [] = s
woken s (p ∷ ps) = (unblock s p).1

module _ {H : Type 0} (st : Sems H) (sem : ℤ) where
  grab_semaphore-open : CanUse st sem → grab_semaphore st sem ≡ some (pos 0, grabbed st sem)
  unfolding grab_semaphore acquire set_sem
  grab_semaphore-open c = ground (arith, c.valid, c.unlocked, c.sem_unlocked)

  grabbed-member : CanUse st sem → is_interested (grabbed st sem) sem (get_pid st.sched) ≡ true
  unfolding is_interested update
  grabbed-member c = rw (eq_ℤ_self sem) c.member

  abbrev posted : Sems H
  posted = release_sem (wake_first (add_one (grabbed st sem) sem) sem) sem

  sem_post-posted : CanUse st sem → sem_post st sem ≡ some (pos 0, posted)
  unfolding sem_post eq_ℤ
  sem_post-posted c = rw (grab_semaphore-open c, grabbed-member c)

  posted-Keeps : Keeps st sem posted
  unfolding release_sem add_one wake_first set_sem update
  posted-Keeps = record {
    unlocked = ground (arith, eq_ℤ_self sem);
    sem_unlocked = ground (arith, eq_ℤ_self sem);
    same_name = ground (arith, eq_ℤ_self sem);
    same_address = ground (arith, eq_ℤ_self sem);
    members = ground (arith, eq_ℤ_self sem);
    others = λ k h. ground (arith, eq_ℤ_self sem);
    opens = ground (arith, eq_ℤ_self sem);
    heap_kept = ground (arith, eq_ℤ_self sem);
  }

  posted_fields :
      ((posted.semaphore_list sem).sem_value ≡ (st.semaphore_list sem).sem_value + 1)
      × ((posted.semaphore_list sem).waiting ≡ rest_of (st.semaphore_list sem).waiting)
      × (posted.sched ≡ woken st.sched (st.semaphore_list sem).waiting)
  unfolding release_sem add_one wake_first set_sem update
  posted_fields = ground (arith, eq_ℤ_self sem)

  abbrev passed : Sems H
  passed =
      release_sem
        (set_sem (grabbed st sem) sem (record ((grabbed st sem).semaphore_list sem) {
          sem_value = ((grabbed st sem).semaphore_list sem).sem_value - 1;
        }))
        sem

  wait_test-passed :
      (pid : ℤ) (rsp : ℕ)
      → (st.semaphore_list sem).sem_value ≢ 0
      → wait_test (grabbed st sem) sem pid rsp ≡ some (returned (pos 0), passed)
  unfolding wait_test update
  wait_test-passed pid rsp v = ground (arith, eq_ℤ_self sem)

  passed-Keeps : Keeps st sem passed
  unfolding release_sem set_sem update
  passed-Keeps = record {
    unlocked = refl;
    sem_unlocked = ground (arith, eq_ℤ_self sem);
    same_name = ground (arith, eq_ℤ_self sem);
    same_address = ground (arith, eq_ℤ_self sem);
    members = ground (arith, eq_ℤ_self sem);
    others = λ k h. ground (arith, eq_ℤ_self sem);
    opens = refl;
    heap_kept = refl;
  }

  passed_fields :
      (st.semaphore_list sem).sem_value ≢ 0
      → ((passed.semaphore_list sem).sem_value + 1 ≡ (st.semaphore_list sem).sem_value)
        × ((passed.semaphore_list sem).waiting ≡ (st.semaphore_list sem).waiting)
        × (passed.sched ≡ st.sched)
  unfolding release_sem set_sem update
  passed_fields v = ground (arith, eq_ℤ_self sem)

  queued : ℤ → Sems H
  unfolding release_sem set_sem
  queued pid =
      let g = grabbed st sem in
      let s = g.semaphore_list sem in
      release_sem (set_sem g sem (record s { waiting = s.waiting ++ (pid ∷ []) })) sem

  slept : ℤ → ℕ → Sems H
  unfolding queued
  slept pid rsp = record (queued pid) { sched = (yield (block st.sched pid).1 rsp).1 }

  wait_test-slept :
      (pid : ℤ) (rsp : ℕ)
      → (st.semaphore_list sem).sem_value ≡ 0
      → length (st.semaphore_list sem).waiting < max_processes
      → wait_test (grabbed st sem) sem pid rsp
        ≡ some (asleep (yield (block st.sched pid).1 rsp).0, slept pid rsp)
  unfolding wait_test go_to_sleep slept release_sem set_sem update
  wait_test-slept pid rsp v room = ground (arith, eq_ℤ_self sem)

  slept-Keeps : (pid : ℤ) (rsp : ℕ) → Keeps st sem (slept pid rsp)
  unfolding slept update
  slept-Keeps pid rsp = record {
    unlocked = refl;
    sem_unlocked = ground (arith, eq_ℤ_self sem);
    same_name = ground (arith, eq_ℤ_self sem);
    same_address = ground (arith, eq_ℤ_self sem);
    members = ground (arith, eq_ℤ_self sem);
    others = λ k h. ground (arith, eq_ℤ_self sem);
    opens = refl;
    heap_kept = refl;
  }

  slept_fields :
      (pid : ℤ) (rsp : ℕ)
      → (st.semaphore_list sem).sem_value ≡ 0
      → (((slept pid rsp).semaphore_list sem).sem_value ≡ 0)
        × (((slept pid rsp).semaphore_list sem).waiting
            ≡ (st.semaphore_list sem).waiting ++ (pid ∷ []))
        × ((slept pid rsp).sched ≡ (yield (block st.sched pid).1 rsp).1)
  unfolding slept update
  slept_fields pid rsp v = ground (arith, eq_ℤ_self sem)

  sem_wait-test :
      (rsp : ℕ)
      → CanUse st sem
      → sem_wait st sem rsp ≡ wait_test (grabbed st sem) sem (get_pid st.sched) rsp
  unfolding sem_wait eq_ℤ
  sem_wait-test rsp c = rw (grab_semaphore-open c, grabbed-member c)

-- A post by one of its processes adds one to the semaphore's value, takes the first waiting process out
-- of the queue and unblocks it, and returns 0 with both locks free. The semaphore's name, its address and
-- its processes, every other semaphore, their number and the heap stay as they are.
pub sem_post-member :
    {H : Type 0} (st : Sems H) (sem : ℤ)
    → CanUse st sem
    → (st' : Sems H) × (sem_post st sem ≡ some (pos 0, st'))
      × Keeps st sem st'
      × ((st'.semaphore_list sem).sem_value ≡ (st.semaphore_list sem).sem_value + 1)
      × ((st'.semaphore_list sem).waiting ≡ rest_of (st.semaphore_list sem).waiting)
      × (st'.sched ≡ woken st.sched (st.semaphore_list sem).waiting)
sem_post-member st sem c = (
  posted st sem,
  sem_post-posted st sem c,
  posted-Keeps st sem,
  (posted_fields st sem).0,
  (posted_fields st sem).1,
  (posted_fields st sem).2,
)

-- The state and the queue after a wait of `pid` that found the value 0.
abbrev pub Sleeps : {H : Type 0} → Sems H → ℤ → ℤ → ℕ → Option (Wait × Sems H) → Type 0
Sleeps {H} st sem pid rsp m =
    (st' : Sems H) × (m ≡ some (asleep (yield (block st.sched pid).1 rsp).0, st'))
    × Keeps st sem st'
    × ((st'.semaphore_list sem).sem_value ≡ 0)
    × ((st'.semaphore_list sem).waiting ≡ (st.semaphore_list sem).waiting ++ (pid ∷ []))
    × (st'.sched ≡ (yield (block st.sched pid).1 rsp).1)

abbrev pub Passes : {H : Type 0} → Sems H → ℤ → Option (Wait × Sems H) → Type 0
Passes {H} st sem m =
    (st' : Sems H) × (m ≡ some (returned (pos 0), st'))
    × Keeps st sem st'
    × ((st'.semaphore_list sem).sem_value + 1 ≡ (st.semaphore_list sem).sem_value)
    × ((st'.semaphore_list sem).waiting ≡ (st.semaphore_list sem).waiting)
    × (st'.sched ≡ st.sched)

wait_test-ends :
    {H : Type 0} (st : Sems H) (sem pid : ℤ) (rsp : ℕ)
    → length (st.semaphore_list sem).waiting < max_processes
    → (((st.semaphore_list sem).sem_value ≢ 0)
        × Passes st sem (wait_test (grabbed st sem) sem pid rsp))
      ⊎ (((st.semaphore_list sem).sem_value ≡ 0)
          × Sleeps st sem pid rsp (wait_test (grabbed st sem) sem pid rsp))
wait_test-ends st sem pid rsp room = elim (ℕ_discrete (st.semaphore_list sem).sem_value 0) [
  | yes zero_value ↦
      let (v, w, s) = slept_fields st sem pid rsp zero_value in
      inr (
        zero_value,
        (
          slept st sem pid rsp,
          wait_test-slept st sem pid rsp zero_value room,
          slept-Keeps st sem pid rsp,
          v,
          w,
          s,
        ),
      )
  | no some_value ↦
      let (v, w, s) = passed_fields st sem some_value in
      inl (
        some_value,
        (passed st sem, wait_test-passed st sem pid rsp some_value, passed-Keeps st sem, v, w, s),
      )
]

-- A wait by one of the semaphore's processes, with fewer than 15 waiting, either finds a value
-- that is not 0, takes one from it and returns 0, or finds 0, puts the caller at the end of the waiting
-- processes, blocks it and gives the processor up. Both locks are free afterwards, and the semaphore's
-- name, its address and its processes, every other semaphore, their number and the heap stay as they are.
pub sem_wait-member :
    {H : Type 0} (st : Sems H) (sem : ℤ) (rsp : ℕ)
    → CanUse st sem
    → length (st.semaphore_list sem).waiting < max_processes
    → (((st.semaphore_list sem).sem_value ≢ 0) × Passes st sem (sem_wait st sem rsp))
      ⊎ (((st.semaphore_list sem).sem_value ≡ 0)
          × Sleeps st sem (get_pid st.sched) rsp (sem_wait st sem rsp))
sem_wait-member st sem rsp c room =
    rw (sem_wait-test st sem rsp c) (wait_test-ends st sem (get_pid st.sched) rsp room)

-- A wait that finds a value passes, however many processes are waiting.
pub sem_wait-Passes :
    {H : Type 0} (st : Sems H) (sem : ℤ) (rsp : ℕ)
    → CanUse st sem
    → (st.semaphore_list sem).sem_value ≢ 0
    → Passes st sem (sem_wait st sem rsp)
sem_wait-Passes st sem rsp c v =
    let (value, waits, same) = passed_fields st sem v in
    rw (sem_wait-test st sem rsp c) (
      passed st sem,
      wait_test-passed st sem (get_pid st.sched) rsp v,
      passed-Keeps st sem,
      value,
      waits,
      same,
    )

-- Only the semaphore itself and the scheduler change, and not who runs, so that the process may go on
-- to use any semaphore that it could use.
pub Keeps-CanUse :
    {H : Type 0} (st st' : Sems H) (sem k : ℤ)
    → Keeps st sem st'
    → get_pid st'.sched ≡ get_pid st.sched
    → CanUse st k
    → CanUse st' k
Keeps-CanUse st st' sem k keep same c = elim (Bool-cases (eq_ℤ sem k)) [
  | inl e ↦
      let q : sem ≡ k = (eq_ℤ_iff sem k).0 e in
      record {
        valid = c.valid;
        unlocked = keep.unlocked;
        sem_unlocked = rw (← q) (keep.sem_unlocked);
        member = rw (same, ← q, keep.members) (rw (← q) at c.member);
      }
  | inr ne ↦ record {
    valid = c.valid;
    unlocked = keep.unlocked;
    sem_unlocked = rw (keep.others k ne) (c.sem_unlocked);
    member = rw (same, keep.others k ne) (c.member);
  }
]

pub woken-pid : (s : Sched) (ps : List ℤ) → get_pid (woken s ps) ≡ get_pid s
unfolding get_pid unblock set_next_if set_status
woken-pid s [] = refl
woken-pid s (p ∷ ps) = ground arith
