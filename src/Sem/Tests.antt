-- ===== src/Sem/Tests.antt =====
-- The theorems on Kernel/semaphores/semaphores.c at concrete states.
use tp2_sistemas_operativos.Base.{
  ℕ, zero, suc, ◌+◌, ◌≤◌, ◌<◌, ◌≡◌, ◌≢◌, ◌⊎◌, refl, pos, negsuc, arith, some, [], ◌∷◌, eq_ℤ, ltb_ℤ,
  update,
}
use tp2_sistemas_operativos.Samples.{bump, idle_sched, unused_sem}
use tp2_sistemas_operativos.Text.{Text, strcmp, strlen}
use tp2_sistemas_operativos.Text.Compare.{IsText}
use tp2_sistemas_operativos.Sched.Control.{get_pid}
use tp2_sistemas_operativos.Sem.{
  Sems, Semaphore, is_sem, contains, sem_wait, sem_post, sem_get, sem_get_loop, is_unused,
}
use tp2_sistemas_operativos.Sem.Open.{sem_open}
use tp2_sistemas_operativos.Sem.Calls.{
  CanUse, Keeps, Passes, Sleeps, sem_post-member, sem_wait-member, woken,
}
use tp2_sistemas_operativos.Sem.Counting.{Ledger, here, next, Uses, waits_conserved, value_of}
use tp2_sistemas_operativos.Sem.Names.{FindsName, sem_get-FindsName, sem_open_duplicates}
use tp2_sistemas_operativos.Sem.Opening.{Opens, sem_open-Opens}

abbrev mutex_name : Text
mutex_name = b'm' ∷ []

-- A mutex that process 1 uses and process 3 waits for.
abbrev mutex : Semaphore
mutex = record {
  name = mutex_name;
  name_at = 64;
  sem_value = 1;
  lock = 1;
  interested = pos 1 ∷ pos 3 ∷ [];
  waiting = pos 3 ∷ [];
}

abbrev with_mutex : Sems ℕ
with_mutex = record {
  lock = 1;
  semaphore_list = update (λ k. unused_sem) (pos 0) mutex;
  active = 1;
  sched = idle_sched;
  heap = 4096;
}

-- The mutex stands in slot 2, and the slots below it have been closed.
abbrev with_gap : Sems ℕ
with_gap = record with_mutex { semaphore_list = update (λ k. unused_sem) (pos 2) mutex }

with_mutex-CanUse : CanUse with_mutex (pos 0)
unfolding is_sem ltb_ℤ update eq_ℤ contains get_pid
with_mutex-CanUse = record { valid = refl; unlocked = refl; sem_unlocked = refl; member = refl }

sem_post-member_example :
    (st' : Sems ℕ) × (sem_post with_mutex (pos 0) ≡ some (pos 0, st'))
    × Keeps with_mutex (pos 0) st'
    × ((st'.semaphore_list (pos 0)).sem_value ≡ 1 + 1)
    × ((st'.semaphore_list (pos 0)).waiting ≡ [])
    × (st'.sched ≡ woken idle_sched (pos 3 ∷ []))
unfolding update eq_ℤ
sem_post-member_example = sem_post-member with_mutex (pos 0) with_mutex-CanUse

sem_wait-member_example :
    ((value_of with_mutex (pos 0) ≢ 0)
      × Passes with_mutex (pos 0) (sem_wait with_mutex (pos 0) 500))
    ⊎ ((value_of with_mutex (pos 0) ≡ 0)
        × Sleeps with_mutex (pos 0) (pos 1) 500 (sem_wait with_mutex (pos 0) 500))
unfolding update eq_ℤ get_pid
sem_wait-member_example = sem_wait-member with_mutex (pos 0) 500 with_mutex-CanUse (omega arith)

abbrev posted_once : Ledger ℕ
posted_once = record { st = sem_post-member_example.0; passes = 0; posts = 0 + 1 }

waits_conserved_example :
    (value_of posted_once.st (pos 0) + 0 ≡ value_of with_mutex (pos 0) + (0 + 1))
    × (0 ≤ value_of with_mutex (pos 0) + (0 + 1))
waits_conserved_example = waits_conserved (pos 0) with_mutex posted_once (
    next here (
      Uses.posts (record { st = with_mutex; passes = 0; posts = 0 }) sem_post-member_example.0
        sem_post-member_example.1))

sem_get-FindsName_example :
    FindsName with_mutex.semaphore_list mutex_name 0 1 (sem_get with_mutex mutex_name)
sem_get-FindsName_example = sem_get-FindsName with_mutex mutex_name

gap_not_found : sem_get with_gap mutex_name ≡ negsuc 0
unfolding sem_get sem_get_loop strcmp update eq_ℤ
gap_not_found = refl

abbrev other_name : Text
other_name = b'x' ∷ []

sem_open-Opens_example :
    Opens bump [] with_mutex other_name
      (pos 5)
      (sem_open bump [] with_mutex (some other_name) (pos 5))
sem_open-Opens_example = sem_open-Opens bump [] with_mutex other_name (pos 5) refl other_unknown
  where
    other_unknown : sem_get with_mutex other_name ≡ negsuc 0
    other_unknown = unfold sem_get sem_get_loop strcmp update eq_ℤ in refl

gap_differs :
    (j : ℕ)
    → j < 1
    → IsText (with_gap.semaphore_list (pos j)).name
      × ((with_gap.semaphore_list (pos j)).name ≢ mutex_name)
unfolding update eq_ℤ
gap_differs zero h = (tt, λ e. cc)
gap_differs (suc j) h = absurd (omega arith)

sem_open_duplicates_example :
    (j : ℕ) × (st' : Sems ℕ) × (sem_open bump [] with_gap (some mutex_name) (pos 1)
      ≡ some (pos j, st'))
    × (j ≢ 2)
    × ((st'.semaphore_list (pos j)).name ≡ mutex_name)
    × ((st'.semaphore_list (pos 2)).name ≡ mutex_name)
unfolding update eq_ℤ ltb_ℤ is_unused strlen
sem_open_duplicates_example =
    sem_open_duplicates bump [] with_gap mutex_name (pos 1) 2 0 refl (omega arith) refl
      (omega arith) refl (omega arith) refl refl gap_differs (omega arith)
