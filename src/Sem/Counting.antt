-- ===== src/Sem/Counting.antt =====
-- Any interleaving of calls on one semaphore of Kernel/semaphores/semaphores.c: how many waits pass.
use tp2_sistemas_operativos.Base.{
  ℕ, ◌+◌, ◌≤◌, ◌≡◌, ap, ℤ, pos, arith, eq_ℤ, eq_ℤ_self, update, some, Option-cases, inl, inr,
}
use tp2_sistemas_operativos.Sched.Control.{get_pid}
use tp2_sistemas_operativos.Sem.{
  Sems, Semaphore, returned, asleep, set_sem, acquire, grab_semaphore, release_sem, sem_wait,
  wait_test, go_to_sleep, sem_post, add_one, wake_first, sem_wait_resume,
}

abbrev pub value_of : {H : Type 0} → Sems H → ℤ → ℕ
value_of st sem = (st.semaphore_list sem).sem_value

module _ {H : Type 0} (st st' : Sems H) (sem : ℤ) where
  post_value : sem_post st sem ≡ some (pos 0, st') → value_of st' sem ≡ value_of st sem + 1
  unfolding sem_post grab_semaphore acquire release_sem add_one wake_first set_sem update eq_ℤ
  post_value e = ground (arith, e, eq_ℤ_self sem)

  test_passes_value :
      (pid : ℤ) (rsp : ℕ)
      → wait_test st sem pid rsp ≡ some (returned (pos 0), st')
      → value_of st' sem + 1 ≡ value_of st sem
  unfolding wait_test release_sem set_sem update go_to_sleep
  test_passes_value pid rsp e = ground (arith, e, eq_ℤ_self sem)

  test_sleeps_value :
      (pid : ℤ) (rsp to : ℕ)
      → wait_test st sem pid rsp ≡ some (asleep to, st')
      → value_of st' sem ≡ value_of st sem
  unfolding wait_test release_sem set_sem update go_to_sleep
  test_sleeps_value pid rsp to e = ground (arith, e, eq_ℤ_self sem)

module _ {H : Type 0} (st st' : Sems H) (sem : ℤ) where
  grab_value :
      (code : ℤ) → grab_semaphore st sem ≡ some (code, st') → value_of st' sem ≡ value_of st sem
  unfolding grab_semaphore acquire set_sem update
  grab_value code e = ground (arith, e, eq_ℤ_self sem)

-- The outcome of a wait is that of the test under the lock.
module _ {H : Type 0} (st st' : Sems H) (sem : ℤ) (rsp : ℕ) where
  wait_passes_value :
      sem_wait st sem rsp ≡ some (returned (pos 0), st') → value_of st' sem + 1 ≡ value_of st sem
  unfolding sem_wait eq_ℤ
  wait_passes_value e = elim (Option-cases (grab_semaphore st sem)) [
    | inl none_grab ↦ ground (arith, e, none_grab)
    | inr ((code, g), grab) ↦ ground (
      arith,
      e,
      grab,
      grab_value st g sem code grab,
      test_passes_value g st' sem (get_pid g.sched) rsp,
    )
  ]

  wait_sleeps_value :
      (to : ℕ) → sem_wait st sem rsp ≡ some (asleep to, st') → value_of st' sem ≡ value_of st sem
  unfolding sem_wait eq_ℤ
  wait_sleeps_value to e = elim (Option-cases (grab_semaphore st sem)) [
    | inl none_grab ↦ ground (arith, e, none_grab)
    | inr ((code, g), grab) ↦ ground (
      arith,
      e,
      grab,
      grab_value st g sem code grab,
      test_sleeps_value g st' sem (get_pid g.sched) rsp to,
    )
  ]

  resume_passes_value :
      (pid : ℤ)
      → sem_wait_resume st sem pid rsp ≡ some (returned (pos 0), st')
      → value_of st' sem + 1 ≡ value_of st sem
  unfolding sem_wait_resume eq_ℤ
  resume_passes_value pid e = elim (Option-cases (grab_semaphore st sem)) [
    | inl none_grab ↦ ground (arith, e, none_grab)
    | inr ((code, g), grab) ↦
        ground (arith, e, grab, grab_value st g sem code grab, test_passes_value g st' sem pid rsp)
  ]

  resume_sleeps_value :
      (pid : ℤ) (to : ℕ)
      → sem_wait_resume st sem pid rsp ≡ some (asleep to, st')
      → value_of st' sem ≡ value_of st sem
  unfolding sem_wait_resume eq_ℤ
  resume_sleeps_value pid to e = elim (Option-cases (grab_semaphore st sem)) [
    | inl none_grab ↦ ground (arith, e, none_grab)
    | inr ((code, g), grab) ↦
        ground
          (arith, e, grab, grab_value st g sem code grab, test_sleeps_value g st' sem pid rsp to)
  ]

-- The state, with the numbers of the waits that have passed and of the posts so far.
pub record Ledger (H : Type 0) : Type 0 where
  pub st : Sems H
  pub passes : ℕ
  pub posts : ℕ

module _ {H : Type 0} (sem : ℤ) where
  -- What processes may do with the semaphore, in any order. `elsewhere` is any other activity of the
  -- kernel: it may change all but this semaphore.
  pub data Uses : Ledger H → Ledger H → Type 0 where
    posts :
        (l : Ledger H) (st' : Sems H)
        → sem_post l.st sem ≡ some (pos 0, st')
        → Uses l (record { st = st'; passes = l.passes; posts = l.posts + 1 })
    passes :
        (l : Ledger H) (st' : Sems H) (rsp : ℕ)
        → sem_wait l.st sem rsp ≡ some (returned (pos 0), st')
        → Uses l (record { st = st'; passes = l.passes + 1; posts = l.posts })
    sleeps :
        (l : Ledger H) (st' : Sems H) (rsp to : ℕ)
        → sem_wait l.st sem rsp ≡ some (asleep to, st')
        → Uses l (record { st = st'; passes = l.passes; posts = l.posts })
    resumes :
        (l : Ledger H) (st' : Sems H) (pid : ℤ) (rsp : ℕ)
        → sem_wait_resume l.st sem pid rsp ≡ some (returned (pos 0), st')
        → Uses l (record { st = st'; passes = l.passes + 1; posts = l.posts })
    sleeps_again :
        (l : Ledger H) (st' : Sems H) (pid : ℤ) (rsp to : ℕ)
        → sem_wait_resume l.st sem pid rsp ≡ some (asleep to, st')
        → Uses l (record { st = st'; passes = l.passes; posts = l.posts })
    elsewhere :
        (l : Ledger H) (st' : Sems H)
        → st'.semaphore_list sem ≡ l.st.semaphore_list sem
        → Uses l (record { st = st'; passes = l.passes; posts = l.posts })

  pub data UsesMany (l : Ledger H) : Ledger H → Type 0 where
    here : UsesMany l l
    next : {m n : Ledger H} → UsesMany l m → Uses m n → UsesMany l n

  abbrev Balanced : Ledger H → Ledger H → Type 0
  Balanced l m = value_of m.st sem + m.passes + l.posts ≡ value_of l.st sem + l.passes + m.posts

  Uses-Balanced : (base : Ledger H) {m n : Ledger H} → Uses m n → Balanced base m → Balanced base n
  Uses-Balanced base (posts l st' e) b = omega (arith, post_value l.st st' sem e)
  Uses-Balanced base (passes l st' rsp e) b = omega (arith, wait_passes_value l.st st' sem rsp e)
  Uses-Balanced base (sleeps l st' rsp to e) b =
      omega (arith, wait_sleeps_value l.st st' sem rsp to e)
  Uses-Balanced base (resumes l st' pid rsp e) b =
      omega (arith, resume_passes_value l.st st' sem rsp pid e)
  Uses-Balanced base (sleeps_again l st' pid rsp to e) b =
      omega (arith, resume_sleeps_value l.st st' sem rsp pid to e)
  Uses-Balanced base (elsewhere l st' e) b = omega (arith, ap (λ (s : Semaphore). s.sem_value) e)

  UsesMany-Balanced : {l m : Ledger H} → UsesMany l m → Balanced l m
  UsesMany-Balanced here = omega arith
  UsesMany-Balanced {l} (next many step) = Uses-Balanced l step (UsesMany-Balanced many)

-- From a semaphore of value `n`, whatever the interleaving of posts, of waits that pass or sleep, of
-- sleepers that try again and of anything that leaves this semaphore unchanged: the value is `n`, plus the posts,
-- less the waits that passed. So no more waits pass than `n` and the posts together.
pub waits_conserved :
    {H : Type 0} (sem : ℤ) (st : Sems H) (m : Ledger H)
    → UsesMany sem (record { st = st; passes = 0; posts = 0 }) m
    → (value_of m.st sem + m.passes ≡ value_of st sem + m.posts)
      × (m.passes ≤ value_of st sem + m.posts)
waits_conserved sem st m many =
    let b = UsesMany-Balanced sem many in (omega (arith, b), omega (arith, b))
