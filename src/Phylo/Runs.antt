-- ===== src/Phylo/Runs.antt =====
-- No two neighbours eat at the same time, whatever the order of the steps of phylo.c.
use tp2_sistemas_operativos.Base.{
  ℕ, ◌+◌, ◌-◌, ◌<◌, ◌≡◌, ◌≢◌, refl, sym, ap, ◌∙◌, arith, Bool, true, false, ◌&&◌, not, ℤ, pos,
  ltb_ℤ, leb, ◌==◌, if◌then◌else◌, if_both, update_at, Bool-cases, inl, inr,
}
use tp2_sistemas_operativos.Phylo.{
  nobody, thinking, hungry, eating, is_eating, is_hungry, Philosopher, Feast, state_of, left, right,
  set_state, display_table, try_to_eat, take_forks, put_forks, add_philosopher, remove_philosopher,
  must_stay, empty_table, gone, min_philosophers, max_philosophers,
}
use tp2_sistemas_operativos.Phylo.Steps.{
  Peace, Peace-SameStates, Peace-display_table, Peace-calm, Peace-eat, right-next, left-before,
}

-- Two tests of the same conjunction.
if_three {ℓ κ} :
    {A : Type ℓ} (P : A → Type κ) (a b c : Bool) (x y : A)
    → (b ≡ false → c ≡ false → P x)
    → P y
    → P (if a && (not b && not c) then x else y)
if_three P false b c x y px py = py
if_three P true true c x y px py = py
if_three P true false true x y px py = py
if_three P true false false x y px py = px refl refl

Peace-posts : (t : Feast) (posts : ℕ → ℕ) → Peace t → Peace (record t { posts = posts })
Peace-posts t posts peace =
    Peace-SameStates t (record t { posts = posts })
      (record { same_num = refl; same_state = λ k. refl }) peace

Peace-try_to_eat : (t : Feast) (id : ℕ) → Peace t → Peace (try_to_eat t id)
unfolding try_to_eat
Peace-try_to_eat t id peace =
    if_three Peace (is_hungry (state_of t id)) (is_eating (state_of t (left t.num_philosophers id)))
      (is_eating (state_of t (right t.num_philosophers id))) _ t
      (λ l r.
        Peace-posts (display_table (set_state t id eating)) _
          (Peace-display_table (set_state t id eating) (Peace-eat t id l r peace)))
      peace

Peace-take_forks : (t : Feast) (id : ℕ) → Peace t → Peace (take_forks t id)
unfolding take_forks
Peace-take_forks t id peace =
    Peace-try_to_eat (display_table (set_state t id hungry)) id
      (Peace-display_table (set_state t id hungry) (Peace-calm t id hungry refl peace))

Peace-put_forks : (t : Feast) (id : ℕ) → Peace t → Peace (put_forks t id)
unfolding put_forks
Peace-put_forks t id peace =
    let shown = display_table (set_state t id thinking) in
    let calm : Peace shown =
      Peace-display_table (set_state t id thinking) (Peace-calm t id thinking refl peace) in
    let served : Peace (try_to_eat shown (left shown.num_philosophers id)) =
      Peace-try_to_eat shown (left shown.num_philosophers id) calm in
    Peace-try_to_eat (try_to_eat shown (left shown.num_philosophers id)) _ served

-- A philosopher who does not eat joins at the end.
Peace-join :
    (t : Feast) (p : Philosopher)
    → is_eating p.state ≡ false
    → Peace t
    → Peace (record t {
      philosophers = update_at t.philosophers t.num_philosophers p;
      num_philosophers = t.num_philosophers + 1;
    })
unfolding update_at
Peace-join t p calm peace = record {
  rule = λ i lt apart e.
      let n = t.num_philosophers in
      let older : i < n = ground (arith, calm) in
      let in_new : right (n + 1) i ≡ i + 1 = right-next (n + 1) i lt ∙ ground arith in
      elim (Bool-cases (i + 1 == n)) [
        | inl last ↦ ground (arith, in_new, last, calm)
        | inr more ↦
            (let in_old : right n i ≡ i + 1 = right-next n i older ∙ ground (arith, more) in
              let still : is_eating (state_of t i) ≡ true = ground (arith, older) in
              let wide : right n i ≢ i = λ self. ground (arith, in_old, self) in
              let calm_right : is_eating (state_of t (i + 1)) ≡ false =
                ap (λ k. is_eating (state_of t k)) (sym in_old) ∙ peace.rule i older wide still in
              ground (arith, in_new, more, calm_right))
      ];
}

-- The last philosopher leaves, and its neighbours do not both eat.
Peace-leave :
    (t : Feast)
    → min_philosophers < t.num_philosophers
    → must_stay t (t.num_philosophers - 1) ≡ false
    → Peace t
    → Peace (record t {
      philosophers = update_at t.philosophers (t.num_philosophers - 1) gone;
      num_philosophers = t.num_philosophers - 1;
    })
unfolding update_at must_stay
Peace-leave t many go peace = record {
  rule = λ i lt apart e.
      let n = t.num_philosophers in
      let older : i < n = omega arith in
      let still : is_eating (state_of t i) ≡ true = ground arith in
      elim (Bool-cases (i + 1 == n - 1)) [
        | inl last ↦
            (let in_new : right (n - 1) i ≡ 0 = right-next (n - 1) i lt ∙ ground (arith, last) in
              let at_left : left n (n - 1) ≡ i =
                left-before n (n - 1) (omega arith) ∙ ground (arith, last) in
              let at_right : right n (n - 1) ≡ 0 =
                right-next n (n - 1) (omega arith) ∙ ground arith in
              let eats_left = ap (λ k. is_eating (state_of t k)) at_left ∙ still in
              let zero_right = ap (λ k. is_eating (state_of t k)) at_right in
              ground (arith, in_new, last, eats_left, zero_right))
        | inr more ↦
            (let in_old : right n i ≡ i + 1 = right-next n i older ∙ ground (arith, more) in
              let in_new : right (n - 1) i ≡ i + 1 =
                right-next (n - 1) i lt ∙ ground (arith, more) in
              let wide : right n i ≢ i = λ self. ground (arith, in_old, self) in
              let calm_right : is_eating (state_of t (i + 1)) ≡ false =
                ap (λ k. is_eating (state_of t k)) (sym in_old) ∙ peace.rule i older wide still in
              ground (arith, in_new, more, calm_right))
      ];
}

Peace-outside :
    (t : Feast) (p : Philosopher)
    → Peace t
    → Peace (record t { philosophers = update_at t.philosophers t.num_philosophers p })
unfolding update_at
Peace-outside t p peace = record {
  rule = λ i lt apart e.
      let next_in : right t.num_philosophers i < t.num_philosophers =
        ground (arith, right-next t.num_philosophers i lt) in
      let old = peace.rule i lt apart in ground (arith, next_in, old);
}

abbrev after {ℓ} : {A : Type ℓ} → ℤ × (Bool × A) → A
after r = r.1.1

Peace-add_philosopher :
    (t : Feast) (sem pid : ℤ)
    → Peace t
    → Peace (after (add_philosopher t t.num_philosophers sem pid))
unfolding add_philosopher update_at
Peace-add_philosopher t sem pid peace =
    let n = t.num_philosophers in
    let seat = record (t.philosophers n) { state = nobody; prev = nobody; sem = sem } in
    let fresh = record t { philosophers = update_at t.philosophers n seat } in
    let guest = record (fresh.philosophers n) { pid = pid } in
    let born = record fresh { philosophers = update_at fresh.philosophers n guest } in
    let quiet : is_eating guest.state ≡ false = ground arith in
    let seated : Peace fresh = Peace-outside t seat peace in
    let at_table : Peace (record born { num_philosophers = n + 1 }) =
      Peace-join fresh guest quiet seated in
    if_both (λ r. Peace (after r)) (leb max_philosophers n) _ _ peace
      (if_both (λ r. Peace (after r)) (ltb_ℤ sem (pos 0)) _ _ seated
        (if_both (λ r. Peace (after r)) (ltb_ℤ pid (pos 0)) _ _ (Peace-outside fresh guest seated)
          (Peace-display_table (record born { num_philosophers = n + 1 }) at_table)))

Peace-remove_philosopher :
    (t : Feast) (killed closed : ℤ)
    → must_stay t (t.num_philosophers - 1) ≡ false
    → Peace t
    → Peace (after (remove_philosopher t killed closed))
unfolding remove_philosopher
Peace-remove_philosopher t killed closed go peace =
    let n = t.num_philosophers in
    let p = t.philosophers (n - 1) in
    elim (Bool-cases (leb n min_philosophers)) [
      | inl few ↦ rw few peace
      | inr many ↦ rw many (
          if_both (λ r. Peace (after r)) (not (ltb_ℤ (pos 0) p.pid)) _ _ peace
            (if_both (λ r. Peace (after r)) (ltb_ℤ killed (pos 0)) _ _ peace
              (if_both (λ r. Peace (after r)) (ltb_ℤ (pos 0) p.sem && ltb_ℤ closed (pos 0)) _ _
                peace (Peace-display_table _ (Peace-leave t (ground (arith, many)) go peace)))))
    ]

-- What the processes make of the table, one critical section after the other. The index says whether
-- the mutex is free; a section begins only when it is.
pub data Reach : Bool → Feast → Type 0 where
  begin : Reach true empty_table
  take :
      (t : Feast) (id : ℕ) → Reach true t → id < t.num_philosophers → Reach true (take_forks t id)
  put : (t : Feast) (id : ℕ) → Reach true t → id < t.num_philosophers → Reach true (put_forks t id)
  add :
      (t : Feast) (sem pid : ℤ)
      → Reach true t
      → Reach
          (add_philosopher t t.num_philosophers sem pid).1.0
          (add_philosopher t t.num_philosophers sem pid).1.1
  remove :
      (t : Feast) (killed closed : ℤ)
      → Reach true t
      → must_stay t (t.num_philosophers - 1) ≡ false
      → Reach (remove_philosopher t killed closed).1.0 (remove_philosopher t killed closed).1.1

Reach-Peace : (free : Bool) (t : Feast) → Reach free t → Peace t
unfolding empty_table
Reach-Peace free t begin = record { rule = λ i lt apart e. ground arith }
Reach-Peace free t (take s id r lt) = Peace-take_forks s id (Reach-Peace true s r)
Reach-Peace free t (put s id r lt) = Peace-put_forks s id (Reach-Peace true s r)
Reach-Peace free t (add s sem pid r) = Peace-add_philosopher s sem pid (Reach-Peace true s r)
Reach-Peace free t (remove s killed closed r go) =
    Peace-remove_philosopher s killed closed go (Reach-Peace true s r)

-- Whatever the order of the critical sections of the philosophers and of the guests who come and go,
-- of two different neighbours at most one eats.
pub Reach-neighbours :
    (free : Bool) (t : Feast) (i : ℕ)
    → Reach free t
    → i < t.num_philosophers
    → right t.num_philosophers i ≢ i
    → is_eating (state_of t i) ≡ true
    → is_eating (state_of t (right t.num_philosophers i)) ≡ false
Reach-neighbours free t i r lt apart e = (Reach-Peace free t r).rule i lt apart e
