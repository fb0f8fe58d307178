-- ===== src/Sem/Names.antt =====
-- Finding and opening semaphores by name, Kernel/semaphores/semaphores.c.
use tp2_sistemas_operativos.Base.{
  ℕ, zero, suc, ◌+◌, ◌≤◌, ◌<◌, ◌≡◌, ◌≢◌, ◌⊎◌, ap, ◌∙◌, ℕ_discrete, inl, inr, true, false, refl, ℤ,
  pos, arith, eq_ℤ, eq_ℤ_self, update, some, minus1, max_processes, ltb_ℤ, pos_part, Bool-cases, [],
  ◌∷◌,
}
use tp2_sistemas_operativos.Alloc.{Allocator}
use tp2_sistemas_operativos.Text.{Text, strlen, strcmp}
use tp2_sistemas_operativos.Text.Compare.{IsText, strcmp_iff, strcpy_lem}
use tp2_sistemas_operativos.Sched.Control.{get_pid}
use tp2_sistemas_operativos.Sem.{
  Sems, Semaphore, set_sem, acquire, sem_get, sem_get_loop, is_unused, free_slot_loop,
  max_semaphores,
}
use tp2_sistemas_operativos.Sem.Open.{open_new, open_at, fill, sem_open}

module _ (list : ℤ → Semaphore) (name : Text) where
  -- What a search of the slots below `last` returns: the first slot with the name, or -1.
  abbrev pub FindsName : ℕ → ℕ → ℤ → Type 0
  FindsName first last sem =
      ((sem ≡ minus1)
        × ((i : ℕ) → first ≤ i → i < last → eq_ℤ (strcmp (list (pos i)).name name) (pos 0) ≡ false))
      ⊎ ((i : ℕ) × (first ≤ i)
          × (i < last)
          × (sem ≡ pos i)
          × (eq_ℤ (strcmp (list (pos i)).name name) (pos 0) ≡ true)
          × ((j : ℕ) → first ≤ j → j < i → eq_ℤ (strcmp (list (pos j)).name name) (pos 0) ≡ false))

  later :
      (first : ℕ) (P : ℕ → Type 0) (last : ℕ)
      → P first
      → ((i : ℕ) → first + 1 ≤ i → i < last → P i)
      → (i : ℕ) → first ≤ i
      → i < last
      → P i
  later first P last now rest i low high = elim (ℕ_discrete first i) [
    | yes e ↦ rw e at now
    | no ne ↦ rest i (omega arith) high
  ]

  sem_get_loop-FindsName :
      (left i last : ℕ) → i + left ≡ last → FindsName i last (sem_get_loop list name left i)
  unfolding sem_get_loop
  sem_get_loop-FindsName zero i last e = inl (refl, λ j low high. absurd (omega arith))
  sem_get_loop-FindsName (suc left) i last e =
      elim (Bool-cases (eq_ℤ (strcmp (list (pos i)).name name) (pos 0))) [
        | inl hit ↦
            rw hit
              (inr (i, omega arith, omega arith, refl, hit, λ j low high. absurd (omega arith)))
        | inr miss ↦ rw miss (elim (sem_get_loop-FindsName left (i + 1) last (omega arith)) [
          | inl (fails, all) ↦ inl (
            fails,
            later i (λ j. eq_ℤ (strcmp (list (pos j)).name name) (pos 0) ≡ false) last miss all,
          )
          | inr (k, low, high, found, hit, before) ↦ inr (
            k,
            omega arith,
            high,
            found,
            hit,
            later i (λ j. eq_ℤ (strcmp (list (pos j)).name name) (pos 0) ≡ false) k miss before,
          )
        ])
      ]

-- `sem_get` looks at the slots below the number of open semaphores, in order, and returns the first one
-- whose name compares equal, or -1 if there is none among them.
pub sem_get-FindsName :
    {H : Type 0} (st : Sems H) (name : Text)
    → FindsName st.semaphore_list name 0 st.active (sem_get st name)
unfolding sem_get
sem_get-FindsName st name =
    sem_get_loop-FindsName st.semaphore_list name st.active 0 st.active (omega arith)

free_slot_loop-finds :
    (list : ℤ → Semaphore) (left i last k : ℕ)
    → i + left ≡ last
    → i ≤ k
    → k < last
    → is_unused (list (pos k)) ≡ true
    → (j : ℕ) × (free_slot_loop list left i ≡ some j)
      × (j < last)
      × (is_unused (list (pos j)) ≡ true)
unfolding free_slot_loop
free_slot_loop-finds list zero i last k e low high unused = absurd (omega arith)
free_slot_loop-finds list (suc left) i last k e low high unused =
    elim (Bool-cases (is_unused (list (pos i)))) [
      | inl hit ↦ rw hit (i, refl, omega arith, hit)
      | inr miss ↦
          rw miss
            (free_slot_loop-finds list left (i + 1) last k (omega arith) (above miss) high unused)
    ]
  where
    above : is_unused (list (pos i)) ≡ false → i + 1 ≤ k
    above miss = elim (ℕ_discrete i k) [
      | yes same ↦ absurd (ground (arith, rw same at miss))
      | no ne ↦ omega arith
    ]

module _ (A : Allocator) (null_text : Text) where
  open A use {Heap, malloc}

  -- A name that `sem_get` does not find, an unused slot, and memory for the name.
  pub record CanOpen (st : Sems Heap) (name : Text) (value : ℤ) : Type 0 where
    pub unlocked : st.lock ≡ 1
    pub not_found : sem_get st name ≡ minus1
    pub few : st.active < max_processes
    pub nonneg : ltb_ℤ value (pos 0) ≡ false
    pub spare : ℕ
    pub spare_lt : spare < max_semaphores
    pub spare_unused : is_unused (st.semaphore_list (pos spare)) ≡ true
    pub memory : (malloc (strlen name + 1) st.heap).0 ≢ 0

  module _ (st : Sems Heap) (name : Text) (value : ℤ) (c : CanOpen st name value) (i : ℕ) where
    abbrev filled : Sems Heap
    filled =
        let (at, heap) = malloc (strlen name + 1) st.heap in
        fill A null_text (record st { heap = heap }) i name at (pos_part value)

    sem_open-filled :
        free_slot_loop st.semaphore_list max_semaphores 0 ≡ some i
        → sem_open A null_text st (some name) value ≡ some (pos i, filled)
    unfolding sem_open open_new open_at acquire eq_ℤ
    sem_open-filled found =
        ground (arith, c.unlocked, c.not_found, c.few, c.nonneg, c.memory, found)

    filled_slot : filled.semaphore_list (pos i) ≡ record (st.semaphore_list (pos i)) {
      name = name;
      name_at = (malloc (strlen name + 1) st.heap).0;
      sem_value = pos_part value;
      lock = 1;
      interested = get_pid st.sched ∷ [];
    }
    unfolding fill set_sem update
    filled_slot = ground (arith, eq_ℤ_self (pos i), strcpy_lem name)

    filled_others : (k : ℤ) → eq_ℤ (pos i) k ≡ false → filled.semaphore_list k ≡ st.semaphore_list k
    unfolding fill set_sem update
    filled_others k h = ground arith

    filled_counts : (filled.lock ≡ 1) × (filled.active ≡ st.active + 1)
    unfolding fill set_sem
    filled_counts = (refl, refl)

  sem_open-fresh :
      (st : Sems Heap) (name : Text) (value : ℤ)
      → CanOpen st name value
      → (i : ℕ) × (st' : Sems Heap) × (sem_open A null_text st (some name) value
          ≡ some (pos i, st'))
        × (is_unused (st.semaphore_list (pos i)) ≡ true)
        × (st'.semaphore_list (pos i) ≡ record (st.semaphore_list (pos i)) {
          name = name;
          name_at = (malloc (strlen name + 1) st.heap).0;
          sem_value = pos_part value;
          lock = 1;
          interested = get_pid st.sched ∷ [];
        })
        × ((k : ℤ) → eq_ℤ (pos i) k ≡ false → st'.semaphore_list k ≡ st.semaphore_list k)
        × (st'.lock ≡ 1)
        × (st'.active ≡ st.active + 1)
  sem_open-fresh st name value c =
      let (i, found, _, unused) =
        free_slot_loop-finds st.semaphore_list max_semaphores 0 max_semaphores c.spare refl
          (omega arith) c.spare_lt c.spare_unused in
      (
        i,
        filled st name value c i,
        sem_open-filled st name value c i found,
        unused,
        filled_slot st name value c i,
        filled_others st name value c i,
        (filled_counts st name value c i).0,
        (filled_counts st name value c i).1,
      )

sem_get-differ :
    {H : Type 0} (st : Sems H) (name : Text)
    → ((j : ℕ)
        → j < st.active
        → IsText (st.semaphore_list (pos j)).name × ((st.semaphore_list (pos j)).name ≢ name))
    → IsText name
    → sem_get st name ≡ minus1
sem_get-differ st name below text = elim (sem_get-FindsName st name) [
  | inl (fails, _) ↦ fails
  | inr (k, _, high, _, hit, _) ↦
      absurd ((below k high).1 ((strcmp_iff _ name (below k high).0 text).0 hit))
]

-- The number of open semaphores bounds the search of `sem_get`, and the slots in use need not be the
-- first ones. If slot `i` is in use under a name and no slot below that number has the name, then
-- `sem_open` of the name with a value that is not negative does not join slot `i`: if the lock is free,
-- fewer than 15 semaphores are open, a slot is unused and there is memory for the name, it makes a second
-- semaphore of the same name in another slot.
pub sem_open_duplicates :
    (A : Allocator) (null_text : Text) (st : Sems A.Heap) (name : Text) (value : ℤ) (i spare : ℕ)
    → st.lock ≡ 1
    → st.active < max_processes
    → ltb_ℤ value (pos 0) ≡ false
    → spare < max_semaphores
    → is_unused (st.semaphore_list (pos spare)) ≡ true
    → (A.malloc (strlen name + 1) st.heap).0 ≢ 0
    → (st.semaphore_list (pos i)).name ≡ name
    → is_unused (st.semaphore_list (pos i)) ≡ false
    → ((j : ℕ)
        → j < st.active
        → IsText (st.semaphore_list (pos j)).name × ((st.semaphore_list (pos j)).name ≢ name))
    → IsText name
    → (j : ℕ) × (st' : Sems A.Heap) × (sem_open A null_text st (some name) value
        ≡ some (pos j, st'))
      × (j ≢ i)
      × ((st'.semaphore_list (pos j)).name ≡ name)
      × ((st'.semaphore_list (pos i)).name ≡ name)
sem_open_duplicates A null_text st name value i spare free few nonneg lt unused memory carries used
      below text =
    let (j, st', opened, was_unused, slot, others, _, _) =
      sem_open-fresh A null_text st name value (record {
        unlocked = free;
        not_found = sem_get-differ st name below text;
        few = few;
        nonneg = nonneg;
        spare = spare;
        spare_lt = lt;
        spare_unused = unused;
        memory = memory;
      }) in
    let ne : j ≢ i = λ e. ground (arith, rw e at was_unused) in
    (
      j,
      st',
      opened,
      ne,
      ap (λ (s : Semaphore). s.name) slot,
      ap (λ (s : Semaphore). s.name) (others (pos i) (pos_ne j i ne)) ∙ carries,
    )
  where
    pos_ne : (a b : ℕ) → a ≢ b → eq_ℤ (pos a) (pos b) ≡ false
    pos_ne a b h = unfold eq_ℤ in ground arith
