-- ===== src/Sem/Opening.antt =====
-- `sem_open` of Kernel/semaphores/semaphores.c for a name that no semaphore has: every way in which it ends.
use tp2_sistemas_operativos.Base.{
  ℕ, zero, suc, ◌+◌, ◌≤◌, ◌<◌, ◌≡◌, ◌≢◌, ◌⊎◌, ap, sym, ℕ_discrete, inl, inr, true, false, refl, ℤ,
  pos, arith, eq_ℤ, eq_ℤ_self, update, Option, none, some, minus1, max_processes, leb, ltb_ℤ,
  pos_part, Bool-cases, ◌==◌, [], ◌∷◌,
}
use tp2_sistemas_operativos.Alloc.{Allocator}
use tp2_sistemas_operativos.Text.{Text, strlen}
use tp2_sistemas_operativos.Text.Compare.{strcpy_lem}
use tp2_sistemas_operativos.Sched.Control.{get_pid}
use tp2_sistemas_operativos.Sem.{
  Sems, Semaphore, unlock, set_sem, acquire, sem_get, is_unused, free_slot_loop, max_semaphores,
  max_sems_error, invalid_value_error,
}
use tp2_sistemas_operativos.Sem.Open.{open_new, open_at, fill, sem_open}

-- No slot from `first` to `last` is unused, or `k` is the first one.
abbrev AllUsed : (ℤ → Semaphore) → ℕ → ℕ → Type 0
AllUsed list first last = (j : ℕ) → first ≤ j → j < last → is_unused (list (pos j)) ≡ false

abbrev IsFirst : (ℤ → Semaphore) → ℕ → ℕ → ℕ → Type 0
IsFirst list first last k =
    (first ≤ k) × (k < last) × (is_unused (list (pos k)) ≡ true) × AllUsed list first k

AllUsed-step :
    (list : ℤ → Semaphore) (i last : ℕ)
    → is_unused (list (pos i)) ≡ false
    → AllUsed list (i + 1) last
    → AllUsed list i last
AllUsed-step list i last used rest j low high = elim (ℕ_discrete i j) [
  | yes e ↦ rw e at used
  | no ne ↦ rest j (omega arith) high
]

free_slot_loop-First :
    (list : ℤ → Semaphore) (left i last : ℕ)
    → i + left ≡ last
    → ((free_slot_loop list left i ≡ none) × AllUsed list i last)
      ⊎ ((k : ℕ) × (free_slot_loop list left i ≡ some k) × IsFirst list i last k)
unfolding free_slot_loop
free_slot_loop-First list zero i last e = inl (refl, λ j low high. absurd (omega arith))
free_slot_loop-First list (suc left) i last e = elim (Bool-cases (is_unused (list (pos i)))) [
  | inl unused ↦
      rw unused
        (inr (i, refl, (omega arith, omega arith, unused, λ j low high. absurd (omega arith))))
  | inr used ↦ rw used (elim (free_slot_loop-First list left (i + 1) last (omega arith)) [
    | inl (full, all) ↦ inl (full, AllUsed-step list i last used all)
    | inr (k, found, (low, high, unused, before)) ↦
        inr (k, found, (omega arith, high, unused, AllUsed-step list i k used before))
  ])
]

acquire-free : (lock : ℕ) → lock ≡ 1 → acquire lock ≡ some 0
unfolding acquire
acquire-free lock e = ground (arith, e)

module _ (A : Allocator) (null_text : Text) where
  open A use {Heap, malloc}

  -- The call returns a code and changes nothing.
  abbrev Refused : Sems Heap → ℤ → Option (ℤ × Sems Heap) → Type 0
  Refused st code m = m ≡ some (code, st)

  -- The slot `i` has lost its name, and the heap is that after the `malloc` that failed.
  pub record NoMemory (st : Sems Heap) (name : Text) (i : ℕ) (m : Option (ℤ × Sems Heap))
      : Type 0 where
    pub after : Sems Heap
    pub returns : m ≡ some (minus1, after)
    pub null : (malloc (strlen name + 1) st.heap).0 ≡ 0
    pub slot :
        after.semaphore_list (pos i)
        ≡ record (st.semaphore_list (pos i)) { name = null_text; name_at = 0 }
    pub others : (k : ℤ) → eq_ℤ (pos i) k ≡ false → after.semaphore_list k ≡ st.semaphore_list k
    pub unlocked : after.lock ≡ 1
    pub opens : after.active ≡ st.active
    pub same_sched : after.sched ≡ st.sched
    pub heap_after : after.heap ≡ (malloc (strlen name + 1) st.heap).1

  -- The slot `i` holds the name, the value and the caller alone, and one more semaphore is open.
  pub record Opened (st : Sems Heap) (name : Text) (value : ℤ) (i : ℕ) (m : Option (ℤ × Sems Heap))
      : Type 0 where
    pub after : Sems Heap
    pub returns : m ≡ some (pos i, after)
    pub memory : (malloc (strlen name + 1) st.heap).0 ≢ 0
    pub slot : after.semaphore_list (pos i) ≡ record (st.semaphore_list (pos i)) {
      name = name;
      name_at = (malloc (strlen name + 1) st.heap).0;
      sem_value = pos_part value;
      lock = 1;
      interested = get_pid st.sched ∷ [];
    }
    pub others : (k : ℤ) → eq_ℤ (pos i) k ≡ false → after.semaphore_list k ≡ st.semaphore_list k
    pub unlocked : after.lock ≡ 1
    pub opens : after.active ≡ st.active + 1
    pub same_sched : after.sched ≡ st.sched
    pub heap_after : after.heap ≡ (malloc (strlen name + 1) st.heap).1

  -- What becomes of the slots once the number of semaphores and the value are accepted.
  abbrev pub TakesSlot : Sems Heap → Text → ℤ → Option (ℤ × Sems Heap) → Type 0
  TakesSlot st name value m =
      (AllUsed st.semaphore_list 0 max_semaphores × Refused st minus1 m)
      ⊎ ((i : ℕ) × IsFirst st.semaphore_list 0 max_semaphores i
          × (NoMemory st name i m ⊎ Opened st name value i m))

  abbrev pub Opens : Sems Heap → Text → ℤ → Option (ℤ × Sems Heap) → Type 0
  Opens st name value m =
      ((max_processes ≤ st.active) × Refused st max_sems_error m)
      ⊎ ((st.active < max_processes)
          × (((ltb_ℤ value (pos 0) ≡ true) × Refused st invalid_value_error m)
              ⊎ ((ltb_ℤ value (pos 0) ≡ false) × TakesSlot st name value m)))

  unlocked-same : (st : Sems Heap) → st.lock ≡ 1 → unlock st ≡ st
  unfolding unlock
  unlocked-same st e = ap (λ k. record st { lock = k }) (sym e)

  open_at-null :
      (st : Sems Heap) (name : Text) (value : ℤ) (i : ℕ)
      → (malloc (strlen name + 1) st.heap).0 ≡ 0
      → NoMemory st name i (some (open_at A null_text st (some i) name (pos_part value)))
  unfolding open_at unlock set_sem
  open_at-null st name value i null = record {
    after =
        record (set_sem st (pos i)
          (record (st.semaphore_list (pos i)) { name = null_text; name_at = 0 })) {
            lock = 1;
            heap = (malloc (strlen name + 1) st.heap).1;
          };
    returns = rw null refl;
    null = null;
    slot = unfold update in ground (arith, eq_ℤ_self (pos i));
    others = λ k h. unfold update in ground arith;
    unlocked = refl;
    opens = refl;
    same_sched = refl;
    heap_after = refl;
  }

  open_at-Opened :
      (st : Sems Heap) (name : Text) (value : ℤ) (i : ℕ)
      → (malloc (strlen name + 1) st.heap).0 ≢ 0
      → Opened st name value i (some (open_at A null_text st (some i) name (pos_part value)))
  unfolding open_at fill set_sem
  open_at-Opened st name value i memory =
      let (at, heap) = malloc (strlen name + 1) st.heap in
      let found : (at == 0) ≡ false = ground (arith, memory) in
      record {
        after = fill A null_text (record st { heap = heap }) i name at (pos_part value);
        returns = rw found refl;
        memory = memory;
        slot = unfold update in ground (arith, eq_ℤ_self (pos i), strcpy_lem name);
        others = λ k h. unfold update in ground arith;
        unlocked = refl;
        opens = refl;
        same_sched = refl;
        heap_after = refl;
      }

  open_at-TakesSlot :
      (st : Sems Heap) (name : Text) (value : ℤ)
      → st.lock ≡ 1
      → TakesSlot st name value (
          some (
            open_at A null_text st
              (free_slot_loop st.semaphore_list max_semaphores 0)
              name
              (pos_part value)))
  unfolding open_at
  open_at-TakesSlot st name value free =
      elim (free_slot_loop-First st.semaphore_list max_semaphores 0 max_semaphores refl) [
        | inl (full, all) ↦
            rw full (inl (all, ap (λ (s : Sems Heap). some (minus1, s)) (unlocked-same st free)))
        | inr (i, found, first) ↦ rw found (
            inr (
              i,
              first,
              elim (ℕ_discrete (malloc (strlen name + 1) st.heap).0 0) [
                | yes null ↦ inl (open_at-null st name value i null)
                | no memory ↦ inr (open_at-Opened st name value i memory)
              ],
            ))
      ]

  -- With the global lock free and no semaphore of the name below the number of open ones, sem_open returns
  -- the error of too many if 15 or more are open, the error of a bad value if the value is negative, or -1
  -- if all 255 slots are in use, and changes nothing in these cases. Otherwise it takes the first unused
  -- slot: without memory for the name it returns -1, and the slot's name is NULL; with memory it returns
  -- the slot, which then holds the name, the value and the caller alone with its lock free, and one more
  -- semaphore is open. No other slot and nothing of the scheduler changes, and the global lock is free.
  pub sem_open-Opens :
      (st : Sems Heap) (name : Text) (value : ℤ)
      → st.lock ≡ 1
      → sem_get st name ≡ minus1
      → Opens st name value (sem_open A null_text st (some name) value)
  unfolding sem_open open_new eq_ℤ
  sem_open-Opens st name value free unknown =
      rw (unknown, acquire-free st.lock free)
        (elim (Bool-cases (leb max_processes st.active)) [
          | inl many ↦ rw many (
              inl (
                ground (arith, many),
                ap (λ (s : Sems Heap). some (max_sems_error, s)) (unlocked-same st free),
              ))
          | inr few ↦ rw few (
              inr (
                ground (arith, few),
                elim (Bool-cases (ltb_ℤ value (pos 0))) [
                  | inl negative ↦ rw negative (
                      inl (
                        refl,
                        ap (λ (s : Sems Heap). some (invalid_value_error, s))
                            (unlocked-same st free),
                      ))
                  | inr nonneg ↦ rw nonneg (inr (refl, open_at-TakesSlot st name value free))
                ],
              ))
        ])
