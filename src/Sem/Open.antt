-- ===== src/Sem/Open.antt =====
-- `sem_open` and `sem_close` of Kernel/semaphores/semaphores.c.
use tp2_sistemas_operativos.Base.{
  ℕ, ◌+◌, ◌-◌, not, Option, none, some, [], ◌∷◌, ◌++◌, ℤ, pos, minus1, pos_part, ltb_ℤ, eq_ℤ, ltb,
  leb, ◌==◌, if◌then◌else◌, ◌>>=◌, length, max_processes,
}
use tp2_sistemas_operativos.Alloc.{Allocator}
use tp2_sistemas_operativos.Text.{Text, strlen, strcpy}
use tp2_sistemas_operativos.Sched.Control.{get_pid}
use tp2_sistemas_operativos.Sem.{
  Sems, acquire, release, remove_first, set_sem, grab_semaphore, release_sem, sem_get,
  free_slot_loop, is_interested, unlock, max_semaphores, max_sems_error, invalid_value_error,
}

module _ {H : Type 0} where
  -- The second half of `sem_open`: the semaphore is there, and the caller joins it.
  unfoldable pub join : Sems H → ℤ → Option (ℤ × Sems H)
  join st sem = do
    (code, st') ← grab_semaphore st sem
    (if not (eq_ℤ code (pos 0))
        then some (minus1, st')
        else if is_interested st' sem (get_pid st'.sched)
        then some (sem, release_sem st' sem)
        else if ltb (length (st'.semaphore_list sem).interested) max_processes
        then some (
          sem,
          release_sem
              (set_sem st' sem (record (st'.semaphore_list sem) {
                interested = (st'.semaphore_list sem).interested ++ (get_pid st'.sched ∷ []);
              }))
              sem,
        )
        else some (minus1, release_sem st' sem))

module _ (A : Allocator) (null_text : Text) where
  open A use {Heap, malloc, free}

  -- The slot is filled. What waits in it stays as it was.
  unfoldable pub fill : Sems Heap → ℕ → Text → ℕ → ℕ → Sems Heap
  fill st i name at value =
      record (set_sem st (pos i) (record (st.semaphore_list (pos i)) {
        name = strcpy name;
        name_at = at;
        sem_value = value;
        interested = get_pid st.sched ∷ [];
        lock = 1;
      })) { active = st.active + 1; lock = release }

  -- Without memory for the name, the slot's name is NULL.
  unfoldable pub open_at : Sems Heap → Option ℕ → Text → ℕ → ℤ × Sems Heap
  open_at st none name value = (minus1, unlock st)
  open_at st (some i) name value =
      let (at, heap) = malloc (strlen name + 1) st.heap in
      let st' = record st { heap = heap } in
      let nameless = record (st'.semaphore_list (pos i)) { name = null_text; name_at = 0 } in
      if at == 0
      then (minus1, unlock (set_sem st' (pos i) nameless))
      else (pos i, fill st' i name at value)

  -- The first half of `sem_open`: no semaphore has the name yet.
  unfoldable pub open_new : Sems Heap → Text → ℤ → Option (ℤ × Sems Heap)
  open_new st name value = do
    held ← acquire st.lock
    (if leb max_processes st.active
        then some (max_sems_error, unlock st)
        else if ltb_ℤ value (pos 0)
        then some (invalid_value_error, unlock st)
        else some
            (open_at st (free_slot_loop st.semaphore_list max_semaphores 0) name (pos_part value)))

  -- `none` is the name NULL.
  unfoldable pub sem_open : Sems Heap → Option Text → ℤ → Option (ℤ × Sems Heap)
  sem_open st none value = some (invalid_value_error, st)
  sem_open st (some name) value =
      if eq_ℤ (sem_get st name) minus1 then open_new st name value else join st (sem_get st name)

  -- The last process leaves: the name is freed, and the slot is free again.
  unfoldable pub close_last : Sems Heap → ℤ → Option (Sems Heap)
  close_last st sem = do
    held ← acquire st.lock
    (some
        (record (set_sem st sem (record (st.semaphore_list sem) {
          name = null_text;
          name_at = 0;
          sem_value = 0;
          interested = [];
        })) {
          active = st.active - 1;
          lock = release;
          heap = free (st.semaphore_list sem).name_at st.heap;
        }))

  unfoldable pub leave : Sems Heap → ℤ → Option (Sems Heap)
  leave st sem =
      if length (st.semaphore_list sem).interested == 1
      then close_last st sem
      else some (
          set_sem st sem (record (st.semaphore_list sem) {
            interested = remove_first (st.semaphore_list sem).interested (get_pid st.sched);
          }))

  unfoldable pub sem_close : Sems Heap → ℤ → Option (ℤ × Sems Heap)
  sem_close st sem = do
    (code, st') ← grab_semaphore st sem
    (if not (eq_ℤ code (pos 0))
        then some (invalid_value_error, st')
        else if is_interested st' sem (get_pid st'.sched)
        then (do st'' ← leave st' sem; some (pos 0, release_sem st'' sem))
        else some (minus1, release_sem st' sem))
