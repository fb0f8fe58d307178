-- ===== src/Pipe/Open.antt =====
-- `open_pipe` and `close_pipe` of Kernel/pipes/pipe.c.
use tp2_sistemas_operativos.Base.{
  ℕ, ◌+◌, ◌||◌, false, Option, none, some, ℤ, pos, minus1, ltb_ℤ, eq_ℤ, ◌+ℤ◌, ◌-ℤ◌, to_u32, ◌==◌,
  if◌then◌else◌, ◌>>=◌,
}
use tp2_sistemas_operativos.Alloc.{Allocator}
use tp2_sistemas_operativos.Text.{Text}
use tp2_sistemas_operativos.Sem.{Sems}
use tp2_sistemas_operativos.Sem.Open.{sem_open, sem_close}
use tp2_sistemas_operativos.Pipe.{
  Pipes, set_pipe, find_available_pipe, find_pipe, create_sem_name, semwrite, semread, text_of,
  address_of, invalid_pipe, no_space, pipe_size, max_sem_length,
}

module _ (A : Allocator) (null_text : Text) where
  open A use {Heap, malloc, free}

  -- `malloc` and `free` on the heap that the semaphores carry.
  unfoldable pub alloc : Pipes Heap → ℕ → ℕ × Pipes Heap
  alloc st n =
      let (at, heap) = malloc n st.sems.heap in
      (at, record st { sems = record (st.sems) { heap = heap } })

  unfoldable pub release_block : Pipes Heap → ℕ → Pipes Heap
  release_block st at = record st { sems = record (st.sems) { heap = free at st.sems.heap } }

  unfoldable pub with_sems : Pipes Heap → Sems Heap → Pipes Heap
  with_sems st sems = record st { sems = sems }

  -- The last part of the creation: the semaphores are open.
  unfoldable pub create_buffer : Pipes Heap → ℤ → ℤ → ℤ → ℤ → Text × ℕ → Text × ℕ → ℤ × Pipes Heap
  create_buffer st id at sem_write sem_read write_name read_name =
      let (buffer, st') = alloc st pipe_size in
      let failed = set_pipe st' at (record (st'.pipe_list at) { pipe_at = buffer }) in
      if buffer == 0
      then (
        no_space,
        release_block (release_block (release_block failed read_name.1) write_name.1) buffer,
      )
      else (
        id,
        record (set_pipe st' at (record (st'.pipe_list at) {
          pipe_id = to_u32 id;
          read_sem = sem_read;
          write_sem = sem_write;
          read_sem_name = some read_name;
          write_sem_name = some write_name;
          write_pos = 0;
          read_pos = 0;
          pipe_at = buffer;
          amount = 0;
          eof = false;
          interested_processes = pos 1;
        })) { active_pipes = st'.active_pipes +ℤ pos 1 },
      )

  -- The two semaphores of a new pipe. Both are opened, also if the first fails.
  unfoldable pub create_sems : Pipes Heap → ℤ → ℤ → ℕ → ℕ → Option (ℤ × Pipes Heap)
  create_sems st id at write_at read_at = do
    (sem_write, sems) ←
        sem_open A null_text st.sems (some (create_sem_name id semwrite)) (pos pipe_size)
    (sem_read, sems') ← sem_open A null_text sems (some (create_sem_name id semread)) (pos 0)
    (if ltb_ℤ sem_write (pos 0) || ltb_ℤ sem_read (pos 0)
        then some (minus1, with_sems st sems')
        else some (
            create_buffer (with_sems st sems') id at sem_write sem_read
              (create_sem_name id semwrite, write_at) (create_sem_name id semread, read_at)))

  -- `open_pipe(0)`. If the first `malloc` fails, the source frees `bufR`, which it has not set.
  unfoldable pub create_pipe : Pipes Heap → Option (ℤ × Pipes Heap)
  create_pipe st =
      let (id, st') = find_available_pipe st in
      let at = find_pipe st' (to_u32 id) in
      if ltb_ℤ id (pos 0) || ltb_ℤ at (pos 0)
      then some (minus1, st')
      else (let (write_at, st1) = alloc st' (max_sem_length + 1) in
          let (read_at, st2) = alloc st1 (max_sem_length + 1) in
          if write_at == 0
          then none
          else if read_at == 0
          then some (minus1, release_block (release_block st2 0) write_at)
          else create_sems st2 id at write_at read_at)

  unfoldable pub join_pipe : Pipes Heap → ℕ → ℤ → Option (ℤ × Pipes Heap)
  join_pipe st id at = do
    (read_code, sems) ←
        sem_open A null_text st.sems (text_of (st.pipe_list at).read_sem_name) (pos 1)
    (if ltb_ℤ read_code (pos 0) then some (no_space, with_sems st sems) else (do
      (write_code, sems') ←
          sem_open A null_text sems (text_of (st.pipe_list at).write_sem_name) (pos 1)
      (if ltb_ℤ write_code (pos 0)
          then some (no_space, with_sems st sems')
          else some (
            pos id,
            set_pipe (with_sems st sems') at (record (st.pipe_list at) {
              interested_processes = (st.pipe_list at).interested_processes +ℤ pos 1;
            }),
          ))))

  unfoldable pub open_pipe : Pipes Heap → ℕ → Option (ℤ × Pipes Heap)
  open_pipe st id =
      let at = find_pipe st id in
      if id == 0
      then create_pipe st
      else if ltb_ℤ at (pos 0)
      then some (invalid_pipe, st)
      else join_pipe st id at

  -- The last process has left the pipe.
  unfoldable pub clear_pipe : Pipes Heap → ℤ → Pipes Heap
  clear_pipe st at =
      let p = st.pipe_list at in
      let freed =
        release_block (release_block (release_block st p.pipe_at) (address_of p.read_sem_name))
          (address_of p.write_sem_name) in
      record (set_pipe freed at (record p {
        read_sem = pos 0;
        write_sem = pos 0;
        pipe_id = 0;
        write_pos = 0;
        read_pos = 0;
        amount = 0;
        pipe_at = 0;
      })) { active_pipes = st.active_pipes -ℤ pos 1 }

  -- The codes that the two calls of `sem_close` return are not used.
  unfoldable pub close_pipe : Pipes Heap → ℕ → Option (ℤ × Pipes Heap)
  close_pipe st id =
      let at = find_pipe st id in
      let p = st.pipe_list at in
      let closed = sem_close A null_text st.sems p.read_sem >>= λ first.
      sem_close A null_text first.1 p.write_sem >>= λ second.
      (let left = p.interested_processes -ℤ pos 1 in
        let st' = set_pipe (with_sems st second.1) at (record p { interested_processes = left }) in
        some (pos 0, if eq_ℤ left (pos 0) then clear_pipe st' at else st')) in
      if eq_ℤ at invalid_pipe then some (invalid_pipe, st) else closed
