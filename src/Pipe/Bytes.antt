-- ===== src/Pipe/Bytes.antt =====
-- One round of the loops of `write_to_pipe` and `read_from_pipe`, Kernel/pipes/pipe.c: a byte goes in
-- or out, and the pipe's two semaphores count the free and the full places.
use tp2_sistemas_operativos.Base.{
  ℕ, zero, suc, ◌+◌, ◌-◌, ◌%◌, ◌^◌, ◌≤◌, ◌<◌, ◌≡◌, ◌≢◌, ◌∙◌, sym, refl, ap, false, some, arith,
  List, [], ◌∷◌, ◌++◌, ℤ, pos, eq_ℤ, eq_ℤ_symm, update, update_self, update_other, update_at,
}
use tp2_sistemas_operativos.Sched.Control.{get_pid}
use tp2_sistemas_operativos.Sem.{Sems, Semaphore, returned, sem_wait, sem_post}
use tp2_sistemas_operativos.Sem.Calls.{
  CanUse, Keeps-CanUse, sem_wait-Passes, sem_post-member, woken-pid,
}
use tp2_sistemas_operativos.Sem.Counting.{value_of}
use tp2_sistemas_operativos.Pipe.Queue.{stored, stored-mod, stored-write}
use tp2_sistemas_operativos.Pipe.{Pipe, Pipes, set_pipe, take_byte, put_byte, pipe_size}

-- The bytes of the pipe at a slot, in the order in which they will be read.
abbrev pub contents : {H : Type 0} → Pipes H → ℤ → List ℕ
contents st at = let p = st.pipe_list at in stored p.bytes p.read_pos p.amount

-- A pipe that is open for the running process, between two rounds of a transfer.
pub record IsSound {H : Type 0} (st : Pipes H) (at : ℤ) : Type 0 where
  pub read_in : (st.pipe_list at).read_pos < pipe_size
  pub write_at :
      (st.pipe_list at).write_pos
      ≡ ((st.pipe_list at).read_pos + (st.pipe_list at).amount) % pipe_size
  pub amount_le : (st.pipe_list at).amount ≤ pipe_size
  pub full_places : value_of st.sems (st.pipe_list at).read_sem ≡ (st.pipe_list at).amount
  pub free_places :
      value_of st.sems (st.pipe_list at).write_sem + (st.pipe_list at).amount ≡ pipe_size
  pub distinct : eq_ℤ (st.pipe_list at).write_sem (st.pipe_list at).read_sem ≡ false
  pub may_read : CanUse st.sems (st.pipe_list at).read_sem
  pub may_write : CanUse st.sems (st.pipe_list at).write_sem

-- What stays of the pipes when bytes go through the one at `at`: all but its positions, bytes and amount.
pub record SamePipe {H : Type 0} (st : Pipes H) (at : ℤ) (st' : Pipes H) : Type 0 where
  pub same_id : (st'.pipe_list at).pipe_id ≡ (st.pipe_list at).pipe_id
  pub same_semaphores :
      ((st'.pipe_list at).read_sem ≡ (st.pipe_list at).read_sem)
      × ((st'.pipe_list at).write_sem ≡ (st.pipe_list at).write_sem)
  pub same_names :
      ((st'.pipe_list at).read_sem_name ≡ (st.pipe_list at).read_sem_name)
      × ((st'.pipe_list at).write_sem_name ≡ (st.pipe_list at).write_sem_name)
  pub same_address : (st'.pipe_list at).pipe_at ≡ (st.pipe_list at).pipe_at
  pub same_users : (st'.pipe_list at).interested_processes ≡ (st.pipe_list at).interested_processes
  pub same_eof : (st'.pipe_list at).eof ≡ (st.pipe_list at).eof
  pub others : (k : ℤ) → eq_ℤ at k ≡ false → st'.pipe_list k ≡ st.pipe_list k
  pub actives : st'.active_pipes ≡ st.active_pipes

-- A wait on one semaphore that passes, then a post on another one.
module _ {H : Type 0} (sems : Sems H) (waits posts : ℤ) (rsp : ℕ) where
  pub record Handover : Type 0 where
    pub between : Sems H
    pub final : Sems H
    pub waited : sem_wait sems waits rsp ≡ some (returned (pos 0), between)
    pub posted : sem_post between posts ≡ some (pos 0, final)
    pub taken : value_of final waits + 1 ≡ value_of sems waits
    pub given : value_of final posts ≡ value_of sems posts + 1
    pub can_wait : CanUse final waits
    pub can_post : CanUse final posts

  handover :
      CanUse sems waits
      → CanUse sems posts
      → eq_ℤ waits posts ≡ false
      → value_of sems waits ≢ 0
      → Handover
  handover cw cp ne v =
      let (s1, waited, keep1, less, _, sched1) = sem_wait-Passes sems waits rsp cw v in
      let pid1 = ap get_pid sched1 in
      let cw1 = Keeps-CanUse sems s1 waits waits keep1 pid1 cw in
      let cp1 = Keeps-CanUse sems s1 waits posts keep1 pid1 cp in
      let (s2, done, keep2, more, _, sched2) = sem_post-member s1 posts cp1 in
      let pid2 = ap get_pid sched2 ∙ woken-pid s1.sched (s1.semaphore_list posts).waiting in
      record {
        between = s1;
        final = s2;
        waited = waited;
        posted = done;
        taken =
            ap (λ (s : Semaphore). s.sem_value + 1)
              (keep2.others waits (eq_ℤ_symm posts waits ∙ ne))
            ∙ less;
        given = more ∙ ap (λ (s : Semaphore). s.sem_value + 1) (keep1.others posts ne);
        can_wait = Keeps-CanUse s1 s2 posts waits keep2 pid2 cw1;
        can_post = Keeps-CanUse s1 s2 posts posts keep2 pid2 cp1;
      }

module _ {H : Type 0} (st : Pipes H) (at : ℤ) (rsp : ℕ) (v : IsSound st at) where
  put_handover :
      (st.pipe_list at).amount < pipe_size
      → Handover st.sems (st.pipe_list at).write_sem (st.pipe_list at).read_sem rsp
  put_handover room =
      handover st.sems _ _ rsp v.may_write v.may_read v.distinct (λ e. omega (arith, v.free_places))

  take_handover :
      (st.pipe_list at).amount ≢ 0
      → Handover st.sems (st.pipe_list at).read_sem (st.pipe_list at).write_sem rsp
  take_handover some_bytes =
      handover st.sems _ _ rsp v.may_read v.may_write
        (eq_ℤ_symm (st.pipe_list at).read_sem (st.pipe_list at).write_sem ∙ v.distinct)
        (λ e. some_bytes (sym v.full_places ∙ e))

  put_pipe : ℕ → Pipe
  put_pipe byte =
      let p = st.pipe_list at in
      record p {
        bytes = update_at p.bytes p.write_pos byte;
        write_pos = (p.write_pos + 1) % 1024;
        amount = (p.amount + 1) % 2 ^ 32;
      }

  put_state : ℕ → Sems H → Pipes H
  unfolding put_pipe
  put_state byte sems = record st {
    pipe_list = update st.pipe_list at (put_pipe byte);
    sems = sems;
  }

  put_byte-state :
      (byte : ℕ) (s1 s2 : Sems H)
      → sem_post s1 (st.pipe_list at).read_sem ≡ some (pos 0, s2)
      → put_byte (record st { sems = s1 }) at byte ≡ some (put_state byte s2)
  unfolding put_byte set_pipe put_state
  put_byte-state byte s1 s2 e = rw e

  put_state-pipe : (byte : ℕ) (sems : Sems H) → (put_state byte sems).pipe_list at ≡ put_pipe byte
  unfolding put_state
  put_state-pipe byte sems = update_self st.pipe_list at (put_pipe byte)

  put_state-IsSound :
      (byte : ℕ) (room : (st.pipe_list at).amount < pipe_size)
      → IsSound (put_state byte (put_handover room).final) at
  unfolding put_state put_pipe
  put_state-IsSound byte room =
      let h = put_handover room in
      let e = put_state-pipe byte h.final in
      record {
        read_in = rw e (v.read_in);
        write_at = rw e (omega (arith, v.write_at, v.read_in, v.amount_le));
        amount_le = rw e (omega (arith, room));
        full_places = rw e (omega (arith, h.given, v.full_places, room));
        free_places = rw e (omega (arith, h.taken, v.free_places, room));
        distinct = rw e (v.distinct);
        may_read = rw e (h.can_post);
        may_write = rw e (h.can_wait);
      }

  put_state-contents :
      (byte : ℕ) (sems : Sems H)
      → (st.pipe_list at).amount < pipe_size
      → contents (put_state byte sems) at ≡ contents st at ++ (byte ∷ [])
  unfolding put_pipe
  put_state-contents byte sems room =
      let p = st.pipe_list at in
      let small : (p.amount + 1) % 2 ^ 32 ≡ p.amount + 1 = omega (arith, room) in
      rw (put_state-pipe byte sems, small)
        (stored-write p.bytes byte p.read_pos p.amount p.write_pos room v.write_at)

  put_state-SamePipe : (byte : ℕ) (sems : Sems H) → SamePipe st at (put_state byte sems)
  unfolding put_state put_pipe
  put_state-SamePipe byte sems = record {
    same_id = rw (put_state-pipe byte sems);
    same_semaphores = rw (put_state-pipe byte sems) (refl, refl);
    same_names = rw (put_state-pipe byte sems) (refl, refl);
    same_address = rw (put_state-pipe byte sems);
    same_users = rw (put_state-pipe byte sems);
    same_eof = rw (put_state-pipe byte sems);
    others = λ k ne. update_other st.pipe_list at k _ ne;
    actives = refl;
  }

  take_pipe : Pipe
  take_pipe =
      let p = st.pipe_list at in
      record p { read_pos = (p.read_pos + 1) % 1024; amount = (p.amount + 2 ^ 32 - 1) % 2 ^ 32 }

  take_state : Sems H → Pipes H
  unfolding take_pipe
  take_state sems = record st { pipe_list = update st.pipe_list at take_pipe; sems = sems }

  take_byte-state :
      (s1 s2 : Sems H)
      → sem_post s1 (st.pipe_list at).write_sem ≡ some (pos 0, s2)
      → take_byte (record st { sems = s1 }) at
        ≡ some ((st.pipe_list at).bytes (st.pipe_list at).read_pos, take_state s2)
  unfolding take_byte set_pipe take_state
  take_byte-state s1 s2 e = rw e

  take_state-pipe : (sems : Sems H) → (take_state sems).pipe_list at ≡ take_pipe
  unfolding take_state
  take_state-pipe sems = update_self st.pipe_list at take_pipe

  take_state-IsSound :
      (some_bytes : (st.pipe_list at).amount ≢ 0)
      → IsSound (take_state (take_handover some_bytes).final) at
  unfolding take_state take_pipe
  take_state-IsSound some_bytes =
      let h = take_handover some_bytes in
      let e = take_state-pipe h.final in
      record {
        read_in = rw e (omega arith);
        write_at = rw e (omega (arith, v.write_at, v.read_in, v.amount_le, some_bytes));
        amount_le = rw e (omega (arith, v.amount_le, some_bytes));
        full_places = rw e (omega (arith, h.taken, v.full_places, v.amount_le, some_bytes));
        free_places = rw e (omega (arith, h.given, v.free_places, v.amount_le, some_bytes));
        distinct = rw e (v.distinct);
        may_read = rw e (h.can_wait);
        may_write = rw e (h.can_post);
      }

  stored-pred :
      (bytes : ℕ → ℕ) (start n : ℕ)
      → n ≢ 0
      → stored bytes start n ≡ bytes (start % 1024) ∷ stored bytes (start + 1) (n - 1)
  stored-pred bytes start zero h = absurd (h refl)
  stored-pred bytes start (suc n) h =
      ap (λ k. bytes (start % 1024) ∷ stored bytes (start + 1) k) (omega arith)

  take_state-contents :
      (sems : Sems H)
      → (st.pipe_list at).amount ≢ 0
      → contents st at
        ≡ (st.pipe_list at).bytes (st.pipe_list at).read_pos ∷ contents (take_state sems) at
  unfolding take_pipe
  take_state-contents sems some_bytes =
      let p = st.pipe_list at in
      let less : (p.amount + 2 ^ 32 - 1) % 2 ^ 32 ≡ p.amount - 1 =
        omega (arith, v.amount_le, some_bytes) in
      let first : p.read_pos % 1024 ≡ p.read_pos = omega (arith, v.read_in) in
      rw (take_state-pipe sems, less, stored-pred p.bytes p.read_pos p.amount some_bytes, first)
        (ap (λ (l : List ℕ). p.bytes p.read_pos ∷ l)
          (stored-mod p.bytes (p.read_pos + 1) ((p.read_pos + 1) % 1024) (p.amount - 1)
            (omega arith)))

  take_state-SamePipe : (sems : Sems H) → SamePipe st at (take_state sems)
  unfolding take_state take_pipe
  take_state-SamePipe sems = record {
    same_id = rw (take_state-pipe sems);
    same_semaphores = rw (take_state-pipe sems) (refl, refl);
    same_names = rw (take_state-pipe sems) (refl, refl);
    same_address = rw (take_state-pipe sems);
    same_users = rw (take_state-pipe sems);
    same_eof = rw (take_state-pipe sems);
    others = λ k ne. update_other st.pipe_list at k _ ne;
    actives = refl;
  }

-- A round of `write_to_pipe` on a pipe that is not full: the wait passes and the byte goes in behind the
-- others.
pub record Wrote {H : Type 0} (st : Pipes H) (at : ℤ) (rsp byte : ℕ) : Type 0 where
  pub waited_sems : Sems H
  pub after : Pipes H
  pub waited :
      sem_wait st.sems (st.pipe_list at).write_sem rsp ≡ some (returned (pos 0), waited_sems)
  pub put : put_byte (record st { sems = waited_sems }) at byte ≡ some after
  pub sound : IsSound after at
  pub appended : contents after at ≡ contents st at ++ (byte ∷ [])
  pub same : SamePipe st at after

pub put_round :
    {H : Type 0} (st : Pipes H) (at : ℤ) (rsp byte : ℕ)
    → IsSound st at
    → (st.pipe_list at).amount < pipe_size
    → Wrote st at rsp byte
put_round st at rsp byte v room =
    let h = put_handover st at rsp v room in
    record {
      waited_sems = h.between;
      after = put_state st at rsp v byte h.final;
      waited = h.waited;
      put = put_byte-state st at rsp v byte h.between h.final h.posted;
      sound = put_state-IsSound st at rsp v byte room;
      appended = put_state-contents st at rsp v byte h.final room;
      same = put_state-SamePipe st at rsp v byte h.final;
    }

-- A round of `read_from_pipe` on a pipe that is not empty: the wait passes and the oldest byte comes out.
pub record Took {H : Type 0} (st : Pipes H) (at : ℤ) (rsp : ℕ) : Type 0 where
  pub waited_sems : Sems H
  pub byte : ℕ
  pub after : Pipes H
  pub waited :
      sem_wait st.sems (st.pipe_list at).read_sem rsp ≡ some (returned (pos 0), waited_sems)
  pub took : take_byte (record st { sems = waited_sems }) at ≡ some (byte, after)
  pub sound : IsSound after at
  pub first : contents st at ≡ byte ∷ contents after at
  pub same : SamePipe st at after

pub take_round :
    {H : Type 0} (st : Pipes H) (at : ℤ) (rsp : ℕ)
    → IsSound st at
    → (st.pipe_list at).amount ≢ 0
    → Took st at rsp
take_round st at rsp v some_bytes =
    let h = take_handover st at rsp v some_bytes in
    record {
      waited_sems = h.between;
      byte = (st.pipe_list at).bytes (st.pipe_list at).read_pos;
      after = take_state st at rsp v h.final;
      waited = h.waited;
      took = take_byte-state st at rsp v h.between h.final h.posted;
      sound = take_state-IsSound st at rsp v some_bytes;
      first = take_state-contents st at rsp v h.final some_bytes;
      same = take_state-SamePipe st at rsp v h.final;
    }
