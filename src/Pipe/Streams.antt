-- ===== src/Pipe/Streams.antt =====
-- `write_to_pipe` and `read_from_pipe` of Kernel/pipes/pipe.c: which bytes go through, in which order.
use tp2_sistemas_operativos.Base.{
  ℕ, zero, suc, ◌+◌, ◌≤◌, ◌≡◌, ◌≢◌, ◌∙◌, sym, refl, ap, ap₂, Bool, true, false, Option, some, arith,
  List, [], ◌∷◌, ◌++◌, ℤ, pos, eq_ℤ, length, take, drop, length-append, ◌&&◌, ◌==◌,
}
use mathlib.Core.List.{append-nil, append_assoc}
use native.Mathlib.Nat.{add-zero, zero-add}
use tp2_sistemas_operativos.Sem.{returned}
use tp2_sistemas_operativos.Pipe.Queue.{length-stored}
use tp2_sistemas_operativos.Pipe.Bytes.{
  contents, IsSound, SamePipe, Wrote, put_round, Took, take_round,
}
use tp2_sistemas_operativos.Pipe.{
  Pipes, Transfer, find_pipe, read_loop, write_loop, read_from_pipe, write_to_pipe, pipe_size,
  invalid_pipe,
}

SamePipe-refl : {H : Type 0} (st : Pipes H) (at : ℤ) → SamePipe st at st
SamePipe-refl st at = record {
  same_id = refl;
  same_semaphores = (refl, refl);
  same_names = (refl, refl);
  same_address = refl;
  same_users = refl;
  same_eof = refl;
  others = λ k ne. refl;
  actives = refl;
}

SamePipe-trans :
    {H : Type 0} {s t u : Pipes H} {at : ℤ} → SamePipe s at t → SamePipe t at u → SamePipe s at u
SamePipe-trans p q = record {
  same_id = q.same_id ∙ p.same_id;
  same_semaphores =
      (q.same_semaphores.0 ∙ p.same_semaphores.0, q.same_semaphores.1 ∙ p.same_semaphores.1);
  same_names = (q.same_names.0 ∙ p.same_names.0, q.same_names.1 ∙ p.same_names.1);
  same_address = q.same_address ∙ p.same_address;
  same_users = q.same_users ∙ p.same_users;
  same_eof = q.same_eof ∙ p.same_eof;
  others = λ k ne. q.others k ne ∙ p.others k ne;
  actives = q.actives ∙ p.actives;
}

-- A finished transfer: its result, the bytes that it read, and what the pipe holds afterwards.
pub record Moves {H : Type 0} (st : Pipes H) (at : ℤ) (result : ℕ) (moved held : List ℕ)
    (m : Option (Transfer H)) : Type 0 where
  pub after : Pipes H
  pub left : ℕ
  pub ends :
      m
      ≡ some (record { outcome = returned (pos result); left = left; moved = moved; after = after })
  pub sound : IsSound after at
  pub holds : contents after at ≡ held
  pub same : SamePipe st at after

length-contents :
    {H : Type 0} (st : Pipes H) (at : ℤ) → length (contents st at) ≡ (st.pipe_list at).amount
length-contents st at = let p = st.pipe_list at in length-stored p.bytes p.read_pos p.amount

-- A round whose wait passes goes on with the bytes that are left.
write_step :
    {H : Type 0} (byte : ℕ) (src : List ℕ) (st : Pipes H) (at : ℤ) (rsp bytes : ℕ)
    → (w : Wrote st at rsp byte)
    → write_loop (byte ∷ src) st at rsp bytes ≡ write_loop src w.after at rsp bytes
unfolding write_loop
write_step byte src st at rsp bytes w = ground (arith, w.waited, w.put)

read_step :
    {H : Type 0} (n : ℕ) (st : Pipes H) (at : ℤ) (rsp : ℕ) (dest : List ℕ)
    → (st.pipe_list at).amount ≢ 0
    → (w : Took st at rsp)
    → read_loop (suc n) st at rsp dest ≡ read_loop n w.after at rsp (dest ++ (w.byte ∷ []))
unfolding read_loop
read_step n st at rsp dest h w = ground (arith, w.waited, w.took)

write_loop-Moves :
    {H : Type 0} (src : List ℕ) (st : Pipes H) (at : ℤ) (rsp bytes : ℕ)
    → IsSound st at
    → length src + length (contents st at) ≤ pipe_size
    → Moves st at bytes [] (contents st at ++ src) (write_loop src st at rsp bytes)
unfolding write_loop
write_loop-Moves [] st at rsp bytes v room = record {
  after = st;
  left = 0;
  ends = refl;
  sound = v;
  holds = sym (append-nil (contents st at));
  same = SamePipe-refl st at;
}
write_loop-Moves (byte ∷ src) st at rsp bytes v room =
    let w = put_round st at rsp byte v (omega (arith, room, length-contents st at)) in
    let longer = ap length w.appended ∙ length-append (contents st at) (byte ∷ []) in
    let m = write_loop-Moves src w.after at rsp bytes w.sound (omega (arith, longer, room)) in
    record {
      after = m.after;
      left = m.left;
      ends = write_step byte src st at rsp bytes w ∙ m.ends;
      sound = m.sound;
      holds =
          m.holds
          ∙ ap (λ (l : List ℕ). l ++ src) w.appended
          ∙ append_assoc (contents st at) (byte ∷ []) src;
      same = SamePipe-trans w.same m.same;
    }

found :
    {H : Type 0} (st : Pipes H) (id i : ℕ)
    → find_pipe st id ≡ pos i
    → eq_ℤ (find_pipe st id) invalid_pipe ≡ false
unfolding eq_ℤ
found st id i e = rw e

-- Bytes that fit into an open pipe are all written without a wait: the call returns their number, and
-- they stand behind the bytes that were there, in their order. The pipe's id, semaphores and their names,
-- the address of its bytes, its users and its flag, every other pipe and the number of pipes stay.
pub write_to_pipe-Moves :
    {H : Type 0} (st : Pipes H) (id i : ℕ) (src : List ℕ) (rsp : ℕ)
    → find_pipe st id ≡ pos i
    → IsSound st (pos i)
    → length src + length (contents st (pos i)) ≤ pipe_size
    → Moves st (pos i) (length src) [] (contents st (pos i) ++ src) (write_to_pipe st id src rsp)
unfolding write_to_pipe
write_to_pipe-Moves st id i src rsp e v room =
    rw (found st id i e, e) (write_loop-Moves src st (pos i) rsp (length src) v room)

not_eof : (eof : Bool) (n : ℕ) → n ≢ 0 → (eof && n == 0) ≡ false
not_eof true n h = ground arith
not_eof false n h = refl

read_more :
    {H : Type 0} (n : ℕ) (st : Pipes H) (at : ℤ) (rsp : ℕ) (dest : List ℕ)
    → (st.pipe_list at).amount ≢ 0
    → (w : Took st at rsp)
    → Moves w.after at
        (length (dest ++ (w.byte ∷ [])) + n)
        ((dest ++ (w.byte ∷ [])) ++ take n (contents w.after at))
        (drop n (contents w.after at))
        (read_loop n w.after at rsp (dest ++ (w.byte ∷ [])))
    → Moves st at
        (length dest + suc n)
        (dest ++ take (suc n) (contents st at))
        (drop (suc n) (contents st at))
        (read_loop (suc n) st at rsp dest)
read_more n st at rsp dest some_bytes w m =
    let count : length (dest ++ (w.byte ∷ [])) + n ≡ length dest + suc n =
      omega (arith, length-append dest (w.byte ∷ [])) in
    let bytes : (dest ++ (w.byte ∷ [])) ++ take n (contents w.after at)
        ≡ dest ++ take (suc n) (contents st at) =
      append_assoc dest (w.byte ∷ []) (take n (contents w.after at))
      ∙ ap (λ l. dest ++ take (suc n) l) (sym w.first) in
    record {
      after = m.after;
      left = m.left;
      ends =
          read_step n st at rsp dest some_bytes w
          ∙ m.ends
          ∙ ap₂
              (λ k l.
                some (record {
                  outcome = returned (pos k);
                  left = m.left;
                  moved = l;
                  after = m.after;
                }))
              count bytes;
      sound = m.sound;
      holds = m.holds ∙ ap (λ l. drop (suc n) l) (sym w.first);
      same = SamePipe-trans w.same m.same;
    }

read_loop-Moves :
    {H : Type 0} (n : ℕ) (st : Pipes H) (at : ℤ) (rsp : ℕ) (dest : List ℕ)
    → IsSound st at
    → n ≤ length (contents st at)
    → Moves st at
        (length dest + n)
        (dest ++ take n (contents st at))
        (drop n (contents st at))
        (read_loop n st at rsp dest)
unfolding read_loop
read_loop-Moves zero st at rsp dest v enough = record {
  after = st;
  left = 0;
  ends = rw (append-nil dest, add-zero);
  sound = v;
  holds = refl;
  same = SamePipe-refl st at;
}
read_loop-Moves (suc n) st at rsp dest v enough =
    let some_bytes : (st.pipe_list at).amount ≢ 0 = omega (arith, enough, length-contents st at) in
    let w = take_round st at rsp v some_bytes in
    read_more n st at rsp dest some_bytes w (
      read_loop-Moves n w.after at rsp (dest ++ (w.byte ∷ [])) w.sound
        (omega (arith, ap length w.first, enough)))

-- A read of no more bytes than an open pipe that is not empty holds returns their number without a wait. Its buffer has
-- the oldest bytes in their order, and the others stay.
pub read_from_pipe-Moves :
    {H : Type 0} (st : Pipes H) (id i n : ℕ) (rsp : ℕ)
    → find_pipe st id ≡ pos i
    → IsSound st (pos i)
    → n ≤ length (contents st (pos i))
    → (st.pipe_list (pos i)).amount ≢ 0
    → Moves st
        (pos i)
        n
        (take n (contents st (pos i)))
        (drop n (contents st (pos i)))
        (read_from_pipe st id n rsp)
unfolding read_from_pipe
read_from_pipe-Moves st id i n rsp e v enough some_bytes =
    rw
      (
        found st id i e,
        e,
        not_eof (st.pipe_list (pos i)).eof (st.pipe_list (pos i)).amount some_bytes,
      )
      (rw zero-add at (read_loop-Moves n st (pos i) rsp [] v enough))

take_self : (src : List ℕ) → take (length src) src ≡ src
take_self [] = refl
take_self (x ∷ src) = rw (take_self src)

drop_self : (src : List ℕ) → drop (length src) src ≡ []
drop_self [] = refl
drop_self (x ∷ src) = drop_self src

length-zero : (src : List ℕ) → length src ≡ 0 → src ≡ []
length-zero [] e = refl
length-zero (x ∷ src) e = absurd (omega arith)

find_pipe-same :
    {H : Type 0} (st st' : Pipes H) (id i : ℕ)
    → SamePipe st (pos i) st'
    → find_pipe st id ≡ pos i
    → find_pipe st' id ≡ pos i
unfolding find_pipe
find_pipe-same st st' id i same e = ground (arith, e, same.same_id)

-- What is written into an empty pipe comes out of it: after a write of some bytes that fit, a read of as
-- many returns their number and the same bytes, and leaves the pipe empty.
pub write-read :
    {H : Type 0} (st : Pipes H) (id i : ℕ) (src : List ℕ) (rsp rsp' : ℕ)
    → find_pipe st id ≡ pos i
    → IsSound st (pos i)
    → contents st (pos i) ≡ []
    → src ≢ []
    → length src ≤ pipe_size
    → (written : Pipes H) × (k : ℕ) × (write_to_pipe st id src rsp
        ≡ some (record {
          outcome = returned (pos (length src));
          left = k;
          moved = [];
          after = written;
        }))
      × Moves written (pos i) (length src) src [] (read_from_pipe written id (length src) rsp')
write-read st id i src rsp rsp' e v empty some_src room =
    let w = write_to_pipe-Moves st id i src rsp e v (omega (arith, room, ap length empty)) in
    let held : contents w.after (pos i) ≡ src = w.holds ∙ ap (λ (l : List ℕ). l ++ src) empty in
    let full = ap length held in
    let r =
      read_from_pipe-Moves w.after id i (length src) rsp' (find_pipe-same st w.after id i w.same e)
        w.sound (omega (arith, full))
        (λ z. some_src (length-zero src (sym full ∙ length-contents w.after (pos i) ∙ z))) in
    (
      w.after,
      w.left,
      w.ends,
      record {
        after = r.after;
        left = r.left;
        ends =
            r.ends
            ∙ ap
                (λ l. some (record {
                  outcome = returned (pos (length src));
                  left = r.left;
                  moved = l;
                  after = r.after;
                }))
                (ap (λ l. take (length src) l) held ∙ take_self src);
        sound = r.sound;
        holds = r.holds ∙ ap (λ l. drop (length src) l) held ∙ drop_self src;
        same = r.same;
      },
    )
