-- ===== src/Pipe.antt =====
-- Kernel/pipes/pipe.c over the semaphores: the pipes, and moving bytes through them. `Open` has the
-- calls that open and close them. An operation is `none` where one of its semaphore calls is,
-- or where the source frees a pointer that it never set.
pub mod Open
pub mod Queue
pub mod Bytes
pub mod Streams
mod Tests
use tp2_sistemas_operativos.Base.{
  ℕ, zero, suc, ◌+◌, ◌-◌, ◌*◌, ◌%◌, ◌^◌, Bool, true, false, ◌&&◌, ◌||◌, not, Option, none, some,
  List, [], ◌∷◌, ◌++◌, ℤ, pos, negsuc, minus1, minus2, minus3, ltb_ℤ, eq_ℤ, ◌+ℤ◌, ◌-ℤ◌, to_u32, ltb,
  leb, ◌==◌, if◌then◌else◌, update, update_at, ◌>>=◌, length, drop,
}
use tp2_sistemas_operativos.Alloc.{Allocator}
use tp2_sistemas_operativos.Text.{Text, strcpy, strcat, int_to_str}
use tp2_sistemas_operativos.Sem.{Sems, Wait, returned, asleep, sem_wait, sem_wait_resume, sem_post}
use tp2_sistemas_operativos.Sem.Open.{sem_open, sem_close}

abbrev pub start_id : ℕ
start_id = 4

abbrev pub max_pipes : ℕ
max_pipes = 20

abbrev pub pipe_size : ℕ
pipe_size = 1024

abbrev pub max_sem_length : ℕ
max_sem_length = 16

abbrev pub invalid_pipe : ℤ
invalid_pipe = minus1

abbrev pub no_space : ℤ
no_space = minus2

abbrev pub pipe_error : ℤ
pipe_error = minus3

abbrev pub end_of_file : ℤ
end_of_file = minus1

-- `struct Pipe`. `pipe_at` is the address in the field `pipe`, and `bytes` what stands there; a name is
-- the text and its address, `none` for NULL.
pub record Pipe : Type 0 where
  pub pipe_id : ℕ
  pub read_sem : ℤ
  pub write_sem : ℤ
  pub read_sem_name : Option (Text × ℕ)
  pub write_sem_name : Option (Text × ℕ)
  pub write_pos : ℕ
  pub read_pos : ℕ
  pub pipe_at : ℕ
  pub bytes : ℕ → ℕ
  pub amount : ℕ
  pub eof : Bool
  pub interested_processes : ℤ

-- The static variables. `pipe_list` has 20 entries; at another index stands what the memory beside it
-- holds.
pub record Pipes (Heap : Type 0) : Type 0 where
  pub pipe_list : ℤ → Pipe
  pub active_pipes : ℤ
  pub sems : Sems Heap

-- The bytes of "semwrite" and "semread".
abbrev pub semwrite : Text
semwrite = b's' ∷ b'e' ∷ b'm' ∷ b'w' ∷ b'r' ∷ b'i' ∷ b't' ∷ b'e' ∷ []

abbrev pub semread : Text
semread = b's' ∷ b'e' ∷ b'm' ∷ b'r' ∷ b'e' ∷ b'a' ∷ b'd' ∷ []

unfoldable pub create_sem_name : ℤ → Text → Text
create_sem_name pipe_id sem = strcat (strcpy sem) (int_to_str pipe_id 10)

-- The loop of `find_available_pipe`.
unfoldable pub available_loop : (ℤ → Pipe) → ℕ → ℕ → Option ℕ
available_loop list zero i = none
available_loop list (suc left) i =
    let rest = available_loop list left (i + 1) in
    if (list (pos i)).pipe_id == 0 then some i else rest

abbrev pub text_of : Option (Text × ℕ) → Option Text
text_of none = none
text_of (some (text, at)) = some text

abbrev pub address_of : Option (Text × ℕ) → ℕ
address_of none = 0
address_of (some (text, at)) = at

-- What a transfer has come to: it returned a code, or its process sleeps in `sem_wait`, with `left`
-- bytes to go. `moved` are the bytes that a read has put into its buffer so far.
pub record Transfer (Heap : Type 0) : Type 0 where
  pub outcome : Wait
  pub left : ℕ
  pub moved : List ℕ
  pub after : Pipes Heap

module _ {H : Type 0} where
  unfoldable pub set_pipe : Pipes H → ℤ → Pipe → Pipes H
  set_pipe st at p = record st { pipe_list = update st.pipe_list at p }

  unfoldable pub find_available_pipe : Pipes H → ℤ × Pipes H
  find_available_pipe st =
      if eq_ℤ st.active_pipes (pos max_pipes)
      then (no_space, st)
      else elim (available_loop st.pipe_list max_pipes 0) [
        | none ↦ (no_space, st)
        | some i ↦ (
          pos (i + start_id),
          set_pipe st (pos i) (record (st.pipe_list (pos i)) { pipe_id = i + start_id }),
        )
      ]

  -- `id` is unsigned, and `id - START_ID` is not negative where it is used.
  unfoldable pub find_pipe : Pipes H → ℕ → ℤ
  find_pipe st id =
      if leb id 3 || not ((st.pipe_list (pos (id - start_id))).pipe_id == id)
      then invalid_pipe
      else pos (id - start_id)

  -- The amount, the id and the end-of-file flag, `none` for the result -1.
  unfoldable pub get_pipe_info : Pipes H → ℕ → Option (ℕ × ℕ × Bool)
  get_pipe_info st id =
      let p = st.pipe_list (find_pipe st id) in
      if ltb_ℤ (find_pipe st id) (pos 0) then none else some (p.amount, p.pipe_id, p.eof)

  unfoldable pub signal_eof : Pipes H → ℕ → ℤ × Pipes H
  signal_eof st id =
      let at = find_pipe st id in
      if ltb_ℤ at (pos 0)
      then (invalid_pipe, st)
      else (pos 0, set_pipe st at (record (st.pipe_list at) { eof = true }))

  -- The part of a round of `read_from_pipe` behind its `sem_wait`. The count is unsigned.
  unfoldable pub take_byte : Pipes H → ℤ → Option (ℕ × Pipes H)
  take_byte st at =
      let p = st.pipe_list at in
      let st' = set_pipe st at (record p {
        read_pos = (p.read_pos + 1) % 1024;
        amount = (p.amount + 2 ^ 32 - 1) % 2 ^ 32;
      }) in
      sem_post st'.sems p.write_sem >>= λ posted.
      some (p.bytes p.read_pos, record st' { sems = posted.1 })

  unfoldable pub put_byte : Pipes H → ℤ → ℕ → Option (Pipes H)
  put_byte st at byte =
      let p = st.pipe_list at in
      let st' = set_pipe st at (record p {
        bytes = update_at p.bytes p.write_pos byte;
        write_pos = (p.write_pos + 1) % 1024;
        amount = (p.amount + 1) % 2 ^ 32;
      }) in
      sem_post st'.sems p.read_sem >>= λ posted. some (record st' { sems = posted.1 })

  -- The loop of `read_from_pipe`, with `left` bytes to go. The code that `sem_wait` returns is not used.
  unfoldable pub read_loop : ℕ → Pipes H → ℤ → ℕ → List ℕ → Option (Transfer H)
  read_loop zero st at rsp dest =
      some (record { outcome = returned (pos (length dest)); left = 0; moved = dest; after = st })
  read_loop (suc left) st at rsp dest =
      elim ((st.pipe_list at).eof && (st.pipe_list at).amount == 0) [
        | true ↦ some (record {
          outcome = returned (pos (length dest));
          left = suc left;
          moved = dest;
          after = st;
        })
        | false ↦ elim (sem_wait st.sems (st.pipe_list at).read_sem rsp) [
          | none ↦ none
          | some (asleep to, sems) ↦ some (record {
            outcome = asleep to;
            left = suc left;
            moved = dest;
            after = record st { sems = sems };
          })
          | some (returned _, sems) ↦ elim (take_byte (record st { sems = sems }) at) [
            | none ↦ none
            | some (byte, st') ↦ read_loop left st' at rsp (dest ++ (byte ∷ []))
          ]
        ]
      ]

  unfoldable pub read_from_pipe : Pipes H → ℕ → ℕ → ℕ → Option (Transfer H)
  read_from_pipe st id bytes rsp =
      let at = find_pipe st id in
      let p = st.pipe_list at in
      if eq_ℤ at invalid_pipe
      then some (record { outcome = returned pipe_error; left = bytes; moved = []; after = st })
      else if p.eof && p.amount == 0
      then some (record { outcome = returned end_of_file; left = bytes; moved = []; after = st })
      else read_loop bytes st at rsp []

  -- The loop of `write_to_pipe` over the bytes of `src` that are left; `bytes` is its result.
  unfoldable pub write_loop : List ℕ → Pipes H → ℤ → ℕ → ℕ → Option (Transfer H)
  write_loop [] st at rsp bytes =
      some (record { outcome = returned (pos bytes); left = 0; moved = []; after = st })
  write_loop (byte ∷ src) st at rsp bytes =
      elim (sem_wait st.sems (st.pipe_list at).write_sem rsp) [
        | none ↦ none
        | some (asleep to, sems) ↦ some (record {
          outcome = asleep to;
          left = length (byte ∷ src);
          moved = [];
          after = record st { sems = sems };
        })
        | some (returned _, sems) ↦ elim (put_byte (record st { sems = sems }) at byte) [
          | none ↦ none
          | some st' ↦ write_loop src st' at rsp bytes
        ]
      ]

  unfoldable pub write_to_pipe : Pipes H → ℕ → List ℕ → ℕ → Option (Transfer H)
  write_to_pipe st id src rsp =
      let at = find_pipe st id in
      if eq_ℤ at invalid_pipe
      then some
          (record { outcome = returned pipe_error; left = length src; moved = []; after = st })
      else write_loop src st at rsp (length src)

  -- The rest of a round behind its `sem_wait`, and the rounds after it.
  unfoldable pub resume_writing : Pipes H → List ℕ → ℤ → ℕ → ℕ → Option (Transfer H)
  resume_writing st [] at rsp bytes =
      some (record { outcome = returned (pos bytes); left = 0; moved = []; after = st })
  resume_writing st (byte ∷ src) at rsp bytes = elim (put_byte st at byte) [
    | none ↦ none
    | some st' ↦ write_loop src st' at rsp bytes
  ]

  -- A read whose process was woken: the wait goes on, and then the loop.
  unfoldable pub read_resume : Transfer H → ℤ → ℤ → ℕ → Option (Transfer H)
  read_resume t at pid rsp =
      elim (sem_wait_resume t.after.sems (t.after.pipe_list at).read_sem pid rsp) [
        | none ↦ none
        | some (asleep to, sems) ↦
            some (record t { outcome = asleep to; after = record (t.after) { sems = sems } })
        | some (returned _, sems) ↦ elim (take_byte (record (t.after) { sems = sems }) at) [
          | none ↦ none
          | some (byte, st') ↦ read_loop (t.left - 1) st' at rsp (t.moved ++ (byte ∷ []))
        ]
      ]

  -- A write whose process was woken. `src` is its whole text, of which the last `left` bytes are to go.
  unfoldable pub write_resume : Transfer H → List ℕ → ℤ → ℤ → ℕ → Option (Transfer H)
  write_resume t src at pid rsp =
      elim (sem_wait_resume t.after.sems (t.after.pipe_list at).write_sem pid rsp) [
        | none ↦ none
        | some (asleep to, sems) ↦
            some (record t { outcome = asleep to; after = record (t.after) { sems = sems } })
        | some (returned _, sems) ↦
            resume_writing (record (t.after) { sems = sems }) (drop (length src - t.left) src) at
              rsp (length src)
      ]
