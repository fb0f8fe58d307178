-- ===== src/Keyboard.antt =====
-- Kernel/drivers/keyboardDriver.c: the buffer of keys that were typed, and the processes that wait for one.
-- A character is a byte; what is printed is left out. `Queue` has the buffer as a queue, `Bounds` what the
-- handler writes, and `Handler` what a key does.
pub mod Queue
pub mod Bounds
pub mod Handler
mod Tests
use tp2_sistemas_operativos.Base.{
  ℕ, zero, suc, ◌+◌, ◌-◌, ◌%◌, ◌*◌, Bool, true, false, ◌&&◌, ◌||◌, not, Option, none, some, List,
  [], ◌∷◌, ℤ, pos, ltb_ℤ, ltb, leb, ◌==◌, if◌then◌else◌, update_at, max_processes, get_or,
}
use tp2_sistemas_operativos.Alloc.{Allocator}
use tp2_sistemas_operativos.Sched.{Sched, yield}
use tp2_sistemas_operativos.Sched.Control.{block, unblock}
use tp2_sistemas_operativos.Proc.{Procs, sched_of, with_sched, is_foreground}
use tp2_sistemas_operativos.Proc.Kill.{kill_with_children}

abbrev pub buffer_size : ℕ
buffer_size = 1024

-- `EOF_CHAR`, -1 as a byte
abbrev pub eof_char : ℕ
eof_char = 255

-- The character of each scan code; behind these stand zeros.
abbrev pub keyboard : List ℕ
keyboard =
    0 ∷ 1 ∷ b'1' ∷ b'2' ∷ b'3' ∷ b'4' ∷ b'5' ∷ b'6' ∷ b'7' ∷ b'8' ∷ b'9' ∷ b'0' ∷ 39 ∷ b'<' ∷ 8 ∷ 9
    ∷ b'q' ∷ b'w' ∷ b'e' ∷ b'r' ∷ b't' ∷ b'y' ∷ b'u' ∷ b'i' ∷ b'o' ∷ b'p' ∷ 92 ∷ b'+' ∷ 10 ∷ 0
    ∷ b'a' ∷ b's' ∷ b'd' ∷ b'f' ∷ b'g' ∷ b'h' ∷ b'j' ∷ b'k' ∷ b'l' ∷ b';' ∷ b'{' ∷ b'|' ∷ 5 ∷ b'}'
    ∷ b'z' ∷ b'x' ∷ b'c' ∷ b'v' ∷ b'b' ∷ b'n' ∷ b'm' ∷ b',' ∷ b'.' ∷ b'-' ∷ 0 ∷ b'*' ∷ 0 ∷ b' ' ∷ 0
    ∷ 0 ∷ 0 ∷ 0 ∷ 0 ∷ 0 ∷ 0 ∷ 0 ∷ 0 ∷ 0 ∷ 0 ∷ 0 ∷ 0 ∷ 0 ∷ 17 ∷ 0 ∷ 0 ∷ 18 ∷ 0 ∷ 19 ∷ 0 ∷ 0 ∷ 20 ∷ 0
    ∷ []

-- The static variables. `buffer` from 1024 on is the memory behind the array, and `before_buffer` the byte
-- in front of it; `waiting_to_read` from 15 on is the memory behind that array.
pub record Keys : Type 0 where
  pub buffer : ℕ → ℕ
  pub before_buffer : ℕ
  pub write_index : ℕ
  pub read_index : ℕ
  pub last_index_flag : Bool
  pub ctrl_flag : Bool
  pub shift_flag : Bool
  pub caps_lock_flag : Bool
  pub waiting_to_read : ℕ → ℤ
  pub waiting_to_read_counter : ℕ

abbrev pub newline : ℕ
newline = 10

abbrev pub backspace : ℕ
backspace = 8

abbrev pub shift_pressed : ℕ
shift_pressed = 5

unfoldable pub is_alpha : ℕ → Bool
is_alpha c = leb b'a' c && leb c b'z'

unfoldable pub is_key_available : Keys → Bool
is_key_available k = not (k.buffer k.read_index == 0)

-- `buffer[i - 1]`
unfoldable pub buffer_before : Keys → ℕ → ℕ
buffer_before k i = if i == 0 then k.before_buffer else k.buffer (i - 1)

-- The caller blocks and gives the processor up.
unfoldable pub add_to_blocking_queue_read : Keys → Sched → ℤ → ℕ → Keys × (ℕ × Sched)
add_to_blocking_queue_read k s pid rsp = (
  record k {
    waiting_to_read = update_at k.waiting_to_read k.waiting_to_read_counter pid;
    waiting_to_read_counter = k.waiting_to_read_counter + 1;
  },
  yield (block s pid).1 rsp,
)

-- The loop moves each entry below the counter one place forward.
unfoldable pub shift_queue : (ℕ → ℤ) → ℕ → ℕ → ℤ
shift_queue q n i = if ltb i n then q (i + 1) else q i

unfoldable pub remove_from_blocking_queue : Keys → Sched → Keys × Sched
remove_from_blocking_queue k s = if k.waiting_to_read_counter == 0 then (k, s) else (
  record k {
    waiting_to_read = shift_queue k.waiting_to_read k.waiting_to_read_counter;
    waiting_to_read_counter = k.waiting_to_read_counter - 1;
  },
  (unblock s (k.waiting_to_read 0)).1,
)

-- Where the next character goes.
unfoldable pub write_place : Keys → ℕ
write_place k = if leb buffer_size k.write_index then 0 else k.write_index

unfoldable pub put_char : Keys → ℕ → Keys
put_char k c = record k {
  buffer = update_at k.buffer (write_place k) c;
  write_index = write_place k + 1;
  last_index_flag = true;
}

unfoldable pub add_to_buffer : Keys → Sched → ℕ → Keys × Sched
add_to_buffer k s c = remove_from_blocking_queue (put_char k c) s

-- `buffer[--writeIndex] = 0`. From index 0 the byte in front of the array would be written; the guard of
-- the caller is there to prevent it, and the index then stays at 0 here.
unfoldable pub erase_last : Keys → Keys
erase_last k = if k.write_index == 0 then record k { before_buffer = 0 } else record k {
  buffer = update_at k.buffer (k.write_index - 1) 0;
  write_index = k.write_index - 1;
}

unfoldable pub remove_char_from_buffer : Keys → Keys
unfolding erase_last
remove_char_from_buffer k = if ltb 1 k.write_index then erase_last (erase_last k) else k

unfoldable pub clean_buffer : Keys → Keys
clean_buffer k = record k {
  buffer = λ i. if ltb i k.write_index then 0 else k.buffer i;
  write_index = 0;
  read_index = 0;
}

unfoldable pub clean_read : Keys → Keys
clean_read k = record k { read_index = k.write_index }

unfoldable pub get_key_from_buffer : Keys → ℕ × Keys
get_key_from_buffer k =
    if is_key_available k
    then (
      k.buffer k.read_index,
      record k {
        buffer = update_at k.buffer k.read_index 0;
        read_index = (k.read_index + 1) % buffer_size;
      },
    )
    else (0, k)

-- The loop of `get_buffer`, with room for `room` more characters.
unfoldable pub get_buffer : Keys → ℕ → List ℕ × Keys
get_buffer k zero = ([], k)
get_buffer k (suc room) =
    let (c, taken) = get_key_from_buffer k in
    let (cs, done) = get_buffer taken room in if is_key_available k then (c ∷ cs, done) else ([], k)

unfoldable pub get_last_char : Keys → ℕ × Keys
get_last_char k =
    if k.last_index_flag
    then (buffer_before k k.write_index, record k { last_index_flag = false })
    else (0, k)

-- The two tests at the beginning of the handler: a line that has been read is forgotten.
unfoldable pub forget_line : Keys → Keys
forget_line k =
    let k' = if buffer_before k k.read_index == newline then clean_buffer k else k in
    if buffer_before k' k'.read_index == backspace then remove_char_from_buffer k' else k'

-- The `else` branches at the end of the handler.
unfoldable pub press : Keys → Sched → ℕ → ℕ → Keys × Sched
press k s code c =
    if code == 58
    then (record k { caps_lock_flag = not k.caps_lock_flag }, s)
    else if code == 170
    then (record k { shift_flag = false }, s)
    else if c == 0
    then (k, s)
    else if c == shift_pressed
    then (record k { shift_flag = true }, s)
    else if is_alpha c
        && ((k.caps_lock_flag && not k.shift_flag) || (not k.caps_lock_flag && k.shift_flag))
    then add_to_buffer k s (c - b'a' + b'A')
    else add_to_buffer k s c

-- How the handler ends: it returns, or it gives the processor up.
pub data Handled (H : Type 0) : Type 0 where
  handled : Keys → Procs H → Handled H
  yielded : Keys → ℕ → Procs H → Handled H

module _ {H : Type 0} where
  abbrev pub keys_of : Handled H → Keys
  keys_of (handled k st) = k
  keys_of (yielded k rsp st) = k

  -- What a change of the keys and the scheduler makes of the kernel.
  abbrev pub handled_by : Procs H → Keys × Sched → Handled H
  handled_by st (k, s) = handled k (with_sched st s)

  abbrev yield_by : Keys → Procs H → ℕ × Sched → Handled H
  yield_by k st (rsp, s) = yielded k rsp (with_sched st s)

-- Control and C: the first process in the foreground ends with its children, or the handler yields.
module _ (A : Allocator) where
  open A use {Heap}

  unfoldable pub interrupt_loop : Keys → Procs Heap → ℕ → ℕ → ℕ → Handled Heap
  interrupt_loop k st rsp zero i = yield_by k st (yield (sched_of st) rsp)
  interrupt_loop k st rsp (suc rest) i =
      let later = interrupt_loop k st rsp rest (i + 1) in
      if ltb_ℤ (pos 0) (is_foreground st (pos i))
      then handled k (kill_with_children A st (pos i)).1
      else later

  -- `code` is what `get_key` reads from the keyboard, and `rsp` the stack pointer.
  unfoldable pub keyboard_handler : Keys → Procs Heap → ℕ → ℕ → Handled Heap
  keyboard_handler k0 st code rsp =
      let k = forget_line k0 in
      let c = get_or keyboard code 0 in
      if code == 29
      then handled (record k { ctrl_flag = true }) st
      else if code == 157
      then handled (record k { ctrl_flag = false }) st
      else if k.ctrl_flag && (c == b'c' || c == b'C')
      then interrupt_loop (clean_buffer k) st rsp (max_processes - 1) 1
      else if k.ctrl_flag && (c == b'd' || c == b'D')
      then handled_by st (add_to_buffer k (sched_of st) eof_char)
      else handled_by st (press k (sched_of st) code c)
