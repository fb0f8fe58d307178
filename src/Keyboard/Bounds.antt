-- ===== src/Keyboard/Bounds.antt =====
-- What keyboard_handler of Kernel/drivers/keyboardDriver.c writes stays inside its buffer.
use tp2_sistemas_operativos.Base.{
  ℕ, zero, suc, ◌+◌, ◌-◌, ◌≤◌, ◌≡◌, refl, ap, ◌∙◌, arith, ◌&&◌, ◌||◌, not, pos, ltb_ℤ, ◌==◌,
  if◌then◌else◌, if_both, update_at, get_or, max_processes,
}
use tp2_sistemas_operativos.Alloc.{Allocator}
use tp2_sistemas_operativos.Sched.{Sched}
use tp2_sistemas_operativos.Proc.{Procs, sched_of, is_foreground}
use tp2_sistemas_operativos.Keyboard.{
  Keys, Handled, keyboard, newline, backspace, shift_pressed, is_alpha, eof_char, buffer_before,
  remove_from_blocking_queue, write_place, put_char, add_to_buffer, remove_char_from_buffer,
  clean_buffer, forget_line, press, keys_of, interrupt_loop, keyboard_handler,
}

pub record Inside (k k' : Keys) : Type 0 where
  pub writer : k'.write_index ≤ 1024
  pub behind : (i : ℕ) → 1024 ≤ i → k'.buffer i ≡ k.buffer i
  pub front : k'.before_buffer ≡ k.before_buffer

-- A step that moves nothing in the buffer.
Inside-kept :
    (k k' : Keys)
    → k'.write_index ≡ k.write_index
    → k'.buffer ≡ k.buffer
    → k'.before_buffer ≡ k.before_buffer
    → k.write_index ≤ 1024
    → Inside k k'
Inside-kept k k' w b f le = record {
  writer = omega (arith, w, le);
  behind = λ i h. ap (λ g. g i) b;
  front = f;
}

Inside-same : (k : Keys) → k.write_index ≤ 1024 → Inside k k
Inside-same k le = record { writer = le; behind = λ i h. refl; front = refl }

Inside-trans : (k1 k2 k3 : Keys) → Inside k1 k2 → Inside k2 k3 → Inside k1 k3
Inside-trans k1 k2 k3 a b = record {
  writer = b.writer;
  behind = λ i h. b.behind i h ∙ a.behind i h;
  front = b.front ∙ a.front;
}

clean_buffer-Inside : (k : Keys) → k.write_index ≤ 1024 → Inside k (clean_buffer k)
unfolding clean_buffer
clean_buffer-Inside k le = record {
  writer = omega arith;
  behind = λ i h. ground arith;
  front = refl;
}

remove_char-Inside : (k : Keys) → k.write_index ≤ 1024 → Inside k (remove_char_from_buffer k)
unfolding remove_char_from_buffer update_at
remove_char-Inside k le = record {
  writer = ground arith;
  behind = λ i h. ground arith;
  front = ground arith;
}

add_to_buffer-Inside :
    (k : Keys) (s : Sched) (c : ℕ) → k.write_index ≤ 1024 → Inside k (add_to_buffer k s c).0
unfolding add_to_buffer remove_from_blocking_queue put_char write_place update_at
add_to_buffer-Inside k s c le = record {
  writer = ground arith;
  behind = λ i h. ground arith;
  front = ground arith;
}

forget_line-Inside : (k : Keys) → k.write_index ≤ 1024 → Inside k (forget_line k)
unfolding forget_line
forget_line-Inside k le =
    let first : Inside k (if buffer_before k k.read_index == newline then clean_buffer k else k) =
      if_both (Inside k) (buffer_before k k.read_index == newline) (clean_buffer k) k
        (clean_buffer-Inside k le) (Inside-same k le) in
    let k' = if buffer_before k k.read_index == newline then clean_buffer k else k in
    if_both (Inside k) (buffer_before k' k'.read_index == backspace) (remove_char_from_buffer k') k'
      (Inside-trans k k' (remove_char_from_buffer k') first (remove_char-Inside k' first.writer))
      first

press-Inside :
    (k : Keys) (s : Sched) (code c : ℕ) → k.write_index ≤ 1024 → Inside k (press k s code c).0
unfolding press
press-Inside k s code c le =
    let good = λ (r : Keys × Sched). Inside k r.0 in
    if_both good (code == 58) _ _ (Inside-kept k _ refl refl refl le) (
      if_both good (code == 170) _ _ (Inside-kept k _ refl refl refl le) (
        if_both good (c == 0) _ _ (Inside-same k le) (
          if_both good (c == shift_pressed) _ _ (Inside-kept k _ refl refl refl le) (
            if_both good
              (is_alpha c
                && ((k.caps_lock_flag && not k.shift_flag)
                    || (not k.caps_lock_flag && k.shift_flag)))
              _ _ (add_to_buffer-Inside k s (c - b'a' + b'A') le)
              (add_to_buffer-Inside k s c le)))))

module _ (A : Allocator) where
  open A use {Heap}

  interrupt-keys :
      (k : Keys) (st : Procs Heap) (rsp rest i : ℕ) → keys_of (interrupt_loop A k st rsp rest i) ≡ k
  unfolding interrupt_loop
  interrupt-keys k st rsp zero i = refl
  interrupt-keys k st rsp (suc rest) i =
      if_both (λ (r : Handled Heap). keys_of r ≡ k) (ltb_ℤ (pos 0) (is_foreground st (pos i))) _ _
        refl (interrupt-keys k st rsp rest (i + 1))

  interrupt-Inside :
      (k : Keys) (st : Procs Heap) (rsp : ℕ)
      → k.write_index ≤ 1024
      → Inside k (keys_of (interrupt_loop A (clean_buffer k) st rsp (max_processes - 1) 1))
  interrupt-Inside k st rsp le =
      rw (interrupt-keys (clean_buffer k) st rsp (max_processes - 1) 1) (clean_buffer-Inside k le)

  -- If the write index is at most 1024, then whatever key comes, the handler leaves it at most 1024 and
  -- writes no byte in front of the buffer or behind it.
  pub keyboard_handler-Inside :
      (k : Keys) (st : Procs Heap) (code rsp : ℕ)
      → k.write_index ≤ 1024
      → Inside k (keys_of (keyboard_handler A k st code rsp))
  unfolding keyboard_handler
  keyboard_handler-Inside k st code rsp le =
      let k1 = forget_line k in
      let c = get_or keyboard code 0 in
      let first = forget_line-Inside k le in
      let good = λ (r : Handled Heap). Inside k1 (keys_of r) in
      let s = sched_of st in
      Inside-trans k k1 (keys_of (keyboard_handler A k st code rsp)) first (
        if_both good (code == 29) _ _ (Inside-kept k1 _ refl refl refl first.writer) (
          if_both good (code == 157) _ _ (Inside-kept k1 _ refl refl refl first.writer) (
            if_both good (k1.ctrl_flag && (c == b'c' || c == b'C')) _ _
              (interrupt-Inside k1 st rsp first.writer)
              (if_both good (k1.ctrl_flag && (c == b'd' || c == b'D')) _ _
                (add_to_buffer-Inside k1 s eof_char first.writer)
                (press-Inside k1 s code c first.writer)))))
