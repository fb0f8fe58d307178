-- ===== src/Keyboard/Queue.antt =====
-- The buffer of Kernel/drivers/keyboardDriver.c as a queue of characters.
use tp2_sistemas_operativos.Base.{
  ℕ, zero, suc, ◌+◌, ◌%◌, ◌<◌, ◌≤◌, ◌≡◌, ◌≢◌, refl, sym, ap, ◌∙◌, arith, true, false, not, List, [],
  ◌∷◌, ◌++◌, ◌==◌, update_at, update_at_other, length, length-append, take, drop, get_or, if_both,
  Bool-cases, inl, inr,
}
use tp2_sistemas_operativos.Sched.{Sched}
use tp2_sistemas_operativos.Text.Compare.{IsText}
use tp2_sistemas_operativos.Pipe.Queue.{stored, stored-write, stored_other, stored-mod}
use tp2_sistemas_operativos.Keyboard.{
  Keys, is_key_available, remove_from_blocking_queue, write_place, put_char, add_to_buffer,
  get_key_from_buffer, get_buffer, clean_read, buffer_size,
}

-- The characters that have been typed and not read, the oldest first. All other places are blank.
pub record Holds (k : Keys) (cs : List ℕ) : Type 0 where
  pub content : stored k.buffer k.read_index (length cs) ≡ cs
  pub reader : k.read_index < 1024
  pub writer : k.write_index ≤ 1024
  pub between : k.write_index % 1024 ≡ (k.read_index + length cs) % 1024
  pub blank : (j : ℕ) → length cs ≤ j → j < 1024 → k.buffer ((k.read_index + j) % 1024) ≡ 0
  pub room : length cs < 1024
  pub text : IsText cs

IsText-snoc : (cs : List ℕ) (c : ℕ) → IsText cs → c ≢ 0 → IsText (cs ++ (c ∷ []))
IsText-snoc [] c t h = (h, t)
IsText-snoc (d ∷ cs) c t h = (t.0, IsText-snoc cs c t.1 h)

length_snoc : (cs : List ℕ) (c : ℕ) → length (cs ++ (c ∷ [])) ≡ length cs + 1
length_snoc cs c = length-append cs (c ∷ [])

pub write_place-mod : (k : Keys) → k.write_index ≤ 1024 → write_place k ≡ k.write_index % 1024
unfolding write_place
write_place-mod k le = ground arith

put_char-Holds :
    (k : Keys) (cs : List ℕ) (c : ℕ)
    → c ≢ 0
    → length cs + 1 < 1024
    → Holds k cs
    → Holds (put_char k c) (cs ++ (c ∷ []))
unfolding put_char
put_char-Holds k cs c h more holds =
    let len = length_snoc cs c in
    let at : write_place k ≡ (k.read_index + length cs) % 1024 =
      write_place-mod k holds.writer ∙ holds.between in
    record {
      content =
          ap (stored (update_at k.buffer (write_place k) c) k.read_index) len
          ∙ stored-write k.buffer c k.read_index (length cs) (write_place k) holds.room at
          ∙ ap (λ ds. ds ++ (c ∷ [])) holds.content;
      reader = holds.reader;
      writer = omega (arith, at);
      between = omega (arith, at, len);
      blank = λ j lo hi.
          let old = holds.blank j (omega (arith, len)) hi in
          let apart : (k.read_index + j) % 1024 ≢ write_place k = λ e. omega (arith, at, e, len) in
          update_at_other k.buffer (write_place k) c _ apart ∙ old;
      room = omega (arith, len);
      text = IsText-snoc cs c holds.text h;
    }

-- Waking a process does not touch the buffer.
woken-Holds :
    (k : Keys) (s : Sched) (cs : List ℕ) → Holds k cs → Holds (remove_from_blocking_queue k s).0 cs
unfolding remove_from_blocking_queue
woken-Holds k s cs holds =
    if_both (λ (r : Keys × Sched). Holds r.0 cs) (k.waiting_to_read_counter == 0) (k, s) _ holds
      (record {
        content = holds.content;
        reader = holds.reader;
        writer = holds.writer;
        between = holds.between;
        blank = holds.blank;
        room = holds.room;
        text = holds.text;
      })

pub add_to_buffer-Holds :
    (k : Keys) (s : Sched) (cs : List ℕ) (c : ℕ)
    → c ≢ 0
    → length cs + 1 < 1024
    → Holds k cs
    → Holds (add_to_buffer k s c).0 (cs ++ (c ∷ []))
unfolding add_to_buffer
add_to_buffer-Holds k s cs c h more holds =
    woken-Holds (put_char k c) s (cs ++ (c ∷ [])) (put_char-Holds k cs c h more holds)

empty_unavailable : (k : Keys) → Holds k [] → is_key_available k ≡ false
unfolding is_key_available
empty_unavailable k holds =
    let none_left = holds.blank 0 (omega arith) (omega arith) in
    let here : (k.read_index + 0) % 1024 ≡ k.read_index = omega (arith, holds.reader) in
    let blank_here : k.buffer k.read_index ≡ 0 = ap (λ i. k.buffer i) (sym here) ∙ none_left in
    rw blank_here refl

first_char : (k : Keys) (c : ℕ) (cs : List ℕ) → Holds k (c ∷ cs) → k.buffer k.read_index ≡ c
first_char k c cs holds =
    let here : k.read_index % 1024 ≡ k.read_index = omega (arith, holds.reader) in
    ap (λ i. k.buffer i) (sym here) ∙ ap (λ l. get_or l 0 0) holds.content

first_available : (k : Keys) (c : ℕ) (cs : List ℕ) → Holds k (c ∷ cs) → is_key_available k ≡ true
unfolding is_key_available
first_available k c cs holds =
    let this = first_char k c cs holds in
    let set : c ≢ 0 = holds.text.0 in ground (arith, this, set)

-- What is left when the first character has been taken.
abbrev taken : Keys → Keys
taken k = record k {
  buffer = update_at k.buffer k.read_index 0;
  read_index = (k.read_index + 1) % buffer_size;
}

blank_after : (f : ℕ → ℕ) (p q : ℕ) → (q ≢ p → f q ≡ 0) → update_at f p 0 q ≡ 0
unfolding update_at
blank_after f p q h = elim (Bool-cases (p == q)) [
  | inl e ↦ rw e refl
  | inr e ↦ rw e (h (λ same. ground (arith, e, same)))
]

taken-Holds : (k : Keys) (c : ℕ) (cs : List ℕ) → Holds k (c ∷ cs) → Holds (taken k) cs
taken-Holds k c cs holds =
    let r = k.read_index in
    let rest : stored k.buffer (r + 1) (length cs) ≡ cs = ap (drop 1) holds.content in
    let inside : r < 1024 = holds.reader in
    let few : suc (length cs) < 1024 = holds.room in
    record {
      content =
          stored-mod (update_at k.buffer r 0) ((r + 1) % 1024) (r + 1) (length cs) (omega arith)
          ∙ stored_other k.buffer r 0 (r + 1) (length cs)
              (λ j lt e. omega (arith, e, lt, few, inside))
          ∙ rest;
      reader = omega arith;
      writer = holds.writer;
      between = omega (arith, holds.between);
      blank = λ j lo hi. blank_after k.buffer r _ (λ apart.
          let more : j + 1 < 1024 = omega (arith, apart) in
          let place : ((r + 1) % 1024 + j) % 1024 ≡ (r + (j + 1)) % 1024 = omega arith in
          ap (λ i. k.buffer i) place ∙ holds.blank (j + 1) (omega (arith, lo)) more);
      room = omega (arith, few);
      text = holds.text.1;
    }

-- What is read, and what stays.
pub get_buffer-Holds :
    (k : Keys) (cs : List ℕ) (size : ℕ)
    → Holds k cs
    → ((get_buffer k size).0 ≡ take size cs) × Holds (get_buffer k size).1 (drop size cs)
unfolding get_buffer get_key_from_buffer
get_buffer-Holds k cs zero holds = (refl, holds)
get_buffer-Holds k [] (suc size) holds = rw (empty_unavailable k holds) (refl, holds)
get_buffer-Holds k (c ∷ cs) (suc size) holds =
    let rest = get_buffer-Holds (taken k) cs size (taken-Holds k c cs holds) in
    rw (first_available k c cs holds, first_char k c cs holds) (ap (λ ds. c ∷ ds) rest.0, rest.1)

-- A text that is typed, one key after the other.
unfoldable pub type_text : Keys → Sched → List ℕ → Keys × Sched
type_text k s [] = (k, s)
type_text k s (c ∷ cs) = let (k', s') = add_to_buffer k s c in type_text k' s' cs

append_assoc : (xs ys : List ℕ) (y : ℕ) → (xs ++ (y ∷ [])) ++ ys ≡ xs ++ (y ∷ ys)
append_assoc [] ys y = refl
append_assoc (x ∷ xs) ys y = ap (λ l. x ∷ l) (append_assoc xs ys y)

append_nil : (xs : List ℕ) → xs ++ [] ≡ xs
append_nil [] = refl
append_nil (x ∷ xs) = ap (λ l. x ∷ l) (append_nil xs)

type_text-Holds :
    (k : Keys) (s : Sched) (old cs : List ℕ)
    → IsText cs
    → length old + length cs < 1024
    → Holds k old
    → Holds (type_text k s cs).0 (old ++ cs)
unfolding type_text
type_text-Holds k s old [] text fits holds = rw (append_nil old) holds
type_text-Holds k s old (c ∷ cs) text fits holds =
    let small : length old + 1 < 1024 = omega (arith, fits) in
    let snoc = length_snoc old c in
    let more : length (old ++ (c ∷ [])) + length cs < 1024 = omega (arith, fits, snoc) in
    let (k', s') = add_to_buffer k s c in
    rw (← append_assoc old cs c) (
      type_text-Holds k' s' (old ++ (c ∷ [])) cs text.1 more
        (add_to_buffer-Holds k s old c text.0 small holds))

-- A text typed behind what is unread, with less than 1024 characters in all, is read in order: get_buffer
-- returns the first characters, as many as there is room for, and the others stay in the buffer.
pub type-get_buffer :
    (k : Keys) (s : Sched) (old cs : List ℕ) (size : ℕ)
    → IsText cs
    → length old + length cs < 1024
    → Holds k old
    → ((get_buffer (type_text k s cs).0 size).0 ≡ take size (old ++ cs))
      × Holds (get_buffer (type_text k s cs).0 size).1 (drop size (old ++ cs))
type-get_buffer k s old cs size text fits holds =
    get_buffer-Holds (type_text k s cs).0 (old ++ cs) size
      (type_text-Holds k s old cs text fits holds)

writer_moves :
    (k : Keys) (s : Sched) (cs : List ℕ)
    → k.write_index + length cs ≤ 1024
    → ((type_text k s cs).0.write_index ≡ k.write_index + length cs)
      × ((type_text k s cs).0.buffer 1024 ≡ k.buffer 1024)
unfolding type_text
writer_moves k s [] le = (omega arith, refl)
writer_moves k s (c ∷ cs) le =
    let (k', s') = add_to_buffer k s c in
    let step = one_moves k s c (omega (arith, le)) in
    let rest = writer_moves k' s' cs (omega (arith, le, step.0)) in
    (rest.0 ∙ omega (arith, step.0), rest.1 ∙ step.1)
  where
    one_moves :
        (k : Keys) (s : Sched) (c : ℕ)
        → k.write_index < 1024
        → ((add_to_buffer k s c).0.write_index ≡ k.write_index + 1)
          × ((add_to_buffer k s c).0.buffer 1024 ≡ k.buffer 1024)
    one_moves k s c lt =
        unfold add_to_buffer remove_from_blocking_queue put_char write_place update_at in
        ground arith

-- After 1024 characters that add_to_buffer put in from the beginning of the buffer, clean_read leaves the
-- reader behind the array: whether a key is available does not depend on the character that add_to_buffer
-- puts in next, but on the byte behind the array.
pub clean_read_misses :
    (k : Keys) (s : Sched) (cs : List ℕ) (c : ℕ)
    → k.write_index ≡ 0
    → length cs ≡ 1024
    → is_key_available (add_to_buffer (clean_read (type_text k s cs).0) (type_text k s cs).1 c).0
      ≡ not (k.buffer 1024 == 0)
clean_read_misses k s cs c start full =
    let moved = writer_moves k s cs (omega (arith, start, full)) in
    let at_end : (type_text k s cs).0.write_index ≡ 1024 = omega (arith, moved.0, start, full) in
    missed (type_text k s cs).0 (type_text k s cs).1 c at_end ∙ ap (λ b. not (b == 0)) moved.1
  where
    missed :
        (k : Keys) (s : Sched) (c : ℕ)
        → k.write_index ≡ 1024
        → is_key_available (add_to_buffer (clean_read k) s c).0 ≡ not (k.buffer 1024 == 0)
    missed k s c e =
        unfold is_key_available clean_read add_to_buffer remove_from_blocking_queue put_char
          write_place update_at in
        ground (arith, e)
