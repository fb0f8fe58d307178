-- ===== src/Shell/Typing.antt =====
-- What is typed comes out of the line editor, and backspace takes back a byte.
use tp2_sistemas_operativos.Base.{
  ℕ, ◌+◌, ◌≤◌, ◌<◌, ◌≡◌, ◌≢◌, refl, sym, ap, ◌∙◌, arith, true, some, [], ◌∷◌, ◌++◌, ltb, length,
}
use tp2_sistemas_operativos.Text.{Text}
use tp2_sistemas_operativos.Shell.{buffer_size}
use tp2_sistemas_operativos.Shell.Line.{edit, line_loop, read_line, finish, turn, enter, backspace}

-- Keys that stand for themselves.
abbrev pub IsTyped : Text → Type 0
IsTyped [] = Unit {0}
IsTyped (c ∷ keys) = ((c ≢ enter) × ((c ≢ backspace) × (c ≢ 0))) × IsTyped keys

edit-plain : (c : ℕ) (typed : Text) → c ≢ backspace → c ≢ 0 → edit c typed ≡ c ∷ typed
unfolding edit
edit-plain c [] a b = ground arith
edit-plain c (d ∷ typed) a b = ground arith

line_loop-key :
    (c : ℕ) (keys typed : Text)
    → length typed < buffer_size
    → c ≢ enter
    → line_loop (c ∷ keys) typed ≡ line_loop keys (edit c typed)
unfolding line_loop
line_loop-key c keys typed room plain = ground arith

line_loop-enter : (keys typed : Text) → line_loop (enter ∷ keys) typed ≡ some typed
unfolding line_loop
line_loop-enter keys typed = ground arith

-- The keys come on top of what was typed, the last one first.
line_loop-keys :
    (keys rest typed : Text)
    → IsTyped keys
    → length typed + length keys ≤ buffer_size
    → line_loop (keys ++ rest) typed ≡ line_loop rest (turn keys typed)
unfolding turn
line_loop-keys [] rest typed h room = refl
line_loop-keys (c ∷ keys) rest typed ((a, (b, d)), h) room =
    line_loop-key c (keys ++ rest) typed (omega arith) a
    ∙ ap (line_loop (keys ++ rest)) (edit-plain c typed b d)
    ∙ line_loop-keys keys rest (c ∷ typed) h (omega arith)

turn-turn : (a b : Text) → turn (turn a b) [] ≡ turn b a
unfolding turn
turn-turn [] b = ap (turn b) refl
turn-turn (c ∷ a) b = turn-turn a (c ∷ b)

length-turn : (a b : Text) → length (turn a b) ≡ length a + length b
unfolding turn
length-turn [] b = omega arith
length-turn (c ∷ a) b = omega (arith, length-turn a (c ∷ b))

finish-line : (line : Text) → length line < buffer_size → finish (some (turn line [])) ≡ some line
unfolding finish turn
finish-line line room =
    let short : ltb (length (turn line [])) buffer_size ≡ true =
      ground (arith, length-turn line []) in
    rw short (ap some (turn-turn line [] ∙ refl))

-- Keys that stand for themselves, with Enter behind them, are the line.
pub read_line-typed :
    (line rest : Text)
    → IsTyped line
    → length line < buffer_size
    → read_line (line ++ enter ∷ rest) ≡ some line
unfolding read_line
read_line-typed line rest h room =
    ap finish
      (line_loop-keys line (enter ∷ rest) [] h (omega arith) ∙ line_loop-enter rest (turn line []))
    ∙ finish-line line room

erase_step :
    (c : ℕ) (rest typed : Text)
    → length typed + 1 < buffer_size
    → c ≢ enter
    → c ≢ backspace
    → c ≢ 0
    → line_loop (c ∷ backspace ∷ rest) typed ≡ line_loop rest typed
unfolding edit
erase_step c rest typed room a b d =
    line_loop-key c (backspace ∷ rest) typed (omega arith) a
    ∙ ap (line_loop (backspace ∷ rest)) (edit-plain c typed b d)
    ∙ line_loop-key backspace rest (c ∷ typed) (omega arith) (λ e. omega arith)

-- A key and backspace behind it are as if neither had been pressed, wherever they stand in a line that
-- has room for the key.
pub read_line-erased :
    (keys : Text) (c : ℕ) (rest : Text)
    → IsTyped keys
    → length keys + 1 < buffer_size
    → c ≢ enter
    → c ≢ backspace
    → c ≢ 0
    → read_line (keys ++ c ∷ backspace ∷ rest) ≡ read_line (keys ++ rest)
unfolding read_line
read_line-erased keys c rest h room a b d = ap finish (
    line_loop-keys keys (c ∷ backspace ∷ rest) [] h (omega arith)
    ∙ erase_step c rest (turn keys []) (omega (arith, length-turn keys [])) a b d
    ∙ sym (line_loop-keys keys rest [] h (omega arith)))
