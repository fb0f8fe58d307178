-- ===== src/Shell/Line.antt =====
-- The line editor of `insert_command`, Userland/SampleCodeModule/shell.c.
use tp2_sistemas_operativos.Base.{
  ℕ, ◌||◌, not, Option, none, some, [], ◌∷◌, ltb, ◌==◌, if◌then◌else◌, length,
}
use tp2_sistemas_operativos.Text.{Text}
use tp2_sistemas_operativos.Shell.{buffer_size}

abbrev pub enter : ℕ
enter = 10

abbrev pub backspace : ℕ
backspace = 8

-- What a byte does to the bytes typed so far; the last one typed stands first.
unfoldable pub edit : ℕ → Text → Text
edit c [] = if c == backspace || c == 0 then [] else c ∷ []
edit c (last ∷ typed) =
    if c == backspace then typed else if c == 0 then last ∷ typed else c ∷ last ∷ typed

-- The loop over the bytes that `sys_read` returns: the line that was typed, the last byte first, when the
-- buffer is full or the line ends, and `none` while it goes on.
unfoldable pub line_loop : Text → Text → Option Text
line_loop [] typed = if ltb (length typed) buffer_size then none else some typed
line_loop (c ∷ keys) typed =
    let rest = line_loop keys (edit c typed) in
    if not (ltb (length typed) buffer_size) || c == enter then some typed else rest

unfoldable pub turn : Text → Text → Text
turn [] text = text
turn (c ∷ typed) text = turn typed (c ∷ text)

-- The text in the buffer. A line that fills it has no 0 behind it, and `tokenize` would read on past its
-- end: that is `none`.
unfoldable pub finish : Option Text → Option Text
finish none = none
finish (some typed) = if ltb (length typed) buffer_size then some (turn typed []) else none

unfoldable pub read_line : Text → Option Text
read_line keys = finish (line_loop keys [])
