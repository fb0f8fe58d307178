-- ===== src/Convert.antt =====
-- Numbers and texts in user space: `itoa` and `sprintf` of Userland/SampleCodeModule/lib/utils.c and
-- `satoi` of Userland/SampleCodeModule/tests/test_util.c. A text is the list of its bytes, without the
-- final 0.
pub mod Reverse
pub mod Trip
mod Tests
use tp2_sistemas_operativos.Base.{
  ℕ, zero, suc, ◌+◌, ◌-◌, ◌*◌, ◌%◌, ◌/◌, Bool, true, false, ◌||◌, Option, none, some, List, [], ◌∷◌,
  ◌++◌, ℤ, pos, negsuc, sub_ℕ, ◌==◌, ltb, if◌then◌else◌, length,
}
use tp2_sistemas_operativos.Text.{Text, digits_loop, reverse_in_place, is_int_min}

-- The loops of `itoa` are those of `int_to_str` in Kernel/lib/lib.c. `num` is an `int`, from -2 ^ 31 to
-- 2 ^ 31 - 1.
unfoldable pub itoa : ℤ → ℕ → Text
itoa (pos num) base =
    if num == 0 then b'0' ∷ [] else reverse_in_place (digits_loop num base false num [])
itoa (negsuc num) base =
    if base == 10
    then reverse_in_place (digits_loop (num + 1) base (is_int_min num) (num + 1) [] ++ b'-' ∷ [])
    else reverse_in_place (digits_loop (num + 1) base true (num + 1) [])

-- The loop of `satoi`; `none` where it returns 0 at once.
unfoldable pub parse_loop : ℕ → Text → Option ℕ
parse_loop res [] = some res
parse_loop res (c ∷ str) =
    let rest = parse_loop (res * 10 + c - b'0') str in
    if ltb c b'0' || ltb b'9' c then none else rest

unfoldable pub times_sign : Bool → Option ℕ → ℤ
times_sign negative none = pos 0
times_sign false (some res) = pos res
times_sign true (some res) = sub_ℕ 0 res

unfoldable pub satoi : Text → ℤ
satoi [] = pos 0
satoi (c ∷ str) =
    if c == b'-'
    then times_sign true (parse_loop 0 str)
    else times_sign false (parse_loop 0 (c ∷ str))

-- `%d` becomes the number, wherever it stands, and every other byte stays.
unfoldable pub sprintf : Text → ℤ → Text
sprintf [] number = []
sprintf (c ∷ []) number = c ∷ []
sprintf (c ∷ d ∷ format) number =
    let converted = itoa number 10 ++ sprintf format number in
    let copied = c ∷ sprintf (d ∷ format) number in
    if c == b'%' then (if d == b'd' then converted else copied) else copied
