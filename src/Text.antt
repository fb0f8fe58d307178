-- ===== src/Text.antt =====
-- The string functions of Kernel/lib/lib.c. A text is the list of its bytes, without the final 0.
pub mod Compare
mod Tests
use tp2_sistemas_operativos.Base.{
  ℕ, zero, suc, ◌+◌, ◌-◌, ◌%◌, ◌/◌, List, [], ◌∷◌, ◌++◌, ℤ, pos, negsuc, sub_ℕ, ◌==◌, ltb, Bool,
  true, false, ◌&&◌, if◌then◌else◌, length, get_or, set,
}

abbrev pub Text : Type 0
Text = List ℕ

unfoldable pub strlen : Text → ℕ
strlen [] = 0
strlen (c ∷ s) = strlen s + 1

unfoldable pub strcpy : Text → Text
strcpy [] = []
strcpy (c ∷ s) = c ∷ strcpy s

unfoldable pub strcat : Text → Text → Text
strcat [] src = strcpy src
strcat (c ∷ dest) src = c ∷ strcat dest src

-- The difference of the first two bytes that differ, the final 0 included.
unfoldable pub strcmp : Text → Text → ℤ
strcmp [] [] = pos 0
strcmp [] (d ∷ t) = sub_ℕ 0 d
strcmp (c ∷ s) [] = sub_ℕ c 0
strcmp (c ∷ s) (d ∷ t) = if c == d then strcmp s t else sub_ℕ c d

-- One character of `int_to_str`: `rem` is `num % base`, which is negative where `num` is.
unfoldable pub digit_char : Bool → ℕ → ℕ
digit_char false rem = if ltb 9 rem then rem - 10 + b'a' else rem + b'0'
digit_char true rem = (b'0' + 256 - rem) % 256

-- `while (num != 0)`: the magnitude of `num`, its sign, and the text so far. Each round divides by the
-- base, so for a base of 2 or more the magnitude itself is enough fuel.
unfoldable pub digits_loop : ℕ → ℕ → Bool → ℕ → Text → Text
digits_loop zero base negative num str = str
digits_loop (suc fuel) base negative num str =
    let rest =
      digits_loop fuel base negative (num / base) (str ++ digit_char negative (num % base) ∷ []) in
    if num == 0 then str else rest

-- `while (start < end)`: the two characters change places.
unfoldable pub swap_loop : ℕ → Text → ℕ → ℕ → Text
swap_loop zero str start last = str
swap_loop (suc fuel) str start last =
    let swapped = set (set str start (get_or str last 0)) last (get_or str start 0) in
    let rest = swap_loop fuel swapped (start + 1) (last - 1) in if ltb start last then rest else str

unfoldable pub reverse_in_place : Text → Text
reverse_in_place str = swap_loop (length str) str 0 (length str - 1)

-- The least `int`, -(num + 1) with a magnitude of 2 ^ 31: `num = -num` leaves it negative.
unfoldable pub is_int_min : ℕ → Bool
is_int_min num = num == 2147483647

-- `num` is an `int`, from -2 ^ 31 to 2 ^ 31 - 1.
unfoldable pub int_to_str : ℤ → ℕ → Text
int_to_str (pos num) base =
    if num == 0 then b'0' ∷ [] else reverse_in_place (digits_loop num base false num [])
int_to_str (negsuc num) base =
    if base == 10
    then reverse_in_place (digits_loop (num + 1) base (is_int_min num) (num + 1) [] ++ b'-' ∷ [])
    else reverse_in_place (digits_loop (num + 1) base true (num + 1) [])
