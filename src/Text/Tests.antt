-- ===== src/Text/Tests.antt =====
-- Runs of Kernel/lib/lib.c, and its theorems at concrete texts.
use tp2_sistemas_operativos.Base.{◌≡◌, ◌↔◌, refl, [], ◌∷◌, pos, negsuc, eq_ℤ, true, arith}
use tp2_sistemas_operativos.Text.{
  Text, strcmp, int_to_str, is_int_min, digit_char, digits_loop, swap_loop, reverse_in_place,
}
use tp2_sistemas_operativos.Text.Compare.{strcmp_iff}

int_to_str_runs :
    (int_to_str (pos 1203) 10 ≡ b'1' ∷ b'2' ∷ b'0' ∷ b'3' ∷ [])
    × (int_to_str (negsuc 40) 10 ≡ b'-' ∷ b'4' ∷ b'1' ∷ [])
    × (int_to_str (pos 255) 16 ≡ b'f' ∷ b'f' ∷ [])
unfolding int_to_str is_int_min digit_char digits_loop swap_loop reverse_in_place
int_to_str_runs = (refl, refl, refl)

abbrev name_u : Text
name_u = b'm' ∷ b'u' ∷ []

abbrev name_v : Text
name_v = b'm' ∷ b'v' ∷ []

strcmp_iff_example : (eq_ℤ (strcmp name_u name_v) (pos 0) ≡ true) ↔ (name_u ≡ name_v)
strcmp_iff_example = strcmp_iff name_u name_v (omega arith) (omega arith)
