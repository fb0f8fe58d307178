-- ===== src/Convert/Tests.antt =====
-- Numbers that are written and read.
use tp2_sistemas_operativos.Base.{◌≡◌, refl, arith, [], ◌∷◌, negsuc}
use tp2_sistemas_operativos.Text.{digit_char, digits_loop, swap_loop, reverse_in_place, is_int_min}
use tp2_sistemas_operativos.Convert.{itoa, sprintf, satoi}
use tp2_sistemas_operativos.Convert.Reverse.{reverse_in_place-reversed}
use tp2_sistemas_operativos.Convert.Trip.{satoi-itoa}

sprintf_runs :
    sprintf (b'p' ∷ b'_' ∷ b'%' ∷ b'd' ∷ b'!' ∷ []) (negsuc 6)
    ≡ b'p' ∷ b'_' ∷ b'-' ∷ b'7' ∷ b'!' ∷ []
unfolding sprintf itoa is_int_min digit_char digits_loop swap_loop reverse_in_place
sprintf_runs = refl

reverse_in_place-reversed_example :
    reverse_in_place (b'a' ∷ b'b' ∷ b'c' ∷ []) ≡ b'c' ∷ b'b' ∷ b'a' ∷ []
reverse_in_place-reversed_example = reverse_in_place-reversed (b'a' ∷ b'b' ∷ b'c' ∷ [])

satoi-itoa_example : satoi (itoa (negsuc 4095) 10) ≡ negsuc 4095
satoi-itoa_example = satoi-itoa (negsuc 4095) (omega arith) (omega arith)
