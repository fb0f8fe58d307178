-- ===== src/Convert/Trip.antt =====
-- A number that itoa of Userland/SampleCodeModule/lib/utils.c writes in base 10 is read back by satoi of
-- Userland/SampleCodeModule/tests/test_util.c.
use tp2_sistemas_operativos.Base.{
  ℕ, zero, suc, ◌+◌, ◌-◌, ◌*◌, ◌%◌, ◌/◌, ◌≤◌, ◌≡◌, refl, sym, ap, ◌∙◌, arith, true, false, ◌||◌,
  Option, none, some, List, [], ◌∷◌, ◌++◌, ℤ, pos, negsuc, sub_ℕ, ltb, ◌==◌, if◌then◌else◌,
  Bool-cases, inl, inr, ℕ_discrete, ◌<◌, pos_part, neg_part,
}
use mathlib.Core.List.{append-nil, append_assoc}
use tp2_sistemas_operativos.Text.{
  Text, digit_char, digits_loop, reverse_in_place, swap_loop, is_int_min,
}
use tp2_sistemas_operativos.Convert.{itoa, parse_loop, times_sign, satoi}
use tp2_sistemas_operativos.Convert.Reverse.{reversed, reversed_snoc, reverse_in_place-reversed}

-- The digits of a number, the last one first.
abbrev digits : ℕ → ℕ → List ℕ
digits zero num = []
digits (suc fuel) num = if num == 0 then [] else (num % 10 + b'0') ∷ digits fuel (num / 10)

digits_loop-digits :
    (fuel num : ℕ) (str : Text) → digits_loop fuel 10 false num str ≡ str ++ digits fuel num
unfolding digits_loop digit_char
digits_loop-digits zero num str = sym (append-nil str)
digits_loop-digits (suc fuel) num str = elim (Bool-cases (num == 0)) [
  | inl e ↦ rw e (sym (append-nil str))
  | inr e ↦
      (let small : ltb 9 (num % 10) ≡ false = ground arith in
        let rest =
          digits_loop-digits fuel (num / 10) (str ++ (num % 10 + b'0') ∷ [])
          ∙ append_assoc str ((num % 10 + b'0') ∷ []) (digits fuel (num / 10)) in
        rw (e, small) rest)
]

-- One more digit behind a text that is read.
abbrev read_digit : Option ℕ → ℕ → Option ℕ
read_digit none c = none
read_digit (some res) c = parse_loop res (c ∷ [])

parse_loop_snoc :
    (res : ℕ) (str : Text) (c : ℕ)
    → parse_loop res (str ++ (c ∷ [])) ≡ read_digit (parse_loop res str) c
unfolding parse_loop
parse_loop_snoc res [] c = refl
parse_loop_snoc res (d ∷ str) c = elim (Bool-cases (ltb d b'0' || ltb b'9' d)) [
  | inl e ↦ rw e refl
  | inr e ↦ rw e (parse_loop_snoc (res * 10 + d - b'0') str c)
]

parse_digits : (fuel num : ℕ) → num ≤ fuel → parse_loop 0 (reversed (digits fuel num)) ≡ some num
unfolding parse_loop
parse_digits zero num le = ap (λ n. some n) (omega (arith, le))
parse_digits (suc fuel) num le = elim (Bool-cases (num == 0)) [
  | inl e ↦ (let none_left : 0 ≡ num = ground (arith, e) in rw e (ap (λ n. some n) none_left))
  | inr e ↦
      (let d = num % 10 + b'0' in
        let shorter : num / 10 ≤ fuel = ground (arith, e, le) in
        let in_range : (ltb d b'0' || ltb b'9' d) ≡ false = ground arith in
        let value : num / 10 * 10 + d - b'0' ≡ num = omega arith in
        rw e (
          parse_loop_snoc 0 (reversed (digits fuel (num / 10))) d
          ∙ ap (λ r. read_digit r d) (parse_digits fuel (num / 10) shorter)
          ∙ rw in_range (ap (λ n. some n) value)))
]

satoi_plain : (str : Text) (num : ℕ) → parse_loop 0 str ≡ some num → satoi str ≡ pos num
unfolding satoi times_sign parse_loop
satoi_plain [] num e = ap (λ (r : Option ℕ). times_sign false r) e
satoi_plain (c ∷ str) num e = elim (Bool-cases (c == b'-')) [
  | inl minus ↦
      (let refused : (ltb c b'0' || ltb b'9' c) ≡ true = ground (arith, minus) in
        let stopped : parse_loop 0 (c ∷ str) ≡ none = rw refused refl in
        let broken : none ≡ some num = sym stopped ∙ e in cc)
  | inr plain ↦ rw plain (ap (λ (r : Option ℕ). times_sign false r) e)
]

written : (num : ℕ) → reverse_in_place (digits_loop num 10 false num []) ≡ reversed (digits num num)
written num =
    reverse_in_place-reversed (digits_loop num 10 false num [])
    ∙ ap (λ l. reversed l) (digits_loop-digits num num [])

written_minus :
    (num : ℕ)
    → reverse_in_place (digits_loop num 10 false num [] ++ b'-' ∷ [])
      ≡ b'-' ∷ reversed (digits num num)
written_minus num =
    reverse_in_place-reversed (digits_loop num 10 false num [] ++ b'-' ∷ [])
    ∙ reversed_snoc (digits_loop num 10 false num []) b'-'
    ∙ ap (λ l. b'-' ∷ reversed l) (digits_loop-digits num num [])

-- The least `int` stays negative when its sign is changed: its digits come out as other characters, and
-- satoi gives up at the first of them.
satoi_int_min : satoi (itoa (negsuc 2147483647) 10) ≡ pos 0
unfolding itoa satoi times_sign parse_loop is_int_min digits_loop digit_char reverse_in_place
    swap_loop
satoi_int_min = refl

is_int_min-below : (num : ℕ) → num + 1 < 2147483648 → is_int_min num ≡ false
unfolding is_int_min
is_int_min-below num h = ground arith

-- A negative number whose sign can be changed.
satoi-itoa_negative : (num : ℕ) → num + 1 < 2147483648 → satoi (itoa (negsuc num) 10) ≡ negsuc num
unfolding itoa satoi times_sign parse_loop
satoi-itoa_negative num low =
    let read = parse_digits (num + 1) (num + 1) (omega arith) in
    let gone : sub_ℕ 0 (num + 1) ≡ negsuc num = ground arith in
    rw (is_int_min-below num low, written_minus (num + 1))
      (ap (λ (r : Option ℕ). times_sign true r) read ∙ gone)

-- What itoa writes in base 10 of an `int` is read back by satoi, negative or not, but for the least
-- `int`, -2 ^ 31, for which satoi returns 0.
pub satoi-itoa :
    (num : ℤ)
    → pos_part num < 2147483648
    → neg_part num ≤ 2147483648
    → satoi (itoa num 10) ≡ (if neg_part num == 2147483648 then pos 0 else num)
unfolding itoa satoi times_sign parse_loop
satoi-itoa (pos num) high low = elim (Bool-cases (num == 0)) [
  | inl e ↦ (let none_left : 0 ≡ num = ground (arith, e) in rw e (ap (λ n. pos n) none_left))
  | inr e ↦
      rw (e, written num)
        (satoi_plain (reversed (digits num num)) num (parse_digits num num (omega arith)))
]
satoi-itoa (negsuc num) high low = elim (ℕ_discrete num 2147483647) [
  | yes e ↦ rw e satoi_int_min
  | no ne ↦
      let small : (suc num == 2147483648) ≡ false = ground (arith, ne) in
      rw small (satoi-itoa_negative num (omega (arith, ne, low)))
]
