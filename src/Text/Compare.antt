-- ===== src/Text/Compare.antt =====
-- What `strcmp` of Kernel/lib/lib.c decides.
use tp2_sistemas_operativos.Base.{◌≡◌, ◌≢◌, ◌↔◌, refl, [], ◌∷◌, pos, true, eq_ℤ, eq_ℤ_self, arith}
use tp2_sistemas_operativos.Text.{Text, strcmp, strcpy}

-- No byte of a text is 0.
abbrev pub IsText : Text → Type 0
IsText [] = Unit {0}
IsText (c ∷ s) = (c ≢ 0) × IsText s

strcmp_sound : (s t : Text) → IsText s → IsText t → eq_ℤ (strcmp s t) (pos 0) ≡ true → s ≡ t
unfolding strcmp eq_ℤ
strcmp_sound [] [] hs ht e = refl
strcmp_sound [] (d ∷ t) hs ht e = ground arith
strcmp_sound (c ∷ s) [] hs ht e = ground arith
strcmp_sound (c ∷ s) (d ∷ t) hs ht e = ground (arith, strcmp_sound s t hs.1 ht.1)

strcmp_self : (s : Text) → strcmp s s ≡ pos 0
unfolding strcmp
strcmp_self [] = refl
strcmp_self (c ∷ s) = ground (arith, strcmp_self s)

-- Two texts compare as 0 exactly when they are the same.
pub strcmp_iff : (s t : Text) → IsText s → IsText t → (eq_ℤ (strcmp s t) (pos 0) ≡ true) ↔ (s ≡ t)
strcmp_iff s t hs ht = (strcmp_sound s t hs ht, λ e. rw (← e, strcmp_self s) (eq_ℤ_self (pos 0)))

-- A copy has the same bytes.
pub strcpy_lem : (s : Text) → strcpy s ≡ s
unfolding strcpy
strcpy_lem [] = refl
strcpy_lem (c ∷ s) = rw (strcpy_lem s)
