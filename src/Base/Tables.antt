-- ===== src/Base/Tables.antt =====
-- C arrays as functions of their index, and the constants that several components share.
use Prim.Native.Nat.{ℕ}
use mathlib.Core.Path.{◌≡◌, refl, sym}
use mathlib.Core.Bool.{Bool, true, false}
use native.Mathlib.Omega.{arith}
use mathlib.Core.Logic.{◌≢◌, inl, inr}
use tp2_sistemas_operativos.Base.Tests.{ltb, ◌==◌, ==_iff, if◌then◌else◌, Bool-cases}
use native.Mathlib.Omega.{arith}
use tp2_sistemas_operativos.Base.Int.{ltb_ℤ, ℤ, pos, negsuc, ltb_ℤ, eq_ℤ, eq_ℤ_self}

-- An array that C indexes with an `int`. An index outside the array reads the memory beside it:
-- the value of the function there is what that memory holds.
module _ {ℓ} {A : Type ℓ} where
  unfoldable pub update : (ℤ → A) → ℤ → A → ℤ → A
  update f p v q = if eq_ℤ p q then v else f q

  -- An array that C indexes with an unsigned number.
  unfoldable pub update_at : (ℕ → A) → ℕ → A → ℕ → A
  update_at f p v q = if p == q then v else f q

abbrev pub max_processes : ℕ
max_processes = 15

-- `pid < 0 || pid >= MAX_PROCESSES`, negated.
unfoldable pub is_slot : ℤ → Bool
is_slot (pos n) = ltb n max_processes
is_slot (negsuc n) = false

module _ {ℓ} {A : Type ℓ} where
  pub update_self : (f : ℤ → A) (p : ℤ) (v : A) → update f p v p ≡ v
  unfolding update
  update_self f p v = rw (eq_ℤ_self p)

  pub update_other : (f : ℤ → A) (p q : ℤ) (v : A) → eq_ℤ p q ≡ false → update f p v q ≡ f q
  unfolding update
  update_other f p q v h = rw h

  pub update_at_self : (f : ℕ → A) (p : ℕ) (v : A) → update_at f p v p ≡ v
  unfolding update_at
  update_at_self f p v = let here : (p == p) ≡ true = (==_iff p p).1 refl in rw here refl

  pub update_at_other : (f : ℕ → A) (p : ℕ) (v : A) (q : ℕ) → q ≢ p → update_at f p v q ≡ f q
  unfolding update_at
  update_at_other f p v q h = elim (Bool-cases (p == q)) [
    | inl e ↦ absurd (h (sym ((==_iff p q).0 e)))
    | inr e ↦ rw e refl
  ]

-- A slot is not negative.
pub slot_nonneg : (p : ℤ) → is_slot p ≡ true → ltb_ℤ p (pos 0) ≡ false
unfolding is_slot ltb_ℤ
slot_nonneg (pos n) h = ground arith
slot_nonneg (negsuc n) h = cc

pub slot-ne-kernel : (p : ℤ) → is_slot p ≡ true → eq_ℤ p (negsuc 0) ≡ false
unfolding is_slot eq_ℤ
slot-ne-kernel (pos n) h = refl
slot-ne-kernel (negsuc n) h = cc
