-- ===== src/Memory/Blocks.antt =====
-- Memory blocks, as pairs of an address and a size: what a list of them has to satisfy, and the chain of
-- headers that holds a list.
use tp2_sistemas_operativos.Base.{
  ℕ, ◌+◌, ◌≤◌, ◌<◌, ◌≡◌, ◌⊎◌, inl, inr, List, [], ◌∷◌, ◌∙◌, arith, length,
}

abbrev pub Blocks : Type 0
Blocks = List (ℕ × ℕ)

abbrev pub All : (ℕ → ℕ → Type 0) → Blocks → Type 0
All P [] = Unit {0}
All P ((a, s) ∷ l) = P a s × All P l

pub All-map :
    (P Q : ℕ → ℕ → Type 0) → ((a s : ℕ) → P a s → Q a s) → (l : Blocks) → All P l → All Q l
All-map P Q f [] h = _
All-map P Q f ((a, s) ∷ l) (p, h) = (f a s p, All-map P Q f l h)

pub All-zip : (P Q : ℕ → ℕ → Type 0) (l : Blocks) → All P l → All Q l → All (λ a s. P a s × Q a s) l
All-zip P Q [] h k = _
All-zip P Q ((a, s) ∷ l) (p, h) (q, k) = ((p, q), All-zip P Q l h k)

-- Two blocks have no byte in common.
abbrev pub Apart : ℕ → ℕ → ℕ → ℕ → Type 0
Apart a s b t = (a + s ≤ b) ⊎ (b + t ≤ a)

abbrev pub Clear : ℕ → ℕ → Blocks → Type 0
Clear a s l = All (λ b t. Apart a s b t) l

-- The address is in none of the blocks.
abbrev pub Outside : ℕ → Blocks → Type 0
Outside x l = All (λ b t. (x < b) ⊎ (b + t ≤ x)) l

-- Blocks that are not empty, do not stand at NULL and have no byte in common.
abbrev pub AreDisjoint : Blocks → Type 0
AreDisjoint [] = Unit {0}
AreDisjoint ((a, s) ∷ l) = (0 < a) × (0 < s) × Clear a s l × AreDisjoint l

pub AreDisjoint-All : (l : Blocks) → AreDisjoint l → All (λ a s. (0 < a) × (0 < s)) l
AreDisjoint-All [] h = _
AreDisjoint-All ((a, s) ∷ l) (p, q, _, h) = ((p, q), AreDisjoint-All l h)

unfoldable pub sizes : Blocks → ℕ
sizes [] = 0
sizes ((a, s) ∷ l) = s + sizes l

pub length-sizes : (l : Blocks) → AreDisjoint l → length l ≤ sizes l
unfolding sizes
length-sizes [] h = omega arith
length-sizes ((a, s) ∷ l) (p, q, _, h) = (let rest = length-sizes l h in ground arith)

pub AreDisjoint-Outside : (a s : ℕ) (l : Blocks) → 0 < s → AreDisjoint l → Clear a s l → Outside a l
AreDisjoint-Outside a s l nonempty good clear =
    All-map (λ b t. Apart a s b t) (λ b t. (a < b) ⊎ (b + t ≤ a))
      (λ b t h. elim h [ inl e ↦ inl (omega arith) | inr e ↦ inr e ]) l clear

pub Outside-null : (l : Blocks) → AreDisjoint l → Outside 0 l
Outside-null l good =
    All-map (λ a s. (0 < a) × (0 < s)) (λ b t. (0 < b) ⊎ (b + t ≤ 0)) (λ a s h. inl h.0) l
      (AreDisjoint-All l good)

-- The headers from address `at` on are those of the blocks, in their order.
abbrev pub IsChain : (ℕ → ℕ) → (ℕ → ℕ) → ℕ → Blocks → Type 0
IsChain size next at [] = at ≡ 0
IsChain size next at ((a, s) ∷ l) = (at ≡ a) × (size a ≡ s) × IsChain size next (next a) l

-- The same headers in another memory.
abbrev pub AreSame : (ℕ → ℕ) → (ℕ → ℕ) → (ℕ → ℕ) → (ℕ → ℕ) → Blocks → Type 0
AreSame size next size' next' l = All (λ a s. (size' a ≡ size a) × (next' a ≡ next a)) l

pub IsChain-frame :
    (size next size' next' : ℕ → ℕ) (at at' : ℕ) (l : Blocks)
    → at' ≡ at
    → AreSame size next size' next' l
    → IsChain size next at l
    → IsChain size' next' at' l
IsChain-frame size next size' next' at at' [] moved same h = moved ∙ h
IsChain-frame size next size' next' at at' ((a, s) ∷ l) moved ((same_size, same_next), same)
      (e, f, h) =
    (
      moved ∙ e,
      same_size ∙ f,
      IsChain-frame size next size' next' (next a) (next' a) l same_next same h,
    )
