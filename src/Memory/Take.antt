-- ===== src/Memory/Take.antt =====
-- One block that malloc of memoryManagement.c takes out of the free list, whole or cut.
use tp2_sistemas_operativos.Base.{
  ltb→lt, ℕ, ◌+◌, ◌-◌, ◌≤◌, ◌<◌, ◌^◌, ◌≡◌, ◌≢◌, refl, ◌⊎◌, inl, inr, ◌∷◌, arith, ltb, ◌==◌,
  if◌then◌else◌, update_at, Bool-cases,
}
use tp2_sistemas_operativos.Memory.{
  Memory, block_size, plus64, split, take_whole, unlink, take_block,
}
use tp2_sistemas_operativos.Memory.Blocks.{
  Blocks, All, All-map, All-zip, Apart, Outside, AreDisjoint, AreDisjoint-All, IsChain,
  IsChain-frame,
}

-- The block that is taken, with its size, and the free blocks that are left.
unfoldable pub cut : ℕ → ℕ → ℕ → Blocks → (ℕ × ℕ) × Blocks
cut n a s l = if ltb (n + block_size) s then ((a, n), (a + n, s - n) ∷ l) else ((a, s), l)

-- The address of the block that follows `previous` in the free list, where 0 stands for its start.
unfoldable pub link : Memory → ℕ → ℕ
link m previous = if previous == 0 then m.free_list else m.next previous

-- What the loop leaves of a memory, with `previous` before the blocks `l`.
pub record Took (m m' : Memory) (previous : ℕ) (l : Blocks) (taken : ℕ × ℕ) (left : Blocks)
    : Type 0 where
  pub chain : IsChain m'.size m'.next (link m' previous) left
  pub header : m'.size taken.0 ≡ taken.1
  pub same_size : (x : ℕ) → Outside x l → m'.size x ≡ m.size x
  pub same_next : (x : ℕ) → Outside x l → x ≢ previous → m'.next x ≡ m.next x
  pub same_start : previous ≢ 0 → m'.free_list ≡ m.free_list
  pub same_total : m'.total_size ≡ m.total_size

-- A block beside `a` and its bytes, which `previous` is not in.
abbrev Placed : ℕ → ℕ → ℕ → ℕ → ℕ → Type 0
Placed a s previous b t =
    ((0 < b) × (0 < t)) × (Apart a s b t × ((previous < b) ⊎ (b + t ≤ previous)))

Placed-All :
    (a s previous : ℕ) (l : Blocks)
    → AreDisjoint ((a, s) ∷ l)
    → Outside previous ((a, s) ∷ l)
    → All (λ b t. Placed a s previous b t) l
Placed-All a s previous l (_, _, clear, good) (_, outside) =
    All-zip (λ b t. (0 < b) × (0 < t))
      (λ b t. Apart a s b t × ((previous < b) ⊎ (b + t ≤ previous))) l (AreDisjoint-All l good)
      (All-zip (λ b t. Apart a s b t) (λ b t. (previous < b) ⊎ (b + t ≤ previous)) l clear outside)

module _ (m : Memory) (n previous a s : ℕ) (l : Blocks) (nonempty : 0 < n) (fits : n ≤ s)
    (small : s + 16 < 2 ^ 64) (good : AreDisjoint ((a, s) ∷ l))
    (before : Outside previous ((a, s) ∷ l)) (chain : IsChain m.size m.next a ((a, s) ∷ l)) where
  split-same :
      n < s
      → (b t : ℕ) → Placed a s previous b t
      → ((unlink (split m n a) previous a).size b ≡ m.size b)
        × ((unlink (split m n a) previous a).next b ≡ m.next b)
  unfolding split unlink update_at
  split-same lt b t placed = ground arith

  split-head :
      n < s
      → ((unlink (split m n a) previous a).size a ≡ n)
        × ((unlink (split m n a) previous a).size (a + n) ≡ s - n)
        × ((unlink (split m n a) previous a).next (a + n) ≡ m.next a)
        × (link (unlink (split m n a) previous a) previous ≡ a + n)
  unfolding split unlink link update_at
  split-head lt = let (_, size_a, _) = chain in let (out, _) = before in ground arith

  split-other :
      n < s
      → (x : ℕ) → (x < a) ⊎ (a + s ≤ x)
      → ((unlink (split m n a) previous a).size x ≡ m.size x)
        × (x ≢ previous → (unlink (split m n a) previous a).next x ≡ m.next x)
  unfolding split unlink update_at
  split-other lt x out = (ground arith, λ other. ground arith)

  split-fixed :
      (previous ≢ 0 → (unlink (split m n a) previous a).free_list ≡ m.free_list)
      × ((unlink (split m n a) previous a).total_size ≡ m.total_size)
  unfolding split unlink
  split-fixed = (λ other. ground arith, ground arith)

  take_split :
      n < s
      → Took m (unlink (split m n a) previous a) previous ((a, s) ∷ l) (a, n) ((a + n, s - n) ∷ l)
  take_split lt =
      let (size_a, size_rest, next_rest, linked) = split-head lt in
      let (_, _, tail) = chain in
      record {
        chain = (
          linked,
          size_rest,
          IsChain-frame m.size m.next (unlink (split m n a) previous a).size
              (unlink (split m n a) previous a).next (m.next a)
              ((unlink (split m n a) previous a).next (a + n)) l next_rest
              (All-map (Placed a s previous)
                (λ b t.
                  ((unlink (split m n a) previous a).size b ≡ m.size b)
                  × ((unlink (split m n a) previous a).next b ≡ m.next b))
                (split-same lt) l (Placed-All a s previous l good before))
              tail,
        );
        header = size_a;
        same_size = λ x out. (split-other lt x out.0).0;
        same_next = λ x out other. (split-other lt x out.0).1 other;
        same_start = split-fixed.0;
        same_total = split-fixed.1;
      }

  whole-same :
      (b t : ℕ)
      → Placed a s previous b t
      → ((unlink (take_whole m n a) previous a).size b ≡ m.size b)
        × ((unlink (take_whole m n a) previous a).next b ≡ m.next b)
  unfolding take_whole unlink update_at
  whole-same b t placed = ground arith

  whole-head :
      ((unlink (take_whole m n a) previous a).size a ≡ s)
      × (link (unlink (take_whole m n a) previous a) previous ≡ m.next a)
  unfolding take_whole unlink link update_at
  whole-head = (let (_, size_a, _) = chain in let (out, _) = before in ground arith)

  whole-other :
      (x : ℕ)
      → ((unlink (take_whole m n a) previous a).size x ≡ m.size x)
        × (x ≢ previous → (unlink (take_whole m n a) previous a).next x ≡ m.next x)
  unfolding take_whole unlink update_at
  whole-other x = (ground arith, λ other. ground arith)

  whole-fixed :
      (previous ≢ 0 → (unlink (take_whole m n a) previous a).free_list ≡ m.free_list)
      × ((unlink (take_whole m n a) previous a).total_size ≡ m.total_size)
  unfolding take_whole unlink
  whole-fixed = (λ other. ground arith, ground arith)

  take_rest : Took m (unlink (take_whole m n a) previous a) previous ((a, s) ∷ l) (a, s) l
  take_rest =
      let (size_a, linked) = whole-head in
      let (_, _, tail) = chain in
      record {
        chain =
            IsChain-frame m.size m.next (unlink (take_whole m n a) previous a).size
              (unlink (take_whole m n a) previous a).next (m.next a)
              (link (unlink (take_whole m n a) previous a) previous) l linked
              (All-map (Placed a s previous)
                (λ b t.
                  ((unlink (take_whole m n a) previous a).size b ≡ m.size b)
                  × ((unlink (take_whole m n a) previous a).next b ≡ m.next b))
                whole-same l (Placed-All a s previous l good before))
              tail;
        header = size_a;
        same_size = λ x out. (whole-other x).0;
        same_next = λ x out other. (whole-other x).1 other;
        same_start = whole-fixed.0;
        same_total = whole-fixed.1;
      }

  fits_more : ltb (plus64 n block_size) (m.size a) ≡ ltb (n + block_size) s
  fits_more = (let (_, size_a, _) = chain in rw size_a (ground arith))

  -- The body of the loop takes what the list of blocks gives.
  pub take_block-Took :
      ((take_block m n previous a).0 ≡ a + 16)
      × Took m (take_block m n previous a).1 previous ((a, s) ∷ l) (cut n a s l).0 (cut n a s l).1
  unfolding take_block cut
  take_block-Took = (
    refl,
    rw fits_more (elim (Bool-cases (ltb (n + block_size) s)) [
      | inl large ↦ rw large (take_split (omega (arith, ltb→lt (n + block_size) s large)))
      | inr exact ↦ rw exact take_rest
    ]),
  )
