-- ===== src/Memory/FirstFit.antt =====
-- malloc of memoryManagement.c on the list of free blocks: the first block that is large enough.
use tp2_sistemas_operativos.Base.{
  leb→le, ℕ, zero, suc, ◌+◌, ◌<◌, ◌^◌, ◌≡◌, refl, sym, ap, ◌∙◌, inl, inr, [], ◌∷◌, arith, length,
  true, false, leb, if◌then◌else◌, Option, none, some, Bool-cases,
}
use tp2_sistemas_operativos.Memory.{Memory, take_block, malloc_loop}
use tp2_sistemas_operativos.Memory.Blocks.{
  Blocks, Outside, AreDisjoint, AreDisjoint-Outside, sizes, IsChain,
}
use tp2_sistemas_operativos.Memory.Take.{cut, link, Took, take_block-Took}

unfoldable pub first_fit : ℕ → Blocks → Option ((ℕ × ℕ) × Blocks)
first_fit n [] = none
first_fit n ((a, s) ∷ l) =
    let rest = first_fit n l in
    if leb n s
    then some (cut n a s l)
    else elim rest [ none ↦ none | some (b, l') ↦ some (b, (a, s) ∷ l') ]

-- The list of blocks says what the loop returns and leaves.
abbrev pub Fits : Memory → ℕ × Memory → ℕ → Blocks → Option ((ℕ × ℕ) × Blocks) → Type 0
Fits m (p, m') previous l none = (p ≡ 0) × (m' ≡ m)
Fits m (p, m') previous l (some (taken, left)) =
    (p ≡ taken.0 + 16) × Took m m' previous l taken left

IsSmall : Blocks → Type 0
IsSmall l = sizes l + 16 < 2 ^ 64

link_block : (m : Memory) (a : ℕ) → 0 < a → link m a ≡ m.next a
unfolding link
link_block m a nonzero = ground arith

link_same :
    (m m' : Memory) (previous a : ℕ)
    → link m previous ≡ a
    → m'.free_list ≡ m.free_list
    → m'.next previous ≡ m.next previous
    → link m' previous ≡ a
unfolding link
link_same m m' previous a at start next = ground arith

-- A block that is too small is passed over.
skip-Took :
    (m m' : Memory) (previous a s : ℕ) (l : Blocks) (taken : ℕ × ℕ) (left : Blocks)
    → AreDisjoint ((a, s) ∷ l)
    → Outside previous ((a, s) ∷ l)
    → IsChain m.size m.next (link m previous) ((a, s) ∷ l)
    → Took m m' a l taken left
    → Took m m' previous ((a, s) ∷ l) taken ((a, s) ∷ left)
skip-Took m m' previous a s l taken left (nonzero, nonempty, clear, good) (apart, outside)
      (at, size_a, _) t =
    let at_a = AreDisjoint-Outside a s l nonempty good clear in
    let start = t.same_start (λ e. omega arith) in
    let beside = t.same_next previous outside (λ e. ground arith) in
    record {
      chain = (
        link_same m m' previous a at start beside,
        t.same_size a at_a ∙ size_a,
        rw (link_block m' a nonzero) at t.chain,
      );
      header = t.header;
      same_size = λ x out. t.same_size x out.1;
      same_next = λ x out other. t.same_next x out.1 (λ e. ground arith);
      same_start = λ other. start;
      same_total = t.same_total;
    }

pub malloc_loop-take :
    (fuel : ℕ) (m : Memory) (n previous a : ℕ)
    → 0 < a
    → leb n (m.size a) ≡ true
    → malloc_loop (suc fuel) m n previous a ≡ take_block m n previous a
unfolding malloc_loop
malloc_loop-take fuel m n previous a nonzero large = ground arith

malloc_loop-skip :
    (fuel : ℕ) (m : Memory) (n previous a : ℕ)
    → 0 < a
    → leb n (m.size a) ≡ false
    → malloc_loop (suc fuel) m n previous a ≡ malloc_loop fuel m n a (m.next a)
unfolding malloc_loop
malloc_loop-skip fuel m n previous a nonzero small = ground arith

skip-Fits :
    (m : Memory) (r : ℕ × Memory) (previous a s : ℕ) (l : Blocks) (o : Option ((ℕ × ℕ) × Blocks))
    → AreDisjoint ((a, s) ∷ l)
    → Outside previous ((a, s) ∷ l)
    → IsChain m.size m.next (link m previous) ((a, s) ∷ l)
    → Fits m r a l o
    → Fits m r previous
        ((a, s) ∷ l)
        (elim o [ none ↦ none | some (b, left) ↦ some (b, (a, s) ∷ left) ])
skip-Fits m (p, m') previous a s l none good before chain fits = fits
skip-Fits m (p, m') previous a s l (some (taken, left)) good before chain (e, t) =
    (e, skip-Took m m' previous a s l taken left good before chain t)

malloc_loop-end :
    (fuel : ℕ) (m : Memory) (n previous : ℕ) → malloc_loop (suc fuel) m n previous 0 ≡ (0, m)
unfolding malloc_loop
malloc_loop-end fuel m n previous = refl

cut_at : (n a s : ℕ) (l : Blocks) → (cut n a s l).0.0 ≡ a
unfolding cut
cut_at n a s l = ground arith

-- The loop finds the first block that is large enough.
pub malloc_loop-Fits :
    (fuel : ℕ) (m : Memory) (n previous : ℕ) (l : Blocks)
    → 0 < n
    → length l < fuel
    → AreDisjoint l
    → sizes l + 16 < 2 ^ 64
    → Outside previous l
    → IsChain m.size m.next (link m previous) l
    → Fits m (malloc_loop fuel m n previous (link m previous)) previous l (first_fit n l)
unfolding first_fit sizes
malloc_loop-Fits zero m n previous l nonempty enough good small before chain = ground arith
malloc_loop-Fits (suc fuel) m n previous [] nonempty enough good small before chain =
    rw (chain, malloc_loop-end fuel m n previous) (refl, refl)
malloc_loop-Fits (suc fuel) m n previous ((a, s) ∷ l) nonempty enough good small before chain =
    let (nonzero, positive, clear, rest) = good in
    let (at, size_a, tail) = chain in
    rw at (elim (Bool-cases (leb n s)) [
      | inl large ↦
          rw (malloc_loop-take fuel m n previous a nonzero ((λ i. leb n (size_a i)) ∙ large), large)
            (let (e, took) =
                take_block-Took m n previous a s l nonempty (leb→le n s large) (omega arith) good
                  before (refl, size_a, tail) in
              (e ∙ ap (λ b. b + 16) (sym (cut_at n a s l)), took))
      | inr low ↦
          rw (malloc_loop-skip fuel m n previous a nonzero ((λ i. leb n (size_a i)) ∙ low), low)
            (skip-Fits m (malloc_loop fuel m n a (m.next a)) previous a s l (first_fit n l) good
              before chain
              (rw (link_block m a nonzero) at (
                malloc_loop-Fits fuel m n a l nonempty (omega arith) rest (omega arith)
                  (AreDisjoint-Outside a s l positive rest clear)
                  (rw (link_block m a nonzero) tail))))
    ])
