-- ===== src/Proc/Ledger.antt =====
-- A memory manager of Kernel/include/memoryManagement.h whose calls are written down beside it: the blocks
-- that it has given and not got back. The manager itself, and what it returns, are unchanged.
use tp2_sistemas_operativos.Base.{
  ℕ, ◌+◌, ◌<◌, ◌≤◌, ◌≡◌, ◌≢◌, ap, refl, inl, inr, arith, false, List, [], ◌∷◌, ◌==◌, ==_iff,
  if◌then◌else◌, Bool-cases,
}
use tp2_sistemas_operativos.Alloc.{Allocator}

-- The addresses that are in use, and the number of times that an address was freed that is not in use.
pub record Traced (H : Type 0) : Type 0 where
  pub heap : H
  pub in_use : List ℕ
  pub wild : ℕ

-- Whether `a` is the address `b`. NULL is no block.
pub one_at : ℕ → ℕ → ℕ
one_at a b = if b == 0 then 0 else if b == a then 1 else 0

pub one_at_null : (a : ℕ) → one_at a 0 ≡ 0
unfolding one_at
one_at_null a = refl

-- How often a block stands in a list.
abbrev pub times : ℕ → List ℕ → ℕ
times a [] = 0
times a (b ∷ bs) = one_at a b + times a bs

remove_one : ℕ → List ℕ → List ℕ
remove_one a [] = []
remove_one a (b ∷ bs) = if b == a then bs else b ∷ remove_one a bs

times-remove_one :
    (a b : ℕ) (bs : List ℕ)
    → b ≢ 0
    → 0 < times b bs
    → times a (remove_one b bs) + one_at a b ≡ times a bs
unfolding remove_one one_at
times-remove_one a b [] set h = absurd (omega arith)
times-remove_one a b (c ∷ bs) set h = elim (Bool-cases (c == b)) [
  | inl e ↦ (let same = (==_iff c b).0 e in rw (e, same) (omega arith))
  | inr e ↦ ground (arith, e, times-remove_one a b bs set)
]

module _ (A : Allocator) where
  open A use {Heap, malloc, free, free_null}

  unfoldable pub traced_malloc : ℕ → Traced Heap → ℕ × Traced Heap
  traced_malloc n l =
      let (at, h) = malloc n l.heap in
      (at, record l { heap = h; in_use = if at == 0 then l.in_use else at ∷ l.in_use })

  unfoldable pub traced_free : ℕ → Traced Heap → Traced Heap
  unfolding remove_one
  traced_free at l =
      let after = record l { heap = free at l.heap } in
      if at == 0
      then after
      else if times at l.in_use == 0
      then record after { wild = l.wild + 1 }
      else record after { in_use = remove_one at l.in_use }

  pub traced_free-null : (l : Traced Heap) → traced_free 0 l ≡ l
  unfolding traced_free
  traced_free-null l = ap (λ h. record l { heap = h }) (free_null l.heap)

  abbrev pub traced : Allocator
  traced = record {
    Heap = Traced Heap;
    malloc = traced_malloc;
    free = traced_free;
    free_null = traced_free-null;
  }

-- The blocks `got` are in use beside those that were, and no address was freed that was not in use.
pub record Gives {H : Type 0} (l l' : Traced H) (got : List ℕ) : Type 0 where
  pub same_wild : l'.wild ≡ l.wild
  pub gained : (a : ℕ) → times a l'.in_use ≡ times a l.in_use + times a got

-- The blocks `gone` are not in use any more, and each was in use when it was freed.
pub record GivesBack {H : Type 0} (l l' : Traced H) (gone : List ℕ) : Type 0 where
  pub same_wild : l'.wild ≡ l.wild
  pub lost : (a : ℕ) → times a l'.in_use + times a gone ≡ times a l.in_use

module _ (A : Allocator) where
  open A use {Heap}

  pub malloc-Gives :
      (n : ℕ) (l : Traced Heap) → Gives l (traced_malloc A n l).1 ((traced_malloc A n l).0 ∷ [])
  unfolding traced_malloc one_at
  malloc-Gives n l = record { same_wild = refl; gained = λ a. ground arith }

  pub free-GivesBack :
      (at : ℕ) (l : Traced Heap)
      → one_at at at ≤ times at l.in_use
      → GivesBack l (traced_free A at l) (at ∷ [])
  unfolding traced_free
  free-GivesBack at l h = elim (Bool-cases (at == 0)) [
    | inl null ↦
        let e = (==_iff at 0).0 null in
        rw null
          (record { same_wild = refl; lost = λ a. omega (arith, ap (one_at a) e, one_at_null a) })
    | inr set ↦
        let nonzero : at ≢ 0 = ground (arith, set) in
        let there : 0 < times at l.in_use = omega (arith, one_at_self at nonzero) in
        let counted : (times at l.in_use == 0) ≡ false = ground (arith, there) in
        rw (set, counted)
          (record {
            same_wild = refl;
            lost = λ a. omega (arith, times-remove_one a at l.in_use nonzero there);
          })
  ]
    where
      one_at_self : (b : ℕ) → b ≢ 0 → one_at b b ≡ 1
      one_at_self b h = unfold one_at in ground arith
