-- ===== src/Memory/Coalesce.antt =====
-- coalesce_free_blocks of memoryManagement.c on the list of free blocks.
use tp2_sistemas_operativos.Base.{
  ℕ, zero, suc, ◌+◌, ◌≤◌, ◌<◌, ◌^◌, ◌≡◌, ◌≢◌, refl, ◌∙◌, ◌⊎◌, inl, inr, [], ◌∷◌, arith, length,
  ◌==◌, if◌then◌else◌, update_at, Bool-cases, ==_iff,
}
use tp2_sistemas_operativos.Memory.{Memory, join_next, coalesce_loop}
use tp2_sistemas_operativos.Memory.Blocks.{
  Blocks, All-map, All-zip, Apart, Clear, Outside, AreDisjoint, AreDisjoint-All,
  AreDisjoint-Outside, sizes, IsChain, IsChain-frame,
}

-- The block at `a` with the blocks behind it in the list: those that start where it ends join it.
unfoldable pub merge : ℕ → ℕ → Blocks → Blocks
merge a s [] = (a, s) ∷ []
merge a s ((b, t) ∷ l) =
    let joined = merge a (s + t) l in
    let apart = merge b t l in if a + s == b then joined else (a, s) ∷ apart

-- A block that has no byte in common with the list has none with the merged list.
pub Clear-merge :
    (c u a s : ℕ) (l : Blocks) → 0 < u → Apart c u a s → Clear c u l → Clear c u (merge a s l)
unfolding merge
Clear-merge c u a s [] positive apart clear = (apart, _)
Clear-merge c u a s ((b, t) ∷ l) positive apart (apart_b, clear) = elim (Bool-cases (a + s == b)) [
  | inl adjacent ↦ rw adjacent (
      let e = (==_iff (a + s) b).0 adjacent in
      Clear-merge c u a (s + t) l positive (ground arith) clear)
  | inr gap ↦ rw gap (apart, Clear-merge c u b t l positive apart_b clear)
]

Clear-join :
    (a s b t : ℕ) (l : Blocks)
    → a + s ≡ b
    → AreDisjoint l
    → Clear a s l
    → Clear b t l
    → Clear a (s + t) l
Clear-join a s b t l e good clear clear_b =
    All-map (λ c u. ((0 < c) × (0 < u)) × (Apart a s c u × Apart b t c u))
      (λ c u. Apart a (s + t) c u) (λ c u h. ground arith) l
      (All-zip (λ c u. (0 < c) × (0 < u)) (λ c u. Apart a s c u × Apart b t c u) l
        (AreDisjoint-All l good)
        (All-zip (λ c u. Apart a s c u) (λ c u. Apart b t c u) l clear clear_b))

pub AreDisjoint-join :
    (a s b t : ℕ) (l : Blocks)
    → a + s ≡ b
    → AreDisjoint ((a, s) ∷ (b, t) ∷ l)
    → AreDisjoint ((a, s + t) ∷ l)
AreDisjoint-join a s b t l e (nonzero, nonempty, (_, clear), (_, _, clear_b, good)) =
    (nonzero, omega arith, Clear-join a s b t l e good clear clear_b, good)

pub AreDisjoint-merge :
    (a s : ℕ) (l : Blocks) → AreDisjoint ((a, s) ∷ l) → AreDisjoint (merge a s l)
unfolding merge
AreDisjoint-merge a s [] good = good
AreDisjoint-merge a s ((b, t) ∷ l) good = elim (Bool-cases (a + s == b)) [
  | inl adjacent ↦ rw adjacent (
      AreDisjoint-merge a (s + t) l
        (AreDisjoint-join a s b t l ((==_iff (a + s) b).0 adjacent) good))
  | inr gap ↦
      let (nonzero, nonempty, (apart, clear), rest) = good in
      rw gap (
        nonzero,
        nonempty,
        Clear-merge a s b t l nonempty apart clear,
        AreDisjoint-merge b t l rest,
      )
]

pub sizes-merge : (a s : ℕ) (l : Blocks) → sizes (merge a s l) ≡ s + sizes l
unfolding merge sizes
sizes-merge a s [] = refl
sizes-merge a s ((b, t) ∷ l) =
    (let joined = sizes-merge a (s + t) l in let rest = sizes-merge b t l in ground arith)

-- What the loop leaves of a memory, from the block at `a` on.
pub record Merged (m m' : Memory) (a : ℕ) (before after : Blocks) : Type 0 where
  pub chain : IsChain m'.size m'.next a after
  pub same_size : (x : ℕ) → Outside x before → m'.size x ≡ m.size x
  pub same_next : (x : ℕ) → Outside x before → m'.next x ≡ m.next x
  pub same_start : m'.free_list ≡ m.free_list
  pub same_total : m'.total_size ≡ m.total_size

join_next-fixed :
    (m : Memory) (a : ℕ)
    → ((join_next m a).free_list ≡ m.free_list) × ((join_next m a).total_size ≡ m.total_size)
unfolding join_next
join_next-fixed m a = (refl, refl)

module _ (m : Memory) (a s b t : ℕ) (l : Blocks) (adjacent : a + s ≡ b)
    (good : AreDisjoint ((a, s) ∷ (b, t) ∷ l)) (small : s + t < 2 ^ 64)
    (chain : IsChain m.size m.next a ((a, s) ∷ (b, t) ∷ l)) where
  join_next-same :
      (c u : ℕ)
      → ((0 < c) × (0 < u)) × Apart a s c u
      → ((join_next m a).size c ≡ m.size c) × ((join_next m a).next c ≡ m.next c)
  unfolding join_next update_at
  join_next-same c u h = ground arith

  join_next-head : ((join_next m a).size a ≡ s + t) × ((join_next m a).next a ≡ m.next b)
  unfolding join_next update_at
  join_next-head = let (_, size_a, (next_a, size_b, _)) = chain in ground arith

  join_next-IsChain : IsChain (join_next m a).size (join_next m a).next a ((a, s + t) ∷ l)
  join_next-IsChain =
      let (_, _, (_, _, tail)) = chain in
      (
        refl,
        join_next-head.0,
        IsChain-frame m.size m.next (join_next m a).size (join_next m a).next (m.next b)
            ((join_next m a).next a) l join_next-head.1
            (All-map (λ c u. ((0 < c) × (0 < u)) × Apart a s c u)
              (λ c u. ((join_next m a).size c ≡ m.size c) × ((join_next m a).next c ≡ m.next c))
              join_next-same l
              (All-zip (λ c u. (0 < c) × (0 < u)) (λ c u. Apart a s c u) l
                (AreDisjoint-All l good.3.3) good.2.1))
            tail,
      )

  join_next-other :
      (x : ℕ)
      → (x < a) ⊎ (a + s ≤ x)
      → ((join_next m a).size x ≡ m.size x) × ((join_next m a).next x ≡ m.next x)
  unfolding join_next update_at
  join_next-other x out = ground arith

coalesce_loop-end :
    (fuel : ℕ) (m : Memory) (a : ℕ) → m.next a ≡ 0 → coalesce_loop (suc fuel) m a ≡ m
unfolding coalesce_loop
coalesce_loop-end fuel m a last = ground arith

coalesce_loop-join :
    (fuel : ℕ) (m : Memory) (a : ℕ)
    → 0 < a
    → 0 < m.next a
    → a + m.size a ≡ m.next a
    → coalesce_loop (suc fuel) m a ≡ coalesce_loop fuel (join_next m a) a
unfolding coalesce_loop
coalesce_loop-join fuel m a nonzero more adjacent = ground arith

coalesce_loop-gap :
    (fuel : ℕ) (m : Memory) (a : ℕ)
    → 0 < a
    → 0 < m.next a
    → a + m.size a ≢ m.next a
    → coalesce_loop (suc fuel) m a ≡ coalesce_loop fuel m (m.next a)
unfolding coalesce_loop
coalesce_loop-gap fuel m a nonzero more gap = ground arith

-- A block whose neighbour is joined to it.
join-Merged :
    (m m' : Memory) (a s b t : ℕ) (l after : Blocks)
    → a + s ≡ b
    → AreDisjoint ((a, s) ∷ (b, t) ∷ l)
    → s + t < 2 ^ 64
    → IsChain m.size m.next a ((a, s) ∷ (b, t) ∷ l)
    → Merged (join_next m a) m' a ((a, s + t) ∷ l) after
    → Merged m m' a ((a, s) ∷ (b, t) ∷ l) after
join-Merged m m' a s b t l after adjacent good small chain r = record {
  chain = r.chain;
  same_size = λ x (out, (out_b, outside)).
      r.same_size x (ground arith, outside)
      ∙ (join_next-other m a s b t l adjacent good small chain x out).0;
  same_next = λ x (out, (out_b, outside)).
      r.same_next x (ground arith, outside)
      ∙ (join_next-other m a s b t l adjacent good small chain x out).1;
  same_start = r.same_start ∙ (join_next-fixed m a).0;
  same_total = r.same_total ∙ (join_next-fixed m a).1;
}

-- A block that ends before its neighbour stays as it is.
gap-Merged :
    (m m' : Memory) (a s b t : ℕ) (l after : Blocks)
    → AreDisjoint ((a, s) ∷ (b, t) ∷ l)
    → IsChain m.size m.next a ((a, s) ∷ (b, t) ∷ l)
    → Merged m m' b ((b, t) ∷ l) after
    → Merged m m' a ((a, s) ∷ (b, t) ∷ l) ((a, s) ∷ after)
gap-Merged m m' a s b t l after (nonzero, nonempty, clear, good) (_, size_a, (next_a, _, _)) r =
    let at_a = AreDisjoint-Outside a s ((b, t) ∷ l) nonempty good clear in
    record {
      chain = (refl, r.same_size a at_a ∙ size_a, rw (r.same_next a at_a, next_a) r.chain);
      same_size = λ x out. r.same_size x out.1;
      same_next = λ x out. r.same_next x out.1;
      same_start = r.same_start;
      same_total = r.same_total;
    }

-- The loop merges the list of blocks.
pub coalesce_loop-Merged :
    (fuel : ℕ) (m : Memory) (a s : ℕ) (l : Blocks)
    → length l < fuel
    → AreDisjoint ((a, s) ∷ l)
    → s + sizes l < 2 ^ 64
    → IsChain m.size m.next a ((a, s) ∷ l)
    → Merged m (coalesce_loop fuel m a) a ((a, s) ∷ l) (merge a s l)
unfolding merge sizes
coalesce_loop-Merged zero m a s l enough good small chain = ground arith
coalesce_loop-Merged (suc fuel) m a s [] enough good small chain =
    rw (coalesce_loop-end fuel m a chain.2) (record {
      chain = chain;
      same_size = λ x out. refl;
      same_next = λ x out. refl;
      same_start = refl;
      same_total = refl;
    })
coalesce_loop-Merged (suc fuel) m a s ((b, t) ∷ l) enough good small chain =
    let (_, size_a, (next_a, size_b, tail)) = chain in
    let more : 0 < m.next a = rw next_a good.3.0 in
    elim (Bool-cases (a + s == b)) [
      | inl adjacent ↦
          let e = (==_iff (a + s) b).0 adjacent in
          rw (adjacent, coalesce_loop-join fuel m a good.0 more (omega arith))
            (join-Merged m (coalesce_loop fuel (join_next m a) a) a s b t l (merge a (s + t) l) e
              good (omega arith) chain
              (coalesce_loop-Merged fuel (join_next m a) a (s + t) l (omega arith)
                (AreDisjoint-join a s b t l e good) (omega arith)
                (join_next-IsChain m a s b t l e good (omega arith) chain)))
      | inr gap ↦
          rw (gap, coalesce_loop-gap fuel m a good.0 more (λ e. ground arith))
            (gap-Merged m (coalesce_loop fuel m (m.next a)) a s b t l (merge b t l) good chain (
              rw next_a (
                coalesce_loop-Merged fuel m b t l (omega arith) good.3 (omega arith)
                  (refl, size_b, tail))))
    ]
