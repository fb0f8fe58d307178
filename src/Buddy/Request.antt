-- ===== src/Buddy/Request.antt =====
-- malloc of Kernel/memory/buddyMemoryManagement.c on a heap that is a tree of halves.
use mathlib.Core.Path.{subst}
use native.Mathlib.Nat.{two-pow-succ}
use tp2_sistemas_operativos.Base.{
  ℕ, zero, suc, ◌+◌, ◌-◌, ◌^◌, ◌≤◌, ◌<◌, ◌≡◌, refl, sym, ap, ◌∙◌, arith, true, false, ◌&&◌, ◌⊎◌,
  inl, inr, ltb, ◌==◌, if◌then◌else◌, none, some, List, [], ◌∷◌,
}
use tp2_sistemas_operativos.Memory.{plus64}
use tp2_sistemas_operativos.Buddy.{
  Buddy, Found, set_list, required_size, get_order, next_power_of_2, find_loop, split_loop,
  take_block, give, malloc,
}
use tp2_sistemas_operativos.Buddy.Bits.{exponent-le, exponent-lt, power_mono}
use tp2_sistemas_operativos.Buddy.Orders.{next_power_of_2-IsLeastPower, get_order-power}
use tp2_sistemas_operativos.Buddy.Tree.{Tree, leaf, plug, At-Place, count, count-plug, Focus}
use tp2_sistemas_operativos.Buddy.Hole.{Area}
use tp2_sistemas_operativos.Buddy.Pairs.{occ}
use tp2_sistemas_operativos.Buddy.Split.{Finds, find_loop-Finds, split_loop-Splits}
use tp2_sistemas_operativos.Buddy.Heap.{IsBuddy, count-Focus, first-Focus, taken-Hole, take-IsBuddy}

-- The number of bytes that a request needs at least: its own and a header, and no less than 64.
abbrev pub needed : ℕ → ℕ
needed size = if ltb (size + 24) 64 then 64 else size + 24

-- The order of a request, and that no smaller one is enough.
pub record Order (size : ℕ) : Type 0 where
  pub order : ℕ
  pub is_order : get_order (required_size size) ≡ order
  pub large : 6 ≤ suc order
  pub enough : needed size ≤ 2 ^ suc order
  pub least : 2 ^ suc order < needed size + needed size

of_exponent :
    (size e : ℕ)
    → size + 24 ≤ 2 ^ 63
    → required_size size ≡ 2 ^ e
    → needed size ≤ 2 ^ e
    → 2 ^ e < needed size + needed size
    → Order size
of_exponent size zero bound is_power enough least =
    let one : needed size ≤ 1 = omega (arith, enough) in absurd (ground (arith, one))
of_exponent size (suc j) bound is_power enough least =
    let below : needed size ≤ 2 ^ 63 = ground (arith, bound) in
    let large : 2 ^ 6 ≤ 2 ^ suc j = ground (arith, enough) in
    let small : 2 ^ suc j < 2 ^ 64 = omega (arith, least, below) in
    let not_large : j < 64 = omega (arith, exponent-lt (suc j) 64 small) in
    record {
      order = j;
      is_order = ap (λ s. get_order s) is_power ∙ get_order-power j small not_large;
      large = exponent-le 6 (suc j) large;
      enough = enough;
      least = least;
    }

request-Order : (size : ℕ) → size + 24 ≤ 2 ^ 63 → Order size
request-Order size bound =
    let power = next_power_of_2-IsLeastPower (needed size) (ground arith) (ground (arith, bound)) in
    of_exponent size power.exponent bound (required ∙ power.is_power)
      (omega (arith, power.enough, power.is_power)) (omega (arith, power.least, power.is_power))
  where
    required : required_size size ≡ next_power_of_2 (needed size)
    required =
        let wrap : plus64 size 24 ≡ size + 24 = omega (arith, bound) in
        unfold required_size in rw wrap refl

-- What malloc makes of a request: a block, or nothing if no free block is large enough.
pub record Gives (b : Buddy) (n : ℕ) (t : Tree) (size : ℕ) (r : ℕ × Buddy) : Type 0 where
  pub block : ℕ
  pub exponent : ℕ
  pub tree : Tree
  pub address : r.0 ≡ block + 24
  pub heap : IsBuddy r.1 n tree
  pub enough : needed size ≤ 2 ^ exponent
  pub least : 2 ^ exponent < needed size + needed size
  pub same_start : r.1.start ≡ b.start
  pub used :
      (q y : ℕ)
      → count false tree b.start n q y
        ≡ (if exponent == q && block == y then 1 else 0) + count false t b.start n q y

pub record Refuses (b : Buddy) (n : ℕ) (t : Tree) (size : ℕ) (r : ℕ × Buddy) : Type 0 where
  pub unchanged : r ≡ (0, b)
  pub none_free :
      (q y : ℕ) → q < 28 → needed size ≤ 2 ^ suc q → count true t b.start n (suc q) y ≡ 0

abbrev pub Serves : Buddy → ℕ → Tree → ℕ → ℕ × Buddy → Type 0
Serves b n t size r = Gives b n t size r ⊎ Refuses b n t size r

set_list-Area : (b : Buddy) (n q : ℕ) (rest : List ℕ) → Area b n → Area (set_list b q rest) n
unfolding set_list
set_list-Area b n q rest area = record {
  small = area.small;
  orders = area.orders;
  nonzero = area.nonzero;
  inside = area.inside;
  below = area.below;
  edge = area.edge;
}

-- The block that the search found is split and given.
pub given :
    (b : Buddy) (n : ℕ) (t : Tree) (size q x : ℕ) (rest : List ℕ) (o : Order size)
    → IsBuddy b n t
    → o.order ≤ q
    → b.free_lists q ≡ x ∷ rest
    → Focus b.size b.is_free b.start n true t x (suc q)
    → Gives b n t size (give b o.order (some (x, (q, set_list b q rest))))
unfolding set_list take_block
given b n t size q x rest o heap le e foc =
    let found = set_list b q rest in
    let after = split_loop (q - o.order) found x q in
    let s =
      split_loop-Splits (q - o.order) found n foc.around x o.order q
        (set_list-Area b n q rest heap.area) (taken-Hole b n t q x rest heap e foc) o.large
        (omega (arith, le)) in
    let place =
      At-Place after.size after.is_free after.start n s.around x (suc o.order) s.hole.at in
    record {
      block = x;
      exponent = suc o.order;
      tree = plug s.around (leaf false);
      address =
          omega
            (arith, place.fits, s.area.inside, s.area.below, power_mono 6 (suc o.order) o.large);
      heap = take-IsBuddy after n s.around x (suc o.order) s.area s.hole;
      enough = o.enough;
      least = o.least;
      same_start = s.same_start;
      used = λ i y.
          let moved =
            ap (λ w. count false (plug s.around (leaf false)) w n i y) (sym s.same_start) in
          let new =
            count-plug after.size after.is_free after.start n false s.around (leaf false) x
              (suc o.order) i y s.hole.at in
          omega
            (arith, moved, new, s.same_used i y, count-Focus b n true false t x (suc q) i y foc);
    }

refused :
    (b : Buddy) (n : ℕ) (t : Tree) (size : ℕ) (o : Order size)
    → IsBuddy b n t
    → ((q : ℕ) → o.order ≤ q → q < 28 → b.free_lists q ≡ [])
    → Refuses b n t size (0, b)
refused b n t size o heap empty = record {
  unchanged = refl;
  none_free = λ q y lt fits.
      let near : 2 ^ suc o.order < 2 ^ suc (suc q) =
        omega (arith, o.least, fits, two-pow-succ (suc q)) in
      let le : o.order ≤ q = omega (arith, exponent-lt (suc o.order) (suc (suc q)) near) in
      sym (heap.lists q y lt) ∙ ap (λ l. occ y l) (empty q le lt);
}

found-Serves :
    (b : Buddy) (n : ℕ) (t : Tree) (size : ℕ) (o : Order size) (r : Found)
    → IsBuddy b n t
    → Finds b o.order r
    → Serves b n t size (give b o.order r)
found-Serves b n t size o none heap h = inr (refused b n t size o heap h)
found-Serves b n t size o (some (x, (q, after))) heap (rest, le, lt, e, same, empty) = inl (
    subst (λ w. Gives b n t size (give b o.order (some (x, (q, w))))) (sym same)
      (given b n t size q x rest o heap le e (first-Focus b n t q x rest heap lt e)))

-- On a tree of halves, malloc gives a block of the least power of two that holds the request with its
-- header and at least 64 bytes; the tree then has this block more in use and no other one. It refuses
-- only if no free block is as large as needed, and then changes nothing.
pub malloc-Serves :
    (b : Buddy) (n : ℕ) (t : Tree) (size : ℕ)
    → IsBuddy b n t
    → size + 24 ≤ 2 ^ 63
    → Serves b n t size (malloc b size)
unfolding malloc
malloc-Serves b n t size heap bound =
    let o = request-Order size bound in
    rw o.is_order (
      found-Serves b n t size o (find_loop (28 - o.order) b o.order) heap
        (find_loop-Finds (28 - o.order) b o.order refl))
