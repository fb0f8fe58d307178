-- ===== src/Buddy/Tree.antt =====
-- The blocks of Kernel/memory/buddyMemoryManagement.c as the leaves of a tree of halves.
use native.Mathlib.Nat.{two-pow-succ, mul-add, add-mul}
use tp2_sistemas_operativos.Base.{
  ℕ, zero, suc, ◌+◌, ◌-◌, ◌*◌, ◌^◌, ◌≤◌, ◌<◌, ◌≡◌, refl, sym, ap, ◌∙◌, arith, Bool, true, false,
  ◌&&◌, not, ◌⊎◌, inl, inr, ◌==◌, if◌then◌else◌, Bool-cases,
}
use tp2_sistemas_operativos.Buddy.Bits.{positive}

-- A block, free or not, or a block that has been split.
pub data Tree : Type 0 where
  leaf : Bool → Tree
  node : Tree → Tree → Tree

-- A tree without one of its blocks: the halves beside the way from this block to the top. The block is the
-- left or the right half of the next one.
pub data Around : Type 0 where
  top : Around
  left_half : Tree → Around → Around
  right_half : Tree → Around → Around

abbrev pub plug : Around → Tree → Tree
plug top t = t
plug (left_half r c) t = plug c (node t r)
plug (right_half l c) t = plug c (node l t)

abbrev pub same : Bool → Bool → Bool
same true b = b
same false b = not b

-- How many leaves there are of exponent `q` at the address `y`, in the tree of exponent `k` at `a`.
abbrev pub count : Bool → Tree → ℕ → ℕ → ℕ → ℕ → ℕ
count f (leaf g) a k q y = if same f g && (k == q && a == y) then 1 else 0
count f (node l r) a zero q y = 0
count f (node l r) a (suc k) q y = count f l a k q y + count f r (a + 2 ^ k) k q y

abbrev pub count_around : Bool → Around → ℕ → ℕ → ℕ → ℕ → ℕ
count_around f top x o q y = 0
count_around f (left_half r c) x o q y =
    count f r (x + 2 ^ o) o q y + count_around f c x (suc o) q y
count_around f (right_half l c) x o q y =
    count f l (x - 2 ^ o) o q y + count_around f c (x - 2 ^ o) (suc o) q y

module _ (size : ℕ → ℕ) (is_free : ℕ → Bool) where
  -- The headers in memory are those of the tree, and no block has less than 64 bytes.
  abbrev pub Reps : Tree → ℕ → ℕ → Type 0
  Reps (leaf f) a k = (size a ≡ 2 ^ k) × (is_free a ≡ f) × (6 ≤ k)
  Reps (node l r) a zero = true ≡ false
  Reps (node l r) a (suc k) = Reps l a k × Reps r (a + 2 ^ k) k

  module _ (start n : ℕ) where
    abbrev pub At : Around → ℕ → ℕ → Type 0
    At top x o = (x ≡ start) × (o ≡ n)
    At (left_half r c) x o = Reps r (x + 2 ^ o) o × At c x (suc o)
    At (right_half l c) x o = (p : ℕ) × (x ≡ p + 2 ^ o) × Reps l p o × At c p (suc o)

    pub plug-Reps :
        (c : Around) (t : Tree) (x o : ℕ) → At c x o → Reps t x o → Reps (plug c t) start n
    plug-Reps top t x o (e, e') h = rw (← e, ← e') h
    plug-Reps (left_half r c) t x o (hr, at) h = plug-Reps c (node t r) x (suc o) at (h, hr)
    plug-Reps (right_half l c) t x o (p, e, hl, at) h =
        plug-Reps c (node l t) p (suc o) at (hl, rw (← e) h)

    pub count-plug :
        (f : Bool) (c : Around) (t : Tree) (x o q y : ℕ)
        → At c x o
        → count f (plug c t) start n q y ≡ count f t x o q y + count_around f c x o q y
    count-plug f top t x o q y (e, e') = rw (e, e') (omega arith)
    count-plug f (left_half r c) t x o q y (hr, at) =
        omega (arith, count-plug f c (node t r) x (suc o) q y at)
    count-plug f (right_half l c) t x o q y (p, e, hl, at) =
        let back : x - 2 ^ o ≡ p = omega (arith, e) in
        rw (back, e) (omega (arith, count-plug f c (node l t) p (suc o) q y at))

    -- The way to a leaf of the tree that stands at `a` in what is around it.
    pub record Focus (f : Bool) (whole : Tree) (x o : ℕ) : Type 0 where
      pub around : Around
      pub at : At around x o
      pub here : Reps (leaf f) x o
      pub whole_is : plug around (leaf f) ≡ whole

    counted_leaf :
        (f g : Bool) (a k x o : ℕ) → 0 < count f (leaf g) a k o x → (f ≡ g) × (k ≡ o) × (a ≡ x)
    counted_leaf true true a k x o h = (refl, ground arith, ground arith)
    counted_leaf false false a k x o h = (refl, ground arith, ground arith)
    counted_leaf true false a k x o h = absurd (omega (arith, h))
    counted_leaf false true a k x o h = absurd (omega (arith, h))

    pub focus :
        (f : Bool) (t : Tree) (c : Around) (a k x o : ℕ)
        → At c a k
        → Reps t a k
        → 0 < count f t a k o x
        → Focus f (plug c t) x o
    focus f (leaf g) c a k x o at h one =
        let (same_flag, same_exponent, same_address) = counted_leaf f g a k x o one in
        record {
          around = c;
          at = rw (← same_exponent, ← same_address) at;
          here = rw (← same_exponent, ← same_address, same_flag) h;
          whole_is = ap (λ b. plug c (leaf b)) same_flag;
        }
    focus f (node l r) c a zero x o at h one = absurd (omega (arith, one))
    focus f (node l r) c a (suc k) x o at (hl, hr) one =
        elim (Bool-cases (count f l a k o x == 0)) [
          | inl none_left ↦
              focus f r (right_half l c) (a + 2 ^ k) k x o (a, refl, hl, at) hr
                (ground (arith, none_left))
          | inr some_left ↦
              focus f l (left_half r c) a k x o (hr, at) hl (ground (arith, some_left))
        ]

-- Trees read the headers of their own blocks alone.
module _ (size size' : ℕ → ℕ) (is_free is_free' : ℕ → Bool) where
  abbrev pub Agree : ℕ → Type 0
  Agree y = (size' y ≡ size y) × (is_free' y ≡ is_free y)

  pub Reps-Agree :
      (t : Tree) (a k : ℕ)
      → ((y : ℕ) → a ≤ y → y < a + 2 ^ k → Agree y)
      → Reps size is_free t a k
      → Reps size' is_free' t a k
  Reps-Agree (leaf f) a k h (s, e, large) =
      let (same_size, same_flag) = h a (omega arith) (omega (arith, positive k)) in
      (same_size ∙ s, same_flag ∙ e, large)
  Reps-Agree (node l r) a zero h e = e
  Reps-Agree (node l r) a (suc k) h (hl, hr) = (
    Reps-Agree l a k (λ y lo hi. h y lo (omega (arith, hi, two-pow-succ k))) hl,
    Reps-Agree r (a + 2 ^ k) k
        (λ y lo hi. h y (omega (arith, lo)) (omega (arith, hi, two-pow-succ k))) hr,
  )

  pub At-Agree :
      (start n : ℕ) (c : Around) (x o : ℕ)
      → ((y : ℕ) → (y < x) ⊎ (x + 2 ^ o ≤ y) → Agree y)
      → At size is_free start n c x o
      → At size' is_free' start n c x o
  At-Agree start n top x o h at = at
  At-Agree start n (left_half r c) x o h (hr, at) = (
    Reps-Agree r (x + 2 ^ o) o (λ y lo hi. h y (inr lo)) hr,
    At-Agree start n c x (suc o) (λ y out. h y (wider y x o out)) at,
  )
    where
      wider : (y x o : ℕ) → (y < x) ⊎ (x + 2 ^ suc o ≤ y) → (y < x) ⊎ (x + 2 ^ o ≤ y)
      wider y x o (inl lt) = inl lt
      wider y x o (inr le) = inr (omega (arith, le, two-pow-succ o))
  At-Agree start n (right_half l c) x o h (p, e, hl, at) = (
    p,
    e,
    Reps-Agree l p o (λ y lo hi. h y (inl (omega (arith, hi, e)))) hl,
    At-Agree start n c p (suc o) (λ y out. h y (wider y x p o e out)) at,
  )
    where
      wider :
          (y x p o : ℕ) → x ≡ p + 2 ^ o → (y < p) ⊎ (p + 2 ^ suc o ≤ y) → (y < x) ⊎ (x + 2 ^ o ≤ y)
      wider y x p o e (inl lt) = inl (omega (arith, lt, e))
      wider y x p o e (inr le) = inr (omega (arith, le, e, two-pow-succ o))

-- Where a block can stand: at a multiple of its size, inside the whole.
pub record Place (start n x o : ℕ) : Type 0 where
  pub multiple : ℕ
  pub address : x ≡ start + multiple * 2 ^ o
  pub fits : x + 2 ^ o ≤ start + 2 ^ n
  pub exponent : o ≤ n

twice_multiple : (m o : ℕ) → m * 2 ^ suc o ≡ (m + m) * 2 ^ o
twice_multiple m o =
    ap (λ d. m * d) (two-pow-succ o) ∙ mul-add m (2 ^ o) (2 ^ o) ∙ sym (add-mul m m (2 ^ o))

pub At-Place :
    (size : ℕ → ℕ) (is_free : ℕ → Bool) (start n : ℕ) (c : Around) (x o : ℕ)
    → At size is_free start n c x o
    → Place start n x o
At-Place size is_free start n top x o (e, e') = record {
  multiple = 0;
  address = omega (arith, e);
  fits = rw (e, e') (omega arith);
  exponent = omega (arith, e');
}
At-Place size is_free start n (left_half r c) x o (hr, at) =
    let next = At-Place size is_free start n c x (suc o) at in
    let m = next.multiple in
    record {
      multiple = m + m;
      address = omega (arith, next.address, twice_multiple m o);
      fits = omega (arith, next.fits, two-pow-succ o);
      exponent = omega (arith, next.exponent);
    }
At-Place size is_free start n (right_half l c) x o (p, e, hl, at) =
    let next = At-Place size is_free start n c p (suc o) at in
    let m = next.multiple in
    record {
      multiple = m + m + 1;
      address = omega (arith, next.address, e, twice_multiple m o, add-mul (m + m) 1 (2 ^ o));
      fits = omega (arith, next.fits, e, two-pow-succ o);
      exponent = omega (arith, next.exponent);
    }
