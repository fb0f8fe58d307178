-- ===== src/Pipe/Queue.antt =====
-- The bytes of a pipe of Kernel/pipes/pipe.c in the order in which they are read, round the end of its
-- buffer of 1024 bytes.
use tp2_sistemas_operativos.Base.{
  ℕ, zero, suc, ◌+◌, ◌%◌, ◌<◌, ◌≡◌, ◌≢◌, refl, ap, arith, List, [], ◌∷◌, ◌++◌, update_at, length,
}

-- `n` bytes of the buffer, the first at the place of `start`.
abbrev pub stored : (ℕ → ℕ) → ℕ → ℕ → List ℕ
stored bytes start zero = []
stored bytes start (suc n) = bytes (start % 1024) ∷ stored bytes (start + 1) n

pub stored-mod :
    (bytes : ℕ → ℕ) (a b n : ℕ) → a % 1024 ≡ b % 1024 → stored bytes a n ≡ stored bytes b n
stored-mod bytes a b zero e = refl
stored-mod bytes a b (suc n) e = rw (e, stored-mod bytes (a + 1) (b + 1) n (omega arith))

pub length-stored : (bytes : ℕ → ℕ) (start n : ℕ) → length (stored bytes start n) ≡ n
length-stored bytes start zero = refl
length-stored bytes start (suc n) = ap suc (length-stored bytes (start + 1) n)

pub stored_other :
    (bytes : ℕ → ℕ) (w v start n : ℕ)
    → ((k : ℕ) → k < n → (start + k) % 1024 ≢ w)
    → stored (update_at bytes w v) start n ≡ stored bytes start n
unfolding update_at
stored_other bytes w v start zero h = refl
stored_other bytes w v start (suc n) h = ground (
  arith,
  h 0,
  stored_other bytes w v (start + 1) n (λ k b e. h (k + 1) (omega arith) (omega arith)),
)

stored_snoc :
    (bytes : ℕ → ℕ) (start n : ℕ)
    → stored bytes start (suc n) ≡ stored bytes start n ++ (bytes ((start + n) % 1024) ∷ [])
stored_snoc bytes start zero = ap (λ k. bytes (k % 1024) ∷ []) (omega arith)
stored_snoc bytes start (suc n) =
    let here : (start + 1 + n) % 1024 ≡ (start + suc n) % 1024 = omega arith in
    rw (stored_snoc bytes (start + 1) n, here)

-- A byte written behind the `n` stored ones is the last to be read.
pub stored-write :
    (bytes : ℕ → ℕ) (v start n w : ℕ)
    → n < 1024
    → w ≡ (start + n) % 1024
    → stored (update_at bytes w v) start (n + 1) ≡ stored bytes start n ++ (v ∷ [])
stored-write bytes v start n w h e =
    let one_more : n + 1 ≡ suc n = omega arith in
    let kept = stored_other bytes w v start n (λ k b. omega arith) in
    rw (one_more, stored_snoc (update_at bytes w v) start n, kept, ← e, written)
  where
    written : update_at bytes w v w ≡ v
    written = unfold update_at in ground arith
