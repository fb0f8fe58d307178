-- ===== src/Bytes/Copies.antt =====
-- What memset and memcpy of lib.c leave in memory.
use tp2_sistemas_operativos.Base.{
  ℕ, zero, suc, ◌+◌, ◌*◌, ◌/◌, ◌%◌, ◌≤◌, ◌<◌, ◌≡◌, refl, ◌∙◌, ap, ◌⊎◌, inl, inr, arith, ◌&&◌, ◌==◌,
  update_at, ℤ, to_u8, Bool-cases, dec_lt, ℕ_discrete,
}
use tp2_sistemas_operativos.Bytes.{
  Bytes, memset, memset_loop, memcpy, word_loop, byte_loop, load_word, store_word,
}

-- The bytes of `source` now also stand at `destination`, and no other byte has changed.
pub record Copied (before after : Bytes) (destination source first last : ℕ) : Type 0 where
  pub copied : (k : ℕ) → first ≤ k → k < last → after (destination + k) ≡ before (source + k)
  pub others : (x : ℕ) → (x < destination + first) ⊎ (destination + last ≤ x) → after x ≡ before x

abbrev pub AreApart : ℕ → ℕ → ℕ → Type 0
AreApart d s length = (s + length ≤ d) ⊎ (d + length ≤ s)

abbrev pub AreBytes : Bytes → Type 0
AreBytes m = (a : ℕ) → m a < 256

byte_step :
    (m : Bytes) (d s i x : ℕ)
    → ((x < d + i) ⊎ (d + i < x))
    → update_at m (d + i) (m (s + i)) x ≡ m x
unfolding update_at
byte_step m d s i x h = ground arith

byte_first : (m : Bytes) (d s i : ℕ) → update_at m (d + i) (m (s + i)) (d + i) ≡ m (s + i)
unfolding update_at
byte_first m d s i = ground arith

pub byte_loop-Copied :
    (rounds : ℕ) (m : Bytes) (d s i : ℕ)
    → AreApart d s (i + rounds)
    → Copied m (byte_loop rounds m d s i) d s i (i + rounds)
unfolding byte_loop
byte_loop-Copied zero m d s i apart = record {
  copied = λ k low high. ground arith;
  others = λ x out. refl;
}
byte_loop-Copied (suc rounds) m d s i apart =
    let r = byte_loop-Copied rounds (update_at m (d + i) (m (s + i))) d s (i + 1) (ground arith) in
    record {
      copied = λ k low high. elim (dec_lt i k) [
        | yes later ↦
            r.copied k (omega arith) (omega arith) ∙ byte_step m d s i (s + k) (ground arith)
        | no now ↦
            let e : k ≡ i = omega arith in
            rw e (r.others (d + i) (inl (omega arith)) ∙ byte_first m d s i)
      ];
      others = λ x out. r.others x (ground arith) ∙ byte_step m d s i x (ground arith);
    }

word_step : (m : Bytes) (a w x : ℕ) → ((x < a) ⊎ (a + 4 ≤ x)) → store_word m a w x ≡ m x
unfolding store_word update_at
word_step m a w x h = ground arith

-- The four digits of a word.
digits :
    (a b c e : ℕ)
    → a < 256
    → b < 256
    → c < 256
    → e < 256
    → ((a + 256 * b + 65536 * c + 16777216 * e) % 256 ≡ a)
      × (((a + 256 * b + 65536 * c + 16777216 * e) / 256 % 256 ≡ b)
          × (((a + 256 * b + 65536 * c + 16777216 * e) / 65536 % 256 ≡ c)
              × ((a + 256 * b + 65536 * c + 16777216 * e) / 16777216 % 256 ≡ e)))
digits a b c e ha hb hc he = (omega arith, (omega arith, (omega arith, omega arith)))

store_word-at :
    (m : Bytes) (a w x : ℕ)
    → (x ≡ a → store_word m a w x ≡ w % 256)
      × ((x ≡ a + 1 → store_word m a w x ≡ w / 256 % 256)
          × ((x ≡ a + 2 → store_word m a w x ≡ w / 65536 % 256)
              × (x ≡ a + 3 → store_word m a w x ≡ w / 16777216 % 256)))
unfolding store_word update_at
store_word-at m a w x =
    (λ e. ground arith, (λ e. ground arith, (λ e. ground arith, λ e. ground arith)))

-- A word that is loaded and stored again is its four bytes.
word_bytes :
    (m : Bytes) (d s x y : ℕ)
    → AreBytes m
    → d ≤ x
    → x < d + 4
    → x + s ≡ y + d
    → store_word m d (load_word m s) x ≡ m y
unfolding load_word
word_bytes m d s x y bytes low high same =
    let (d0, (d1, (d2, d3))) =
      digits (m s) (m (s + 1)) (m (s + 2)) (m (s + 3)) (bytes s) (bytes (s + 1)) (bytes (s + 2))
        (bytes (s + 3)) in
    let (a0, (a1, (a2, a3))) = store_word-at m d (load_word m s) x in
    elim (ℕ_discrete x d) [
      | yes e ↦ a0 e ∙ d0 ∙ ap m (omega arith)
      | no n0 ↦ elim (ℕ_discrete x (d + 1)) [
        | yes e ↦ a1 e ∙ d1 ∙ ap m (omega arith)
        | no n1 ↦ elim (ℕ_discrete x (d + 2)) [
          | yes e ↦ a2 e ∙ d2 ∙ ap m (omega arith)
          | no n2 ↦ a3 (omega arith) ∙ d3 ∙ ap m (omega arith)
        ]
      ]
    ]

store_word-AreBytes : (m : Bytes) (a w : ℕ) → AreBytes m → AreBytes (store_word m a w)
unfolding store_word update_at
store_word-AreBytes m a w bytes x = (let b = bytes x in ground arith)

pub word_loop-Copied :
    (rounds : ℕ) (m : Bytes) (d s i : ℕ)
    → AreBytes m
    → AreApart d s (4 * (i + rounds))
    → Copied m (word_loop rounds m d s i) d s (4 * i) (4 * (i + rounds))
unfolding word_loop
word_loop-Copied zero m d s i bytes apart = record {
  copied = λ k low high. ground arith;
  others = λ x out. refl;
}
word_loop-Copied (suc rounds) m d s i bytes apart =
    let next = store_word m (d + 4 * i) (load_word m (s + 4 * i)) in
    let r =
      word_loop-Copied rounds next d s (i + 1)
        (store_word-AreBytes m (d + 4 * i) (load_word m (s + 4 * i)) bytes) (ground arith) in
    record {
      copied = λ k low high. elim (dec_lt k (4 * i + 4)) [
        | yes now ↦
            r.others (d + k) (inl (omega arith))
            ∙ word_bytes m (d + 4 * i) (s + 4 * i) (d + k) (s + k) bytes (omega arith) (omega arith)
                (omega arith)
        | no later ↦
            r.copied k (omega arith) (omega arith)
            ∙ word_step m (d + 4 * i) (load_word m (s + 4 * i)) (s + k) (ground arith)
      ];
      others = λ x out.
          r.others x (ground arith)
          ∙ word_step m (d + 4 * i) (load_word m (s + 4 * i)) x (ground arith);
    }

-- A copy between regions that have no byte in common, word by word where both addresses and the length
-- are multiples of 4 and byte by byte otherwise, copies every byte, changes no other one and returns the
-- destination.
pub memcpy-Copied :
    (m : Bytes) (destination source length : ℕ)
    → AreBytes m
    → AreApart destination source length
    → ((memcpy m destination source length).0 ≡ destination)
      × Copied m (memcpy m destination source length).1 destination source 0 length
unfolding memcpy
memcpy-Copied m d s length bytes apart = (
  refl,
  elim (Bool-cases (d % 4 == 0 && (s % 4 == 0 && length % 4 == 0))) [
    | inl aligned ↦
        let e : 4 * (0 + length / 4) ≡ length = ground arith in
        rw aligned (rw e at (word_loop-Copied (length / 4) m d s 0 bytes (rw e apart)))
    | inr other ↦
        (let e : 0 + length ≡ length = omega arith in
          rw other (rw e at (byte_loop-Copied length m d s 0 (rw e apart))))
  ],
)

memset_step : (m : Bytes) (a chr x : ℕ) → ((x < a) ⊎ (a < x)) → update_at m a chr x ≡ m x
unfolding update_at
memset_step m a chr x h = ground arith

memset_first : (m : Bytes) (a chr : ℕ) → update_at m a chr a ≡ chr
unfolding update_at
memset_first m a chr = ground arith

memset_loop-fills :
    (length : ℕ) (m : Bytes) (dst chr : ℕ)
    → ((k : ℕ) → k < length → memset_loop length m dst chr (dst + k) ≡ chr)
      × ((x : ℕ) → (x < dst) ⊎ (dst + length ≤ x) → memset_loop length m dst chr x ≡ m x)
unfolding memset_loop
memset_loop-fills zero m dst chr = (λ k h. ground arith, λ x h. refl)
memset_loop-fills (suc length) m dst chr =
    let (filled, others) = memset_loop-fills length (update_at m (dst + length) chr) dst chr in
    (
      λ k h. elim (dec_lt k length) [
        | yes low ↦ filled k low
        | no top ↦
            let e : k ≡ length = omega arith in
            rw e (others (dst + length) (inr (omega arith)) ∙ memset_first m (dst + length) chr)
      ],
      λ x h. others x (ground arith) ∙ memset_step m (dst + length) chr x (ground arith),
    )

-- memset makes each of the bytes the lowest byte of `c`, changes no other one and returns the destination.
pub memset-fills :
    (m : Bytes) (destination : ℕ) (c : ℤ) (length : ℕ)
    → ((memset m destination c length).0 ≡ destination)
      × (((k : ℕ) → k < length → (memset m destination c length).1 (destination + k) ≡ to_u8 c)
          × ((x : ℕ)
              → (x < destination) ⊎ (destination + length ≤ x)
              → (memset m destination c length).1 x ≡ m x))
unfolding memset
memset-fills m destination c length = (refl, memset_loop-fills length m destination (to_u8 c))
