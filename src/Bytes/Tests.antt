-- ===== src/Bytes/Tests.antt =====
-- Copies of a memory whose bytes count their addresses.
use tp2_sistemas_operativos.Base.{
  ℕ, ◌+◌, ◌%◌, ◌≤◌, ◌<◌, ◌≡◌, refl, inr, ◌⊎◌, arith, update_at, pos, to_u8,
}
use tp2_sistemas_operativos.Bytes.{Bytes, memset, memcpy, word_loop, load_word, store_word}
use tp2_sistemas_operativos.Bytes.Copies.{Copied, memcpy-Copied, memset-fills}

abbrev counting : Bytes
counting = λ a. a % 256

memcpy-Copied_example :
    ((memcpy counting 8 1000 12).0 ≡ 8) × Copied counting (memcpy counting 8 1000 12).1 8 1000 0 12
memcpy-Copied_example = memcpy-Copied counting 8 1000 12 (λ a. omega arith) (inr (omega arith))

memset-fills_example :
    ((memset counting 8 (pos 7) 5).0 ≡ 8)
    × (((k : ℕ) → k < 5 → (memset counting 8 (pos 7) 5).1 (8 + k) ≡ to_u8 (pos 7))
        × ((x : ℕ) → (x < 8) ⊎ (8 + 5 ≤ x) → (memset counting 8 (pos 7) 5).1 x ≡ counting x))
memset-fills_example = memset-fills counting 8 (pos 7) 5

words_copied : (memcpy counting 8 1000 12).1 10 ≡ 234
unfolding memcpy word_loop load_word store_word update_at
words_copied = refl
