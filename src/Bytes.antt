-- ===== src/Bytes.antt =====
-- memset and memcpy of Kernel/lib/lib.c on a memory of bytes.
mod Copies
mod Tests
use tp2_sistemas_operativos.Base.{
  ℕ, zero, suc, ◌+◌, ◌-◌, ◌*◌, ◌/◌, ◌%◌, Bool, ◌&&◌, ◌==◌, if◌then◌else◌, update_at, ℤ, to_u8,
}

abbrev pub Bytes : Type 0
Bytes = ℕ → ℕ

-- `while (length--)`: from the last byte to the first.
unfoldable pub memset_loop : ℕ → Bytes → ℕ → ℕ → Bytes
memset_loop zero m dst chr = m
memset_loop (suc length) m dst chr = memset_loop length (update_at m (dst + length) chr) dst chr

unfoldable pub memset : Bytes → ℕ → ℤ → ℕ → ℕ × Bytes
memset m destination c length = (destination, memset_loop length m destination (to_u8 c))

-- A word of 32 bits, the lowest byte first.
unfoldable pub load_word : Bytes → ℕ → ℕ
load_word m a = m a + 256 * m (a + 1) + 65536 * m (a + 2) + 16777216 * m (a + 3)

unfoldable pub store_word : Bytes → ℕ → ℕ → Bytes
store_word m a w =
    update_at
      (update_at (update_at (update_at m a (w % 256)) (a + 1) (w / 256 % 256)) (a + 2)
        (w / 65536 % 256))
      (a + 3) (w / 16777216 % 256)

-- The two loops of memcpy, with the rounds left and the index `i`.
unfoldable pub word_loop : ℕ → Bytes → ℕ → ℕ → ℕ → Bytes
word_loop zero m d s i = m
word_loop (suc rounds) m d s i =
    word_loop rounds (store_word m (d + 4 * i) (load_word m (s + 4 * i))) d s (i + 1)

unfoldable pub byte_loop : ℕ → Bytes → ℕ → ℕ → ℕ → Bytes
byte_loop zero m d s i = m
byte_loop (suc rounds) m d s i = byte_loop rounds (update_at m (d + i) (m (s + i))) d s (i + 1)

unfoldable pub memcpy : Bytes → ℕ → ℕ → ℕ → ℕ × Bytes
memcpy m destination source length = (
  destination,
  if destination % 4 == 0 && (source % 4 == 0 && length % 4 == 0)
      then word_loop (length / 4) m destination source 0
      else byte_loop length m destination source 0,
)
