-- ===== src/Memory.antt =====
-- Memory as bytes: what `memset`, `memcpy` and loads and stores of little-endian integers do to
-- the buffers that gpt/fat.c and gpt/gpt.c fill. Addresses are byte offsets; the buffers are taken
-- to lie in one address space, and a byte that nobody wrote keeps its old value.
pub mod Laws
pub mod Fields
pub mod Frame
use linux_util.Common.{
  ℕ, zero, suc, ◌+◌, ◌-◌, ◌*◌, ◌/◌, ◌%◌, ◌^◌, List, [], ◌∷◌, ◌&&◌, leb, ltb, if◌then◌else◌, get_or,
  length,
}

abbrev pub Memory : Type 0
Memory = ℕ → ℕ

-- The bytes `a .. a + n` are given anew, the others stay.
abbrev pub splice : (a n : ℕ) → (ℕ → ℕ) → Memory → Memory
splice a n f m = λ x. if leb a x && ltb x (a + n) then f (x - a) else m x

unfoldable pub memset : (a v n : ℕ) → Memory → Memory
memset a v n m = splice a n (λ i. v % 256) m

-- Source and target do not overlap.
unfoldable pub memcpy : (dst src n : ℕ) → Memory → Memory
memcpy dst src n m = splice dst n (λ i. m (src + i)) m

-- `memcpy` from an array outside the buffer, such as a string literal.
unfoldable pub put_bytes : (a : ℕ) → List ℕ → Memory → Memory
put_bytes a bs m = splice a (length bs) (λ i. get_or bs i 0) m

-- The byte at place `i` of the little-endian form of `v`.
abbrev pub byte_of : ℕ → ℕ → ℕ
byte_of v i = v / 256 ^ i % 256

-- A store of `w` bytes in little-endian order.
unfoldable pub store_le : (w a v : ℕ) → Memory → Memory
store_le w a v m = splice a w (byte_of v) m

unfoldable pub load_le : (w a : ℕ) → Memory → ℕ
load_le zero a m = 0
load_le (suc w) a m = m a + 256 * load_le w (suc a) m

-- The `n` bytes from `a` on.
unfoldable pub bytes_at : (n a : ℕ) → Memory → List ℕ
bytes_at zero a m = []
bytes_at (suc n) a m = m a ∷ bytes_at n (suc a) m
