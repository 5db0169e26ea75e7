-- ===== src/Endian.antt =====
-- gpt/endian.h on a machine of either byte order. A pointer to an integer of `w` bytes is the
-- address of its bytes; the functions for 16, 32 and 64 bits are those of one family.
pub mod Portable
use linux_util.Common.{ℕ, ◌+◌, ◌-◌, ◌*◌, ◌/◌, ◌%◌, ◌^◌, Bool, ◌==◌, if◌then◌else◌}
use linux_util.Memory.{Memory, splice, byte_of, load_le}

pub data Host : Type 0 where
  little big : Host

-- The byte at place `i` of an integer of `w` bytes in the machine's memory.
abbrev pub native_byte : Host → (w v i : ℕ) → ℕ
native_byte little w v i = byte_of v i
native_byte big w v i = byte_of v (w - 1 - i)

-- An assignment through a pointer, and the reading of one.
abbrev pub native_store : Host → (w a v : ℕ) → Memory → Memory
native_store host w a v m = splice a w (native_byte host w v) m

abbrev pub native_load : Host → (w a : ℕ) → Memory → ℕ
native_load little w a m = load_le w a m
native_load big w a m = load_le w 0 (λ i. m (a + (w - 1 - i)))

-- `__little_endian`: the first byte of the integer 1.
unfoldable pub little_endian : Host → Bool
little_endian host = native_byte host 4 1 0 == 1

-- `__swap_16`, `__swap_32` and `__swap_64`: the integer whose bytes are those at `src`, reversed.
unfoldable pub swap : Host → (w src : ℕ) → Memory → ℕ
swap host w src m = native_load host w 0 (λ i. m (src + (w - 1 - i)))

-- `__load_le16`, `__load_le32` and `__load_le64`.
unfoldable pub host_load_le : Host → (w src : ℕ) → Memory → ℕ
host_load_le host w src m =
    if little_endian host then native_load host w src m else swap host w src m

-- `__store_le16`, `__store_le32` and `__store_le64`; `val` lies in a variable of its own.
unfoldable pub host_store_le : Host → (w dst val : ℕ) → Memory → Memory
host_store_le host w dst val m =
    if little_endian host
    then native_store host w dst val m
    else native_store host w dst (swap host w 0 (native_byte host w val)) m
