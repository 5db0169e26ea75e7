-- ===== src/Crc32.antt =====
-- `__efi_crc32` and `crc32` of gpt/gpt.c over the bytes of a buffer.
pub mod Table
pub mod Reference
pub mod Extent
use linux_util.Common.{ℕ, zero, suc, ◌+◌, ◌/◌, ◌%◌, ◌^◌, bit_and, bit_xor, get_or, u32}
use linux_util.Memory.{Memory}
use Table.{crc32_tab}

-- One round: the next byte `s`.
pub crc32_round : (crc32val s : ℕ) → ℕ
crc32_round crc32val s =
    bit_xor (get_or crc32_tab (bit_and (bit_xor crc32val s) 0xff) 0) (crc32val / 2 ^ 8)

-- `len` rounds over the bytes from `buf` on.
pub efi_crc32 : (buf len seed : ℕ) → Memory → ℕ
unfolding crc32_round
efi_crc32 buf zero seed m = seed
efi_crc32 buf (suc len) seed m = efi_crc32 (buf + 1) len (crc32_round seed (m buf)) m

-- `~0L` has 64 bits; the parameter and the result of type `uint32_t` cut it.
pub crc32 : (buf len : ℕ) → Memory → ℕ
unfolding efi_crc32
crc32 buf len m =
    u32 (bit_xor (efi_crc32 buf len (u32 0xffff_ffff_ffff_ffff) m) 0xffff_ffff_ffff_ffff)
