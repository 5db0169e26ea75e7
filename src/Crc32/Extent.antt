-- ===== src/Crc32/Extent.antt =====
-- A sum of gpt/gpt.c reads its bytes only, and has 32 bits.
use linux_util.Common.{ℕ, zero, suc, ◌+◌, ◌^◌, ◌≡◌, ◌<◌, refl, ap, sym, ◌∙◌, u32, bit_xor, arith}
use linux_util.Memory.{Memory}
use linux_util.Crc32.{crc32_round, efi_crc32, crc32}

efi_crc32-ext :
    (a len seed : ℕ) (m m' : Memory)
    → ((i : ℕ) → i < len → m (a + i) ≡ m' (a + i))
    → efi_crc32 a len seed m ≡ efi_crc32 a len seed m'
unfolding efi_crc32
efi_crc32-ext a zero seed m m' h = refl
efi_crc32-ext a (suc len) seed m m' h =
    let zeroth : a + 0 ≡ a = omega arith in
    let first : m a ≡ m' a = ap m (sym zeroth) ∙ h 0 (omega arith) ∙ ap m' zeroth in
    rw first (
      efi_crc32-ext (a + 1) len (crc32_round seed (m' a)) m m' (λ i p.
        let shift : a + 1 + i ≡ a + suc i = omega arith in
        ap m shift ∙ h (suc i) (omega arith) ∙ ap m' (sym shift)))

pub crc32-ext :
    (a len : ℕ) (m m' : Memory)
    → ((i : ℕ) → i < len → m (a + i) ≡ m' (a + i))
    → crc32 a len m ≡ crc32 a len m'
unfolding crc32
crc32-ext a len m m' h =
    ap (λ (t : ℕ). u32 (bit_xor t 0xffff_ffff_ffff_ffff))
      (efi_crc32-ext a len (u32 0xffff_ffff_ffff_ffff) m m' h)

pub crc32-lt : (a len : ℕ) (m : Memory) → crc32 a len m < 2 ^ 32
unfolding crc32
crc32-lt a len m = omega arith
