-- ===== src/Crc32/Reference.antt =====
-- The CRC bit by bit, as a division by the reversed polynomial, and that the table gives the same.
use linux_util.Common.{
  ℕ, zero, suc, ◌+◌, ◌*◌, ◌/◌, ◌%◌, ◌^◌, ◌≡◌, ◌<◌, refl, sym, ap, ◌∙◌, arith, Bool, true, ◌&&◌,
  ◌==◌, if◌then◌else◌, bit_xor, get_or, inl, inr, Bool-cases, u32, ltb, ltb→lt, mod-mul,
}
use linux_util.Bits.{bit_and-ones, bit_xor-digit}
use linux_util.Bits.Xor.{
  bit_xor-half, bit_xor-odd, bit_xor_assoc, bit_xor_comm, zero-bit_xor, bit_xor-double,
}
use native.Mathlib.Nat.{pow-succ', mul_assoc, div-div-eq-div-mul, one-le-pow}
use linux_util.Memory.{Memory}
use linux_util.Crc32.{crc32_round, efi_crc32, crc32}
use linux_util.Crc32.Table.{crc32_tab}

-- One bit: shift, and subtract the polynomial if a one falls out.
pub shift_bit : ℕ → ℕ
shift_bit c = if c % 2 == 1 then bit_xor (c / 2) 0xedb88320 else c / 2

pub shift_bits : (n c : ℕ) → ℕ
shift_bits zero c = c
shift_bits (suc n) c = shift_bits n (shift_bit c)

pub crc_bitwise : (buf len crc : ℕ) → Memory → ℕ
crc_bitwise buf zero crc m = crc
crc_bitwise buf (suc len) crc m = crc_bitwise (buf + 1) len (shift_bits 8 (bit_xor crc (m buf))) m

-- What is shifted above the bits that fall out stays as it is.
shift_bit-double : (a b : ℕ) → shift_bit (bit_xor a (2 * b)) ≡ bit_xor (shift_bit a) b
unfolding shift_bit
shift_bit-double a b =
    let odd : bit_xor a (2 * b) % 2 ≡ a % 2 = bit_xor-odd a (2 * b) ∙ omega arith in
    let p : ℕ = 0xedb88320 in
    let half = bit_xor-double a b in
    elim (Bool-cases (a % 2 == 1)) [
      | inl one ↦
          rw (odd, one, half)
            (bit_xor_assoc (a / 2) b p
              ∙ ap (bit_xor (a / 2)) (bit_xor_comm b p)
              ∙ sym (bit_xor_assoc (a / 2) p b))
      | inr none_out ↦ rw (odd, none_out) half
    ]

shift_bits-above : (n a q : ℕ) → shift_bits n (bit_xor a (2 ^ n * q)) ≡ bit_xor (shift_bits n a) q
unfolding shift_bits
shift_bits-above zero a q = ap (bit_xor a) (omega arith)
shift_bits-above (suc n) a q =
    let e : 2 ^ suc n * q ≡ 2 * (2 ^ n * q) =
      ground (arith, pow-succ' 2 n, mul_assoc 2 (2 ^ n) q) in
    ap (λ (t : ℕ). shift_bits (suc n) (bit_xor a t)) e
    ∙ ap (shift_bits n) (shift_bit-double a (2 ^ n * q))
    ∙ shift_bits-above n (shift_bit a) q

-- The eight bits of a byte, looked up.
all_below : ℕ → (ℕ → Bool) → Bool
all_below zero f = true
all_below (suc n) f = f n && all_below n f

all_below-get : (n : ℕ) (f : ℕ → Bool) → all_below n f ≡ true → (i : ℕ) → i < n → f i ≡ true
unfolding all_below
all_below-get zero f h i k = absurd (omega arith)
all_below-get (suc n) f h i k = elim (Bool-cases (f n)) [
  | inr fails ↦ absurd (ground (arith, h, fails))
  | inl holds ↦ elim (Bool-cases (ltb i n)) [
    | inl l ↦ all_below-get n f (ground (arith, h, holds)) i (ltb→lt i n l)
    | inr e ↦ ap f (ground (arith, e)) ∙ holds
  ]
]

table_holds : all_below 256 (λ i. get_or crc32_tab i 0 == shift_bits 8 i) ≡ true
unfolding all_below crc32_tab shift_bits shift_bit
table_holds = refl

==→≡ : (a b : ℕ) → (a == b) ≡ true → a ≡ b
==→≡ a b h = ground arith

crc32_tab_lem : (i : ℕ) → i < 256 → get_or crc32_tab i 0 ≡ shift_bits 8 i
crc32_tab_lem i h =
    ==→≡ (get_or crc32_tab i 0) (shift_bits 8 i)
      (all_below-get 256 (λ j. get_or crc32_tab j 0 == shift_bits 8 j) table_holds i h)

low_high : (k x : ℕ) → bit_xor (x % 2 ^ k) (2 ^ k * (x / 2 ^ k)) ≡ x
low_high zero x = ground (arith, zero-bit_xor x)
low_high (suc k) x = ground (
  arith,
  bit_xor-digit (x % 2 ^ suc k) (2 ^ suc k * (x / 2 ^ suc k)),
  pow-succ' 2 k,
  one-le-pow k 2,
  mod-mul 2 x (2 ^ k),
  div-div-eq-div-mul x 2 (2 ^ k),
  mul_assoc 2 (2 ^ k) (x / 2 / 2 ^ k),
  low_high k (x / 2),
)

half-high : (k a b : ℕ) → bit_xor a b / 2 ^ k ≡ bit_xor (a / 2 ^ k) (b / 2 ^ k)
half-high zero a b = ground arith
half-high (suc k) a b = ground (
  arith,
  pow-succ' 2 k,
  div-div-eq-div-mul (bit_xor a b) 2 (2 ^ k),
  div-div-eq-div-mul a 2 (2 ^ k),
  div-div-eq-div-mul b 2 (2 ^ k),
  bit_xor-half a b,
  half-high k (a / 2) (b / 2),
)

crc32_round_lem : (c s : ℕ) → s < 256 → crc32_round c s ≡ shift_bits 8 (bit_xor c s)
unfolding crc32_round
crc32_round_lem c s h =
    let x = bit_xor c s in
    let above : s / 2 ^ 8 ≡ 0 = omega arith in
    let top : x / 2 ^ 8 ≡ c / 2 ^ 8 =
      half-high 8 c s
      ∙ ap (bit_xor (c / 2 ^ 8)) above
      ∙ bit_xor_comm (c / 2 ^ 8) 0
      ∙ zero-bit_xor (c / 2 ^ 8) in
    rw (bit_and-ones 8 x, crc32_tab_lem (x % 256) (omega arith), sym top)
      (sym (shift_bits-above 8 (x % 256) (x / 256)) ∙ ap (shift_bits 8) (low_high 8 x))

pub efi_crc32_lem :
    (buf len seed : ℕ) (m : Memory)
    → ((a : ℕ) → m a < 256)
    → efi_crc32 buf len seed m ≡ crc_bitwise buf len seed m
unfolding efi_crc32 crc_bitwise
efi_crc32_lem buf zero seed m h = refl
efi_crc32_lem buf (suc len) seed m h =
    rw (crc32_round_lem seed (m buf) (h buf))
      (efi_crc32_lem (buf + 1) len (shift_bits 8 (bit_xor seed (m buf))) m h)

-- The whole sum: it starts from all ones and every bit of it is turned at the end.
-- `crc32` of gpt/gpt.c, on a buffer of bytes, is the complement, cut to 32 bits, of what a bitwise
-- division by the reversed polynomial 0xedb88320 leaves of the bytes, from 0xffffffff on: the
-- table, and the look-up of a byte at a time, change nothing.
pub crc32_lem :
    (buf len : ℕ) (m : Memory)
    → ((a : ℕ) → m a < 256)
    → crc32 buf len m ≡ u32 (bit_xor (crc_bitwise buf len 0xffff_ffff m) 0xffff_ffff_ffff_ffff)
unfolding crc32
crc32_lem buf len m h =
    ap (λ (t : ℕ). u32 (bit_xor t 0xffff_ffff_ffff_ffff)) (efi_crc32_lem buf len 0xffff_ffff m h)
