-- ===== src/Bits/Xor.antt =====
-- Exclusive or: the laws of a group in which every element is its own inverse, and how it goes
-- through a shift to the right.
use Prim.Native.Nat.{bit_xor-bitwise}
use linux_util.Common.{ℕ, zero, suc, ◌+◌, ◌*◌, ◌/◌, ◌%◌, ◌≤◌, bit_xor, ◌≡◌, arith}
use linux_util.Bits.{bit_xor-digit}

pub bit_xor-half : (a b : ℕ) → bit_xor a b / 2 ≡ bit_xor (a / 2) (b / 2)
bit_xor-half a b = omega (arith, bit_xor-digit a b)

pub bit_xor-odd : (a b : ℕ) → bit_xor a b % 2 ≡ (a + b) % 2
bit_xor-odd a b = omega (arith, bit_xor-digit a b)

pub zero-bit_xor : (b : ℕ) → bit_xor 0 b ≡ b
zero-bit_xor b = bit_xor-bitwise 0 b

comm_below : (n a b : ℕ) → a ≤ n → b ≤ n → bit_xor a b ≡ bit_xor b a
comm_below zero a b h k = ground arith
comm_below (suc n) a b h k = omega (
  arith,
  bit_xor-digit a b,
  bit_xor-digit b a,
  comm_below n (a / 2) (b / 2) (omega arith) (omega arith),
)

pub bit_xor_comm : (a b : ℕ) → bit_xor a b ≡ bit_xor b a
bit_xor_comm a b = comm_below (a + b) a b (omega arith) (omega arith)

assoc_below : (n a b c : ℕ) → a ≤ n → bit_xor (bit_xor a b) c ≡ bit_xor a (bit_xor b c)
assoc_below n zero b c h = ground (arith, zero-bit_xor b, zero-bit_xor (bit_xor b c))
assoc_below zero (suc a) b c h = absurd (omega arith)
assoc_below (suc n) (suc a) b c h =
    let x = suc a in
    ground (
      arith,
      bit_xor-digit (bit_xor x b) c,
      bit_xor-digit x (bit_xor b c),
      bit_xor-half x b,
      bit_xor-odd x b,
      bit_xor-half b c,
      bit_xor-odd b c,
      assoc_below n (x / 2) (b / 2) (c / 2) (omega arith),
    )

pub bit_xor_assoc : (a b c : ℕ) → bit_xor (bit_xor a b) c ≡ bit_xor a (bit_xor b c)
bit_xor_assoc a b c = assoc_below a a b c (omega arith)

-- A shifted value meets the upper digits only.
pub bit_xor-double : (a b : ℕ) → bit_xor a (2 * b) / 2 ≡ bit_xor (a / 2) b
bit_xor-double a b = let e : 2 * b / 2 ≡ b = omega arith in ground (arith, bit_xor-half a (2 * b))
