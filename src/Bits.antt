-- ===== src/Bits.antt =====
-- `&`, `|` and `^` of C at variables: one equation for the lowest binary digit of each, and the
-- laws that gpt/fat.c (packed dates, times and addresses) and gpt/gpt.c (the CRC) rest on.
pub mod Xor
use Prim.Native.Nat.{digits, bitwise, differ, bit_and-bitwise, bit_or-bitwise, bit_xor-bitwise}
use native.Mathlib.Nat.{pow-succ', one-le-pow}
use linux_util.Common.{
  ℕ, zero, suc, ◌+◌, ◌-◌, ◌*◌, ◌/◌, ◌%◌, ◌^◌, ◌≤◌, ◌<◌, min, max, bit_and, bit_or, bit_xor, ◌≡◌,
  refl, ap, ◌∙◌, arith, mod-mul,
}

-- The operations stand for a recursion on digits with fuel. More fuel changes nothing.
module _ (z : ℕ → ℕ) (f : ℕ → ℕ → ℕ) where
  more_fuel : (m n a b : ℕ) → n ≤ m → a ≤ n → digits z f m a b ≡ digits z f n a b
  more_fuel zero zero a b q p = refl
  more_fuel zero (suc n) a b q p = absurd (omega arith)
  more_fuel (suc m) zero zero b q p = refl
  more_fuel (suc m) (suc n) zero b q p = refl
  more_fuel (suc m) zero (suc a) b q p = absurd (omega arith)
  more_fuel (suc m) (suc n) (suc a) b q p =
      rw (more_fuel m n (suc a / 2) (b / 2) (omega arith) (omega arith))

  lowest_digit :
      (a b : ℕ)
      → bitwise z f (suc a) b ≡ bitwise z f (suc a / 2) (b / 2) * 2 + f (suc a % 2) (b % 2)
  lowest_digit a b = rw (more_fuel a (suc a / 2) (suc a / 2) (b / 2) (omega arith) (omega arith))

pub bit_and-digit : (a b : ℕ) → bit_and a b ≡ bit_and (a / 2) (b / 2) * 2 + min (a % 2) (b % 2)
bit_and-digit zero b = simp bit_and-bitwise (omega arith)
bit_and-digit (suc a) b = simp bit_and-bitwise (lowest_digit (λ y. 0) min a b)

pub bit_or-digit : (a b : ℕ) → bit_or a b ≡ bit_or (a / 2) (b / 2) * 2 + max (a % 2) (b % 2)
bit_or-digit zero b = simp bit_or-bitwise (omega arith)
bit_or-digit (suc a) b = simp bit_or-bitwise (lowest_digit (λ y. y) max a b)

-- Two digits differ when their sum is odd.
differ-mod : (p q : ℕ) → p < 2 → q < 2 → differ p q ≡ (p + q) % 2
differ-mod zero q h k = omega arith
differ-mod (suc p) zero h k = omega arith
differ-mod (suc zero) (suc zero) h k = refl
differ-mod (suc zero) (suc (suc q)) h k = absurd (omega arith)
differ-mod (suc (suc p)) (suc q) h k = absurd (omega arith)

pub bit_xor-digit : (a b : ℕ) → bit_xor a b ≡ bit_xor (a / 2) (b / 2) * 2 + (a + b) % 2
bit_xor-digit zero b = simp bit_xor-bitwise (omega arith)
bit_xor-digit (suc a) b =
    simp bit_xor-bitwise
      (lowest_digit (λ y. y) differ a b ∙ omega (arith, differ-mod (suc a % 2) (b % 2)))

pub zero-bit_or : (b : ℕ) → bit_or 0 b ≡ b
zero-bit_or b = bit_or-bitwise 0 b

no_digits : (n a : ℕ) → digits (λ y. 0) min n a 0 ≡ 0
no_digits zero a = refl
no_digits (suc n) zero = refl
no_digits (suc n) (suc a) = ground (arith, no_digits n (suc a / 2))

bit_and-zero : (a : ℕ) → bit_and a 0 ≡ 0
bit_and-zero a = simp bit_and-bitwise (no_digits a a)

-- The mask of `k` low bits takes the remainder by `2 ^ k`.
pub bit_and-ones : (k a : ℕ) → bit_and a (2 ^ k - 1) ≡ a % 2 ^ k
bit_and-ones zero a = omega (arith, bit_and-zero a)
bit_and-ones (suc k) a = ground (
  arith,
  bit_and-digit a (2 ^ suc k - 1),
  pow-succ' 2 k,
  one-le-pow k 2,
  mod-mul 2 a (2 ^ k),
  bit_and-ones k (a / 2),
)

-- A value of `k` bits and one that is shifted above it are joined by a sum.
pub bit_or-above : (k r q : ℕ) → r < 2 ^ k → bit_or r (q * 2 ^ k) ≡ r + q * 2 ^ k
bit_or-above zero r q h = ground (arith, zero-bit_or q)
bit_or-above (suc k) r q h = ground (
  arith,
  bit_or-digit r (q * 2 ^ suc k),
  pow-succ' 2 k,
  ap (λ (t : ℕ). q * t) (pow-succ' 2 k),
  bit_or-above k (r / 2) q,
)

bit_or-zero_below : (n a : ℕ) → a ≤ n → bit_or a 0 ≡ a
bit_or-zero_below n zero h = refl
bit_or-zero_below zero (suc a) h = absurd (omega arith)
bit_or-zero_below (suc n) (suc a) h =
    omega (arith, bit_or-digit (suc a) 0, bit_or-zero_below n (suc a / 2) (omega arith))

-- The same with the shifted value first.
pub above-bit_or : (k q r : ℕ) → r < 2 ^ k → bit_or (q * 2 ^ k) r ≡ q * 2 ^ k + r
above-bit_or zero q r h = ground (arith, bit_or-zero_below q q)
above-bit_or (suc k) q r h = ground (
  arith,
  bit_or-digit (q * 2 ^ suc k) r,
  pow-succ' 2 k,
  ap (λ (t : ℕ). q * t) (pow-succ' 2 k),
  above-bit_or k q (r / 2),
)
