-- ===== src/Common/Numbers.antt =====
-- Division with remainder, and products under an order.
use Prim.Native.Nat.{ℕ, ◌+◌, ◌*◌, ◌/◌, ◌%◌, ◌≤◌, ◌<◌}
use mathlib.Core.Path.{◌≡◌, ap}
use native.Mathlib.Nat.{div-add-mod, div-div-eq-div-mul}
use native.Mathlib.Decide.{dec_lt}
use native.Mathlib.Omega.{arith}

-- A remainder by a product, digit by digit.
pub mod-mul : (d v k : ℕ) → v % (d * k) ≡ v % d + d * (v / d % k)
mod-mul d v k = omega (
  arith,
  div-add-mod v (d * k),
  div-add-mod v d,
  ap (λ (t : ℕ). d * t) (div-add-mod (v / d) k),
  ap (λ (t : ℕ). d * (k * t)) (div-div-eq-div-mul v d k),
)

pub mul_mono : (a b c d : ℕ) → a ≤ b → c ≤ d → a * c ≤ b * d
mul_mono a b c d h k = grind arith

pub lt_of_mul-lt : (a b c : ℕ) → a * b < a * c → b < c
lt_of_mul-lt a b c h = elim (dec_lt b c) [
  | yes p ↦ p
  | no p ↦ absurd (omega (arith, mul_mono a a c b (omega arith) (omega arith)))
]
