-- ===== src/Device/Zero/Filled.antt =====
-- What a read from the device gives.
use linux_util.Common.{
  ℕ, zero, suc, ◌+◌, ◌-◌, ◌≤◌, ◌<◌, ◌≡◌, refl, ap, ◌∙◌, inl, inr, Option, some, arith, ltb, ◌==◌,
  if◌then◌else◌, Bool-cases, ltb→lt, false,
}
use linux_util.Memory.{Memory, splice}
use linux_util.Memory.Frame.{SameOutside}
use linux_util.Device.Zero.{read_bytes, buf, buf_size, read_rounds, device_file_read}

-- `count` bytes from `user` on are zero, and the others are as before.
pub record ZeroFilled (user count : ℕ) (m m' : Memory) : Type 0 where
  pub zeros : (a : ℕ) → user ≤ a → a < user + count → m' a ≡ 0
  pub others : SameOutside user (user + count) m m'

module _ (copy_to_user : (to n : ℕ) → (ℕ → ℕ) → Memory → Option Memory)
    (copies : (to n : ℕ) (src : ℕ → ℕ) (m : Memory)
      → copy_to_user to n src m ≡ some (splice to n src m))
    (behind : ℕ → ℕ) where
  -- No bytes are left.
  nothing_left :
      (user tread position : ℕ) (m : Memory)
      → (m' : Memory) × (read_bytes tread (position + tread) m
          ≡ read_bytes (tread + 0) (position + (tread + 0)) m')
        × ZeroFilled user 0 m m'
  nothing_left user tread position m =
      let same : tread ≡ tread + 0 = omega arith in
      (
        m,
        ap (λ t. read_bytes t (position + t) m) same,
        record {
          zeros = λ a lo hi. absurd (omega arith);
          others = record { same = λ a out. refl };
        },
      )

  rounds-ZeroFilled :
      (fuel user count tread position : ℕ) (m : Memory)
      → count ≤ fuel
      → (m' : Memory) × (read_rounds copy_to_user behind fuel user count tread position m
          ≡ read_bytes (tread + count) (position + (tread + count)) m')
        × ZeroFilled user count m m'
  unfolding read_rounds
  rounds-ZeroFilled zero user zero tread position m enough = nothing_left user tread position m
  rounds-ZeroFilled (suc fuel) user zero tread position m enough =
      nothing_left user tread position m
  rounds-ZeroFilled zero user (suc count) tread position m enough = absurd (omega arith)
  rounds-ZeroFilled (suc fuel) user (suc count) tread position m enough =
      let bread = if ltb (suc count) buf_size then suc count else buf_size in
      let bound : (1 ≤ bread) × (bread ≤ suc count) × (bread ≤ 512) = ground arith in
      let some_left : (suc count == 0) ≡ false = ground arith in
      let total : tread + bread + (suc count - bread) ≡ tread + suc count = omega arith in
      let m1 = splice user bread (buf behind) m in
      let (m', eq, filled) =
        rounds-ZeroFilled fuel (user + bread) (suc count - bread) (tread + bread) position m1
          (omega arith) in
      (
        m',
        rw (some_left, copies user bread (buf behind) m)
            (eq ∙ ap (λ t. read_bytes t (position + t) m') total),
        record {
          zeros = λ a lo hi. elim (Bool-cases (ltb a (user + bread))) [
            | inl now ↦
                let here : a < user + bread = ltb→lt _ _ now in
                filled.others.same a (inl here) ∙ ground (arith, lo, here, bound)
            | inr later ↦ filled.zeros a (ground (arith, later)) (omega arith)
          ];
          others = record {
            same = λ a out. filled.others.same a (omega arith) ∙ ground (arith, out);
          };
        },
      )

  -- Where `copy_to_user` succeeds, a read from the zero device ends, returns the number of bytes
  -- asked for and moves the position by it; these bytes of the user's buffer are zero and all other
  -- bytes are as before. What the kernel has behind the device's array of 512 zeros is arbitrary, and
  -- none of it is copied.
  pub device_file_read-ZeroFilled :
      (user count position : ℕ) (m : Memory)
      → (m' : Memory) × (device_file_read copy_to_user behind user count position m
          ≡ read_bytes count (position + count) m')
        × ZeroFilled user count m m'
  unfolding device_file_read
  device_file_read-ZeroFilled user count position m =
      let (m', eq, filled) = rounds-ZeroFilled count user count 0 position m (omega arith) in
      let sum : 0 + count ≡ count = omega arith in
      (m', eq ∙ ap (λ t. read_bytes t (position + t) m') sum, filled)
