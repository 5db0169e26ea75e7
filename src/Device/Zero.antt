-- ===== src/Device/Zero.antt =====
-- `device_file_read` of device/zero/init.c. The kernel's `copy_to_user` is a parameter: the target,
-- the number of bytes, the source and the memory before give the memory after, or `none` where it
-- returns a number of bytes that it could not copy.
pub mod Filled
use linux_util.Common.{ℕ, zero, suc, ◌+◌, ◌-◌, Option, none, some, ltb, ◌==◌, if◌then◌else◌}
use linux_util.Memory.{Memory}

-- `-EFAULT`, or the number of bytes, the new position and the memory; and the end of the fuel.
pub data ReadResult : Type 0 where
  efault out_of_fuel : ReadResult
  read_bytes : (tread position : ℕ) → Memory → ReadResult

-- `static const char buf[512]`: the bytes of the kernel from the array on, with what lies behind it.
abbrev pub buf_size : ℕ
buf_size = 512

abbrev pub buf : (behind : ℕ → ℕ) → ℕ → ℕ
buf behind i = if ltb i buf_size then 0 else behind (i - buf_size)

-- `behind` is the memory of the kernel behind the array, which is not the user's to read.
module _ (copy_to_user : (to n : ℕ) → (ℕ → ℕ) → Memory → Option Memory) (behind : ℕ → ℕ) where
  -- The loop: each round copies a whole buffer, or what is left.
  unfoldable pub read_rounds : (fuel user_buffer count tread position : ℕ) → Memory → ReadResult
  read_rounds zero user_buffer count tread position m =
      if count == 0 then read_bytes tread (position + tread) m else out_of_fuel
  read_rounds (suc fuel) user_buffer count tread position m =
      let bread = if ltb count buf_size then count else buf_size in
      if count == 0
      then read_bytes tread (position + tread) m
      else elim (copy_to_user user_buffer bread (buf behind) m) [
        | none ↦ efault
        | some m' ↦
            read_rounds fuel (user_buffer + bread) (count - bread) (tread + bread) position m'
      ]

  -- There are at most `count` rounds.
  unfoldable pub device_file_read : (user_buffer count position : ℕ) → Memory → ReadResult
  device_file_read user_buffer count position m = read_rounds count user_buffer count 0 position m
