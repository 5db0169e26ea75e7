-- ===== src/Fat/Stamp.antt =====
-- `FAT32Date` and `FAT32Time` of gpt/fat.c. The arguments and the result are `uint16_t`; what is
-- shifted is an `int` that fits.
use linux_util.Common.{ℕ, ◌+◌, ◌-◌, ◌*◌, ◌/◌, ◌%◌, ◌^◌, ◌≤◌, ◌<◌, ◌≡◌, arith, bit_and, bit_or, u16}
use linux_util.Bits.{bit_and-ones, bit_or-above, zero-bit_or}

pub fat32_date : (year month day : ℕ) → ℕ
fat32_date year month day =
    let ret = bit_or 0 (bit_and day 0x1F) in
    let ret = u16 (bit_or ret (bit_and month 0xF * 2 ^ 5)) in
    let year = u16 (year + 2 ^ 16 - 1980) in u16 (bit_or ret (bit_and year 0x7F * 2 ^ 9))

pub fat32_time : (hour minute second : ℕ) → ℕ
fat32_time hour minute second =
    let second = second / 2 in
    let ret = bit_or 0 (bit_and second 0x1F) in
    let ret = u16 (bit_or ret (bit_and minute 0x3F * 2 ^ 5)) in
    u16 (bit_or ret (bit_and hour 0x1F * 2 ^ 11))

date_sum :
    (year month day : ℕ)
    → fat32_date year month day
      ≡ day % 32 + month % 16 * 32 + u16 (year + 2 ^ 16 - 1980) % 128 * 512
unfolding fat32_date
date_sum year month day =
    let y = u16 (year + 2 ^ 16 - 1980) in
    ground (
      arith,
      bit_and-ones 5 day,
      bit_and-ones 4 month,
      bit_and-ones 7 y,
      zero-bit_or (day % 32),
      bit_or-above 5 (day % 32) (month % 16),
      bit_or-above 9 (day % 32 + month % 16 * 32) (y % 128),
    )

time_sum :
    (hour minute second : ℕ)
    → fat32_time hour minute second ≡ second / 2 % 32 + minute % 64 * 32 + hour % 32 * 2048
unfolding fat32_time
time_sum hour minute second = ground (
  arith,
  bit_and-ones 5 (second / 2),
  bit_and-ones 6 minute,
  bit_and-ones 5 hour,
  zero-bit_or (second / 2 % 32),
  bit_or-above 5 (second / 2 % 32) (minute % 64),
  bit_or-above 11 (second / 2 % 32 + minute % 64 * 32) (hour % 32),
)

-- A date from 1980 to 2107 can be read back from its three bit fields: the day from bits 0 to 4,
-- the month from bits 5 to 8 and the year from bits 9 to 15, and the packed date has 16 bits.
pub fat32_date-fields :
    (year month day : ℕ)
    → 1980 ≤ year
    → year ≤ 2107
    → month < 16
    → day < 32
    → let d = fat32_date year month day in
      (d % 32 ≡ day) × (d / 32 % 16 ≡ month) × (d / 512 + 1980 ≡ year) × (d < 2 ^ 16)
fat32_date-fields year month day lo hi hm hd = omega (arith, date_sum year month day)

-- A time of day can be read back from its three bit fields, its seconds up to one: the even number
-- of seconds from bits 0 to 4, the minute from bits 5 to 10 and the hour from bits 11 to 15.
pub fat32_time-fields :
    (hour minute second : ℕ)
    → hour < 32
    → minute < 64
    → second < 64
    → let t = fat32_time hour minute second in
      (t % 32 * 2 ≡ second - second % 2) × (t / 32 % 64 ≡ minute) × (t / 2048 ≡ hour) × (t < 2 ^ 16)
fat32_time-fields hour minute second hh hm hs = omega (arith, time_sum hour minute second)
