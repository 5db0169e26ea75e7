-- ===== src/Tests/Sums.antt =====
-- Dates, times, the entries of a boot sector and sums at concrete values.
use linux_util.Common.{
  Option, ℕ, ◌+◌, ◌*◌, ◌/◌, ◌%◌, ◌^◌, ◌≡◌, ◌<◌, refl, arith, some, bit_xor, u32,
}
use linux_util.Memory.{splice, Memory, store_le, load_le}
use linux_util.Fat.Layout.{Bpb, read_bpb}
use linux_util.Fat.Region.{
  num_sector_data_region, cluster_to_fat_entry, num_sector_data_region_lem,
  cluster_to_fat_entry_lem,
}
use linux_util.Fat.Stamp.{fat32_date, fat32_time, fat32_date-fields, fat32_time-fields}
use linux_util.Device.Zero.{read_bytes, device_file_read}
use linux_util.Device.Zero.Filled.{ZeroFilled, device_file_read-ZeroFilled}
use linux_util.Crc32.{crc32}
use linux_util.Crc32.Reference.{crc_bitwise, crc32_lem}

fat32_date-fields_example :
    (fat32_date 1995 2 21 % 32 ≡ 21)
    × (fat32_date 1995 2 21 / 32 % 16 ≡ 2)
    × (fat32_date 1995 2 21 / 512 + 1980 ≡ 1995)
    × (fat32_date 1995 2 21 < 2 ^ 16)
fat32_date-fields_example =
    fat32_date-fields 1995 2 21 (omega arith) (omega arith) (omega arith) (omega arith)

fat32_time-fields_example :
    (fat32_time 8 30 25 % 32 * 2 ≡ 24)
    × (fat32_time 8 30 25 / 32 % 64 ≡ 30)
    × (fat32_time 8 30 25 / 2048 ≡ 8)
    × (fat32_time 8 30 25 < 2 ^ 16)
fat32_time-fields_example = fat32_time-fields 8 30 25 (omega arith) (omega arith) (omega arith)

-- A boot sector for 64 sectors of 512 bytes with tables of one sector.
abbrev boot : Memory
boot =
    store_le 2 11 512
      (store_le 2 14 8 (store_le 1 16 2 (store_le 4 32 64 (store_le 4 36 1 (λ a. 0)))))

abbrev boot_block : Bpb
boot_block = read_bpb 0 boot

num_sector_data_region_lem_example : num_sector_data_region boot_block ≡ some 54
unfolding read_bpb load_le store_le
num_sector_data_region_lem_example =
    num_sector_data_region_lem boot_block 1 64 (λ h. absurd (h refl), λ e. refl)
      (λ h. absurd (h refl), λ e. refl) (omega arith) (omega arith)

cluster_to_fat_entry_lem_example :
    (r : ℕ) × (cluster_to_fat_entry boot_block 5 ≡ some r)
    × (r % 2 ^ 32 < boot_block.bytes_per_sector)
    × (r / 2 ^ 32 * boot_block.bytes_per_sector + r % 2 ^ 32
        ≡ boot_block.num_reserved_sectors * boot_block.bytes_per_sector + 4 * 5)
unfolding read_bpb load_le store_le
cluster_to_fat_entry_lem_example =
    cluster_to_fat_entry_lem boot_block 5 refl (omega arith) (omega arith) (omega arith)
      (omega arith) (omega arith)

-- The three bytes at 2, `6`, `6`, `6`.
abbrev sixes : Memory
sixes = λ a. 54

crc32_lem_example :
    crc32 2 3 sixes ≡ u32 (bit_xor (crc_bitwise 2 3 0xffff_ffff sixes) 0xffff_ffff_ffff_ffff)
crc32_lem_example = crc32_lem 2 3 sixes (λ a. omega arith)

abbrev copy_all : (to n : ℕ) → (ℕ → ℕ) → Memory → Option Memory
copy_all to n src m = some (splice to n src m)

-- What the kernel has behind the array.
abbrev leak : ℕ → ℕ
leak i = 255

device_file_read-ZeroFilled_example :
    (m' : Memory) × (device_file_read copy_all leak 8 1000 20 sixes ≡ read_bytes 1000 1020 m')
    × ZeroFilled 8 1000 sixes m'
device_file_read-ZeroFilled_example =
    device_file_read-ZeroFilled copy_all (λ to n src m. refl) leak 8 1000 20 sixes
