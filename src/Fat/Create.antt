-- ===== src/Fat/Create.antt =====
-- `createFAT32` of gpt/fat.c: checks the configuration, then writes the boot sectors, the FSInfo
-- sectors, both allocation tables and the root directory into the buffer at `buf`. Products and
-- sums of `uint32_t` wrap as in the source.
pub mod Bounds
pub mod Content
pub mod FreeCount
pub mod Geometry
pub mod Volume
use linux_util.Common.{
  ℕ, zero, suc, ◌+◌, ◌-◌, ◌*◌, ◌/◌, ◌%◌, ◌^◌, Bool, true, false, not, Option, none, some, List, [],
  ◌∷◌, bit_or, u32, sub32, ltb, ◌==◌, if◌then◌else◌,
}
use linux_util.Memory.{Memory, memset, memcpy, put_bytes}
use linux_util.Memory.Fields.{Field, field, store_fields}

-- The fields of `struct FATConfig` (gpt/fat.h); `createFAT32` does not read `writeRandomData`.
pub record FatConfig : Type 0 where
  pub n_sector : ℕ
  pub bytes_per_sector : ℕ
  pub cluster_size : ℕ
  pub write_random_data : Bool
  pub is_fixed : Bool

-- `for (int i = start; i < limit; i *= 2) if (x == i) ...`, with a bound on the rounds.
doubling_has : (rounds i limit x : ℕ) → Bool
doubling_has zero i limit x = false
doubling_has (suc rounds) i limit x =
    let rest = doubling_has rounds (i * 2) limit x in
    if ltb i limit then (if x == i then true else rest) else false

pub bytes_is_valid : ℕ → Bool
unfolding doubling_has
bytes_is_valid x = doubling_has 5 512 8192 x

pub cluster_size_is_valid : ℕ → Bool
unfolding doubling_has
cluster_size_is_valid x = doubling_has 9 1 256 x

-- `CDIV` at type `uint32_t`.
abbrev pub cdiv : ℕ → ℕ → ℕ
cdiv a b = sub32 (u32 (a + b)) 1 / b

module _ (cfg : FatConfig) where
  abbrev pub media : ℕ
  media = if cfg.is_fixed then 0xF8 else 0xF0

  abbrev pub num_entry_per_sector : ℕ
  num_entry_per_sector = cfg.bytes_per_sector / 4

  abbrev pub num_cluster_on_disk : ℕ
  num_cluster_on_disk = cfg.n_sector / cfg.cluster_size

  unfoldable pub fat_size_in_sector : ℕ
  fat_size_in_sector = cdiv num_cluster_on_disk num_entry_per_sector

  abbrev pub num_fat_sector : ℕ
  num_fat_sector = u32 (fat_size_in_sector * 2)

  abbrev pub num_free_fat_entry : ℕ
  num_free_fat_entry = sub32 (u32 (num_fat_sector * num_entry_per_sector)) 3

abbrev pub num_reserved_sector : ℕ
num_reserved_sector = 8

-- The string literals.
abbrev pub oef_name : List ℕ
oef_name = b'm' ∷ b'k' ∷ b'f' ∷ b's' ∷ b'.' ∷ b'f' ∷ b'a' ∷ b't' ∷ []

abbrev pub vol_label : List ℕ
vol_label = b'N' ∷ b'O' ∷ 32 ∷ b'N' ∷ b'A' ∷ b'M' ∷ b'E' ∷ 32 ∷ 32 ∷ 32 ∷ 32 ∷ []

abbrev pub file_sys_type : List ℕ
file_sys_type = b'F' ∷ b'A' ∷ b'T' ∷ b'3' ∷ b'2' ∷ 32 ∷ 32 ∷ 32 ∷ []

-- The numeric fields of `struct BPB`, in the order of the statements.
pub bpb_fields : FatConfig → List Field
bpb_fields cfg =
    field 11 2 cfg.bytes_per_sector
    ∷ field 13 1 cfg.cluster_size
    ∷ field 14 2 num_reserved_sector
    ∷ field 16 1 2
    ∷ field 17 2 0
    ∷ field 19 2 0
    ∷ field 21 1 (media cfg)
    ∷ field 24 2 32
    ∷ field 26 2 8
    ∷ field 28 4 0
    ∷ field 32 4 cfg.n_sector
    ∷ field 36 4 (fat_size_in_sector cfg)
    ∷ field 40 2 0
    ∷ field 42 2 0
    ∷ field 44 4 2
    ∷ field 48 2 1
    ∷ field 50 2 6
    ∷ field 64 1 0x80
    ∷ field 66 1 0x29
    ∷ field 67 4 0xe5792f15
    ∷ []

pub jump_fields : List Field
jump_fields = field 0 1 0xeb ∷ field 1 1 0 ∷ field 2 1 0x90 ∷ []

pub signature_fields : List Field
signature_fields = field 510 1 0x55 ∷ field 511 1 0xaa ∷ []

module _ (buf : ℕ) (cfg : FatConfig) where
  -- A pointer to sector `k` for the constants of the source.
  abbrev pub sector_at : ℕ → ℕ
  sector_at k = buf + u32 (cfg.bytes_per_sector * k)

  pub init_boot_sector : Memory → Memory
  unfolding bpb_fields jump_fields signature_fields
  init_boot_sector m =
      let m1 = store_fields buf jump_fields (memset buf 0 512 m) in
      let m2 = store_fields buf (bpb_fields cfg) (put_bytes (buf + 3) oef_name m1) in
      let m3 = put_bytes (buf + 82) file_sys_type (put_bytes (buf + 71) vol_label m2) in
      store_fields buf signature_fields m3

  pub copy_boot_sector : Memory → Memory
  copy_boot_sector m = memcpy (sector_at 6) buf 512 m

  pub fs_info_fields : List Field
  fs_info_fields =
      field 0 4 0x41615252
      ∷ field 484 4 0x61417272
      ∷ field 488 4 (num_free_fat_entry cfg)
      ∷ field 492 4 3
      ∷ field 508 4 0xAA550000
      ∷ []

  pub init_fs_info : Memory → Memory
  unfolding fs_info_fields
  init_fs_info m =
      memcpy (sector_at 7) (sector_at 1) 512 (store_fields (sector_at 1) fs_info_fields m)

  -- The first three entries of a table.
  pub table_fields : List Field
  table_fields =
      field 0 4 (bit_or 0xFFFF00 (media cfg))
      ∷ field 4 4 (bit_or 0x08000000 0x04000000)
      ∷ field 8 4 0xFFFFFFFF
      ∷ []

  abbrev pub first_table : ℕ
  first_table = sector_at num_reserved_sector

  abbrev pub second_table : ℕ
  second_table = sector_at (u32 (num_reserved_sector + fat_size_in_sector cfg))

  pub init_tables : Memory → Memory
  unfolding table_fields
  init_tables m =
      let cleared = memset first_table 0 (u32 (cfg.bytes_per_sector * num_fat_sector cfg)) m in
      store_fields second_table table_fields (store_fields first_table table_fields cleared)

  abbrev pub data_offset : ℕ
  data_offset = u32 (cfg.bytes_per_sector * u32 (num_reserved_sector + num_fat_sector cfg))

  pub init_root : Memory → Memory
  init_root m = memset (buf + data_offset) 0 (u32 (cfg.bytes_per_sector * cfg.cluster_size)) m

  pub write_volume : Memory → Memory
  unfolding init_boot_sector copy_boot_sector init_fs_info init_tables init_root
  write_volume m = init_root (init_tables (init_fs_info (copy_boot_sector (init_boot_sector m))))

  -- The return value and the buffer; `none` is the failed assertion on the number of clusters.
  pub create_fat32 : Memory → Option (ℕ × Memory)
  unfolding bytes_is_valid cluster_size_is_valid write_volume
  create_fat32 m =
      if ltb cfg.n_sector 16
      then some (1, m)
      else if not (bytes_is_valid cfg.bytes_per_sector)
      then some (1, m)
      else if not (cluster_size_is_valid cfg.cluster_size)
      then some (1, m)
      else if ltb 2 (num_cluster_on_disk cfg)
      then some (0, write_volume m)
      else none
