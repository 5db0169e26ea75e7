-- ===== src/Gpt/Generate.antt =====
-- `GPTGenerate` of gpt/gpt.c.
use linux_util.Common.{
  ℕ, Bool, ◌+◌, ◌-◌, ◌*◌, ◌/◌, List, [], ◌∷◌, u64, sub64, ltb, ◌==◌, ◌||◌, if◌then◌else◌,
}
use linux_util.Memory.{Memory, memset, memcpy, put_bytes, store_le, load_le}
use linux_util.Memory.Fields.{Field, field, store_fields}
use linux_util.Crc32.{crc32}
use linux_util.Gpt.Config.{PartitionConfig, GptConfig, num_part, guid_bytes, block_size, get_sector}
use linux_util.Gpt.Protect.{create_protect_gpt}
use linux_util.Gpt.Allocate.{Allocation, allocate}
use linux_util.Gpt.Entries.{write_entries}

-- Four entries to a sector.
abbrev pub num_sector_for_array : GptConfig → ℕ
num_sector_for_array config = u64 (3 + num_part config) / 4

abbrev pub num_sectors_for_fs : GptConfig → ℕ
num_sectors_for_fs config = sub64 (sub64 config.volume 4) (num_sector_for_array config)

-- The test of the early return.
abbrev pub too_small : GptConfig → Bool
too_small config =
    ltb config.volume (u64 (4 + num_sector_for_array config)) || num_sector_for_array config == 0

unfoldable pub allocation : GptConfig → Allocation
allocation config =
    allocate (num_sectors_for_fs config) (2 + num_sector_for_array config) config.partitions

abbrev pub efi_part : List ℕ
efi_part = b'E' ∷ b'F' ∷ b'I' ∷ 32 ∷ b'P' ∷ b'A' ∷ b'R' ∷ b'T' ∷ []

-- `struct GPTHeader` has 92 bytes.
abbrev pub header_size : ℕ
header_size = 92

unfoldable pub first_fields : (n_block start : ℕ) → List Field
first_fields n_block start =
    field 8 4 0x00010000
    ∷ field 12 4 header_size
    ∷ field 20 4 0
    ∷ field 24 8 1
    ∷ field 32 8 (n_block - 1)
    ∷ field 40 8 start
    ∷ field 48 8 (n_block - 2)
    ∷ []

unfoldable pub last_fields : (n_partition crc : ℕ) → List Field
last_fields n_partition crc =
    field 72 8 2 ∷ field 80 4 n_partition ∷ field 84 4 128 ∷ field 88 4 crc ∷ []

unfoldable pub backup_fields : ℕ → List Field
backup_fields n_block = field 24 8 (n_block - 1) ∷ field 32 8 1 ∷ []

module _ (buf : ℕ) (config : GptConfig) where
  abbrev pub lba1 : ℕ
  lba1 = get_sector buf 1

  abbrev pub last : ℕ
  last = get_sector buf (config.volume - 1)

  abbrev pub entry_array : ℕ
  entry_array = get_sector buf 2

  -- The array, with what the loop of allocations left.
  unfoldable pub write_array : Memory → Memory
  write_array m =
      let done = allocation config in
      write_entries (num_sector_for_array config * block_size) entry_array done.ret done.partitions
        m

  -- Both headers, without their own sums.
  unfoldable pub write_headers : (start n_partition crc : ℕ) → Memory → Memory
  write_headers start n_partition crc m =
      let m1 = memset last 0 header_size (memset lba1 0 header_size m) in
      let m2 = store_fields lba1 (first_fields config.volume start) (put_bytes lba1 efi_part m1) in
      let m3 = put_bytes (lba1 + 56) (guid_bytes config.disk_id) m2 in
      let m4 = store_fields lba1 (last_fields n_partition crc) m3 in
      store_fields last (backup_fields config.volume) (memcpy last lba1 header_size m4)

  unfoldable pub write_sums : Memory → Memory
  write_sums m =
      let m1 = store_le 4 (lba1 + 16) (crc32 lba1 (load_le 4 (lba1 + 12) m) m) m in
      store_le 4 (last + 16) (crc32 last (load_le 4 (lba1 + 12) m1) m1) m1

  pub record Generated : Type 0 where
    pub ret : ℕ
    pub partitions : List PartitionConfig
    pub memory : Memory

  unfoldable pub gpt_generate : Memory → Generated
  gpt_generate m =
      let done = allocation config in
      let m1 = write_array (create_protect_gpt buf block_size config.volume m) in
      let crc = crc32 entry_array (128 * done.ret) m1 in
      let m2 = write_sums (write_headers done.start done.ret crc m1) in
      if too_small config
      then record { ret = 0; partitions = config.partitions; memory = m }
      else record { ret = done.ret; partitions = done.partitions; memory = m2 }
