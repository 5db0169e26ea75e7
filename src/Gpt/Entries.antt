-- ===== src/Gpt/Entries.antt =====
-- The array of partition entries that `GPTGenerate` of gpt/gpt.c writes.
pub mod Fields
pub mod Extent
pub mod Written
use linux_util.Common.{ℕ, zero, suc, ◌+◌, ◌*◌, List, [], ◌∷◌, u64, sub64}
use linux_util.Memory.{Memory, memset, put_bytes, store_le}
use linux_util.Memory.Fields.{Field, field, store_fields}
use linux_util.Gpt.Config.{Guid, PartitionConfig, guid_bytes, block_size}

-- Every character is followed by a zero. Nothing stops the loop at the 72 bytes of the field.
unfoldable pub write_partition_name : (a : ℕ) → List ℕ → Memory → Memory
write_partition_name a [] m = m
write_partition_name a (c ∷ cs) m =
    write_partition_name (a + 2) cs (store_le 1 (a + 1) 0 (store_le 1 a c m))

unfoldable pub entry_fields : PartitionConfig → List Field
entry_fields cp =
    field 32 8 cp.start_lba
    ∷ field 40 8 (sub64 (u64 (cp.start_lba + cp.volume)) 1)
    ∷ field 48 8 5
    ∷ []

-- `size` bytes are cleared, those of the whole array, and not of one entry.
unfoldable pub write_entry : (size a : ℕ) → PartitionConfig → Memory → Memory
write_entry size a cp m =
    let m1 = store_fields a (entry_fields cp) (memset a 0 size m) in
    let m2 =
      put_bytes a (guid_bytes cp.part_type) (put_bytes (a + 16) (guid_bytes cp.part_id) m1) in
    write_partition_name (a + 56) cp.name m2

unfoldable pub write_entries : (size a n : ℕ) → List PartitionConfig → Memory → Memory
write_entries size a zero cps m = m
write_entries size a (suc n) [] m = m
write_entries size a (suc n) (cp ∷ cps) m =
    write_entries size (a + 128) n cps (write_entry size a cp m)
