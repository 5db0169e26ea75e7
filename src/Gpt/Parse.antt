-- ===== src/Gpt/Parse.antt =====
-- `GPTParse` of gpt/gpt.c. Whether `malloc` finds the memory for the array of partitions is a
-- parameter; `strdup` is taken to succeed, and the name is the string that it copies.
use linux_util.Common.{
  ℕ, zero, suc, ◌+◌, ◌*◌, Bool, true, false, not, List, [], ◌∷◌, u64, sub64, ◌==◌, if◌then◌else◌,
}
use linux_util.Memory.{Memory, load_le, bytes_at}
use linux_util.Gpt.Config.{Guid, PartitionConfig, get_sector}
use linux_util.Gpt.Generate.{efi_part}

-- The result: an error number, or the partitions that were read.
pub data ParseResult : Type 0 where
  einval : ParseResult
  enomem : ParseResult
  parsed : (num_part : ℕ) (partitions : List PartitionConfig) → ParseResult

-- `memcmp`, for equality.
unfoldable pub same_bytes : (a : ℕ) → List ℕ → Memory → Bool
same_bytes a [] m = true
same_bytes a (c ∷ cs) m = if m a == c then same_bytes (suc a) cs m else false

unfoldable pub read_guid : ℕ → Memory → Guid
read_guid a m = record {
  time_low = load_le 4 a m;
  time_mid = load_le 2 (a + 4) m;
  time_high = load_le 2 (a + 6) m;
  clock_seq_high = load_le 1 (a + 8) m;
  clock_seq_low = load_le 1 (a + 9) m;
  node = bytes_at 6 (a + 10) m;
}

-- Every other byte, `n` of them at most, up to a zero.
unfoldable pub read_partition_name : (n a : ℕ) → Memory → List ℕ
read_partition_name zero a m = []
read_partition_name (suc n) a m =
    let rest = read_partition_name n (a + 2) m in if m a == 0 then [] else m a ∷ rest

unfoldable pub read_partition : ℕ → Memory → PartitionConfig
read_partition a m =
    let first = load_le 8 (a + 32) m in
    record {
      part_type = read_guid a m;
      part_id = read_guid (a + 16) m;
      name = read_partition_name 36 (a + 56) m;
      volume = u64 (sub64 (load_le 8 (a + 40) m) first + 1);
      start_lba = first;
    }

unfoldable pub read_partitions : (n a : ℕ) → Memory → List PartitionConfig
read_partitions zero a m = []
read_partitions (suc n) a m = read_partition a m ∷ read_partitions n (a + 128) m

unfoldable pub gpt_parse : (can_malloc : ℕ → Bool) (buf : ℕ) → Memory → ParseResult
gpt_parse can_malloc buf m =
    let header = get_sector buf 1 in
    let num_entries = load_le 4 (header + 80) m in
    let start_entry_array = load_le 8 (header + 72) m in
    if not (load_le 2 (buf + 510) m == 0xAA55)
    then einval
    else if not (same_bytes header efi_part m)
    then einval
    else if not (can_malloc (56 * num_entries))
    then enomem
    else parsed num_entries (read_partitions num_entries (get_sector buf start_entry_array) m)
