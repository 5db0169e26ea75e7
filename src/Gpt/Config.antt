-- ===== src/Gpt/Config.antt =====
-- The structs of gpt/gpt.h. `config->buf` is an argument of the functions; `config->numPart` is
-- the length of the list of partitions; a name is its bytes before the terminator.
use linux_util.Common.{ℕ, ◌+◌, ◌*◌, List, ◌∷◌, length}
use linux_util.Memory.{byte_of}

pub record Guid : Type 0 where
  pub time_low : ℕ
  pub time_mid : ℕ
  pub time_high : ℕ
  pub clock_seq_high : ℕ
  pub clock_seq_low : ℕ
  pub node : List ℕ

pub record PartitionConfig : Type 0 where
  pub part_type : Guid
  pub part_id : Guid
  pub name : List ℕ
  pub volume : ℕ
  pub start_lba : ℕ

pub record GptConfig : Type 0 where
  pub volume : ℕ
  pub partitions : List PartitionConfig
  pub disk_id : Guid

-- The 16 bytes of the packed struct on a little-endian machine.
abbrev pub guid_bytes : Guid → List ℕ
guid_bytes g =
    byte_of g.time_low 0
    ∷ byte_of g.time_low 1
    ∷ byte_of g.time_low 2
    ∷ byte_of g.time_low 3
    ∷ byte_of g.time_mid 0
    ∷ byte_of g.time_mid 1
    ∷ byte_of g.time_high 0
    ∷ byte_of g.time_high 1
    ∷ byte_of g.clock_seq_high 0
    ∷ byte_of g.clock_seq_low 0
    ∷ g.node

abbrev pub num_part : GptConfig → ℕ
num_part config = length config.partitions

-- `BLOCK_SIZE`, and a pointer to a sector.
abbrev pub block_size : ℕ
block_size = 512

abbrev pub get_sector : (buf sector : ℕ) → ℕ
get_sector buf sector = buf + sector * block_size
