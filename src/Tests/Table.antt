-- ===== src/Tests/Table.antt =====
-- A partition table with one partition on a disk of 100 sectors, as gpt/gpt.c makes it.
use linux_util.Common.{zero, suc, ◌*◌, ◌≡◌, refl, arith, [], ◌∷◌, take, true}
use linux_util.Memory.{Memory, load_le, store_le}
use linux_util.Gpt.Config.{Guid, PartitionConfig, GptConfig}
use linux_util.Gpt.Allocate.{Placed}
use linux_util.Gpt.Generate.{gpt_generate, allocation}
use linux_util.Gpt.Parse.{parsed, gpt_parse}
use linux_util.Gpt.Entries.Fields.{IsGuid, IsName}
use linux_util.Crc32.{crc32}
use linux_util.Endian.{big, host_store_le, host_load_le}
use linux_util.Endian.Portable.{host_le-le}
use linux_util.Gpt.Config.{get_sector}
use linux_util.Gpt.HeaderSum.{HasSum}
use linux_util.Gpt.Sums.{gpt_generate-HasSum}
use linux_util.Gpt.Roundtrip.{CanGenerate, AllRequests, gpt_parse-gpt_generate}

abbrev esp : Guid
esp = record {
  time_low = 0xc12a7328;
  time_mid = 0xf81f;
  time_high = 0x11d2;
  clock_seq_high = 0xba;
  clock_seq_low = 0x4b;
  node = 0x00 ∷ 0xa0 ∷ 0xc9 ∷ 0x3e ∷ 0xc9 ∷ 0x3b ∷ [];
}

esp-IsGuid : IsGuid esp
esp-IsGuid = record {
  time_low = omega arith;
  time_mid = omega arith;
  time_high = omega arith;
  clock_seq_high = omega arith;
  clock_seq_low = omega arith;
  node = refl;
}

abbrev boot_part : PartitionConfig
boot_part = record {
  part_type = esp;
  part_id = esp;
  name = b'E' ∷ b'F' ∷ b'I' ∷ [];
  volume = 40;
  start_lba = 0;
}

name-IsName : IsName boot_part.name
name-IsName zero h = (omega arith, omega arith)
name-IsName (suc zero) h = (omega arith, omega arith)
name-IsName (suc (suc zero)) h = (omega arith, omega arith)
name-IsName (suc (suc (suc i))) h = absurd (omega arith)

abbrev disk : GptConfig
disk = record { volume = 100; partitions = boot_part ∷ []; disk_id = esp }

disk-CanGenerate : CanGenerate disk
unfolding AllRequests
disk-CanGenerate = record {
  sectors = omega arith;
  few = omega arith;
  large_enough = refl;
  node = refl;
  requests = (
    record {
      part_type = esp-IsGuid;
      part_id = esp-IsGuid;
      name = name-IsName;
      name_fits = omega arith;
    },
    tt,
  );
}

abbrev old : Memory
old = λ a. 9

gpt_parse-gpt_generate_example :
    (gpt_parse (λ n. true) 0 (gpt_generate 0 disk old).memory
      ≡ parsed
          (gpt_generate 0 disk old).ret
          (take (gpt_generate 0 disk old).ret (gpt_generate 0 disk old).partitions))
    × Placed 3 98 disk.partitions
        (gpt_generate 0 disk old).partitions
        (gpt_generate 0 disk old).ret
        (allocation disk).start
gpt_parse-gpt_generate_example = gpt_parse-gpt_generate 0 disk-CanGenerate old (λ n. true) refl

abbrev disk_after : Memory
disk_after = (gpt_generate 0 disk old).memory

gpt_generate-HasSum_example :
    HasSum 512 disk_after
    × HasSum (99 * 512) disk_after
    × (load_le 4 600 disk_after
        ≡ crc32
            (get_sector 0 (load_le 8 584 disk_after))
            (128 * load_le 4 592 disk_after)
            disk_after)
gpt_generate-HasSum_example = gpt_generate-HasSum 0 disk-CanGenerate old

host_le-le_example :
    (host_store_le big 4 10 0x01020304 old 11 ≡ store_le 4 10 0x01020304 old 11)
    × (host_load_le big 4 10 old ≡ load_le 4 10 old)
host_le-le_example = host_le-le big 4 10 0x01020304 old 11
