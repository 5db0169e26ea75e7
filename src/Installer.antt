-- ===== src/Installer.antt =====
-- gpt/installer.c: the partitions that the installer makes on a disk, and the volume in the first of
-- them. A disk is a buffer and its size; `none` is an exit with an error.
pub mod Requests
pub mod Layout
pub mod Files
use linux_util.Common.{
  ℕ, zero, suc, ◌+◌, ◌-◌, ◌*◌, ◌/◌, Option, none, some, true, false, List, [], ◌∷◌, ltb, ◌==◌, not,
  if◌then◌else◌, u32, u64, sub64, ◌>>=◌, bit_or,
}
use linux_util.Memory.{Memory}
use linux_util.Gpt.Config.{Guid, PartitionConfig, GptConfig}
use linux_util.Gpt.Generate.{gpt_generate}
use linux_util.Fat.Create.{FatConfig, create_fat32}
use linux_util.Fat.Copyin.{File, fat32_copyin}

abbrev pub efi_system_partition : Guid
efi_system_partition = record {
  time_low = 0xc12a7328;
  time_mid = 0xf81f;
  time_high = 0x11d2;
  clock_seq_high = 0xba;
  clock_seq_low = 0x4b;
  node = 0x00 ∷ 0xa0 ∷ 0xc9 ∷ 0x3e ∷ 0xc9 ∷ 0x3b ∷ [];
}

abbrev pub my_disk_id : Guid
my_disk_id = record {
  time_low = 0x9e8d8d40;
  time_mid = 0xe4d1;
  time_high = 0x3547;
  clock_seq_high = 0xad;
  clock_seq_low = 0x9e;
  node = 0x86 ∷ 0x52 ∷ 0x3f ∷ 0x5e ∷ 0x2f ∷ 0x4a ∷ [];
}

-- "Boot Partition" and "Filesystem".
abbrev pub boot_name : List ℕ
boot_name = 66 ∷ 111 ∷ 111 ∷ 116 ∷ 32 ∷ 80 ∷ 97 ∷ 114 ∷ 116 ∷ 105 ∷ 116 ∷ 105 ∷ 111 ∷ 110 ∷ []

abbrev pub filesystem_name : List ℕ
filesystem_name = 70 ∷ 105 ∷ 108 ∷ 101 ∷ 115 ∷ 121 ∷ 115 ∷ 116 ∷ 101 ∷ 109 ∷ []

abbrev pub gpt_sector_size : ℕ
gpt_sector_size = 512

-- The static array starts with zeros, so that no partition has a place yet.
abbrev pub partition : (name : List ℕ) → (volume : ℕ) → PartitionConfig
partition name volume = record {
  part_type = efi_system_partition;
  part_id = my_disk_id;
  name = name;
  volume = volume;
  start_lba = 0;
}

abbrev pub boot_bytes : (boot_size : ℕ) → ℕ
boot_bytes boot_size = u64 (boot_size * (1024 * 1024))

abbrev pub gpt_config : (disk_size boot_size : ℕ) → GptConfig
gpt_config disk_size boot_size =
    let volume = disk_size / gpt_sector_size in
    let first = boot_bytes boot_size / gpt_sector_size in
    record {
      volume = volume;
      partitions =
          partition boot_name first ∷ partition filesystem_name (sub64 (sub64 volume 5) first) ∷ [];
      disk_id = my_disk_id;
    }

-- The partitions with their places, and what is on the disk.
unfoldable pub mkpart :
    (buf disk_size boot_size : ℕ) → Memory → Option (List PartitionConfig × Memory)
mkpart buf disk_size boot_size m =
    let g = gpt_generate buf (gpt_config disk_size boot_size) m in
    if ltb disk_size (u64 (boot_bytes boot_size + gpt_sector_size * 64))
    then none
    else if g.ret == 2
    then some (g.partitions, g.memory)
    else none

abbrev pub fat_config : (n_sector : ℕ) → FatConfig
fat_config n_sector = record {
  n_sector = n_sector;
  bytes_per_sector = gpt_sector_size;
  cluster_size = 8;
  write_random_data = false;
  is_fixed = true;
}

-- `pc[0]`.
abbrev pub first_partition : List PartitionConfig → Option PartitionConfig
first_partition [] = none
first_partition (p ∷ ps) = some p

-- The two steps of `main` that lay out the disk: the address of the first partition, the result of
-- `createFAT32`, which is not looked at, and what is on the disk.
unfoldable pub lay_out : (buf disk_size boot_size : ℕ) → Memory → Option (ℕ × ℕ × Memory)
lay_out buf disk_size boot_size m = do
  (parts, m1) ← mkpart buf disk_size boot_size m
  p ← first_partition parts
  (ret, m2) ← create_fat32 (buf + gpt_sector_size * p.start_lba) (fat_config (u32 p.volume)) m1
  some (buf + gpt_sector_size * p.start_lba, ret, m2)

-- `FAT_ATTR_READ_ONLY | FAT_ATTR_SYSTEM`.
abbrev pub sys_flag : ℕ
sys_flag = bit_or 0x01 0x04

-- A file that could be opened: the sector where its data starts.
unfoldable pub copyin : (fuel fat : ℕ) → File → (name : List ℕ) → Memory → Option (ℕ × Memory)
copyin fuel fat file name m = do
  o ← fat32_copyin fuel fat file name sys_flag m
  if o.ret == 0 then none else some (o.ret, o.memory)

-- One copy after the other, in `main` those of the loader, the kernel, busybox and init.
unfoldable pub copy_files :
    (fuel fat : ℕ) → List (File × List ℕ) → Memory → Option (List ℕ × Memory)
copy_files fuel fat [] m = some ([], m)
copy_files fuel fat ((file, name) ∷ fs) m = do
  (ret, m1) ← copyin fuel fat file name m
  (rets, m2) ← copy_files fuel fat fs m1
  some (ret ∷ rets, m2)

unfoldable pub install :
    (fuel buf disk_size boot_size : ℕ) → List (File × List ℕ) → Memory → Option (List ℕ × Memory)
install fuel buf disk_size boot_size files m = do
  (fat, ret, m1) ← lay_out buf disk_size boot_size m
  copy_files fuel fat files m1
