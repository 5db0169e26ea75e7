-- ===== src/Installer/Layout.antt =====
-- What gpt/installer.c leaves on a disk.
use linux_util.Common.{
  ℕ, ◌+◌, ◌-◌, ◌*◌, ◌/◌, ◌^◌, ◌≡◌, ◌≤◌, ◌<◌, refl, ap, ◌∙◌, arith, inl, inr, some, true, false, [],
  ◌∷◌, ltb, ◌==◌, u32, u64, sub64,
}
use mathlib.Core.Path.{subst}
use linux_util.Memory.{Memory}
use linux_util.Memory.Frame.{SameOutside}
use linux_util.Gpt.Config.{PartitionConfig, GptConfig}
use linux_util.Gpt.Allocate.{allocate, with_start}
use linux_util.Gpt.Generate.{gpt_generate, num_sectors_for_fs, allocation}
use linux_util.Gpt.Parse.{parsed, gpt_parse}
use linux_util.Gpt.Roundtrip.{CanGenerate, AllRequests, gpt_parse-gpt_generate, generated}
use linux_util.Fat.Create.Geometry.{IsValidConfig}
use linux_util.Fat.Create.Volume.{IsFresh, create_fat32-IsFresh}
use linux_util.Installer.{
  boot_name, filesystem_name, gpt_sector_size, partition, boot_bytes, gpt_config, mkpart,
  fat_config, lay_out,
}
use linux_util.Installer.Requests.{
  efi_system_partition-IsGuid, my_disk_id-IsGuid, IsName-chars, boot_name-chars,
  filesystem_name-chars, allocate-two,
}

-- A disk with room for the first partition of so many MiB, the tables and something behind it.
pub record HasRoom (disk_size boot_size : ℕ) : Type 0 where
  pub disk : disk_size < 2 ^ 64
  pub room : boot_size * 1048576 + 32768 ≤ disk_size

module _ {disk_size boot_size : ℕ} (h : HasRoom disk_size boot_size) where
  abbrev pub sectors : ℕ
  sectors = disk_size / 512

  abbrev config : GptConfig
  config = gpt_config disk_size boot_size

  abbrev pub boot_partition : PartitionConfig
  boot_partition = with_start 3 (partition boot_name (boot_size * 2048))

  abbrev pub filesystem : PartitionConfig
  filesystem =
      with_start (3 + boot_size * 2048) (partition filesystem_name (sectors - 5 - boot_size * 2048))

  first_volume : boot_bytes boot_size / gpt_sector_size ≡ boot_size * 2048
  first_volume = omega (arith, h.disk, h.room)

  second_volume :
      sub64 (sub64 sectors 5) (boot_bytes boot_size / gpt_sector_size)
      ≡ sectors - 5 - boot_size * 2048
  second_volume = omega (arith, h.disk, h.room)

  allocation-both :
      allocation config
      ≡ record { ret = 2; start = sectors - 2; partitions = boot_partition ∷ filesystem ∷ [] }
  unfolding allocation
  allocation-both =
      let b = boot_size * 2048 in
      let rest : num_sectors_for_fs config ≡ sectors - 5 = omega (arith, h.disk, h.room) in
      let end : 3 + b + (sectors - 5 - b) ≡ sectors - 2 = omega (arith, h.room) in
      ap (λ (r : ℕ). allocate r 3 config.partitions) rest
      ∙ ap
          (λ (v : ℕ). allocate (sectors - 5) 3 (
            partition boot_name (boot_bytes boot_size / gpt_sector_size)
            ∷ partition filesystem_name v
            ∷ []))
          second_volume
      ∙ ap
          (λ (v : ℕ).
            allocate (sectors - 5) 3
              (partition boot_name v ∷ partition filesystem_name (sectors - 5 - b) ∷ []))
          first_volume
      ∙ allocate-two (sectors - 5) 3 (partition boot_name b)
          (partition filesystem_name (sectors - 5 - b)) (omega (arith, h.room)) (omega arith)
          (omega (arith, h.disk))
      ∙ ap (λ (t : ℕ). record { ret = 2; start = t; partitions = boot_partition ∷ filesystem ∷ [] })
          end

  config-CanGenerate : CanGenerate config
  unfolding AllRequests
  config-CanGenerate = record {
    sectors = omega (arith, h.disk);
    few = omega arith;
    large_enough = ground (arith, h.room);
    node = refl;
    requests = (
      record {
        part_type = efi_system_partition-IsGuid;
        part_id = my_disk_id-IsGuid;
        name = IsName-chars boot_name boot_name-chars;
        name_fits = omega arith;
      },
      (
        record {
          part_type = efi_system_partition-IsGuid;
          part_id = my_disk_id-IsGuid;
          name = IsName-chars filesystem_name filesystem_name-chars;
          name_fits = omega arith;
        },
        tt,
      ),
    );
  }

  -- `GPTGenerate` places both partitions.
  both_made : (buf : ℕ) (m : Memory) → (gpt_generate buf config m).ret ≡ 2
  both_made buf m =
      ap (λ g. g.ret) (generated buf config-CanGenerate m) ∙ ap (λ a. a.ret) allocation-both

  made_partitions :
      (buf : ℕ) (m : Memory)
      → (gpt_generate buf config m).partitions ≡ boot_partition ∷ filesystem ∷ []
  made_partitions buf m =
      ap (λ g. g.partitions) (generated buf config-CanGenerate m)
      ∙ ap (λ a. a.partitions) allocation-both

  mkpart-made :
      (buf : ℕ) (m : Memory)
      → mkpart buf disk_size boot_size m
        ≡ some (boot_partition ∷ filesystem ∷ [], (gpt_generate buf config m).memory)
  unfolding mkpart
  mkpart-made buf m =
      let disk = h.disk in
      let room = h.room in
      let bytes : boot_bytes boot_size ≡ boot_size * 1048576 = omega (arith, disk, room) in
      let fits : ltb disk_size (u64 (boot_bytes boot_size + gpt_sector_size * 64)) ≡ false =
        ground (arith, bytes, disk, room) in
      let two : ((gpt_generate buf config m).ret == 2) ≡ true = ground (arith, both_made buf m) in
      rw (fits, two, made_partitions buf m) refl

  -- On a disk with room `mkpart` does not exit: the first partition has the size asked for and starts
  -- behind the table, the second one takes all sectors behind it up to the last two, and `GPTParse`
  -- reads both back.
  pub mkpart-both :
      (buf : ℕ) (m : Memory)
      → (m' : Memory) × (mkpart buf disk_size boot_size m
          ≡ some (boot_partition ∷ filesystem ∷ [], m'))
        × (boot_partition.start_lba + boot_partition.volume ≡ filesystem.start_lba)
        × (filesystem.start_lba + filesystem.volume ≡ sectors - 2)
        × (gpt_parse (λ n. true) buf m' ≡ parsed 2 (boot_partition ∷ filesystem ∷ []))
  mkpart-both buf m =
      let room = h.room in
      let r = (gpt_parse-gpt_generate buf config-CanGenerate m (λ n. true) refl).0 in
      (
        (gpt_generate buf config m).memory,
        mkpart-made buf m,
        refl,
        omega (arith, room),
        r ∙ rw (both_made buf m, made_partitions buf m) refl,
      )

  module _ (some_mib : 0 < boot_size) (below_4_gib : boot_size < 4096) where
    pub fat_config-IsValid : IsValidConfig (fat_config (boot_size * 2048))
    fat_config-IsValid = record {
      sectors = omega arith;
      sector_size = inl refl;
      cluster = inr (inr (inr (inl refl)));
      clusters = omega arith;
      offsets = omega arith;
    }

    -- On a disk with room, for a first partition of 1 to 4095 MiB, the disk is laid out: a fresh volume
    -- fills the first partition, and the rest of the disk is as `mkpart` left it.
    pub lay_out-IsFresh :
        (buf : ℕ) (m : Memory)
        → (m1 : Memory) × (m2 : Memory) × (mkpart buf disk_size boot_size m
            ≡ some (boot_partition ∷ filesystem ∷ [], m1))
          × (lay_out buf disk_size boot_size m ≡ some (buf + 1536, 0, m2))
          × IsFresh (buf + 1536) (fat_config (boot_size * 2048)) m2
          × SameOutside (buf + 1536) (buf + 1536 + boot_size * 1048576) m1 m2
    unfolding lay_out
    lay_out-IsFresh buf m =
        let m1 = (gpt_generate buf config m).memory in
        let (m2, done, fresh, same) = create_fat32-IsFresh (buf + 1536) fat_config-IsValid m1 in
        let bytes : 512 * (boot_size * 2048) ≡ boot_size * 1048576 = omega arith in
        let width : u32 (boot_size * 2048) ≡ boot_size * 2048 = omega arith in
        (
          m1,
          m2,
          mkpart-made buf m,
          rw (mkpart-made buf m, width, done) refl,
          fresh,
          subst (λ (t : ℕ). SameOutside (buf + 1536) (buf + 1536 + t) m1 m2) bytes same,
        )
