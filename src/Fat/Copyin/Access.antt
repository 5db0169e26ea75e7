-- ===== src/Fat/Copyin/Access.antt =====
-- `FAT32SuperCluster`, `FAT32SuperReadEntry` and `FAT32SuperWriteEntry` of gpt/fat.c on a volume that
-- `createFAT32` made.
use linux_util.Common.{
  ℕ, ◌+◌, ◌-◌, ◌*◌, ◌≤◌, ◌<◌, ◌≡◌, ◌≢◌, sym, ap, ◌∙◌, some, arith, u32, mul_mono,
}
use linux_util.Memory.{Memory}
use linux_util.Fat.Create.{FatConfig, fat_size_in_sector}
use linux_util.Fat.Create.Geometry.{IsValidConfig, sector_size_bounds}
use linux_util.Fat.Create.Volume.{table_entry}
use linux_util.Fat.Super.{cluster_address, read_entry, write_entry}
use linux_util.Fat.Super.Mounted.{mounted}
use linux_util.Fat.Super.Entries.{
  max_cluster, max_cluster_fits, set_entry, write_entry-set_entry, set_entry_self, set_entry_other,
}
use linux_util.Fat.Copyin.Space.{start_sector}

module _ (buf : ℕ) {cfg : FatConfig} (v : IsValidConfig cfg) (k : ℕ) where
  abbrev b : ℕ
  b = cfg.bytes_per_sector

  -- `FAT32SuperCluster` and `FAT32Copyin` agree on where a cluster lies: the address of a cluster
  -- that the driver uses is the start of the sector from which `FAT32Copyin` writes a file in that
  -- cluster, behind the tables, and the whole cluster lies in the volume.
  pub cluster_address-start_sector :
      (c : ℕ)
      → 2 ≤ c
      → c < max_cluster cfg
      → (cluster_address (mounted buf cfg k) c ≡ some (buf + b * start_sector cfg c))
        × (b * (8 + 2 * fat_size_in_sector cfg) ≤ b * start_sector cfg c)
        × (b * start_sector cfg c + cfg.cluster_size * b ≤ b * cfg.n_sector)
  unfolding cluster_address mounted
  cluster_address-start_sector c lo hi =
      let f = fat_size_in_sector cfg in
      let cs = cfg.cluster_size in
      let s = sector_size_bounds v in
      let w = v.offsets in
      let m = max_cluster_fits buf v in
      let used =
        mul_mono (cs * b) (cs * b) (c - 2 + 1) (max_cluster cfg) (omega arith) (omega arith) in
      let all =
        mul_mono b b (cs * max_cluster cfg + 8 + 2 * f) cfg.n_sector (omega arith) (omega arith) in
      (ground (arith, used, all), omega arith, omega (arith, used, all))

  read_entry-mounted :
      (d : ℕ) (m : Memory)
      → d < max_cluster cfg
      → read_entry (mounted buf cfg k) d m ≡ some (table_entry buf cfg 0 d m)
  unfolding read_entry mounted
  read_entry-mounted d m h =
      let e : b * 8 + 4 * d ≡ b * (8 + 0 * fat_size_in_sector cfg) + 4 * d = omega arith in
      ground arith

  -- `FAT32SuperWriteEntry` succeeds for a cluster that the driver uses, other than 0. What it wrote
  -- is what `FAT32SuperReadEntry` then reads there, cut to 32 bits, and the entry of another
  -- cluster reads as before.
  pub read_entry-write_entry :
      (c d x : ℕ) (m : Memory)
      → 1 ≤ c
      → c < max_cluster cfg
      → d < max_cluster cfg
      → c ≢ d
      → (m' : Memory) × (write_entry (mounted buf cfg k) c x m ≡ some m')
        × (read_entry (mounted buf cfg k) c m' ≡ some (u32 x))
        × (read_entry (mounted buf cfg k) d m' ≡ read_entry (mounted buf cfg k) d m)
  read_entry-write_entry c d x m pos lt h ne =
      let m' = set_entry buf cfg c x m in
      (
        m',
        write_entry-set_entry buf v k c x m pos lt,
        read_entry-mounted c m' lt ∙ ap some (set_entry_self buf v 0 c x m (omega arith) lt),
        read_entry-mounted d m' h
            ∙ ap some (set_entry_other buf v 0 c d x m (omega arith) lt h ne)
            ∙ sym (read_entry-mounted d m h),
      )
