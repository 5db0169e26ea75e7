-- ===== src/Fat/Super/Sectors.antt =====
-- The sectors of a mounted volume, and the backups that `FAT32SuperFree` makes.
use linux_util.Common.{ℕ, ◌+◌, ◌*◌, ◌≡◌, ◌≤◌, ◌<◌, arith, some, none}
use linux_util.Memory.{Memory, memcpy}
use linux_util.Fat.Create.{FatConfig}
use linux_util.Fat.Create.Geometry.{IsValidConfig, sector_offset}
use linux_util.Fat.Super.{sector_address, get_sector, super_free}
use linux_util.Fat.Super.Mounted.{mounted}

module _ (buf : ℕ) {cfg : FatConfig} (v : IsValidConfig cfg) (k : ℕ) where
  abbrev b : ℕ
  b = cfg.bytes_per_sector

  pub get_sector-mounted :
      (s : ℕ) → s < cfg.n_sector → get_sector (mounted buf cfg k) s ≡ some (buf + b * s)
  unfolding get_sector sector_address mounted
  get_sector-mounted s h = let e = (sector_offset v s (omega arith)).0 in ground arith

  -- A pointer to a sector past the end is null.
  pub get_sector-none : (s : ℕ) → cfg.n_sector ≤ s → get_sector (mounted buf cfg k) s ≡ none
  unfolding get_sector sector_address mounted
  get_sector-none s h = ground arith

  -- Sector 0 is copied to sector 6 and sector 1 to sector 7.
  pub super_free-mounted :
      (m : Memory)
      → super_free (mounted buf cfg k) m
        ≡ some (memcpy (buf + b * 7) (buf + b) b (memcpy (buf + b * 6) buf b m))
  unfolding super_free mounted
  super_free-mounted m =
      let n = v.sectors in
      let one : buf + b * 1 ≡ buf + b = omega arith in
      rw (
        get_sector-mounted 6 (omega arith),
        get_sector-mounted 7 (omega arith),
        get_sector-mounted 1 (omega arith),
        one,
      )
