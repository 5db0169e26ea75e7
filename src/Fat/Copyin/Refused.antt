-- ===== src/Fat/Copyin/Refused.antt =====
-- The copies that `FAT32Copyin` refuses.
use linux_util.Common.{
  ℕ, suc, ◌+◌, ◌-◌, ◌*◌, ◌/◌, ◌≡◌, ◌<◌, arith, u32, ap, ◌∙◌, List, some, true, inl, inr, ◌⊎◌, ltb,
  leb, ◌==◌, lt→ltb, mul_mono, Bool-cases,
}
use linux_util.Memory.{Memory, memcpy}
use linux_util.Memory.Frame.{SameOutside, SameOutside-trans, memcpy-SameOutside}
use linux_util.Fat.Create.{FatConfig}
use linux_util.Fat.Create.Geometry.{IsValidConfig, sector_size_bounds, cluster_size_bounds}
use linux_util.Fat.Super.Mounted.{mounted, super_init-mounted}
use linux_util.Fat.Super.Sectors.{super_free-mounted}
use linux_util.Fat.Super.Entries.{max_cluster, max_cluster_fits}
use linux_util.Fat.Copyin.{File, edquot, fail, place, copyin_sized, fat32_copyin}
use linux_util.Fat.Copyin.Volume.{IsVolume}

module _ (buf : ℕ) {cfg : FatConfig} (v : IsValidConfig cfg) {k next : ℕ} {m : Memory}
    (vol : IsVolume buf cfg k next m) where
  abbrev b : ℕ
  b = cfg.bytes_per_sector

  abbrev cs : ℕ
  cs = cfg.cluster_size

  abbrev backed_up : Memory
  backed_up = memcpy (buf + b * 7) (buf + b) b (memcpy (buf + b * 6) buf b m)

  backed_up-frame : SameOutside (buf + b * 6) (buf + b * 8) m backed_up
  backed_up-frame =
      SameOutside-trans _ _ (memcpy-SameOutside _ _ _ _ _ m (omega arith) (omega arith))
        (memcpy-SameOutside _ _ _ _ _ _ (omega arith) (omega arith))

  -- No byte count of the driver's clusters wraps.
  limit : u32 (cs * b * (max_cluster cfg - next)) ≡ cs * b * (max_cluster cfg - next)
  limit =
      let w = v.offsets in
      let x = max_cluster_fits buf v in
      omega (
        arith,
        mul_mono (cs * b) (cs * b) (max_cluster cfg - next) (max_cluster cfg) (omega arith)
            (omega arith),
        mul_mono b b (cs * max_cluster cfg) cfg.n_sector (omega arith) (omega arith),
      )

  place-refused :
      (file : File) (name : List ℕ) (attr size : ℕ)
      → (cs * b * (max_cluster cfg - next) < size) ⊎ (k ≡ cs * b / 32)
      → place (mounted buf cfg k) file name attr size m
        ≡ some (record { ret = 0; errno = edquot; memory = backed_up })
  unfolding place mounted fail
  place-refused file name attr size why =
      let hi = vol.upper in
      let s = sector_size_bounds v in
      let c = cluster_size_bounds v in
      let f1 : ltb 0 b ≡ true = lt→ltb _ _ (omega arith) in
      let f2 : leb next (max_cluster cfg) ≡ true = ground arith in
      let f5 : ltb 0 (cs * b) ≡ true = lt→ltb _ _ (mul_mono 1 cs 1 b (omega arith) (omega arith)) in
      let done = super_free-mounted buf v k m in
      elim (Bool-cases (ltb (cs * b * (max_cluster cfg - next)) size)) [
        | inl big ↦ simp (vol.next_free, f1, f2, limit, big, done)
        | inr small ↦
            let full : (k == cs * b / 32) ≡ true = ground arith in
            simp (vol.next_free, f1, f2, limit, small, f5, full, done)
      ]

  -- A file whose size, taken modulo 2 ^ 32 as `fobjSize` has it, does not fit the free clusters is
  -- refused with `EDQUOT`, and so is any file where the root directory has no entry left: the result
  -- is 0, and only the backups of the first two sectors are written anew. For a file below 4 GiB this
  -- is its size; a larger one is not refused by it, but by what is left of its size.
  pub fat32_copyin-refused :
      (fuel st_size : ℕ) (file : File) (name : List ℕ) (attr : ℕ)
      → file.size ≡ some st_size
      → (cs * b * (max_cluster cfg - next) < u32 st_size) ⊎ (k ≡ cs * b / 32)
      → (m' : Memory) × (fat32_copyin (suc fuel) buf file name attr m
          ≡ some (record { ret = 0; errno = edquot; memory = m' }))
        × SameOutside (buf + b * 6) (buf + b * 8) m m'
  unfolding fat32_copyin copyin_sized
  fat32_copyin-refused fuel st_size file name attr e why = (
    backed_up,
    ap (λ o. copyin_sized (suc fuel) buf o file name attr m) e
        ∙ rw (super_init-mounted buf v vol.mountable fuel)
            (place-refused file name attr (u32 st_size) why),
    backed_up-frame,
  )
