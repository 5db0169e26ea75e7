-- ===== src/Fat/Create/Bounds.antt =====
-- What each step of `createFAT32` may change: a region of the volume, and nothing outside the
-- buffer.
use linux_util.Common.{
  ℕ, ◌+◌, ◌*◌, ◌≤◌, ◌<◌, ◌≡◌, refl, ◌↔◌, ◌⊎◌, inl, inr, true, none, some, arith, Bool-cases, ltb,
  ltb→lt, lt→ltb, le→ltb,
}
use linux_util.Memory.{Memory}
use linux_util.Memory.Frame.{
  SameOutside, SameOutside-trans, SameOutside-widen, memset-SameOutside, memcpy-SameOutside,
  put_bytes-SameOutside, store_fields-SameOutside,
}
use linux_util.Memory.Fields.{all_within}
use linux_util.Fat.Create.{
  FatConfig, bytes_is_valid, cluster_size_is_valid, num_cluster_on_disk, fat_size_in_sector,
  bpb_fields, jump_fields, signature_fields, sector_at, init_boot_sector, copy_boot_sector,
  fs_info_fields, init_fs_info, table_fields, init_tables, init_root, write_volume, create_fat32,
  oef_name, vol_label, file_sys_type,
}
use linux_util.Fat.Create.Geometry.{
  IsValidConfig, IsSectorSize, IsClusterSize, sector_size_bounds, sector_offset, Offsets-hold,
  bytes_is_valid_iff, cluster_size_is_valid_iff,
}

jump_fields-fit : all_within 512 jump_fields ≡ true
unfolding all_within jump_fields
jump_fields-fit = refl

pub bpb_fields-fit : (cfg : FatConfig) → all_within 512 (bpb_fields cfg) ≡ true
unfolding all_within bpb_fields
bpb_fields-fit cfg = refl

signature_fields-fit : all_within 512 signature_fields ≡ true
unfolding all_within signature_fields
signature_fields-fit = refl

pub fs_info_fields-fit :
    (buf : ℕ) (cfg : FatConfig) → all_within 512 (fs_info_fields buf cfg) ≡ true
unfolding all_within fs_info_fields
fs_info_fields-fit buf cfg = refl

pub table_fields-fit : (buf : ℕ) (cfg : FatConfig) → all_within 12 (table_fields buf cfg) ≡ true
unfolding all_within table_fields
table_fields-fit buf cfg = refl

module _ (buf : ℕ) {cfg : FatConfig} (v : IsValidConfig cfg) where
  abbrev b : ℕ
  b = cfg.bytes_per_sector

  abbrev pub tables_end : ℕ
  tables_end = buf + b * (8 + 2 * fat_size_in_sector cfg)

  abbrev pub end : ℕ
  end = buf + b * cfg.n_sector

  -- Where a sector of the volume starts.
  pub sector_at_lem : (k : ℕ) → k < cfg.n_sector → sector_at buf cfg k ≡ buf + b * k
  sector_at_lem k h = omega (arith, sector_offset v k (omega arith))

  -- The sectors with a fixed place lie below the tables.
  pub fixed_sectors :
      (512 ≤ b)
      × (sector_at buf cfg 1 ≡ buf + b)
      × (sector_at buf cfg 6 ≡ buf + b * 6)
      × (sector_at buf cfg 7 ≡ buf + b * 7)
      × (buf + b * 8 ≤ tables_end)
      × (tables_end + b * cfg.cluster_size ≤ end)
  fixed_sectors =
      let n = v.sectors in
      omega (
        arith,
        sector_size_bounds v,
        sector_at_lem 1 (omega arith),
        sector_at_lem 6 (omega arith),
        sector_at_lem 7 (omega arith),
        Offsets-hold v buf,
      )

  pub init_boot_sector-frame :
      (m : Memory) → SameOutside buf (buf + 512) m (init_boot_sector buf cfg m)
  unfolding init_boot_sector
  init_boot_sector-frame m =
      let hi = buf + 512 in
      SameOutside-trans buf hi (memset-SameOutside buf hi buf 0 512 m (omega arith) (omega arith)) (
        SameOutside-trans buf hi
          (store_fields-SameOutside buf hi buf 512 jump_fields _ jump_fields-fit (omega arith)
            (omega arith))
          (SameOutside-trans buf hi
            (put_bytes-SameOutside buf hi (buf + 3) oef_name _ (omega arith) (omega arith))
            (SameOutside-trans buf hi
              (store_fields-SameOutside buf hi buf 512 (bpb_fields cfg) _ (bpb_fields-fit cfg)
                (omega arith) (omega arith))
              (SameOutside-trans buf hi
                (put_bytes-SameOutside buf hi (buf + 71) vol_label _ (omega arith) (omega arith))
                (SameOutside-trans buf hi
                  (put_bytes-SameOutside buf hi (buf + 82) file_sys_type _ (omega arith)
                    (omega arith))
                  (store_fields-SameOutside buf hi buf 512 signature_fields _ signature_fields-fit
                    (omega arith) (omega arith)))))))

  pub copy_boot_sector-frame :
      (m : Memory) → SameOutside (buf + b * 6) (buf + b * 7) m (copy_boot_sector buf cfg m)
  unfolding copy_boot_sector
  copy_boot_sector-frame m =
      memcpy-SameOutside _ _ _ _ _ m (omega (arith, fixed_sectors)) (omega (arith, fixed_sectors))

  pub init_fs_info-frame :
      (m : Memory) → SameOutside (buf + b) (buf + b * 8) m (init_fs_info buf cfg m)
  unfolding init_fs_info
  init_fs_info-frame m =
      SameOutside-trans _ _
        (store_fields-SameOutside _ _ _ 512 (fs_info_fields buf cfg) m (fs_info_fields-fit buf cfg)
          (omega (arith, fixed_sectors)) (omega (arith, fixed_sectors)))
        (memcpy-SameOutside _ _ _ _ _ _ (omega (arith, fixed_sectors))
          (omega (arith, fixed_sectors)))

  pub init_tables-frame :
      (m : Memory) → SameOutside (buf + b * 8) tables_end m (init_tables buf cfg m)
  unfolding init_tables
  init_tables-frame m =
      let o = Offsets-hold v buf in
      let x = sector_size_bounds v in
      SameOutside-trans _ _ (memset-SameOutside _ _ _ 0 _ m (omega (arith, o)) (omega (arith, o))) (
        SameOutside-trans _ _
          (store_fields-SameOutside _ _ _ 12 (table_fields buf cfg) _ (table_fields-fit buf cfg)
            (omega (arith, o)) (omega (arith, o, x)))
          (store_fields-SameOutside _ _ _ 12 (table_fields buf cfg) _ (table_fields-fit buf cfg)
            (omega (arith, o)) (omega (arith, o, x))))

  pub init_root-frame : (m : Memory) → SameOutside tables_end end m (init_root buf cfg m)
  unfolding init_root
  init_root-frame m =
      let o = Offsets-hold v buf in
      memset-SameOutside _ _ _ _ _ m (omega (arith, o)) (omega (arith, o))

  -- After the boot sector and its copy nothing changes in the first sector.
  pub write_volume-frame : (m : Memory) → SameOutside buf end m (write_volume buf cfg m)
  unfolding write_volume
  write_volume-frame m =
      let le = fixed_sectors in
      SameOutside-trans buf end
        (SameOutside-widen buf end (init_boot_sector-frame m) (omega arith) (omega (arith, le)))
        (SameOutside-trans buf end
          (SameOutside-widen buf end (copy_boot_sector-frame _) (omega arith) (omega (arith, le)))
          (SameOutside-trans buf end
            (SameOutside-widen buf end (init_fs_info-frame _) (omega arith) (omega (arith, le)))
            (SameOutside-trans buf end
              (SameOutside-widen buf end (init_tables-frame _) (omega arith) (omega (arith, le)))
              (SameOutside-widen buf end (init_root-frame _) (omega (arith, le)) (omega arith)))))

  pub create_fat32-ok : (m : Memory) → create_fat32 buf cfg m ≡ some (0, write_volume buf cfg m)
  unfolding create_fat32
  create_fat32-ok m = rw (
    le→ltb _ _ v.sectors,
    (bytes_is_valid_iff _).1 v.sector_size,
    (cluster_size_is_valid_iff _).1 v.cluster,
    lt→ltb _ _ v.clusters,
  )

-- `createFAT32` refuses exactly the configurations of too few sectors or of a sector or cluster
-- size that is not listed, and then leaves the buffer as it was; it aborts exactly when the sizes
-- are good and the volume has at most two clusters.
pub create_fat32-refusals :
    (buf : ℕ) (cfg : FatConfig) (m : Memory)
    → ((create_fat32 buf cfg m ≡ some (1, m)) ↔ (
        (cfg.n_sector < 16)
        ⊎ (¬ IsSectorSize cfg.bytes_per_sector)
        ⊎ (¬ IsClusterSize cfg.cluster_size)))
      × ((create_fat32 buf cfg m ≡ none) ↔ (
          (16 ≤ cfg.n_sector)
          × IsSectorSize cfg.bytes_per_sector
          × IsClusterSize cfg.cluster_size
          × (num_cluster_on_disk cfg ≤ 2)))
unfolding create_fat32
create_fat32-refusals buf cfg m =
    let s = bytes_is_valid_iff cfg.bytes_per_sector in
    let c = cluster_size_is_valid_iff cfg.cluster_size in
    (
      (
        λ e. elim (Bool-cases (ltb cfg.n_sector 16)) [
          | inl few ↦ inl (ltb→lt _ _ few)
          | inr many ↦ elim (Bool-cases (bytes_is_valid cfg.bytes_per_sector)) [
            | inr bad ↦ inr (inl (λ h. cc (s.1 h)))
            | inl good ↦ elim (Bool-cases (cluster_size_is_valid cfg.cluster_size)) [
              | inr bad ↦ inr (inr (λ h. cc (c.1 h)))
              | inl fine ↦ absurd (ground arith)
            ]
          ]
        ],
        λ bad. ground (arith, s, c),
      ),
      (
        λ e. (ground arith, s.0 (ground arith), c.0 (ground arith), ground arith),
        λ (n, x, y, few). rw (le→ltb _ _ n, s.1 x, c.1 y, le→ltb _ _ few),
      ),
    )
