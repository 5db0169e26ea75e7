-- ===== src/Fat/Create/Content.antt =====
-- What a volume of `createFAT32` holds: the boot sector, the FSInfo sector, both allocation tables,
-- and the copies of the first two at sectors 6 and 7.
use linux_util.Common.{
  ℕ, ◌+◌, ◌*◌, ◌%◌, ◌^◌, ◌≤◌, ◌≡◌, sym, ◌∙◌, ap, inl, inr, true, none, some, arith, u32,
}
use linux_util.Memory.{Memory, memset, load_le}
use linux_util.Memory.Fields.{
  store_fields, last_value, none_at, load-store_fields, load-store_fields_none,
  load-store_fields_outside,
}
use linux_util.Memory.Laws.{
  load-memcpy_inside, load-memcpy_apart, load-put_bytes_apart, load-memset_zero,
}
use linux_util.Memory.Frame.{SameOutside, SameOutside-trans, SameOutside-widen, load-SameOutside}
use linux_util.Fat.Create.{
  FatConfig, fat_size_in_sector, num_fat_sector, bpb_fields, signature_fields, sector_at,
  init_boot_sector, copy_boot_sector, fs_info_fields, init_fs_info, table_fields, init_tables,
  init_root, write_volume, first_table, second_table, vol_label, file_sys_type,
}
use linux_util.Fat.Create.Geometry.{IsValidConfig, Offsets-hold, sector_size_bounds}
use linux_util.Fat.Create.Bounds.{
  tables_end, fs_info_fields-fit, table_fields-fit, end, fixed_sectors, copy_boot_sector-frame,
  init_fs_info-frame, init_tables-frame, init_root-frame,
}

module _ (buf : ℕ) {cfg : FatConfig} (v : IsValidConfig cfg) (m : Memory) where
  -- The buffer before and after each step.
  abbrev m1 : Memory
  m1 = init_boot_sector buf cfg m

  abbrev m2 : Memory
  m2 = copy_boot_sector buf cfg m1

  abbrev m3 : Memory
  m3 = init_fs_info buf cfg m2

  abbrev m4 : Memory
  m4 = init_tables buf cfg m3

  abbrev b : ℕ
  b = cfg.bytes_per_sector

  -- After the FSInfo sectors, only the regions behind the reserved sectors change.
  late_frame : SameOutside (buf + b * 8) (end buf v) m3 (write_volume buf cfg m)
  unfolding write_volume
  late_frame =
      let le = fixed_sectors buf v in
      SameOutside-trans _ _
        (SameOutside-widen _ (end buf v) (init_tables-frame buf v _) (omega arith)
          (omega (arith, le)))
        (SameOutside-widen (buf + b * 8) _ (init_root-frame buf v _) (omega (arith, le))
          (omega arith))

  -- The first sector keeps what `init_boot_sector` left.
  first_sector :
      (w o : ℕ)
      → o + w ≤ 512
      → load_le w (buf + o) (write_volume buf cfg m) ≡ load_le w (buf + o) m1
  first_sector w o h =
      let le = fixed_sectors buf v in
      load-SameOutside w (buf + o) late_frame (inl (omega (arith, le)))
      ∙ load-SameOutside w (buf + o) (init_fs_info-frame buf v m2) (inl (omega (arith, le)))
      ∙ load-SameOutside w (buf + o) (copy_boot_sector-frame buf v m1) (inl (omega (arith, le)))

  -- A numeric field of the boot sector.
  pub boot_field :
      (w o x : ℕ)
      → last_value o w (bpb_fields cfg) none ≡ some x
      → none_at o w signature_fields ≡ true
      → o + w ≤ 71
      → load_le w (buf + o) (write_volume buf cfg m) ≡ x % 256 ^ w
  unfolding init_boot_sector
  boot_field w o x e free h =
      first_sector w o (omega arith)
      ∙ load-store_fields_none w o buf signature_fields _ free
      ∙ load-put_bytes_apart w (buf + o) (buf + 82) file_sys_type _ (inl (omega arith))
      ∙ load-put_bytes_apart w (buf + o) (buf + 71) vol_label _ (inl (omega arith))
      ∙ load-store_fields o w buf x (bpb_fields cfg) _ none (λ u. cc) e

  -- Sector 6 repeats the first 512 bytes.
  pub boot_copy :
      (w o : ℕ)
      → o + w ≤ 512
      → load_le w (buf + b * 6 + o) (write_volume buf cfg m)
        ≡ load_le w (buf + o) (write_volume buf cfg m)
  unfolding copy_boot_sector init_fs_info
  boot_copy w o h =
      let le = fixed_sectors buf v in
      let a = buf + b * 6 + o in
      load-SameOutside w a late_frame (inl (omega (arith, le)))
      ∙ load-memcpy_apart w a (sector_at buf cfg 7) (sector_at buf cfg 1) 512 _
          (inl (omega (arith, le)))
      ∙ load-store_fields_outside w a (sector_at buf cfg 1) 512 (fs_info_fields buf cfg) m2
          (fs_info_fields-fit buf cfg) (inr (omega (arith, le)))
      ∙ ap (λ t. load_le w (t + o) m2) (sym le.2)
      ∙ load-memcpy_inside w o (sector_at buf cfg 6) buf 512 m1 h
      ∙ sym (first_sector w o h)

  -- Sector 1 after its fields are stored, seen at the end.
  second_sector :
      (w o : ℕ)
      → o + w ≤ 512
      → load_le w (buf + b + o) (write_volume buf cfg m)
        ≡ load_le w
            (sector_at buf cfg 1 + o)
            (store_fields (sector_at buf cfg 1) (fs_info_fields buf cfg) m2)
  unfolding init_fs_info
  second_sector w o h =
      let le = fixed_sectors buf v in
      let a = buf + b + o in
      load-SameOutside w a late_frame (inl (omega (arith, le)))
      ∙ load-memcpy_apart w a (sector_at buf cfg 7) (sector_at buf cfg 1) 512 _
          (inl (omega (arith, le)))
      ∙ ap (λ t. load_le w (t + o) (store_fields (sector_at buf cfg 1) (fs_info_fields buf cfg) m2))
          (sym le.1)

  -- A field of the FSInfo sector.
  pub fs_info_field :
      (w o x : ℕ)
      → last_value o w (fs_info_fields buf cfg) none ≡ some x
      → o + w ≤ 512
      → load_le w (buf + b + o) (write_volume buf cfg m) ≡ x % 256 ^ w
  fs_info_field w o x e h =
      second_sector w o h
      ∙ load-store_fields o w (sector_at buf cfg 1) x (fs_info_fields buf cfg) m2 none (λ u. cc) e

  -- Sector 7 repeats the first 512 bytes of sector 1.
  pub fs_info_copy :
      (w o : ℕ)
      → o + w ≤ 512
      → load_le w (buf + b * 7 + o) (write_volume buf cfg m)
        ≡ load_le w (buf + b + o) (write_volume buf cfg m)
  unfolding init_fs_info
  fs_info_copy w o h =
      let le = fixed_sectors buf v in
      load-SameOutside w (buf + b * 7 + o) late_frame (inl (omega (arith, le)))
      ∙ ap (λ t. load_le w (t + o) m3) (sym le.3)
      ∙ load-memcpy_inside w o (sector_at buf cfg 7) (sector_at buf cfg 1) 512 _ h
      ∙ sym (second_sector w o h)

  abbrev tables : Memory
  tables =
      store_fields (first_table buf cfg) (table_fields buf cfg)
        (memset (first_table buf cfg) 0 (u32 (b * num_fat_sector cfg)) m3)

  -- An entry of the first three of a table.
  pub first_entries :
      (o x : ℕ)
      → last_value o 4 (table_fields buf cfg) none ≡ some x
      → o + 4 ≤ 12
      → (load_le 4 (first_table buf cfg + o) (write_volume buf cfg m) ≡ x % 256 ^ 4)
        × (load_le 4 (second_table buf cfg + o) (write_volume buf cfg m) ≡ x % 256 ^ 4)
  unfolding write_volume init_tables
  first_entries o x e h =
      let p = Offsets-hold v buf in
      let q = sector_size_bounds v in
      let t = first_table buf cfg in
      let t' = second_table buf cfg in
      (
        load-SameOutside 4 (t + o) (init_root-frame buf v m4) (inl (omega (arith, p, q)))
            ∙ load-store_fields_outside 4 (t + o) t' 12 (table_fields buf cfg) tables
                (table_fields-fit buf cfg) (inl (omega (arith, p, q)))
            ∙ load-store_fields o 4 t x (table_fields buf cfg) _ none (λ u. cc) e,
        load-SameOutside 4 (t' + o) (init_root-frame buf v m4) (inl (omega (arith, p, q)))
            ∙ load-store_fields o 4 t' x (table_fields buf cfg) tables none (λ u. cc) e,
      )

  -- The other entries are free.
  pub free_entries :
      (k : ℕ)
      → 3 ≤ k
      → 4 * k + 4 ≤ b * fat_size_in_sector cfg
      → (load_le 4 (first_table buf cfg + 4 * k) (write_volume buf cfg m) ≡ 0)
        × (load_le 4 (second_table buf cfg + 4 * k) (write_volume buf cfg m) ≡ 0)
  unfolding write_volume init_tables
  free_entries k lo hi =
      let p = Offsets-hold v buf in
      let q = sector_size_bounds v in
      let t = first_table buf cfg in
      let t' = second_table buf cfg in
      let fs = table_fields buf cfg in
      let fit = table_fields-fit buf cfg in
      (
        load-SameOutside 4 (t + 4 * k) (init_root-frame buf v m4) (inl (omega (arith, p, q)))
            ∙ load-store_fields_outside 4 (t + 4 * k) t' 12 fs tables fit
                (inl (omega (arith, p, q)))
            ∙ load-store_fields_outside 4 (t + 4 * k) t 12 fs _ fit (inr (omega arith))
            ∙ load-memset_zero 4 (t + 4 * k) t _ m3 (omega arith) (omega (arith, p, q)),
        load-SameOutside 4 (t' + 4 * k) (init_root-frame buf v m4) (inl (omega (arith, p, q)))
            ∙ load-store_fields_outside 4 (t' + 4 * k) t' 12 fs tables fit (inr (omega arith))
            ∙ load-store_fields_outside 4 (t' + 4 * k) t 12 fs _ fit (inr (omega (arith, p, q)))
            ∙ load-memset_zero 4 (t' + 4 * k) t _ m3 (omega (arith, p)) (omega (arith, p, q)),
      )

  -- The root directory is one cluster of zeros.
  pub empty_root :
      (w o : ℕ)
      → o + w ≤ b * cfg.cluster_size
      → load_le w (tables_end buf v + o) (write_volume buf cfg m) ≡ 0
  unfolding write_volume init_root
  empty_root w o h =
      let p = Offsets-hold v buf in
      load-memset_zero w (tables_end buf v + o) _ _ m4 (omega (arith, p)) (omega (arith, p))
