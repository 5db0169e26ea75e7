-- ===== src/Fat/Create/Volume.antt =====
-- A fresh volume as a reader of the disk finds it, and that `createFAT32` leaves one.
use linux_util.Common.{
  ℕ, zero, suc, ◌+◌, ◌*◌, ◌%◌, ◌^◌, ◌≤◌, ◌<◌, ◌≡◌, refl, ◌∙◌, ap, some, arith, bit_or, Bool-cases,
  inl, inr,
}
use linux_util.Memory.{Memory, load_le}
use linux_util.Memory.Fields.{last_value, none_at}
use linux_util.Memory.Frame.{SameOutside}
use linux_util.Fat.Create.{
  FatConfig, fat_size_in_sector, bpb_fields, signature_fields, fs_info_fields, table_fields,
  create_fat32, write_volume, media, first_table, second_table, num_free_fat_entry,
}
use linux_util.Fat.Create.Geometry.{
  IsValidConfig, Offsets-hold, sector_size_bounds, cluster_size_bounds, regions_fit, n_sector-lt,
}
use linux_util.Fat.Create.Bounds.{create_fat32-ok, write_volume-frame}
use linux_util.Fat.Create.Content.{
  boot_field, boot_copy, fs_info_field, fs_info_copy, first_entries, free_entries, empty_root,
}

-- Entry `k` of allocation table 0 or 1.
abbrev pub table_entry : (buf : ℕ) → FatConfig → (table k : ℕ) → Memory → ℕ
table_entry buf cfg table k m =
    load_le 4 (buf + cfg.bytes_per_sector * (8 + table * fat_size_in_sector cfg) + 4 * k) m

pub record IsFresh (buf : ℕ) (cfg : FatConfig) (m : Memory) : Type 0 where
  pub bytes_per_sector : load_le 2 (buf + 11) m ≡ cfg.bytes_per_sector
  pub sectors_per_cluster : load_le 1 (buf + 13) m ≡ cfg.cluster_size
  pub reserved : load_le 2 (buf + 14) m ≡ 8
  pub alloc_tables : load_le 1 (buf + 16) m ≡ 2
  pub sectors : load_le 4 (buf + 32) m ≡ cfg.n_sector
  pub fat_size : load_le 4 (buf + 36) m ≡ fat_size_in_sector cfg
  pub root_cluster : load_le 4 (buf + 44) m ≡ 2
  pub free_count : load_le 4 (buf + cfg.bytes_per_sector + 488) m ≡ num_free_fat_entry cfg
  pub next_free : load_le 4 (buf + cfg.bytes_per_sector + 492) m ≡ 3
  pub boot_copy :
      (w o : ℕ)
      → o + w ≤ 512
      → load_le w (buf + cfg.bytes_per_sector * 6 + o) m ≡ load_le w (buf + o) m
  pub fs_info_copy :
      (w o : ℕ)
      → o + w ≤ 512
      → load_le w (buf + cfg.bytes_per_sector * 7 + o) m
        ≡ load_le w (buf + cfg.bytes_per_sector + o) m
  pub marks :
      (t : ℕ)
      → t < 2
      → (table_entry buf cfg t 0 m ≡ 0xFFFF00 + media cfg)
        × (table_entry buf cfg t 1 m ≡ 0x0C000000)
        × (table_entry buf cfg t 2 m ≡ 0xFFFFFFFF)
  pub free :
      (t k : ℕ)
      → t < 2
      → 3 ≤ k
      → 4 * k + 4 ≤ cfg.bytes_per_sector * fat_size_in_sector cfg
      → table_entry buf cfg t k m ≡ 0
  pub root :
      (w o : ℕ)
      → o + w ≤ cfg.bytes_per_sector * cfg.cluster_size
      → load_le w (buf + cfg.bytes_per_sector * (8 + 2 * fat_size_in_sector cfg) + o) m ≡ 0

media_entry : (cfg : FatConfig) → bit_or 0xFFFF00 (media cfg) % 256 ^ 4 ≡ 0xFFFF00 + media cfg
media_entry cfg = elim (Bool-cases cfg.is_fixed) [
  | inl fixed ↦ rw fixed
  | inr removable ↦ rw removable
]

module _ (buf : ℕ) {cfg : FatConfig} (v : IsValidConfig cfg) (m : Memory) where
  -- The constants of a table, at either table.
  entry_of_both :
      (k x : ℕ) (t : ℕ)
      → t < 2
      → (load_le 4 (first_table buf cfg + 4 * k) (write_volume buf cfg m) ≡ x)
        × (load_le 4 (second_table buf cfg + 4 * k) (write_volume buf cfg m) ≡ x)
      → table_entry buf cfg t k (write_volume buf cfg m) ≡ x
  entry_of_both k x zero h both =
      ap (λ a. load_le 4 (a + 4 * k) (write_volume buf cfg m)) (omega (arith, Offsets-hold v buf))
      ∙ both.0
  entry_of_both k x (suc zero) h both =
      ap (λ a. load_le 4 (a + 4 * k) (write_volume buf cfg m)) (omega (arith, Offsets-hold v buf))
      ∙ both.1
  entry_of_both k x (suc (suc t)) h both = absurd (omega arith)

  write_volume-IsFresh : IsFresh buf cfg (write_volume buf cfg m)
  unfolding last_value none_at bpb_fields signature_fields fs_info_fields table_fields
  write_volume-IsFresh =
      let x = sector_size_bounds v in
      let y = cluster_size_bounds v in
      let z = n_sector-lt v in
      let f = regions_fit v in
      record {
        bytes_per_sector = boot_field buf v m 2 11 _ refl refl (omega arith) ∙ omega (arith, x);
        sectors_per_cluster = boot_field buf v m 1 13 _ refl refl (omega arith) ∙ omega (arith, y);
        reserved = boot_field buf v m 2 14 _ refl refl (omega arith);
        alloc_tables = boot_field buf v m 1 16 _ refl refl (omega arith);
        sectors = boot_field buf v m 4 32 _ refl refl (omega arith) ∙ omega (arith, z);
        fat_size = boot_field buf v m 4 36 _ refl refl (omega arith) ∙ omega (arith, z, f);
        root_cluster = boot_field buf v m 4 44 _ refl refl (omega arith);
        free_count = fs_info_field buf v m 4 488 _ refl (omega arith) ∙ omega arith;
        next_free = fs_info_field buf v m 4 492 _ refl (omega arith);
        boot_copy = boot_copy buf v m;
        fs_info_copy = fs_info_copy buf v m;
        marks = λ t h. (
          entry_of_both 0 _ t h (first_entries buf v m 0 _ refl (omega arith)) ∙ media_entry cfg,
          entry_of_both 1 _ t h (first_entries buf v m 4 _ refl (omega arith)),
          entry_of_both 2 _ t h (first_entries buf v m 8 _ refl (omega arith)),
        );
        free = λ t k h lo hi. entry_of_both k 0 t h (free_entries buf v m k lo hi);
        root = empty_root buf v m;
      }

  -- With a valid configuration `createFAT32` succeeds, and a reader finds a fresh volume: the
  -- configured geometry in the boot sector, equal backups of the first two sectors, two equal
  -- allocation tables with three used entries and all others free, and an empty root directory. No
  -- byte outside the volume is changed.
  pub create_fat32-IsFresh :
      (m' : Memory) × (create_fat32 buf cfg m ≡ some (0, m'))
      × IsFresh buf cfg m'
      × SameOutside buf (buf + cfg.bytes_per_sector * cfg.n_sector) m m'
  create_fat32-IsFresh = (
    write_volume buf cfg m,
    create_fat32-ok buf v m,
    write_volume-IsFresh,
    write_volume-frame buf v m,
  )
