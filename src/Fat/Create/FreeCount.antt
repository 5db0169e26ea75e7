-- ===== src/Fat/Create/FreeCount.antt =====
-- The free count that `createFAT32` stores in the FSInfo sector, and the free entries of its tables.
use linux_util.Common.{
  ℕ, zero, suc, ◌+◌, ◌-◌, ◌*◌, ◌/◌, ◌≡◌, ◌≤◌, arith, u32, sub32, false, refl, sym, ap, ◌∙◌, some,
  ◌==◌, if◌then◌else◌, mul_mono,
}
use linux_util.Memory.{Memory, load_le}
use linux_util.Fat.Create.{
  FatConfig, create_fat32, fat_size_in_sector, num_free_fat_entry, num_entry_per_sector,
}
use linux_util.Fat.Create.Geometry.{IsValidConfig, Offsets-hold, regions_fit, num_fat_sector_lem}
use linux_util.Fat.Create.Volume.{IsFresh, table_entry, create_fat32-IsFresh}

-- How many of the `left` entries of the first table from entry `k` on are zero, which is free.
unfoldable pub count_free : (buf : ℕ) (cfg : FatConfig) (left k : ℕ) → Memory → ℕ
count_free buf cfg zero k m = 0
count_free buf cfg (suc left) k m =
    let rest = count_free buf cfg left (suc k) m in
    if table_entry buf cfg 0 k m == 0 then suc rest else rest

module _ (buf : ℕ) {cfg : FatConfig} (v : IsValidConfig cfg) where
  many_entries : 128 ≤ num_entry_per_sector cfg * fat_size_in_sector cfg
  many_entries =
      let r = regions_fit v in
      mul_mono 128 (num_entry_per_sector cfg) 1 (fat_size_in_sector cfg)
        (omega (arith, v.sector_size)) (omega arith)

  -- The count of free entries that `createFAT32` stores, with the three that are used, is the number
  -- of entries of both tables together: twice those of one table.
  pub num_free_lem :
      num_free_fat_entry cfg + 3 ≡ 2 * (num_entry_per_sector cfg * fat_size_in_sector cfg)
  num_free_lem =
      let e = num_entry_per_sector cfg in
      let f = fat_size_in_sector cfg in
      let r = regions_fit v in
      let o = Offsets-hold v buf in
      let w = v.offsets in
      let quarter : cfg.bytes_per_sector ≡ 4 * e = omega (arith, v.sector_size) in
      let many = many_entries in
      ap (λ t. sub32 (u32 (t * e)) 3 + 3) (num_fat_sector_lem v)
      ∙ omega (arith, ap (λ (t : ℕ). t * f) quarter)

  -- The entries of a table.
  abbrev pub entries : ℕ
  entries = cfg.bytes_per_sector * fat_size_in_sector cfg / 4

  count_free-all :
      (left k : ℕ) (m : Memory)
      → IsFresh buf cfg m
      → 3 ≤ k
      → k + left ≤ entries
      → count_free buf cfg left k m ≡ left
  unfolding count_free
  count_free-all zero k m h lo fits = refl
  count_free-all (suc left) k m h lo fits =
      let free = h.free 0 k (omega arith) lo (omega arith) in
      let rest = count_free-all left (suc k) m h (omega arith) (omega arith) in
      rw free (ap suc rest)

  entries_lem : entries ≡ num_entry_per_sector cfg * fat_size_in_sector cfg
  entries_lem =
      let e = num_entry_per_sector cfg in
      let quarter : cfg.bytes_per_sector ≡ 4 * e = omega (arith, v.sector_size) in
      omega (arith, ap (λ (t : ℕ). t * fat_size_in_sector cfg) quarter)

  count_free-fresh :
      (r : ℕ) (m : Memory)
      → IsFresh buf cfg m
      → suc (suc (suc r)) ≡ entries
      → count_free buf cfg (suc (suc (suc r))) 0 m ≡ r
  unfolding count_free
  count_free-fresh r m h e =
      let (media, error, root) = h.marks 0 (omega arith) in
      let f0 : (table_entry buf cfg 0 0 m == 0) ≡ false = ground (arith, media) in
      let f1 : (table_entry buf cfg 0 1 m == 0) ≡ false = ground (arith, error) in
      let f2 : (table_entry buf cfg 0 2 m == 0) ≡ false = ground (arith, root) in
      rw (f0, f1, f2) (count_free-all r 3 m h (omega arith) (omega arith))

  -- The free count that `createFAT32` leaves in the FSInfo sector of a volume with a valid
  -- configuration is not the number of free entries of its allocation table, but twice that number
  -- and three more.
  pub create_fat32-free_count :
      (m : Memory)
      → (m' : Memory) × (create_fat32 buf cfg m ≡ some (0, m'))
        × (load_le 4 (buf + cfg.bytes_per_sector + 488) m'
            ≡ 2 * count_free buf cfg entries 0 m' + 3)
  create_fat32-free_count m =
      let (m', ok, h, frame) = create_fat32-IsFresh buf v m in
      let left = entries - 3 in
      let free = num_free_lem in
      let many = many_entries in
      let e = entries_lem in
      let whole : suc (suc (suc left)) ≡ entries = omega (arith, many, e) in
      let counted = count_free-fresh left m' h whole in
      let all : count_free buf cfg entries 0 m' ≡ left =
        ap (λ (t : ℕ). count_free buf cfg t 0 m') (sym whole) ∙ counted in
      (m', ok, h.free_count ∙ omega (arith, free, e, all))
