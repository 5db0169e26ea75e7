-- ===== src/Fat/Copyin/Kept.antt =====
-- The regions that a copy writes: its directory entry, and what comes after its data.
use linux_util.Common.{
  ℕ, ◌+◌, ◌-◌, ◌*◌, ◌%◌, ◌^◌, ◌≡◌, ◌≤◌, ◌<◌, arith, ◌∙◌, refl, List, some, none, true, length,
  get_or, get_or-past, ltb, if◌then◌else◌,
}
use linux_util.Memory.{Memory, memset, put_bytes, load_le}
use linux_util.Memory.Fields.{
  all_within, all_from, last_value, store_fields-below, load-store_fields,
}
use linux_util.Memory.Frame.{
  SameOutside, SameOutside-trans, memset-SameOutside, put_bytes-SameOutside, store_le-SameOutside,
  memcpy-SameOutside, store_fields-SameOutside,
}
use linux_util.Fat.Create.{FatConfig, fat_size_in_sector}
use linux_util.Fat.Create.Geometry.{IsValidConfig, sector_size_bounds, Offsets-hold}
use linux_util.Fat.Copyin.{File, prefix, suffix, entry_fields, write_dir_entry}
use linux_util.Fat.Copyin.Chain.{IsLinked}
use linux_util.Fat.Copyin.Volume.{IsVolume}
use linux_util.Fat.Copyin.Run.{
  CanCopy, alloc, sp, addr, entry, with_entry, with_chain, with_chain-IsLinked, with_backups,
}

entry_fields-fit : (attr next size : ℕ) → all_within 32 (entry_fields attr next size) ≡ true
unfolding all_within entry_fields
entry_fields-fit attr next size = refl

module _ (e : ℕ) (name : List ℕ) (attr next size : ℕ) (p : length (prefix name) ≤ 8)
    (s : length (suffix name) ≤ 4) (m : Memory) where
  pub write_dir_entry-frame : SameOutside e (e + 32) m (write_dir_entry e name attr next size m)
  unfolding write_dir_entry
  write_dir_entry-frame =
      SameOutside-trans _ _ (memset-SameOutside _ _ e 0 32 m (omega arith) (omega arith)) (
        SameOutside-trans _ _
          (put_bytes-SameOutside _ _ e (prefix name) _ (omega arith) (omega arith))
          (SameOutside-trans _ _
            (put_bytes-SameOutside _ _ (e + 8) (suffix name) _ (omega arith) (omega arith))
            (store_fields-SameOutside _ _ e 32 (entry_fields attr next size) _
              (entry_fields-fit attr next size) (omega arith) (omega arith))))

  -- A numeric field of the new entry.
  pub entry_field :
      (w o x : ℕ)
      → last_value o w (entry_fields attr next size) none ≡ some x
      → load_le w (e + o) (write_dir_entry e name attr next size m) ≡ x % 256 ^ w
  unfolding write_dir_entry
  entry_field w o x h = load-store_fields o w e x (entry_fields attr next size) _ none (λ u. cc) h

  -- The bytes of the name: its first part, then zeros, then its second part from the dot on.
  pub entry_name :
      (i : ℕ)
      → i < 11
      → write_dir_entry e name attr next size m (e + i)
        ≡ (if ltb i 8 then get_or (prefix name) i 0 else get_or (suffix name) (i - 8) 0)
  unfolding write_dir_entry put_bytes memset entry_fields all_from
  entry_name i h =
      store_fields-below e 11 i (entry_fields attr next size) _ refl h
      ∙ ground (arith, get_or-past (prefix name) i 0, get_or-past (suffix name) (i - 8) 0)

module _ (buf : ℕ) {cfg : FatConfig} (v : IsValidConfig cfg) {k next : ℕ} {m : Memory}
    (vol : IsVolume buf cfg k next m) {file : File} {name bytes : List ℕ}
    (can : CanCopy cfg k next file name bytes) (attr : ℕ) where
  abbrev pub b : ℕ
  b = cfg.bytes_per_sector

  abbrev pub m' : Memory
  m' = with_backups buf v vol can attr

  abbrev pub mc : Memory
  mc = with_chain buf v vol can attr

  abbrev pub data_start : ℕ
  data_start = buf + b * (8 + 2 * fat_size_in_sector cfg)

  -- The order of the regions.
  pub record Layout : Type 0 where
    pub sector : 512 ≤ b
    pub tables : buf + b * 8 ≤ data_start
    pub in_root : entry buf v vol can attr + 32 ≤ data_start + cfg.cluster_size * b
    pub clusters : data_start + cfg.cluster_size * b ≤ addr buf v vol can attr

  pub layout : Layout
  layout =
      let s = sp buf v vol can attr in
      let r = can.entry_free in
      record {
        sector = omega (arith, sector_size_bounds v);
        tables = omega (arith, Offsets-hold v buf);
        in_root = omega arith;
        clusters = omega arith;
      }

  pub late : SameOutside (buf + b) (buf + b * 8) mc m'
  late =
      let y = layout in
      SameOutside-trans _ _ (store_le-SameOutside _ _ 4 _ _ mc (omega arith) (omega arith)) (
        SameOutside-trans _ _ (store_le-SameOutside _ _ 4 _ _ _ (omega arith) (omega arith)) (
          SameOutside-trans _ _ (memcpy-SameOutside _ _ _ _ _ _ (omega arith) (omega arith))
            (memcpy-SameOutside _ _ _ _ _ _ (omega arith) (omega arith))))

  pub linked :
      IsLinked buf cfg next (next + alloc buf v vol can attr - 1) (with_entry buf v vol can attr) mc
  linked = with_chain-IsLinked buf v vol can attr
