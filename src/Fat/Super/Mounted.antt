-- ===== src/Fat/Super/Mounted.antt =====
-- What `FAT32SuperInit` reads from a volume.
use linux_util.Common.{
  ℕ, zero, suc, ◌+◌, ◌-◌, ◌*◌, ◌/◌, ◌<◌, ◌≡◌, ◌≢◌, ◌≤◌, ◌<◌, ◌∙◌, ap, some, arith, u32, sub32, [],
  ◌∷◌, lt→ltb,
}
use linux_util.Memory.{Memory, load_le}
use linux_util.Fat.Create.{FatConfig, fat_size_in_sector}
use linux_util.Fat.Create.Geometry.{
  IsValidConfig, Offsets-hold, sector_offset, cluster_size_bounds, regions_fit, n_sector-lt,
}
use linux_util.Fat.Create.Volume.{table_entry}
use linux_util.Fat.Super.{Super, sector_address, next_tables, root_chain, free_entry, super_init}

-- What a mounted volume shows of the configuration, with `k` used entries in its root directory.
unfoldable pub mounted : (buf : ℕ) → FatConfig → (k : ℕ) → Super
mounted buf cfg k =
    let b = cfg.bytes_per_sector in
    let f = fat_size_in_sector cfg in
    record {
      buf = buf;
      fs_info = some (buf + b);
      bytes_per_sector = b;
      bytes_per_cluster = cfg.cluster_size * b;
      bytes_per_fat = f * b;
      num_sector = cfg.n_sector;
      num_reserved = 8;
      num_fat = 2 * f;
      num_data = cfg.n_sector - 8 - 2 * f;
      max_cluster = (cfg.n_sector - 8 - 2 * f) / cfg.cluster_size;
      root_cluster = 2;
      num_entry_table = 2;
      tables = (buf + b * 8) ∷ (buf + b * (8 + f)) ∷ [];
      root_dir = some (buf + b * (8 + 2 * f));
      next_root_entry = k;
      num_root_entry = cfg.cluster_size * b / 32;
    }

-- What `FAT32SuperInit` reads: the boot sector, the end of the root directory's chain, and the
-- first free entry of the root directory.
pub record IsMountable (buf : ℕ) (cfg : FatConfig) (k : ℕ) (m : Memory) : Type 0 where
  pub bytes_per_sector : load_le 2 (buf + 11) m ≡ cfg.bytes_per_sector
  pub sectors_per_cluster : load_le 1 (buf + 13) m ≡ cfg.cluster_size
  pub reserved : load_le 2 (buf + 14) m ≡ 8
  pub alloc_tables : load_le 1 (buf + 16) m ≡ 2
  pub sectors : load_le 4 (buf + 32) m ≡ cfg.n_sector
  pub fat_size : load_le 4 (buf + 36) m ≡ fat_size_in_sector cfg
  pub root_cluster : load_le 4 (buf + 44) m ≡ 2
  pub root_end : table_entry buf cfg 0 2 m ≡ 0xFFFFFFFF
  pub taken :
      (i : ℕ)
      → i < k
      → m (buf + cfg.bytes_per_sector * (8 + 2 * fat_size_in_sector cfg) + 32 * i) ≢ 0
  pub empty :
      (i : ℕ)
      → k ≤ i
      → i < cfg.cluster_size * cfg.bytes_per_sector / 32
      → m (buf + cfg.bytes_per_sector * (8 + 2 * fat_size_in_sector cfg) + 32 * i) ≡ 0
  pub room : k ≤ cfg.cluster_size * cfg.bytes_per_sector / 32

module _ (buf : ℕ) {cfg : FatConfig} (v : IsValidConfig cfg) {m : Memory} {k : ℕ}
    (h : IsMountable buf cfg k m) where
  abbrev b : ℕ
  b = cfg.bytes_per_sector

  abbrev f : ℕ
  f = fat_size_in_sector cfg

  sector_address_lem :
      (k : ℕ) → k < cfg.n_sector → sector_address buf b cfg.n_sector k ≡ some (buf + b * k)
  unfolding sector_address
  sector_address_lem k p = let e = (sector_offset v k (omega arith)).0 in ground (arith, e)

  -- The chain of the root directory is one cluster long.
  root_chain_lem :
      (fuel : ℕ)
      → root_chain (suc fuel) (buf + b * 8) (load_le 4 (buf + b * 8 + 4 * 2) m) 1 m ≡ some 1
  unfolding root_chain
  root_chain_lem fuel =
      let e : load_le 4 (buf + b * 8 + 4 * 2) m ≡ 0xFFFFFFFF =
        ap (λ a. load_le 4 (a + 8) m) (omega arith) ∙ h.root_end in
      rw e

  -- The search stops at the first free entry.
  free_entry_below :
      (left i : ℕ)
      → i ≤ k
      → i + left ≡ cfg.cluster_size * b / 32
      → free_entry left i (buf + b * (8 + 2 * f)) m ≡ k
  unfolding free_entry
  free_entry_below zero i le e = ground (arith, h.room)
  free_entry_below (suc left) i le e =
      ground (arith, h.taken i, h.empty i, h.room, free_entry_below left (i + 1))

  free_entry_lem : free_entry (cfg.cluster_size * b / 32) 0 (buf + b * (8 + 2 * f)) m ≡ k
  free_entry_lem = free_entry_below _ 0 (omega arith) (omega arith)

  abbrev n : ℕ
  n = cfg.n_sector

  -- The arithmetic of the view, without wrap-around.
  record Plain : Type 0 where
    cluster_bytes : u32 (cfg.cluster_size * b) ≡ cfg.cluster_size * b
    fat_bytes : u32 (f * b) ≡ f * b
    fat_sectors : u32 (f * 2) ≡ 2 * f
    data_sectors : sub32 (sub32 n 8) (2 * f) ≡ n - 8 - 2 * f
    table : buf + u32 (b * 8) ≡ buf + b * 8
    root_sector : u32 (8 + 2 * f) ≡ 8 + 2 * f
    second : buf + b * 8 + 4 * (f * b / 4) ≡ buf + b * (8 + f)
    one : u32 (1 * (cfg.cluster_size * b)) ≡ cfg.cluster_size * b

  plain : Plain
  plain =
      let o = Offsets-hold v buf in
      let r = regions_fit v in
      let s = n_sector-lt v in
      let w = v.offsets in
      let quarter : b ≡ 4 * (b / 4) = omega (arith, v.sector_size) in
      record {
        cluster_bytes = omega (arith, o);
        fat_bytes = omega (arith, o);
        fat_sectors = omega arith;
        data_sectors = omega arith;
        table = omega (arith, o);
        root_sector = omega arith;
        second = omega (arith, ap (λ (t : ℕ). f * t) quarter);
        one = omega (arith, o);
      }

  second_sector : sector_address buf b cfg.n_sector 1 ≡ some (buf + b)
  second_sector =
      let e : buf + b * 1 ≡ buf + b = omega arith in
      sector_address_lem 1 (omega (arith, v.sectors)) ∙ ap some e

  -- `FAT32SuperInit` on a volume of this configuration ends, with a bound of one on the walk along
  -- the chain of the root directory, and gives its view without any wrap-around: the sizes, the two
  -- tables, the root directory and its first free entry.
  pub super_init-mounted : (fuel : ℕ) → super_init (suc fuel) buf m ≡ some (mounted buf cfg k)
  unfolding super_init mounted next_tables
  super_init-mounted fuel =
      let p = plain in
      simp (
        h.bytes_per_sector,
        h.sectors_per_cluster,
        h.reserved,
        h.alloc_tables,
        h.sectors,
        h.fat_size,
        h.root_cluster,
        p.cluster_bytes,
        p.fat_bytes,
        p.fat_sectors,
        p.data_sectors,
        p.table,
        p.root_sector,
        p.second,
        p.one,
        lt→ltb 0 cfg.cluster_size (cluster_size_bounds v).0,
        root_chain_lem fuel,
        second_sector,
        sector_address_lem (8 + 2 * f) (omega (arith, regions_fit v, cluster_size_bounds v)),
        free_entry_lem,
      )
