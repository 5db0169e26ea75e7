-- ===== src/Fat/Create/Geometry.antt =====
-- Which configurations `createFAT32` takes, and where its regions lie: the sizes that it computes in
-- `uint32_t` do not wrap, and the regions fit the volume.
use linux_util.Common.{
  ℕ, zero, suc, ◌+◌, ◌-◌, ◌*◌, ◌/◌, ◌^◌, ◌≤◌, ◌<◌, ◌≡◌, ap, ◌∙◌, ◌↔◌, ◌⊎◌, true, arith, u32,
  mul_mono, sub32,
}
use native.Mathlib.Nat.{div-add-mod, mod-lt}
use linux_util.Fat.Create.{
  FatConfig, bytes_is_valid, cluster_size_is_valid, num_cluster_on_disk, num_entry_per_sector,
  fat_size_in_sector, num_fat_sector, data_offset, first_table, second_table, cdiv,
}

abbrev pub IsSectorSize : ℕ → Type 0
IsSectorSize x = (x ≡ 512) ⊎ (x ≡ 1024) ⊎ (x ≡ 2048) ⊎ (x ≡ 4096)

abbrev pub IsClusterSize : ℕ → Type 0
IsClusterSize x = (x ≡ 1) ⊎ (x ≡ 2) ⊎ (x ≡ 4) ⊎ (x ≡ 8) ⊎ (x ≡ 16) ⊎ (x ≡ 32) ⊎ (x ≡ 64) ⊎ (x ≡ 128)

pub bytes_is_valid_iff : (x : ℕ) → (bytes_is_valid x ≡ true) ↔ IsSectorSize x
unfolding bytes_is_valid
bytes_is_valid_iff x = (λ h. ground arith, λ h. ground arith)

pub cluster_size_is_valid_iff : (x : ℕ) → (cluster_size_is_valid x ≡ true) ↔ IsClusterSize x
unfolding cluster_size_is_valid
cluster_size_is_valid_iff x = (λ h. ground arith, λ h. ground arith)

-- The configurations that `createFAT32` turns into a volume, on a volume of less than 4 GiB, whose
-- byte offsets fit `uint32_t`.
pub record IsValidConfig (cfg : FatConfig) : Type 0 where
  pub sectors : 16 ≤ cfg.n_sector
  pub sector_size : IsSectorSize cfg.bytes_per_sector
  pub cluster : IsClusterSize cfg.cluster_size
  pub clusters : 2 < num_cluster_on_disk cfg
  pub offsets : cfg.n_sector * cfg.bytes_per_sector < 2 ^ 32

-- A rounded-up quotient, where the sum does not wrap.
pub cdiv_bounds : (a b : ℕ) → 0 < b → a + b < 2 ^ 32 → (a ≤ b * cdiv a b) × (b * cdiv a b < a + b)
cdiv_bounds a b pos fits =
    let e : sub32 (u32 (a + b)) 1 ≡ a + b - 1 = omega arith in
    omega (arith, div-add-mod (a + b - 1) b, mod-lt (a + b - 1) pos, ap (λ (t : ℕ). b * (t / b)) e)

module _ {cfg : FatConfig} (v : IsValidConfig cfg) where
  open v use {sectors, sector_size, cluster, clusters, offsets}

  pub sector_size_bounds : (512 ≤ cfg.bytes_per_sector) × (cfg.bytes_per_sector ≤ 4096)
  sector_size_bounds = omega arith

  pub cluster_size_bounds : (1 ≤ cfg.cluster_size) × (cfg.cluster_size ≤ 128)
  cluster_size_bounds = omega arith

  pub n_sector-lt : cfg.n_sector < 2 ^ 23
  n_sector-lt = omega (
    arith,
    mul_mono cfg.n_sector cfg.n_sector 512 cfg.bytes_per_sector (omega arith) sector_size_bounds.0,
  )

  clusters_fit : (num_cluster_on_disk cfg ≤ cfg.n_sector) × (cfg.cluster_size * 3 ≤ cfg.n_sector)
  clusters_fit =
      let cs = cfg.cluster_size in
      let nc = num_cluster_on_disk cfg in
      omega (
        arith,
        div-add-mod cfg.n_sector cs,
        mul_mono cs cs 3 nc (omega arith) clusters,
        mul_mono 1 cs nc nc cluster_size_bounds.0 (omega arith),
      )

  pub fat_size_bounds :
      (num_cluster_on_disk cfg ≤ num_entry_per_sector cfg * fat_size_in_sector cfg)
      × (num_entry_per_sector cfg * fat_size_in_sector cfg
          < num_cluster_on_disk cfg + num_entry_per_sector cfg)
  unfolding fat_size_in_sector
  fat_size_bounds =
      cdiv_bounds _ _ (omega (arith, sector_size_bounds))
        (omega (arith, sector_size_bounds, clusters_fit, n_sector-lt))

  fat_size-pos : 0 < fat_size_in_sector cfg
  fat_size-pos = go (fat_size_in_sector cfg) fat_size_bounds.0
    where
      go : (f : ℕ) → num_cluster_on_disk cfg ≤ num_entry_per_sector cfg * f → 0 < f
      go zero h = absurd (omega arith)
      go (suc f) h = omega arith

  -- The reserved sectors, both tables and the first cluster fit the volume.
  pub regions_fit :
      (8 + 2 * fat_size_in_sector cfg + cfg.cluster_size ≤ cfg.n_sector)
      × (0 < fat_size_in_sector cfg)
  regions_fit =
      let f = fat_size_in_sector cfg in
      let e = num_entry_per_sector cfg in
      let split : f ≡ f - 1 + 1 = omega (arith, fat_size-pos) in
      let few : 128 * (f - 1) < num_cluster_on_disk cfg = omega (
        arith,
        fat_size_bounds,
        ap (λ (t : ℕ). e * t) split,
        mul_mono 128 e (f - 1) (f - 1) (omega (arith, sector_size_bounds)) (omega arith),
      ) in
      (omega (arith, few, clusters_fit, fat_size-pos), fat_size-pos)

  pub num_fat_sector_lem : num_fat_sector cfg ≡ 2 * fat_size_in_sector cfg
  num_fat_sector_lem = omega (arith, regions_fit, n_sector-lt)

  -- A sector number inside the volume is a byte offset that does not wrap.
  pub sector_offset :
      (k : ℕ)
      → k ≤ cfg.n_sector
      → (u32 (cfg.bytes_per_sector * k) ≡ cfg.bytes_per_sector * k)
        × (cfg.bytes_per_sector * k ≤ cfg.bytes_per_sector * cfg.n_sector)
  sector_offset k h =
      let b = cfg.bytes_per_sector in
      let le : b * k ≤ b * cfg.n_sector = mul_mono b b k cfg.n_sector (omega arith) h in
      (omega arith, le)

  -- The byte offsets of the regions, without wrap-around.
  pub record Offsets (buf : ℕ) : Type 0 where
    pub tables_size :
        u32 (cfg.bytes_per_sector * num_fat_sector cfg)
        ≡ cfg.bytes_per_sector * (2 * fat_size_in_sector cfg)
    pub first : first_table buf cfg ≡ buf + cfg.bytes_per_sector * 8
    pub second : second_table buf cfg ≡ buf + cfg.bytes_per_sector * (8 + fat_size_in_sector cfg)
    pub root : data_offset buf cfg ≡ cfg.bytes_per_sector * (8 + 2 * fat_size_in_sector cfg)
    pub root_size :
        u32 (cfg.bytes_per_sector * cfg.cluster_size) ≡ cfg.bytes_per_sector * cfg.cluster_size
    pub fits :
        cfg.bytes_per_sector * (8 + 2 * fat_size_in_sector cfg + cfg.cluster_size)
        ≤ cfg.bytes_per_sector * cfg.n_sector
    pub nonempty : cfg.bytes_per_sector ≤ cfg.bytes_per_sector * fat_size_in_sector cfg

  pub Offsets-hold : (buf : ℕ) → Offsets buf
  Offsets-hold buf =
      let b = cfg.bytes_per_sector in
      let f = fat_size_in_sector cfg in
      let nf = num_fat_sector_lem in
      let at = λ (k : ℕ) (h : k ≤ cfg.n_sector). (sector_offset k h).0 in
      let e : u32 (8 + num_fat_sector cfg) ≡ 8 + 2 * f =
        omega (arith, nf, regions_fit, n_sector-lt) in
      let e' : u32 (8 + f) ≡ 8 + f = omega (arith, regions_fit, n_sector-lt) in
      record {
        tables_size = ap (λ t. u32 (b * t)) nf ∙ at (2 * f) (omega (arith, regions_fit));
        first = ap (λ t. buf + t) (at 8 (omega (arith, regions_fit)));
        second =
            ap (λ t. buf + u32 (b * t)) e'
            ∙ ap (λ t. buf + t) (at (8 + f) (omega (arith, regions_fit)));
        root = ap (λ t. u32 (b * t)) e ∙ at (8 + 2 * f) (omega (arith, regions_fit));
        root_size = at cfg.cluster_size (omega (arith, regions_fit));
        fits = (sector_offset (8 + 2 * f + cfg.cluster_size) (omega (arith, regions_fit))).1;
        nonempty = omega (arith, mul_mono b b 1 f (omega arith) fat_size-pos);
      }
