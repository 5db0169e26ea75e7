-- ===== src/Fat/Copyin/Space.antt =====
-- The clusters that a copy takes.
use linux_util.Common.{
  ℕ, zero, suc, ◌+◌, ◌-◌, ◌*◌, ◌/◌, ◌≡◌, ◌≤◌, ◌<◌, arith, u32, ap, ◌∙◌, mul_mono, lt_of_mul-lt,
}
use native.Mathlib.Nat.{mul-div_left}
use linux_util.Fat.Create.{FatConfig, fat_size_in_sector, cdiv}
use linux_util.Fat.Create.Geometry.{
  IsValidConfig, cdiv_bounds, sector_offset, sector_size_bounds, cluster_size_bounds, n_sector-lt,
}
use linux_util.Fat.Super.Entries.{max_cluster, max_cluster_fits}

-- The first sector of cluster `c`, as `FAT32Copyin` computes and returns it.
abbrev pub start_sector : FatConfig → ℕ → ℕ
start_sector cfg c = (c - 2) * cfg.cluster_size + (8 + 2 * fat_size_in_sector cfg)

-- A file of `size` bytes that is put into the clusters from `next` on.
pub record Space (buf : ℕ) (cfg : FatConfig) (next size : ℕ) : Type 0 where
  pub alloc-pos : 0 < cdiv size (cfg.cluster_size * cfg.bytes_per_sector)
  pub alloc-le : next + cdiv size (cfg.cluster_size * cfg.bytes_per_sector) ≤ max_cluster cfg
  pub covers :
      size
      ≤ cfg.cluster_size
        * cfg.bytes_per_sector
        * cdiv size (cfg.cluster_size * cfg.bytes_per_sector)
  pub start-lt : start_sector cfg next < cfg.n_sector
  pub start :
      u32 (
        u32 ((next - 2) * (cfg.cluster_size * cfg.bytes_per_sector / cfg.bytes_per_sector))
        + (8 + 2 * fat_size_in_sector cfg))
      ≡ start_sector cfg next
  pub offset :
      u32 (start_sector cfg next * cfg.bytes_per_sector)
      ≡ cfg.bytes_per_sector * start_sector cfg next
  pub bytes :
      u32 (
        cdiv size (cfg.cluster_size * cfg.bytes_per_sector)
        * (cfg.cluster_size * cfg.bytes_per_sector))
      ≡ cfg.cluster_size
        * cfg.bytes_per_sector
        * cdiv size (cfg.cluster_size * cfg.bytes_per_sector)
  pub inside :
      cfg.bytes_per_sector * start_sector cfg next
        + cfg.cluster_size
          * cfg.bytes_per_sector
          * cdiv size (cfg.cluster_size * cfg.bytes_per_sector)
      ≤ cfg.bytes_per_sector * cfg.n_sector
  pub behind_root :
      cfg.bytes_per_sector * (8 + 2 * fat_size_in_sector cfg)
        + cfg.cluster_size * cfg.bytes_per_sector
      ≤ cfg.bytes_per_sector * start_sector cfg next
  pub limit :
      u32 (cfg.cluster_size * cfg.bytes_per_sector * (max_cluster cfg - next))
      ≡ cfg.cluster_size * cfg.bytes_per_sector * (max_cluster cfg - next)

pos_of_mul : (x a s : ℕ) → 0 < s → s ≤ x * a → 0 < a
pos_of_mul x zero s pos le = absurd (omega arith)
pos_of_mul x (suc a) s pos le = omega arith

module _ (buf : ℕ) {cfg : FatConfig} (v : IsValidConfig cfg) (next size : ℕ) (lo : 3 ≤ next)
    (hi : next ≤ max_cluster cfg) (pos : 0 < size)
    (fits : size ≤ cfg.cluster_size * cfg.bytes_per_sector * (max_cluster cfg - next)) where
  abbrev b : ℕ
  b = cfg.bytes_per_sector

  abbrev cs : ℕ
  cs = cfg.cluster_size

  abbrev mx : ℕ
  mx = max_cluster cfg

  abbrev A : ℕ
  A = cdiv size (cs * b)

  abbrev f : ℕ
  f = fat_size_in_sector cfg

  -- All clusters of the driver, in bytes.
  all_bytes : (cs * b * mx + b * (8 + 2 * f) ≤ b * cfg.n_sector) × (512 ≤ cs * b)
  all_bytes =
      let s = sector_size_bounds v in
      let c = cluster_size_bounds v in
      let m = max_cluster_fits buf v in
      omega (
        arith,
        mul_mono b b (cs * mx + 8 + 2 * f) cfg.n_sector (omega arith) (omega arith),
        mul_mono 1 cs 512 b (omega arith) (omega arith),
      )

  rounding : (size ≤ cs * b * A) × (cs * b * A < size + cs * b)
  rounding =
      let v' = v.offsets in
      let split : mx ≡ next + (mx - next) = omega arith in
      let all = all_bytes in
      cdiv_bounds size (cs * b) (omega arith) (
        omega (
          arith,
          ap (λ (t : ℕ). cs * b * t) split,
          mul_mono (cs * b) (cs * b) 1 next (omega arith) (omega arith),
        ))

  alloc_bounds : (0 < A) × (next + A ≤ mx)
  alloc_bounds =
      let r = rounding in
      (
        pos_of_mul (cs * b) A size pos r.0,
        omega (arith, lt_of_mul-lt (cs * b) A (mx - next + 1) (omega arith)),
      )

  pub space : Space buf cfg next size
  space =
      let r = rounding in
      let a = alloc_bounds in
      let all = all_bytes in
      let w = v.offsets in
      let n = n_sector-lt v in
      let c = cluster_size_bounds v in
      let m = max_cluster_fits buf v in
      let s = sector_size_bounds v in
      let before = mul_mono cs cs (next - 2 + 1) mx (omega arith) (omega arith) in
      let lt : start_sector cfg next < cfg.n_sector = omega (arith, before) in
      let div = mul-div_left cs {n = b} (omega arith) in
      let used = mul_mono (cs * b) (cs * b) (next - 2 + A) mx (omega arith) (omega arith) in
      let free = mul_mono (cs * b) (cs * b) (mx - next) mx (omega arith) (omega arith) in
      record {
        alloc-pos = a.0;
        alloc-le = a.1;
        covers = r.0;
        start-lt = lt;
        start = ap (λ t. u32 (u32 ((next - 2) * t) + (8 + 2 * f))) div ∙ omega (arith, before);
        offset =
            let e : start_sector cfg next * b ≡ b * start_sector cfg next = omega arith in
            ap u32 e ∙ (sector_offset v (start_sector cfg next) (omega arith)).0;
        bytes = omega (arith, used);
        inside = omega (arith, used);
        behind_root =
            omega (arith, mul_mono (cs * b) (cs * b) 1 (next - 2) (omega arith) (omega arith));
        limit = omega (arith, free);
      }
