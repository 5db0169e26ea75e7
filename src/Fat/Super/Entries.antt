-- ===== src/Fat/Super/Entries.antt =====
-- The entries of the allocation tables of a mounted volume.
use linux_util.Common.{
  ℕ, zero, suc, ◌+◌, ◌-◌, ◌*◌, ◌/◌, ◌≡◌, ◌≢◌, ◌≤◌, ◌<◌, ◌∙◌, ap, inl, inr, some, arith, u32, ◌⊎◌,
}
use native.Mathlib.Nat.{div-add-mod, div-le_self, le-div_iff_mul-le}
use native.Mathlib.Decide.{dec_lt}
use linux_util.Memory.{Memory, load_le, store_le}
use linux_util.Memory.Laws.{load-store_self, load-store_apart}
use linux_util.Memory.Frame.{SameOutside, SameOutside-trans, store_le-SameOutside}
use linux_util.Fat.Create.{FatConfig, fat_size_in_sector, num_cluster_on_disk, num_entry_per_sector}
use linux_util.Fat.Create.Geometry.{
  IsValidConfig, cluster_size_bounds, regions_fit, fat_size_bounds,
}
use linux_util.Fat.Create.Volume.{table_entry}
use linux_util.Fat.Super.{store_entries, write_entry}
use linux_util.Fat.Super.Mounted.{mounted}

-- The number of clusters that the driver uses.
abbrev pub max_cluster : FatConfig → ℕ
max_cluster cfg = (cfg.n_sector - 8 - 2 * fat_size_in_sector cfg) / cfg.cluster_size

-- Entry `c` of both tables set to `x`.
pub set_entry : (buf : ℕ) → FatConfig → (c x : ℕ) → Memory → Memory
set_entry buf cfg c x m =
    let t0 = buf + cfg.bytes_per_sector * 8 in
    let t1 = buf + cfg.bytes_per_sector * (8 + fat_size_in_sector cfg) in
    store_le 4 (t1 + 4 * c) x (store_le 4 (t0 + 4 * c) x m)

module _ (buf : ℕ) {cfg : FatConfig} (v : IsValidConfig cfg) where
  abbrev b : ℕ
  b = cfg.bytes_per_sector

  abbrev f : ℕ
  f = fat_size_in_sector cfg

  -- The clusters that the driver uses have entries in each table, and lie in the volume.
  pub max_cluster_fits :
      (4 * max_cluster cfg ≤ b * f)
      × (cfg.cluster_size * max_cluster cfg + 8 + 2 * f ≤ cfg.n_sector)
      × (max_cluster cfg ≤ cfg.n_sector)
  max_cluster_fits =
      let cs = cfg.cluster_size in
      let d = cfg.n_sector - 8 - 2 * f in
      let e = num_entry_per_sector cfg in
      let sum = div-add-mod d cs in
      let r = regions_fit v in
      let few : max_cluster cfg ≤ num_cluster_on_disk cfg =
        (le-div_iff_mul-le (cluster_size_bounds v).0).1 (omega arith) in
      let quarter : b ≡ 4 * e = omega (arith, v.sector_size) in
      let le = div-le_self d cs in
      (
        omega (arith, fat_size_bounds v, ap (λ (t : ℕ). t * f) quarter),
        omega (arith, r),
        omega (arith, le),
      )

  self_at :
      (a c x : ℕ) (m : Memory)
      → (a ≡ buf + b * 8 + 4 * c) ⊎ (a ≡ buf + b * (8 + f) + 4 * c)
      → c < max_cluster cfg
      → load_le 4 a (set_entry buf cfg c x m) ≡ u32 x
  unfolding set_entry
  self_at a c x m h lt =
      let t0 = buf + b * 8 + 4 * c in
      let t1 = buf + b * (8 + f) + 4 * c in
      let m' = store_le 4 t0 x m in
      let fits = max_cluster_fits in
      elim h [
        | inl e ↦
            rw e (load-store_apart 4 t0 4 t1 x m' (inl (omega arith)) ∙ load-store_self 4 t0 x m)
        | inr e ↦ rw e (load-store_self 4 t1 x m')
      ]

  other_at :
      (a c x : ℕ) (m : Memory)
      → (a + 4 ≤ buf + b * 8 + 4 * c) ⊎ (buf + b * 8 + 4 * c + 4 ≤ a)
      → (a + 4 ≤ buf + b * (8 + f) + 4 * c) ⊎ (buf + b * (8 + f) + 4 * c + 4 ≤ a)
      → load_le 4 a (set_entry buf cfg c x m) ≡ load_le 4 a m
  unfolding set_entry
  other_at a c x m h k = load-store_apart 4 a 4 _ x _ k ∙ load-store_apart 4 a 4 _ x m h

  pub write_entry-set_entry :
      (k c x : ℕ) (m : Memory)
      → 1 ≤ c
      → c < max_cluster cfg
      → write_entry (mounted buf cfg k) c x m ≡ some (set_entry buf cfg c x m)
  unfolding write_entry mounted store_entries set_entry
  write_entry-set_entry k c x m pos lt = ground arith

  pub set_entry_self :
      (t c x : ℕ) (m : Memory)
      → t < 2
      → c < max_cluster cfg
      → table_entry buf cfg t c (set_entry buf cfg c x m) ≡ u32 x
  set_entry_self zero c x m ht hc = self_at _ c x m (inl (omega arith)) hc
  set_entry_self (suc zero) c x m ht hc = self_at _ c x m (inr (omega arith)) hc
  set_entry_self (suc (suc t)) c x m ht hc = absurd (omega arith)

  pub set_entry_other :
      (t c d x : ℕ) (m : Memory)
      → t < 2
      → c < max_cluster cfg
      → d < max_cluster cfg
      → c ≢ d
      → table_entry buf cfg t d (set_entry buf cfg c x m) ≡ table_entry buf cfg t d m
  set_entry_other t c d x m ht hc hd ne =
      let fits = max_cluster_fits in
      elim (dec_lt c d) [
        | yes up ↦ apart t ht (inl up)
        | no not_up ↦ apart t ht (inr (omega arith))
      ]
    where
      apart :
          (t : ℕ)
          → t < 2
          → (c < d) ⊎ (d < c)
          → table_entry buf cfg t d (set_entry buf cfg c x m) ≡ table_entry buf cfg t d m
      apart zero h o =
          other_at _ c x m (omega (arith, max_cluster_fits)) (omega (arith, max_cluster_fits))
      apart (suc zero) h o =
          other_at _ c x m (omega (arith, max_cluster_fits)) (omega (arith, max_cluster_fits))
      apart (suc (suc t)) h o = absurd (omega arith)

  pub set_entry-frame :
      (c x : ℕ) (m : Memory)
      → c < max_cluster cfg
      → SameOutside (buf + b * 8) (buf + b * (8 + 2 * f)) m (set_entry buf cfg c x m)
  unfolding set_entry
  set_entry-frame c x m hc =
      SameOutside-trans _ _
        (store_le-SameOutside _ _ 4 _ x m (omega arith) (omega (arith, max_cluster_fits)))
        (store_le-SameOutside _ _ 4 _ x _ (omega arith) (omega (arith, max_cluster_fits)))
