-- ===== src/Fat/Region.antt =====
-- `numSectorDataRegion` and `clusterToFATEntry` of gpt/fat.c, which read the fields of a `struct BPB`
-- directly. `none` is a failed assertion, or a division by a sector size of zero.
use linux_util.Common.{
  ℕ, ◌+◌, ◌-◌, ◌*◌, ◌/◌, ◌%◌, ◌^◌, ◌<◌, ◌≡◌, ◌≢◌, ap, Option, none, some, arith, bit_or, u32, u64,
  sub32, ltb, leb, ◌&&◌, ◌==◌, if◌then◌else◌,
}
use native.Mathlib.Nat.{div-add-mod, div-le_self, mod-lt}
use linux_util.Bits.{above-bit_or, zero-bit_or}
use linux_util.Fat.Layout.{Bpb}

-- The sizes that both functions choose by whether the 16-bit field is used.
abbrev pub fat_size : Bpb → ℕ
fat_size bpb = if bpb.fat_size16 == 0 then bpb.fat_size32 else bpb.fat_size16

abbrev pub total_sec : Bpb → ℕ
total_sec bpb = if bpb.num_sectors16 == 0 then bpb.num_sectors32 else bpb.num_sectors16

-- The sectors before the data region.
abbrev pub overhead : Bpb → ℕ
overhead bpb =
    u32 (bpb.num_reserved_sectors + u32 (fat_size bpb * bpb.num_alloc_table) + bpb.root_entry_count)

pub num_sector_data_region : Bpb → Option ℕ
num_sector_data_region bpb =
    let data_sec = sub32 (total_sec bpb) (overhead bpb) in
    if ltb data_sec (total_sec bpb) then some data_sec else none

pub cluster_to_fat_entry : Bpb → (n : ℕ) → Option ℕ
cluster_to_fat_entry bpb n =
    let fat_offset = if bpb.fat_size16 == 0 then u32 (n * 4) else u32 (n * 2) in
    if fat_size bpb == 0
    then none
    else if bpb.bytes_per_sector == 0
    then none
    else let sec_num = u32 (bpb.num_reserved_sectors + fat_offset / bpb.bytes_per_sector) in
      let fat_ent_offset = fat_offset % bpb.bytes_per_sector in
      some (bit_or (bit_or 0 (u64 (sec_num * 2 ^ 32))) fat_ent_offset)

-- `x` is what a boot sector says in a 16-bit field, or in a 32-bit field where the former is zero.
abbrev pub Chosen : (short long x : ℕ) → Type 0
Chosen short long x = (short ≢ 0 → x ≡ short) × (short ≡ 0 → x ≡ long)

-- `numSectorDataRegion` returns the sectors of the volume that the reserved sectors, the allocation
-- tables and as many sectors as there are root entries leave, and fails its assertion exactly when
-- these are none or more than the volume has. The size of a table and of the volume stand in the
-- 16-bit field of the boot sector if that is not zero, and else in the 32-bit field; the
-- volume has less than 2 ^ 32 sectors, and so have the three that are taken off.
pub num_sector_data_region_lem :
    (bpb : Bpb) (f t : ℕ)
    → Chosen bpb.fat_size16 bpb.fat_size32 f
    → Chosen bpb.num_sectors16 bpb.num_sectors32 t
    → t < 2 ^ 32
    → bpb.num_reserved_sectors + bpb.num_alloc_table * f + bpb.root_entry_count < 2 ^ 32
    → (let before = bpb.num_reserved_sectors + bpb.num_alloc_table * f + bpb.root_entry_count in
        num_sector_data_region bpb
        ≡ (if ltb 0 before && leb before t then some (t - before) else none))
unfolding num_sector_data_region
num_sector_data_region_lem bpb f t size total fits small =
    let before = bpb.num_reserved_sectors + bpb.num_alloc_table * f + bpb.root_entry_count in
    let e1 : fat_size bpb ≡ f = ground (arith, size.0, size.1) in
    let e2 : total_sec bpb ≡ t = ground (arith, total.0, total.1) in
    let product = ap (λ (x : ℕ). x * bpb.num_alloc_table) e1 in
    let e3 : overhead bpb ≡ before = omega (arith, product) in rw (e2, e3) (ground arith)

-- On a FAT32 volume `clusterToFATEntry` gives the place of the entry of cluster `n`: the sector in
-- the upper 32 bits and the offset in that sector below, so that sector and offset together are
-- `4 * n` bytes behind the reserved sectors.
pub cluster_to_fat_entry_lem :
    (bpb : Bpb) (n : ℕ)
    → bpb.fat_size16 ≡ 0
    → 0 < bpb.fat_size32
    → 0 < bpb.bytes_per_sector
    → bpb.bytes_per_sector < 2 ^ 16
    → bpb.num_reserved_sectors < 2 ^ 16
    → n < 2 ^ 30 - 2 ^ 16
    → (r : ℕ) × (cluster_to_fat_entry bpb n ≡ some r)
      × (r % 2 ^ 32 < bpb.bytes_per_sector)
      × (r / 2 ^ 32 * bpb.bytes_per_sector + r % 2 ^ 32
          ≡ bpb.num_reserved_sectors * bpb.bytes_per_sector + 4 * n)
unfolding cluster_to_fat_entry
cluster_to_fat_entry_lem bpb n fat32 size pos small few fits =
    let bps = bpb.bytes_per_sector in
    let sec = bpb.num_reserved_sectors + 4 * n / bps in
    let off = 4 * n % bps in
    let lt : off < bps = mod-lt (4 * n) pos in
    let sum = div-add-mod (4 * n) bps in
    let le = div-le_self (4 * n) bps in
    let r = sec * 2 ^ 32 + off in
    let high : r / 2 ^ 32 ≡ sec = omega arith in
    let low : r % 2 ^ 32 ≡ off = omega arith in
    let offset : u32 (n * 4) ≡ 4 * n = omega arith in
    (
      r,
      rw (fat32, offset) (ground (arith, zero-bit_or (sec * 2 ^ 32), above-bit_or 32 sec off)),
      rw low lt,
      rw (high, low) (omega arith),
    )
