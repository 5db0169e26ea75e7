-- ===== src/Fat/Copyin/Run.antt =====
-- A copy that goes through, step by step.
use linux_util.Common.{
  ℕ, suc, ◌+◌, ◌-◌, ◌*◌, ◌/◌, ◌≡◌, ◌≢◌, ◌≤◌, ◌<◌, arith, u32, ap, ◌∙◌, List, some, true, false,
  length, get_or, ltb, leb, ◌==◌, lt→ltb, le→ltb, mul_mono,
}
use linux_util.Memory.{Memory, memset, memcpy, put_bytes, store_le, load_le}
use linux_util.Memory.Frame.{
  SameOutside, SameOutside-trans, memset-SameOutside, put_bytes-SameOutside,
}
use linux_util.Fat.Create.{FatConfig, fat_size_in_sector, cdiv}
use linux_util.Fat.Create.Geometry.{IsValidConfig, sector_size_bounds, cluster_size_bounds}
use linux_util.Fat.Super.Mounted.{mounted, super_init-mounted}
use linux_util.Fat.Super.Sectors.{get_sector-mounted, super_free-mounted}
use linux_util.Fat.Super.Entries.{max_cluster, max_cluster_fits}
use linux_util.Fat.Copyin.{
  File, unset, prefix, suffix, write_dir_entry, link_clusters, finish, transfer, place,
  copyin_sized, fat32_copyin,
}
use linux_util.Fat.Copyin.Chain.{IsLinked, link_clusters-IsLinked}
use linux_util.Fat.Copyin.Space.{start_sector, Space, space}
use linux_util.Fat.Create.FreeCount.{num_free_lem}
use linux_util.Fat.Copyin.Volume.{IsVolume}

-- What a copy that succeeds needs: a file that the system calls deliver whole, room for it in the
-- clusters and in the root directory, and a name that fits a directory entry.
pub record CanCopy (cfg : FatConfig) (k next : ℕ) (file : File) (name : List ℕ) (bytes : List ℕ)
    : Type 0 where
  pub reported : file.size ≡ some (length bytes)
  pub seeks : file.seek ≡ true
  pub delivered : file.read (length bytes) ≡ some bytes
  pub nonempty : 0 < length bytes
  pub fits : length bytes ≤ cfg.cluster_size * cfg.bytes_per_sector * (max_cluster cfg - next)
  pub entry_free : k < cfg.cluster_size * cfg.bytes_per_sector / 32
  pub prefix_fits : length (prefix name) ≤ 8
  pub suffix_fits : length (suffix name) ≤ 4
  pub visible : get_or (prefix name) 0 0 ≢ 0

module _ (buf : ℕ) {cfg : FatConfig} (v : IsValidConfig cfg) {k next : ℕ} {m : Memory}
    (vol : IsVolume buf cfg k next m) {file : File} {name bytes : List ℕ}
    (can : CanCopy cfg k next file name bytes) (attr : ℕ) where
  abbrev b : ℕ
  b = cfg.bytes_per_sector

  abbrev cs : ℕ
  cs = cfg.cluster_size

  abbrev size : ℕ
  size = length bytes

  abbrev pub alloc : ℕ
  alloc = cdiv size (cs * b)

  pub sp : Space buf cfg next size
  sp = space buf v next size vol.lower vol.upper can.nonempty can.fits

  -- Where the file and its directory entry go.
  abbrev pub addr : ℕ
  addr = buf + b * start_sector cfg next

  abbrev pub entry : ℕ
  entry = buf + b * (8 + 2 * fat_size_in_sector cfg) + 32 * k

  abbrev pub with_data : Memory
  with_data = put_bytes addr bytes (memset addr 0 (cs * b * alloc) m)

  abbrev pub with_entry : Memory
  with_entry = write_dir_entry entry name attr next size with_data

  pub with_data-frame : SameOutside addr (addr + cs * b * alloc) m with_data
  with_data-frame =
      SameOutside-trans _ _ (memset-SameOutside _ _ addr 0 _ m (omega arith) (omega arith))
        (put_bytes-SameOutside _ _ addr bytes _ (omega arith) (omega (arith, sp.covers)))

  linking :
      (m' : Memory) × (link_clusters (alloc - 1) (mounted buf cfg k) next with_entry
        ≡ some (next + alloc, m'))
      × IsLinked buf cfg next (next + alloc - 1) with_entry m'
  linking =
      let s = sp in
      let lo = vol.lower in
      let (m', eq, linked) =
        link_clusters-IsLinked buf v k (alloc - 1) next (next + alloc - 1) with_entry (omega arith)
          (omega arith) (omega arith) in
      let e : next + alloc - 1 + 1 ≡ next + alloc = omega arith in
      (m', eq ∙ ap (λ n. some (n, m')) e, linked)

  pub with_chain : Memory
  with_chain = linking.0

  pub with_chain-IsLinked : IsLinked buf cfg next (next + alloc - 1) with_entry with_chain
  unfolding with_chain
  with_chain-IsLinked = linking.2

  with_chain-eq :
      link_clusters (alloc - 1) (mounted buf cfg k) next with_entry
      ≡ some (next + alloc, with_chain)
  unfolding with_chain
  with_chain-eq = linking.1

  still_free : (with_data entry == 0) ≡ true
  still_free =
      let s = sp in
      let same = with_data-frame.same entry (omega arith) in ground (arith, vol.mountable.empty k)

  enough_free : leb alloc (load_le 4 (buf + b + 488) m) ≡ true
  enough_free =
      let s = sp in
      let c = vol.free_count in
      let d = num_free_lem buf v in let x = max_cluster_fits buf v in ground arith

  abbrev pub with_info : Memory
  with_info =
      store_le 4 (buf + b + 492) (next + alloc)
        (store_le 4 (buf + b + 488) (load_le 4 (buf + b + 488) m - alloc) with_chain)

  abbrev pub with_backups : Memory
  with_backups = memcpy (buf + b * 7) (buf + b) b (memcpy (buf + b * 6) buf b with_info)

  pub alloc-le-free : alloc ≤ load_le 4 (buf + b + 488) m
  alloc-le-free = let h = enough_free in ground arith

  finish-ok :
      finish
        (mounted buf cfg k)
        (buf + b)
        name
        attr
        size
        alloc
        next
        (load_le 4 (buf + b + 488) m)
        (start_sector cfg next)
        with_data
      ≡ some (record { ret = start_sector cfg next; errno = unset; memory = with_backups })
  unfolding finish mounted
  finish-ok = rw (still_free, with_chain-eq, enough_free, super_free-mounted buf v k with_info)

  transfer-ok :
      transfer
        (mounted buf cfg k)
        file
        (buf + b)
        name
        attr
        size
        alloc
        next
        (load_le 4 (buf + b + 488) m)
        (start_sector cfg next)
        addr
        m
      ≡ some (record { ret = start_sector cfg next; errno = unset; memory = with_backups })
  unfolding transfer mounted
  transfer-ok =
      let same : (size == size) ≡ true = ground arith in
      rw (can.seeks, can.delivered, sp.bytes, same) finish-ok

  place-ok :
      place (mounted buf cfg k) file name attr size m
      ≡ some (record { ret = start_sector cfg next; errno = unset; memory = with_backups })
  unfolding place mounted
  place-ok =
      let lo = vol.lower in
      let hi = vol.upper in
      let bound = sector_size_bounds v in
      let cluster = cluster_size_bounds v in
      let room = can.entry_free in
      let f1 : ltb 0 b ≡ true = lt→ltb _ _ (omega arith) in
      let f2 : leb next (max_cluster cfg) ≡ true = ground arith in
      let f4 : ltb (cs * b * (max_cluster cfg - next)) size ≡ false = le→ltb _ _ can.fits in
      let f5 : ltb 0 (cs * b) ≡ true = lt→ltb _ _ (mul_mono 1 cs 1 b (omega arith) (omega arith)) in
      let f6 : (k == cs * b / 32) ≡ false = ground arith in
      let f7 : ltb 2 next ≡ true = lt→ltb _ _ lo in
      simp
        (
          vol.next_free,
          f1,
          f2,
          sp.limit,
          f4,
          f5,
          f6,
          f7,
          sp.start,
          get_sector-mounted buf v k (start_sector cfg next) sp.start-lt,
        )
        transfer-ok

  pub copyin-ok :
      (fuel : ℕ)
      → fat32_copyin (suc fuel) buf file name attr m
        ≡ some (record { ret = start_sector cfg next; errno = unset; memory = with_backups })
  unfolding fat32_copyin copyin_sized
  copyin-ok fuel =
      let limit = sp.limit in
      let fits = can.fits in
      let width : u32 size ≡ size = omega arith in
      ap (λ o. copyin_sized (suc fuel) buf o file name attr m) can.reported
      ∙ rw (super_init-mounted buf v vol.mountable fuel, width) place-ok
