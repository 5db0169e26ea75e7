-- ===== src/Fat/Copyin/Failed.antt =====
-- The copies of `FAT32Copyin` in which the file cannot be read whole.
use linux_util.Common.{
  ℕ, suc, ◌+◌, ◌-◌, ◌*◌, ◌/◌, ◌≡◌, ◌≤◌, ◌<◌, arith, u32, ap, sym, ◌∙◌, refl, List, some, none, true,
  false, inl, inr, ◌⊎◌, ltb, leb, ◌==◌, lt→ltb, le→ltb, mul_mono, length,
}
use linux_util.Memory.{Memory, memset, memcpy, put_bytes, load_le}
use linux_util.Memory.Laws.{load_le-ext}
use linux_util.Memory.Frame.{
  SameOutside, SameOutside-trans, memcpy-SameOutside, memset-SameOutside, put_bytes-SameOutside,
}
use linux_util.Fat.Create.{FatConfig, fat_size_in_sector, cdiv}
use linux_util.Fat.Create.Geometry.{
  IsValidConfig, sector_size_bounds, cluster_size_bounds, regions_fit,
}
use linux_util.Fat.Super.Mounted.{mounted, super_init-mounted}
use linux_util.Fat.Super.Sectors.{get_sector-mounted, super_free-mounted}
use linux_util.Fat.Super.Entries.{max_cluster, max_cluster_fits}
use linux_util.Fat.Copyin.{
  File, Errno, from_call, stale, fail, transfer, place, copyin_sized, fat32_copyin,
}
use linux_util.Fat.Copyin.Space.{start_sector, Space, space}
use linux_util.Fat.Copyin.Volume.{IsVolume}

-- The seek fails, the read fails, or it delivers too few bytes.
pub data Undelivered (file : File) (size : ℕ) : Type 0 where
  no_seek : file.seek ≡ false → Undelivered file size
  no_read : file.seek ≡ true → file.read size ≡ none → Undelivered file size
  short_read :
      (bytes : List ℕ)
      → file.seek ≡ true
      → file.read size ≡ some bytes
      → length bytes < size
      → Undelivered file size

-- Whose error is left in `FAT32Errno`.
abbrev pub left_errno : {file : File} {size : ℕ} → Undelivered file size → Errno
left_errno (no_seek s) = from_call
left_errno (no_read s r) = from_call
left_errno (short_read bytes s r few) = stale

-- What stays: the boot and FSInfo sectors with what follows up to the backups, then the tables, the
-- root directory and the older files, and all bytes behind the clusters for `size` bytes.
pub record GivenUp (buf : ℕ) (cfg : FatConfig) (next size : ℕ) (m m' : Memory) : Type 0 where
  pub boot : (a : ℕ) → a < buf + cfg.bytes_per_sector * 6 → m' a ≡ m a
  pub stored :
      (a : ℕ)
      → buf + cfg.bytes_per_sector * 8 ≤ a
      → a < buf + cfg.bytes_per_sector * start_sector cfg next
      → m' a ≡ m a
  pub behind :
      (a : ℕ)
      → buf
          + cfg.bytes_per_sector * start_sector cfg next
          + cfg.cluster_size
            * cfg.bytes_per_sector
            * cdiv size (cfg.cluster_size * cfg.bytes_per_sector)
        ≤ a
      → m' a ≡ m a

module _ (buf : ℕ) {cfg : FatConfig} (v : IsValidConfig cfg) {k next : ℕ} {m : Memory}
    (vol : IsVolume buf cfg k next m) where
  abbrev b : ℕ
  b = cfg.bytes_per_sector

  abbrev cs : ℕ
  cs = cfg.cluster_size

  -- A volume whose sectors before the backups and from the tables to the free clusters are kept.
  IsVolume-same :
      (m' : Memory) (end : ℕ)
      → buf + b * (8 + 2 * fat_size_in_sector cfg) + cs * b ≤ end
      → ((a : ℕ) → a < buf + b * 6 → m' a ≡ m a)
      → ((a : ℕ) → buf + b * 8 ≤ a → a < end → m' a ≡ m a)
      → IsVolume buf cfg k next m'
  IsVolume-same m' end covers head body =
      let s = sector_size_bounds v in
      let r = regions_fit v in
      let x = max_cluster_fits buf v in
      let lo = vol.lower in
      let hi = vol.upper in
      let h = vol.mountable in
      let boot : (w o : ℕ) → o + w ≤ 512 + b → load_le w (buf + o) m' ≡ load_le w (buf + o) m =
        λ w o fits.
          load_le-ext w (buf + o) (buf + o) m' m (λ i p. head (buf + o + i) (omega arith)) in
      let info : (o : ℕ) → o + 4 ≤ 512 → load_le 4 (buf + b + o) m' ≡ load_le 4 (buf + b + o) m =
        λ o fits.
          load_le-ext 4 (buf + b + o) (buf + b + o) m' m
            (λ i p. head (buf + b + o + i) (omega arith)) in
      record {
        mountable = record {
          bytes_per_sector = boot 2 11 (omega arith) ∙ h.bytes_per_sector;
          sectors_per_cluster = boot 1 13 (omega arith) ∙ h.sectors_per_cluster;
          reserved = boot 2 14 (omega arith) ∙ h.reserved;
          alloc_tables = boot 1 16 (omega arith) ∙ h.alloc_tables;
          sectors = boot 4 32 (omega arith) ∙ h.sectors;
          fat_size = boot 4 36 (omega arith) ∙ h.fat_size;
          root_cluster = boot 4 44 (omega arith) ∙ h.root_cluster;
          root_end =
              load_le-ext 4 _ _ m' m (λ i p. body _ (omega arith) (omega arith)) ∙ h.root_end;
          taken = λ i p e. h.taken i p (sym (body _ (omega arith) (omega (arith, h.room))) ∙ e);
          empty = λ i p q. body _ (omega arith) (omega arith) ∙ h.empty i p q;
          room = h.room;
        };
        next_free = info 492 (omega arith) ∙ vol.next_free;
        free_count = ap (λ (t : ℕ). t + next) (info 488 (omega arith)) ∙ vol.free_count;
        lower = lo;
        upper = hi;
      }

  module _ {file : File} {size : ℕ} (reported : file.size ≡ some size) (positive : 0 < size)
      (fits : size ≤ cs * b * (max_cluster cfg - next)) (room : k < cs * b / 32)
      (undelivered : Undelivered file size) where
    sp : Space buf cfg next size
    sp = space buf v next size vol.lower vol.upper positive fits

    abbrev addr : ℕ
    addr = buf + b * start_sector cfg next

    abbrev alloc : ℕ
    alloc = cdiv size (cs * b)

    abbrev backed_up : Memory → Memory
    backed_up m' = memcpy (buf + b * 7) (buf + b) b (memcpy (buf + b * 6) buf b m')

    abbrev cleared : Memory
    cleared = memset addr 0 (cs * b * alloc) m

    cleared-frame : SameOutside addr (addr + cs * b * alloc) m cleared
    cleared-frame = memset-SameOutside _ _ addr 0 _ m (omega arith) (omega arith)

    -- What the failed transfer leaves before the backups are made.
    transfer-failed :
        (why : Undelivered file size) (name : List ℕ) (attr free : ℕ)
        → (m' : Memory) × (transfer
              (mounted buf cfg k)
              file
              (buf + b)
              name
              attr
              size
              alloc
              next
              free
              (start_sector cfg next)
              addr
              m
            ≡ some (record { ret = 0; errno = left_errno why; memory = backed_up m' }))
          × SameOutside addr (addr + cs * b * alloc) m m'
    unfolding transfer mounted fail
    transfer-failed (no_seek s) name attr free =
        (cleared, rw (s, sp.bytes, super_free-mounted buf v k cleared) refl, cleared-frame)
    transfer-failed (no_read s r) name attr free =
        (cleared, rw (s, r, sp.bytes, super_free-mounted buf v k cleared) refl, cleared-frame)
    transfer-failed (short_read bytes s r few) name attr free =
        let partial = put_bytes addr bytes cleared in
        let differ : (length bytes == size) ≡ false = ground arith in
        (
          partial,
          rw (s, r, sp.bytes, differ, super_free-mounted buf v k partial) refl,
          SameOutside-trans _ _ cleared-frame (
              put_bytes-SameOutside _ _ addr bytes cleared (omega arith)
                (omega (arith, sp.covers))),
        )

    place-failed :
        (name : List ℕ) (attr : ℕ)
        → (m' : Memory) × (place (mounted buf cfg k) file name attr size m
            ≡ some (record { ret = 0; errno = left_errno undelivered; memory = backed_up m' }))
          × SameOutside addr (addr + cs * b * alloc) m m'
    unfolding place mounted
    place-failed name attr =
        let (m', eq, frame) = transfer-failed undelivered name attr (load_le 4 (buf + b + 488) m) in
        let lo = vol.lower in
        let hi = vol.upper in
        let bound = sector_size_bounds v in
        let cluster = cluster_size_bounds v in
        let f1 : ltb 0 b ≡ true = lt→ltb _ _ (omega arith) in
        let f2 : leb next (max_cluster cfg) ≡ true = ground arith in
        let f4 : ltb (cs * b * (max_cluster cfg - next)) size ≡ false = le→ltb _ _ fits in
        let f5 : ltb 0 (cs * b) ≡ true =
          lt→ltb _ _ (mul_mono 1 cs 1 b (omega arith) (omega arith)) in
        let f6 : (k == cs * b / 32) ≡ false = ground arith in
        let f7 : ltb 2 next ≡ true = lt→ltb _ _ lo in
        let at = get_sector-mounted buf v k (start_sector cfg next) sp.start-lt in
        (m', simp (vol.next_free, f1, f2, sp.limit, f4, f5, f6, f7, sp.start, at) eq, frame)

    -- A file that fits but cannot be read whole, because the seek or the read fails or too few
    -- bytes come, is given up: the result is 0. `FAT32Errno` is the error of the seek or the read that
    -- failed; where too few bytes came no call has failed, and it is what `errno` was before. The volume
    -- is as ready for a copy as before, with the same next cluster and directory entry, and nothing
    -- is changed but the backups of the first two sectors and the free clusters that the file was
    -- to take.
    pub fat32_copyin-undelivered :
        (fuel : ℕ) (name : List ℕ) (attr : ℕ)
        → (m' : Memory) × (fat32_copyin (suc fuel) buf file name attr m
            ≡ some (record { ret = 0; errno = left_errno undelivered; memory = m' }))
          × IsVolume buf cfg k next m'
          × GivenUp buf cfg next size m m'
    unfolding fat32_copyin copyin_sized
    fat32_copyin-undelivered fuel name attr =
        let (m', eq, frame) = place-failed name attr in
        let limit = sp.limit in
        let width : u32 size ≡ size = omega arith in
        let root = sp.behind_root in
        let backups : SameOutside (buf + b * 6) (buf + b * 8) m' (backed_up m') =
          SameOutside-trans _ _ (memcpy-SameOutside _ _ _ _ _ m' (omega arith) (omega arith))
            (memcpy-SameOutside _ _ _ _ _ _ (omega arith) (omega arith)) in
        let kept : (a : ℕ)
            → (a < buf + b * 6) ⊎ (buf + b * 8 ≤ a)
            → a < addr
            → backed_up m' a ≡ m a =
          λ a out below. backups.same a out ∙ frame.same a (inl below) in
        (
          backed_up m',
          ap (λ o. copyin_sized (suc fuel) buf o file name attr m) reported
              ∙ rw (super_init-mounted buf v vol.mountable fuel, width) eq,
          IsVolume-same (backed_up m') addr (omega arith) (λ a h. kept a (inl h) (omega arith))
              (λ a lo hi. kept a (inr lo) hi),
          record {
            boot = λ a h. kept a (inl h) (omega arith);
            stored = λ a lo hi. kept a (inr lo) hi;
            behind = λ a h. backups.same a (inr (omega arith)) ∙ frame.same a (inr h);
          },
        )
