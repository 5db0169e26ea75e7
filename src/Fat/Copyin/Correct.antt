-- ===== src/Fat/Copyin/Correct.antt =====
-- What a copy leaves on the volume, and that it is a volume again.
use linux_util.Common.{
  ℕ, zero, suc, ◌+◌, ◌-◌, ◌*◌, ◌≡◌, ◌≢◌, ◌≤◌, ◌<◌, arith, ◌∙◌, sym, List, length, get_or, inl, inr,
  ◌⊎◌,
}
use native.Mathlib.Decide.{dec_lt}
use linux_util.Memory.{Memory, memcpy, put_bytes, store_le, load_le}
use linux_util.Memory.Laws.{load-store_self, load-store_apart, load-memcpy_apart}
use linux_util.Memory.Frame.{SameOutside, load-SameOutside}
use linux_util.Fat.Create.{FatConfig, fat_size_in_sector, num_free_fat_entry}
use linux_util.Fat.Create.Geometry.{IsValidConfig, n_sector-lt}
use linux_util.Fat.Create.Volume.{table_entry}
use linux_util.Fat.Super.Mounted.{IsMountable}
use linux_util.Fat.Super.Entries.{max_cluster, max_cluster_fits}
use linux_util.Fat.Copyin.{File}
use linux_util.Fat.Copyin.Chain.{IsChain}
use linux_util.Fat.Create.FreeCount.{num_free_lem}
use linux_util.Fat.Copyin.Volume.{IsVolume}
use linux_util.Fat.Copyin.Run.{
  CanCopy, alloc, sp, addr, entry, with_data, with_entry, with_data-frame, alloc-le-free,
}
use linux_util.Fat.Copyin.Kept.{
  write_dir_entry-frame, entry_name, m', mc, data_start, Layout, layout, late, linked,
}

module _ (buf : ℕ) {cfg : FatConfig} (v : IsValidConfig cfg) {k next : ℕ} {m : Memory}
    (vol : IsVolume buf cfg k next m) {file : File} {name bytes : List ℕ}
    (can : CanCopy cfg k next file name bytes) (attr : ℕ) where
  abbrev pub after : Memory
  after = m' buf v vol can attr

  abbrev pub d0 : ℕ
  d0 = data_start buf v vol can attr

  abbrev pub e : ℕ
  e = entry buf v vol can attr

  abbrev pub n' : ℕ
  n' = next + alloc buf v vol can attr

  abbrev y : Layout buf v vol can attr
  y = layout buf v vol can attr

  entry_frame :
      SameOutside e (e + 32) (with_data buf v vol can attr) (with_entry buf v vol can attr)
  entry_frame =
      write_dir_entry-frame e name attr next (length bytes) can.prefix_fits can.suffix_fits _

  -- The boot sector stays.
  boot : (w o : ℕ) → o + w ≤ 512 → load_le w (buf + o) after ≡ load_le w (buf + o) m
  boot w o h =
      let z = y in
      load-SameOutside w (buf + o) (late buf v vol can attr) (inl (omega arith))
      ∙ load-SameOutside w (buf + o) (linked buf v vol can attr).frame (inl (omega arith))
      ∙ load-SameOutside w (buf + o) entry_frame (inl (omega arith))
      ∙ load-SameOutside w (buf + o) (with_data-frame buf v vol can attr) (inl (omega arith))

  -- The FSInfo sector shows the next free cluster and counts down.
  info :
      (load_le 4 (buf + cfg.bytes_per_sector + 492) after ≡ n')
      × (load_le 4 (buf + cfg.bytes_per_sector + 488) after + n' ≡ num_free_fat_entry cfg + 3)
  info =
      let z = y in
      let s = sp buf v vol can attr in
      let n = n_sector-lt v in
      let x = max_cluster_fits buf v in
      let free = vol.free_count in
      let d = num_free_lem buf v in
      let bb = cfg.bytes_per_sector in
      let base = buf + bb in
      let enough = alloc-le-free buf v vol can attr in
      let left = load_le 4 (base + 488) m - alloc buf v vol can attr in
      let one = store_le 4 (base + 488) left (mc buf v vol can attr) in
      let two = store_le 4 (base + 492) n' one in
      let copy = memcpy (buf + bb * 6) buf bb two in
      (
        load-memcpy_apart 4 (base + 492) (buf + bb * 7) base bb copy (inl (omega arith))
            ∙ load-memcpy_apart 4 (base + 492) (buf + bb * 6) buf bb two (inl (omega arith))
            ∙ load-store_self 4 (base + 492) n' one
            ∙ omega arith,
        omega (
          arith,
          load-memcpy_apart 4 (base + 488) (buf + bb * 7) base bb copy (inl (omega arith)),
          load-memcpy_apart 4 (base + 488) (buf + bb * 6) buf bb two (inl (omega arith)),
          load-store_apart 4 (base + 488) 4 (base + 492) n' one (inl (omega arith)),
          load-store_self 4 (base + 488) left (mc buf v vol can attr),
        ),
      )

  -- A byte of the root directory outside the new entry stays.
  root_byte :
      (o : ℕ)
      → o < cfg.cluster_size * cfg.bytes_per_sector
      → (o < 32 * k) ⊎ (32 * k + 32 ≤ o)
      → after (d0 + o) ≡ m (d0 + o)
  root_byte o h out =
      let z = y in
      (late buf v vol can attr).same (d0 + o) (inr (omega arith))
      ∙ (linked buf v vol can attr).frame.same (d0 + o) (inr (omega arith))
      ∙ entry_frame.same (d0 + o) (omega arith)
      ∙ (with_data-frame buf v vol can attr).same (d0 + o) (inl (omega arith))

  -- The new entry is seen through the later steps.
  pub entry_byte : (i : ℕ) → i < 32 → after (e + i) ≡ with_entry buf v vol can attr (e + i)
  entry_byte i h =
      let z = y in
      (late buf v vol can attr).same (e + i) (inr (omega arith))
      ∙ (linked buf v vol can attr).frame.same (e + i) (inr (omega arith))

  -- The entry of a cluster lies in its table.
  entry_below :
      (t c : ℕ)
      → t < 2
      → c < max_cluster cfg
      → (buf + cfg.bytes_per_sector * 8
          ≤ buf + cfg.bytes_per_sector * (8 + t * fat_size_in_sector cfg) + 4 * c)
        × (buf + cfg.bytes_per_sector * (8 + t * fat_size_in_sector cfg) + 4 * c + 4 ≤ d0)
  entry_below zero c ht hc = omega (arith, max_cluster_fits buf v)
  entry_below (suc zero) c ht hc = omega (arith, max_cluster_fits buf v)
  entry_below (suc (suc t)) c ht hc = absurd (omega arith)

  table_late :
      (t c : ℕ)
      → t < 2
      → c < max_cluster cfg
      → table_entry buf cfg t c after ≡ table_entry buf cfg t c (mc buf v vol can attr)
  table_late t c ht hc =
      let q = entry_below t c ht hc in load-SameOutside 4 _ (late buf v vol can attr) (inr q.0)

  -- The entries of the other clusters stay.
  pub other_entries :
      (t c : ℕ)
      → t < 2
      → c < max_cluster cfg
      → (c < next) ⊎ (n' ≤ c)
      → table_entry buf cfg t c after ≡ table_entry buf cfg t c m
  other_entries t c ht hc out =
      let z = y in
      let s = sp buf v vol can attr in
      let q = entry_below t c ht hc in
      table_late t c ht hc
      ∙ (linked buf v vol can attr).others.same t c ht hc (omega arith)
      ∙ load-SameOutside 4 _ entry_frame (inl (omega arith))
      ∙ load-SameOutside 4 _ (with_data-frame buf v vol can attr) (inl (omega arith))

  -- The first byte of the new entry is that of the name.
  first_byte : after (d0 + 32 * k) ≢ 0
  first_byte =
      let name0 =
        entry_name e name attr next (length bytes) can.prefix_fits can.suffix_fits
          (with_data buf v vol can attr) 0 (omega arith) in
      let seen = entry_byte 0 (omega arith) in let visible = can.visible in ground arith

  still-IsMountable : IsMountable buf cfg (k + 1) after
  still-IsMountable =
      let old = vol.mountable in
      let free = can.entry_free in
      let s = sp buf v vol can attr in
      let lo = vol.lower in
      record {
        bytes_per_sector = boot 2 11 (omega arith) ∙ old.bytes_per_sector;
        sectors_per_cluster = boot 1 13 (omega arith) ∙ old.sectors_per_cluster;
        reserved = boot 2 14 (omega arith) ∙ old.reserved;
        alloc_tables = boot 1 16 (omega arith) ∙ old.alloc_tables;
        sectors = boot 4 32 (omega arith) ∙ old.sectors;
        fat_size = boot 4 36 (omega arith) ∙ old.fat_size;
        root_cluster = boot 4 44 (omega arith) ∙ old.root_cluster;
        root_end = other_entries 0 2 (omega arith) (omega arith) (inl (omega arith)) ∙ old.root_end;
        taken = λ i h. elim (dec_lt i k) [
          | yes before ↦
              let same = root_byte (32 * i) (omega arith) (inl (omega arith)) in
              let was = old.taken i before in λ zero. was (sym same ∙ zero)
          | no now ↦ let here : i ≡ k = omega arith in rw here first_byte
        ];
        empty = λ i lo hi.
            root_byte (32 * i) (omega arith) (inr (omega arith)) ∙ old.empty i (omega arith) hi;
        room = omega arith;
      }

  pub still-IsVolume : IsVolume buf cfg (k + 1) n' after
  still-IsVolume =
      let s = sp buf v vol can attr in
      let lo = vol.lower in
      record {
        mountable = still-IsMountable;
        next_free = info.0;
        free_count = info.1;
        lower = omega arith;
        upper = s.alloc-le;
      }

  pub new-IsChain : IsChain buf cfg next (n' - 1) after
  new-IsChain =
      let s = sp buf v vol can attr in
      let c = (linked buf v vol can attr).chain in
      record {
        linked = λ t c' ht lo hi. table_late t c' ht (omega arith) ∙ c.linked t c' ht lo hi;
        ends = λ t ht. table_late t _ ht (omega arith) ∙ c.ends t ht;
      }

  -- A byte of the clusters.
  cluster_byte : (o : ℕ) → addr buf v vol can attr ≤ o → after o ≡ with_data buf v vol can attr o
  cluster_byte o h =
      let z = y in
      (late buf v vol can attr).same o (inr (omega arith))
      ∙ (linked buf v vol can attr).frame.same o (inr (omega arith))
      ∙ entry_frame.same o (inr (omega arith))

  pub content : (i : ℕ) → i < length bytes → after (addr buf v vol can attr + i) ≡ get_or bytes i 0
  unfolding put_bytes
  content i h = cluster_byte _ (omega arith) ∙ ground arith

  -- A byte of an older file.
  pub older_byte :
      (o : ℕ)
      → d0 + cfg.cluster_size * cfg.bytes_per_sector ≤ o
      → o < addr buf v vol can attr
      → after o ≡ m o
  older_byte o lo hi =
      let z = y in
      (late buf v vol can attr).same o (inr (omega arith))
      ∙ (linked buf v vol can attr).frame.same o (inr (omega arith))
      ∙ entry_frame.same o (inr (omega arith))
      ∙ (with_data-frame buf v vol can attr).same o (inl (omega arith))
