-- ===== src/Fat/Copyin/Stored.antt =====
-- A file that `FAT32Copyin` puts on a volume.
use linux_util.Common.{
  ℕ, suc, ◌+◌, ◌-◌, ◌*◌, ◌%◌, ◌^◌, ◌≡◌, ◌≤◌, ◌<◌, arith, ◌∙◌, refl, List, some, none, length,
  get_or, ◌⊎◌, ltb, if◌then◌else◌,
}
use linux_util.Bits.{bit_and-ones}
use linux_util.Memory.{Memory, load_le}
use linux_util.Memory.Laws.{load_le-ext}
use linux_util.Memory.Fields.{last_value}
use linux_util.Fat.Create.{FatConfig, fat_size_in_sector, cdiv}
use linux_util.Fat.Create.Geometry.{IsValidConfig, n_sector-lt}
use linux_util.Fat.Create.Volume.{table_entry}
use linux_util.Fat.Super.Entries.{max_cluster, max_cluster_fits}
use linux_util.Fat.Copyin.{File, unset, fat32_copyin, prefix, suffix, entry_fields}
use linux_util.Fat.Copyin.Chain.{IsChain}
use linux_util.Fat.Copyin.Name.{IsSplit, prefix-IsSplit}
use linux_util.Fat.Copyin.Space.{start_sector}
use linux_util.Fat.Copyin.Volume.{IsVolume}
use linux_util.Fat.Copyin.Run.{CanCopy, copyin-ok, with_data, with_entry, sp}
use linux_util.Fat.Copyin.Kept.{entry_field, entry_name}
use linux_util.Fat.Copyin.Correct.{
  after, still-IsVolume, new-IsChain, content, other_entries, older_byte, entry_byte,
}

-- The clusters of a file.
abbrev pub clusters_of : FatConfig → List ℕ → ℕ
clusters_of cfg bytes = cdiv (length bytes) (cfg.cluster_size * cfg.bytes_per_sector)

-- The place of entry `k` of the root directory.
abbrev pub root_entry : (buf : ℕ) → FatConfig → ℕ → ℕ
root_entry buf cfg k = buf + cfg.bytes_per_sector * (8 + 2 * fat_size_in_sector cfg) + 32 * k

-- The file with the content `bytes` lies in one piece from cluster `next` on, its clusters are
-- linked in both tables, and whatever was allocated before is as it was.
pub record IsStored (buf : ℕ) (cfg : FatConfig) (next : ℕ) (bytes : List ℕ) (m m' : Memory)
    : Type 0 where
  pub content :
      (i : ℕ)
      → i < length bytes
      → m' (buf + cfg.bytes_per_sector * start_sector cfg next + i) ≡ get_or bytes i 0
  pub chain : IsChain buf cfg next (next + clusters_of cfg bytes - 1) m'
  pub other_entries :
      (t c : ℕ)
      → t < 2
      → c < max_cluster cfg
      → (c < next) ⊎ (next + clusters_of cfg bytes ≤ c)
      → table_entry buf cfg t c m' ≡ table_entry buf cfg t c m
  pub older_files :
      (a : ℕ)
      → root_entry buf cfg 0 + cfg.cluster_size * cfg.bytes_per_sector ≤ a
      → a < buf + cfg.bytes_per_sector * start_sector cfg next
      → m' a ≡ m a

-- The directory entry at `e` names the file, its first cluster and its size. The first eight bytes
-- are for what stands before the first dot of the name, the next three for what starts there.
pub record IsEntry (e : ℕ) (name : List ℕ) (attr next size : ℕ) (m : Memory) : Type 0 where
  pub stem : List ℕ
  pub extension : List ℕ
  pub split : IsSplit name stem extension
  pub name_bytes :
      (i : ℕ)
      → i < 11
      → m (e + i) ≡ (if ltb i 8 then get_or stem i 0 else get_or extension (i - 8) 0)
  pub attributes : load_le 1 (e + 11) m ≡ attr % 256
  pub first_cluster : load_le 2 (e + 20) m * 2 ^ 16 + load_le 2 (e + 26) m ≡ next
  pub file_size : load_le 4 (e + 28) m ≡ size

module _ (buf : ℕ) {cfg : FatConfig} (v : IsValidConfig cfg) {k next : ℕ} {m : Memory}
    (vol : IsVolume buf cfg k next m) {file : File} {name bytes : List ℕ}
    (can : CanCopy cfg k next file name bytes) (attr fuel : ℕ) where
  entry_load :
      (w o x : ℕ)
      → last_value o w (entry_fields attr next (length bytes)) none ≡ some x
      → o + w ≤ 32
      → load_le w (root_entry buf cfg k + o) (after buf v vol can attr) ≡ x % 256 ^ w
  entry_load w o x h fits =
      let e = root_entry buf cfg k in
      load_le-ext w (e + o) (e + o) (after buf v vol can attr) (with_entry buf v vol can attr)
        (λ i p.
          let s : e + o + i ≡ e + (o + i) = omega arith in
          rw s (entry_byte buf v vol can attr (o + i) (omega arith)))
      ∙ entry_field e name attr next (length bytes) can.prefix_fits can.suffix_fits _ w o x h

  new-IsEntry :
      IsEntry (root_entry buf cfg k) name attr next (length bytes) (after buf v vol can attr)
  unfolding last_value entry_fields
  new-IsEntry =
      let e = root_entry buf cfg k in
      let n = n_sector-lt v in
      let x = max_cluster_fits buf v in
      let s = sp buf v vol can attr in
      let hi = vol.upper in
      let fits = can.fits in
      let limit = s.limit in
      record {
        stem = prefix name;
        extension = suffix name;
        split = prefix-IsSplit name;
        name_bytes = λ i h.
            entry_byte buf v vol can attr i (omega arith)
            ∙ entry_name e name attr next (length bytes) can.prefix_fits can.suffix_fits
                (with_data buf v vol can attr) i h;
        attributes = entry_load 1 11 attr refl (omega arith);
        first_cluster = omega (
          arith,
          entry_load 2 20 _ refl (omega arith),
          entry_load 2 26 _ refl (omega arith),
          bit_and-ones 16 next,
        );
        file_size = entry_load 4 28 _ refl (omega arith) ∙ omega arith;
      }

  -- `FAT32Copyin` of a file that fits returns the sector where its data starts. The data is there,
  -- in one piece, its clusters are linked in both allocation tables, a new entry of the root
  -- directory shows its name, size and first cluster, and the volume is ready for the next copy. The
  -- data and the table entries of what was stored before are unchanged.
  pub fat32_copyin-IsStored :
      (m' : Memory) × (fat32_copyin (suc fuel) buf file name attr m
        ≡ some (record { ret = start_sector cfg next; errno = unset; memory = m' }))
      × IsStored buf cfg next bytes m m'
      × IsEntry (root_entry buf cfg k) name attr next (length bytes) m'
      × IsVolume buf cfg (k + 1) (next + clusters_of cfg bytes) m'
  fat32_copyin-IsStored = (
    after buf v vol can attr,
    copyin-ok buf v vol can attr fuel,
    record {
      content = content buf v vol can attr;
      chain = new-IsChain buf v vol can attr;
      other_entries = other_entries buf v vol can attr;
      older_files = λ a lo hi. older_byte buf v vol can attr a (omega arith) hi;
    },
    new-IsEntry,
    still-IsVolume buf v vol can attr,
  )
