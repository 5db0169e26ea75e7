-- ===== src/Installer/Files.antt =====
-- The files that gpt/installer.c copies into the volume.
use linux_util.Common.{
  ℕ, suc, ◌+◌, ◌*◌, ◌≡◌, ◌≤◌, ◌<◌, refl, ◌∙◌, arith, some, false, List, [], ◌∷◌, ◌==◌, length,
  get_or,
}
use linux_util.Memory.{Memory}
use linux_util.Fat.Create.Geometry.{IsValidConfig, fat_size_bounds}
use linux_util.Fat.Super.Entries.{max_cluster}
use linux_util.Fat.Copyin.{File}
use linux_util.Fat.Copyin.Space.{start_sector}
use linux_util.Fat.Copyin.Volume.{IsVolume, IsFresh-IsVolume}
use linux_util.Fat.Copyin.Run.{CanCopy, sp}
use linux_util.Fat.Copyin.Stored.{clusters_of, root_entry, fat32_copyin-IsStored}
use linux_util.Installer.{fat_config, sys_flag, copyin, copy_files, install}
use linux_util.Installer.Layout.{HasRoom, fat_config-IsValid, lay_out-IsFresh}

pub record Source : Type 0 where
  pub file : File
  pub name : List ℕ
  pub bytes : List ℕ

abbrev pub inputs : List Source → List (File × List ℕ)
inputs [] = []
inputs (x ∷ xs) = (x.file, x.name) ∷ inputs xs

module _ (n : ℕ) where
  -- The cluster behind a file.
  abbrev pub behind : ℕ → Source → ℕ
  behind next x = next + clusters_of (fat_config n) x.bytes

  -- Each file can be read and fits behind those before it.
  abbrev pub CanCopyAll : (k next : ℕ) → List Source → Type 0
  CanCopyAll k next [] = Unit
  CanCopyAll k next (x ∷ xs) =
      CanCopy (fat_config n) k next x.file x.name x.bytes × CanCopyAll (k + 1) (behind next x) xs

  abbrev pub starts : ℕ → List Source → List ℕ
  starts next [] = []
  starts next (x ∷ xs) = start_sector (fat_config n) next ∷ starts (behind next x) xs

  -- The bytes of each file lie from its start on.
  abbrev pub AllHold : (fat next : ℕ) → List Source → Memory → Type 0
  AllHold fat next [] m = Unit
  AllHold fat next (x ∷ xs) m =
      ((i : ℕ)
        → i < length x.bytes
        → m (fat + 512 * start_sector (fat_config n) next + i) ≡ get_or x.bytes i 0)
      × AllHold fat (behind next x) xs m

  module _ (fat : ℕ) (v : IsValidConfig (fat_config n)) (fuel : ℕ) where
    -- What is stored behind the root directory and below a cluster.
    abbrev Kept : ℕ → Memory → Memory → Type 0
    Kept next m m' =
        (a : ℕ)
        → root_entry fat (fat_config n) 0 + 4096 ≤ a
        → a < fat + 512 * start_sector (fat_config n) next
        → m' a ≡ m a

    copy_files-AllHold :
        (xs : List Source) (k next : ℕ) (m : Memory)
        → IsVolume fat (fat_config n) k next m
        → CanCopyAll k next xs
        → (m' : Memory) × (copy_files (suc fuel) fat (inputs xs) m ≡ some (starts next xs, m'))
          × AllHold fat next xs m'
          × Kept next m m'
    unfolding copy_files copyin
    copy_files-AllHold [] k next m vol can = (m, refl, tt, λ a lo hi. refl)
    copy_files-AllHold (x ∷ xs) k next m vol (can, cans) =
        let space = sp fat v vol can sys_flag in
        let (m1, done, stored, entry, vol') = fat32_copyin-IsStored fat v vol can sys_flag fuel in
        let (m2, rest, hold, kept) = copy_files-AllHold xs (k + 1) (behind next x) m1 vol' cans in
        let some_sector : (start_sector (fat_config n) next == 0) ≡ false = ground arith in
        let lower = vol.lower in
        let covers = space.covers in
        let behind_root = space.behind_root in
        (
          m2,
          rw (done, some_sector, rest) refl,
          (
            λ i lt.
                kept (fat + 512 * start_sector (fat_config n) next + i) (omega arith) (omega arith)
                ∙ stored.content i lt,
            hold,
          ),
          λ a lo hi. kept a lo (omega arith) ∙ stored.older_files a lo hi,
        )

module _ {disk_size boot_size : ℕ} (room : HasRoom disk_size boot_size) (some_mib : 0 < boot_size)
    (below_4_gib : boot_size < 4096) where
  abbrev n : ℕ
  n = boot_size * 2048

  cluster_to_use : 3 ≤ max_cluster (fat_config n)
  cluster_to_use =
      let v = fat_config-IsValid room some_mib below_4_gib in
      let few = (fat_size_bounds v).1 in omega arith

  -- On a disk with room, for a first partition of 1 to 4095 MiB, the installer does not exit where each
  -- file can be read and fits behind those before it: it finds the sector where each file starts, and
  -- at the end the bytes of each file lie there.
  pub install-AllHold :
      (fuel buf : ℕ) (xs : List Source) (m : Memory)
      → CanCopyAll n 0 3 xs
      → (m' : Memory) × (install (suc fuel) buf disk_size boot_size (inputs xs) m
          ≡ some (starts n 3 xs, m'))
        × AllHold n (buf + 1536) 3 xs m'
  unfolding install
  install-AllHold fuel buf xs m cans =
      let v = fat_config-IsValid room some_mib below_4_gib in
      let (m1, m2, parts, laid, fresh, same) = lay_out-IsFresh room some_mib below_4_gib buf m in
      let vol = IsFresh-IsVolume (buf + 1536) v fresh cluster_to_use in
      let (m3, copied, hold, kept) = copy_files-AllHold n (buf + 1536) v fuel xs 0 3 m2 vol cans in
      (m3, rw (laid, copied) refl, hold)
