-- ===== src/Fat/Copyin.antt =====
-- `FAT32Copyin` of gpt/fat.c: puts a file into the clusters from the first free one on, adds an entry
-- to the root directory, links the clusters in both allocation tables and updates the FSInfo sector.
-- The file is what the system calls on its descriptor return. `none` is a failed assertion or
-- behaviour that C leaves undefined, as in Super.
pub mod Access
pub mod Chain
pub mod Failed
pub mod Name
pub mod Refused
pub mod Space
pub mod Stored
pub mod Correct
pub mod Kept
pub mod Run
pub mod Volume
use linux_util.Common.{
  ℕ, zero, suc, ◌+◌, ◌-◌, ◌*◌, ◌/◌, ◌%◌, ◌^◌, Bool, true, false, not, Option, none, some, List, [],
  ◌∷◌, ◌>>=◌, bit_and, u32, sub32, ltb, leb, ◌==◌, if◌then◌else◌, length,
}
use linux_util.Memory.{Memory, memset, put_bytes, load_le, store_le}
use linux_util.Memory.Fields.{Field, field, store_fields}
use linux_util.Fat.Create.{cdiv}
use linux_util.Fat.Stamp.{fat32_date, fat32_time}
use linux_util.Fat.Super.{Super, assert, ◌>>◌, get_sector, super_init, write_entry, super_free}

-- What `fstat`, `lseek` to the start and `read` of a count do on the descriptor: the size, whether
-- the seek succeeds, and the bytes that are delivered; `none` is an error return.
pub record File : Type 0 where
  pub size : Option ℕ
  pub seek : Bool
  pub read : ℕ → Option (List ℕ)

-- What is left in `FAT32Errno`: nothing new, `EDQUOT`, the `errno` of the call that failed, or the
-- `errno` of before, where no call has failed.
pub data Errno : Type 0 where
  unset edquot from_call stale : Errno

pub record Outcome : Type 0 where
  pub ret : ℕ
  pub errno : Errno
  pub memory : Memory

-- `name` up to its first dot, and from that dot on.
unfoldable pub prefix : List ℕ → List ℕ
prefix [] = []
prefix (c ∷ cs) = if c == b'.' then [] else c ∷ prefix cs

unfoldable pub suffix : List ℕ → List ℕ
suffix [] = []
suffix (c ∷ cs) = if c == b'.' then c ∷ cs else suffix cs

-- The numeric fields of the new `struct FATDirEntry`, in the order of the statements. The two
-- `_generic_load_le` on `writeTime` and `writeDate` store the value in the same form.
pub entry_fields : (attr next_free size : ℕ) → List Field
entry_fields attr next_free size =
    let date = fat32_date 1995 2 21 in
    let time = fat32_time 8 30 25 in
    field 11 1 attr
    ∷ field 12 1 0
    ∷ field 13 1 42
    ∷ field 14 2 time
    ∷ field 16 2 date
    ∷ field 18 2 date
    ∷ field 20 2 (next_free / 2 ^ 16)
    ∷ field 22 2 time
    ∷ field 24 2 date
    ∷ field 26 2 (bit_and next_free 0xFFFF)
    ∷ field 28 4 size
    ∷ []

pub write_dir_entry : (entry : ℕ) (name : List ℕ) (attr next_free size : ℕ) → Memory → Memory
write_dir_entry entry name attr next_free size m =
    let named =
      put_bytes (entry + 8) (suffix name) (put_bytes entry (prefix name) (memset entry 0 32 m)) in
    store_fields entry (entry_fields attr next_free size) named

-- Links `left + 1` clusters from `next_free` on, and ends the chain; also gives the cluster after.
pub link_clusters : (left : ℕ) → Super → (next_free : ℕ) → Memory → Option (ℕ × Memory)
link_clusters zero sb next_free m = do
  m' ← write_entry sb next_free 0xFFFFFFFF m
  some (u32 (next_free + 1), m')
link_clusters (suc left) sb next_free m = do
  m' ← write_entry sb next_free (u32 (1 + next_free)) m
  link_clusters left sb (u32 (next_free + 1)) m'

-- The label `err`.
pub fail : Super → Errno → Memory → Option Outcome
fail sb e m = do m' ← super_free sb m; some (record { ret = 0; errno = e; memory = m' })

-- From the new directory entry to the end.
pub finish :
    Super
    → (info : ℕ) (name : List ℕ) (attr size alloc next_free free_count ret : ℕ) → Memory
    → Option Outcome
finish sb info name attr size alloc next_free free_count ret m = do
  dir ← sb.root_dir
  let entry = dir + 32 * sb.next_root_entry
  assert (m entry == 0)
  let m1 = write_dir_entry entry name attr next_free size m
  (next, m2) ← link_clusters (alloc - 1) sb next_free m1
  assert (leb alloc free_count)
  let m3 = store_le 4 (info + 492) next (store_le 4 (info + 488) (free_count - alloc) m2)
  m4 ← super_free sb m3
  some (record { ret = ret; errno = unset; memory = m4 })

-- The reading of the file into its clusters.
pub transfer :
    Super
    → File
    → (info : ℕ) (name : List ℕ) (attr size alloc next_free free_count ret addr : ℕ) → Memory
    → Option Outcome
transfer sb file info name attr size alloc next_free free_count ret addr m =
    let m1 = memset addr 0 (u32 (alloc * sb.bytes_per_cluster)) m in
    if not file.seek then fail sb from_call m1 else elim (file.read size) [
      | none ↦ fail sb from_call m1
      | some bytes ↦
          let m2 = put_bytes addr bytes m1 in
          if length bytes == size
          then finish sb info name attr size alloc next_free free_count ret m2
          else fail sb stale m2
    ]

-- From the super block on.
pub place : Super → File → (name : List ℕ) (attr size : ℕ) → Memory → Option Outcome
place sb file name attr size m = do
  assert (ltb 0 sb.bytes_per_sector)
  let sector_per_cluster = sb.bytes_per_cluster / sb.bytes_per_sector
  info ← sb.fs_info
  let next_free = load_le 4 (info + 492) m
  let free_count = load_le 4 (info + 488) m
  assert (leb next_free sb.max_cluster)
  let max_file_size = u32 (sb.bytes_per_cluster * (sb.max_cluster - next_free))
  if ltb max_file_size size then fail sb edquot m else do
    assert (ltb 0 sb.bytes_per_cluster)
    let alloc = cdiv size sb.bytes_per_cluster
    if sb.next_root_entry == sb.num_root_entry then fail sb edquot m else do
      assert (ltb 2 next_free)
      let ret = u32 (u32 ((next_free - 2) * sector_per_cluster) + (sb.num_reserved + sb.num_fat))
      addr ← get_sector sb ret
      transfer sb file info name attr size alloc next_free free_count ret addr m

-- The body, given what `fstat` said of the size.
pub copyin_sized :
    (fuel buf : ℕ) → Option ℕ → File → (name : List ℕ) (attr : ℕ) → Memory → Option Outcome
copyin_sized fuel buf none file name attr m =
    some (record { ret = 0; errno = from_call; memory = m })
copyin_sized fuel buf (some st_size) file name attr m = do
  sb ← super_init fuel buf m
  place sb file name attr (u32 st_size) m

pub fat32_copyin : (fuel buf : ℕ) → File → (name : List ℕ) (attr : ℕ) → Memory → Option Outcome
fat32_copyin fuel buf file name attr m = copyin_sized fuel buf file.size file name attr m
