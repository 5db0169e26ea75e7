-- ===== src/Fat/Super.antt =====
-- `struct FAT32Super` of gpt/fat.c and the functions on it. Pointers are addresses; `none` is a
-- null dereference, a division by zero, a fifth allocation table or a failed assertion.
pub mod Entries
pub mod Mounted
pub mod Sectors
use linux_util.Common.{
  ℕ, zero, suc, ◌+◌, ◌*◌, ◌/◌, ◌-◌, ◌%◌, ◌^◌, Bool, true, false, ◌&&◌, ◌||◌, Option, none, some,
  List, [], ◌∷◌, u32, sub32, ltb, leb, ◌==◌, if◌then◌else◌, ◌>>=◌, get_elem?, take,
}
use linux_util.Memory.{Memory, load_le, store_le, memcpy}

pub record Super : Type 0 where
  pub buf : ℕ
  pub fs_info : Option ℕ
  pub bytes_per_sector : ℕ
  pub bytes_per_cluster : ℕ
  pub bytes_per_fat : ℕ
  pub num_sector : ℕ
  pub num_reserved : ℕ
  pub num_fat : ℕ
  pub num_data : ℕ
  pub max_cluster : ℕ
  pub root_cluster : ℕ
  pub num_entry_table : ℕ
  pub tables : List ℕ
  pub root_dir : Option ℕ
  pub next_root_entry : ℕ
  pub num_root_entry : ℕ

-- An assertion.
abbrev pub assert : Bool → Option (Unit {0})
assert true = some tt
assert false = none

infixl 5 ◌>>◌
abbrev pub ◌>>◌ {ℓ} : {B : Type ℓ} → Option (Unit {0}) → Option B → Option B
m >> k = m >>= λ _. k

-- `FAT32SuperGetSector`; `none` is the null pointer.
sector_address : (buf bytes_per_sector num_sector sector : ℕ) → Option ℕ
sector_address buf bytes_per_sector num_sector sector =
    if leb num_sector sector then none else some (buf + u32 (sector * bytes_per_sector))

pub get_sector : Super → ℕ → Option ℕ
unfolding sector_address
get_sector sb sector = sector_address sb.buf sb.bytes_per_sector sb.num_sector sector

-- `FAT32SuperCluster`.
unfoldable pub cluster_address : Super → ℕ → Option ℕ
cluster_address sb cluster =
    if ltb cluster 2 || leb sb.max_cluster cluster
    then none
    else some (
        sb.buf
        + u32 (
            sb.bytes_per_sector * u32 (sb.num_fat + sb.num_reserved)
            + sb.bytes_per_cluster * (cluster - 2)))

-- The allocation tables from the second on, each one table further.
next_tables : (left prev bytes_per_fat : ℕ) → List ℕ
next_tables zero prev bytes_per_fat = []
next_tables (suc left) prev bytes_per_fat =
    let next = prev + 4 * (bytes_per_fat / 4) in next ∷ next_tables left next bytes_per_fat

-- The walk along the chain of the root directory, with a bound on its length.
root_chain : (fuel table next count : ℕ) → Memory → Option ℕ
root_chain zero table next count m = none
root_chain (suc fuel) table next count m =
    let rest = root_chain fuel table (load_le 4 (table + 4 * next) m) (u32 (count + 1)) m in
    if next == 0xFFFFFFFF then some count else rest

-- The first entry of the root directory whose name is empty, or the number of entries.
free_entry : (left i dir : ℕ) → Memory → ℕ
free_entry zero i dir m = i
free_entry (suc left) i dir m =
    let rest = free_entry left (i + 1) dir m in if m (dir + 32 * i) == 0 then i else rest

-- `FAT32SuperInit`.
pub super_init : (fuel buf : ℕ) → Memory → Option Super
super_init fuel buf m = do
  let bytes_per_sector = load_le 2 (buf + 11) m
  let nsec_per_cluster = load_le 1 (buf + 13) m
  let bytes_per_cluster = u32 (nsec_per_cluster * bytes_per_sector)
  let fat_size = load_le 4 (buf + 36) m
  let bytes_per_fat = u32 (fat_size * bytes_per_sector)
  let num_sector = load_le 4 (buf + 32) m
  let num_reserved = load_le 2 (buf + 14) m
  let num_alloc_table = load_le 1 (buf + 16) m
  let num_fat = u32 (fat_size * num_alloc_table)
  let num_data = sub32 (sub32 num_sector num_reserved) num_fat
  assert (ltb 0 nsec_per_cluster)
  let root_cluster = load_le 4 (buf + 44) m
  assert (leb num_alloc_table 4)
  let table = buf + u32 (bytes_per_sector * num_reserved)
  let first = load_le 4 (table + 4 * root_cluster) m
  clusters ← root_chain fuel table first 1 m
  let root_dir = sector_address buf bytes_per_sector num_sector (u32 (num_reserved + num_fat))
  let num_root_entry = u32 (clusters * bytes_per_cluster) / 32
  next_root_entry ← elim root_dir [
    | some dir ↦ some (free_entry num_root_entry 0 dir m)
    | none ↦ if num_root_entry == 0 then some 0 else none
  ]
  some (record {
    buf = buf;
    fs_info = sector_address buf bytes_per_sector num_sector 1;
    bytes_per_sector = bytes_per_sector;
    bytes_per_cluster = bytes_per_cluster;
    bytes_per_fat = bytes_per_fat;
    num_sector = num_sector;
    num_reserved = num_reserved;
    num_fat = num_fat;
    num_data = num_data;
    max_cluster = num_data / nsec_per_cluster;
    root_cluster = root_cluster;
    num_entry_table = num_alloc_table;
    tables = table ∷ next_tables (num_alloc_table - 1) table bytes_per_fat;
    root_dir = root_dir;
    next_root_entry = next_root_entry;
    num_root_entry = num_root_entry;
  })

-- `FAT32SuperReadEntry`.
unfoldable pub read_entry : Super → (cluster : ℕ) → Memory → Option ℕ
read_entry sb cluster m = do
  assert (ltb cluster sb.max_cluster)
  table ← get_elem? sb.tables 0
  some (load_le 4 (table + 4 * cluster) m)

store_entries : List ℕ → (cluster value : ℕ) → Memory → Memory
store_entries [] cluster value m = m
store_entries (table ∷ tables) cluster value m =
    store_entries tables cluster value (store_le 4 (table + 4 * cluster) value m)

-- `FAT32SuperWriteEntry`.
pub write_entry : Super → (cluster value : ℕ) → Memory → Option Memory
unfolding store_entries
write_entry sb cluster value m = do
  assert (ltb cluster sb.max_cluster)
  assert (leb 1 cluster)
  some (store_entries (take sb.num_entry_table sb.tables) cluster value m)

-- `FAT32SuperFree`: the backups of the first two sectors.
pub super_free : Super → Memory → Option Memory
unfolding get_sector
super_free sb m = do
  six ← get_sector sb 6
  let m1 = memcpy six sb.buf sb.bytes_per_sector m
  seven ← get_sector sb 7
  one ← get_sector sb 1
  some (memcpy seven one sb.bytes_per_sector m1)
