-- ===== src/Tests/Volume.antt =====
-- A volume of 64 sectors, as gpt/fat.c creates it, and a file that is copied into it.
use linux_util.Common.{
  ℕ, ◌+◌, ◌*◌, ◌/◌, ◌≡◌, ◌≤◌, ◌<◌, ◌↔◌, ◌⊎◌, inl, refl, arith, some, none, List, [], ◌∷◌, true,
  false, if◌then◌else◌, ◌==◌,
}
use linux_util.Memory.{load_le, Memory}
use linux_util.Memory.Frame.{SameOutside}
use linux_util.Fat.Create.{FatConfig, create_fat32, num_cluster_on_disk, fat_size_in_sector}
use linux_util.Fat.Create.Geometry.{IsValidConfig, IsSectorSize, IsClusterSize}
use linux_util.Fat.Create.Bounds.{create_fat32-refusals}
use linux_util.Fat.Create.Volume.{IsFresh, create_fat32-IsFresh}
use linux_util.Fat.Super.{super_init, cluster_address, read_entry, write_entry}
use linux_util.Fat.Copyin.Access.{cluster_address-start_sector, read_entry-write_entry}
use linux_util.Fat.Super.Mounted.{mounted, super_init-mounted}
use linux_util.Fat.Copyin.{File, unset, edquot, stale, fat32_copyin, prefix, suffix, link_clusters}
use linux_util.Fat.Copyin.Chain.{IsLinked, link_clusters-IsLinked}
use linux_util.Fat.Copyin.Space.{start_sector}
use linux_util.Fat.Create.FreeCount.{count_free, create_fat32-free_count}
use linux_util.Fat.Copyin.Volume.{IsVolume, IsFresh-IsVolume}
use linux_util.Fat.Copyin.Run.{CanCopy}
use linux_util.Fat.Copyin.Stored.{IsStored, IsEntry, clusters_of, root_entry, fat32_copyin-IsStored}
use linux_util.Fat.Copyin.Failed.{GivenUp, short_read, fat32_copyin-undelivered}
use linux_util.Fat.Copyin.Refused.{fat32_copyin-refused}

abbrev small : FatConfig
small = record {
  n_sector = 64;
  bytes_per_sector = 512;
  cluster_size = 1;
  write_random_data = false;
  is_fixed = true;
}

small-valid : IsValidConfig small
small-valid = record {
  sectors = omega arith;
  sector_size = inl refl;
  cluster = inl refl;
  clusters = omega arith;
  offsets = omega arith;
}

-- Memory that holds something before.
abbrev old : Memory
old = λ a. 7

created :
    (m' : Memory) × (create_fat32 0 small old ≡ some (0, m'))
    × IsFresh 0 small m'
    × SameOutside 0 (0 + small.bytes_per_sector * small.n_sector) old m'
created = create_fat32-IsFresh 0 small-valid old

create_fat32-IsFresh_example :
    (m' : Memory) × (create_fat32 0 small old ≡ some (0, m'))
    × IsFresh 0 small m'
    × SameOutside 0 (0 + small.bytes_per_sector * small.n_sector) old m'
create_fat32-IsFresh_example = create_fat32-IsFresh 0 small-valid old

abbrev disk : Memory
disk = created.0

disk-IsVolume : IsVolume 0 small 0 3 disk
unfolding fat_size_in_sector
disk-IsVolume = IsFresh-IsVolume 0 small-valid created.2 (omega arith)

abbrev hello : List ℕ
hello = b'h' ∷ b'i' ∷ b'!' ∷ []

abbrev hello_name : List ℕ
hello_name = b'A' ∷ b'.' ∷ b'T' ∷ []

abbrev hello_file : File
hello_file = record { size = some 3; seek = true; read = λ n. if n == 3 then some hello else none }

hello-CanCopy : CanCopy small 0 3 hello_file hello_name hello
unfolding prefix suffix fat_size_in_sector
hello-CanCopy = record {
  reported = refl;
  seeks = refl;
  delivered = refl;
  nonempty = omega arith;
  fits = omega arith;
  entry_free = omega arith;
  prefix_fits = omega arith;
  suffix_fits = omega arith;
  visible = omega arith;
}

fat32_copyin-IsStored_example :
    (m' : Memory) × (fat32_copyin 1 0 hello_file hello_name 32 disk
      ≡ some (record { ret = start_sector small 3; errno = unset; memory = m' }))
    × IsStored 0 small 3 hello disk m'
    × IsEntry (root_entry 0 small 0) hello_name 32 3 3 m'
    × IsVolume 0 small 1 (3 + clusters_of small hello) m'
fat32_copyin-IsStored_example = fat32_copyin-IsStored 0 small-valid disk-IsVolume hello-CanCopy 32 0

-- A file that is larger than the volume.
abbrev large_file : File
large_file = record { size = some 100000; seek = true; read = λ n. none }

fat32_copyin-refused_example :
    (m' : Memory) × (fat32_copyin 1 0 large_file hello_name 32 disk
      ≡ some (record { ret = 0; errno = edquot; memory = m' }))
    × SameOutside (0 + small.bytes_per_sector * 6) (0 + small.bytes_per_sector * 8) disk m'
unfolding fat_size_in_sector
fat32_copyin-refused_example =
    fat32_copyin-refused 0 small-valid disk-IsVolume 0 100000 large_file hello_name 32 refl
      (inl (omega arith))

-- A file of 700 bytes of which a read delivers three.
abbrev short_file : File
short_file = record { size = some 700; seek = true; read = λ n. some hello }

fat32_copyin-undelivered_example :
    (m' : Memory) × (fat32_copyin 1 0 short_file hello_name 32 disk
      ≡ some (record { ret = 0; errno = stale; memory = m' }))
    × IsVolume 0 small 0 3 m'
    × GivenUp 0 small 3 700 disk m'
unfolding fat_size_in_sector
fat32_copyin-undelivered_example =
    fat32_copyin-undelivered 0 small-valid disk-IsVolume refl (omega arith) (omega arith)
      (omega arith) (short_read hello refl refl (omega arith)) 0 hello_name 32

super_init-mounted_example : super_init 1 0 disk ≡ some (mounted 0 small 0)
super_init-mounted_example = super_init-mounted 0 small-valid disk-IsVolume.mountable 0

link_clusters-IsLinked_example :
    (m' : Memory) × (link_clusters 2 (mounted 0 small 0) 3 disk ≡ some (5 + 1, m'))
    × IsLinked 0 small 3 5 disk m'
unfolding fat_size_in_sector
link_clusters-IsLinked_example =
    link_clusters-IsLinked 0 small-valid 0 2 3 5 disk (omega arith) refl (omega arith)

create_fat32-refusals_example :
    ((create_fat32 0 small old ≡ some (1, old))
      ↔ ((64 < 16) ⊎ (¬ IsSectorSize 512) ⊎ (¬ IsClusterSize 1)))
    × ((create_fat32 0 small old ≡ none)
        ↔ ((16 ≤ 64) × IsSectorSize 512 × IsClusterSize 1 × (num_cluster_on_disk small ≤ 2)))
create_fat32-refusals_example = create_fat32-refusals 0 small old

cluster_address-start_sector_example :
    (cluster_address (mounted 0 small 0) 5 ≡ some (0 + 512 * start_sector small 5))
    × (512 * (8 + 2 * fat_size_in_sector small) ≤ 512 * start_sector small 5)
    × (512 * start_sector small 5 + 1 * 512 ≤ 512 * 64)
unfolding fat_size_in_sector
cluster_address-start_sector_example =
    cluster_address-start_sector 0 small-valid 0 5 (omega arith) (omega arith)

read_entry-write_entry_example :
    (m' : Memory) × (write_entry (mounted 0 small 0) 5 6 disk ≡ some m')
    × (read_entry (mounted 0 small 0) 5 m' ≡ some 6)
    × (read_entry (mounted 0 small 0) 7 m' ≡ read_entry (mounted 0 small 0) 7 disk)
unfolding fat_size_in_sector
read_entry-write_entry_example =
    read_entry-write_entry 0 small-valid 0 5 7 6 disk (omega arith) (omega arith) (omega arith)
      (λ e. absurd (omega arith))

create_fat32-free_count_example :
    (m' : Memory) × (create_fat32 0 small old ≡ some (0, m'))
    × (load_le 4 (0 + 512 + 488) m'
        ≡ 2 * count_free 0 small (512 * fat_size_in_sector small / 4) 0 m' + 3)
create_fat32-free_count_example = create_fat32-free_count 0 small-valid old
