-- ===== src/Fat/Copyin/Volume.antt =====
-- A volume between two copies: what `createFAT32` leaves and `FAT32Copyin` keeps.
use linux_util.Common.{ℕ, ◌+◌, ◌*◌, ◌≡◌, ◌≤◌, arith, ap}
use linux_util.Memory.{Memory, load_le}
use linux_util.Fat.Create.{FatConfig, num_free_fat_entry}
use linux_util.Fat.Create.Geometry.{IsValidConfig}
use linux_util.Fat.Create.Volume.{IsFresh}
use linux_util.Fat.Super.Mounted.{IsMountable}
use linux_util.Fat.Super.Entries.{max_cluster}

-- `k` entries of the root directory are used, and the clusters below `next`. The free count of the
-- FSInfo sector went down by one for each cluster since the creation.
pub record IsVolume (buf : ℕ) (cfg : FatConfig) (k next : ℕ) (m : Memory) : Type 0 where
  pub mountable : IsMountable buf cfg k m
  pub next_free : load_le 4 (buf + cfg.bytes_per_sector + 492) m ≡ next
  pub free_count :
      load_le 4 (buf + cfg.bytes_per_sector + 488) m + next ≡ num_free_fat_entry cfg + 3
  pub lower : 3 ≤ next
  pub upper : next ≤ max_cluster cfg

module _ (buf : ℕ) {cfg : FatConfig} (v : IsValidConfig cfg) where
  -- A fresh volume is ready for the first copy, where the driver may use a cluster.
  pub IsFresh-IsVolume :
      {m : Memory} → IsFresh buf cfg m → 3 ≤ max_cluster cfg → IsVolume buf cfg 0 3 m
  unfolding load_le
  IsFresh-IsVolume h room = record {
    mountable = record {
      bytes_per_sector = h.bytes_per_sector;
      sectors_per_cluster = h.sectors_per_cluster;
      reserved = h.reserved;
      alloc_tables = h.alloc_tables;
      sectors = h.sectors;
      fat_size = h.fat_size;
      root_cluster = h.root_cluster;
      root_end = (h.marks 0 (omega arith)).2;
      taken = λ i p. absurd (omega arith);
      empty = λ i p q. ground (arith, h.root 1 (32 * i) (omega arith));
      room = omega arith;
    };
    next_free = h.next_free;
    free_count = ap (λ (t : ℕ). t + 3) h.free_count;
    lower = omega arith;
    upper = room;
  }
