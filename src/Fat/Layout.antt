-- ===== src/Fat/Layout.antt =====
-- The packed structs of gpt/fat.c as they lie in memory: `struct BPB`, `struct FSInfo` and
-- `struct FATDirEntry`, each with a reader that loads its fields in little-endian order.
use linux_util.Common.{ℕ, ◌+◌, List}
use linux_util.Memory.{Memory, load_le, bytes_at}

-- BIOS parameter block, 512 bytes.
pub record Bpb : Type 0 where
  pub jmp_boot : List ℕ
  pub oef_name : List ℕ
  pub bytes_per_sector : ℕ
  pub num_sector_per_cluster : ℕ
  pub num_reserved_sectors : ℕ
  pub num_alloc_table : ℕ
  pub root_entry_count : ℕ
  pub num_sectors16 : ℕ
  pub media : ℕ
  pub fat_size16 : ℕ
  pub sectors_per_track : ℕ
  pub num_heads : ℕ
  pub hidden_sec : ℕ
  pub num_sectors32 : ℕ
  pub fat_size32 : ℕ
  pub ext_flags : ℕ
  pub revision : ℕ
  pub root_cluster : ℕ
  pub fs_info : ℕ
  pub boot_record_sector : ℕ
  pub reserved : List ℕ
  pub driver_num : ℕ
  pub reserved1 : ℕ
  pub boot_signature : ℕ
  pub vol_serial_number : ℕ
  pub vol_label : List ℕ
  pub file_sys_type : List ℕ
  pub reserved3 : List ℕ
  pub signature_byte1 : ℕ
  pub signature_byte2 : ℕ

unfoldable pub read_bpb : (buf : ℕ) → Memory → Bpb
read_bpb buf m = record {
  jmp_boot = bytes_at 3 buf m;
  oef_name = bytes_at 8 (buf + 3) m;
  bytes_per_sector = load_le 2 (buf + 11) m;
  num_sector_per_cluster = load_le 1 (buf + 13) m;
  num_reserved_sectors = load_le 2 (buf + 14) m;
  num_alloc_table = load_le 1 (buf + 16) m;
  root_entry_count = load_le 2 (buf + 17) m;
  num_sectors16 = load_le 2 (buf + 19) m;
  media = load_le 1 (buf + 21) m;
  fat_size16 = load_le 2 (buf + 22) m;
  sectors_per_track = load_le 2 (buf + 24) m;
  num_heads = load_le 2 (buf + 26) m;
  hidden_sec = load_le 4 (buf + 28) m;
  num_sectors32 = load_le 4 (buf + 32) m;
  fat_size32 = load_le 4 (buf + 36) m;
  ext_flags = load_le 2 (buf + 40) m;
  revision = load_le 2 (buf + 42) m;
  root_cluster = load_le 4 (buf + 44) m;
  fs_info = load_le 2 (buf + 48) m;
  boot_record_sector = load_le 2 (buf + 50) m;
  reserved = bytes_at 12 (buf + 52) m;
  driver_num = load_le 1 (buf + 64) m;
  reserved1 = load_le 1 (buf + 65) m;
  boot_signature = load_le 1 (buf + 66) m;
  vol_serial_number = load_le 4 (buf + 67) m;
  vol_label = bytes_at 11 (buf + 71) m;
  file_sys_type = bytes_at 8 (buf + 82) m;
  reserved3 = bytes_at 420 (buf + 90) m;
  signature_byte1 = load_le 1 (buf + 510) m;
  signature_byte2 = load_le 1 (buf + 511) m;
}

-- FSInfo sector, 512 bytes; its three reserved arrays are left out of the view.
pub record FsInfo : Type 0 where
  pub lead_signature : ℕ
  pub struct_signature : ℕ
  pub free_count : ℕ
  pub next_free : ℕ
  pub trail_signature : ℕ

unfoldable pub read_fs_info : (a : ℕ) → Memory → FsInfo
read_fs_info a m = record {
  lead_signature = load_le 4 a m;
  struct_signature = load_le 4 (a + 484) m;
  free_count = load_le 4 (a + 488) m;
  next_free = load_le 4 (a + 492) m;
  trail_signature = load_le 4 (a + 508) m;
}

-- Directory entry, 32 bytes.
pub record DirEntry : Type 0 where
  pub name : List ℕ
  pub attr : ℕ
  pub ntres : ℕ
  pub create_time_tenth : ℕ
  pub create_time : ℕ
  pub create_date : ℕ
  pub last_access_date : ℕ
  pub first_cluster_high : ℕ
  pub write_time : ℕ
  pub write_date : ℕ
  pub first_cluster_low : ℕ
  pub file_size : ℕ

unfoldable pub read_dir_entry : (a : ℕ) → Memory → DirEntry
read_dir_entry a m = record {
  name = bytes_at 11 a m;
  attr = load_le 1 (a + 11) m;
  ntres = load_le 1 (a + 12) m;
  create_time_tenth = load_le 1 (a + 13) m;
  create_time = load_le 2 (a + 14) m;
  create_date = load_le 2 (a + 16) m;
  last_access_date = load_le 2 (a + 18) m;
  first_cluster_high = load_le 2 (a + 20) m;
  write_time = load_le 2 (a + 22) m;
  write_date = load_le 2 (a + 24) m;
  first_cluster_low = load_le 2 (a + 26) m;
  file_size = load_le 4 (a + 28) m;
}
