-- ===== src/Loader.antt =====
-- bootloader/vmlinux.c: reading a file from the disk into memory, with read_disk of bootloader/serial.h
-- for a machine without BIOS calls. The disk is a parameter: `disk written i` is word `i` that it gives
-- on port 0x1f0 after the bytes `written` went to its ports. That it gets ready, so that `wait_disk`
-- ends, is left to it.
pub mod Disk
pub mod ReadFile
pub mod Segments
pub mod Program
pub mod Start
use linux_util.Common.{
  ℕ, zero, suc, ◌+◌, ◌-◌, ◌*◌, ◌/◌, ◌%◌, ◌^◌, Bool, not, List, [], ◌∷◌, bit_and, bit_or, u8, u32,
  sub64, ltb, ◌==◌, if◌then◌else◌,
}
use linux_util.Memory.{Memory, splice, store_le, load_le}

abbrev pub sector_size : ℕ
sector_size = 512

abbrev pub sector_data : ℕ
sector_data = 0x1000

-- The loop over the bytes that are set to zero, from byte `i` on.
unfoldable pub k_memzero : (left i addr : ℕ) → Memory → Memory
k_memzero zero i addr m = m
k_memzero (suc left) i addr m = k_memzero left (suc i) addr (store_le 1 (addr + i) 0 m)

-- The loop over the bytes of a sector that belong to the file.
unfoldable pub copy_bytes : (left i dst src : ℕ) → Memory → Memory
copy_bytes zero i dst src m = m
copy_bytes (suc left) i dst src m =
    copy_bytes left (suc i) dst src (splice (dst + i) 1 (λ j. m (src + i)) m)

-- The bytes that `outb` writes to the ports of the disk, as pairs of port and byte.
abbrev pub Written : Type 0
Written = List (ℕ × ℕ)

-- The sector number goes out in four bytes, the last one with the mode in its upper bits.
unfoldable pub select_sector : (sect : ℕ) → Written
select_sector sect =
    (0x1f2, 1)
    ∷ (0x1f3, u8 sect)
    ∷ (0x1f4, u8 (sect / 2 ^ 8))
    ∷ (0x1f5, u8 (sect / 2 ^ 16))
    ∷ (0x1f6, u8 (bit_or (sect / 2 ^ 24) 0xE0))
    ∷ (0x1f7, 0x20)
    ∷ []

-- The loop over the words of a sector.
unfoldable pub read_words : (inl : ℕ → ℕ) (left i buf : ℕ) → Memory → Memory
read_words inl zero i buf m = m
read_words inl (suc left) i buf m =
    read_words inl left (suc i) buf (store_le 4 (buf + 4 * i) (inl i) m)

module _ (disk : Written → ℕ → ℕ) where
  unfoldable pub read_disk : (buf sector : ℕ) → Memory → Memory
  read_disk buf sector m = read_words (disk (select_sector sector)) (sector_size / 4) 0 buf m

  -- A round takes one byte at least.
  unfoldable pub k_readfile : (fuel dst fstart foff fsize : ℕ) → Memory → Memory
  k_readfile zero dst fstart foff fsize m = m
  k_readfile (suc fuel) dst fstart foff fsize m =
      let read_start = foff % sector_size in
      let sector = u32 (fstart + foff / sector_size) in
      let nb = if ltb fsize (sector_size - read_start) then fsize else sector_size - read_start in
      let m1 = read_disk sector_data sector m in
      let m2 = copy_bytes nb 0 dst (sector_data + read_start) m1 in
      let rest = k_readfile fuel (u32 (dst + nb)) fstart (u32 (foff + nb)) (fsize - nb) m2 in
      if fsize == 0 then m else rest

-- The fields of `Elf64_Ehdr` and `Elf64_Phdr` by their places, and the size of the latter.
abbrev pub e_entry : (ehdr : ℕ) → Memory → ℕ
e_entry ehdr m = load_le 8 (ehdr + 24) m

abbrev pub e_phoff : (ehdr : ℕ) → Memory → ℕ
e_phoff ehdr m = load_le 8 (ehdr + 32) m

abbrev pub e_phnum : (ehdr : ℕ) → Memory → ℕ
e_phnum ehdr m = load_le 2 (ehdr + 56) m

pub record Phdr : Type 0 where
  pub p_type : ℕ
  pub p_offset : ℕ
  pub p_paddr : ℕ
  pub p_filesz : ℕ
  pub p_memsz : ℕ

unfoldable pub phdr_at : (phdr : ℕ) → Memory → Phdr
phdr_at phdr m = record {
  p_type = load_le 4 (phdr + 0) m;
  p_offset = load_le 8 (phdr + 8) m;
  p_paddr = load_le 8 (phdr + 24) m;
  p_filesz = load_le 8 (phdr + 32) m;
  p_memsz = load_le 8 (phdr + 40) m;
}

abbrev pub phdr_size : ℕ
phdr_size = 56

abbrev pub pt_load : ℕ
pt_load = 1

-- The test of the code is `p_type & PT_LOAD`.
abbrev pub is_loaded : Phdr → Bool
is_loaded ph = not (bit_and ph.p_type pt_load == 0)

module _ (disk : Written → ℕ → ℕ) where
  -- The bytes of a segment, and zeros behind them. Pointers and sizes have 32 bits. The header is read
  -- through its pointer, once before the bytes are copied and again behind that.
  unfoldable pub load_segment : (sector phdr : ℕ) → Memory → Memory
  load_segment sector phdr m =
      let ph = phdr_at phdr m in
      let m1 =
        k_readfile disk (u32 ph.p_filesz) (u32 ph.p_paddr) sector (u32 ph.p_offset)
          (u32 ph.p_filesz) m in
      let ph1 = phdr_at phdr m1 in
      k_memzero (u32 (sub64 ph1.p_memsz ph1.p_filesz)) 0 (u32 (ph1.p_paddr + ph1.p_filesz)) m1

  -- The loop over the program headers. `data_buf` is the array `data` of 512 bytes on the stack.
  unfoldable pub load_segments : (left i data_buf sector phoff : ℕ) → Memory → Memory
  load_segments zero i data_buf sector phoff m = m
  load_segments (suc left) i data_buf sector phoff m =
      let off = u32 (phoff + i * phdr_size) in
      let m1 = read_disk disk data_buf (u32 (sector + off / sector_size)) m in
      let phdr = data_buf + off % sector_size in
      let m2 = if is_loaded (phdr_at phdr m1) then load_segment sector phdr m1 else m1 in
      load_segments left (suc i) data_buf sector phoff m2

  -- The entry of the kernel, and the memory when it is called.
  unfoldable pub elf_main : (data_buf sector : ℕ) → Memory → ℕ × Memory
  elf_main data_buf sector m =
      let m1 = read_disk disk data_buf sector m in
      (
        u32 (e_entry data_buf m1),
        load_segments (e_phnum data_buf m1) 0 data_buf sector (u32 (e_phoff data_buf m1)) m1,
      )
