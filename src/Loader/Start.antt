-- ===== src/Loader/Start.antt =====
-- The whole of `__elf_main` in bootloader/vmlinux.c.
use linux_util.Common.{ℕ, ◌+◌, ◌-◌, ◌/◌, ◌%◌, ◌^◌, ◌≡◌, ◌≤◌, ◌<◌, ◌⊎◌, refl, ◌∙◌, arith, u32}
use linux_util.Memory.{Memory, load_le}
use linux_util.Memory.Laws.{load_le-ext}
use linux_util.Loader.{Written, Phdr, sector_data, read_disk, e_entry, e_phoff, e_phnum, elf_main}
use linux_util.Loader.Disk.{IsDisk, file_byte, read_disk-sector}
use linux_util.Loader.Segments.{Loadable, Outside, IsLoaded, header, IsExecutable}
use linux_util.Loader.Program.{load_segments-AllLoaded, AllLoaded_lem}

module _ (content : (sector i : ℕ) → ℕ) (sector : ℕ) where
  -- The first sector of the file has the ELF header.
  abbrev pub file : Memory
  file = file_byte content sector

  abbrev pub phoff : ℕ
  phoff = u32 (e_phoff 0 file)

  abbrev pub phnum : ℕ
  phnum = e_phnum 0 file

  -- Program header `j` of the file.
  abbrev pub program_header : ℕ → Phdr
  program_header j = header content sector phoff j

module _ {disk : Written → ℕ → ℕ} {content : (sector i : ℕ) → ℕ} (d : IsDisk disk content)
    (data_buf sector : ℕ) where
  first-read :
      (w o : ℕ) (m : Memory)
      → sector < 2 ^ 28
      → o + w ≤ 512
      → load_le w (data_buf + o) (read_disk disk data_buf sector m)
        ≡ load_le w o (file content sector)
  first-read w o m few small = load_le-ext w (data_buf + o) o _ (file content sector) (λ i p.
      let inside : data_buf + o + i - data_buf ≡ o + i = omega arith in
      let e1 : sector + (o + i) / 512 ≡ sector = omega arith in
      let e2 : (o + i) % 512 ≡ o + i = omega arith in
      (read_disk-sector d data_buf sector m (data_buf + o + i) few).0 (omega arith) (omega arith)
      ∙ rw (inside, e1, e2) refl)

  -- For an executable file from a sector on `__elf_main` ends its loops and calls the entry that the
  -- file names. Each segment with an odd type, as `PT_LOAD` is, is then in memory as the file has it,
  -- with zeros behind it, and all memory outside of these segments and of the loader's two arrays is
  -- as before. The disk follows the ATA standard, and the executable's sectors have 28-bit numbers.
  pub elf_main-IsLoaded :
      (m : Memory)
      → IsExecutable content sector data_buf (phoff content sector) (phnum content sector)
      → (let r = elf_main disk data_buf sector m in
          (r.0 ≡ u32 (e_entry 0 (file content sector)))
          × ((j : ℕ)
              → j < phnum content sector
              → Loadable (program_header content sector j)
              → IsLoaded content sector (program_header content sector j) r.1)
          × ((y : ℕ)
              → ((j : ℕ)
                  → j < phnum content sector
                  → Loadable (program_header content sector j)
                  → Outside (program_header content sector j) y)
              → (y < data_buf) ⊎ (data_buf + 512 ≤ y)
              → (y < sector_data) ⊎ (sector_data + 512 ≤ y)
              → r.1 y ≡ m y))
  unfolding elf_main
  elf_main-IsLoaded m x =
      let s = x.sectors in
      let few : sector < 2 ^ 28 = omega arith in
      let m1 = read_disk disk data_buf sector m in
      let (all, kept) =
        AllLoaded_lem d x m1 _
          (load_segments-AllLoaded d x (phnum content sector) 0 m1 (omega arith)) in
      rw
        (
          first-read 8 24 m few (omega arith),
          first-read 8 32 m few (omega arith),
          first-read 2 56 m few (omega arith),
        )
        (
          refl,
          all,
          λ y out off_stack away.
              kept y (λ j lo lt l. out j lt l, off_stack, away)
              ∙ (read_disk-sector d data_buf sector m y few).1 off_stack,
        )
