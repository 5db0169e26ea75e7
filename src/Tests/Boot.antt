-- ===== src/Tests/Boot.antt =====
-- A kernel with one segment of four bytes, which are at sector 6 of the disk, behind its headers.
use linux_util.Common.{
  ℕ, zero, suc, ◌+◌, ◌-◌, ◌*◌, ◌%◌, ◌^◌, ◌≡◌, ◌≤◌, ◌<◌, ◌⊎◌, refl, ap, inr, arith, u32, [], ◌∷◌,
  ◌==◌, ◌&&◌, if◌then◌else◌,
}
use linux_util.Memory.{Memory, load_le, splice}
use linux_util.Loader.{
  Written, sector_data, e_entry, elf_main, load_segment, k_readfile, Phdr, phdr_at,
}
use linux_util.Loader.Disk.{IsDisk, file_byte}
use linux_util.Loader.ReadFile.{IsRead, k_readfile-IsRead}
use linux_util.Loader.Segments.{
  Loadable, Fits, Outside, IsHeader, IsLoaded, IsExecutable, header, load_segment-IsLoaded,
}
use linux_util.Loader.Start.{file, phoff, phnum, program_header, elf_main-IsLoaded}

-- The words of the disk: the entry, the offset and number of headers, and one header, in sector 5.
abbrev words : (sector i : ℕ) → ℕ
words sector i =
    if sector == 6 && i == 0
    then 0x01020304
    else if sector == 5 && i == 6
    then 0x100000
    else if sector == 5 && i == 8
    then 64
    else if sector == 5 && i == 14
    then 1
    else if sector == 5 && i == 16
    then 1
    else if sector == 5 && i == 18
    then 512
    else if sector == 5 && i == 22
    then 0x100000
    else if sector == 5 && i == 24
    then 4
    else if sector == 5 && i == 26
    then 8
    else 0

abbrev ram : Memory
ram = λ a. 9

-- A drive that takes the sector number out of its registers.
drive : Written → ℕ → ℕ
drive ((p2, count) ∷ (p3, b0) ∷ (p4, b1) ∷ (p5, b2) ∷ (p6, b3) ∷ (p7, command) ∷ []) i =
    words (b0 + 2 ^ 8 * b1 + 2 ^ 16 * b2 + 2 ^ 24 * (b3 - 0xE0)) i
drive other i = 0

drive-IsDisk : IsDisk drive words
unfolding drive
drive-IsDisk = record {
  answer = λ b0 b1 b2 b3 i h0 h1 h2 h3.
      let same : 0xE0 + b3 - 0xE0 ≡ b3 = omega arith in
      ap (λ (t : ℕ). words (b0 + 2 ^ 8 * b1 + 2 ^ 16 * b2 + 2 ^ 24 * t) i) same;
}

abbrev kernel_header : Phdr
kernel_header = header words 5 64 0

kernel-Fits : Fits 5 kernel_header
unfolding load_le phdr_at
kernel-Fits = record {
  grows = omega arith;
  memory = omega arith;
  file = omega arith;
  disk = omega arith;
  apart = inr (omega arith);
}

-- The memory with the header at 0x7040.
abbrev with_header : Memory
with_header = splice 0x7040 56 (λ i. file_byte words 5 (64 + i)) ram

kernel-IsHeader : IsHeader kernel_header 0x7040 with_header
unfolding load_le phdr_at
kernel-IsHeader = record {
  stored = refl;
  off_segment = inr (omega arith);
  off_buffer = inr (omega arith);
}

kernel_numbers : (phoff words 5 ≡ 64) × (phnum words 5 ≡ 1)
unfolding load_le
kernel_numbers = (refl, refl)

kernel-stack :
    (kernel_header.p_paddr + kernel_header.p_memsz ≤ 0x7000)
    ⊎ (0x7000 + 512 ≤ kernel_header.p_paddr)
unfolding load_le phdr_at
kernel-stack = inr (omega arith)

only_first : (P : ℕ → Type 0) → P 0 → (j : ℕ) → j < 1 → P j
only_first P p zero lt = p
only_first P p (suc j) lt = absurd (omega arith)

kernel-IsExecutable : IsExecutable words 5 0x7000 64 1
kernel-IsExecutable = record {
  offsets = omega arith;
  sectors = omega arith;
  buffers = inr (omega arith);
  whole = only_first (λ j. (64 + j * 56) % 512 + 56 ≤ 512) (omega arith);
  fits = λ j lt l. only_first (λ j. Fits 5 (header words 5 64 j)) kernel-Fits j lt;
  disjoint = λ j k lt lt' ne l l'. absurd (omega arith);
  stack = λ j lt l.
      only_first
        (λ j.
          ((header words 5 64 j).p_paddr + (header words 5 64 j).p_memsz ≤ 0x7000)
          ⊎ (0x7000 + 512 ≤ (header words 5 64 j).p_paddr))
        kernel-stack j lt;
}

started : IsExecutable words 5 0x7000 (phoff words 5) (phnum words 5)
started = rw (kernel_numbers.0, kernel_numbers.1) kernel-IsExecutable

-- The segment of this kernel is one of those that the theorem speaks of.
kernel-Loadable : Loadable kernel_header
unfolding load_le phdr_at
kernel-Loadable = refl

elf_main-IsLoaded_example :
    (let r = elf_main drive 0x7000 5 ram in
      (r.0 ≡ u32 (e_entry 0 (file words 5)))
      × ((j : ℕ)
          → j < phnum words 5
          → Loadable (program_header words 5 j)
          → IsLoaded words 5 (program_header words 5 j) r.1)
      × ((y : ℕ)
          → ((j : ℕ)
              → j < phnum words 5
              → Loadable (program_header words 5 j)
              → Outside (program_header words 5 j) y)
          → (y < 0x7000) ⊎ (0x7000 + 512 ≤ y)
          → (y < sector_data) ⊎ (sector_data + 512 ≤ y)
          → r.1 y ≡ ram y))
elf_main-IsLoaded_example = elf_main-IsLoaded drive-IsDisk 0x7000 5 ram started

load_segment-IsLoaded_example :
    (let m' = load_segment drive 5 0x7040 with_header in
      IsLoaded words 5 kernel_header m'
      × ((x : ℕ)
          → Outside kernel_header x
          → (x < sector_data) ⊎ (sector_data + 512 ≤ x)
          → m' x ≡ with_header x))
load_segment-IsLoaded_example =
    load_segment-IsLoaded drive-IsDisk 5 kernel_header 0x7040 with_header kernel-Fits
      kernel-IsHeader

k_readfile-IsRead_example :
    IsRead words 0x100000 5 500 600 ram (k_readfile drive 600 0x100000 5 500 600 ram)
k_readfile-IsRead_example =
    k_readfile-IsRead drive-IsDisk 600 0x100000 5 500 600 ram (omega arith) (omega arith)
      (omega arith) (omega arith) (inr (omega arith))
