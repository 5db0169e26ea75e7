-- ===== src/Loader/Segments.antt =====
-- The segments of the kernel that bootloader/vmlinux.c loads, and one step of its loop.
use linux_util.Common.{
  ℕ, ◌+◌, ◌-◌, ◌*◌, ◌/◌, ◌%◌, ◌^◌, ◌≡◌, ◌≢◌, ◌≤◌, ◌<◌, ◌⊎◌, refl, ap, ◌∙◌, arith, true, inl, u32,
  sub64, bit_and,
}
use linux_util.Memory.{Memory, load_le}
use linux_util.Memory.Laws.{load_le-ext}
use linux_util.Bits.{bit_and-ones}
use linux_util.Loader.{
  sector_data, Written, k_readfile, Phdr, phdr_at, phdr_size, is_loaded, load_segment,
}
use linux_util.Loader.Disk.{IsDisk, file_byte}
use linux_util.Loader.ReadFile.{k_memzero-zero, k_readfile-IsRead}

-- A header with an odd type. `PT_LOAD` is 1.
abbrev pub Loadable : Phdr → Type 0
Loadable ph = ph.p_type % 2 ≡ 1

pub Loadable-is_loaded : (ph : Phdr) → Loadable ph → is_loaded ph ≡ true
Loadable-is_loaded ph odd =
    let bit = bit_and-ones 1 ph.p_type in
    let set : bit_and ph.p_type 1 ≡ 1 = omega (arith, bit) in rw set refl

pub is_loaded-Loadable : (ph : Phdr) → is_loaded ph ≡ true → Loadable ph
is_loaded-Loadable ph l =
    let bit = bit_and-ones 1 ph.p_type in
    let set : bit_and ph.p_type 1 ≢ 0 = ground (arith, l) in omega (arith, bit, set)

-- A header is read from its bytes.
pub phdr_at-ext :
    (p q : ℕ) (m m' : Memory)
    → ((i : ℕ) → i < phdr_size → m (p + i) ≡ m' (q + i))
    → phdr_at p m ≡ phdr_at q m'
unfolding phdr_at
phdr_at-ext p q m m' same =
    let part : (w o : ℕ) → o + w ≤ phdr_size → load_le w (p + o) m ≡ load_le w (q + o) m' =
      λ w o fits. load_le-ext w (p + o) (q + o) m m' (λ i lt.
        let e1 : p + o + i ≡ p + (o + i) = omega arith in
        let e2 : q + (o + i) ≡ q + o + i = omega arith in
        ap m e1 ∙ same (o + i) (omega arith) ∙ ap m' e2) in
    rw
      (
        part 4 0 (omega arith),
        part 8 8 (omega arith),
        part 8 24 (omega arith),
        part 8 32 (omega arith),
        part 8 40 (omega arith),
      )
      refl

-- A segment that fits 32 bits, whose bytes are in sectors with numbers of 28 bits, and that does not
-- meet the buffer of a sector.
pub record Fits (sector : ℕ) (ph : Phdr) : Type 0 where
  pub grows : ph.p_filesz ≤ ph.p_memsz
  pub memory : ph.p_paddr + ph.p_memsz < 2 ^ 32
  pub file : ph.p_offset + ph.p_filesz < 2 ^ 32
  pub disk : sector + (ph.p_offset + ph.p_filesz) / 512 < 2 ^ 28
  pub apart : (ph.p_paddr + ph.p_memsz ≤ sector_data) ⊎ (sector_data + 512 ≤ ph.p_paddr)

abbrev pub Outside : Phdr → ℕ → Type 0
Outside ph x = (x < ph.p_paddr) ⊎ (ph.p_paddr + ph.p_memsz ≤ x)

-- A header in memory that neither its segment nor the buffer of a sector meets.
pub record IsHeader (ph : Phdr) (phdr : ℕ) (m : Memory) : Type 0 where
  pub stored : phdr_at phdr m ≡ ph
  pub off_segment : (ph.p_paddr + ph.p_memsz ≤ phdr) ⊎ (phdr + phdr_size ≤ ph.p_paddr)
  pub off_buffer : (phdr + phdr_size ≤ sector_data) ⊎ (sector_data + 512 ≤ phdr)

abbrev pub offset_of : (phoff j : ℕ) → ℕ
offset_of phoff j = phoff + j * phdr_size

module _ (content : (sector i : ℕ) → ℕ) (sector : ℕ) where
  abbrev pub IsLoaded : Phdr → Memory → Type 0
  IsLoaded ph m =
      ((i : ℕ) → i < ph.p_filesz → m (ph.p_paddr + i) ≡ file_byte content sector (ph.p_offset + i))
      × ((i : ℕ) → ph.p_filesz ≤ i → i < ph.p_memsz → m (ph.p_paddr + i) ≡ 0)

  -- Program header `j` as it is in the file.
  abbrev pub header : (phoff j : ℕ) → Phdr
  header phoff j = phdr_at (offset_of phoff j) (file_byte content sector)

  -- An executable whose headers do not cross a sector, and whose segments fit and meet neither each
  -- other nor the arrays of the loader, which are apart too.
  pub record IsExecutable (data_buf phoff n : ℕ) : Type 0 where
    pub offsets : offset_of phoff n < 2 ^ 32
    pub sectors : sector + offset_of phoff n / 512 < 2 ^ 28
    pub buffers : (data_buf + 512 ≤ sector_data) ⊎ (sector_data + 512 ≤ data_buf)
    pub whole : (j : ℕ) → j < n → offset_of phoff j % 512 + phdr_size ≤ 512
    pub fits : (j : ℕ) → j < n → Loadable (header phoff j) → Fits sector (header phoff j)
    pub disjoint :
        (j k : ℕ)
        → j < n
        → k < n
        → j ≢ k
        → Loadable (header phoff j)
        → Loadable (header phoff k)
        → ((header phoff j).p_paddr + (header phoff j).p_memsz ≤ (header phoff k).p_paddr)
          ⊎ ((header phoff k).p_paddr + (header phoff k).p_memsz ≤ (header phoff j).p_paddr)
    pub stack :
        (j : ℕ)
        → j < n
        → Loadable (header phoff j)
        → ((header phoff j).p_paddr + (header phoff j).p_memsz ≤ data_buf)
          ⊎ (data_buf + 512 ≤ (header phoff j).p_paddr)

module _ {disk : Written → ℕ → ℕ} {content : (sector i : ℕ) → ℕ} (d : IsDisk disk content)
    (sector : ℕ) where
  -- A segment that fits is in memory after its step, with zeros behind its bytes, and nothing else is
  -- changed but the buffer of a sector. Neither of these meets the header, which is read again behind
  -- the copy.
  pub load_segment-IsLoaded :
      (ph : Phdr) (phdr : ℕ) (m : Memory)
      → Fits sector ph
      → IsHeader ph phdr m
      → (let m' = load_segment disk sector phdr m in
          IsLoaded content sector ph m'
          × ((x : ℕ) → Outside ph x → (x < sector_data) ⊎ (sector_data + 512 ≤ x) → m' x ≡ m x))
  unfolding load_segment
  load_segment-IsLoaded ph phdr m f h =
      let grows = f.grows in
      let memory = f.memory in
      let file = f.file in
      let disk_end = f.disk in
      let apart = f.apart in
      let off_segment = h.off_segment in
      let off_buffer = h.off_buffer in
      let w1 : u32 ph.p_filesz ≡ ph.p_filesz = omega (arith, file) in
      let w2 : u32 ph.p_paddr ≡ ph.p_paddr = omega (arith, memory) in
      let w3 : u32 ph.p_offset ≡ ph.p_offset = omega (arith, file) in
      let w4 : u32 (ph.p_paddr + ph.p_filesz) ≡ ph.p_paddr + ph.p_filesz =
        omega (arith, memory, grows) in
      let w5 : u32 (sub64 ph.p_memsz ph.p_filesz) ≡ ph.p_memsz - ph.p_filesz =
        omega (arith, memory, grows) in
      let m1 = k_readfile disk ph.p_filesz ph.p_paddr sector ph.p_offset ph.p_filesz m in
      let (read, kept) =
        k_readfile-IsRead d ph.p_filesz ph.p_paddr sector ph.p_offset ph.p_filesz m (omega arith)
          (omega (arith, memory, grows)) file disk_end (ground (arith, apart, grows)) in
      let again : phdr_at phdr m1 ≡ ph =
        phdr_at-ext phdr phdr m1 m (λ i lt.
          kept (phdr + i) (ground (arith, off_segment, grows, lt)) (ground (arith, off_buffer, lt)))
        ∙ h.stored in
      let zeros = k_memzero-zero (ph.p_memsz - ph.p_filesz) 0 (ph.p_paddr + ph.p_filesz) m1 in
      rw (h.stored, w1, w2, w3, again, w4, w5)
        (
          (
            λ i lt. (zeros (ph.p_paddr + i)).1 (inl (omega arith)) ∙ read i lt,
            λ i lo hi. (zeros (ph.p_paddr + i)).0 (omega arith) (omega arith),
          ),
          λ x out away.
              (zeros x).1 (ground (arith, out, grows)) ∙ kept x (ground (arith, out, grows)) away,
        )
