-- ===== src/Loader/Disk.antt =====
-- The sectors that `read_disk` of bootloader/serial.h asks the disk for.
use linux_util.Common.{
  ℕ, zero, suc, ◌+◌, ◌-◌, ◌*◌, ◌/◌, ◌%◌, ◌^◌, ◌≡◌, ◌≤◌, ◌<◌, ◌⊎◌, refl, ap, ◌∙◌, arith, inl, inr,
  true, Bool-cases, [], ◌∷◌, bit_or, u8, ltb, leb, ◌&&◌, ltb→lt,
}
use linux_util.Bits.{bit_or-above}
use linux_util.Memory.{Memory, store_le, byte_of}
use linux_util.Loader.{Written, select_sector, read_words, read_disk}

-- The disk has the words `content sector i`, and gives those of a sector as the ATA standard says
-- of READ SECTORS (0x20) with a 28-bit address: one sector, whose number is in the registers 0x1f3 to
-- 0x1f5 and in the low half of 0x1f6, the high half of which selects that mode and the first drive.
pub record IsDisk (disk : Written → ℕ → ℕ) (content : (sector i : ℕ) → ℕ) : Type 0 where
  pub answer :
      (b0 b1 b2 b3 i : ℕ)
      → b0 < 256
      → b1 < 256
      → b2 < 256
      → b3 < 16
      → disk
          ((0x1f2, 1)
            ∷ (0x1f3, b0)
            ∷ (0x1f4, b1)
            ∷ (0x1f5, b2)
            ∷ (0x1f6, 0xE0 + b3)
            ∷ (0x1f7, 0x20)
            ∷ [])
          i
        ≡ content (b0 + 2 ^ 8 * b1 + 2 ^ 16 * b2 + 2 ^ 24 * b3) i

module _ (content : (sector i : ℕ) → ℕ) where
  -- The byte at place `k` of a sector, and of a file that starts at a sector.
  abbrev pub sector_byte : (sector k : ℕ) → ℕ
  sector_byte sector k = byte_of (content sector (k / 4)) (k % 4)

  abbrev pub file_byte : (fstart off : ℕ) → ℕ
  file_byte fstart off = sector_byte (fstart + off / 512) (off % 512)

read_words-bytes :
    (words : ℕ → ℕ) (left i buf : ℕ) (m : Memory) (x : ℕ)
    → (buf + 4 * i ≤ x
        → x < buf + 4 * (i + left)
        → read_words words left i buf m x ≡ byte_of (words ((x - buf) / 4)) ((x - buf) % 4))
      × ((x < buf + 4 * i) ⊎ (buf + 4 * (i + left) ≤ x) → read_words words left i buf m x ≡ m x)
unfolding read_words store_le
read_words-bytes words zero i buf m x = (λ lo hi. absurd (omega arith), λ out. refl)
read_words-bytes words (suc left) i buf m x =
    let m1 = store_le 4 (buf + 4 * i) (words i) m in
    let rest = read_words-bytes words left (suc i) buf m1 x in
    (
      λ lo hi. elim (Bool-cases (ltb x (buf + 4 * suc i))) [
        | inl here ↦
            let lt = ltb→lt _ _ here in
            let inside : (leb (buf + 4 * i) x && ltb x (buf + 4 * i + 4)) ≡ true =
              ground (arith, lt, lo) in
            let e1 : (x - buf) / 4 ≡ i = omega arith in
            let e2 : (x - buf) % 4 ≡ x - (buf + 4 * i) = omega arith in
            rest.1 (inl (omega arith)) ∙ rw (inside, e1, e2) refl
        | inr later ↦ rest.0 (ground (arith, later)) (omega arith)
      ],
      λ out. rest.1 (ground (arith, out)) ∙ ground (arith, out),
    )

-- The last byte that goes out: the upper four bits of the number, and the mode.
device_byte : (q : ℕ) → q < 16 → u8 (bit_or q 0xE0) ≡ 0xE0 + q
device_byte q h = omega (arith, bit_or-above 4 q 14 h)

module _ {disk : Written → ℕ → ℕ} {content : (sector i : ℕ) → ℕ} (d : IsDisk disk content) where
  -- The disk is asked for the sector that is meant, as long as its number has 28 bits.
  selected : (sector i : ℕ) → sector < 2 ^ 28 → disk (select_sector sector) i ≡ content sector i
  unfolding select_sector
  selected sector i small =
      let b0 = sector % 2 ^ 8 in
      let b1 = sector / 2 ^ 8 % 2 ^ 8 in
      let b2 = sector / 2 ^ 16 % 2 ^ 8 in
      let b3 = sector / 2 ^ 24 in
      let sum : b0 + 2 ^ 8 * b1 + 2 ^ 16 * b2 + 2 ^ 24 * b3 ≡ sector = omega arith in
      let device = device_byte b3 (omega arith) in
      rw device (
        d.answer b0 b1 b2 b3 i (omega arith) (omega arith) (omega arith) (omega arith)
        ∙ ap (λ (t : ℕ). content t i) sum)

  -- `read_disk` puts the sector at the buffer, and changes nothing else.
  pub read_disk-sector :
      (buf sector : ℕ) (m : Memory) (x : ℕ)
      → sector < 2 ^ 28
      → (buf ≤ x
          → x < buf + 512
          → read_disk disk buf sector m x ≡ sector_byte content sector (x - buf))
        × ((x < buf) ⊎ (buf + 512 ≤ x) → read_disk disk buf sector m x ≡ m x)
  unfolding read_disk
  read_disk-sector buf sector m x small =
      let (in_it, out_of_it) = read_words-bytes (disk (select_sector sector)) 128 0 buf m x in
      (
        λ lo hi.
            in_it (omega arith) (omega arith)
            ∙ ap (λ (w : ℕ). byte_of w ((x - buf) % 4)) (selected sector ((x - buf) / 4) small),
        λ out. out_of_it (ground (arith, out)),
      )
