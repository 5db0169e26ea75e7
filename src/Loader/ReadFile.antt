-- ===== src/Loader/ReadFile.antt =====
-- What bootloader/vmlinux.c reads from the disk.
use linux_util.Common.{
  ℕ, zero, suc, ◌+◌, ◌-◌, ◌/◌, ◌%◌, ◌^◌, ◌≡◌, ◌≤◌, ◌<◌, ◌⊎◌, refl, sym, ap, ◌∙◌, arith, inl, inr,
  true, false, Bool-cases, u32, ltb, leb, ◌&&◌, ◌==◌, if◌then◌else◌, ltb→lt,
}
use linux_util.Memory.{Memory, splice, store_le}
use linux_util.Loader.{sector_data, Written, k_memzero, copy_bytes, read_disk, k_readfile}
use linux_util.Loader.Disk.{IsDisk, sector_byte, file_byte, read_disk-sector}

pub k_memzero-zero :
    (left i addr : ℕ) (m : Memory) (x : ℕ)
    → (addr + i ≤ x → x < addr + i + left → k_memzero left i addr m x ≡ 0)
      × ((x < addr + i) ⊎ (addr + i + left ≤ x) → k_memzero left i addr m x ≡ m x)
unfolding k_memzero store_le
k_memzero-zero zero i addr m x = (λ lo hi. absurd (omega arith), λ out. refl)
k_memzero-zero (suc left) i addr m x =
    let rest = k_memzero-zero left (suc i) addr (store_le 1 (addr + i) 0 m) x in
    (
      λ lo hi. elim (Bool-cases (x == addr + i)) [
        | inl first ↦
            let e : x ≡ addr + i = ground (arith, first) in
            rest.1 (inl (omega arith)) ∙ ground (arith, e)
        | inr later ↦ rest.0 (ground (arith, later)) (omega arith)
      ],
      λ out. rest.1 (ground (arith, out)) ∙ ground (arith, out),
    )

copy_bytes-copy :
    (left i dst src : ℕ) (m : Memory) (x : ℕ)
    → (dst + i + left ≤ src + i) ⊎ (src + i + left ≤ dst + i)
    → (dst + i ≤ x → x < dst + i + left → copy_bytes left i dst src m x ≡ m (src + (x - dst)))
      × ((x < dst + i) ⊎ (dst + i + left ≤ x) → copy_bytes left i dst src m x ≡ m x)
unfolding copy_bytes
copy_bytes-copy zero i dst src m x apart = (λ lo hi. absurd (omega arith), λ out. refl)
copy_bytes-copy (suc left) i dst src m x apart =
    let m1 = splice (dst + i) 1 (λ j. m (src + i)) m in
    let rest = copy_bytes-copy left (suc i) dst src m1 x (ground (arith, apart)) in
    (
      λ lo hi. elim (Bool-cases (x == dst + i)) [
        | inl first ↦
            let e : x ≡ dst + i = ground (arith, first) in
            let at_i : src + i ≡ src + (x - dst) = omega arith in
            let inside : (leb (dst + i) x && ltb x (dst + i + 1)) ≡ true = ground (arith, e) in
            rest.1 (inl (omega arith)) ∙ rw inside (ap m at_i)
        | inr later ↦
            let s = src + (x - dst) in
            let outside : (leb (dst + i) s && ltb s (dst + i + 1)) ≡ false =
              ground (arith, later, lo, hi, apart) in
            rest.0 (ground (arith, later)) (omega arith) ∙ rw outside refl
      ],
      λ out. rest.1 (ground (arith, out)) ∙ ground (arith, out),
    )

-- The bytes of a file, at a place that the sector's buffer does not meet.
abbrev pub IsRead :
    (content : (sector i : ℕ) → ℕ) (dst fstart foff fsize : ℕ) → (m m' : Memory) → Type 0
IsRead content dst fstart foff fsize m m' =
    ((i : ℕ) → i < fsize → m' (dst + i) ≡ file_byte content fstart (foff + i))
    × ((x : ℕ)
        → (x < dst) ⊎ (dst + fsize ≤ x)
        → (x < sector_data) ⊎ (sector_data + 512 ≤ x)
        → m' x ≡ m x)

module _ {disk : Written → ℕ → ℕ} {content : (sector i : ℕ) → ℕ} (d : IsDisk disk content) where
  -- One sector, and the rest.
  IsRead-round :
      (nb dst fstart foff fsize : ℕ) (m r : Memory)
      → nb ≤ fsize
      → nb ≤ 512 - foff % 512
      → fstart + (foff + fsize) / 512 < 2 ^ 28
      → (dst + fsize ≤ sector_data) ⊎ (sector_data + 512 ≤ dst)
      → (let m1 = read_disk disk sector_data (u32 (fstart + foff / 512)) m in
          let m2 = copy_bytes nb 0 dst (sector_data + foff % 512) m1 in
          IsRead content (dst + nb) fstart (foff + nb) (fsize - nb) m2 r
          → IsRead content dst fstart foff fsize m r)
  IsRead-round nb dst fstart foff fsize m r le room small apart (rest, kept) =
      let start = foff % 512 in
      let sector = u32 (fstart + foff / 512) in
      let width : sector ≡ fstart + foff / 512 = omega arith in
      let m1 = read_disk disk sector_data sector m in
      let copied =
        λ (x : ℕ). copy_bytes-copy nb 0 dst (sector_data + start) m1 x (ground (arith, apart)) in
      let from_disk = λ (x : ℕ). read_disk-sector d sector_data sector m x (omega arith) in
      (
        λ i lt. elim (Bool-cases (ltb i nb)) [
          | inl now ↦
              let lt' = ltb→lt _ _ now in
              let place : sector_data + start + (dst + i - dst) ≡ sector_data + (start + i) =
                omega arith in
              let inside : sector_data + (start + i) - sector_data ≡ start + i = omega arith in
              let e1 : (foff + i) / 512 ≡ foff / 512 = omega arith in
              let e2 : (foff + i) % 512 ≡ start + i = omega arith in
              kept (dst + i) (inl (omega arith)) (ground (arith, apart, lt))
              ∙ (copied (dst + i)).0 (omega arith) (omega arith)
              ∙ ap m1 place
              ∙ (from_disk (sector_data + (start + i))).0 (omega arith) (omega arith)
              ∙ ap (λ (k : ℕ). sector_byte content sector k) inside
              ∙ rw (width, e1, e2) refl
          | inr later ↦
              let ge : nb ≤ i = ground (arith, later) in
              let place : dst + nb + (i - nb) ≡ dst + i = omega arith in
              let off : foff + nb + (i - nb) ≡ foff + i = omega arith in
              ap r (sym place)
              ∙ rest (i - nb) (omega arith)
              ∙ ap (λ (k : ℕ). file_byte content fstart k) off
        ],
        λ x out away.
            kept x (ground (arith, out, le)) away
            ∙ (copied x).1 (ground (arith, out, le))
            ∙ (from_disk x).1 away,
      )

  -- With as much fuel as there are bytes `__k_readfile` ends, and has put the bytes of the file from an
  -- offset on at their place, as the disk has them in the sectors of the file. Nothing else is changed
  -- but the buffer of a sector. The sector numbers have 28 bits, and the place, which does not meet
  -- that buffer, and the offset end below 2 ^ 32.
  pub k_readfile-IsRead :
      (fuel dst fstart foff fsize : ℕ) (m : Memory)
      → fsize ≤ fuel
      → dst + fsize < 2 ^ 32
      → foff + fsize < 2 ^ 32
      → fstart + (foff + fsize) / 512 < 2 ^ 28
      → (dst + fsize ≤ sector_data) ⊎ (sector_data + 512 ≤ dst)
      → IsRead content dst fstart foff fsize m (k_readfile disk fuel dst fstart foff fsize m)
  unfolding k_readfile
  k_readfile-IsRead zero dst fstart foff fsize m enough end o s apart =
      (λ i lt. absurd (omega arith), λ x a b. refl)
  k_readfile-IsRead (suc fuel) dst fstart foff fsize m enough end o s apart =
      let nb = if ltb fsize (512 - foff % 512) then fsize else 512 - foff % 512 in
      elim (Bool-cases (fsize == 0)) [
        | inl none_left ↦
            rw none_left (λ i lt. absurd (ground (arith, none_left, lt)), λ x a b. refl)
        | inr some_left ↦
            let size : 0 < fsize = ground (arith, some_left) in
            let bounds : (0 < nb) × (nb ≤ fsize) × (nb ≤ 512 - foff % 512) = ground (arith, size) in
            let w1 : u32 (dst + nb) ≡ dst + nb = omega (arith, bounds) in
            let w2 : u32 (foff + nb) ≡ foff + nb = omega (arith, bounds) in
            let m1 = read_disk disk sector_data (u32 (fstart + foff / 512)) m in
            let m2 = copy_bytes nb 0 dst (sector_data + foff % 512) m1 in
            rw (some_left, w1, w2)
              (IsRead-round nb dst fstart foff fsize m
                (k_readfile disk fuel (dst + nb) fstart (foff + nb) (fsize - nb) m2) bounds.1
                bounds.2 s apart
                (k_readfile-IsRead fuel (dst + nb) fstart (foff + nb) (fsize - nb) m2
                  (omega (arith, bounds)) (omega (arith, bounds)) (omega (arith, bounds))
                  (omega (arith, bounds)) (ground (arith, bounds, apart))))
      ]
