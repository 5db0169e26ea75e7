-- ===== src/Loader/Program.antt =====
-- The loop of bootloader/vmlinux.c over the program headers.
use linux_util.Common.{
  ℕ, zero, suc, ◌+◌, ◌-◌, ◌*◌, ◌/◌, ◌%◌, ◌^◌, ◌≡◌, ◌≤◌, ◌<◌, ◌⊎◌, refl, sym, ◌∙◌, arith, inl, inr,
  Bool-cases, u32, ◌==◌, if◌then◌else◌,
}
use mathlib.Core.Path.{subst}
use linux_util.Memory.{Memory}
use linux_util.Loader.{
  sector_data, Written, read_disk, Phdr, phdr_at, phdr_size, is_loaded, load_segment, load_segments,
}
use linux_util.Loader.Disk.{IsDisk, file_byte, read_disk-sector}
use linux_util.Loader.Segments.{
  Loadable, Loadable-is_loaded, is_loaded-Loadable, phdr_at-ext, Outside, IsHeader, offset_of,
  IsLoaded, header, IsExecutable, load_segment-IsLoaded,
}

module _ {disk : Written → ℕ → ℕ} {content : (sector i : ℕ) → ℕ} (d : IsDisk disk content)
    {sector data_buf phoff n : ℕ} (x : IsExecutable content sector data_buf phoff n) where
  abbrev pub off : ℕ → ℕ
  off j = offset_of phoff j

  abbrev pub hdr : ℕ → Phdr
  hdr j = header content sector phoff j

  -- Every header is in a sector of the file.
  before_end : (j : ℕ) → j < n → sector + off j / 512 < 2 ^ 28
  before_end j lt = let s = x.sectors in omega arith

  -- The headers are read as they are in the file.
  header-read :
      (j : ℕ) (m : Memory)
      → j < n
      → phdr_at (data_buf + off j % 512) (read_disk disk data_buf (sector + off j / 512) m) ≡ hdr j
  header-read j m lt =
      let whole = x.whole j lt in
      let sectors = x.sectors in
      let at = off j in
      phdr_at-ext (data_buf + at % 512) at _ (file_byte content sector) (λ i p.
        let inside : data_buf + at % 512 + i - data_buf ≡ at % 512 + i = omega arith in
        let e1 : (at + i) / 512 ≡ at / 512 = omega (arith, whole) in
        let e2 : (at + i) % 512 ≡ at % 512 + i = omega (arith, whole) in
        (read_disk-sector d data_buf (sector + at / 512) m (data_buf + at % 512 + i)
            (before_end j lt)).0
          (omega arith) (omega (arith, whole))
        ∙ rw (inside, e1, e2) refl)

  abbrev pub Away : (i y : ℕ) → Type 0
  Away i y =
      ((j : ℕ) → i ≤ j → j < n → Loadable (hdr j) → Outside (hdr j) y)
      × ((y < data_buf) ⊎ (data_buf + 512 ≤ y))
      × ((y < sector_data) ⊎ (sector_data + 512 ≤ y))

  unfoldable pub AllLoaded : (i : ℕ) → (m m' : Memory) → Type 0
  AllLoaded i m m' =
      ((j : ℕ) → i ≤ j → j < n → Loadable (hdr j) → IsLoaded content sector (hdr j) m')
      × ((y : ℕ) → Away i y → m' y ≡ m y)

  -- A byte of one segment is in no other and in no array.
  own-Away :
      (i y : ℕ)
      → i < n
      → Loadable (hdr i)
      → (hdr i).p_paddr ≤ y
      → y < (hdr i).p_paddr + (hdr i).p_memsz
      → Away (suc i) y
  own-Away i y lt l lo hi =
      let stack = x.stack i lt l in
      let apart = (x.fits i lt l).apart in
      (
        λ j above below l'.
            let d = x.disjoint i j lt below (omega arith) l l' in ground (arith, d, lo, hi),
        ground (arith, stack, lo, hi),
        ground (arith, apart, lo, hi),
      )

  unfoldable step : (i : ℕ) → Memory → Memory
  step i m =
      if is_loaded (phdr_at (data_buf + off i % 512) m)
      then load_segment disk sector (data_buf + off i % 512) m
      else m

  -- The header stays where it was read while its segment is loaded.
  loads :
      (i : ℕ) (m : Memory)
      → i < n
      → phdr_at (data_buf + off i % 512) m ≡ hdr i
      → (l : Loadable (hdr i)) → IsHeader (hdr i) (data_buf + off i % 512) m
  loads i m lt e l =
      let whole = x.whole i lt in
      let stack = x.stack i lt l in
      let buffers = x.buffers in
      record {
        stored = e;
        off_segment = ground (arith, stack, whole);
        off_buffer = ground (arith, buffers, whole);
      }

  step-IsLoaded :
      (i : ℕ) (m : Memory)
      → i < n
      → phdr_at (data_buf + off i % 512) m ≡ hdr i
      → Loadable (hdr i)
      → IsLoaded content sector (hdr i) (step i m)
  unfolding step
  step-IsLoaded i m lt e l =
      rw (e, Loadable-is_loaded (hdr i) l)
        (load_segment-IsLoaded d sector (hdr i) (data_buf + off i % 512) m (x.fits i lt l)
          (loads i m lt e l)).0

  step-kept :
      (i : ℕ) (m : Memory) (y : ℕ)
      → i < n
      → phdr_at (data_buf + off i % 512) m ≡ hdr i
      → Away i y
      → step i m y ≡ m y
  unfolding step
  step-kept i m y lt e (out, _, away) = elim (Bool-cases (is_loaded (hdr i))) [
    | inl set ↦
        let l = is_loaded-Loadable (hdr i) set in
        rw (e, set)
          ((load_segment-IsLoaded d sector (hdr i) (data_buf + off i % 512) m (x.fits i lt l)
              (loads i m lt e l)).1
            y (out i (omega arith) lt l) away)
    | inr skipped ↦ rw (e, skipped) refl
  ]

  -- What is in memory stays there during the later steps.
  IsLoaded-kept :
      (i : ℕ) (m m' : Memory)
      → i < n
      → Loadable (hdr i)
      → ((y : ℕ) → Away (suc i) y → m' y ≡ m y)
      → IsLoaded content sector (hdr i) m
      → IsLoaded content sector (hdr i) m'
  IsLoaded-kept i m m' lt l kept (read, zeros) =
      let grows = (x.fits i lt l).grows in
      let p = (hdr i).p_paddr in
      (
        λ k below.
            kept (p + k) (own-Away i (p + k) lt l (omega arith) (omega (arith, grows)))
            ∙ read k below,
        λ k lo hi.
            kept (p + k) (own-Away i (p + k) lt l (omega arith) (omega arith)) ∙ zeros k lo hi,
      )

  AllLoaded-step :
      (i : ℕ) (m m1 m' : Memory)
      → i < n
      → phdr_at (data_buf + off i % 512) m1 ≡ hdr i
      → ((y : ℕ) → (y < data_buf) ⊎ (data_buf + 512 ≤ y) → m1 y ≡ m y)
      → AllLoaded (suc i) (step i m1) m'
      → AllLoaded i m m'
  unfolding AllLoaded
  AllLoaded-step i m m1 m' lt same read (rest, kept) = (
    λ j lo hi l. elim (Bool-cases (j == i)) [
      | inr later ↦ rest j (ground (arith, later, lo)) hi l
      | inl now ↦
          let e : j ≡ i = ground (arith, now) in
          let l' : Loadable (hdr i) = subst (λ t. Loadable (hdr t)) e l in
          subst (λ t. IsLoaded content sector (hdr t) m') (sym e)
            (IsLoaded-kept i (step i m1) m' lt l' kept (step-IsLoaded i m1 lt same l'))
    ],
    λ y (out, off_stack, away).
        kept y (λ j lo hi l. out j (omega arith) hi l, off_stack, away)
        ∙ step-kept i m1 y lt same (out, off_stack, away)
        ∙ read y off_stack,
  )

  pub load_segments-AllLoaded :
      (left i : ℕ) (m : Memory)
      → i + left ≡ n
      → AllLoaded i m (load_segments disk left i data_buf sector phoff m)
  unfolding load_segments AllLoaded step
  load_segments-AllLoaded zero i m e = (λ j lo hi l. absurd (omega arith), λ y away. refl)
  load_segments-AllLoaded (suc left) i m e =
      let o = x.offsets in
      let s = x.sectors in
      let lt : i < n = omega arith in
      let w1 : u32 (phoff + i * phdr_size) ≡ off i = omega arith in
      let w2 : u32 (sector + off i / 512) ≡ sector + off i / 512 = omega arith in
      let m1 = read_disk disk data_buf (sector + off i / 512) m in
      rw (w1, w2)
        (AllLoaded-step i m m1 _ lt (header-read i m lt)
          (λ y off_stack.
            (read_disk-sector d data_buf (sector + off i / 512) m y (before_end i lt)).1 off_stack)
          (load_segments-AllLoaded left (suc i) (step i m1) (omega arith)))

  -- What the loop gives to its caller.
  pub AllLoaded_lem :
      (m m' : Memory)
      → AllLoaded 0 m m'
      → ((j : ℕ) → j < n → Loadable (hdr j) → IsLoaded content sector (hdr j) m')
        × ((y : ℕ) → Away 0 y → m' y ≡ m y)
  unfolding AllLoaded
  AllLoaded_lem m m' (all, kept) = (λ j lt l. all j (omega arith) lt l, kept)
