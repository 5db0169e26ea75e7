-- ===== src/Malloc/History/Resize.antt =====
-- `myrealloc` of tlibc/malloc.c after any calls of a program.
use linux_util.Common.{
  ℕ, ◌≡◌, ◌≢◌, ◌≤◌, ◌<◌, ◌⊎◌, refl, sym, ap, ◌∙◌, arith, Bool, Bool-cases, false, inl, inr, ◌==◌,
  leb, if◌then◌else◌, Option, none, some, sub64,
}
use linux_util.Malloc.{block_to_page, alloc_size, header_bytes}
use linux_util.Malloc.Api.{mymalloc, Reallocated, move_block, myrealloc}
use linux_util.Malloc.Ghost.{Ghost, used, bytes_in, capacity}
use linux_util.Malloc.Ghost.Apart.{in_slot, in_pages, extent}
use linux_util.Malloc.History.{put, drop, World, unmap, IsMmap, IsSize}
use linux_util.Malloc.History.Refine.{
  Agrees, Agrees-ext, malloc-Agrees, free-Agrees, null-unused, null-unasked, in_use, before,
}

abbrev pub resized : (ℕ → Option ℕ) → (pt size r : ℕ) → ℕ → Option ℕ
resized f pt size r p = if r == 0 then f p else put (drop f pt) size r p

-- A block that moves takes all bytes that were asked for along, and they fit into the new one.
abbrev pub Carries : (pt old size : ℕ) → Reallocated → Type 0
Carries pt old size r = elim r.copied [
  | none ↦ (r.pointer ≡ 0) ⊎ (r.pointer ≡ pt)
  | some (dst, src, n) ↦ (dst ≡ r.pointer) × (src ≡ pt) × (old ≤ n) × (n ≤ size)
]

module _ {f : ℕ → Option ℕ} {w : World} {g : Ghost} (s : Agrees f w g) {mmap : ℕ → Option ℕ}
    {mapped : ℕ → Bool} (m : IsMmap mmap w.mapped mapped) (pt size : ℕ) (bound : IsSize size) where
  abbrev After : (old : ℕ) → Option Reallocated → Type 0
  After old o =
      (r : Reallocated) × (g' : Ghost) × (o ≡ some r)
      × Agrees (resized f pt size r.pointer)
          (record { heap = r.heap; mapped = unmap mapped r.unmapped }) g'
      × Carries pt old size r

  -- A block that is in use for `old` bytes moves to a new one, or stays where there is no memory.
  move_block-Agrees :
      (old room : ℕ)
      → f pt ≡ some old
      → old ≤ room
      → room ≤ size
      → After old (move_block mmap pt room size w.heap)
  unfolding move_block
  move_block-Agrees old room e le small =
      let (g1, s1, new, fails) = malloc-Agrees s m size bound in
      let r = mymalloc mmap size w.heap in
      elim (Bool-cases (r.0 == 0)) [
        | inl null ↦
            let f1 = put f size r.0 in
            let same : (p : ℕ) → f p ≡ f1 p = λ p. rw null refl in
            rw null (
              record { pointer = 0; heap = r.1; copied = none; unmapped = none },
              g1,
              refl,
              Agrees-ext s1 same,
              inl refl,
            )
        | inr moved ↦
            let ne : pt ≢ r.0 = λ t. cc (e, ap f t, new (ground (arith, moved))) in
            let apart : (pt == r.0) ≡ false = ground (arith, ne) in
            let (h2, u, g2, done, s2) = free-Agrees s1 pt old (rw (moved, apart) e) in
            let same : (p : ℕ) → resized f pt size r.0 p ≡ drop (put f size r.0) pt p =
              λ p. ground (arith, moved, ne) in
            rw (moved, done)
              (
                record { pointer = r.0; heap = h2; copied = some (r.0, pt, room); unmapped = u },
                g2,
                refl,
                Agrees-ext s2 same,
                (refl, refl, le, small),
              )
      ]

  -- A block that is large enough stays.
  stay-Agrees :
      (old c : ℕ)
      → f pt ≡ some old
      → g.status pt ≡ used c
      → size ≤ c
      → 0 < c
      → After old (some (record { pointer = pt; heap = w.heap; copied = none; unmapped = none }))
  stay-Agrees old c e st room pos =
      let here : capacity g pt ≡ c = ap bytes_in st in
      let nonnull : (pt == 0) ≡ false = elim (Bool-cases (pt == 0)) [
        | inr other ↦ other
        | inl null ↦
            let at_null : pt ≡ 0 = ground (arith, null) in
            absurd (omega (arith, here, ap (capacity g) at_null, null-unused s))
      ] in
      (
        record { pointer = pt; heap = w.heap; copied = none; unmapped = none },
        g,
        refl,
        record {
          heap = s.heap;
          pages = λ q gone. s.pages q (before s m q gone);
          covers = λ p. elim (Bool-cases (p == pt)) [
            | inl same ↦
                let at_pt : p ≡ pt = ground (arith, same) in
                rw (nonnull, same)
                  (let n = ap (capacity g) at_pt ∙ here in (omega (arith, n), omega (arith, n)))
            | inr away ↦ rw (nonnull, away) (s.covers p)
          ];
        },
        inr refl,
      )

  pub realloc-Agrees : (old : ℕ) → f pt ≡ some old → After old (myrealloc mmap pt size w.heap)
  unfolding myrealloc
  realloc-Agrees old e =
      let (c, st, le, some_bytes) = in_use s pt old e in
      let p = block_to_page pt in
      elim (extent s.heap pt c st) [
        | in_slot i owned pos width mult fits ↦
            let own = s.heap.smalls p i owned in
            let null : (pt == 0) ≡ false = ground (arith, own.nonnull) in
            let room : (w.heap.arena i).block_size ≡ c = s.heap.sizes i own.cache ∙ sym width in
            elim (Bool-cases (leb size c)) [
              | inl stays ↦
                  rw (null, own.are, room, stays)
                    (stay-Agrees old c e st (ground (arith, stays)) some_bytes)
              | inr moves ↦
                  rw (null, own.are, room, moves)
                    (move_block-Agrees old c e le (ground (arith, moves)))
            ]
        | in_pages n owned off fits whole ↦
            let own = s.heap.larges p n owned in
            let null : (pt == 0) ≡ false = ground (arith, own.nonnull) in
            let room : sub64 (alloc_size (w.heap.page p)) header_bytes ≡ c =
              omega (arith, own.pages, own.width) in
            elim (Bool-cases (leb size c)) [
              | inl stays ↦
                  rw (null, own.are, room, stays)
                    (stay-Agrees old c e st (ground (arith, stays)) some_bytes)
              | inr moves ↦
                  rw (null, own.are, room, moves)
                    (move_block-Agrees old c e le (ground (arith, moves)))
            ]
      ]

module _ {f : ℕ → Option ℕ} {w : World} {g : Ghost} (s : Agrees f w g) {mmap : ℕ → Option ℕ}
    {mapped : ℕ → Bool} (m : IsMmap mmap w.mapped mapped) (size : ℕ) (bound : IsSize size) where
  -- Null is a call of `mymalloc`.
  pub realloc-null-Agrees :
      (r : Reallocated) × (g' : Ghost) × (myrealloc mmap 0 size w.heap ≡ some r)
      × Agrees
          (resized f 0 size r.pointer)
          (record { heap = r.heap; mapped = unmap mapped r.unmapped })
          g'
  unfolding myrealloc
  realloc-null-Agrees =
      let (g1, s1, new, fails) = malloc-Agrees s m size bound in
      let r = mymalloc mmap size w.heap in
      let unasked = null-unasked s in
      let same : (p : ℕ) → resized f 0 size r.0 p ≡ put f size r.0 p =
        λ p. ground (arith, unasked) in
      (
        record { pointer = r.0; heap = r.1; copied = none; unmapped = none },
        g1,
        refl,
        Agrees-ext s1 same,
      )
