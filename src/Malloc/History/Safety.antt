-- ===== src/Malloc/History/Safety.antt =====
-- What a program may rely on in tlibc/malloc.c, whatever calls it has made.
use linux_util.Common.{
  ℕ, ◌+◌, ◌-◌, ◌*◌, ◌/◌, ◌%◌, ◌≡◌, ◌≢◌, ◌≤◌, ◌<◌, ◌⊎◌, refl, sym, ap, ◌∙◌, arith, Bool, Bool-cases,
  true, inl, inr, ◌==◌, Option, none, some, List, ◌∷◌,
}
use mathlib.Core.Path.{subst}
use linux_util.Malloc.{Heap, Unmapped, block_to_page, page_size}
use linux_util.Malloc.Api.{mymalloc, myfree, Reallocated, myrealloc}
use linux_util.Malloc.Ghost.{Ghost, Owner, unowned, small, large, tail}
use linux_util.Malloc.Ghost.Apart.{in_slot, in_pages, extent, Extent-aligned, capacity-apart}
use linux_util.Malloc.History.{
  Event, malloc, free, realloc, put, drop, asked, IsPassable, World, unmap, IsMmap, IsSize, Run,
  begin, call_malloc, call_free, call_realloc,
}
use linux_util.Malloc.History.Refine.{
  Agrees, Agrees-ext, boot-Agrees, malloc-Agrees, free-Agrees, null-unasked, in_use,
}
use linux_util.Malloc.History.Resize.{resized, Carries, realloc-Agrees, realloc-null-Agrees}

-- The heap is well formed and has in use what was asked for, on mapped pages.
abbrev pub Held : List Event → World → Type 0
Held es w = (g : Ghost) × Agrees (asked es) w g

abbrev FreedHeld : List Event → (ℕ → Bool) → ℕ → Option (Heap × Unmapped) → Type 0
FreedHeld es mapped pt none = Unit
FreedHeld es mapped pt (some (h, u)) =
    Held (free pt ∷ es) (record { heap = h; mapped = unmap mapped u })

abbrev ResizedHeld : List Event → (ℕ → Bool) → (pt size : ℕ) → Option Reallocated → Type 0
ResizedHeld es mapped pt size none = Unit
ResizedHeld es mapped pt size (some r) =
    Held (realloc pt size r.pointer ∷ es)
      (record { heap = r.heap; mapped = unmap mapped r.unmapped })

asked-malloc :
    (es : List Event) (size r p : ℕ) → asked (malloc size r ∷ es) p ≡ put (asked es) size r p
unfolding asked
asked-malloc es size r p = refl

asked-free : (es : List Event) (pt p : ℕ) → asked (free pt ∷ es) p ≡ drop (asked es) pt p
unfolding asked
asked-free es pt p = refl

asked-realloc :
    (es : List Event) (pt size r p : ℕ)
    → asked (realloc pt size r ∷ es) p ≡ resized (asked es) pt size r p
unfolding asked
asked-realloc es pt size r p = refl

free-Held :
    (es : List Event) (w : World) (h : Heap) (u : Unmapped)
    → Held es w
    → (pt : ℕ) → IsPassable es pt
    → myfree pt w.heap ≡ some (h, u)
    → Held (free pt ∷ es) (record { heap = h; mapped = unmap w.mapped u })
unfolding myfree
free-Held es w h u (g, s) pt (inl null) e =
    let at_null : (pt == 0) ≡ true = ground (arith, null) in
    let stays : myfree pt w.heap ≡ some (w.heap, none) = rw at_null refl in
    let unasked = null-unasked s in
    let same : (p : ℕ) → asked (free pt ∷ es) p ≡ asked es p =
      λ p. asked-free es pt p ∙ rw null (ground (arith, unasked)) in
    subst (λ o. FreedHeld es w.mapped pt o) (sym stays ∙ e) (g, Agrees-ext s same)
free-Held es w h u (g, s) pt (inr (size, live)) e =
    let (h', u', g', done, s') = free-Agrees s pt size live in
    subst (λ o. FreedHeld es w.mapped pt o) (sym done ∙ e) (g', Agrees-ext s' (asked-free es pt))

realloc-Held :
    (es : List Event) (w : World) (mmap : ℕ → Option ℕ) (mapped : ℕ → Bool) (r : Reallocated)
    → Held es w
    → IsMmap mmap w.mapped mapped
    → (pt size : ℕ) → IsPassable es pt
    → IsSize size
    → myrealloc mmap pt size w.heap ≡ some r
    → Held
        (realloc pt size r.pointer ∷ es)
        (record { heap = r.heap; mapped = unmap mapped r.unmapped })
realloc-Held es w mmap mapped r (g, s) m pt size (inl null) bound e =
    let (r', g', done, s') = realloc-null-Agrees s m size bound in
    let e' : myrealloc mmap 0 size w.heap ≡ some r =
      ap (λ t. myrealloc mmap t size w.heap) (sym null) ∙ e in
    subst (λ o. ResizedHeld es mapped pt size o) (sym done ∙ e')
      (g', Agrees-ext s' (λ p. asked-realloc es pt size r'.pointer p ∙ rw null refl))
realloc-Held es w mmap mapped r (g, s) m pt size (inr (old, live)) bound e =
    let (r', g', done, s', carries) = realloc-Agrees s m pt size bound old live in
    subst (λ o. ResizedHeld es mapped pt size o) (sym done ∙ e)
      (g', Agrees-ext s' (asked-realloc es pt size r'.pointer))

-- Whatever calls a program has made, the lists and headers of the heap are well formed, each address
-- that it has asked for and not given back has at least that many bytes in use, no other address has
-- any, and each page of the heap is mapped.
pub Run-Held : {es : List Event} {w : World} → Run es w → Held es w
unfolding asked
Run-Held begin = (_, Agrees-ext boot-Agrees (λ p. refl))
Run-Held (call_malloc {es} {w} {mmap} {mapped} run m size bound) =
    let (g, s) = Run-Held run in
    let (g', s', new, fails) = malloc-Agrees s m size bound in
    (g', Agrees-ext s' (asked-malloc es size (mymalloc mmap size w.heap).0))
Run-Held (call_free {es} {w} {h} {u} run pt ok e) = free-Held es w h u (Run-Held run) pt ok e
Run-Held (call_realloc {es} {w} {mmap} {mapped} {r} run m pt size ok bound e) =
    realloc-Held es w mmap mapped r (Run-Held run) m pt size ok bound e

-- Whatever calls a program has made, the ranges of bytes that it has asked for at two addresses and
-- not given back do not overlap.
pub Run-apart :
    {es : List Event} {w : World}
    → Run es w
    → (p q m n : ℕ) → asked es p ≡ some m
    → asked es q ≡ some n
    → p ≢ q
    → (p + m ≤ q) ⊎ (q + n ≤ p)
Run-apart run p q m n ep eq ne =
    let (g, s) = Run-Held run in
    let (c, sp, mc, _) = in_use s p m ep in
    let (d, sq, nd, _) = in_use s q n eq in
    elim (capacity-apart s.heap p q c d sp sq ne) [
      | inl left ↦ inl (omega (arith, left, mc))
      | inr right ↦ inr (omega (arith, right, nd))
    ]

owned-mapped :
    (w : World) (g : Ghost) (f : ℕ → Option ℕ)
    → Agrees f w g
    → (q : ℕ) (o : Owner) → g.owner q ≡ o
    → o ≢ unowned
    → w.mapped q ≡ true
owned-mapped w g f s q o e ne = elim (Bool-cases (w.mapped q)) [
  | inl there ↦ there
  | inr gone ↦ absurd (ne (sym e ∙ s.pages q gone))
]

-- Whatever calls a program has made, each byte that it may use is on a page that the system has
-- mapped and not taken back.
pub Run-mapped :
    {es : List Event} {w : World}
    → Run es w
    → (p size j : ℕ) → asked es p ≡ some size
    → j < size
    → w.mapped (block_to_page (p + j)) ≡ true
Run-mapped {es} {w} run p size j e lt =
    let (g, s) = Run-Held run in
    let (c, sp, le, _) = in_use s p size e in
    elim (extent s.heap p c sp) [
      | in_slot i owned pos width mult fits ↦
          let same : block_to_page (p + j) ≡ block_to_page p = omega (arith, fits, le, lt) in
          owned-mapped w g (asked es) s (block_to_page (p + j)) (small i) (ap g.owner same ∙ owned)
            (λ t. cc t)
      | in_pages n owned off room whole ↦
          let k = block_to_page (p + j) / page_size - p / page_size in
          let place : block_to_page (p + j) ≡ block_to_page p + page_size * k = omega arith in
          elim (Bool-cases (k == 0)) [
            | inl first ↦
                let same : block_to_page (p + j) ≡ block_to_page p = ground (arith, first, place) in
                owned-mapped w g (asked es) s (block_to_page (p + j)) (large n)
                  (ap g.owner same ∙ owned) (λ t. cc t)
            | inr later ↦
                let inside : k < n = omega (arith, room, off, le, lt) in
                owned-mapped w g (asked es) s (block_to_page (p + j)) (tail (block_to_page p))
                  (ap g.owner place ∙ whole k (ground (arith, later)) inside) (λ t. cc t)
          ]
    ]

-- Whatever calls a program has made, an address that it may use is a multiple of 16.
pub Run-aligned :
    {es : List Event} {w : World} → Run es w → (p size : ℕ) → asked es p ≡ some size → p % 16 ≡ 0
Run-aligned run p size e =
    let (g, s) = Run-Held run in
    let (c, sp, mc, _) = in_use s p size e in Extent-aligned s.heap p c (extent s.heap p c sp)

-- Whatever calls a program has made, `mymalloc` gives null only where `mmap` fails, or an address at
-- which the program has nothing.
pub malloc-fresh :
    {es : List Event} {w : World} {mmap : ℕ → Option ℕ} {mapped : ℕ → Bool}
    → Run es w
    → IsMmap mmap w.mapped mapped
    → (size : ℕ) → IsSize size
    → (let p = (mymalloc mmap size w.heap).0 in
        ((p ≡ 0) × ((bytes : ℕ) × (mmap bytes ≡ none))) ⊎ ((p ≢ 0) × (asked es p ≡ none)))
malloc-fresh {es} {w} {mmap} run m size bound =
    let (g, s) = Run-Held run in
    let (g', s', new, fails) = malloc-Agrees s m size bound in
    elim (Bool-cases ((mymalloc mmap size w.heap).0 == 0)) [
      | inl null ↦
          let e : (mymalloc mmap size w.heap).0 ≡ 0 = ground (arith, null) in inl (e, fails e)
      | inr some_block ↦
          let ne : (mymalloc mmap size w.heap).0 ≢ 0 = ground (arith, some_block) in
          inr (ne, new ne)
    ]

-- Whatever calls a program has made, `myfree` does not abort on null or on an address that it may use.
pub free-accepts :
    {es : List Event} {w : World}
    → Run es w
    → (pt : ℕ) → IsPassable es pt
    → (h : Heap) × (u : Unmapped) × (myfree pt w.heap ≡ some (h, u))
unfolding myfree
free-accepts {es} {w} run pt (inl null) =
    let at_null : (pt == 0) ≡ true = ground (arith, null) in (w.heap, none, rw at_null refl)
free-accepts run pt (inr (size, live)) =
    let (g, s) = Run-Held run in
    let (h, u, g', done, s') = free-Agrees s pt size live in (h, u, done)

-- Whatever calls a program has made, `myrealloc` does not abort on an address that the program may
-- use. Where the block moves, at least the bytes asked for there are copied, and no more than the
-- new size; else the pointer is null or the old one.
pub realloc-Carries :
    {es : List Event} {w : World} {mmap : ℕ → Option ℕ} {mapped : ℕ → Bool}
    → Run es w
    → IsMmap mmap w.mapped mapped
    → (pt old size : ℕ) → asked es pt ≡ some old
    → IsSize size
    → (r : Reallocated) × (myrealloc mmap pt size w.heap ≡ some r) × Carries pt old size r
realloc-Carries run m pt old size live bound =
    let (g, s) = Run-Held run in
    let (r, g', done, s', carries) = realloc-Agrees s m pt size bound old live in (r, done, carries)
