-- ===== src/Malloc/History/Refine.antt =====
-- The heap and the mapped pages agree with the sizes that were asked for.
use linux_util.Common.{
  ℕ, ◌+◌, ◌-◌, ◌*◌, ◌/◌, ◌≡◌, ◌≢◌, ◌≤◌, ◌<◌, ◌⊎◌, refl, sym, ap, ◌∙◌, arith, Bool, Bool-cases,
  false, inl, inr, ◌==◌, Option, none, some,
}
use mathlib.Core.Path.{subst}
use linux_util.Malloc.{Heap, Unmapped, page_size}
use linux_util.Malloc.Api.{mymalloc, myfree}
use linux_util.Malloc.Ghost.{
  Ghost, Status, absent, in_arena, in_page, used, unowned, IsHeap, capacity, bytes_in, Chain,
}
use linux_util.Malloc.Ghost.Apart.{in_slot, in_pages, extent}
use linux_util.Malloc.Ghost.Alloc.{MapsNew, Outcome, refused, given, mymalloc-Outcome}
use linux_util.Malloc.Ghost.Unmap.{is_page_of}
use linux_util.Malloc.Ghost.Idle.{Gone}
use linux_util.Malloc.Ghost.Free.{myfree-Freed}
use linux_util.Malloc.History.{put, drop, World, boot, unmap, IsMmap, IsSize}

-- What is asked for at an address is no more than what is in use there.
abbrev pub Covers : Option ℕ → ℕ → Type 0
Covers none c = c ≡ 0
Covers (some size) c = (0 < c) × (size ≤ c)

pub record Agrees (f : ℕ → Option ℕ) (w : World) (g : Ghost) : Type 0 where
  pub heap : IsHeap w.heap g
  pub pages : (q : ℕ) → w.mapped q ≡ false → g.owner q ≡ unowned
  pub covers : (p : ℕ) → Covers (f p) (capacity g p)

pub Agrees-ext :
    {f f' : ℕ → Option ℕ} {w : World} {g : Ghost}
    → Agrees f w g
    → ((p : ℕ) → f' p ≡ f p)
    → Agrees f' w g
Agrees-ext {f} {f'} {w} {g} s e = record {
  heap = s.heap;
  pages = s.pages;
  covers = λ p. subst (λ t. Covers t (capacity g p)) (sym (e p)) (s.covers p);
}

pub used-of : (s : Status) → 0 < bytes_in s → (c : ℕ) × (s ≡ used c)
used-of absent pos = absurd (omega arith)
used-of (in_arena k) pos = absurd (omega arith)
used-of (in_page k) pos = absurd (omega arith)
used-of (used c) pos = (c, refl)

abbrev pub nowhere : Ghost
nowhere = record { status = λ b. absent; owner = λ q. unowned }

pub boot-Agrees : Agrees (λ p. none) boot nowhere
unfolding Chain
boot-Agrees = record {
  heap = record {
    sizes = λ i lt. refl;
    fits = λ b. tt;
    caches = λ i lt. (0, refl);
    idle = λ i lt ne. absurd (ne refl);
    smalls = λ p i o. absurd (cc o);
    larges = λ p n o. absurd (cc o);
  };
  pages = λ q e. refl;
  covers = λ p. refl;
}

module _ {f : ℕ → Option ℕ} {w : World} {g : Ghost} (s : Agrees f w g) where
  -- Null is not in use.
  pub null-unused : capacity g 0 ≡ 0
  null-unused = elim (Bool-cases (capacity g 0 == 0)) [
    | inl free ↦ ground (arith, free)
    | inr in_use ↦
        let (c, e) = used-of (g.status 0) (ground (arith, in_use)) in
        elim (extent s.heap 0 c e) [
          | in_slot i owned pos size mult room ↦ absurd ((s.heap.smalls 0 i owned).nonnull refl)
          | in_pages n owned off room whole ↦ absurd ((s.heap.larges 0 n owned).nonnull refl)
        ]
  ]

  pub null-unasked : f 0 ≡ none
  null-unasked = unasked (f 0) (s.covers 0)
    where
      unasked : (o : Option ℕ) → Covers o (capacity g 0) → o ≡ none
      unasked none c = refl
      unasked (some size) c = absurd (omega (arith, c.0, null-unused))

  module _ {mmap : ℕ → Option ℕ} {mapped : ℕ → Bool} (m : IsMmap mmap w.mapped mapped) where
    pub maps : MapsNew mmap g
    maps = record {
      nonnull = m.nonnull;
      aligned = m.aligned;
      new = λ bytes a j e lt. s.pages (a + page_size * j) (m.new bytes a j e lt).0;
    }

    pub before : (q : ℕ) → mapped q ≡ false → w.mapped q ≡ false
    before q e = elim (Bool-cases (w.mapped q)) [
      | inl was ↦ absurd (cc (e, m.kept q was))
      | inr not_yet ↦ not_yet
    ]

    -- A block that was free is in use after the call, or the call gave null.
    Outcome-Agrees :
        (size : ℕ) (r : ℕ × Heap)
        → Outcome mmap g size r
        → (g' : Ghost) × Agrees (put f size r.0) (record { heap = r.1; mapped = mapped }) g'
          × (r.0 ≢ 0 → f r.0 ≡ none)
          × (r.0 ≡ 0 → (bytes : ℕ) × (mmap bytes ≡ none))
    Outcome-Agrees size (r, h) (refused bytes failed null inv) = (
      g,
      record {
        heap = inv;
        pages = λ q e. s.pages q (before q e);
        covers = λ p. rw null (s.covers p);
      },
      λ ne. absurd (ne null),
      λ e. (bytes, failed),
    )
    Outcome-Agrees size (r, h) (given g' nonnull inv al owners) =
        let some_block : (r == 0) ≡ false = ground (arith, nonnull) in
        (
          g',
          record {
            heap = inv;
            pages = λ q e. elim (owners q) [
              | inl same ↦ same ∙ s.pages q (before q e)
              | inr (bytes, a, j, mapped_at, lt, place) ↦
                  absurd (cc (e, ap mapped place, (m.new bytes a j mapped_at lt).1))
            ];
            covers = λ p. elim (Bool-cases (p == r)) [
              | inl here ↦
                  let e : p ≡ r = ground (arith, here) in
                  rw (some_block, here)
                    (subst (λ t. (0 < capacity g' t) × (size ≤ capacity g' t)) (sym e)
                      (al.in_use, al.enough))
              | inr away ↦
                  rw (some_block, away)
                    (subst (λ c. Covers (f p) c) (sym (al.others p (ground (arith, away))))
                      (s.covers p))
            ];
          },
          λ ne. unasked (f r) (s.covers r) al.was_free,
          λ e. absurd (nonnull e),
        )
      where
        unasked : (o : Option ℕ) → Covers o (capacity g r) → capacity g r ≡ 0 → o ≡ none
        unasked none c e = refl
        unasked (some size) c e = absurd (omega (arith, c.0, e))

    pub malloc-Agrees :
        (size : ℕ)
        → IsSize size
        → (let r = mymalloc mmap size w.heap in
            (g' : Ghost) × Agrees (put f size r.0) (record { heap = r.1; mapped = mapped }) g'
            × (r.0 ≢ 0 → f r.0 ≡ none)
            × (r.0 ≡ 0 → (bytes : ℕ) × (mmap bytes ≡ none)))
    malloc-Agrees size bound =
        Outcome-Agrees size _ (mymalloc-Outcome mmap w.heap g s.heap maps size bound)

  pub in_use :
      (pt size : ℕ) → f pt ≡ some size → (c : ℕ) × (g.status pt ≡ used c) × (size ≤ c) × (0 < c)
  in_use pt size e =
      let room = subst (λ o. Covers o (capacity g pt)) e (s.covers pt) in
      let (c, st) = used-of (g.status pt) room.0 in
      (c, st, omega (arith, room, ap bytes_in st), omega (arith, room, ap bytes_in st))

  Gone-pages :
      (g' : Ghost) (u : Unmapped)
      → Gone g' u
      → ((q : ℕ) → (g'.owner q ≡ g.owner q) ⊎ (g'.owner q ≡ unowned))
      → (q : ℕ) → unmap w.mapped u q ≡ false
      → g'.owner q ≡ unowned
  Gone-pages g' none gone owners q =
      λ e. elim (owners q) [ inl same ↦ same ∙ s.pages q e | inr free ↦ free ]
  Gone-pages g' (some (a, bytes)) (aligned, gone) owners q =
      elim (Bool-cases (is_page_of a (bytes / page_size) q)) [
        | inl here ↦ λ e.
            let place : a + page_size * ((q - a) / page_size) ≡ q = ground (arith, here) in
            ap g'.owner (sym place) ∙ gone ((q - a) / page_size) (ground (arith, here))
        | inr away ↦
            rw away (λ e. elim (owners q) [ inl same ↦ same ∙ s.pages q e | inr free ↦ free ])
      ]

  -- A block that was asked for goes back.
  pub free-Agrees :
      (pt size : ℕ)
      → f pt ≡ some size
      → (h : Heap) × (u : Unmapped) × (g' : Ghost) × (myfree pt w.heap ≡ some (h, u))
        × Agrees (drop f pt) (record { heap = h; mapped = unmap w.mapped u }) g'
  free-Agrees pt size e =
      let (c, st, room, pos) = in_use pt size e in
      let (h, u, g', done, inv, gone, freed) = myfree-Freed w.heap g s.heap pt c st in
      (
        h,
        u,
        g',
        done,
        record {
          heap = inv;
          pages = Gone-pages g' u gone freed.owners;
          covers = λ p. elim (Bool-cases (p == pt)) [
            | inl here ↦
                let at_pt : p ≡ pt = ground (arith, here) in
                rw here (ap (capacity g') at_pt ∙ freed.not_in_use)
            | inr away ↦ rw away (
                subst (λ n. Covers (f p) n) (sym (freed.others p (ground (arith, away))))
                  (s.covers p))
          ];
        },
      )
