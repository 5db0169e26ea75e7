-- ===== src/Malloc/Ghost/Seize.antt =====
-- A cache without free blocks takes all blocks of its idle page.
use linux_util.Common.{
  ℕ, zero, suc, ◌+◌, ◌%◌, ◌≡◌, ◌≢◌, ◌<◌, refl, sym, ap, ◌∙◌, arith, true, false, inl, inr,
  Bool-cases, ◌==◌, if◌then◌else◌,
}
use mathlib.Core.Path.{subst}
use linux_util.Malloc.{PageHeader, Heap, update, block_to_page, page_size}
use linux_util.Malloc.Page.{freelist_init}
use linux_util.Malloc.Cache.{seize}
use linux_util.Malloc.Ghost.{
  Ghost, Status, absent, in_arena, in_page, used, Owner, unowned, small, large, tail, Fits,
  is_in_page, IsHeap, SmallPage, InPage, InArena, Chain, capacity, bytes_in, count, slots,
}
use linux_util.Malloc.Ghost.Lists.{Chain-map, Chain-cases, count-ext}
use linux_util.Malloc.Ghost.Slots.{slots-bound}
use linux_util.Malloc.Ghost.Keep.{SmallPage-keep, LargePage-keep, page_of-add}

abbrev pub promote : Status → Status
promote (in_page k) = in_arena k
promote absent = absent
promote (in_arena k) = in_arena k
promote (used c) = used c

abbrev pub promoted : Ghost → ℕ → Ghost
promoted g p = record g {
  status = λ b. if block_to_page b == p then promote (g.status b) else g.status b;
}

Fits-promote : (o : Owner) (x : ℕ) (s : Status) → Fits o x s → Fits o x (promote s)
Fits-promote o x absent f = f
Fits-promote o x (in_arena k) f = f
Fits-promote o x (used c) f = f
Fits-promote (small i) x (in_page k) f = f
Fits-promote unowned x (in_page k) f = absurd f
Fits-promote (large n) x (in_page k) f = absurd f
Fits-promote (tail t) x (in_page k) f = absurd f

promote-bytes : (s : Status) → bytes_in (promote s) ≡ bytes_in s
promote-bytes absent = refl
promote-bytes (in_arena k) = refl
promote-bytes (in_page k) = refl
promote-bytes (used c) = refl

promote-not_in_page : (s : Status) → is_in_page (promote s) ≡ false
promote-not_in_page absent = refl
promote-not_in_page (in_arena k) = refl
promote-not_in_page (in_page k) = refl
promote-not_in_page (used c) = refl

count-none : (n : ℕ) → count n (λ x. false) ≡ 0
unfolding count
count-none zero = refl
count-none (suc n) = omega (arith, count-none n)

module _ (h : Heap) (g : Ghost) (inv : IsHeap h g) (i : ℕ) (lt : i < 7)
    (empty : (h.arena i).freelist ≡ 0) (has_idle : (h.arena i).idlepage ≢ 0) where
  abbrev p : ℕ
  p = (h.arena i).idlepage

  abbrev ph : PageHeader
  ph = h.page p

  owned : g.owner p ≡ small i
  owned = (inv.idle i lt has_idle).0

  own : SmallPage h.next g p i ph
  own = inv.smalls p i owned

  full : ph.avail ≡ slots i
  full = (inv.idle i lt has_idle).1

  first-nonnull : ph.fl.first ≢ 0
  first-nonnull = elim (Chain-cases h.next (InPage g p) ph.avail ph.fl.first own.listed) [
    | inl (gone, _) ↦ absurd (omega (arith, full, slots-bound i lt))
    | inr (_, nonnull) ↦ nonnull
  ]

  abbrev g' : Ghost
  g' = promoted g p

  abbrev next' : ℕ → ℕ
  next' = update h.next ph.fl.last (h.arena i).freelist

  next-same : (b : ℕ) → next' b ≡ h.next b
  next-same b =
      let null = (own.last first-nonnull).1 in
      elim (Bool-cases (b == ph.fl.last)) [
        | inl same ↦
            let e : b ≡ ph.fl.last = ground (arith, same) in
            rw same (empty ∙ sym null ∙ ap h.next (sym e))
        | inr other ↦ rw other refl
      ]

  seize-Fits : (b : ℕ) → Fits (g'.owner (block_to_page b)) (b % page_size) (g'.status b)
  seize-Fits b = elim (Bool-cases (block_to_page b == p)) [
    | inl here ↦ rw here (Fits-promote _ (b % page_size) (g.status b) (inv.fits b))
    | inr away ↦ rw away (inv.fits b)
  ]

  -- A block of a cache's list stays there.
  arena_kept : (j k b : ℕ) → InArena g j k b → InArena g' j k b
  arena_kept j k b (sb, ob) = elim (Bool-cases (block_to_page b == p)) [
    | inl here ↦ (rw here (ap promote sb), ob)
    | inr away ↦ (rw away sb, ob)
  ]

  seize-caches :
      (j : ℕ)
      → j < 7
      → (n : ℕ) × Chain next'
          (InArena g' j)
          n
          (update h.arena i
            (record (h.arena i) { freelist = ph.fl.first; idlepage = 0 })
            j).freelist
  seize-caches j ltj = elim (Bool-cases (j == i)) [
    | inl same ↦
        let e : j ≡ i = ground (arith, same) in
        rw (same, e)
          (
            ph.avail,
            Chain-map ph.avail ph.fl.first
                (λ k b l (sb, pb).
                  let here : (block_to_page b == p) ≡ true = ground arith in
                  ((rw here (ap promote sb), ap g.owner pb ∙ owned), next-same b))
                own.listed,
          )
    | inr other ↦
        let (m, c) = inv.caches j ltj in
        rw other
          (m, Chain-map m (h.arena j).freelist (λ k b l q. (arena_kept j k b q, next-same b)) c)
  ]

  -- The page has no block on its own list any more.
  seized-page : SmallPage next' g' p i (record ph { avail = 0; fl = freelist_init })
  unfolding Chain
  seized-page = record {
    cache = own.cache;
    aligned = own.aligned;
    nonnull = own.nonnull;
    are = own.are;
    magic = own.magic;
    total = own.total;
    avail = sym (
        count-ext page_size _ (λ x. false)
          (λ x l.
            let here : (block_to_page (p + x) == p) ≡ true =
              ground (arith, page_of-add p x own.aligned l) in
            rw here (promote-not_in_page (g.status (p + x))))
        ∙ count-none page_size);
    listed = refl;
    last = λ ne. absurd (ne refl);
  }

  seize-smalls :
      (q j : ℕ)
      → g.owner q ≡ small j
      → SmallPage next' g' q j (update h.page p (record ph { avail = 0; fl = freelist_init }) q)
  unfolding Chain
  seize-smalls q j o = elim (Bool-cases (q == p)) [
    | inl same ↦
        let e : q ≡ p = ground (arith, same) in
        let self : (p == p) ≡ true = ground arith in
        let ij : i ≡ j = ground (arith, o, owned, ap g.owner e) in
        subst
          (λ t.
            SmallPage next' g' t j
              (update h.page p (record ph { avail = 0; fl = freelist_init }) t))
          (sym e)
          (subst
            (λ t.
              SmallPage next' g' p t
                (update h.page p (record ph { avail = 0; fl = freelist_init }) p))
            ij (rw self seized-page))
    | inr other ↦ rw other (
        SmallPage-keep q j (inv.smalls q j o) (λ b pb.
          let away : (block_to_page b == p) ≡ false = ground (arith, other, pb) in
          (rw away refl, λ k sb. (rw away sb, next-same b))))
  ]

  seize-idle :
      (j : ℕ)
      → j < 7
      → (update h.arena i (record (h.arena i) { freelist = ph.fl.first; idlepage = 0 }) j).idlepage
        ≢ 0
      → (g.owner
            (update h.arena i
              (record (h.arena i) { freelist = ph.fl.first; idlepage = 0 })
              j).idlepage
          ≡ small j)
        × ((update h.page p
              (record ph { avail = 0; fl = freelist_init })
              (update h.arena i
                (record (h.arena i) { freelist = ph.fl.first; idlepage = 0 })
                j).idlepage).avail
            ≡ slots j)
  seize-idle j ltj = elim (Bool-cases (j == i)) [
    | inl same ↦ rw same (λ ne. absurd (ne refl))
    | inr other ↦ rw other (λ ne.
        let (o, full') = inv.idle j ltj ne in
        let away : ((h.arena j).idlepage == p) ≡ false =
          elim (Bool-cases ((h.arena j).idlepage == p)) [
            | inr away ↦ away
            | inl here ↦
                let e : (h.arena j).idlepage ≡ p = ground (arith, here) in
                let ij : j ≡ i = ground (arith, o, owned, ap g.owner e) in
                absurd (ground (arith, other, ij))
          ] in
        (o, rw away full'))
  ]

  pub seize-IsHeap : IsHeap (seize i h) g'
  unfolding seize
  seize-IsHeap = record {
    sizes = λ j ltj. ground (arith, inv.sizes j ltj, inv.sizes i lt);
    fits = seize-Fits;
    caches = seize-caches;
    idle = seize-idle;
    smalls = seize-smalls;
    larges = λ q m o.
        let away : (q == p) ≡ false = elim (Bool-cases (q == p)) [
          | inr away ↦ away
          | inl here ↦ let e : q ≡ p = ground (arith, here) in absurd (cc (o, owned, ap g.owner e))
        ] in
        rw away (LargePage-keep q m (inv.larges q m o) (λ r t e. e));
  }

  pub seize-capacity : (b : ℕ) → capacity g' b ≡ capacity g b
  seize-capacity b = elim (Bool-cases (block_to_page b == p)) [
    | inl here ↦ rw here (promote-bytes (g.status b))
    | inr away ↦ rw away refl
  ]

  pub seize-freelist : (((seize i h).arena i).freelist ≡ ph.fl.first) × (ph.fl.first ≢ 0)
  unfolding seize
  seize-freelist = (ground arith, first-nonnull)
