-- ===== src/Malloc/Ghost/Release.antt =====
-- A block of a cache goes back to its page.
use linux_util.Common.{
  ℕ, suc, ◌+◌, ◌%◌, ◌≡◌, ◌≢◌, ◌≤◌, ◌<◌, refl, sym, ap, ◌∙◌, arith, true, false, inl, inr,
  Bool-cases, ◌==◌, u16,
}
use mathlib.Core.Path.{subst}
use linux_util.Malloc.{PageHeader, Heap, update, block_to_page, page_size}
use linux_util.Malloc.Page.{freelist_free}
use linux_util.Malloc.Ghost.{
  Ghost, Status, absent, in_arena, in_page, used, small, Fits, is_slot, size_of, is_in_page, IsHeap,
  SmallPage, InPage, Chain, slots, free_count,
}
use linux_util.Malloc.Ghost.Lists.{Chain-map, Chain-cases, count-suc, count-le, count-all}
use linux_util.Malloc.Ghost.Slots.{slots-bound}
use linux_util.Malloc.Ghost.Keep.{
  SmallPage-keep, LargePage-keep, page_of-add, Fits-in_page, Fits-used,
}
use linux_util.Malloc.Ghost.Take.{with_status}

in_page-of : (s : Status) → is_in_page s ≡ true → (k : ℕ) × (s ≡ in_page k)
in_page-of absent e = absurd (cc e)
in_page-of (in_arena k) e = absurd (cc e)
in_page-of (in_page k) e = (k, refl)
in_page-of (used c) e = absurd (cc e)

module _ (h : Heap) (g : Ghost) (inv : IsHeap h g) (pt c i : ℕ) (in_use : g.status pt ≡ used c)
    (owned : g.owner (block_to_page pt) ≡ small i) where
  abbrev p : ℕ
  p = block_to_page pt

  abbrev old : PageHeader
  old = h.page p

  own : SmallPage h.next g p i old
  own = inv.smalls p i owned

  abbrev pub released : Ghost
  released = with_status g pt (in_page old.avail)

  abbrev ph : PageHeader
  ph = record old { avail = u16 (old.avail + 1); fl = (freelist_free old.fl pt h.next).0 }

  abbrev pub freed : Heap
  freed = record h { next = update h.next pt old.fl.first; page = update h.page p ph }

  slot : is_slot (size_of i) (pt % page_size) ≡ true
  slot = (Fits-used (pt % page_size) i c (inv.fits pt) owned in_use).0

  release-Fits :
      (b : ℕ) → Fits (released.owner (block_to_page b)) (b % page_size) (released.status b)
  release-Fits b = elim (Bool-cases (b == pt)) [
    | inr other ↦ rw other (inv.fits b)
    | inl same ↦
        let e : b ≡ pt = ground (arith, same) in
        rw same (
          subst (λ t. Fits (g.owner (block_to_page t)) (t % page_size) (in_page old.avail)) (sym e)
            (subst (λ o. Fits o (pt % page_size) (in_page old.avail)) (sym owned) slot))
  ]

  -- The other blocks keep their status.
  pub status_kept :
      (b : ℕ) (s : Status)
      → g.status b ≡ s
      → s ≢ used c
      → ((b == pt) ≡ false) × (released.status b ≡ s)
  status_kept b s e ne = elim (Bool-cases (b == pt)) [
    | inr other ↦ (other, rw other e)
    | inl same ↦
        let eq : b ≡ pt = ground (arith, same) in absurd (ne (sym e ∙ ap g.status eq ∙ in_use))
  ]

  in_slot :
      (x : ℕ)
      → x < page_size
      → is_in_page (released.status (p + x)) ≡ true
      → is_slot (size_of i) x ≡ true
  in_slot x lt e =
      let (k, s) = in_page-of (released.status (p + x)) e in
      let off : (p + x) % page_size ≡ x = omega arith in
      ap (is_slot (size_of i)) (sym off)
      ∙ Fits-in_page ((p + x) % page_size) i k (release-Fits (p + x))
          (ap g.owner (page_of-add p x own.aligned lt) ∙ owned) s

  -- One more block of the page is free, of those that it has.
  pub release-count : (free_count released.status p ≡ suc old.avail) × (suc old.avail ≤ slots i)
  release-count =
      let at_pt : p + pt % page_size ≡ pt = omega arith in
      let more =
        count-suc page_size (λ x. is_in_page (g.status (p + x)))
          (λ x. is_in_page (released.status (p + x))) (pt % page_size) (omega arith)
          (ap (λ b. is_in_page (g.status b)) at_pt ∙ ap is_in_page in_use)
          (ap (λ b. is_in_page (released.status b)) at_pt ∙ ground arith)
          (λ x lt ne. let other : (p + x == pt) ≡ false = ground (arith, ne) in rw other refl) in
      let few =
        count-le page_size (λ x. is_in_page (released.status (p + x))) (is_slot (size_of i))
          in_slot in
      (more ∙ ap suc (sym own.avail), omega (arith, own.avail))

  pub width : u16 (old.avail + 1) ≡ suc old.avail
  width = omega (arith, release-count, slots-bound i own.cache)

  release-SmallPage : SmallPage freed.next released p i ph
  unfolding Chain
  release-SmallPage = record {
    cache = own.cache;
    aligned = own.aligned;
    nonnull = own.nonnull;
    are = own.are;
    magic = own.magic;
    total = own.total;
    avail = width ∙ sym release-count.0;
    listed =
        subst (λ t. Chain freed.next (InPage released p) t pt) (sym width)
          (
            omega (arith, own.nonnull),
            (ground arith, refl),
            subst (λ t. Chain freed.next (InPage released p) old.avail t) (ground arith)
                (Chain-map old.avail old.fl.first
                  (λ k b l (sb, pb).
                    let (other, same) = status_kept b (in_page k) sb (λ t. cc t) in
                    ((same, pb), rw other refl))
                  own.listed),
          );
    last = λ some_there. elim (Chain-cases h.next (InPage g p) old.avail old.fl.first own.listed) [
      | inl (none_yet, empty) ↦
          let here : (old.fl.first == 0) ≡ true = ground (arith, empty) in
          rw here ((rw none_yet (ground arith), refl), ground (arith, empty))
      | inr (some_yet, nonempty) ↦
          let here : (old.fl.first == 0) ≡ false = ground (arith, nonempty) in
          let ((sl, pl), null) = own.last nonempty in
          let (other, same) = status_kept old.fl.last (in_page 0) sl (λ t. cc t) in
          rw here ((same, pl), rw other null)
    ];
  }

  release-smalls :
      (q j : ℕ) → g.owner q ≡ small j → SmallPage freed.next released q j (freed.page q)
  release-smalls q j o = elim (Bool-cases (q == p)) [
    | inl same ↦
        let e : q ≡ p = ground (arith, same) in
        let ij : i ≡ j = ground (arith, o, owned, ap g.owner e) in
        rw same (
          subst (λ t. SmallPage freed.next released q t ph) ij
            (subst (λ t. SmallPage freed.next released t i ph) (sym e) release-SmallPage))
    | inr other ↦ rw other (
        SmallPage-keep q j (inv.smalls q j o) (λ b pb.
          let away : (b == pt) ≡ false = ground (arith, other, pb) in
          (rw away refl, λ k sb. (rw away sb, rw away refl))))
  ]

  -- A page with a block in use is not idle.
  pub not_idle : (j : ℕ) → j < 7 → (h.arena j).idlepage ≢ 0 → ((h.arena j).idlepage == p) ≡ false
  not_idle j ltj ne = elim (Bool-cases ((h.arena j).idlepage == p)) [
    | inr away ↦ away
    | inl here ↦
        let (o, full) = inv.idle j ltj ne in
        let e : (h.arena j).idlepage ≡ p = ground (arith, here) in
        let ij : j ≡ i = ground (arith, o, owned, ap g.owner e) in
        let most : old.avail ≡ slots i = ap (λ q. (h.page q).avail) (sym e) ∙ full ∙ ap slots ij in
        absurd (omega (arith, most, release-count))
  ]

  pub release-IsHeap : IsHeap freed released
  release-IsHeap = record {
    sizes = inv.sizes;
    fits = release-Fits;
    caches = λ j ltj.
        let (m, chain) = inv.caches j ltj in
        (
          m,
          Chain-map m (h.arena j).freelist
              (λ k b l (sb, ob).
                let (other, same) = status_kept b (in_arena k) sb (λ t. cc t) in
                ((same, ob), rw other refl))
              chain,
        );
    idle = λ j ltj ne. let (o, full) = inv.idle j ltj ne in (o, rw (not_idle j ltj ne) full);
    smalls = release-smalls;
    larges = λ q m o.
        let away : (q == p) ≡ false = elim (Bool-cases (q == p)) [
          | inr away ↦ away
          | inl here ↦ let e : q ≡ p = ground (arith, here) in absurd (cc (o, owned, e))
        ] in
        rw away (LargePage-keep q m (inv.larges q m o) (λ r t e. e));
  }

  -- When as many blocks are free as the page has, none of them is elsewhere.
  pub all_free :
      suc old.avail ≡ slots i
      → (b : ℕ) → block_to_page b ≡ p
      → is_slot (size_of i) (b % page_size) ≡ true
      → (k : ℕ) × (released.status b ≡ in_page k)
  all_free full b pb sb =
      let at_b : p + b % page_size ≡ b = omega (arith, pb) in
      let all =
        count-all page_size (λ x. is_in_page (released.status (p + x))) (is_slot (size_of i))
          in_slot (release-count.0 ∙ full) (b % page_size) (omega arith) sb in
      in_page-of (released.status b) (ap (λ t. is_in_page (released.status t)) (sym at_b) ∙ all)
