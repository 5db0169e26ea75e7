-- ===== src/Malloc/Ghost/Fresh.antt =====
-- A cache without an idle page makes one of a page that `mmap` has given it.
use linux_util.Common.{
  ℕ, ◌+◌, ◌-◌, ◌*◌, ◌/◌, ◌%◌, ◌≡◌, ◌≢◌, ◌<◌, refl, sym, ap, ◌∙◌, arith, true, false, some, inl, inr,
  Bool-cases, ◌==◌, if◌then◌else◌, mul_mono,
}
use mathlib.Core.Path.{subst}
use linux_util.Malloc.{
  Freelist, PageHeader, Heap, update, set_arena, block_to_page, page_size, magic_number,
}
use linux_util.Malloc.Page.{freelist_init, init_blocks, page_header_init}
use linux_util.Malloc.Ghost.{
  Ghost, Status, absent, in_arena, in_page, used, Owner, unowned, small, large, tail, Fits, is_slot,
  size_of, is_in_page, IsHeap, SmallPage, LargePage, InPage, InArena, Chain, capacity, bytes_in,
  slots,
}
use linux_util.Malloc.Ghost.Lists.{Chain-map, count-ext, size_of-divides}
use linux_util.Malloc.Ghost.Slots.{slots_lem, slots-bound, start_of}
use linux_util.Malloc.Ghost.Blocks.{first_offset_lem, slot_lem, Listed, new_blocks-Listed}
use linux_util.Malloc.Ghost.Keep.{SmallPage-keep, LargePage-keep, page_of-add}

abbrev pub fresh_status : ℕ → ℕ → Status
fresh_status i x = if is_slot (size_of i) x then in_page ((x - start_of i) / size_of i) else absent

abbrev pub with_page : Ghost → ℕ → ℕ → Ghost
with_page g i page = record {
  status = λ b. if block_to_page b == page then fresh_status i (b % page_size) else g.status b;
  owner = update g.owner page (small i);
}

pub absent-unowned : (s : Status) (x : ℕ) (o : Owner) → o ≡ unowned → Fits o x s → s ≡ absent
absent-unowned absent x o e f = refl
absent-unowned (in_arena k) x o e f = absurd (subst (λ o. Fits o x (in_arena k)) e f)
absent-unowned (in_page k) x o e f = absurd (subst (λ o. Fits o x (in_page k)) e f)
absent-unowned (used c) x o e f = absurd (subst (λ o. Fits o x (used c)) e f)

fresh-Fits : (i x : ℕ) → Fits (small i) x (fresh_status i x)
fresh-Fits i x = elim (Bool-cases (is_slot (size_of i) x)) [
  | inl slot ↦ rw slot slot
  | inr between ↦ rw between tt
]

fresh-bytes : (i x : ℕ) → bytes_in (fresh_status i x) ≡ 0
fresh-bytes i x = elim (Bool-cases (is_slot (size_of i) x)) [
  | inl slot ↦ rw slot refl
  | inr between ↦ rw between refl
]

fresh-in_page : (i x : ℕ) → is_in_page (fresh_status i x) ≡ is_slot (size_of i) x
fresh-in_page i x = elim (Bool-cases (is_slot (size_of i) x)) [
  | inl slot ↦ rw slot refl
  | inr between ↦ rw between refl
]

module _ (h : Heap) (g : Ghost) (inv : IsHeap h g) (i : ℕ) (lt : i < 7) (page : ℕ)
    (aligned : page % page_size ≡ 0) (nonnull : page ≢ 0) (new : g.owner page ≡ unowned) where
  abbrev s : ℕ
  s = size_of i

  abbrev g' : Ghost
  g' = with_page g i page

  abbrev blocks : Freelist × ℕ × (ℕ → ℕ)
  blocks = init_blocks 256 s page (start_of i) 0 freelist_init h.next

  abbrev ph : PageHeader
  ph = record {
    are = some i;
    fl = blocks.0;
    avail = blocks.1;
    magic = magic_number;
    total = blocks.1;
  }

  abbrev h' : Heap
  h' =
      set_arena i (record (h.arena i) { idlepage = page })
        (record h { next = blocks.2; page = update h.page page ph })

  pub page_header_init_lem :
      (let h1 = page_header_init i page h in
        set_arena i (record (h1.arena i) { idlepage = page }) h1 ≡ h')
  unfolding page_header_init
  page_header_init_lem = rw (inv.sizes i lt, first_offset_lem i lt) refl

  blocks-Listed :
      (blocks.1 ≡ slots i) × Listed i lt page aligned nonnull h.next (slots i) blocks.0 blocks.2
  blocks-Listed = new_blocks-Listed i lt page aligned nonnull h.next

  -- A page that has an owner is another one.
  not_new : (q : ℕ) (o : Owner) → g.owner q ≡ o → o ≢ unowned → (q == page) ≡ false
  not_new q o e ne = elim (Bool-cases (q == page)) [
    | inl here ↦
        let same : q ≡ page = ground (arith, here) in absurd (ne (sym e ∙ ap g.owner same ∙ new))
    | inr away ↦ away
  ]

  small-owned : (q j : ℕ) → g.owner q ≡ small j → (q == page) ≡ false
  small-owned q j e = not_new q (small j) e (λ t. cc t)

  fresh_page-Fits : (b : ℕ) → Fits (g'.owner (block_to_page b)) (b % page_size) (g'.status b)
  fresh_page-Fits b = elim (Bool-cases (block_to_page b == page)) [
    | inl here ↦ rw here (fresh-Fits i (b % page_size))
    | inr away ↦ rw away (inv.fits b)
  ]

  -- The links of listed blocks of other pages stay.
  arena_kept : (j k b : ℕ) → InArena g j k b → InArena g' j k b × (blocks.2 b ≡ h.next b)
  arena_kept j k b (sb, ob) =
      let away = small-owned (block_to_page b) j ob in
      ((rw away sb, rw away ob), blocks-Listed.1.outside b (ground (arith, away)))

  fresh_page-caches :
      (j : ℕ) → j < 7 → (n : ℕ) × Chain blocks.2 (InArena g' j) n (h'.arena j).freelist
  fresh_page-caches j ltj =
      let (m, c) = inv.caches j ltj in
      let moved = Chain-map m (h.arena j).freelist (λ k b l q. arena_kept j k b q) c in
      let same : (h'.arena j).freelist ≡ (h.arena j).freelist = ground arith in
      (m, subst (λ t. Chain blocks.2 (InArena g' j) m t) (sym same) moved)

  -- A slot of the new page is on its list.
  slot-InPage : (k b : ℕ) → k < slots i → b ≡ page + (start_of i + s * k) → InPage g' page k b
  slot-InPage k b below e =
      let whole = slots_lem i lt in
      let sizes = size_of-divides i lt in
      let grow = mul_mono s s (k + 1) (slots i) (omega arith) (omega arith) in
      let (slot, back) = slot_lem i k lt in
      let off : b % page_size ≡ start_of i + s * k = omega arith in
      let at_page : block_to_page b ≡ page = omega arith in
      let here : (block_to_page b == page) ≡ true = ground (arith, at_page) in
      (rw (here, off, slot) (ap in_page back), at_page)

  fresh_page-SmallPage : SmallPage blocks.2 g' page i ph
  fresh_page-SmallPage =
      let (all, l) = blocks-Listed in
      let bounds = slots-bound i lt in
      record {
        cache = lt;
        aligned = aligned;
        nonnull = nonnull;
        are = refl;
        magic = refl;
        total = all;
        avail =
            all
            ∙ count-ext page_size _ _ (λ x below.
              let at_page = page_of-add page x aligned below in
              let here : (block_to_page (page + x) == page) ≡ true = ground (arith, at_page) in
              let off : (page + x) % page_size ≡ x = omega arith in
              rw (here, off) (sym (fresh-in_page i x)));
        listed =
            subst (λ t. Chain blocks.2 (InPage g' page) t blocks.0.first) (sym all)
              (Chain-map (slots i) blocks.0.first (λ k b below e. (slot-InPage k b below e, refl))
                l.listed);
        last = λ some_there.
            let (at_start, null) = l.last bounds.0 in
            (slot-InPage 0 blocks.0.last bounds.0 (omega arith), null);
      }

  fresh_page-smalls :
      (q j : ℕ) → g'.owner q ≡ small j → SmallPage blocks.2 g' q j (update h.page page ph q)
  fresh_page-smalls q j = elim (Bool-cases (q == page)) [
    | inl same ↦
        let e : q ≡ page = ground (arith, same) in
        rw same (λ o.
          let ij : i ≡ j = ground (arith, o) in
          subst (λ t. SmallPage blocks.2 g' q t ph) ij
            (subst (λ t. SmallPage blocks.2 g' t i ph) (sym e) fresh_page-SmallPage))
    | inr other ↦ rw other (λ o. SmallPage-keep q j (inv.smalls q j o) (λ b pb.
        let away : (block_to_page b == page) ≡ false = ground (arith, other, pb) in
        (rw away refl, λ k sb. (rw away sb, blocks-Listed.1.outside b (ground (arith, away))))))
  ]

  fresh_page-larges : (q n : ℕ) → g'.owner q ≡ large n → LargePage g' q n (update h.page page ph q)
  fresh_page-larges q n = elim (Bool-cases (q == page)) [
    | inl same ↦ rw same (λ o. absurd (cc o))
    | inr other ↦ rw other (λ o.
        LargePage-keep q n (inv.larges q n o)
          (λ r t e. let away = not_new r (tail t) e (λ u. cc u) in rw away e))
  ]

  fresh_page-idle :
      (j : ℕ)
      → j < 7
      → (h'.arena j).idlepage ≢ 0
      → (g'.owner (h'.arena j).idlepage ≡ small j)
        × ((h'.page (h'.arena j).idlepage).avail ≡ slots j)
  fresh_page-idle j ltj = elim (Bool-cases (j == i)) [
    | inl same ↦
        let e : j ≡ i = ground (arith, same) in
        let self : (page == page) ≡ true = ground arith in
        rw (same, self) (λ ne. (ap small (sym e), blocks-Listed.0 ∙ ap slots (sym e)))
    | inr other ↦ rw other (λ ne.
        let (o, full) = inv.idle j ltj ne in
        let away = small-owned (h.arena j).idlepage j o in (rw away o, rw away full))
  ]

  pub fresh_page-IsHeap : IsHeap h' g'
  fresh_page-IsHeap = record {
    sizes = λ j ltj. ground (arith, inv.sizes j ltj, inv.sizes i lt);
    fits = fresh_page-Fits;
    caches = fresh_page-caches;
    idle = fresh_page-idle;
    smalls = fresh_page-smalls;
    larges = fresh_page-larges;
  }

  pub fresh_page-capacity : (b : ℕ) → capacity g' b ≡ capacity g b
  fresh_page-capacity b = elim (Bool-cases (block_to_page b == page)) [
    | inl here ↦
        let at_page : block_to_page b ≡ page = ground (arith, here) in
        let gone =
          absent-unowned (g.status b) (b % page_size) (g.owner (block_to_page b))
            (ap g.owner at_page ∙ new) (inv.fits b) in
        rw here (fresh-bytes i (b % page_size) ∙ sym (ap bytes_in gone))
    | inr away ↦ rw away refl
  ]
