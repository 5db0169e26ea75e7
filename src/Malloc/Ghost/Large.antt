-- ===== src/Malloc/Ghost/Large.antt =====
-- Whole pages for a large block.
use linux_util.Common.{
  ℕ, ◌+◌, ◌-◌, ◌*◌, ◌/◌, ◌%◌, ◌^◌, ◌≡◌, ◌≢◌, ◌≤◌, ◌<◌, refl, sym, ap, ◌∙◌, arith, true, false, none,
  inl, inr, Bool-cases, ◌==◌, ◌&&◌, if◌then◌else◌, Bool, ltb,
}
use mathlib.Core.Path.{subst}
use linux_util.Malloc.{
  PageHeader, Heap, update, set_page, block_to_page, page_size, header_bytes, magic_number,
}
use linux_util.Malloc.Ghost.{
  Ghost, Status, used, Owner, unowned, small, large, tail, Fits, is_in_page, IsHeap, SmallPage,
  LargePage, InArena, bytes_in,
}
use linux_util.Malloc.Ghost.Lists.{Chain-map}
use linux_util.Malloc.Ghost.Keep.{SmallPage-keep, LargePage-keep}
use linux_util.Malloc.Ghost.Take.{Allocated}
use linux_util.Malloc.Ghost.Fresh.{absent-unowned}

-- A later page of the `n` pages from `a` on.
abbrev pub is_later : (a n q : ℕ) → Bool
is_later a n q = ltb a q && ltb q (a + page_size * n) && q % page_size == 0

abbrev pub large_capacity : ℕ → ℕ
large_capacity n = page_size * n - header_bytes

abbrev pub with_pages : Ghost → (a n : ℕ) → Ghost
with_pages g a n = record {
  status = update g.status (a + header_bytes) (used (large_capacity n));
  owner = λ q. if q == a then large n else if is_later a n q then tail a else g.owner q;
}

module _ (h : Heap) (g : Ghost) (inv : IsHeap h g) (a n : ℕ) (pos : 0 < n)
    (width : n * page_size < 2 ^ 64) (aligned : a % page_size ≡ 0) (nonnull : a ≢ 0)
    (new : (j : ℕ) → j < n → g.owner (a + page_size * j) ≡ unowned) where
  abbrev g' : Ghost
  g' = with_pages g a n

  new_first : g.owner a ≡ unowned
  new_first = ap g.owner (omega arith) ∙ new 0 pos

  new_later : (q : ℕ) → is_later a n q ≡ true → g.owner q ≡ unowned
  new_later q later =
      let e : a + page_size * ((q - a) / page_size) ≡ q = ground (arith, later) in
      ap g.owner (sym e) ∙ new ((q - a) / page_size) (ground (arith, later))

  -- A page that has an owner keeps it.
  owner_kept :
      (q : ℕ) (o : Owner) → g.owner q ≡ o → o ≢ unowned → ((q == a) ≡ false) × (g'.owner q ≡ o)
  owner_kept q o e ne = elim (Bool-cases (q == a)) [
    | inl first ↦
        let same : q ≡ a = ground (arith, first) in
        absurd (ne (sym e ∙ ap g.owner same ∙ new_first))
    | inr other ↦ elim (Bool-cases (is_later a n q)) [
      | inl later ↦ absurd (ne (sym e ∙ new_later q later))
      | inr apart ↦ (other, rw (other, apart) e)
    ]
  ]

  -- A page that has no owner has no block.
  status_kept :
      (b : ℕ) (o : Owner) → g.owner (block_to_page b) ≡ o → o ≢ unowned → g'.status b ≡ g.status b
  status_kept b o e ne = elim (Bool-cases (b == a + header_bytes)) [
    | inr other ↦ rw other refl
    | inl same ↦
        let eq : block_to_page b ≡ a = ground (arith, same) in
        absurd (ne (sym e ∙ ap g.owner eq ∙ new_first))
  ]

  large-Fits : (b : ℕ) → Fits (g'.owner (block_to_page b)) (b % page_size) (g'.status b)
  large-Fits b = elim (Bool-cases (b == a + header_bytes)) [
    | inl same ↦
        let first : (block_to_page b == a) ≡ true = ground (arith, same) in
        let off : b % page_size ≡ header_bytes = ground (arith, same) in
        rw (same, first) (off, omega arith)
    | inr other ↦ rw other (still (block_to_page b) refl (g.status b) refl (inv.fits b))
  ]
    where
      still :
          (q : ℕ)
          → block_to_page b ≡ q
          → (s : Status) → g.status b ≡ s
          → Fits (g.owner q) (b % page_size) s
          → Fits (g'.owner q) (b % page_size) s
      still q eq s es f =
          let gone =
            λ (e : g.owner q ≡ unowned). absent-unowned s (b % page_size) (g.owner q) e f in
          elim (Bool-cases (q == a)) [
            | inl first ↦
                let same : q ≡ a = ground (arith, first) in
                subst (λ t. Fits (g'.owner q) (b % page_size) t)
                  (sym (gone (ap g.owner same ∙ new_first))) tt
            | inr other ↦ elim (Bool-cases (is_later a n q)) [
              | inl later ↦
                  subst (λ t. Fits (g'.owner q) (b % page_size) t) (sym (gone (new_later q later)))
                    tt
              | inr apart ↦ rw (other, apart) f
            ]
          ]

  abbrev ph : PageHeader
  ph = record (h.page a) {
    are = none;
    fl = record ((h.page a).fl) { first = n * page_size };
    magic = magic_number;
  }

  arena_kept : (j k b : ℕ) → InArena g j k b → InArena g' j k b
  arena_kept j k b (sb, ob) = (
    status_kept b (small j) ob (λ t. cc t) ∙ sb,
    (owner_kept (block_to_page b) (small j) ob (λ t. cc t)).1,
  )

  -- The owner of a page of blocks was there before.
  small_before : (q j : ℕ) → g'.owner q ≡ small j → (g.owner q ≡ small j) × ((q == a) ≡ false)
  small_before q j = elim (Bool-cases (q == a)) [
    | inl first ↦ rw first (λ o. absurd (cc o))
    | inr other ↦ elim (Bool-cases (is_later a n q)) [
      | inl later ↦ rw (other, later) (λ o. absurd (cc o))
      | inr apart ↦ rw (other, apart) (λ o. (o, refl))
    ]
  ]

  large-smalls : (q j : ℕ) → g'.owner q ≡ small j → SmallPage h.next g' q j (update h.page a ph q)
  large-smalls q j o' =
      let (o, other) = small_before q j o' in
      rw other (
        SmallPage-keep q j (inv.smalls q j o) (λ b pb.
          let same = status_kept b (small j) (ap g.owner pb ∙ o) (λ t. cc t) in
          (ap is_in_page same, λ k sb. (same ∙ sb, refl))))

  large-larges : (q m : ℕ) → g'.owner q ≡ large m → LargePage g' q m (update h.page a ph q)
  large-larges q m = elim (Bool-cases (q == a)) [
    | inl first ↦
        let same : q ≡ a = ground (arith, first) in
        rw first (λ o.
          let nm : n ≡ m = ground (arith, o) in
          subst (λ t. LargePage g' q t ph) nm
            (subst (λ t. LargePage g' t n ph) (sym same)
              (record {
                aligned = aligned;
                nonnull = nonnull;
                nonempty = pos;
                are = refl;
                magic = refl;
                pages = refl;
                width = width;
                whole = λ j lo hi. ground arith;
              })))
    | inr other ↦ elim (Bool-cases (is_later a n q)) [
      | inl later ↦ rw (other, later) (λ o. absurd (cc o))
      | inr apart ↦
          rw (other, apart)
            (λ o.
              LargePage-keep q m (inv.larges q m o)
                (λ r t e. (owner_kept r (tail t) e (λ u. cc u)).1))
    ]
  ]

  pub large-IsHeap : IsHeap (set_page a ph h) g'
  large-IsHeap = record {
    sizes = inv.sizes;
    fits = large-Fits;
    caches = λ j ltj.
        let (m, c) = inv.caches j ltj in
        (m, Chain-map m (h.arena j).freelist (λ k b l q. (arena_kept j k b q, refl)) c);
    idle = λ j ltj ne.
        let (o, full) = inv.idle j ltj ne in
        let (other, o') = owner_kept (h.arena j).idlepage (small j) o (λ t. cc t) in
        (o', rw other full);
    smalls = large-smalls;
    larges = large-larges;
  }

  pub large-Allocated :
      (size : ℕ) → 0 < size → size ≤ large_capacity n → Allocated g g' (a + header_bytes) size
  large-Allocated size some_bytes room =
      let here : g'.status (a + header_bytes) ≡ used (large_capacity n) = ground arith in
      let eq : block_to_page (a + header_bytes) ≡ a = omega arith in
      let gone =
        absent-unowned (g.status (a + header_bytes)) ((a + header_bytes) % page_size)
          (g.owner (block_to_page (a + header_bytes))) (ap g.owner eq ∙ new_first)
          (inv.fits (a + header_bytes)) in
      record {
        was_free = ap bytes_in gone;
        in_use = rw here (omega arith);
        enough = rw here room;
        others = λ b ne. ground (arith, ne);
      }
