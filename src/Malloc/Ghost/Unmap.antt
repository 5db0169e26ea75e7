-- ===== src/Malloc/Ghost/Unmap.antt =====
-- Pages that go back to the system.
use linux_util.Common.{
  ℕ, ◌+◌, ◌*◌, ◌%◌, ◌≡◌, ◌≢◌, ◌<◌, refl, ap, ◌∙◌, true, false, inl, inr, Bool, Bool-cases, ◌==◌,
  ◌&&◌, if◌then◌else◌, ltb, leb,
}
use linux_util.Malloc.{Heap, block_to_page, page_size}
use linux_util.Malloc.Ghost.{
  Ghost, absent, unowned, small, large, tail, Fits, IsHeap, SmallPage, LargePage, InArena,
}
use linux_util.Malloc.Ghost.Lists.{Chain-map}
use linux_util.Malloc.Ghost.Keep.{SmallPage-keep}

-- One of the `n` pages from `p` on.
abbrev pub is_page_of : (p n q : ℕ) → Bool
is_page_of p n q = leb p q && ltb q (p + page_size * n) && q % page_size == 0

abbrev pub without_pages : Ghost → (p n : ℕ) → Ghost
without_pages g p n = record {
  status = λ b. if is_page_of p n (block_to_page b) then absent else g.status b;
  owner = λ q. if is_page_of p n q then unowned else g.owner q;
}

module _ (h : Heap) (g : Ghost) (inv : IsHeap h g) (p n : ℕ)
    (no_listed : (j k b : ℕ) → InArena g j k b → is_page_of p n (block_to_page b) ≡ false)
    (no_idle : (j : ℕ)
      → j < 7
      → (h.arena j).idlepage ≢ 0
      → is_page_of p n (h.arena j).idlepage ≡ false)
    (no_part : (q t : ℕ)
      → g.owner q ≡ tail t
      → is_page_of p n q ≡ true
      → is_page_of p n t ≡ true) where
  abbrev g' : Ghost
  g' = without_pages g p n

  unmap-Fits : (b : ℕ) → Fits (g'.owner (block_to_page b)) (b % page_size) (g'.status b)
  unmap-Fits b = elim (Bool-cases (is_page_of p n (block_to_page b))) [
    | inl gone ↦ rw gone tt
    | inr stays ↦ rw stays (inv.fits b)
  ]

  unmap-smalls : (q j : ℕ) → g'.owner q ≡ small j → SmallPage h.next g' q j (h.page q)
  unmap-smalls q j = elim (Bool-cases (is_page_of p n q)) [
    | inl gone ↦ rw gone (λ o. absurd (cc o))
    | inr stays ↦ rw stays (λ o. SmallPage-keep q j (inv.smalls q j o) (λ b pb.
        let stays' : is_page_of p n (block_to_page b) ≡ false = ap (is_page_of p n) pb ∙ stays in
        (rw stays' refl, λ k sb. (rw stays' sb, refl))))
  ]

  unmap-larges : (q m : ℕ) → g'.owner q ≡ large m → LargePage g' q m (h.page q)
  unmap-larges q m = elim (Bool-cases (is_page_of p n q)) [
    | inl gone ↦ rw gone (λ o. absurd (cc o))
    | inr stays ↦ rw stays (λ o.
        let l = inv.larges q m o in
        record {
          aligned = l.aligned;
          nonnull = l.nonnull;
          nonempty = l.nonempty;
          are = l.are;
          magic = l.magic;
          pages = l.pages;
          width = l.width;
          whole = λ j lo hi.
              let r = q + page_size * j in
              elim (Bool-cases (is_page_of p n r)) [
                | inl gone ↦ absurd (cc (stays, no_part r q (l.whole j lo hi) gone))
                | inr stays' ↦ rw stays' (l.whole j lo hi)
              ];
        })
  ]

  pub unmap-IsHeap : IsHeap h g'
  unmap-IsHeap = record {
    sizes = inv.sizes;
    fits = unmap-Fits;
    caches = λ j ltj.
        let (m, c) = inv.caches j ltj in
        (
          m,
          Chain-map m (h.arena j).freelist
              (λ k b l (sb, ob).
                let stays = no_listed j k b (sb, ob) in ((rw stays sb, rw stays ob), refl))
              c,
        );
    idle = λ j ltj ne.
        let (o, full) = inv.idle j ltj ne in let stays = no_idle j ltj ne in (rw stays o, full);
    smalls = unmap-smalls;
    larges = unmap-larges;
  }
