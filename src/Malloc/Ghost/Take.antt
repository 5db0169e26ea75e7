-- ===== src/Malloc/Ghost/Take.antt =====
-- Taking the first block of a cache's list.
use linux_util.Common.{
  ℕ, ◌%◌, ◌≡◌, ◌≢◌, ◌≤◌, ◌<◌, refl, sym, ap, ◌∙◌, arith, inl, inr, Bool-cases, ◌==◌,
}
use mathlib.Core.Path.{subst}
use linux_util.Malloc.{Heap, update, block_to_page, page_size}
use linux_util.Malloc.Cache.{take_block}
use linux_util.Malloc.Ghost.{
  Ghost, Status, in_arena, used, small, Fits, size_of, is_in_page, IsHeap, SmallPage, InArena,
  Chain, capacity, bytes_in,
}
use linux_util.Malloc.Ghost.Lists.{Chain-map, size_of-divides}
use linux_util.Malloc.Ghost.Keep.{SmallPage-keep, LargePage-keep, Fits-in_arena}

-- `a` was free, is now in use for `size` bytes at least, and no other address has changed its use.
pub record Allocated (g g' : Ghost) (a size : ℕ) : Type 0 where
  pub was_free : capacity g a ≡ 0
  pub in_use : 0 < capacity g' a
  pub enough : size ≤ capacity g' a
  pub others : (b : ℕ) → b ≢ a → capacity g' b ≡ capacity g b

abbrev pub with_status : Ghost → ℕ → Status → Ghost
with_status g a s = record g { status = update g.status a s }

module _ (h : Heap) (g : Ghost) (inv : IsHeap h g) (i n : ℕ) (lt : i < 7) where
  abbrev a : ℕ
  a = (h.arena i).freelist

  abbrev g' : Ghost
  g' = with_status g a (used (size_of i))

  module _ (sa : g.status a ≡ in_arena n) (oa : g.owner (block_to_page a) ≡ small i)
      (rest : Chain h.next (InArena g i) n (h.next a)) where
    -- The other listed blocks keep their status.
    arena_kept : (j k b : ℕ) → (j ≡ i → k < n) → InArena g j k b → InArena g' j k b
    arena_kept j k b below (sb, ob) = elim (Bool-cases (b == a)) [
      | inr other ↦ (rw other sb, ob)
      | inl same ↦
          let e : b ≡ a = ground (arith, same) in
          let ji : j ≡ i = ground (arith, ob, oa, ap (λ t. g.owner (block_to_page t)) e) in
          let kn : k ≡ n = ground (arith, sb, sa, ap g.status e) in absurd (omega (arith, below ji))
    ]

    take-Fits : (b : ℕ) → Fits (g'.owner (block_to_page b)) (b % page_size) (g'.status b)
    take-Fits b = elim (Bool-cases (b == a)) [
      | inr other ↦ rw other (inv.fits b)
      | inl same ↦
          let e : b ≡ a = ground (arith, same) in
          rw same (
            subst (λ t. Fits (g.owner (block_to_page t)) (t % page_size) (used (size_of i))) (sym e)
              (subst (λ o. Fits o (a % page_size) (used (size_of i))) (sym oa)
                (Fits-in_arena (a % page_size) i n (inv.fits a) oa sa, refl)))
    ]

    take-smalls : (p j : ℕ) → g.owner p ≡ small j → SmallPage h.next g' p j (h.page p)
    take-smalls p j o = SmallPage-keep p j (inv.smalls p j o) (λ b pb. elim (Bool-cases (b == a)) [
      | inr other ↦ (rw other refl, λ k sb. (rw other sb, refl))
      | inl same ↦
          let e : b ≡ a = ground (arith, same) in
          (
            rw same (ap is_in_page (sym (ap g.status e ∙ sa))),
            λ k sb. absurd (cc (sb, ap g.status e, sa)),
          )
    ])

    take-caches :
        (j : ℕ)
        → j < 7
        → (m : ℕ) × Chain h.next
            (InArena g' j)
            m
            (update h.arena i (record (h.arena i) { freelist = h.next a }) j).freelist
    take-caches j ltj = elim (Bool-cases (j == i)) [
      | inl same ↦
          let e : j ≡ i = ground (arith, same) in
          rw (same, e)
            (n, Chain-map n (h.next a) (λ k b l p. (arena_kept i k b (λ _. l) p, refl)) rest)
      | inr other ↦
          let ne : j ≢ i = ground (arith, other) in
          let (m, c) = inv.caches j ltj in
          rw other (
            m,
            Chain-map m (h.arena j).freelist
                (λ k b l p. (arena_kept j k b (λ e. absurd (ne e)) p, refl)) c,
          )
    ]

    take_block-IsHeap : IsHeap (take_block i h).1 g'
    unfolding take_block
    take_block-IsHeap = record {
      sizes = λ j ltj. ground (arith, inv.sizes j ltj, inv.sizes i lt);
      fits = take-Fits;
      caches = take-caches;
      idle = λ j ltj. ground (arith, inv.idle j ltj, inv.idle i lt);
      smalls = take-smalls;
      larges = λ p m o. LargePage-keep p m (inv.larges p m o) (λ q t e. e);
    }

  allocated : g.status a ≡ in_arena n → Allocated g g' a (size_of i)
  allocated sa =
      let here : g'.status a ≡ used (size_of i) = ground arith in
      let bounds = size_of-divides i lt in
      record {
        was_free = ap bytes_in sa;
        in_use = rw here (omega (arith, bounds));
        enough = rw here (omega arith);
        others = λ b ne. ground (arith, ne);
      }

  -- A block of a list that is not empty.
  pub take_block-Allocated :
      a ≢ 0
      → (InArena g i n a)
      → Chain h.next (InArena g i) n (h.next a)
      → ((take_block i h).0 ≡ a) × IsHeap (take_block i h).1 g' × Allocated g g' a (size_of i)
  unfolding take_block
  take_block-Allocated nonnull (sa, oa) rest = (refl, take_block-IsHeap sa oa rest, allocated sa)
