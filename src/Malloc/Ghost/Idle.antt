-- ===== src/Malloc/Ghost/Idle.antt =====
-- `arena_add_idle` of tlibc/malloc.c on a heap and its statuses.
use linux_util.Common.{
  ℕ, ◌+◌, ◌*◌, ◌%◌, ◌≡◌, ◌≢◌, ◌<◌, ◌⊎◌, refl, sym, ap, ◌∙◌, arith, true, false, none, some, inl,
  inr, Bool-cases, ◌==◌,
}
use mathlib.Core.Path.{subst}
use linux_util.Malloc.{Heap, set_arena, Unmapped, block_to_page, page_size}
use linux_util.Malloc.Cache.{arena_add_idle}
use linux_util.Malloc.Ghost.{
  Ghost, Status, absent, in_arena, in_page, used, unowned, small, Fits, is_slot, size_of, IsHeap,
  InArena, Chain, capacity, bytes_in, slots,
}
use linux_util.Malloc.Ghost.Unmap.{is_page_of, without_pages, unmap-IsHeap}

-- No page of what goes back to the system has an owner.
abbrev pub Gone : Ghost → Unmapped → Type 0
Gone g none = Unit
Gone g (some (a, bytes)) =
    (a % page_size ≡ 0) × ((j : ℕ) → page_size * j < bytes → g.owner (a + page_size * j) ≡ unowned)

pub without_pages-owners :
    (g : Ghost) (p n q : ℕ)
    → ((without_pages g p n).owner q ≡ g.owner q) ⊎ ((without_pages g p n).owner q ≡ unowned)
without_pages-owners g p n q = elim (Bool-cases (is_page_of p n q)) [
  | inl gone ↦ inr (rw gone refl)
  | inr stays ↦ inl (rw stays refl)
]

-- A page whose blocks are all free becomes the idle one, or goes back.
module _ (h : Heap) (g : Ghost) (inv : IsHeap h g) (i p : ℕ) (lt : i < 7)
    (aligned : p % page_size ≡ 0) (owned : g.owner p ≡ small i) (full : (h.page p).avail ≡ slots i)
    (apart : (j : ℕ) → j < 7 → (h.arena j).idlepage ≢ 0 → ((h.arena j).idlepage == p) ≡ false)
    (all : (b : ℕ)
      → block_to_page b ≡ p
      → is_slot (size_of i) (b % page_size) ≡ true
      → (k : ℕ) × (g.status b ≡ in_page k)) where
  -- None of its blocks is in use or on the list of a cache.
  free_in :
      (b : ℕ)
      → block_to_page b ≡ p
      → (s : Status) → g.status b ≡ s
      → Fits (small i) (b % page_size) s
      → (bytes_in s ≡ 0) × ((k : ℕ) → s ≢ in_arena k)
  free_in b pb absent e f = (refl, λ k t. cc t)
  free_in b pb (in_page k) e f = (refl, λ k t. cc t)
  free_in b pb (in_arena k) e f = let (m, e') = all b pb f in absurd (cc (e, e'))
  free_in b pb (used c) e f = let (m, e') = all b pb f.0 in absurd (cc (e, e'))

  free_at : (b : ℕ) → block_to_page b ≡ p → (capacity g b ≡ 0) × ((k : ℕ) → g.status b ≢ in_arena k)
  free_at b pb =
      free_in b pb (g.status b) refl
        (subst (λ o. Fits o (b % page_size) (g.status b)) (ap g.owner pb ∙ owned) (inv.fits b))

  only : (q : ℕ) → is_page_of p 1 q ≡ true → q ≡ p
  only q e = ground (arith, e)

  idle-IsHeap : IsHeap (set_arena i (record (h.arena i) { idlepage = p }) h) g
  idle-IsHeap = record {
    sizes = λ j ltj. ground (arith, inv.sizes j ltj, inv.sizes i lt);
    fits = inv.fits;
    caches = λ j ltj.
        let (m, c) = inv.caches j ltj in
        (m, subst (λ t. Chain h.next (InArena g j) m t) (ground arith) c);
    idle = λ j ltj. elim (Bool-cases (j == i)) [
      | inl same ↦
          let e : j ≡ i = ground (arith, same) in
          rw same (λ ne. (owned ∙ ap small (sym e), full ∙ ap slots (sym e)))
      | inr other ↦ rw other (inv.idle j ltj)
    ];
    smalls = inv.smalls;
    larges = inv.larges;
  }

  gone-IsHeap : IsHeap h (without_pages g p 1)
  gone-IsHeap =
      unmap-IsHeap h g inv p 1
        (λ j k b (sb, ob). elim (Bool-cases (is_page_of p 1 (block_to_page b))) [
          | inl here ↦ absurd ((free_at b (only (block_to_page b) here)).1 k sb)
          | inr away ↦ away
        ])
        (λ j ltj ne. ground (arith, apart j ltj ne))
        (λ q t o here. absurd (cc (o, owned, ap g.owner (only q here))))

  gone-capacity : (b : ℕ) → capacity (without_pages g p 1) b ≡ capacity g b
  gone-capacity b = elim (Bool-cases (is_page_of p 1 (block_to_page b))) [
    | inl here ↦ rw here (sym (free_at b (only (block_to_page b) here)).0)
    | inr away ↦ rw away refl
  ]

  pub arena_add_idle-IsHeap :
      (g' : Ghost) × IsHeap (arena_add_idle i p h).0 g'
      × Gone g' (arena_add_idle i p h).1
      × ((b : ℕ) → capacity g' b ≡ capacity g b)
      × ((q : ℕ) → (g'.owner q ≡ g.owner q) ⊎ (g'.owner q ≡ unowned))
  unfolding arena_add_idle
  arena_add_idle-IsHeap = elim (Bool-cases ((h.arena i).idlepage == 0)) [
    | inl none_yet ↦ rw none_yet (g, idle-IsHeap, tt, λ b. refl, λ q. inl refl)
    | inr other ↦ rw other (
      without_pages g p 1,
      gone-IsHeap,
      (aligned, λ j lo. ground arith),
      gone-capacity,
      without_pages-owners g p 1,
    )
  ]
