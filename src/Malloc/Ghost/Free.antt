-- ===== src/Malloc/Ghost/Free.antt =====
-- `myfree` of tlibc/malloc.c on a heap and its statuses.
use linux_util.Common.{
  ℕ, suc, ◌+◌, ◌-◌, ◌*◌, ◌/◌, ◌%◌, ◌≡◌, ◌≢◌, ◌<◌, ◌⊎◌, refl, sym, ap, ◌∙◌, arith, true, false, some,
  inl, inr, Bool-cases, ◌==◌, u16,
}
use mathlib.Core.Path.{subst₂}
use linux_util.Malloc.{Heap, Unmapped, block_to_page, page_size, alloc_size}
use linux_util.Malloc.Api.{free_block, myfree}
use linux_util.Malloc.Ghost.{
  Ghost, Status, absent, in_arena, in_page, used, unowned, small, large, tail, Fits, IsHeap,
  LargePage, capacity, bytes_in, slots,
}
use linux_util.Malloc.Ghost.Keep.{Fits-large}
use linux_util.Malloc.Ghost.Apart.{in_slot, in_pages, extent}
use linux_util.Malloc.Ghost.Unmap.{is_page_of, without_pages, unmap-IsHeap}
use linux_util.Malloc.Ghost.Release.{released, freed, release-IsHeap, width, not_idle, all_free}
use linux_util.Malloc.Ghost.Idle.{Gone, without_pages-owners, arena_add_idle-IsHeap}

-- `pt` is not in use any more, and no other address has changed its use.
pub record Freed (g g' : Ghost) (pt : ℕ) : Type 0 where
  pub not_in_use : capacity g' pt ≡ 0
  pub others : (b : ℕ) → b ≢ pt → capacity g' b ≡ capacity g b
  pub owners : (q : ℕ) → (g'.owner q ≡ g.owner q) ⊎ (g'.owner q ≡ unowned)

-- Whether a block of a page is one of its `n` pages.
in_range :
    (p n q : ℕ)
    → p % page_size ≡ 0
    → is_page_of p n q ≡ true
    → (j : ℕ) × (j < n) × (q ≡ p + page_size * j)
in_range p n q aligned e = ((q - p) / page_size, ground (arith, e), ground (arith, e))

module _ (h : Heap) (g : Ghost) (inv : IsHeap h g) (pt c : ℕ) (in_use : g.status pt ≡ used c) where
  abbrev p : ℕ
  p = block_to_page pt

  -- A block of a cache.
  free_block-Freed :
      (i : ℕ)
      → g.owner p ≡ small i
      → (g' : Ghost) × IsHeap (free_block i p pt h).0 g'
        × Gone g' (free_block i p pt h).1
        × Freed g g' pt
  unfolding free_block
  free_block-Freed i owned =
      let own = inv.smalls p i owned in
      let g1 = released h g inv pt c i in_use owned in
      let h1 = freed h g inv pt c i in_use owned in
      let inv1 = release-IsHeap h g inv pt c i in_use owned in
      let one_more = width h g inv pt c i in_use owned in
      let done : Freed g g1 pt = record {
        not_in_use = ground arith;
        others = λ b ne. ground (arith, ne);
        owners = λ q. inl refl;
      } in
      elim (Bool-cases (u16 ((h.page p).avail + 1) == (h.page p).total)) [
        | inr some_used ↦ rw some_used (g1, inv1, tt, done)
        | inl all_listed ↦
            let all : suc (h.page p).avail ≡ slots i =
              ground (arith, all_listed, one_more, own.total) in
            let (g2, inv2, gone, same, owners) =
              arena_add_idle-IsHeap h1 g1 inv1 i p own.cache own.aligned owned
                (let self : (p == p) ≡ true = ground arith in rw self (one_more ∙ all))
                (not_idle h g inv pt c i in_use owned) (all_free h g inv pt c i in_use owned all) in
            rw all_listed (
              g2,
              inv2,
              gone,
              record {
                not_in_use = same pt ∙ done.not_in_use;
                others = λ b ne. same b ∙ done.others b ne;
                owners = owners;
              },
            )
      ]

  module _ (n : ℕ) (owned : g.owner p ≡ large n) where
    own : LargePage g p n (h.page p)
    own = inv.larges p n owned

    page_owner : (q : ℕ) → is_page_of p n q ≡ true → (q ≡ p) ⊎ (g.owner q ≡ tail p)
    page_owner q e =
        let (j, lo, place) = in_range p n q own.aligned e in
        elim (Bool-cases (j == 0)) [
          | inl first ↦
              let z : j ≡ 0 = ground (arith, first) in
              inl (place ∙ ap (λ (t : ℕ). p + page_size * t) z ∙ omega arith)
          | inr later ↦ inr (ap g.owner place ∙ own.whole j (ground (arith, later)) lo)
        ]

    not_small : (q j : ℕ) → g.owner q ≡ small j → is_page_of p n q ≡ false
    not_small q j o = elim (Bool-cases (is_page_of p n q)) [
      | inr away ↦ away
      | inl here ↦ elim (page_owner q here) [
        | inl first ↦ absurd (cc (o, owned, ap g.owner first))
        | inr later ↦ absurd (cc (o, later))
      ]
    ]

    -- The large block is the only one of its pages.
    rest_free :
        (b : ℕ)
        → b ≢ pt
        → is_page_of p n (block_to_page b) ≡ true
        → (s : Status) → g.status b ≡ s
        → bytes_in s ≡ 0
    rest_free b ne here absent e = refl
    rest_free b ne here (in_arena k) e = refl
    rest_free b ne here (in_page k) e = refl
    rest_free b ne here (used d) e = elim (page_owner (block_to_page b) here) [
      | inl first ↦
          let f = Fits-large (b % page_size) n d (inv.fits b) (ap g.owner first ∙ owned) e in
          let f' = Fits-large (pt % page_size) n c (inv.fits pt) owned in_use in
          absurd (ne (omega (arith, first, f, f')))
      | inr later ↦ absurd (subst₂ (λ o s. Fits o (b % page_size) s) later e (inv.fits b))
    ]

    self : is_page_of p n p ≡ true
    self = ground (arith, own.nonempty, own.aligned)

    -- The pages of a large block go back.
    large-Freed :
        IsHeap h (without_pages g p n)
        × Gone (without_pages g p n) (some (p, n * page_size))
        × Freed g (without_pages g p n) pt
    large-Freed = (
      unmap-IsHeap h g inv p n (λ j k b (sb, ob). not_small (block_to_page b) j ob)
          (λ j ltj ne. not_small (h.arena j).idlepage j (inv.idle j ltj ne).0)
          (λ q t o here. elim (page_owner q here) [
            | inl first ↦ absurd (cc (o, owned, ap g.owner first))
            | inr later ↦ let e : t ≡ p = ground (arith, o, later) in ap (is_page_of p n) e ∙ self
          ]),
      (
        own.aligned,
        λ j lo.
            let here : is_page_of p n (p + page_size * j) ≡ true = ground (arith, own.aligned) in
            rw here refl,
      ),
      record {
        not_in_use = rw self refl;
        others = λ b ne. elim (Bool-cases (is_page_of p n (block_to_page b))) [
          | inl here ↦ rw here (sym (rest_free b ne here (g.status b) refl))
          | inr away ↦ rw away refl
        ];
        owners = without_pages-owners g p n;
      },
    )

  -- A pointer that is in use goes back, and nothing else does.
  pub myfree-Freed :
      (h' : Heap) × (u : Unmapped) × (g' : Ghost) × (myfree pt h ≡ some (h', u))
      × IsHeap h' g'
      × Gone g' u
      × Freed g g' pt
  unfolding myfree
  myfree-Freed = elim (extent inv pt c in_use) [
    | in_slot i owned pos size mult room ↦
        let own = inv.smalls p i owned in
        let null : (pt == 0) ≡ false = ground (arith, own.nonnull) in
        let (g', inv', gone, done) = free_block-Freed i owned in
        (
          (free_block i p pt h).0,
          (free_block i p pt h).1,
          g',
          rw (null, own.magic, own.are) refl,
          inv',
          gone,
          done,
        )
    | in_pages n owned off room whole ↦
        let own = inv.larges p n owned in
        let null : (pt == 0) ≡ false = ground (arith, own.nonnull) in
        let pages : alloc_size (h.page p) / page_size ≡ n = omega (arith, own.pages) in
        let (inv', gone, done) = large-Freed n owned in
        (
          h,
          some (p, n * page_size),
          without_pages g p n,
          rw (null, own.magic, own.are, pages) refl,
          inv',
          gone,
          done,
        )
  ]
