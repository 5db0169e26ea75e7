-- ===== src/Malloc/Ghost/Alloc.antt =====
-- `arena_alloc` and `mymalloc` of tlibc/malloc.c on a heap and its statuses.
use linux_util.Common.{
  ℕ, zero, suc, ◌+◌, ◌-◌, ◌*◌, ◌/◌, ◌%◌, ◌^◌, ◌≡◌, ◌≢◌, ◌≤◌, ◌<◌, ◌⊎◌, refl, sym, ap, ◌∙◌, arith,
  false, none, some, Option, inl, inr, Bool-cases, ◌==◌, ltb, ltb→lt,
}
use mathlib.Core.Path.{subst}
use linux_util.Malloc.{Heap, page_size}
use linux_util.Malloc.Cache.{count_pages, seize, take_block, ensure_idle, arena_alloc}
use linux_util.Malloc.Api.{ncaches, find_arena, pages_for, alloc_large, mymalloc}
use linux_util.Malloc.Ghost.{Ghost, used, unowned, IsHeap, InArena, capacity, size_of}
use linux_util.Malloc.Ghost.Lists.{Chain-first}
use linux_util.Malloc.Ghost.Take.{Allocated, with_status, take_block-Allocated}
use linux_util.Malloc.Ghost.Seize.{promoted, seize-IsHeap, seize-capacity, seize-freelist}
use linux_util.Malloc.Ghost.Fresh.{
  with_page, page_header_init_lem, fresh_page-IsHeap, fresh_page-capacity,
}
use linux_util.Malloc.Ghost.Large.{is_later, with_pages, large-IsHeap, large-Allocated}

-- What `mmap` documents: the address of whole pages, none of which is mapped.
pub record MapsNew (mmap : ℕ → Option ℕ) (g : Ghost) : Type 0 where
  pub nonnull : (bytes a : ℕ) → mmap bytes ≡ some a → a ≢ 0
  pub aligned : (bytes a : ℕ) → mmap bytes ≡ some a → a % page_size ≡ 0
  pub new :
      (bytes a j : ℕ)
      → mmap bytes ≡ some a
      → page_size * j < bytes
      → g.owner (a + page_size * j) ≡ unowned

-- A page has another owner only where `mmap` has given it.
abbrev pub Owners : (ℕ → Option ℕ) → (g g' : Ghost) → Type 0
Owners mmap g g' =
    (q : ℕ)
    → (g'.owner q ≡ g.owner q)
      ⊎ ((bytes : ℕ) × (a : ℕ) × (j : ℕ) × (mmap bytes ≡ some a)
          × (page_size * j < bytes)
          × (q ≡ a + page_size * j))

-- An allocation of `size` bytes gives null only where `mmap` fails, with no other change, or a block
-- that was free.
pub data Outcome (mmap : ℕ → Option ℕ) (g : Ghost) (size : ℕ) (r : ℕ × Heap) : Type 0 where
  refused : (bytes : ℕ) → mmap bytes ≡ none → r.0 ≡ 0 → IsHeap r.1 g → Outcome mmap g size r
  given :
      (g' : Ghost)
      → r.0 ≢ 0
      → IsHeap r.1 g'
      → Allocated g g' r.0 size
      → Owners mmap g g'
      → Outcome mmap g size r

Allocated-from :
    {g g1 g' : Ghost} {a s size : ℕ}
    → ((b : ℕ) → capacity g1 b ≡ capacity g b)
    → size ≤ s
    → Allocated g1 g' a s
    → Allocated g g' a size
Allocated-from {g} {g1} {g'} {a} same le al = record {
  was_free = sym (same a) ∙ al.was_free;
  in_use = al.in_use;
  enough = omega (arith, al.enough);
  others = λ b ne. al.others b ne ∙ same b;
}

Option-cases : (o : Option ℕ) → (o ≡ none) ⊎ ((a : ℕ) × (o ≡ some a))
Option-cases none = inl refl
Option-cases (some a) = inr (a, refl)

module _ (mmap : ℕ → Option ℕ) (g : Ghost) (i : ℕ) (lt : i < 7) where
  take_block-Outcome :
      (h : Heap) (g1 : Ghost)
      → IsHeap h g1
      → (h.arena i).freelist ≢ 0
      → ((b : ℕ) → capacity g1 b ≡ capacity g b)
      → Owners mmap g g1
      → (size : ℕ) → size ≤ size_of i
      → Outcome mmap g size (take_block i h)
  take_block-Outcome h g1 inv nonempty same owners size le =
      let (n, c) = inv.caches i lt in
      let (k, here, rest) = Chain-first h.next (InArena g1 i) n (h.arena i).freelist nonempty c in
      let (e, inv', al) = take_block-Allocated h g1 inv i k lt nonempty here rest in
      let g' = with_status g1 (h.arena i).freelist (used (size_of i)) in
      given g' (λ z. nonempty (sym e ∙ z)) inv'
        (subst (λ t. Allocated g g' t size) (sym e) (Allocated-from same le al)) owners

  -- With an idle page.
  seize-Outcome :
      (h : Heap) (g1 : Ghost)
      → IsHeap h g1
      → (h.arena i).freelist ≡ 0
      → (h.arena i).idlepage ≢ 0
      → ((b : ℕ) → capacity g1 b ≡ capacity g b)
      → Owners mmap g g1
      → (size : ℕ) → size ≤ size_of i
      → Outcome mmap g size (take_block i (seize i h))
  seize-Outcome h g1 inv empty has_idle same owners size le =
      let (e, nonnull) = seize-freelist h g1 inv i lt empty has_idle in
      take_block-Outcome (seize i h) (promoted g1 (h.arena i).idlepage)
        (seize-IsHeap h g1 inv i lt empty has_idle) (λ z. nonnull (sym e ∙ z))
        (λ b. seize-capacity h g1 inv i lt empty has_idle b ∙ same b) owners size le

  pub arena_alloc-Outcome :
      (h : Heap)
      → IsHeap h g
      → MapsNew mmap g
      → (size : ℕ) → size ≤ size_of i
      → Outcome mmap g size (arena_alloc mmap i h)
  unfolding arena_alloc ensure_idle
  arena_alloc-Outcome h inv maps size le = elim (Bool-cases ((h.arena i).freelist == 0)) [
    | inr listed ↦
        rw listed
          (take_block-Outcome h g inv (ground (arith, listed)) (λ b. refl) (λ q. inl refl) size le)
    | inl unlisted ↦
        let empty : (h.arena i).freelist ≡ 0 = ground (arith, unlisted) in
        elim (Bool-cases ((h.arena i).idlepage == 0)) [
          | inr idle ↦
              rw (unlisted, idle)
                (seize-Outcome h g inv empty (ground (arith, idle)) (λ b. refl) (λ q. inl refl) size
                  le)
          | inl busy ↦ elim (Option-cases (mmap (1 * page_size))) [
            | inl failed ↦ rw (unlisted, busy, failed) (refused (1 * page_size) failed refl inv)
            | inr (page, mapped) ↦
                let hc = count_pages 1 h in
                let aligned = maps.aligned (1 * page_size) page mapped in
                let nonnull = maps.nonnull (1 * page_size) page mapped in
                let at_start : page + page_size * 0 ≡ page = omega arith in
                let new : g.owner page ≡ unowned =
                  ap g.owner (sym at_start)
                  ∙ maps.new (1 * page_size) page 0 mapped (omega arith) in
                rw (unlisted, busy, mapped)
                  (subst (λ t. Outcome mmap g size (take_block i (seize i t)))
                    (sym (page_header_init_lem hc g inv i lt page aligned nonnull new))
                    (seize-Outcome _ (with_page g i page)
                      (fresh_page-IsHeap hc g inv i lt page aligned nonnull new)
                      (ground (arith, empty)) (ground (arith, nonnull))
                      (fresh_page-capacity hc g inv i lt page aligned nonnull new)
                      (λ q. elim (Bool-cases (q == page)) [
                        | inl first ↦
                            let e : q ≡ page = ground (arith, first) in
                            inr (1 * page_size, page, 0, mapped, omega arith, omega arith)
                        | inr other ↦ inl (rw other refl)
                      ])
                      size le))
          ]
        ]
  ]

-- The first cache whose blocks are large enough.
find_arena_lem :
    (h : Heap) (g : Ghost)
    → IsHeap h g
    → (size : ℕ) → size ≤ 1024
    → (left are : ℕ) → left + are ≡ 6
    → (let i = find_arena (suc left) are size h in (i < 7) × (size ≤ size_of i))
unfolding find_arena
find_arena_lem h g inv size le zero are e =
    let six : are ≡ 6 = omega arith in
    let here : (h.arena are).block_size ≡ 1024 = inv.sizes are (omega arith) ∙ ap size_of six in
    let stop : ltb (h.arena are).block_size size ≡ false = ground (arith, here) in
    rw stop (omega arith, rw six le)
find_arena_lem h g inv size le (suc left) are e =
    elim (Bool-cases (ltb (h.arena are).block_size size)) [
      | inl more ↦ rw more (find_arena_lem h g inv size le left (suc are) (omega arith))
      | inr stop ↦
          let here = inv.sizes are (omega arith) in
          rw stop (omega arith, ground (arith, here, stop))
    ]

module _ (mmap : ℕ → Option ℕ) (h : Heap) (g : Ghost) (inv : IsHeap h g)
    (maps : MapsNew mmap g) where
  with_pages-Owners :
      (n a : ℕ) → 0 < n → mmap (n * page_size) ≡ some a → Owners mmap g (with_pages g a n)
  with_pages-Owners n a pos mapped q =
      let aligned = maps.aligned (n * page_size) a mapped in
      elim (Bool-cases (q == a)) [
        | inl first ↦
            let e : q ≡ a = ground (arith, first) in
            inr (n * page_size, a, 0, mapped, omega arith, omega arith)
        | inr other ↦ elim (Bool-cases (is_later a n q)) [
          | inl later ↦ inr (
            n * page_size,
            a,
            (q - a) / page_size,
            mapped,
            ground (arith, later),
            ground (arith, later),
          )
          | inr apart ↦ inl (rw (other, apart) refl)
        ]
      ]

  alloc_large-Outcome :
      (size : ℕ)
      → 1024 < size
      → size + 4127 < 2 ^ 64
      → Outcome mmap g size (alloc_large mmap size h)
  unfolding alloc_large
  alloc_large-Outcome size big bound =
      let n = pages_for size in
      let pages : n ≡ (size + 4127) / 4096 = omega arith in
      elim (Option-cases (mmap (n * page_size))) [
        | inl failed ↦ rw (failed, alloc_large) (refused (n * page_size) failed refl inv)
        | inr (a, mapped) ↦
            let nonnull = maps.nonnull (n * page_size) a mapped in
            let aligned = maps.aligned (n * page_size) a mapped in
            let new = λ (j : ℕ) (l : j < n). maps.new (n * page_size) a j mapped (omega arith) in
            let pos : 0 < n = omega arith in
            rw (mapped, alloc_large)
              (given (with_pages g a n) (omega arith)
                (large-IsHeap (count_pages n h) g inv a n pos (omega arith) aligned nonnull new)
                (large-Allocated (count_pages n h) g inv a n pos (omega arith) aligned nonnull new
                  size (omega arith) (omega arith))
                (with_pages-Owners n a pos mapped))
      ]

  -- Every allocation gives null where `mmap` fails, or a block of that size that was free.
  pub mymalloc-Outcome :
      (size : ℕ) → size + 4127 < 2 ^ 64 → Outcome mmap g size (mymalloc mmap size h)
  unfolding mymalloc
  mymalloc-Outcome size bound = elim (Bool-cases (ltb 1024 size)) [
    | inl big ↦ rw big (alloc_large-Outcome size (ltb→lt _ _ big) bound)
    | inr fits ↦
        let le : size ≤ 1024 = ground (arith, fits) in
        let (lt, room) = find_arena_lem h g inv size le 6 0 refl in
        rw fits (arena_alloc-Outcome mmap g (find_arena ncaches 0 size h) lt h inv maps size room)
  ]
