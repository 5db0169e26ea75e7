-- ===== src/Malloc/Api.antt =====
-- The functions that a program calls. `none` is the abort on a pointer that is not a block's.
use linux_util.Common.{
  ℕ, zero, suc, ◌+◌, ◌-◌, ◌*◌, ◌/◌, ◌^◌, Option, none, some, not, ltb, leb, ◌==◌, if◌then◌else◌,
  ◌>>=◌, List, [], ◌∷◌, u16, u64, sub64,
}
use linux_util.Malloc.{
  Arena, Heap, update, set_page, Unmapped, free_page, block_to_page, page_size, magic_number,
  header_bytes, alloc_size,
}
use linux_util.Malloc.Page.{freelist_free}
use linux_util.Malloc.Cache.{count_pages, alloc_page, arena_alloc, arena_add_idle}

-- `caches` before the first call.
abbrev pub caches : ℕ → Arena
caches i = record { freelist = 0; idlepage = 0; block_size = 16 * 2 ^ i }

abbrev pub ncaches : ℕ
ncaches = 7

-- The first cache, from `are` on, whose blocks are large enough.
unfoldable pub find_arena : (left are size : ℕ) → Heap → ℕ
find_arena zero are size h = are
find_arena (suc left) are size h =
    let rest = find_arena left (suc are) size h in
    if ltb (h.arena are).block_size size then rest else are

-- The pages for a large allocation of `size` bytes.
abbrev pub pages_for : ℕ → ℕ
pages_for size = sub64 (u64 (u64 (size + header_bytes) + page_size)) 1 / page_size

module _ (mmap : ℕ → Option ℕ) where
  unfoldable pub alloc_large : (size : ℕ) → Heap → ℕ × Heap
  alloc_large size h =
      let pages = pages_for size in
      let h1 = count_pages pages h in
      elim (alloc_page mmap pages) [
        | none ↦ (0, h1)
        | some ret ↦
            let ph = record (h1.page ret) {
              are = none;
              fl = record ((h1.page ret).fl) { first = pages * page_size };
              magic = magic_number;
            } in
            (ret + header_bytes, set_page ret ph h1)
      ]

  unfoldable pub mymalloc : (size : ℕ) → Heap → ℕ × Heap
  mymalloc size h =
      if ltb 1024 size then alloc_large size h else arena_alloc mmap (find_arena ncaches 0 size h) h

  -- Without a header for a large size.
  unfoldable pub cpp_alloc : (size : ℕ) → Heap → ℕ × Heap
  cpp_alloc size h =
      let pages = u64 (size + (page_size - 1)) / page_size in
      if ltb 1024 size
      then elim (alloc_page mmap pages) [
        | none ↦ (0, count_pages pages h)
        | some ret ↦ (ret, count_pages pages h)
      ]
      else mymalloc size h

-- A block of a cache goes back to its page.
unfoldable pub free_block : (are ph pt : ℕ) → Heap → Heap × Unmapped
free_block are ph pt h =
    let old = h.page ph in
    let (fl, next) = freelist_free old.fl pt h.next in
    let avail = u16 (old.avail + 1) in
    let h1 = record h {
      next = next;
      page = update h.page ph (record old { avail = avail; fl = fl });
    } in
    if avail == old.total then arena_add_idle are ph h1 else (h1, none)

unfoldable pub myfree : (pt : ℕ) → Heap → Option (Heap × Unmapped)
myfree pt h =
    let p = block_to_page pt in
    let ph = h.page p in
    if pt == 0
    then some (h, none)
    else if not (ph.magic == magic_number)
    then none
    else elim ph.are [
      | none ↦ some (h, free_page p (alloc_size ph / page_size))
      | some are ↦ some (free_block are p pt h)
    ]

unfoldable pub cpp_free : (pt size : ℕ) → Heap → Option (Heap × Unmapped)
cpp_free pt size h =
    if ltb 1024 size
    then some
        (h, if pt == 0 then none else free_page pt (sub64 (u64 (size + page_size)) 1 / page_size))
    else myfree pt h

-- The pointer, the heap, and the calls of `memcpy` (target, source, bytes) and of `munmap`.
pub record Reallocated : Type 0 where
  pub pointer : ℕ
  pub heap : Heap
  pub copied : Option (ℕ × ℕ × ℕ)
  pub unmapped : Unmapped

module _ (mmap : ℕ → Option ℕ) where
  -- A new block for `size` bytes, to which the `old` bytes of the block at `pt` are copied.
  unfoldable pub move_block : (pt old size : ℕ) → Heap → Option Reallocated
  move_block pt old size h =
      let (newpt, h1) = mymalloc mmap size h in
      if newpt == 0
      then some (record { pointer = 0; heap = h1; copied = none; unmapped = none })
      else do
        (h2, u) ← myfree pt h1
        some (record { pointer = newpt; heap = h2; copied = some (newpt, pt, old); unmapped = u })

  unfoldable pub myrealloc : (pt size : ℕ) → Heap → Option Reallocated
  myrealloc pt size h =
      let ph = h.page (block_to_page pt) in
      let stay = some (record { pointer = pt; heap = h; copied = none; unmapped = none }) in
      let (fresh, h1) = mymalloc mmap size h in
      if pt == 0
      then some (record { pointer = fresh; heap = h1; copied = none; unmapped = none })
      else elim ph.are [
        | none ↦
            let room = sub64 (alloc_size ph) header_bytes in
            if leb size room then stay else move_block pt room size h
        | some are ↦
            let room = (h.arena are).block_size in
            if leb size room then stay else move_block pt room size h
      ]

-- At the exit of the program: the pages that go back, one for each cache with an idle page.
unfoldable pub malloc_fini : (left i : ℕ) → Heap → List (ℕ × ℕ)
malloc_fini zero i h = []
malloc_fini (suc left) i h =
    let rest = malloc_fini left (suc i) h in
    if (h.arena i).idlepage == 0 then rest else ((h.arena i).idlepage, page_size) ∷ rest
