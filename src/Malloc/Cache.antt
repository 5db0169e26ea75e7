-- ===== src/Malloc/Cache.antt =====
-- One cache of blocks. `mmap` gives the address of so many new bytes, or nothing.
use linux_util.Common.{ℕ, ◌+◌, ◌*◌, Option, none, some, ◌==◌, if◌then◌else◌, u64}
use linux_util.Malloc.{Heap, update, set_arena, Unmapped, free_page, page_size}
use linux_util.Malloc.Page.{freelist_init, page_header_init}

-- The size is counted before the call, whether or not it succeeds.
abbrev pub count_pages : (pages : ℕ) → Heap → Heap
count_pages pages h = record h { nalloc = u64 (h.nalloc + pages * page_size) }

-- All blocks of the idle page go to the cache.
unfoldable pub seize : (are : ℕ) → Heap → Heap
seize are h =
    let p = (h.arena are).idlepage in
    let ph = h.page p in
    record h {
      next = update h.next ph.fl.last (h.arena are).freelist;
      page = update h.page p (record ph { avail = 0; fl = freelist_init });
      arena = update h.arena are (record (h.arena are) { freelist = ph.fl.first; idlepage = 0 });
    }

unfoldable pub take_block : (are : ℕ) → Heap → ℕ × Heap
take_block are h =
    let ret = (h.arena are).freelist in
    (ret, set_arena are (record (h.arena are) { freelist = h.next ret }) h)

module _ (mmap : ℕ → Option ℕ) where
  abbrev pub alloc_page : (pages : ℕ) → Option ℕ
  alloc_page pages = mmap (pages * page_size)

  -- An idle page, where the cache has none; `none` if there is no memory for one.
  unfoldable pub ensure_idle : (are : ℕ) → Heap → Option Heap
  ensure_idle are h =
      if (h.arena are).idlepage == 0
      then elim (alloc_page 1) [
        | none ↦ none
        | some page ↦
            let h1 = page_header_init are page (count_pages 1 h) in
            some (set_arena are (record (h1.arena are) { idlepage = page }) h1)
      ]
      else some h

  unfoldable pub arena_alloc : (are : ℕ) → Heap → ℕ × Heap
  arena_alloc are h =
      if (h.arena are).freelist == 0
      then elim (ensure_idle are h) [
        | none ↦ (0, count_pages 1 h)
        | some h1 ↦ take_block are (seize are h1)
      ]
      else take_block are h

-- A page whose blocks are all free is kept, or unmapped where the cache has one.
unfoldable pub arena_add_idle : (are ph : ℕ) → Heap → Heap × Unmapped
arena_add_idle are ph h =
    if (h.arena are).idlepage == 0
    then (set_arena are (record (h.arena are) { idlepage = ph }) h, none)
    else (h, free_page ph 1)
