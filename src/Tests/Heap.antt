-- ===== src/Tests/Heap.antt =====
-- A short program on the allocator of tlibc/malloc.c.
use linux_util.Common.{
  ℕ, ◌+◌, ◌*◌, ◌%◌, ◌≡◌, ◌≢◌, ◌≤◌, ◌⊎◌, refl, arith, Bool, true, inl, inr, ◌==◌, if◌then◌else◌,
  Option, none, some, [], ◌∷◌,
}
use linux_util.Malloc.{Heap, Unmapped, page_size, block_to_page, header_bytes}
use linux_util.Malloc.Page.{
  freelist_init, freelist_free, freelist_alloc, first_offset, init_blocks, page_header_init,
}
use linux_util.Malloc.Links.{IsEnded, alloc-free}
use linux_util.Malloc.Cpp.{cpp_free-alloc}
use linux_util.Malloc.Ghost.{Chain, size_of}
use linux_util.Malloc.Ghost.Slots.{start_of}
use linux_util.Malloc.Ghost.Fill.{page_header_init-fills}
use linux_util.Malloc.History.Exit.{Avoids, fini-apart}
use linux_util.Malloc.Cache.{seize, take_block, ensure_idle, arena_alloc}
use linux_util.Malloc.Api.{
  find_arena, mymalloc, myfree, Reallocated, myrealloc, cpp_alloc, cpp_free, malloc_fini, ncaches,
}
use linux_util.Malloc.History.{malloc, asked, boot, IsMmap, Run, begin, call_malloc}
use linux_util.Malloc.History.Safety.{
  Held, Run-Held, Run-apart, Run-aligned, Run-mapped, malloc-fresh, free-accepts, realloc-Carries,
}
use linux_util.Malloc.History.Resize.{Carries}

-- One page, at 65536.
abbrev one_page : ℕ → Option ℕ
one_page bytes = if bytes == 4096 then some 65536 else none

abbrev no_pages : ℕ → Option ℕ
no_pages bytes = none

abbrev page_at : ℕ → Bool
page_at q = q == 65536

one_page-IsMmap : IsMmap one_page boot.mapped page_at
one_page-IsMmap = record {
  nonnull = λ bytes a e. ground (arith, e);
  aligned = λ bytes a e. ground (arith, e);
  new = λ bytes a j e lt. ground (arith, e, lt);
  kept = λ q e. absurd (cc e);
}

no_pages-IsMmap : IsMmap no_pages page_at page_at
no_pages-IsMmap = record {
  nonnull = λ bytes a e. absurd (cc e);
  aligned = λ bytes a e. absurd (cc e);
  new = λ bytes a j e lt. absurd (cc e);
  kept = λ q e. e;
}

abbrev first_heap : Heap
first_heap = (mymalloc one_page 24 boot.heap).1

abbrev second_heap : Heap
second_heap = (mymalloc no_pages 20 first_heap).1

first_pointer : (mymalloc one_page 24 boot.heap).0 ≡ 69600
unfolding mymalloc arena_alloc ensure_idle page_header_init init_blocks first_offset seize
    take_block find_arena
first_pointer = refl

second_pointer : (mymalloc no_pages 20 first_heap).0 ≡ 69568
unfolding mymalloc arena_alloc ensure_idle page_header_init init_blocks first_offset seize
    take_block find_arena
second_pointer = refl

abbrev second_pointer_of : ℕ → ℕ
second_pointer_of size = (mymalloc no_pages size second_heap).0

two_blocks :
    Run
      (malloc 20 (mymalloc no_pages 20 first_heap).0
        ∷ malloc 24 (mymalloc one_page 24 boot.heap).0
        ∷ [])
      (record { heap = second_heap; mapped = page_at })
two_blocks =
    call_malloc (call_malloc begin one_page-IsMmap 24 (ground arith)) no_pages-IsMmap 20
      (ground arith)

two : Run (malloc 20 69568 ∷ malloc 24 69600 ∷ []) (record { heap = second_heap; mapped = page_at })
unfolding mymalloc arena_alloc ensure_idle page_header_init init_blocks first_offset seize
    take_block find_arena
two = two_blocks

asked_first : asked (malloc 20 69568 ∷ malloc 24 69600 ∷ []) 69600 ≡ some 24
unfolding asked
asked_first = refl

asked_second : asked (malloc 20 69568 ∷ malloc 24 69600 ∷ []) 69568 ≡ some 20
unfolding asked
asked_second = refl

Run-apart_example : (69600 + 24 ≤ 69568) ⊎ (69568 + 20 ≤ 69600)
Run-apart_example = Run-apart two 69600 69568 24 20 asked_first asked_second (ground arith)

Run-aligned_example : 69600 % 16 ≡ 0
Run-aligned_example = Run-aligned two 69600 24 asked_first

Run-mapped_example : page_at (block_to_page (69600 + 23)) ≡ true
Run-mapped_example = Run-mapped two 69600 24 23 asked_first (omega arith)

malloc-fresh_example :
    ((second_pointer_of 100 ≡ 0) × ((bytes : ℕ) × (no_pages bytes ≡ none)))
    ⊎ ((second_pointer_of 100 ≢ 0)
        × (asked (malloc 20 69568 ∷ malloc 24 69600 ∷ []) (second_pointer_of 100) ≡ none))
malloc-fresh_example = malloc-fresh two no_pages-IsMmap 100 (ground arith)

free-accepts_example : (h : Heap) × (u : Unmapped) × (myfree 69568 second_heap ≡ some (h, u))
free-accepts_example = free-accepts two 69568 (inr (20, asked_second))

realloc-Carries_example :
    (r : Reallocated) × (myrealloc no_pages 69600 30 second_heap ≡ some r) × Carries 69600 24 30 r
realloc-Carries_example = realloc-Carries two no_pages-IsMmap 69600 24 30 asked_first (ground arith)

Run-Held_example :
    Held (malloc 20 69568 ∷ malloc 24 69600 ∷ []) (record { heap = second_heap; mapped = page_at })
Run-Held_example = Run-Held two

fini-apart_example : Avoids (block_to_page 69600) (malloc_fini ncaches 0 second_heap)
fini-apart_example = fini-apart two 69600 24 asked_first

cpp_free-alloc_example :
    (bytes : ℕ) × (5000 ≤ bytes)
    × (((one_page bytes ≡ none) × ((cpp_alloc one_page 5000 second_heap).0 ≡ 0))
        ⊎ ((one_page bytes ≡ some (cpp_alloc one_page 5000 second_heap).0)
            × ((cpp_alloc one_page 5000 second_heap).0 ≢ 0
                → cpp_free (cpp_alloc one_page 5000 second_heap).0 5000 first_heap
                  ≡ some (first_heap, some ((cpp_alloc one_page 5000 second_heap).0, bytes)))))
cpp_free-alloc_example =
    cpp_free-alloc one_page 5000 second_heap first_heap (ground arith) (ground arith)

alloc-free_example :
    (let r = freelist_free freelist_init 69600 first_heap.next in
      IsEnded r.0 × (freelist_alloc r.0 r.1 ≡ (69600, freelist_init)))
alloc-free_example =
    alloc-free freelist_init 69600 first_heap.next (inl (refl, refl)) (ground arith) (ground arith)

page_header_init-fills_example :
    (let h' = page_header_init 1 65536 boot.heap in
      let ph = h'.page 65536 in
      (header_bytes ≤ start_of 1)
      × (start_of 1 + size_of 1 * ph.total ≡ page_size)
      × (ph.avail ≡ ph.total)
      × Chain h'.next (λ k b. b ≡ 65536 + (start_of 1 + size_of 1 * k)) ph.total ph.fl.first)
page_header_init-fills_example =
    page_header_init-fills boot.heap 1 65536 (ground arith) refl refl (ground arith)
