-- ===== src/Malloc/Ghost/Fill.antt =====
-- `page_header_init` of tlibc/malloc.c divides the whole page.
use linux_util.Common.{ℕ, ◌+◌, ◌*◌, ◌%◌, ◌≡◌, ◌≢◌, ◌≤◌, ◌<◌, refl, sym, ap, ◌∙◌, arith, true, ◌==◌}
use mathlib.Core.Path.{subst}
use linux_util.Malloc.{Heap, page_size, header_bytes}
use linux_util.Malloc.Page.{page_header_init, init_blocks, freelist_init}
use linux_util.Malloc.Ghost.{Chain, size_of}
use linux_util.Malloc.Ghost.Lists.{size_of-divides}
use linux_util.Malloc.Ghost.Slots.{slots_lem, start_of}
use linux_util.Malloc.Ghost.Blocks.{first_offset_lem, new_blocks-Listed}

header-before : (i : ℕ) → i < 7 → header_bytes ≤ start_of i
header-before i lt = let sizes = size_of-divides i lt in ground (arith, sizes)

-- The rounds of the two loops are enough: the blocks of a new page, each on its list with all before
-- it behind it, fill the page from the first multiple of their size behind the header to its end,
-- and are counted twice.
pub page_header_init-fills :
    (h : Heap) (i page : ℕ)
    → i < 7
    → (h.arena i).block_size ≡ size_of i
    → page % page_size ≡ 0
    → page ≢ 0
    → (let h' = page_header_init i page h in
        let ph = h'.page page in
        (header_bytes ≤ start_of i)
        × (start_of i + size_of i * ph.total ≡ page_size)
        × (ph.avail ≡ ph.total)
        × Chain h'.next (λ k b. b ≡ page + (start_of i + size_of i * k)) ph.total ph.fl.first)
unfolding page_header_init
page_header_init-fills h i page lt size aligned nonnull =
    let (all, l) = new_blocks-Listed i lt page aligned nonnull h.next in
    let self : (page == page) ≡ true = ground arith in
    rw (size, first_offset_lem i lt, self)
      (
        header-before i lt,
        ap (λ n. start_of i + size_of i * n) all ∙ slots_lem i lt,
        refl,
        subst
            (λ n.
              Chain (init_blocks 256 (size_of i) page (start_of i) 0 freelist_init h.next).2
                (λ k b. b ≡ page + (start_of i + size_of i * k)) n
                (init_blocks 256 (size_of i) page (start_of i) 0 freelist_init h.next).0.first)
            (sym all) l.listed,
      )
