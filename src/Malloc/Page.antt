-- ===== src/Malloc/Page.antt =====
-- The lists of free blocks, and the header of a page of blocks.
use linux_util.Common.{ℕ, zero, suc, ◌+◌, some, ltb, u16, ◌==◌, if◌then◌else◌}
use linux_util.Malloc.{Freelist, Heap, update, page_size, magic_number, header_bytes}

abbrev pub freelist_init : Freelist
freelist_init = record { first = 0; last = 0 }

-- The list, and the links.
abbrev pub freelist_free : Freelist → (blk : ℕ) → (ℕ → ℕ) → Freelist × (ℕ → ℕ)
freelist_free fl blk next = (
  record { first = blk; last = if fl.first == 0 then blk else fl.last },
  update next blk fl.first,
)

-- The block, or null, and the list.
unfoldable pub freelist_alloc : Freelist → (ℕ → ℕ) → ℕ × Freelist
freelist_alloc fl next = if fl.first == 0 then (0, fl) else (
  fl.first,
  record { first = next fl.first; last = if fl.last == fl.first then 0 else fl.last },
)

-- The first multiple of the block size behind the header; a round for each of its bytes at most.
unfoldable pub first_offset : (fuel bsize offset : ℕ) → ℕ
first_offset zero bsize offset = offset
first_offset (suc fuel) bsize offset =
    let rest = first_offset fuel bsize (offset + bsize) in
    if ltb offset header_bytes then rest else offset

-- The loop that puts each block of a page on its list, with the links and the count so far.
unfoldable pub init_blocks :
    (fuel bsize page offset avail : ℕ) → Freelist → (ℕ → ℕ) → Freelist × ℕ × (ℕ → ℕ)
init_blocks zero bsize page offset avail fl next = (fl, avail, next)
init_blocks (suc fuel) bsize page offset avail fl next =
    let b = page + offset in
    let (fl', next') = freelist_free fl b (update next b 0) in
    let rest = init_blocks fuel bsize page (offset + bsize) (u16 (avail + 1)) fl' next' in
    if ltb offset page_size then rest else (fl, avail, next)

-- A block has 16 bytes at least, so that 256 rounds are enough.
unfoldable pub page_header_init : (are page : ℕ) → Heap → Heap
page_header_init are page h =
    let bsize = (h.arena are).block_size in
    let (fl, avail, next) =
      init_blocks 256 bsize page (first_offset header_bytes bsize 0) 0 freelist_init h.next in
    record h {
      next = next;
      page =
          update h.page page (record {
            are = some are;
            fl = fl;
            avail = avail;
            magic = magic_number;
            total = avail;
          });
    }
