-- ===== src/Malloc.antt =====
-- tlibc/malloc.c: an allocator with seven caches of blocks and whole pages for what is larger.
-- The heap is typed: the link of each block, the header of each page and the table of caches are
-- separate maps. Pointers are addresses, and 0 is the null pointer.
pub mod Page
pub mod Links
pub mod Ghost
pub mod Cache
pub mod Api
pub mod Cpp
pub mod History
use linux_util.Common.{ℕ, ◌+◌, ◌-◌, ◌*◌, ◌%◌, Option, none, some, ◌==◌, if◌then◌else◌}

abbrev pub page_size : ℕ
page_size = 4096

abbrev pub magic_number : ℕ
magic_number = 0x55aa

-- `sizeof(struct page_header)`.
abbrev pub header_bytes : ℕ
header_bytes = 32

pub record Freelist : Type 0 where
  pub first : ℕ
  pub last : ℕ

-- `are` is the index of the cache. `alloc_size` is the first word of the union with `fl`.
pub record PageHeader : Type 0 where
  pub are : Option ℕ
  pub fl : Freelist
  pub avail : ℕ
  pub magic : ℕ
  pub total : ℕ

abbrev pub alloc_size : PageHeader → ℕ
alloc_size ph = ph.fl.first

pub record Arena : Type 0 where
  pub freelist : ℕ
  pub idlepage : ℕ
  pub block_size : ℕ

pub record Heap : Type 0 where
  pub next : ℕ → ℕ
  pub page : ℕ → PageHeader
  pub arena : ℕ → Arena
  pub nalloc : ℕ

abbrev pub update {ℓ} : {A : Type ℓ} → (ℕ → A) → ℕ → A → ℕ → A
update f a v x = if x == a then v else f x

abbrev pub set_page : ℕ → PageHeader → Heap → Heap
set_page p ph h = record h { page = update h.page p ph }

abbrev pub set_arena : ℕ → Arena → Heap → Heap
set_arena i are h = record h { arena = update h.arena i are }

-- A call of `munmap`: the address and the number of bytes.
abbrev pub Unmapped : Type 0
Unmapped = Option (ℕ × ℕ)

abbrev pub free_page : (pt pages : ℕ) → Unmapped
free_page pt pages = some (pt, pages * page_size)

abbrev pub block_to_page : ℕ → ℕ
block_to_page block = block - block % page_size
