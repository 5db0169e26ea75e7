-- ===== src/Malloc/Ghost.antt =====
-- What holds of the heap of tlibc/malloc.c between two calls: every block address has a status, and
-- every page an owner, which the lists and headers of the heap agree with.
pub mod Lists
pub mod Apart
pub mod Keep
pub mod Take
pub mod Slots
pub mod Seize
pub mod Blocks
pub mod Fresh
pub mod Fill
pub mod Large
pub mod Alloc
pub mod Unmap
pub mod Release
pub mod Idle
pub mod Free
use linux_util.Common.{
  ℕ, zero, suc, ◌+◌, ◌-◌, ◌*◌, ◌%◌, ◌^◌, ◌≡◌, ◌≢◌, ◌≤◌, ◌<◌, Bool, true, false, ◌&&◌, Option, none,
  some, leb, ◌==◌, if◌then◌else◌,
}
use linux_util.Malloc.{
  Freelist, PageHeader, Arena, Heap, page_size, magic_number, header_bytes, alloc_size,
  block_to_page,
}

-- A block on the list of a cache or of its page has as many blocks behind it; a used one so many
-- bytes.
pub data Status : Type 0 where
  absent : Status
  in_arena in_page used : ℕ → Status

-- A page is nobody's, a cache's, the first of so many for a large block, or a later one of the large
-- block that begins at an address.
pub data Owner : Type 0 where
  unowned : Owner
  small large tail : ℕ → Owner

pub record Ghost : Type 0 where
  pub status : ℕ → Status
  pub owner : ℕ → Owner

abbrev pub size_of : ℕ → ℕ
size_of i = 16 * 2 ^ i

-- The bytes that a program may use at an address.
abbrev pub bytes_in : Status → ℕ
bytes_in (used c) = c
bytes_in _ = 0

abbrev pub capacity : Ghost → ℕ → ℕ
capacity g b = bytes_in (g.status b)

-- A place for a block of `s` bytes in a page.
abbrev pub is_slot : (s x : ℕ) → Bool
is_slot s x = leb header_bytes x && x % s == 0

abbrev pub is_in_page : Status → Bool
is_in_page (in_page k) = true
is_in_page _ = false

pub count : ℕ → (ℕ → Bool) → ℕ
count zero f = 0
count (suc n) f = (if f n then 1 else 0) + count n f

abbrev pub slots : ℕ → ℕ
slots i = count page_size (is_slot (size_of i))

abbrev pub free_count : (ℕ → Status) → ℕ → ℕ
free_count status p = count page_size (λ x. is_in_page (status (p + x)))

-- A status that an address may have, by the owner of its page and its place in the page.
abbrev pub Fits : Owner → ℕ → Status → Type 0
Fits o x absent = Unit
Fits (small i) x (in_arena k) = is_slot (size_of i) x ≡ true
Fits (small i) x (in_page k) = is_slot (size_of i) x ≡ true
Fits (small i) x (used c) = (is_slot (size_of i) x ≡ true) × (c ≡ size_of i)
Fits (large n) x (used c) = (x ≡ header_bytes) × (c + header_bytes ≡ page_size * n)
Fits o x s = ⊥

-- A list of `n` blocks from `h` on, each of which has the property at the number of blocks behind it.
unfoldable pub Chain : (ℕ → ℕ) → (ℕ → ℕ → Type 0) → (n h : ℕ) → Type 0
Chain next P zero h = h ≡ 0
Chain next P (suc k) h = (h ≢ 0) × P k h × Chain next P k (next h)

abbrev pub InArena : Ghost → ℕ → ℕ → ℕ → Type 0
InArena g i k b = (g.status b ≡ in_arena k) × (g.owner (block_to_page b) ≡ small i)

abbrev pub InPage : Ghost → ℕ → ℕ → ℕ → Type 0
InPage g p k b = (g.status b ≡ in_page k) × (block_to_page b ≡ p)

pub record SmallPage (next : ℕ → ℕ) (g : Ghost) (p i : ℕ) (ph : PageHeader) : Type 0 where
  pub cache : i < 7
  pub aligned : p % page_size ≡ 0
  pub nonnull : p ≢ 0
  pub are : ph.are ≡ some i
  pub magic : ph.magic ≡ magic_number
  pub total : ph.total ≡ slots i
  pub avail : ph.avail ≡ free_count g.status p
  pub listed : Chain next (InPage g p) ph.avail ph.fl.first
  pub last : ph.fl.first ≢ 0 → InPage g p 0 ph.fl.last × (next ph.fl.last ≡ 0)

pub record LargePage (g : Ghost) (p n : ℕ) (ph : PageHeader) : Type 0 where
  pub aligned : p % page_size ≡ 0
  pub nonnull : p ≢ 0
  pub nonempty : 0 < n
  pub are : ph.are ≡ none
  pub magic : ph.magic ≡ magic_number
  pub pages : alloc_size ph ≡ n * page_size
  pub width : n * page_size < 2 ^ 64
  pub whole : (j : ℕ) → 0 < j → j < n → g.owner (p + page_size * j) ≡ tail p

pub record Inv (next : ℕ → ℕ) (page : ℕ → PageHeader) (arena : ℕ → Arena) (g : Ghost) : Type 0 where
  pub sizes : (i : ℕ) → i < 7 → (arena i).block_size ≡ size_of i
  pub fits : (b : ℕ) → Fits (g.owner (block_to_page b)) (b % page_size) (g.status b)
  pub caches : (i : ℕ) → i < 7 → (n : ℕ) × Chain next (InArena g i) n (arena i).freelist
  pub idle :
      (i : ℕ)
      → i < 7
      → (arena i).idlepage ≢ 0
      → (g.owner (arena i).idlepage ≡ small i) × ((page (arena i).idlepage).avail ≡ slots i)
  pub smalls : (p i : ℕ) → g.owner p ≡ small i → SmallPage next g p i (page p)
  pub larges : (p n : ℕ) → g.owner p ≡ large n → LargePage g p n (page p)

abbrev pub IsHeap : Heap → Ghost → Type 0
IsHeap h g = Inv h.next h.page h.arena g
