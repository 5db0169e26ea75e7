-- ===== src/Malloc/History.antt =====
-- The calls that a program makes of tlibc/malloc.c, and the pages that the system has mapped for it.
pub mod Refine
pub mod Resize
pub mod Safety
pub mod Exit
use linux_util.Common.{
  ℕ, zero, suc, ◌+◌, ◌*◌, ◌/◌, ◌%◌, ◌^◌, ◌≡◌, ◌≢◌, ◌<◌, ◌⊎◌, Bool, true, false, ◌==◌, if◌then◌else◌,
  Option, none, some, List, [], ◌∷◌,
}
use linux_util.Malloc.{Freelist, PageHeader, Heap, Unmapped, page_size}
use linux_util.Malloc.Api.{caches, mymalloc, myfree, Reallocated, myrealloc}
use linux_util.Malloc.Ghost.Unmap.{is_page_of}

-- A call with its arguments and the pointer that it returns.
pub data Event : Type 0 where
  malloc : (size pointer : ℕ) → Event
  free : (pt : ℕ) → Event
  realloc : (pt size pointer : ℕ) → Event

-- The sizes asked for, by address, after a block at `r` and without the one at `pt`.
abbrev pub put : (ℕ → Option ℕ) → (size r : ℕ) → ℕ → Option ℕ
put f size r p = if r == 0 then f p else if p == r then some size else f p

abbrev pub drop : (ℕ → Option ℕ) → (pt : ℕ) → ℕ → Option ℕ
drop f pt p = if p == pt then none else f p

-- The size that was asked for at an address which has not been freed since, latest call first.
unfoldable pub asked : List Event → ℕ → Option ℕ
asked [] p = none
asked (malloc size r ∷ es) p = put (asked es) size r p
asked (free pt ∷ es) p = drop (asked es) pt p
asked (realloc pt size r ∷ es) p =
    let before = asked es p in if r == 0 then before else put (drop (asked es) pt) size r p

-- A pointer that may be passed to `free` and `realloc`.
abbrev pub IsPassable : List Event → ℕ → Type 0
IsPassable es pt = (pt ≡ 0) ⊎ ((size : ℕ) × (asked es pt ≡ some size))

pub record World : Type 0 where
  pub heap : Heap
  pub mapped : ℕ → Bool

-- The heap before the first call. The links and headers are in memory that is not mapped yet.
abbrev pub boot : World
boot = record {
  heap = record {
    next = λ b. 0;
    page = λ p. record {
      are = none;
      fl = record { first = 0; last = 0 };
      avail = 0;
      magic = 0;
      total = 0;
    };
    arena = caches;
    nalloc = 0;
  };
  mapped = λ p. false;
}

abbrev pub unmap : (ℕ → Bool) → Unmapped → ℕ → Bool
unmap mapped none q = mapped q
unmap mapped (some (a, bytes)) q = if is_page_of a (bytes / page_size) q then false else mapped q

-- What mmap(2) documents of a call: where it does not fail, it gives whole pages, of which none was
-- mapped before, and all are afterwards. No page that was mapped is lost.
pub record IsMmap (mmap : ℕ → Option ℕ) (mapped mapped' : ℕ → Bool) : Type 0 where
  pub nonnull : (bytes a : ℕ) → mmap bytes ≡ some a → a ≢ 0
  pub aligned : (bytes a : ℕ) → mmap bytes ≡ some a → a % page_size ≡ 0
  pub new :
      (bytes a j : ℕ)
      → mmap bytes ≡ some a
      → page_size * j < bytes
      → (mapped (a + page_size * j) ≡ false) × (mapped' (a + page_size * j) ≡ true)
  pub kept : (q : ℕ) → mapped q ≡ true → mapped' q ≡ true

-- The sums of `mymalloc` do not wrap for this size.
abbrev pub IsSize : ℕ → Type 0
IsSize size = size + 4127 < 2 ^ 64

-- The worlds that a program reaches which passes only null and pointers it has not freed to `free`
-- and `realloc`.
pub data Run : List Event → World → Type 0 where
  begin : Run [] boot
  call_malloc :
      {es : List Event} {w : World} {mmap : ℕ → Option ℕ} {mapped : ℕ → Bool}
      → Run es w
      → IsMmap mmap w.mapped mapped
      → (size : ℕ) → IsSize size
      → Run
          (malloc size (mymalloc mmap size w.heap).0 ∷ es)
          (record { heap = (mymalloc mmap size w.heap).1; mapped = mapped })
  call_free :
      {es : List Event} {w : World} {h : Heap} {u : Unmapped}
      → Run es w
      → (pt : ℕ) → IsPassable es pt
      → myfree pt w.heap ≡ some (h, u)
      → Run (free pt ∷ es) (record { heap = h; mapped = unmap w.mapped u })
  call_realloc :
      {es : List Event} {w : World} {mmap : ℕ → Option ℕ} {mapped : ℕ → Bool} {r : Reallocated}
      → Run es w
      → IsMmap mmap w.mapped mapped
      → (pt size : ℕ) → IsPassable es pt
      → IsSize size
      → myrealloc mmap pt size w.heap ≡ some r
      → Run
          (realloc pt size r.pointer ∷ es)
          (record { heap = r.heap; mapped = unmap mapped r.unmapped })
