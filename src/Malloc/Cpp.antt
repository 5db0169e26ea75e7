-- ===== src/Malloc/Cpp.antt =====
-- The allocator that the C++ code of tlibc/malloc.c uses, which passes the size to the release too.
use linux_util.Common.{
  ℕ, ◌+◌, ◌-◌, ◌*◌, ◌/◌, ◌^◌, ◌≡◌, ◌≢◌, ◌≤◌, ◌<◌, ◌⊎◌, refl, arith, false, inl, inr, lt→ltb, Option,
  none, some, u64, sub64, ◌==◌,
}
use linux_util.Malloc.{Heap, page_size}
use linux_util.Malloc.Api.{cpp_alloc, cpp_free}

Option-cases : (o : Option ℕ) → (o ≡ none) ⊎ ((a : ℕ) × (o ≡ some a))
Option-cases none = inl refl
Option-cases (some a) = inr (a, refl)

-- A large size either has no memory, or an address that `mmap` gave for so many bytes as `cpp_free`
-- gives back for the same size, which are no fewer.
pub cpp_free-alloc :
    (mmap : ℕ → Option ℕ) (size : ℕ) (h h' : Heap)
    → 1024 < size
    → size + 4095 < 2 ^ 64
    → (let r = (cpp_alloc mmap size h).0 in
        (bytes : ℕ) × (size ≤ bytes)
        × (((mmap bytes ≡ none) × (r ≡ 0))
            ⊎ ((mmap bytes ≡ some r) × (r ≢ 0 → cpp_free r size h' ≡ some (h', some (r, bytes))))))
unfolding cpp_alloc cpp_free
cpp_free-alloc mmap size h h' big bound =
    let n = (size + 4095) / 4096 in
    let big' = lt→ltb 1024 size big in
    let allocated : u64 (size + (page_size - 1)) / page_size ≡ n = omega arith in
    let freed : sub64 (u64 (size + page_size)) 1 / page_size ≡ n = omega arith in
    (
      n * page_size,
      omega arith,
      elim (Option-cases (mmap (n * page_size))) [
        | inl failed ↦ rw (big', allocated, failed) (inl (refl, refl))
        | inr (a, mapped) ↦
            rw (big', allocated, mapped)
              (inr (
                refl,
                λ ne. let null : (a == 0) ≡ false = ground (arith, ne) in rw (freed, null) refl,
              ))
      ],
    )
