-- ===== src/Malloc/Links.antt =====
-- The list of the free blocks of a page, in tlibc/malloc.c.
use linux_util.Common.{ℕ, ◌≡◌, ◌≢◌, ◌⊎◌, refl, sym, ap, arith, true, false, inl, inr, ◌==◌}
use linux_util.Malloc.{Freelist}
use linux_util.Malloc.Page.{freelist_free, freelist_alloc}

-- Both ends are null, or neither.
abbrev pub IsEnded : Freelist → Type 0
IsEnded fl = ((fl.first ≡ 0) × (fl.last ≡ 0)) ⊎ ((fl.first ≢ 0) × (fl.last ≢ 0))

-- A block that is not the last of the list and is put on it is the next one to be taken off, the list
-- is then as before, and has both ends or none at each step.
pub alloc-free :
    (fl : Freelist) (blk : ℕ) (next : ℕ → ℕ)
    → IsEnded fl
    → blk ≢ 0
    → blk ≢ fl.last
    → (let r = freelist_free fl blk next in IsEnded r.0 × (freelist_alloc r.0 r.1 ≡ (blk, fl)))
unfolding freelist_alloc
alloc-free fl blk next (inl (first, last)) nonnull apart =
    let given : (blk == 0) ≡ false = ground (arith, nonnull) in
    let same : (blk == blk) ≡ true = ground arith in
    let empty : (fl.first == 0) ≡ true = ground (arith, first) in
    (
      rw empty (inr (nonnull, nonnull)),
      rw (given, empty, same)
          (ap (λ (t : ℕ). (blk, record { first = fl.first; last = t })) (sym last)),
    )
alloc-free fl blk next (inr (first, last)) nonnull apart =
    let given : (blk == 0) ≡ false = ground (arith, nonnull) in
    let same : (blk == blk) ≡ true = ground arith in
    let other : (fl.last == blk) ≡ false = ground (arith, apart) in
    let nonempty : (fl.first == 0) ≡ false = ground (arith, first) in
    (rw nonempty (inr (nonnull, last)), rw (given, nonempty, same, other) refl)
