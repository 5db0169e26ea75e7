-- ===== src/Malloc/History/Exit.antt =====
-- The pages that go back at the exit of a program.
use linux_util.Common.{
  ℕ, zero, suc, ◌+◌, ◌≡◌, ◌≢◌, ◌≤◌, ◌<◌, refl, ap, arith, inl, inr, Bool-cases, ◌==◌, some, List,
  [], ◌∷◌,
}
use linux_util.Malloc.{Heap, block_to_page, page_size}
use linux_util.Malloc.Api.{malloc_fini, ncaches}
use linux_util.Malloc.Ghost.{Ghost, IsHeap, used}
use linux_util.Malloc.Ghost.Apart.{in_slot, in_pages, extent}
use linux_util.Malloc.Ghost.Release.{not_idle}
use linux_util.Malloc.History.{Event, asked, World, Run}
use linux_util.Malloc.History.Refine.{in_use}
use linux_util.Malloc.History.Safety.{Run-Held}

-- Each page of the list is another one.
unfoldable pub Avoids : ℕ → List (ℕ × ℕ) → Type 0
Avoids p [] = Unit
Avoids p ((a, bytes) ∷ rest) = (a ≢ p) × (bytes ≡ page_size) × Avoids p rest

module _ (h : Heap) (g : Ghost) (inv : IsHeap h g) (pt c : ℕ) (st : g.status pt ≡ used c) where
  idle-apart : (j : ℕ) → j < 7 → (h.arena j).idlepage ≢ 0 → (h.arena j).idlepage ≢ block_to_page pt
  idle-apart j lt ne e = elim (extent inv pt c st) [
    | in_slot i owned pos width mult fits ↦
        let other = not_idle h g inv pt c i st owned j lt ne in absurd (ground (arith, other, e))
    | in_pages n owned off room whole ↦ absurd (cc (owned, (inv.idle j lt ne).0, ap g.owner e))
  ]

  fini-Avoids : (left i : ℕ) → left + i ≤ 7 → Avoids (block_to_page pt) (malloc_fini left i h)
  unfolding Avoids malloc_fini
  fini-Avoids zero i le = tt
  fini-Avoids (suc left) i le =
      let rest = fini-Avoids left (suc i) (omega arith) in
      elim (Bool-cases ((h.arena i).idlepage == 0)) [
        | inl none_there ↦ rw none_there rest
        | inr there ↦ rw there (idle-apart i (omega arith) (ground (arith, there)), refl, rest)
      ]

-- Whatever calls a program has made, the pages that go back at its exit are single ones and hold no
-- address that it may still use.
pub fini-apart :
    {es : List Event} {w : World}
    → Run es w
    → (p size : ℕ) → asked es p ≡ some size
    → Avoids (block_to_page p) (malloc_fini ncaches 0 w.heap)
fini-apart run p size e =
    let (g, s) = Run-Held run in
    let (c, sp, le, _) = in_use s p size e in fini-Avoids _ g s.heap p c sp ncaches 0 (omega arith)
