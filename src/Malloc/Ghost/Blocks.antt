-- ===== src/Malloc/Ghost/Blocks.antt =====
-- The list of blocks that `page_header_init` of tlibc/malloc.c makes of a page.
use linux_util.Common.{
  ℕ, zero, suc, ◌+◌, ◌-◌, ◌*◌, ◌/◌, ◌%◌, ◌≡◌, ◌≢◌, ◌≤◌, ◌<◌, refl, sym, ap, ◌∙◌, arith, true, inl,
  inr, Bool-cases, u16, ltb, ltb→lt, mul_mono,
}
use mathlib.Core.Path.{subst}
use linux_util.Malloc.{Freelist, update, block_to_page, page_size, header_bytes}
use linux_util.Malloc.Page.{freelist_init, freelist_free, first_offset, init_blocks}
use linux_util.Malloc.Ghost.{Chain, is_slot, size_of, slots}
use linux_util.Malloc.Ghost.Lists.{Chain-map, Chain-cases, size_of-divides}
use linux_util.Malloc.Ghost.Slots.{start_of, slots_lem, slots-bound}

pub first_offset_lem : (i : ℕ) → i < 7 → first_offset header_bytes (size_of i) 0 ≡ start_of i
unfolding first_offset
first_offset_lem zero h = refl
first_offset_lem (suc zero) h = refl
first_offset_lem (suc (suc zero)) h = refl
first_offset_lem (suc (suc (suc zero))) h = refl
first_offset_lem (suc (suc (suc (suc zero)))) h = refl
first_offset_lem (suc (suc (suc (suc (suc zero))))) h = refl
first_offset_lem (suc (suc (suc (suc (suc (suc zero)))))) h = refl
first_offset_lem (suc (suc (suc (suc (suc (suc (suc i))))))) h = absurd (omega arith)

-- The slot of block `k`, and back.
pub slot_lem :
    (i k : ℕ)
    → i < 7
    → (is_slot (size_of i) (start_of i + size_of i * k) ≡ true)
      × ((start_of i + size_of i * k - start_of i) / size_of i ≡ k)
slot_lem zero k h = ground arith
slot_lem (suc zero) k h = ground arith
slot_lem (suc (suc zero)) k h = ground arith
slot_lem (suc (suc (suc zero))) k h = ground arith
slot_lem (suc (suc (suc (suc zero)))) k h = ground arith
slot_lem (suc (suc (suc (suc (suc zero))))) k h = ground arith
slot_lem (suc (suc (suc (suc (suc (suc zero)))))) k h = ground arith
slot_lem (suc (suc (suc (suc (suc (suc (suc i))))))) k h = absurd (omega arith)

module _ (i : ℕ) (lt : i < 7) (page : ℕ) (aligned : page % page_size ≡ 0) (nonnull : page ≢ 0) where
  abbrev s : ℕ
  s = size_of i

  abbrev AtSlot : ℕ → ℕ → Type 0
  AtSlot k b = b ≡ page + (start_of i + s * k)

  -- `avail` blocks are listed, the later ones first, and the links of other pages are those of `old`.
  pub record Listed (old : ℕ → ℕ) (avail : ℕ) (fl : Freelist) (next : ℕ → ℕ) : Type 0 where
    pub listed : Chain next AtSlot avail fl.first
    pub last : 0 < avail → (fl.last ≡ page + start_of i) × (next fl.last ≡ 0)
    pub outside : (b : ℕ) → block_to_page b ≢ page → next b ≡ old b

  Listed-step :
      (old : ℕ → ℕ) (avail : ℕ) (fl : Freelist) (next : ℕ → ℕ)
      → Listed old avail fl next
      → avail < slots i
      → (let b = page + (start_of i + s * avail) in
          let r = freelist_free fl b (update next b 0) in Listed old (suc avail) r.0 r.1)
  unfolding Chain
  Listed-step old avail fl next l few =
      let b = page + (start_of i + s * avail) in
      let next' = update (update next b 0) b fl.first in
      let sizes = size_of-divides i lt in
      let whole = slots_lem i lt in
      let room = mul_mono s s (avail + 1) (slots i) (omega arith) (omega arith) in
      let at_b : next' b ≡ fl.first = ground arith in
      record {
        listed = (
          omega arith,
          refl,
          subst (λ t. Chain next' AtSlot avail t) (sym at_b)
              (Chain-map avail fl.first
                (λ k c below e.
                  let grow = mul_mono s s (k + 1) avail (omega arith) (omega arith) in
                  let other : c ≢ b = omega arith in (e, ground (arith, other)))
                l.listed),
        );
        last = λ _. elim (Chain-cases next AtSlot avail fl.first l.listed) [
          | inl (none_yet, empty) ↦
              let none_bytes : s * avail ≡ 0 = ap (λ (t : ℕ). s * t) none_yet ∙ omega arith in
              let here : b ≡ page + start_of i = omega arith in
              (ground (arith, empty, here), ground (arith, empty))
          | inr (some_yet, first) ↦
              let (at_start, null) = l.last some_yet in
              let grow = mul_mono s s 1 avail (omega arith) (omega arith) in
              let other : fl.last ≢ b = omega arith in
              (ground (arith, first, at_start), ground (arith, first, other, null))
        ];
        outside = λ c away.
            let other : c ≢ b = λ e. away (ap block_to_page e ∙ omega arith) in
            ground (arith, other, l.outside c away);
      }

  -- Enough rounds list all blocks of the page.
  init_blocks-Listed :
      (fuel avail : ℕ) (fl : Freelist) (old next : ℕ → ℕ)
      → Listed old avail fl next
      → avail ≤ slots i
      → slots i ≤ avail + fuel
      → (let r = init_blocks fuel s page (start_of i + s * avail) avail fl next in
          (r.1 ≡ slots i) × Listed old (slots i) r.0 r.2)
  unfolding init_blocks
  init_blocks-Listed zero avail fl old next l le enough =
      let e : avail ≡ slots i = omega arith in (e, subst (λ n. Listed old n fl next) e l)
  init_blocks-Listed (suc fuel) avail fl old next l le enough =
      let sizes = size_of-divides i lt in
      let whole = slots_lem i lt in
      elim (Bool-cases (ltb (start_of i + s * avail) page_size)) [
        | inl more ↦
            let up = ltb→lt _ _ more in
            let few : avail < slots i = elim (Bool-cases (ltb avail (slots i))) [
              | inl few ↦ ltb→lt _ _ few
              | inr all ↦
                  let ge : slots i ≤ avail = ground (arith, all) in
                  absurd (omega (arith, mul_mono s s (slots i) avail (omega arith) ge))
            ] in
            let small : slots i ≤ 4096 =
              omega (arith, mul_mono 1 s (slots i) (slots i) (omega arith) (omega arith)) in
            let width : u16 (avail + 1) ≡ suc avail = omega arith in
            let place : start_of i + s * avail + s ≡ start_of i + s * suc avail = omega arith in
            let b = page + (start_of i + s * avail) in
            let r = freelist_free fl b (update next b 0) in
            rw (more, width, place)
              (init_blocks-Listed fuel (suc avail) r.0 old r.1 (Listed-step old avail fl next l few)
                (omega arith) (omega arith))
        | inr full ↦
            let ge : page_size ≤ start_of i + s * avail = ground (arith, full) in
            let e : avail ≡ slots i = elim (Bool-cases (ltb avail (slots i))) [
              | inl few ↦ absurd (
                  omega (
                    arith,
                    mul_mono s s (avail + 1) (slots i) (omega arith)
                        (omega (arith, ltb→lt _ _ few)),
                  ))
              | inr all ↦ ground (arith, all)
            ] in
            rw full (e, subst (λ n. Listed old n fl next) e l)
      ]

  Listed-init : (old : ℕ → ℕ) → Listed old 0 freelist_init old
  unfolding Chain
  Listed-init old = record {
    listed = refl;
    last = λ h. absurd (omega arith);
    outside = λ b away. refl;
  }

  -- 256 rounds are enough.
  pub new_blocks-Listed :
      (old : ℕ → ℕ)
      → (let r = init_blocks 256 s page (start_of i) 0 freelist_init old in
          (r.1 ≡ slots i) × Listed old (slots i) r.0 r.2)
  new_blocks-Listed old =
      let bounds = slots-bound i lt in
      let from =
        init_blocks-Listed 256 0 freelist_init old old (Listed-init old) (omega arith)
          (omega arith) in
      let place : start_of i + s * 0 ≡ start_of i = omega arith in
      subst
        (λ t.
          let r = init_blocks 256 s page t 0 freelist_init old in
          (r.1 ≡ slots i) × Listed old (slots i) r.0 r.2)
        place from
