-- ===== src/Malloc/Ghost/Slots.antt =====
-- How many blocks of each size a page has.
use linux_util.Common.{
  ℕ, zero, suc, ◌+◌, ◌*◌, ◌≡◌, ◌≤◌, ◌<◌, refl, arith, leb, if◌then◌else◌, ◌∙◌, ap, inl, inr,
  Bool-cases, ◌==◌, mul_mono,
}
use linux_util.Malloc.{page_size}
use linux_util.Malloc.Ghost.{count, slots, size_of}
use linux_util.Malloc.Ghost.Lists.{size_of-divides}

-- Where the first block of a page lies.
abbrev pub start_of : ℕ → ℕ
start_of i = if leb (size_of i) 32 then 32 else size_of i

pub slots_lem : (i : ℕ) → i < 7 → start_of i + size_of i * slots i ≡ page_size
unfolding count
slots_lem zero h = refl
slots_lem (suc zero) h = refl
slots_lem (suc (suc zero)) h = refl
slots_lem (suc (suc (suc zero))) h = refl
slots_lem (suc (suc (suc (suc zero)))) h = refl
slots_lem (suc (suc (suc (suc (suc zero))))) h = refl
slots_lem (suc (suc (suc (suc (suc (suc zero)))))) h = refl
slots_lem (suc (suc (suc (suc (suc (suc (suc i))))))) h = absurd (omega arith)

pub slots-bound : (i : ℕ) → i < 7 → (0 < slots i) × (slots i ≤ 256)
slots-bound i lt =
    let whole = slots_lem i lt in
    let sizes = size_of-divides i lt in
    (
      elim (Bool-cases (slots i == 0)) [
        | inl none_there ↦
            let n_zero : slots i ≡ 0 = ground (arith, none_there) in
            let z : size_of i * slots i ≡ 0 = ap (λ (t : ℕ). size_of i * t) n_zero ∙ omega arith in
            absurd (ground (arith, z, whole, sizes))
        | inr some_there ↦ ground (arith, some_there)
      ],
      omega (arith, mul_mono 16 (size_of i) (slots i) (slots i) (omega arith) (omega arith)),
    )
