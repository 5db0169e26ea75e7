-- ===== src/Gpt/HeaderSum.antt =====
-- The sum in a header of gpt/gpt.c, as a reader checks it.
use native.Mathlib.Nat.{mod-eq_of_lt}
use linux_util.Common.{
  ℕ, zero, suc, ◌+◌, ◌-◌, ◌≤◌, ◌<◌, ◌≡◌, sym, ap, ◌∙◌, ◌⊎◌, inl, inr, arith, leb, ltb, ◌&&◌,
  Bool-cases,
}
use linux_util.Memory.{Memory, store_le, load_le}
use linux_util.Memory.Laws.{load-store_self}
use linux_util.Memory.Frame.{SameOutside, load-SameOutside, store_le-SameOutside}
use linux_util.Crc32.{crc32}
use linux_util.Crc32.Extent.{crc32-ext, crc32-lt}

-- What a reader of the header at `a` checks: the sum over as many bytes as the header says it has,
-- with the field of the sum cleared.
abbrev pub HasSum : ℕ → Memory → Type 0
HasSum a m = load_le 4 (a + 16) m ≡ crc32 a (load_le 4 (a + 12) m) (store_le 4 (a + 16) 0 m)

zero_bytes : (w a i : ℕ) (m : Memory) → load_le w a m ≡ 0 → i < w → m (a + i) ≡ 0
unfolding load_le
zero_bytes zero a i m e h = absurd (omega arith)
zero_bytes (suc w) a zero m e h = let zeroth : a + 0 ≡ a = omega arith in omega (arith, ap m zeroth)
zero_bytes (suc w) a (suc i) m e h =
    let shift : a + suc i ≡ suc a + i = omega arith in
    ap m shift ∙ zero_bytes w (suc a) i m (omega arith) (omega arith)

-- Two memories that differ in the field of the sum only, cleared, agree on the header.
cleared-same :
    (a : ℕ) (m m' : Memory)
    → ((i : ℕ) → i < 92 → (i < 16) ⊎ (20 ≤ i) → m (a + i) ≡ m' (a + i))
    → load_le 4 (a + 16) m ≡ 0
    → load_le 4 (a + 16) m' ≡ 0
    → (i : ℕ) → i < 92
    → m (a + i) ≡ m' (a + i)
cleared-same a m m' same zeros zeros' i h = elim (Bool-cases (leb 16 i && ltb i 20)) [
  | inr outside ↦ same i h (ground (arith, outside))
  | inl inside ↦
      let bound : (16 ≤ i) × (i < 20) = ground (arith, inside) in
      let shift : a + i ≡ a + 16 + (i - 16) = omega arith in
      ap m shift
      ∙ zero_bytes 4 (a + 16) (i - 16) m zeros (omega arith)
      ∙ sym (zero_bytes 4 (a + 16) (i - 16) m' zeros' (omega arith))
      ∙ ap m' (sym shift)
]

-- A header whose sum was stored over a field of zeros.
pub HasSum-stored :
    (a : ℕ) (m : Memory)
    → load_le 4 (a + 16) m ≡ 0
    → load_le 4 (a + 12) m ≡ 92
    → HasSum a (store_le 4 (a + 16) (crc32 a 92 m) m)
HasSum-stored a m empty size =
    let c = crc32 a 92 m in
    let stored = store_le 4 (a + 16) c m in
    let again =
      store_le-SameOutside (a + 16) (a + 20) 4 (a + 16) 0 stored (omega arith) (omega arith) in
    let once = store_le-SameOutside (a + 16) (a + 20) 4 (a + 16) c m (omega arith) (omega arith) in
    let size' : load_le 4 (a + 12) stored ≡ 92 =
      load-SameOutside 4 (a + 12) once (inl (omega arith)) ∙ size in
    let same : (i : ℕ) → i < 92 → m (a + i) ≡ store_le 4 (a + 16) 0 stored (a + i) =
      cleared-same a m _
        (λ i p o. sym (again.same (a + i) (omega arith) ∙ once.same (a + i) (omega arith))) empty
        (load-store_self 4 (a + 16) 0 stored) in
    load-store_self 4 (a + 16) c m
    ∙ mod-eq_of_lt (crc32-lt a 92 m)
    ∙ crc32-ext a 92 m (store_le 4 (a + 16) 0 stored) same
    ∙ ap (λ n. crc32 a n (store_le 4 (a + 16) 0 stored)) (sym size')

-- A change elsewhere keeps a header's sum.
pub HasSum-apart :
    {lo hi : ℕ} {m m' : Memory} (a : ℕ)
    → SameOutside lo hi m m'
    → (a + 92 ≤ lo) ⊎ (hi ≤ a)
    → load_le 4 (a + 12) m ≡ 92
    → HasSum a m
    → HasSum a m'
HasSum-apart {lo} {hi} {m} {m'} a frame out size h =
    let size' : load_le 4 (a + 12) m' ≡ 92 =
      load-SameOutside 4 (a + 12) frame (omega arith) ∙ size in
    let again : (n : Memory) → SameOutside (a + 16) (a + 20) n (store_le 4 (a + 16) 0 n) =
      λ n. store_le-SameOutside (a + 16) (a + 20) 4 (a + 16) 0 n (omega arith) (omega arith) in
    load-SameOutside 4 (a + 16) frame (omega arith)
    ∙ h
    ∙ ap (λ n. crc32 a n (store_le 4 (a + 16) 0 m)) size
    ∙ crc32-ext a 92 _ _ (
        cleared-same a _ _
          (λ i p o.
            (again m).same (a + i) (omega arith)
            ∙ sym (frame.same (a + i) (omega arith))
            ∙ sym ((again m').same (a + i) (omega arith)))
          (load-store_self 4 (a + 16) 0 m) (load-store_self 4 (a + 16) 0 m'))
    ∙ ap (λ n. crc32 a n (store_le 4 (a + 16) 0 m')) (sym size')
