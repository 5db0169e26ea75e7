-- ===== src/Malloc/Ghost/Apart.antt =====
-- Used blocks do not overlap.
use linux_util.Common.{
  ℕ, ◌+◌, ◌-◌, ◌*◌, ◌/◌, ◌%◌, ◌≡◌, ◌≢◌, ◌≤◌, ◌<◌, ◌⊎◌, refl, sym, ap, ◌∙◌, arith, inl, inr,
  Bool-cases, ltb, ltb→lt, mul_mono,
}
use native.Mathlib.Nat.{div-add-mod}
use linux_util.Malloc.{PageHeader, Arena, block_to_page, page_size, header_bytes}
use linux_util.Malloc.Ghost.{
  Ghost, Status, absent, in_arena, in_page, used, Owner, unowned, small, large, tail, Fits, Inv,
  size_of,
}
use linux_util.Malloc.Ghost.Lists.{size_of-divides, size_of-multiple}

-- Multiples of the same number.
multiples : (s x y : ℕ) → 0 < s → x % s ≡ 0 → y % s ≡ 0 → x < y → x + s ≤ y
multiples s x y pos hx hy lt =
    let dx = div-add-mod x s in
    let dy = div-add-mod y s in
    elim (Bool-cases (ltb (x / s) (y / s))) [
      | inl up ↦
          omega
            (arith, mul_mono s s (x / s + 1) (y / s) (omega arith) (omega (arith, ltb→lt _ _ up)))
      | inr not_up ↦
          let down : y / s ≤ x / s = ground (arith, not_up) in
          omega (arith, mul_mono s s (y / s) (x / s) (omega arith) down)
    ]

-- What a used address has behind it: a block inside its page, or whole pages.
pub data Extent (g : Ghost) (b c : ℕ) : Type 0 where
  in_slot :
      (i : ℕ)
      → g.owner (block_to_page b) ≡ small i
      → 0 < size_of i
      → c ≡ size_of i
      → b % page_size % size_of i ≡ 0
      → b % page_size + c ≤ page_size
      → Extent g b c
  in_pages :
      (n : ℕ)
      → g.owner (block_to_page b) ≡ large n
      → b % page_size ≡ header_bytes
      → c + header_bytes ≡ page_size * n
      → ((j : ℕ)
          → 0 < j
          → j < n
          → g.owner (block_to_page b + page_size * j) ≡ tail (block_to_page b))
      → Extent g b c

module _ {next : ℕ → ℕ} {page : ℕ → PageHeader} {arena : ℕ → Arena} {g : Ghost}
    (inv : Inv next page arena g) where
  Extent-by :
      (b c : ℕ) (o : Owner) (s : Status)
      → g.owner (block_to_page b) ≡ o
      → s ≡ used c
      → Fits o (b % page_size) s
      → Extent g b c
  Extent-by b c o absent eo es f = absurd (cc es)
  Extent-by b c o (in_arena k) eo es f = absurd (cc es)
  Extent-by b c o (in_page k) eo es f = absurd (cc es)
  Extent-by b c unowned (used d) eo es f = absurd f
  Extent-by b c (tail t) (used d) eo es f = absurd f
  Extent-by b c (large n) (used d) eo es (off, room) =
      let same : d ≡ c = ground (arith, es) in
      in_pages n eo off (omega arith) (inv.larges (block_to_page b) n eo).whole
  Extent-by b c (small i) (used d) eo es (slot, size) =
      let same : d ≡ c = ground (arith, es) in
      let page = inv.smalls (block_to_page b) i eo in
      let (lo, hi, divides) = size_of-divides i page.cache in
      let multiple : b % page_size % size_of i ≡ 0 = ground (arith, slot) in
      in_slot i eo (omega arith) (omega arith) multiple (
        omega (
          arith,
          multiples (size_of i) (b % page_size) page_size (omega arith) multiple divides
              (omega arith),
        ))

  pub extent : (b c : ℕ) → g.status b ≡ used c → Extent g b c
  extent b c e = Extent-by b c (g.owner (block_to_page b)) (g.status b) refl e (inv.fits b)

  -- A page that is not a later page of a large block does not lie in it.
  past_pages :
      (a b n : ℕ)
      → ((j : ℕ)
          → 0 < j
          → j < n
          → g.owner (block_to_page a + page_size * j) ≡ tail (block_to_page a))
      → g.owner (block_to_page b) ≢ tail (block_to_page a)
      → block_to_page a < block_to_page b
      → block_to_page a + page_size * n ≤ block_to_page b
  past_pages a b n whole other lt =
      let j = b / page_size - a / page_size in
      let e : block_to_page a + page_size * j ≡ block_to_page b = omega arith in
      elim (Bool-cases (ltb j n)) [
        | inl inside ↦
            absurd (other (ap g.owner (sym e) ∙ whole j (omega arith) (ltb→lt _ _ inside)))
        | inr outside ↦ let le : n ≤ j = ground (arith, outside) in omega arith
      ]

  ordered : (a b c d : ℕ) → Extent g a c → Extent g b d → a < b → a + c ≤ b
  ordered a b c d (in_slot i oa pos size mult fits) (in_slot j ob pos' size' mult' fits') lt =
      elim (Bool-cases (ltb (block_to_page a) (block_to_page b))) [
        | inl apart ↦ let up = ltb→lt _ _ apart in omega arith
        | inr same ↦
            let e : block_to_page a ≡ block_to_page b = ground (arith, same, lt) in
            let ij : i ≡ j = ground (arith, oa, ob, ap g.owner e) in
            let multb : b % page_size % size_of i ≡ 0 =
              ap (λ t. b % page_size % size_of t) ij ∙ mult' in
            omega (
              arith,
              multiples (size_of i) (a % page_size) (b % page_size) pos mult multb (omega arith),
            )
      ]
  ordered a b c d (in_slot i oa pos size mult fits) (in_pages n ob off room whole) lt =
      elim (Bool-cases (ltb (block_to_page a) (block_to_page b))) [
        | inl apart ↦ let up = ltb→lt _ _ apart in omega arith
        | inr same ↦
            let e : block_to_page a ≡ block_to_page b = ground (arith, same, lt) in
            absurd (cc (oa, ob, ap g.owner e))
      ]
  ordered a b c d (in_pages n oa off room whole) (in_slot j ob pos' size' mult' fits') lt =
      elim (Bool-cases (ltb (block_to_page a) (block_to_page b))) [
        | inl apart ↦ omega (arith, past_pages a b n whole (λ t. cc (t, ob)) (ltb→lt _ _ apart))
        | inr same ↦
            let e : block_to_page a ≡ block_to_page b = ground (arith, same, lt) in
            absurd (cc (oa, ob, ap g.owner e))
      ]
  ordered a b c d (in_pages n oa off room whole) (in_pages n' ob off' room' whole') lt =
      elim (Bool-cases (ltb (block_to_page a) (block_to_page b))) [
        | inl apart ↦ omega (arith, past_pages a b n whole (λ t. cc (t, ob)) (ltb→lt _ _ apart))
        | inr same ↦
            let e : block_to_page a ≡ block_to_page b = ground (arith, same, lt) in
            absurd (omega arith)
      ]

  -- Two different addresses in use have disjoint ranges of bytes.
  pub capacity-apart :
      (a b c d : ℕ) → g.status a ≡ used c → g.status b ≡ used d → a ≢ b → (a + c ≤ b) ⊎ (b + d ≤ a)
  capacity-apart a b c d ea eb ne = elim (Bool-cases (ltb a b)) [
    | inl lt ↦ inl (ordered a b c d (extent a c ea) (extent b d eb) (ltb→lt _ _ lt))
    | inr ge ↦ inr (ordered b a d c (extent b d eb) (extent a c ea) (ground (arith, ge)))
  ]

  -- A pointer in use is a multiple of 16.
  pub Extent-aligned : (b c : ℕ) → Extent g b c → b % 16 ≡ 0
  Extent-aligned b c (in_slot i owned pos size mult fits) =
      let page = inv.smalls (block_to_page b) i owned in
      omega (arith, size_of-multiple i (b % page_size) page.cache mult)
  Extent-aligned b c (in_pages n owned off room whole) = omega (arith, off)
