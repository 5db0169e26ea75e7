-- ===== src/Malloc/Ghost/Lists.antt =====
-- Lists of blocks, and counting.
use linux_util.Common.{
  ℕ, zero, suc, ◌+◌, ◌%◌, ◌≡◌, ◌≢◌, ◌≤◌, ◌<◌, ◌⊎◌, refl, sym, ap, ◌∙◌, Bool, true, false, arith,
  inl, inr, Bool-cases, if◌then◌else◌, ◌==◌,
}
use mathlib.Core.Path.{subst}
use linux_util.Malloc.Ghost.{Chain, count, size_of}

pub Chain-map :
    {next next' : ℕ → ℕ} {P Q : ℕ → ℕ → Type 0} (n h : ℕ)
    → ((k b : ℕ) → k < n → P k b → Q k b × (next' b ≡ next b))
    → Chain next P n h
    → Chain next' Q n h
unfolding Chain
Chain-map zero h f c = c
Chain-map {next} {next'} {P} {Q} (suc n) h f (nonnull, p, rest) =
    let (q, same) = f n h (omega arith) p in
    (
      nonnull,
      q,
      subst (λ x. Chain next' Q n x) (sym same)
          (Chain-map n (next h) (λ k b lt. f k b (omega arith)) rest),
    )

pub Chain-first :
    (next : ℕ → ℕ) (P : ℕ → ℕ → Type 0) (n h : ℕ)
    → h ≢ 0
    → Chain next P n h
    → (k : ℕ) × P k h × Chain next P k (next h)
unfolding Chain
Chain-first next P zero h nonnull c = absurd (nonnull c)
Chain-first next P (suc k) h nonnull c = (k, c.1, c.2)

pub Chain-cases :
    (next : ℕ → ℕ) (P : ℕ → ℕ → Type 0) (n h : ℕ)
    → Chain next P n h
    → ((n ≡ 0) × (h ≡ 0)) ⊎ ((0 < n) × (h ≢ 0))
unfolding Chain
Chain-cases next P zero h c = inl (refl, c)
Chain-cases next P (suc n) h c = inr (omega arith, c.0)

pub count-ext : (n : ℕ) (f f' : ℕ → Bool) → ((x : ℕ) → x < n → f x ≡ f' x) → count n f ≡ count n f'
unfolding count
count-ext zero f f' h = refl
count-ext (suc n) f f' h =
    rw (h n (omega arith))
      (ap (λ c. (if f' n then 1 else 0) + c) (count-ext n f f' (λ x lt. h x (omega arith))))

pub count-le :
    (n : ℕ) (f f' : ℕ → Bool)
    → ((x : ℕ) → x < n → f x ≡ true → f' x ≡ true)
    → count n f ≤ count n f'
unfolding count
count-le zero f f' h = omega arith
count-le (suc n) f f' h =
    let rest = count-le n f f' (λ x lt. h x (omega arith)) in
    let here = h n (omega arith) in ground (arith, here)

-- Where no more places have the second property than have the first, all that have it do.
pub count-all :
    (n : ℕ) (f f' : ℕ → Bool)
    → ((x : ℕ) → x < n → f x ≡ true → f' x ≡ true)
    → count n f ≡ count n f'
    → (x : ℕ) → x < n
    → f' x ≡ true
    → f x ≡ true
unfolding count
count-all zero f f' h e x lt p = absurd (omega arith)
count-all (suc n) f f' h e x lt p =
    let rest = count-le n f f' (λ x lt. h x (omega arith)) in
    let here = h n (omega arith) in
    elim (Bool-cases (x == n)) [
      | inl now ↦
          let same : x ≡ n = ground (arith, now) in
          let at_n : f' n ≡ true = ap f' (sym same) ∙ p in ap f same ∙ ground (arith, here, at_n)
      | inr before ↦
          let lt' : x < n = ground (arith, before) in
          let e' : count n f ≡ count n f' = ground (arith, here) in
          count-all n f f' (λ x lt. h x (omega arith)) e' x lt' p
    ]

-- One place more.
pub count-suc :
    (n : ℕ) (f f' : ℕ → Bool) (y : ℕ)
    → y < n
    → f y ≡ false
    → f' y ≡ true
    → ((x : ℕ) → x < n → x ≢ y → f' x ≡ f x)
    → count n f' ≡ suc (count n f)
unfolding count
count-suc zero f f' y lt fails hits h = absurd (omega arith)
count-suc (suc n) f f' y lt fails hits h = elim (Bool-cases (y == n)) [
  | inl now ↦
      let same : y ≡ n = ground (arith, now) in
      let rest = count-ext n f' f (λ x lt. h x (omega arith) (omega arith)) in
      let a : f n ≡ false = ap f (sym same) ∙ fails in
      let b : f' n ≡ true = ap f' (sym same) ∙ hits in ground (arith, rest, a, b)
  | inr before ↦
      let lt' : y < n = ground (arith, before) in
      let rest = count-suc n f f' y lt' fails hits (λ x lt. h x (omega arith)) in
      let here = h n (omega arith) (omega arith) in ground (arith, rest, here)
]

-- The sizes of blocks divide a page.
pub size_of-divides :
    (i : ℕ) → i < 7 → (16 ≤ size_of i) × (size_of i ≤ 1024) × (4096 % size_of i ≡ 0)
size_of-divides zero h = omega arith
size_of-divides (suc zero) h = omega arith
size_of-divides (suc (suc zero)) h = omega arith
size_of-divides (suc (suc (suc zero))) h = omega arith
size_of-divides (suc (suc (suc (suc zero)))) h = omega arith
size_of-divides (suc (suc (suc (suc (suc zero))))) h = omega arith
size_of-divides (suc (suc (suc (suc (suc (suc zero)))))) h = omega arith
size_of-divides (suc (suc (suc (suc (suc (suc (suc i))))))) h = absurd (omega arith)

-- A multiple of a block's size is one of 16.
pub size_of-multiple : (i x : ℕ) → i < 7 → x % size_of i ≡ 0 → x % 16 ≡ 0
size_of-multiple zero x h e = omega (arith, e)
size_of-multiple (suc zero) x h e = omega (arith, e)
size_of-multiple (suc (suc zero)) x h e = omega (arith, e)
size_of-multiple (suc (suc (suc zero))) x h e = omega (arith, e)
size_of-multiple (suc (suc (suc (suc zero)))) x h e = omega (arith, e)
size_of-multiple (suc (suc (suc (suc (suc zero))))) x h e = omega (arith, e)
size_of-multiple (suc (suc (suc (suc (suc (suc zero)))))) x h e = omega (arith, e)
size_of-multiple (suc (suc (suc (suc (suc (suc (suc i))))))) x h e = absurd (omega arith)
