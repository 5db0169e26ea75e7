-- ===== src/Memory/Frame.antt =====
-- Where the writes of Memory change bytes.
use linux_util.Common.{ℕ, ◌+◌, ◌≤◌, ◌<◌, ◌≡◌, refl, ◌⊎◌, true, List, [], ◌∷◌, ◌∙◌, arith, length}
use linux_util.Memory.{Memory, memset, memcpy, put_bytes, store_le, load_le}
use linux_util.Memory.Laws.{load_le-ext}
use linux_util.Memory.Fields.{Field, store_fields, all_within}

-- `m'` differs from `m` at most at the bytes `lo .. hi`.
pub record SameOutside (lo hi : ℕ) (m m' : Memory) : Type 0 where
  pub same : (a : ℕ) → (a < lo) ⊎ (hi ≤ a) → m' a ≡ m a

-- The same change, seen in a larger range.
pub SameOutside-widen :
    {lo hi : ℕ} (lo' hi' : ℕ) {m m' : Memory}
    → SameOutside lo hi m m'
    → lo' ≤ lo
    → hi ≤ hi'
    → SameOutside lo' hi' m m'
SameOutside-widen lo' hi' h p q = record { same = λ a out. h.same a (ground arith) }

pub load-SameOutside :
    {lo hi : ℕ} {m m' : Memory} (w a : ℕ)
    → SameOutside lo hi m m'
    → (a + w ≤ lo) ⊎ (hi ≤ a)
    → load_le w a m' ≡ load_le w a m
load-SameOutside {lo} {hi} {m} {m'} w a h out =
    load_le-ext w a a m' m (λ i p. h.same (a + i) (ground arith))

module _ (lo hi : ℕ) where
  pub SameOutside-trans :
      {m m' m'' : Memory}
      → SameOutside lo hi m m'
      → SameOutside lo hi m' m''
      → SameOutside lo hi m m''
  SameOutside-trans h k = record { same = λ a out. k.same a out ∙ h.same a out }

  pub memset-SameOutside :
      (a v n : ℕ) (m : Memory) → lo ≤ a → a + n ≤ hi → SameOutside lo hi m (memset a v n m)
  unfolding memset
  memset-SameOutside a v n m h k = record { same = λ x out. ground arith }

  pub memcpy-SameOutside :
      (a b n : ℕ) (m : Memory) → lo ≤ a → a + n ≤ hi → SameOutside lo hi m (memcpy a b n m)
  unfolding memcpy
  memcpy-SameOutside a b n m h k = record { same = λ x out. ground arith }

  pub put_bytes-SameOutside :
      (a : ℕ) (bs : List ℕ) (m : Memory)
      → lo ≤ a
      → a + length bs ≤ hi
      → SameOutside lo hi m (put_bytes a bs m)
  unfolding put_bytes
  put_bytes-SameOutside a bs m h k = record { same = λ x out. ground arith }

  pub store_le-SameOutside :
      (w a v : ℕ) (m : Memory) → lo ≤ a → a + w ≤ hi → SameOutside lo hi m (store_le w a v m)
  unfolding store_le
  store_le-SameOutside w a v m h k = record { same = λ x out. ground arith }

  pub store_fields-SameOutside :
      (base n : ℕ) (fs : List Field) (m : Memory)
      → all_within n fs ≡ true
      → lo ≤ base
      → base + n ≤ hi
      → SameOutside lo hi m (store_fields base fs m)
  unfolding store_fields all_within
  store_fields-SameOutside base n [] m fits h k = record { same = λ x out. refl }
  store_fields-SameOutside base n (f ∷ fs) m fits h k =
      let (first, rest) : (f.off + f.width ≤ n) × (all_within n fs ≡ true) =
        (ground arith, ground arith) in
      SameOutside-trans
        (store_le-SameOutside f.width (base + f.off) f.value m (omega arith) (omega arith))
        (store_fields-SameOutside base n fs (store_le f.width (base + f.off) f.value m) rest h k)
