-- ===== src/Memory/Fields.antt =====
-- A run of `_generic_store_le` statements on the fields of one packed struct: the list holds the
-- offset, the width and the value of each, in the order of the statements.
use linux_util.Common.{
  ℕ, ◌+◌, ◌%◌, ◌^◌, ◌≤◌, ◌<◌, ◌≡◌, refl, ◌⊎◌, Bool, true, ◌&&◌, ◌||◌, Option, none, some, List, [],
  ◌∷◌, arith, leb, ◌==◌, if◌then◌else◌,
}
use linux_util.Memory.{Memory, store_le, load_le}
use linux_util.Memory.Laws.{load-store_self, load-store_apart}

pub record Field : Type 0 where
  pub off : ℕ
  pub width : ℕ
  pub value : ℕ

abbrev pub field : ℕ → ℕ → ℕ → Field
field o w v = record { off = o; width = w; value = v }

unfoldable pub store_fields : (base : ℕ) → List Field → Memory → Memory
store_fields base [] m = m
store_fields base (f ∷ fs) m = store_fields base fs (store_le f.width (base + f.off) f.value m)

abbrev apart : ℕ → ℕ → Field → Bool
apart o w f = leb (o + w) f.off || leb (f.off + f.width) o

-- The value that the stores leave in the field of `w` bytes at `o`; `none` where a store covers
-- a part of it only, and `start` where none touches it.
unfoldable pub last_value : (o w : ℕ) → List Field → Option ℕ → Option ℕ
last_value o w [] start = start
last_value o w (f ∷ fs) start =
    last_value o w fs
      (if f.off == o && f.width == w then some f.value else if apart o w f then start else none)

-- Every field lies in the first `n` bytes of the struct.
unfoldable pub all_within : ℕ → List Field → Bool
all_within n [] = true
all_within n (f ∷ fs) = leb (f.off + f.width) n && all_within n fs

-- No field lies in the first `n` bytes of the struct.
unfoldable pub all_from : ℕ → List Field → Bool
all_from n [] = true
all_from n (f ∷ fs) = leb n f.off && all_from n fs

-- No field of the list shares a byte with the `w` bytes at `o`.
unfoldable pub none_at : ℕ → ℕ → List Field → Bool
none_at o w [] = true
none_at o w (f ∷ fs) = apart o w f && none_at o w fs

abbrev Holds : (w a : ℕ) → Memory → Option ℕ → Type 0
Holds w a m start = (u : ℕ) → start ≡ some u → load_le w a m ≡ u % 256 ^ w

Holds-store :
    (o w base : ℕ) (f : Field) (m : Memory) (start : Option ℕ)
    → Holds w (base + o) m start
    → Holds w
        (base + o)
        (store_le f.width (base + f.off) f.value m)
        (if f.off == o && f.width == w then some f.value else if apart o w f then start else none)
Holds-store o w base f m start h u e = ground (
  arith,
  h u,
  load-store_self w (base + o) f.value m,
  load-store_apart w (base + o) f.width (base + f.off) f.value m,
)

pub load-store_fields :
    (o w base v : ℕ) (fs : List Field) (m : Memory) (start : Option ℕ)
    → Holds w (base + o) m start
    → last_value o w fs start ≡ some v
    → load_le w (base + o) (store_fields base fs m) ≡ v % 256 ^ w
unfolding store_fields last_value
load-store_fields o w base v [] m start h e = h v e
load-store_fields o w base v (f ∷ fs) m start h e =
    load-store_fields o w base v fs _ _ (Holds-store o w base f m start h) e

-- The bytes outside the struct, and those that no field covers, stay.
pub load-store_fields_outside :
    (w a base n : ℕ) (fs : List Field) (m : Memory)
    → all_within n fs ≡ true
    → (a + w ≤ base) ⊎ (base + n ≤ a)
    → load_le w a (store_fields base fs m) ≡ load_le w a m
unfolding store_fields all_within
load-store_fields_outside w a base n [] m fits h = refl
load-store_fields_outside w a base n (f ∷ fs) m fits h = ground (
  arith,
  load-store_fields_outside w a base n fs (store_le f.width (base + f.off) f.value m),
  load-store_apart w a f.width (base + f.off) f.value m,
)

pub load-store_fields_none :
    (w o base : ℕ) (fs : List Field) (m : Memory)
    → none_at o w fs ≡ true
    → load_le w (base + o) (store_fields base fs m) ≡ load_le w (base + o) m
unfolding store_fields none_at
load-store_fields_none w o base [] m free = refl
load-store_fields_none w o base (f ∷ fs) m free = ground (
  arith,
  load-store_fields_none w o base fs (store_le f.width (base + f.off) f.value m),
  load-store_apart w (base + o) f.width (base + f.off) f.value m,
)

-- The first bytes of a struct stay where no field lies in them.
pub store_fields-below :
    (base n i : ℕ) (fs : List Field) (m : Memory)
    → all_from n fs ≡ true
    → i < n
    → store_fields base fs m (base + i) ≡ m (base + i)
unfolding store_fields all_from store_le
store_fields-below base n i [] m free h = refl
store_fields-below base n i (f ∷ fs) m free h =
    ground (arith, store_fields-below base n i fs (store_le f.width (base + f.off) f.value m))
