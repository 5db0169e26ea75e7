-- ===== src/Memory/Laws.antt =====
-- How loads see the writes of Memory.
use linux_util.Common.{
  ℕ, zero, suc, ◌+◌, ◌-◌, ◌/◌, ◌%◌, ◌^◌, ◌≤◌, ◌<◌, ◌≡◌, refl, ◌⊎◌, List, arith, length, get_or,
  mod-mul,
}
use native.Mathlib.Nat.{pow-succ', div-div-eq-div-mul}
use linux_util.Memory.{Memory, splice, memset, memcpy, put_bytes, byte_of, store_le, load_le}

-- A load reads `w` bytes and nothing else.
pub load_le-ext :
    (w a b : ℕ) (m m' : Memory)
    → ((i : ℕ) → i < w → m (a + i) ≡ m' (b + i))
    → load_le w a m ≡ load_le w b m'
unfolding load_le
load_le-ext zero a b m m' h = refl
load_le-ext (suc w) a b m m' h = ground (
  arith,
  h 0 (omega arith),
  load_le-ext w (suc a) (suc b) m m' (λ i p. ground (arith, h (suc i) (omega arith))),
)

pub load-splice_apart :
    (w a b n : ℕ) (f : ℕ → ℕ) (m : Memory)
    → (a + w ≤ b) ⊎ (b + n ≤ a)
    → load_le w a (splice b n f m) ≡ load_le w a m
load-splice_apart w a b n f m h = load_le-ext w a a (splice b n f m) m (λ i p. ground arith)

pub byte_of-suc : (v i : ℕ) → byte_of v (suc i) ≡ byte_of (v / 256) i
byte_of-suc v i = rw (pow-succ' 256 i, ← div-div-eq-div-mul v 256 (256 ^ i))

pub load-digits :
    (w a v : ℕ) (m : Memory)
    → ((i : ℕ) → i < w → m (a + i) ≡ byte_of v i)
    → load_le w a m ≡ v % 256 ^ w
unfolding load_le
load-digits zero a v m h = omega arith
load-digits (suc w) a v m h = ground (
  arith,
  h 0 (omega arith),
  pow-succ' 256 w,
  mod-mul 256 v (256 ^ w),
  load-digits w (suc a) (v / 256) m
      (λ i p. ground (arith, h (suc i) (omega arith), byte_of-suc v i)),
)

-- A load gives back what a store of the same width put there, cut to that width.
pub load-store_self : (w a v : ℕ) (m : Memory) → load_le w a (store_le w a v m) ≡ v % 256 ^ w
unfolding store_le
load-store_self w a v m = load-digits w a v _ (λ i p. ground arith)

pub load-store_apart :
    (w a k b v : ℕ) (m : Memory)
    → (a + w ≤ b) ⊎ (b + k ≤ a)
    → load_le w a (store_le k b v m) ≡ load_le w a m
unfolding store_le
load-store_apart w a k b v m h = load-splice_apart w a b k (byte_of v) m h

pub load-memset_apart :
    (w a b v n : ℕ) (m : Memory)
    → (a + w ≤ b) ⊎ (b + n ≤ a)
    → load_le w a (memset b v n m) ≡ load_le w a m
unfolding memset
load-memset_apart w a b v n m h = load-splice_apart w a b n (λ i. v % 256) m h

-- A load inside a cleared range is zero.
pub load-memset_zero :
    (w a b n : ℕ) (m : Memory) → b ≤ a → a + w ≤ b + n → load_le w a (memset b 0 n m) ≡ 0
unfolding load_le memset
load-memset_zero zero a b n m lo hi = refl
load-memset_zero (suc w) a b n m lo hi =
    ground (arith, load-memset_zero w (suc a) b n m (omega arith) (omega arith))

pub load-memcpy_apart :
    (w a dst src n : ℕ) (m : Memory)
    → (a + w ≤ dst) ⊎ (dst + n ≤ a)
    → load_le w a (memcpy dst src n m) ≡ load_le w a m
unfolding memcpy
load-memcpy_apart w a dst src n m h = load-splice_apart w a dst n (λ i. m (src + i)) m h

-- A load inside a copy reads the source.
pub load-memcpy_inside :
    (w k dst src n : ℕ) (m : Memory)
    → k + w ≤ n
    → load_le w (dst + k) (memcpy dst src n m) ≡ load_le w (src + k) m
unfolding memcpy
load-memcpy_inside w k dst src n m h =
    load_le-ext w (dst + k) (src + k) _ m
      (λ i p. let e : dst + k + i - dst ≡ k + i = omega arith in ground arith)

pub load-put_bytes_apart :
    (w a b : ℕ) (bs : List ℕ) (m : Memory)
    → (a + w ≤ b) ⊎ (b + length bs ≤ a)
    → load_le w a (put_bytes b bs m) ≡ load_le w a m
unfolding put_bytes
load-put_bytes_apart w a b bs m h = load-splice_apart w a b (length bs) (λ i. get_or bs i 0) m h
