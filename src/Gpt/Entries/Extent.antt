-- ===== src/Gpt/Entries/Extent.antt =====
-- `GPTParse` reads nothing of an entry but its 128 bytes.
use linux_util.Common.{ℕ, zero, suc, ◌+◌, ◌*◌, ◌≤◌, ◌<◌, ◌≡◌, refl, sym, ap, ◌∙◌, arith}
use linux_util.Memory.{Memory, load_le, bytes_at}
use linux_util.Memory.Laws.{load_le-ext}
use linux_util.Gpt.Parse.{read_guid, read_partition_name, read_partition, read_partitions}

bytes_at-ext :
    (n a b : ℕ) (m m' : Memory)
    → ((i : ℕ) → i < n → m (a + i) ≡ m' (b + i))
    → bytes_at n a m ≡ bytes_at n b m'
unfolding bytes_at
bytes_at-ext zero a b m m' h = refl
bytes_at-ext (suc n) a b m m' h =
    let first : m a ≡ m' b = ground (arith, h 0 (omega arith)) in
    let rest =
      bytes_at-ext n (suc a) (suc b) m m' (λ i p. ground (arith, h (suc i) (omega arith))) in
    rw (first, rest) refl

read_partition_name-ext :
    (n a : ℕ) (m m' : Memory)
    → ((i : ℕ) → i < 2 * n → m (a + i) ≡ m' (a + i))
    → read_partition_name n a m ≡ read_partition_name n a m'
unfolding read_partition_name
read_partition_name-ext zero a m m' h = refl
read_partition_name-ext (suc n) a m m' h =
    let zeroth : a + 0 ≡ a = omega arith in
    let first : m a ≡ m' a = ap m (sym zeroth) ∙ h 0 (omega arith) ∙ ap m' zeroth in
    let rest = read_partition_name-ext n (a + 2) m m' (λ i p.
      let shift : a + 2 + i ≡ a + (2 + i) = omega arith in
      ap m shift ∙ h (2 + i) (omega arith) ∙ ap m' (sym shift)) in
    rw (first, rest) refl

module _ (a : ℕ) (m m' : Memory) (h : (i : ℕ) → i < 128 → m (a + i) ≡ m' (a + i)) where
  load_same : (w o : ℕ) → o + w ≤ 128 → load_le w (a + o) m ≡ load_le w (a + o) m'
  load_same w o fits = load_le-ext w (a + o) (a + o) m m' (λ i p.
      let shift : a + o + i ≡ a + (o + i) = omega arith in
      ap m shift ∙ h (o + i) (omega arith) ∙ ap m' (sym shift))

  guid_same : (o : ℕ) → o + 16 ≤ 128 → read_guid (a + o) m ≡ read_guid (a + o) m'
  unfolding read_guid
  guid_same o fits =
      let at : (k : ℕ) → a + o + k ≡ a + (o + k) = λ k. omega arith in
      rw
        (
          at 4,
          at 6,
          at 8,
          at 9,
          at 10,
          load_same 4 o (omega arith),
          load_same 2 (o + 4) (omega arith),
          load_same 2 (o + 6) (omega arith),
          load_same 1 (o + 8) (omega arith),
          load_same 1 (o + 9) (omega arith),
          bytes_at-ext 6 (a + (o + 10)) (a + (o + 10)) m m' (λ i p.
              let shift : a + (o + 10) + i ≡ a + (o + 10 + i) = omega arith in
              ap m shift ∙ h (o + 10 + i) (omega arith) ∙ ap m' (sym shift)),
        )
        refl

  pub read_partition-ext : read_partition a m ≡ read_partition a m'
  unfolding read_partition
  read_partition-ext =
      let start : a + 0 ≡ a = omega arith in
      let zeroth : read_guid a m ≡ read_guid a m' =
        ap (λ x. read_guid x m) (sym start)
        ∙ guid_same 0 (omega arith)
        ∙ ap (λ x. read_guid x m') start in
      rw
        (
          zeroth,
          guid_same 16 (omega arith),
          load_same 8 32 (omega arith),
          load_same 8 40 (omega arith),
          read_partition_name-ext 36 (a + 56) m m' (λ i p.
              let shift : a + 56 + i ≡ a + (56 + i) = omega arith in
              ap m shift ∙ h (56 + i) (omega arith) ∙ ap m' (sym shift)),
        )
        refl

pub read_partitions-ext :
    (n a : ℕ) (m m' : Memory)
    → ((i : ℕ) → i < 128 * n → m (a + i) ≡ m' (a + i))
    → read_partitions n a m ≡ read_partitions n a m'
unfolding read_partitions
read_partitions-ext zero a m m' h = refl
read_partitions-ext (suc n) a m m' h =
    let first = read_partition-ext a m m' (λ i p. h i (omega arith)) in
    let rest = read_partitions-ext n (a + 128) m m' (λ i p.
      let shift : a + 128 + i ≡ a + (128 + i) = omega arith in
      ap m shift ∙ h (128 + i) (omega arith) ∙ ap m' (sym shift)) in
    rw (first, rest) refl
