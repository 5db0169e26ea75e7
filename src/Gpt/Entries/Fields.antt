-- ===== src/Gpt/Entries/Fields.antt =====
-- The name and the identifiers of a partition entry: what is written is what is read.
use linux_util.Common.{
  ℕ, zero, suc, ◌+◌, ◌-◌, ◌*◌, ◌^◌, ◌≤◌, ◌<◌, ◌≡◌, refl, sym, ap, ◌∙◌, inl, arith, List, [], ◌∷◌,
  length, get_or,
}
use native.Mathlib.Nat.{mod-eq_of_lt}
use linux_util.Memory.{Memory, store_le, load_le, bytes_at, byte_of}
use linux_util.Memory.Laws.{load-digits}
use linux_util.Memory.Frame.{SameOutside, SameOutside-trans, store_le-SameOutside}
use linux_util.Gpt.Config.{Guid, PartitionConfig, guid_bytes}
use linux_util.Gpt.Entries.{write_partition_name}
use linux_util.Gpt.Parse.{read_guid, read_partition_name}

-- A name of characters that are not zero.
abbrev pub IsName : List ℕ → Type 0
IsName cs = (i : ℕ) → i < length cs → (0 < get_or cs i 0) × (get_or cs i 0 < 256)

pub record IsGuid (g : Guid) : Type 0 where
  pub time_low : g.time_low < 2 ^ 32
  pub time_mid : g.time_mid < 2 ^ 16
  pub time_high : g.time_high < 2 ^ 16
  pub clock_seq_high : g.clock_seq_high < 2 ^ 8
  pub clock_seq_low : g.clock_seq_low < 2 ^ 8
  pub node : length g.node ≡ 6

-- What can be asked for: the GUIDs are 16 bytes each and the name fits an entry.
pub record IsRequest (cp : PartitionConfig) : Type 0 where
  pub part_type : IsGuid cp.part_type
  pub part_id : IsGuid cp.part_id
  pub name : IsName cp.name
  pub name_fits : length cp.name ≤ 36

-- A partition with a place that can be stored.
pub record IsPartition (cp : PartitionConfig) : Type 0 where
  pub request : IsRequest cp
  pub started : 0 < cp.start_lba
  pub ended : cp.start_lba + cp.volume < 2 ^ 64

pub write_partition_name-SameOutside :
    (lo hi a : ℕ) (cs : List ℕ) (m : Memory)
    → lo ≤ a
    → a + 2 * length cs ≤ hi
    → SameOutside lo hi m (write_partition_name a cs m)
unfolding write_partition_name
write_partition_name-SameOutside lo hi a [] m p q = record { same = λ x out. refl }
write_partition_name-SameOutside lo hi a (c ∷ cs) m p q =
    SameOutside-trans lo hi
      (SameOutside-trans lo hi (store_le-SameOutside lo hi 1 a c m p (omega arith))
        (store_le-SameOutside lo hi 1 (a + 1) 0 _ (omega arith) (omega arith)))
      (write_partition_name-SameOutside lo hi (a + 2) cs _ (omega arith) (omega arith))

pub read_partition_name-written :
    (n a : ℕ) (cs : List ℕ) (m : Memory)
    → length cs ≤ n
    → IsName cs
    → (length cs < n → m (a + 2 * length cs) ≡ 0)
    → read_partition_name n a (write_partition_name a cs m) ≡ cs
unfolding write_partition_name read_partition_name store_le
read_partition_name-written zero a [] m le ok last = refl
read_partition_name-written (suc n) a [] m le ok last = ground (arith, last (omega arith))
read_partition_name-written zero a (c ∷ cs) m le ok last = absurd (omega arith)
read_partition_name-written (suc n) a (c ∷ cs) m le ok last =
    let m1 = store_le 1 (a + 1) 0 (store_le 1 a c m) in
    let kept =
      write_partition_name-SameOutside (a + 2) (a + 2 + 2 * length cs) (a + 2) cs m1 (omega arith)
        (omega arith) in
    let char = ok 0 (omega arith) in
    let zeroth : a - a ≡ 0 = omega arith in
    let own : m1 a ≡ c = ground arith in
    let later : length cs < n → m1 (a + 2 + 2 * length cs) ≡ 0 = λ h.
      let shift : a + 2 + 2 * length cs ≡ a + 2 * length (c ∷ cs) = omega arith in
      ground (arith, ap m shift, last (omega arith)) in
    let rest =
      read_partition_name-written n (a + 2) cs m1 (omega arith) (λ i h. ok (suc i) (omega arith))
        later in
    let here : write_partition_name (a + 2) cs m1 a ≡ c = kept.same a (inl (omega arith)) ∙ own in
    rw (here, rest) (ground (arith, char))

bytes_at-get :
    (a : ℕ) (bs : List ℕ) (m : Memory)
    → ((i : ℕ) → i < length bs → m (a + i) ≡ get_or bs i 0)
    → bytes_at (length bs) a m ≡ bs
unfolding bytes_at
bytes_at-get a [] m h = refl
bytes_at-get a (b ∷ bs) m h =
    let zeroth : a + 0 ≡ a = omega arith in
    let first : m a ≡ b = ap m (sym zeroth) ∙ h 0 (omega arith) in
    rw
      (
        first,
        bytes_at-get (suc a) bs m (λ i p.
            let shift : suc a + i ≡ a + suc i = omega arith in
            ap m shift ∙ h (suc i) (omega arith)),
      )
      refl

module _ (a : ℕ) (g : Guid) (m : Memory) (ok : IsGuid g)
    (h : (i : ℕ) → i < 16 → m (a + i) ≡ get_or (guid_bytes g) i 0) where
  -- The bytes of one field.
  bytes_of_field :
      (w o v : ℕ)
      → o + w ≤ 16
      → ((i : ℕ) → i < w → get_or (guid_bytes g) (o + i) 0 ≡ byte_of v i)
      → v < 256 ^ w
      → load_le w (a + o) m ≡ v
  bytes_of_field w o v fits same small =
      load-digits w (a + o) v m (λ i p.
        let shift : a + o + i ≡ a + (o + i) = omega arith in
        ap m shift ∙ h (o + i) (omega arith) ∙ same i p)
      ∙ mod-eq_of_lt small

  pub read_guid-bytes : read_guid a m ≡ g
  unfolding read_guid
  read_guid-bytes =
      let start : a + 0 ≡ a = omega arith in
      let low =
        ap (λ x. load_le 4 x m) (sym start)
        ∙ bytes_of_field 4 0 g.time_low (omega arith) four ok.time_low in
      let mid =
        bytes_of_field 2 4 g.time_mid (omega arith) (two 4 g.time_mid refl refl) ok.time_mid in
      let high =
        bytes_of_field 2 6 g.time_high (omega arith) (two 6 g.time_high refl refl) ok.time_high in
      let seq_high =
        bytes_of_field 1 8 g.clock_seq_high (omega arith) (one 8 g.clock_seq_high refl)
          ok.clock_seq_high in
      let seq_low =
        bytes_of_field 1 9 g.clock_seq_low (omega arith) (one 9 g.clock_seq_low refl)
          ok.clock_seq_low in
      let node : bytes_at 6 (a + 10) m ≡ g.node =
        ap (λ n. bytes_at n (a + 10) m) (sym ok.node)
        ∙ bytes_at-get (a + 10) g.node m (λ i p.
          let shift : a + 10 + i ≡ a + (10 + i) = omega arith in
          let ten : 10 + i ≡ suc (suc (suc (suc (suc (suc (suc (suc (suc (suc i))))))))) =
            omega arith in
          ap m shift ∙ h (10 + i) (omega arith) ∙ ap (λ j. get_or (guid_bytes g) j 0) ten) in
      rw (low, mid, high, seq_high, seq_low, node) refl
    where
      four : (i : ℕ) → i < 4 → get_or (guid_bytes g) (0 + i) 0 ≡ byte_of g.time_low i
      four zero p = refl
      four (suc zero) p = refl
      four (suc (suc zero)) p = refl
      four (suc (suc (suc zero))) p = refl
      four (suc (suc (suc (suc i)))) p = absurd (omega arith)

      two :
          (o v : ℕ)
          → get_or (guid_bytes g) (o + 0) 0 ≡ byte_of v 0
          → get_or (guid_bytes g) (o + 1) 0 ≡ byte_of v 1
          → (i : ℕ) → i < 2
          → get_or (guid_bytes g) (o + i) 0 ≡ byte_of v i
      two o v e e' zero p = e
      two o v e e' (suc zero) p = e'
      two o v e e' (suc (suc i)) p = absurd (omega arith)

      one :
          (o v : ℕ)
          → get_or (guid_bytes g) (o + 0) 0 ≡ byte_of v 0
          → (i : ℕ) → i < 1
          → get_or (guid_bytes g) (o + i) 0 ≡ byte_of v i
      one o v e zero p = e
      one o v e (suc i) p = absurd (omega arith)
