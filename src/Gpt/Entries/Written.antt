-- ===== src/Gpt/Entries/Written.antt =====
-- An entry that `GPTGenerate` writes is what `GPTParse` reads.
use linux_util.Common.{
  ℕ, zero, suc, ◌+◌, ◌-◌, ◌*◌, ◌^◌, ◌≤◌, ◌<◌, ◌≡◌, refl, ◌∙◌, inl, inr, true, arith, List, [], ◌∷◌,
  length, get_or, take, u64, sub64, none, some,
}
use native.Mathlib.Nat.{mod-eq_of_lt}
use linux_util.Memory.{Memory, memset, put_bytes, load_le}
use linux_util.Memory.Fields.{store_fields, all_within, last_value, load-store_fields}
use linux_util.Memory.Frame.{
  SameOutside, SameOutside-trans, SameOutside-widen, load-SameOutside, memset-SameOutside,
  put_bytes-SameOutside, store_fields-SameOutside,
}
use linux_util.Gpt.Config.{PartitionConfig, guid_bytes}
use linux_util.Gpt.Entries.{write_partition_name, entry_fields, write_entry, write_entries}
use linux_util.Gpt.Parse.{read_guid, read_partition_name, read_partition, read_partitions}
use linux_util.Gpt.Entries.Fields.{
  IsPartition, write_partition_name-SameOutside, read_partition_name-written, read_guid-bytes,
}
use linux_util.Gpt.Entries.Extent.{read_partition-ext}

pub put_bytes-inside :
    (a : ℕ) (bs : List ℕ) (m : Memory) (i : ℕ)
    → i < length bs
    → put_bytes a bs m (a + i) ≡ get_or bs i 0
unfolding put_bytes
put_bytes-inside a bs m i h = let back : a + i - a ≡ i = omega arith in ground arith

memset-inside : (a n : ℕ) (m : Memory) (x : ℕ) → a ≤ x → x < a + n → memset a 0 n m x ≡ 0
unfolding memset
memset-inside a n m x lo hi = ground arith

fields-within : (cp : PartitionConfig) → all_within 56 (entry_fields cp) ≡ true
unfolding all_within entry_fields
fields-within cp = refl

pub write_entry-SameOutside :
    (lo hi size a : ℕ) (cp : PartitionConfig) (m : Memory)
    → IsPartition cp
    → 128 ≤ size
    → lo ≤ a
    → a + size ≤ hi
    → SameOutside lo hi m (write_entry size a cp m)
unfolding write_entry
write_entry-SameOutside lo hi size a cp m ok big p q =
    let t = ok.request.part_type.node in
    let d = ok.request.part_id.node in
    let n = ok.request.name_fits in
    SameOutside-trans lo hi
      (SameOutside-trans lo hi
        (SameOutside-trans lo hi (memset-SameOutside lo hi a 0 size m p (omega arith))
          (store_fields-SameOutside lo hi a 56 _ _ (fields-within cp) p (omega arith)))
        (SameOutside-trans lo hi
          (put_bytes-SameOutside lo hi (a + 16) _ _ (omega arith) (omega arith))
          (put_bytes-SameOutside lo hi a _ _ p (omega arith))))
      (write_partition_name-SameOutside lo hi (a + 56) cp.name _ (omega arith) (omega arith))

pub read_partition-write_entry :
    (size a : ℕ) (cp : PartitionConfig) (m : Memory)
    → IsPartition cp
    → 128 ≤ size
    → read_partition a (write_entry size a cp m) ≡ cp
unfolding write_entry read_partition entry_fields last_value
read_partition-write_entry size a cp m ok big =
    let t = ok.request.part_type.node in
    let d = ok.request.part_id.node in
    let n = ok.request.name_fits in
    let m1 = memset a 0 size m in
    let m2 = store_fields a (entry_fields cp) m1 in
    let m3 = put_bytes (a + 16) (guid_bytes cp.part_id) m2 in
    let m4 = put_bytes a (guid_bytes cp.part_type) m3 in
    let m5 = write_partition_name (a + 56) cp.name m4 in
    let last =
      write_partition_name-SameOutside (a + 56) (a + 128) (a + 56) cp.name m4 (omega arith)
        (omega arith) in
    let types =
      put_bytes-SameOutside a (a + 16) a (guid_bytes cp.part_type) m3 (omega arith) (omega arith) in
    let ids =
      put_bytes-SameOutside a (a + 32) (a + 16) (guid_bytes cp.part_id) m2 (omega arith)
        (omega arith) in
    let both : SameOutside a (a + 32) m2 m4 =
      SameOutside-trans a (a + 32) ids
        (SameOutside-widen a (a + 32) types (omega arith) (omega arith)) in
    let fields =
      store_fields-SameOutside a (a + 56) a 56 (entry_fields cp) m1 (fields-within cp) (omega arith)
        (omega arith) in
    let cleared : (x : ℕ) → a ≤ x → x < a + size → m1 x ≡ 0 = memset-inside a size m in
    let field_of : (o v : ℕ)
        → last_value o 8 (entry_fields cp) none ≡ some v
        → 32 ≤ o
        → o ≤ 48
        → v < 256 ^ 8
        → load_le 8 (a + o) m5 ≡ v =
      λ o v e lo hi small.
        load-SameOutside 8 (a + o) last (inl (omega arith))
        ∙ load-SameOutside 8 (a + o) both (inr (omega arith))
        ∙ load-store_fields o 8 a v (entry_fields cp) m1 none (λ u. cc) e
        ∙ mod-eq_of_lt small in
    let kind : read_guid a m5 ≡ cp.part_type =
      read_guid-bytes a cp.part_type m5 ok.request.part_type (λ i p.
        last.same (a + i) (inl (omega arith))
        ∙ put_bytes-inside a (guid_bytes cp.part_type) m3 i (omega arith)) in
    let own : read_guid (a + 16) m5 ≡ cp.part_id =
      read_guid-bytes (a + 16) cp.part_id m5 ok.request.part_id (λ i p.
        last.same (a + 16 + i) (inl (omega arith))
        ∙ types.same (a + 16 + i) (inr (omega arith))
        ∙ put_bytes-inside (a + 16) (guid_bytes cp.part_id) m2 i (omega arith)) in
    let name : read_partition_name 36 (a + 56) m5 ≡ cp.name =
      read_partition_name-written 36 (a + 56) cp.name m4 n ok.request.name (λ h.
        both.same (a + 56 + 2 * length cp.name) (inr (omega arith))
        ∙ fields.same (a + 56 + 2 * length cp.name) (inr (omega arith))
        ∙ cleared (a + 56 + 2 * length cp.name) (omega arith) (omega arith)) in
    let first : load_le 8 (a + 32) m5 ≡ cp.start_lba =
      field_of 32 cp.start_lba refl (omega arith) (omega arith) (omega arith) in
    let final : load_le 8 (a + 40) m5 ≡ sub64 (u64 (cp.start_lba + cp.volume)) 1 =
      field_of 40 _ refl (omega arith) (omega arith) (omega arith) in
    let volume : u64 (sub64 (sub64 (u64 (cp.start_lba + cp.volume)) 1) cp.start_lba + 1)
        ≡ cp.volume =
      omega (arith, ok.started, ok.ended) in
    rw (kind, own, name, first, final, volume) refl

-- The first `n` partitions of the list fit entries.
unfoldable pub AllPartitions : ℕ → List PartitionConfig → Type 0
AllPartitions zero cps = Unit
AllPartitions (suc n) [] = ⊥
AllPartitions (suc n) (cp ∷ cps) = IsPartition cp × AllPartitions n cps

pub write_entries-SameOutside :
    (lo hi size a n : ℕ) (cps : List PartitionConfig) (m : Memory)
    → AllPartitions n cps
    → 128 ≤ size
    → lo ≤ a
    → a + 128 * n + size ≤ hi + 128
    → SameOutside lo hi m (write_entries size a n cps m)
unfolding write_entries AllPartitions
write_entries-SameOutside lo hi size a zero cps m ok big p q = record { same = λ x out. refl }
write_entries-SameOutside lo hi size a (suc n) (cp ∷ cps) m (ok, oks) big p q =
    SameOutside-trans lo hi (write_entry-SameOutside lo hi size a cp m ok big p (omega arith))
      (write_entries-SameOutside lo hi size (a + 128) n cps _ oks big (omega arith) (omega arith))
write_entries-SameOutside lo hi size a (suc n) [] m ok big p q = absurd ok

pub read_partitions-write_entries :
    (size a n : ℕ) (cps : List PartitionConfig) (m : Memory)
    → AllPartitions n cps
    → 128 ≤ size
    → read_partitions n a (write_entries size a n cps m) ≡ take n cps
unfolding write_entries AllPartitions read_partitions
read_partitions-write_entries size a zero cps m ok big = refl
read_partitions-write_entries size a (suc n) [] m ok big = absurd ok
read_partitions-write_entries size a (suc n) (cp ∷ cps) m (ok, oks) big =
    let m1 = write_entry size a cp m in
    let later =
      write_entries-SameOutside (a + 128) (a + 128 + 128 * n + size) size (a + 128) n cps m1 oks big
        (omega arith) (omega arith) in
    let first : read_partition a (write_entries size (a + 128) n cps m1) ≡ cp =
      read_partition-ext a _ _ (λ i p. later.same (a + i) (inl (omega arith)))
      ∙ read_partition-write_entry size a cp m ok big in
    rw (first, read_partitions-write_entries size (a + 128) n cps m1 oks big) refl
