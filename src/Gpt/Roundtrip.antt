-- ===== src/Gpt/Roundtrip.antt =====
-- `GPTParse` reads back what `GPTGenerate` of gpt/gpt.c wrote.
use linux_util.Common.{
  ℕ, suc, ◌+◌, ◌-◌, ◌*◌, ◌^◌, ◌≤◌, ◌<◌, ◌≡◌, refl, sym, ap, ◌∙◌, inl, inr, Bool, true, false, none,
  arith, List, [], ◌∷◌, length, get_or, take,
}
use linux_util.Memory.{Memory, load_le}
use linux_util.Memory.Fields.{last_value, load-store_fields}
use linux_util.Memory.Laws.{load_le-ext}
use linux_util.Memory.Frame.{SameOutside, load-SameOutside}
use linux_util.Crc32.{crc32}
use linux_util.Gpt.Config.{PartitionConfig, GptConfig, num_part, block_size}
use linux_util.Gpt.Protect.{mbr_fields, create_protect_gpt}
use linux_util.Gpt.Allocate.{Placed, all_placed, too_large, placed, allocate-Placed}
use linux_util.Gpt.Entries.Fields.{IsRequest}
use linux_util.Gpt.Entries.Extent.{read_partitions-ext}
use linux_util.Gpt.Entries.Written.{
  AllPartitions, write_entries-SameOutside, read_partitions-write_entries,
}
use linux_util.Gpt.Generate.{
  num_sector_for_array, num_sectors_for_fs, too_small, allocation, efi_part, last_fields,
  entry_array, write_array, write_headers, write_sums, Generated, gpt_generate,
}
use linux_util.Gpt.Parse.{parsed, same_bytes, read_partitions, gpt_parse}
use linux_util.Gpt.Headers.{headers_keep, header_field, signature_kept}

unfoldable pub AllRequests : List PartitionConfig → Type 0
AllRequests [] = Unit
AllRequests (cp ∷ cps) = IsRequest cp × AllRequests cps

-- What is placed can be stored.
Placed-AllPartitions :
    {from to n next : ℕ} {asked given : List PartitionConfig}
    → Placed from to asked given n next
    → 0 < from
    → to < 2 ^ 64
    → AllRequests asked
    → AllPartitions n given
unfolding AllRequests AllPartitions
Placed-AllPartitions (all_placed from to h) p q ok = tt
Placed-AllPartitions (too_large from to cp cps h h') p q ok = tt
Placed-AllPartitions (placed from to cp asked given n next h rest) p q (ok, oks) = (
  record {
    request = record {
      part_type = ok.part_type;
      part_id = ok.part_id;
      name = ok.name;
      name_fits = ok.name_fits;
    };
    started = p;
    ended = omega arith;
  },
  Placed-AllPartitions rest (omega arith) q oks,
)

Placed-le :
    {from to n next : ℕ} {asked given : List PartitionConfig}
    → Placed from to asked given n next
    → n ≤ length asked
Placed-le (all_placed from to h) = omega arith
Placed-le (too_large from to cp cps h h') = omega arith
Placed-le (placed from to cp asked given n next h rest) = omega (arith, Placed-le rest)

same_bytes-holds :
    (a : ℕ) (bs : List ℕ) (m : Memory)
    → ((i : ℕ) → i < length bs → m (a + i) ≡ get_or bs i 0)
    → same_bytes a bs m ≡ true
unfolding same_bytes
same_bytes-holds a [] m h = refl
same_bytes-holds a (b ∷ bs) m h =
    let zeroth : a + 0 ≡ a = omega arith in
    let first : m a ≡ b = ap m (sym zeroth) ∙ h 0 (omega arith) in
    let rest = same_bytes-holds (suc a) bs m (λ i p.
      let shift : suc a + i ≡ a + suc i = omega arith in ap m shift ∙ h (suc i) (omega arith)) in
    ground (arith, first, rest)

-- What `GPTGenerate` and a reader of its result rely on.
pub record CanGenerate (config : GptConfig) : Type 0 where
  pub sectors : config.volume < 2 ^ 64
  pub few : num_part config < 2 ^ 32
  pub large_enough : too_small config ≡ false
  pub node : length config.disk_id.node ≡ 6
  pub requests : AllRequests config.partitions

module _ (buf : ℕ) {config : GptConfig} (can : CanGenerate config) (m : Memory) where
  abbrev pub ns : ℕ
  ns = num_sector_for_array config

  abbrev pub made : Generated buf config
  made = gpt_generate buf config m

  pub sizes : (1 ≤ ns) × (ns + 4 ≤ config.volume) × (num_part config ≤ 4 * ns)
  sizes =
      let few = can.few in
      let many = can.sectors in let large = can.large_enough in ground (arith, large)

  allocation-Placed :
      Placed
        (2 + ns)
        (config.volume - 2)
        config.partitions
        (allocation config).partitions
        (allocation config).ret
        (allocation config).start
  unfolding allocation
  allocation-Placed =
      let many = can.sectors in
      let s = sizes in
      let room : num_sectors_for_fs config ≡ config.volume - 4 - ns = omega arith in
      allocate-Placed (num_sectors_for_fs config) (2 + ns) (config.volume - 2) config.partitions
        (omega arith) (omega arith)

  abbrev pub count : ℕ
  count = (allocation config).ret

  pub count-le : count ≤ 4 * ns
  count-le = let le = Placed-le allocation-Placed in let s = sizes in omega arith

  pub count-lt : count < 2 ^ 32
  count-lt = let le = Placed-le allocation-Placed in let few = can.few in omega arith

  all_stored : AllPartitions count (allocation config).partitions
  all_stored =
      let many = can.sectors in
      Placed-AllPartitions allocation-Placed (omega arith) (omega arith) can.requests

  abbrev pub protected : Memory
  protected = create_protect_gpt buf block_size config.volume m

  abbrev pub with_array : Memory
  with_array = write_array buf config protected

  abbrev pub sum : ℕ
  sum = crc32 (entry_array buf config) (128 * count) with_array

  abbrev pub final : Memory
  final =
      write_sums buf config
        (write_headers buf config (allocation config).start count sum with_array)

  array-frame : SameOutside (buf + 1024) (buf + 1024 + 128 * count + 512 * ns) protected with_array
  unfolding write_array
  array-frame =
      let s = sizes in
      write_entries-SameOutside (buf + 1024) (buf + 1024 + 128 * count + 512 * ns) (ns * block_size)
        (entry_array buf config) count (allocation config).partitions protected all_stored
        (omega arith) (omega arith) (omega arith)

  signature_field : load_le 2 (buf + 510) final ≡ 0xAA55
  unfolding mbr_fields last_value create_protect_gpt
  signature_field =
      let s = sizes in
      load_le-ext 2 (buf + 510) (buf + 510) final with_array (λ i p.
        headers_keep buf config _ count sum with_array can.node (omega arith) (buf + 510 + i)
          (inl (omega arith)) (inl (omega arith)))
      ∙ load-SameOutside 2 (buf + 510) array-frame (inl (omega arith))
      ∙ load-store_fields 510 2 buf 0xAA55 (mbr_fields block_size config.volume) _ none (λ u. cc)
          refl

  partitions_kept :
      read_partitions count (buf + 1024) final ≡ take count (allocation config).partitions
  unfolding write_array
  partitions_kept =
      let s = sizes in
      let c = count-le in
      read_partitions-ext count (buf + 1024) final with_array (λ i p.
        headers_keep buf config _ count sum with_array can.node (omega arith) (buf + 1024 + i)
          (inr (omega arith)) (inl (omega arith)))
      ∙ read_partitions-write_entries (ns * block_size) (buf + 1024) count
          (allocation config).partitions protected all_stored (omega arith)

  pub generated :
      made ≡ record { ret = count; partitions = (allocation config).partitions; memory = final }
  unfolding gpt_generate
  generated = rw can.large_enough refl

  parsed_final :
      (can_malloc : ℕ → Bool)
      → can_malloc (56 * count) ≡ true
      → gpt_parse can_malloc buf final ≡ parsed count (take count (allocation config).partitions)
  unfolding gpt_parse last_fields last_value
  parsed_final can_malloc enough =
      let s = sizes in
      let le = Placed-le allocation-Placed in
      let few = can.few in
      let field =
        header_field buf config (allocation config).start count sum with_array can.node
          (omega arith) in
      let kept =
        signature_kept buf config (allocation config).start count sum with_array can.node
          (omega arith) in
      rw
        (
          signature_field,
          same_bytes-holds (buf + 512) efi_part final kept,
          field 4 80 count refl (omega arith) (omega arith) (omega arith),
          field 8 72 2 refl (omega arith) (omega arith) (omega arith),
          enough,
          partitions_kept,
        )
        refl

  -- `GPTGenerate`, on a disk that is not too small for what it was asked, places partitions one
  -- after the other behind the array of entries, up to the last sector but two, as many of the first
  -- as fit, and returns how many. Where `malloc` succeeds `GPTParse` accepts the buffer and
  -- finds exactly these partitions: types, identifiers, names, places and sizes.
  pub gpt_parse-gpt_generate :
      (can_malloc : ℕ → Bool)
      → can_malloc (56 * made.ret) ≡ true
      → (gpt_parse can_malloc buf made.memory ≡ parsed made.ret (take made.ret made.partitions))
        × Placed
            (2 + ns)
            (config.volume - 2)
            config.partitions
            made.partitions
            made.ret
            (allocation config).start
  gpt_parse-gpt_generate can_malloc enough = (
    ap (λ g. gpt_parse can_malloc buf g.memory) generated
        ∙ parsed_final can_malloc (ap (λ g. can_malloc (56 * g.ret)) (sym generated) ∙ enough)
        ∙ ap (λ g. parsed g.ret (take g.ret g.partitions)) (sym generated),
    rw generated allocation-Placed,
  )
