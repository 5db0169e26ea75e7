-- ===== src/Gpt/Sums.antt =====
-- The sums in the headers that `GPTGenerate` of gpt/gpt.c writes.
use linux_util.Common.{
  ℕ, ◌+◌, ◌-◌, ◌*◌, ◌≤◌, ◌≡◌, refl, sym, ◌∙◌, ◌⊎◌, inl, inr, none, true, arith, length,
}
use linux_util.Memory.{Memory, load_le}
use linux_util.Memory.Fields.{none_at, last_value, load-store_fields, load-store_fields_none}
use linux_util.Memory.Laws.{
  load-memset_apart, load-memset_zero, load-put_bytes_apart, load-memcpy_inside,
}
use linux_util.Memory.Frame.{load-SameOutside}
use linux_util.Crc32.{crc32}
use linux_util.Crc32.Extent.{crc32-ext, crc32-lt}
use linux_util.Gpt.Config.{GptConfig, guid_bytes, get_sector}
use linux_util.Gpt.Generate.{
  first_fields, last_fields, backup_fields, efi_part, lba1, last, entry_array, allocation,
  write_headers, write_sums, gpt_generate,
}
use linux_util.Gpt.Headers.{
  primary, backup, summed, done, backup-frame, summed-frame, done-frame, headers_keep, header_field,
}
use linux_util.Gpt.Roundtrip.{
  CanGenerate, sizes, count-le, count-lt, count, with_array, sum, final, generated,
}
use linux_util.Gpt.HeaderSum.{HasSum, HasSum-stored, HasSum-apart}

module _ (buf : ℕ) (config : GptConfig) (start n crc : ℕ) (m : Memory)
    (node : length config.disk_id.node ≡ 6) (big : 5 ≤ config.volume) where
  abbrev a1 : ℕ
  a1 = lba1 buf config

  abbrev a2 : ℕ
  a2 = last buf config

  abbrev first : Memory
  first = primary buf config start n crc m node big

  abbrev second : Memory
  second = backup buf config start n crc m node big

  abbrev third : Memory
  third = summed buf config start n crc m node big

  abbrev fourth : Memory
  fourth = done buf config start n crc m node big

  -- The field of the sum is still clear, and the size is that of the struct.
  primary_clear : load_le 4 (a1 + 16) first ≡ 0
  unfolding none_at first_fields last_fields
  primary_clear =
      load-store_fields_none 4 16 a1 (last_fields n crc) _ refl
      ∙ load-put_bytes_apart 4 (a1 + 16) (a1 + 56) (guid_bytes config.disk_id) _ (inl (omega arith))
      ∙ load-store_fields_none 4 16 a1 (first_fields config.volume start) _ refl
      ∙ load-put_bytes_apart 4 (a1 + 16) a1 efi_part _ (inr (omega arith))
      ∙ load-memset_apart 4 (a1 + 16) a2 0 92 _ (inl (omega arith))
      ∙ load-memset_zero 4 (a1 + 16) a1 92 m (omega arith) (omega arith)

  primary_size : load_le 4 (a1 + 12) first ≡ 92
  unfolding none_at first_fields last_fields last_value
  primary_size =
      load-store_fields_none 4 12 a1 (last_fields n crc) _ refl
      ∙ load-put_bytes_apart 4 (a1 + 12) (a1 + 56) (guid_bytes config.disk_id) _ (inl (omega arith))
      ∙ load-store_fields 12 4 a1 92 (first_fields config.volume start) _ none (λ u. cc) refl

  -- The backup repeats both.
  copied :
      (o : ℕ)
      → none_at o 4 (backup_fields config.volume) ≡ true
      → o + 4 ≤ 92
      → load_le 4 (a2 + o) second ≡ load_le 4 (a1 + o) first
  copied o free fits =
      load-store_fields_none 4 o a2 (backup_fields config.volume) _ free
      ∙ load-memcpy_inside 4 o a2 a1 92 first fits

  kept : (o : ℕ) → o + 4 ≤ 92 → load_le 4 (a1 + o) second ≡ load_le 4 (a1 + o) first
  kept o fits =
      load-SameOutside 4 (a1 + o) (backup-frame buf config start n crc m node big)
        (inl (omega arith))

  primary_sum : HasSum a1 third
  primary_sum =
      let size = kept 12 (omega arith) ∙ primary_size in
      rw size (HasSum-stored a1 second (kept 16 (omega arith) ∙ primary_clear) size)

  third_kept : (a : ℕ) → (a + 4 ≤ a1 + 16) ⊎ (a1 + 20 ≤ a) → load_le 4 a third ≡ load_le 4 a second
  third_kept a out = load-SameOutside 4 a (summed-frame buf config start n crc m node big) out

  size_there : load_le 4 (a1 + 12) third ≡ 92
  size_there = third_kept (a1 + 12) (inl (omega arith)) ∙ kept 12 (omega arith) ∙ primary_size

  pub backup_sum : HasSum a2 fourth
  unfolding none_at backup_fields write_sums write_headers
  backup_sum = rw size_there (
      HasSum-stored a2 third
        (third_kept (a2 + 16) (inr (omega arith)) ∙ copied 16 refl (omega arith) ∙ primary_clear)
        (third_kept (a2 + 12) (inr (omega arith)) ∙ copied 12 refl (omega arith) ∙ primary_size))

  pub primary_sum_kept : HasSum a1 fourth
  primary_sum_kept =
      HasSum-apart a1 (done-frame buf config start n crc m node big) (inl (omega arith)) size_there
        primary_sum

module _ (buf : ℕ) {config : GptConfig} (can : CanGenerate config) (m : Memory) where
  abbrev HasSums : Memory → Type 0
  HasSums m =
      HasSum (get_sector buf 1) m
      × HasSum (get_sector buf (config.volume - 1)) m
      × (load_le 4 (get_sector buf 1 + 88) m
          ≡ crc32 (get_sector buf (load_le 8 (get_sector buf 1 + 72) m))
              (128 * load_le 4 (get_sector buf 1 + 80) m) m)

  final-HasSums : HasSums (final buf can m)
  unfolding last_fields last_value
  final-HasSums =
      let s = sizes buf can m in
      let few = can.few in
      let array = with_array buf can m in
      let n = count buf can m in
      let c = sum buf can m in
      let start = (allocation config).start in
      let le = count-le buf can m in
      let lt = count-lt buf can m in
      let field = header_field buf config start n c array can.node (omega arith) in
      let small = crc32-lt (entry_array buf config) (128 * n) array in
      let same = crc32-ext (buf + 1024) (128 * n) array (final buf can m) (λ i p. sym (
        headers_keep buf config start n c array can.node (omega arith) (buf + 1024 + i)
          (inr (omega arith)) (inl (omega arith)))) in
      (
        primary_sum_kept buf config start n c array can.node (omega arith),
        backup_sum buf config start n c array can.node (omega arith),
        field 4 88 c refl (omega arith) (omega arith) small
            ∙ same
            ∙ sym (
                rw
                  (
                    field 4 80 n refl (omega arith) (omega arith) (omega arith),
                    field 8 72 2 refl (omega arith) (omega arith) (omega arith),
                  )
                  refl),
      )

  -- In what `GPTGenerate` leaves on a disk that is large enough for the table, the sum of each of the
  -- two headers is the one that a reader computes: over as many bytes as the header says, with the
  -- field of the sum cleared. The sum of the entries is that of as many entries of 128 bytes as the
  -- header counts, from the sector on that it names.
  pub gpt_generate-HasSum :
      HasSum (get_sector buf 1) (gpt_generate buf config m).memory
      × HasSum (get_sector buf (config.volume - 1)) (gpt_generate buf config m).memory
      × (load_le 4 (get_sector buf 1 + 88) (gpt_generate buf config m).memory
          ≡ crc32
              (get_sector buf
                (load_le 8 (get_sector buf 1 + 72) (gpt_generate buf config m).memory))
              (128 * load_le 4 (get_sector buf 1 + 80) (gpt_generate buf config m).memory)
              (gpt_generate buf config m).memory)
  gpt_generate-HasSum = rw (generated buf can m) (final-HasSums)
