-- ===== src/Gpt/Headers.antt =====
-- The two headers that `GPTGenerate` of gpt/gpt.c writes, step by step.
use native.Mathlib.Nat.{mod-eq_of_lt}
use linux_util.Common.{
  ℕ, ◌+◌, ◌^◌, ◌≤◌, ◌<◌, ◌≡◌, refl, ◌∙◌, ◌⊎◌, inl, inr, none, some, arith, length, get_or,
}
use linux_util.Memory.{Memory, memset, memcpy, put_bytes, store_le, load_le}
use linux_util.Memory.Fields.{
  store_fields, all_within, all_from, last_value, load-store_fields, store_fields-below,
}
use linux_util.Memory.Frame.{
  SameOutside, SameOutside-trans, load-SameOutside, memset-SameOutside, memcpy-SameOutside,
  put_bytes-SameOutside, store_le-SameOutside, store_fields-SameOutside,
}
use linux_util.Crc32.{crc32}
use linux_util.Gpt.Config.{GptConfig, guid_bytes}
use linux_util.Gpt.Entries.Written.{put_bytes-inside}
use linux_util.Gpt.Generate.{
  efi_part, first_fields, last_fields, backup_fields, lba1, last, write_headers, write_sums,
}

module _ (buf : ℕ) (config : GptConfig) (start n crc : ℕ) (m : Memory)
    (node : length config.disk_id.node ≡ 6) (big : 5 ≤ config.volume) where
  abbrev pub l1 : ℕ
  l1 = lba1 buf config

  abbrev pub l2 : ℕ
  l2 = last buf config

  abbrev pub cleared : Memory
  cleared = memset l2 0 92 (memset l1 0 92 m)

  abbrev pub named : Memory
  named = store_fields l1 (first_fields config.volume start) (put_bytes l1 efi_part cleared)

  abbrev pub primary : Memory
  primary =
      store_fields l1 (last_fields n crc) (put_bytes (l1 + 56) (guid_bytes config.disk_id) named)

  abbrev pub backup : Memory
  backup = store_fields l2 (backup_fields config.volume) (memcpy l2 l1 92 primary)

  abbrev pub summed : Memory
  summed = store_le 4 (l1 + 16) (crc32 l1 (load_le 4 (l1 + 12) backup) backup) backup

  abbrev pub done : Memory
  done = write_sums buf config (write_headers buf config start n crc m)

  pub primary-frame : SameOutside l1 (l1 + 92) cleared primary
  unfolding first_fields last_fields all_within
  primary-frame =
      SameOutside-trans _ _
        (SameOutside-trans _ _
          (put_bytes-SameOutside l1 (l1 + 92) l1 efi_part _ (omega arith) (omega arith))
          (store_fields-SameOutside l1 (l1 + 92) l1 92 _ _ refl (omega arith) (omega arith)))
        (SameOutside-trans _ _
          (put_bytes-SameOutside l1 (l1 + 92) (l1 + 56) (guid_bytes config.disk_id) _ (omega arith)
            (omega arith))
          (store_fields-SameOutside l1 (l1 + 92) l1 92 _ _ refl (omega arith) (omega arith)))

  pub backup-frame : SameOutside l2 (l2 + 92) primary backup
  unfolding backup_fields all_within
  backup-frame =
      SameOutside-trans _ _ (memcpy-SameOutside l2 (l2 + 92) l2 l1 92 _ (omega arith) (omega arith))
        (store_fields-SameOutside l2 (l2 + 92) l2 92 _ _ refl (omega arith) (omega arith))

  pub summed-frame : SameOutside (l1 + 16) (l1 + 20) backup summed
  summed-frame =
      store_le-SameOutside (l1 + 16) (l1 + 20) 4 (l1 + 16) _ _ (omega arith) (omega arith)

  pub done-frame : SameOutside l2 (l2 + 92) summed done
  unfolding write_sums write_headers
  done-frame = store_le-SameOutside l2 (l2 + 92) 4 (l2 + 16) _ _ (omega arith) (omega arith)

  pub headers_keep : (x : ℕ) → (x < l1) ⊎ (l1 + 92 ≤ x) → (x < l2) ⊎ (l2 + 92 ≤ x) → done x ≡ m x
  headers_keep x p q =
      done-frame.same x q
      ∙ summed-frame.same x (omega arith)
      ∙ backup-frame.same x q
      ∙ primary-frame.same x p
      ∙ (memset-SameOutside l2 (l2 + 92) l2 0 92 _ (omega arith) (omega arith)).same x q
      ∙ (memset-SameOutside l1 (l1 + 92) l1 0 92 m (omega arith) (omega arith)).same x p

  pub header_field :
      (w o v : ℕ)
      → last_value o w (last_fields n crc) none ≡ some v
      → 20 ≤ o
      → o + w ≤ 92
      → v < 256 ^ w
      → load_le w (l1 + o) done ≡ v
  header_field w o v e lo hi small =
      load-SameOutside w (l1 + o) done-frame (inl (omega arith))
      ∙ load-SameOutside w (l1 + o) summed-frame (inr (omega arith))
      ∙ load-SameOutside w (l1 + o) backup-frame (inl (omega arith))
      ∙ load-store_fields o w l1 v (last_fields n crc) _ none (λ u. cc) e
      ∙ mod-eq_of_lt small

  pub signature_kept : (i : ℕ) → i < 8 → done (l1 + i) ≡ get_or efi_part i 0
  unfolding first_fields last_fields all_from
  signature_kept i h =
      done-frame.same (l1 + i) (inl (omega arith))
      ∙ summed-frame.same (l1 + i) (inl (omega arith))
      ∙ backup-frame.same (l1 + i) (inl (omega arith))
      ∙ store_fields-below l1 8 i (last_fields n crc) _ refl h
      ∙ (put_bytes-SameOutside (l1 + 56) (l1 + 72) (l1 + 56) (guid_bytes config.disk_id) named
            (omega arith) (omega arith)).same
          (l1 + i) (inl (omega arith))
      ∙ store_fields-below l1 8 i (first_fields config.volume start) _ refl h
      ∙ put_bytes-inside l1 efi_part cleared i h
