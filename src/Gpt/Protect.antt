-- ===== src/Gpt/Protect.antt =====
-- `createProtectGPT` of gpt/gpt.c: the protective master boot record in the first sector.
use linux_util.Common.{ℕ, ◌-◌, ◌*◌, List, [], ◌∷◌, u32, ltb, leb, if◌then◌else◌}
use linux_util.Memory.{Memory, memset}
use linux_util.Memory.Fields.{Field, field, store_fields}

-- The end in CHS form: the size in bytes, cut to 32 bits, and at most 0xFFFFFF.
abbrev pub end_chs : (block_size n_block : ℕ) → ℕ
end_chs block_size n_block =
    let end = u32 (block_size * n_block) in if ltb 0xFFFFFF end then 0xFFFFFF else end

abbrev pub size_in_lba : ℕ → ℕ
size_in_lba n_block = if leb 0xFFFFFFFF n_block then 0xFFFFFFFF else n_block - 1

unfoldable pub mbr_fields : (block_size n_block : ℕ) → List Field
mbr_fields block_size n_block =
    field 510 2 0xAA55
    ∷ field 440 4 0
    ∷ field 444 2 0
    ∷ field 446 1 0x80
    ∷ field 447 3 0x000200
    ∷ field 450 1 0xEE
    ∷ field 451 3 (end_chs block_size n_block)
    ∷ field 454 4 1
    ∷ field 458 4 (size_in_lba n_block)
    ∷ []

unfoldable pub create_protect_gpt : (mbr block_size n_block : ℕ) → Memory → Memory
create_protect_gpt mbr block_size n_block m =
    store_fields mbr (mbr_fields block_size n_block) (memset mbr 0 512 m)
