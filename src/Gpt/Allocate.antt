-- ===== src/Gpt/Allocate.antt =====
-- The loop of `GPTGenerate` that gives each partition its sectors.
use linux_util.Common.{
  ℕ, suc, ◌+◌, ◌-◌, ◌≤◌, ◌<◌, ◌^◌, ◌≡◌, arith, List, [], ◌∷◌, u64, ltb, if◌then◌else◌, Bool-cases,
  inl, inr,
}
use linux_util.Gpt.Config.{PartitionConfig}

-- `ret`, `start` and the array when the loop ends.
pub record Allocation : Type 0 where
  pub ret : ℕ
  pub start : ℕ
  pub partitions : List PartitionConfig

abbrev pub with_start : ℕ → PartitionConfig → PartitionConfig
with_start s cp = record {
  part_type = cp.part_type;
  part_id = cp.part_id;
  name = cp.name;
  volume = cp.volume;
  start_lba = s;
}

unfoldable pub allocate : (remains start : ℕ) → List PartitionConfig → Allocation
allocate remains start [] = record { ret = 0; start = start; partitions = [] }
allocate remains start (cp ∷ cps) =
    let rest = allocate (remains - cp.volume) (u64 (start + cp.volume)) cps in
    if ltb remains cp.volume
    then record { ret = 0; start = start; partitions = cp ∷ cps }
    else record {
      ret = suc rest.ret;
      start = rest.start;
      partitions = with_start start cp ∷ rest.partitions;
    }

-- `Placed from to asked given n`: the first `n` partitions of `given` follow each other without a
-- gap or an overlap from sector `from` on, no further than `to`, and differ from those of `asked`
-- in `start_lba` only; the others stay as they were asked for, and the first of them would not fit.
pub data Placed : (from to : ℕ) → List PartitionConfig → List PartitionConfig → ℕ → ℕ → Type 0 where
  all_placed : (from to : ℕ) → from ≤ to → Placed from to [] [] 0 from
  too_large :
      (from to : ℕ) (cp : PartitionConfig) (cps : List PartitionConfig)
      → from ≤ to
      → to < from + cp.volume
      → Placed from to (cp ∷ cps) (cp ∷ cps) 0 from
  placed :
      (from to : ℕ) (cp : PartitionConfig) (asked given : List PartitionConfig) (n next : ℕ)
      → from + cp.volume ≤ to
      → Placed (from + cp.volume) to asked given n next
      → Placed from to (cp ∷ asked) (with_start from cp ∷ given) (suc n) next

pub allocate-Placed :
    (remains start to : ℕ) (cps : List PartitionConfig)
    → start + remains ≡ to
    → to < 2 ^ 64
    → Placed start to cps
        (allocate remains start cps).partitions
        (allocate remains start cps).ret
        (allocate remains start cps).start
unfolding allocate
allocate-Placed remains start to [] e h = all_placed start to (omega arith)
allocate-Placed remains start to (cp ∷ cps) e h = elim (Bool-cases (ltb remains cp.volume)) [
  | inl large ↦ rw large (too_large start to cp cps (omega arith) (ground (arith, large)))
  | inr fits ↦
      let bound : cp.volume ≤ remains = ground (arith, fits) in
      let next : u64 (start + cp.volume) ≡ start + cp.volume = omega arith in
      rw (fits, next)
        (placed start to cp cps _ _ _ (omega arith)
          (allocate-Placed (remains - cp.volume) (start + cp.volume) to cps (omega arith) h))
]
