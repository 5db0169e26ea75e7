-- ===== src/Installer/Requests.antt =====
-- The two partitions that gpt/installer.c asks for.
use linux_util.Common.{
  ℕ, zero, suc, ◌+◌, ◌-◌, ◌^◌, ◌≡◌, ◌≤◌, ◌<◌, refl, arith, false, List, [], ◌∷◌, ltb, u64,
}
use linux_util.Gpt.Config.{PartitionConfig}
use linux_util.Gpt.Allocate.{allocate, with_start}
use linux_util.Gpt.Entries.Fields.{IsGuid, IsName}
use linux_util.Installer.{efi_system_partition, my_disk_id, boot_name, filesystem_name}

pub efi_system_partition-IsGuid : IsGuid efi_system_partition
efi_system_partition-IsGuid = record {
  time_low = omega arith;
  time_mid = omega arith;
  time_high = omega arith;
  clock_seq_high = omega arith;
  clock_seq_low = omega arith;
  node = refl;
}

pub my_disk_id-IsGuid : IsGuid my_disk_id
my_disk_id-IsGuid = record {
  time_low = omega arith;
  time_mid = omega arith;
  time_high = omega arith;
  clock_seq_high = omega arith;
  clock_seq_low = omega arith;
  node = refl;
}

abbrev pub AllChars : List ℕ → Type 0
AllChars [] = Unit
AllChars (c ∷ s) = ((0 < c) × (c < 256)) × AllChars s

pub IsName-chars : (s : List ℕ) → AllChars s → IsName s
IsName-chars [] h i lt = absurd (omega arith)
IsName-chars (c ∷ s) h zero lt = h.0
IsName-chars (c ∷ s) h (suc i) lt = IsName-chars s h.1 i (omega arith)

pub boot_name-chars : AllChars boot_name
boot_name-chars = (
  (omega arith, omega arith),
  (
    (omega arith, omega arith),
    (
      (omega arith, omega arith),
      (
        (omega arith, omega arith),
        (
          (omega arith, omega arith),
          (
            (omega arith, omega arith),
            (
              (omega arith, omega arith),
              (
                (omega arith, omega arith),
                (
                  (omega arith, omega arith),
                  (
                    (omega arith, omega arith),
                    (
                      (omega arith, omega arith),
                      (
                        (omega arith, omega arith),
                        ((omega arith, omega arith), ((omega arith, omega arith), tt)),
                      ),
                    ),
                  ),
                ),
              ),
            ),
          ),
        ),
      ),
    ),
  ),
)

pub filesystem_name-chars : AllChars filesystem_name
filesystem_name-chars = (
  (omega arith, omega arith),
  (
    (omega arith, omega arith),
    (
      (omega arith, omega arith),
      (
        (omega arith, omega arith),
        (
          (omega arith, omega arith),
          (
            (omega arith, omega arith),
            (
              (omega arith, omega arith),
              (
                (omega arith, omega arith),
                ((omega arith, omega arith), ((omega arith, omega arith), tt)),
              ),
            ),
          ),
        ),
      ),
    ),
  ),
)

-- Two partitions that fit.
pub allocate-two :
    (r s : ℕ) (p q : PartitionConfig)
    → p.volume ≤ r
    → q.volume ≤ r - p.volume
    → s + r < 2 ^ 64
    → allocate r s (p ∷ q ∷ []) ≡ record {
      ret = 2;
      start = s + p.volume + q.volume;
      partitions = with_start s p ∷ with_start (s + p.volume) q ∷ [];
    }
unfolding allocate
allocate-two r s p q hp hq small =
    let c1 : ltb r p.volume ≡ false = ground (arith, hp) in
    let c2 : ltb (r - p.volume) q.volume ≡ false = ground (arith, hq) in
    let w1 : u64 (s + p.volume) ≡ s + p.volume = omega (arith, hp, small) in
    let w2 : u64 (s + p.volume + q.volume) ≡ s + p.volume + q.volume =
      omega (arith, hp, hq, small) in
    rw (c1, c2, w1, w2) refl
