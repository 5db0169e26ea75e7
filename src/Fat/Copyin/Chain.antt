-- ===== src/Fat/Copyin/Chain.antt =====
-- The chain that `FAT32Copyin` writes into both allocation tables.
use linux_util.Common.{
  ℕ, zero, suc, ◌+◌, ◌*◌, ◌≡◌, ◌≤◌, ◌<◌, sym, ◌∙◌, ap, inl, Option, some, ◌>>=◌, arith, u32, ◌⊎◌,
}
use native.Mathlib.Decide.{dec_lt}
use linux_util.Memory.{Memory}
use linux_util.Memory.Frame.{SameOutside, SameOutside-trans}
use linux_util.Fat.Create.{FatConfig, fat_size_in_sector}
use linux_util.Fat.Create.Geometry.{IsValidConfig, n_sector-lt}
use linux_util.Fat.Create.Volume.{table_entry}
use linux_util.Fat.Super.Mounted.{mounted}
use linux_util.Fat.Super.Entries.{
  max_cluster, set_entry, max_cluster_fits, write_entry-set_entry, set_entry_self, set_entry_other,
  set_entry-frame,
}
use linux_util.Fat.Copyin.{link_clusters}

-- In both tables the clusters `first .. last` are linked one to the next, and `last` ends a file.
pub record IsChain (buf : ℕ) (cfg : FatConfig) (first last : ℕ) (m : Memory) : Type 0 where
  pub linked : (t c : ℕ) → t < 2 → first ≤ c → c < last → table_entry buf cfg t c m ≡ c + 1
  pub ends : (t : ℕ) → t < 2 → table_entry buf cfg t last m ≡ 0xFFFFFFFF

-- The entries of all other clusters are the same in `m` and `m'`.
pub record SameEntries (buf : ℕ) (cfg : FatConfig) (first last : ℕ) (m m' : Memory) : Type 0 where
  pub same :
      (t c : ℕ)
      → t < 2
      → c < max_cluster cfg
      → (c < first) ⊎ (last < c)
      → table_entry buf cfg t c m' ≡ table_entry buf cfg t c m

-- What linking leaves.
pub record IsLinked (buf : ℕ) (cfg : FatConfig) (first last : ℕ) (m m' : Memory) : Type 0 where
  pub chain : IsChain buf cfg first last m'
  pub others : SameEntries buf cfg first last m m'
  pub frame :
      SameOutside
        (buf + cfg.bytes_per_sector * 8)
        (buf + cfg.bytes_per_sector * (8 + 2 * fat_size_in_sector cfg))
        m
        m'

module _ (buf : ℕ) {cfg : FatConfig} (v : IsValidConfig cfg) (k : ℕ) where
  -- The loop of `FAT32Copyin` over the clusters of a file links them one to the next in both
  -- tables, marks the last as the end, and gives the cluster after it. The entries of all other
  -- clusters stay, and so does everything outside the tables.
  pub link_clusters-IsLinked :
      (left first last : ℕ) (m : Memory)
      → 1 ≤ first
      → first + left ≡ last
      → last < max_cluster cfg
      → (m' : Memory) × (link_clusters left (mounted buf cfg k) first m ≡ some (last + 1, m'))
        × IsLinked buf cfg first last m m'
  unfolding link_clusters
  link_clusters-IsLinked zero first last m pos sum lt =
      let m1 = set_entry buf cfg first 0xFFFFFFFF m in
      let e : u32 (first + 1) ≡ last + 1 = omega (arith, max_cluster_fits buf v, n_sector-lt v) in
      let here : first ≡ last = omega arith in
      (
        m1,
        rw (write_entry-set_entry buf v k first 0xFFFFFFFF m pos (omega arith))
            (ap (λ n. some (n, m1)) e),
        record {
          chain = record {
            linked = λ t c ht lo hi. absurd (omega arith);
            ends = λ t ht. rw (← here) (set_entry_self buf v t first 0xFFFFFFFF m ht (omega arith));
          };
          others = record {
            same = λ t c ht hc out.
                set_entry_other buf v t first c 0xFFFFFFFF m ht (omega arith) hc (omega arith);
          };
          frame = set_entry-frame buf v first 0xFFFFFFFF m (omega arith);
        },
      )
  link_clusters-IsLinked (suc left) first last m pos sum lt =
      let bound = max_cluster_fits buf v in
      let small = n_sector-lt v in
      let x = u32 (1 + first) in
      let e : x ≡ first + 1 = omega arith in
      let e' : u32 (first + 1) ≡ first + 1 = omega arith in
      let m1 = set_entry buf cfg first x m in
      let (m', eq, rest) =
        link_clusters-IsLinked left (first + 1) last m1 (omega arith) (omega arith) lt in
      (
        m',
        ap
              (λ (o : Option Memory).
                o >>= λ m''. link_clusters left (mounted buf cfg k) (u32 (first + 1)) m'')
              (write_entry-set_entry buf v k first x m pos (omega arith))
            ∙ ap (λ n. link_clusters left (mounted buf cfg k) n m1) e'
            ∙ eq,
        record {
          chain = record {
            linked = λ t c ht lo hi. elim (dec_lt first c) [
              | yes later ↦ rest.chain.linked t c ht (omega arith) hi
              | no now ↦
                  let here : c ≡ first = omega arith in
                  let own : u32 x ≡ first + 1 = omega arith in
                  ap (λ d. table_entry buf cfg t d m') here
                  ∙ rest.others.same t first ht (omega arith) (inl (omega arith))
                  ∙ set_entry_self buf v t first x m ht (omega arith)
                  ∙ own
                  ∙ ap (λ (d : ℕ). d + 1) (sym here)
            ];
            ends = rest.chain.ends;
          };
          others = record {
            same = λ t c ht hc out.
                rest.others.same t c ht hc (omega arith)
                ∙ set_entry_other buf v t first c x m ht (omega arith) hc (omega arith);
          };
          frame = SameOutside-trans _ _ (set_entry-frame buf v first x m (omega arith)) rest.frame;
        },
      )
