-- ===== src/Fat/Copyin/Name.antt =====
-- The name of a file and its parts in a directory entry.
use linux_util.Common.{
  ℕ, ◌≡◌, ◌≢◌, refl, ap, List, [], ◌∷◌, ◌++◌, inl, inr, Bool-cases, ◌==◌, arith,
}
use linux_util.Fat.Copyin.{prefix, suffix}

abbrev pub HasNoDot : List ℕ → Type 0
HasNoDot [] = Unit
HasNoDot (c ∷ s) = (c ≢ 46) × HasNoDot s

abbrev pub IsExtension : List ℕ → Type 0
IsExtension [] = Unit
IsExtension (c ∷ s) = c ≡ 46

-- A name is what stands before its first dot, and what starts there.
pub record IsSplit (name stem extension : List ℕ) : Type 0 where
  pub joined : name ≡ stem ++ extension
  pub plain : HasNoDot stem
  pub dotted : IsExtension extension

pub prefix-IsSplit : (name : List ℕ) → IsSplit name (prefix name) (suffix name)
unfolding prefix suffix
prefix-IsSplit [] = record { joined = refl; plain = tt; dotted = tt }
prefix-IsSplit (c ∷ cs) =
    let rest = prefix-IsSplit cs in
    elim (Bool-cases (c == 46)) [
      | inl dot ↦ rw dot (record { joined = refl; plain = tt; dotted = ground (arith, dot) })
      | inr other ↦ rw other (record {
        joined = ap (λ t. c ∷ t) rest.joined;
        plain = (ground (arith, other), rest.plain);
        dotted = rest.dotted;
      })
    ]
