-- ===== src/Installer/Storage/Mounts.antt =====
-- The loops of `ValidateInstallStorageData*` that look for the boot and the root partition.
use jappeos_core.Installer.Data.{Partition}
use jappeos_core.Prelude.{
  ℕ, ◌+◌, String, ◌≡◌, refl, inl, inr, true, Option, none, some, List, [], ◌∷◌, arith, Bool-cases,
  nat_eq, string_eq, count_if, All,
}
use jappeos_core.Installer.Storage.Validate.{is_mounted_at, count_mounted}

-- The count is the number of matches, and what is pointed to only changes at a match.
count_mounted-count :
    (m : String) (ps : List Partition) (n : ℕ) (found : Option Partition)
    → (count_mounted m ps n found).0 ≡ n + count_if (is_mounted_at m) ps
unfolding count_mounted
count_mounted-count m [] n found = omega arith
count_mounted-count m (p ∷ ps) n found = elim (Bool-cases (is_mounted_at m p)) [
  | inl e ↦ rw (e, count_mounted) (omega (arith, count_mounted-count m ps (n + 1) (some p)))
  | inr e ↦ rw (e, count_mounted) (omega (arith, count_mounted-count m ps n found))
]

-- Every entry that is mounted at `m` is `b`.
abbrev pub OnlyAt : String → Partition → List Partition → Type 0
OnlyAt m b = All (λ p. is_mounted_at m p ≡ true → p ≡ b)

count_mounted-none :
    (m : String) (ps : List Partition) (n : ℕ) (found : Option Partition)
    → count_if (is_mounted_at m) ps ≡ 0
    → ((count_mounted m ps n found).1 ≡ found) × ((b : Partition) → OnlyAt m b ps)
unfolding count_mounted
count_mounted-none m [] n found h = (refl, λ b. tt)
count_mounted-none m (p ∷ ps) n found h = elim (Bool-cases (is_mounted_at m p)) [
  | inl e ↦ absurd (let h' = rw e at h in omega arith)
  | inr e ↦
      let h' = rw e at h in
      let (l, r) = count_mounted-none m ps n found (omega arith) in
      (rw (e, count_mounted) l, λ b. (λ t. absurd (cc), r b))
]

-- With one match, the pointer stands at it.
count_mounted-one :
    (m : String) (ps : List Partition) (n : ℕ) (found : Option Partition)
    → count_if (is_mounted_at m) ps ≡ 1
    → (b : Partition) × ((count_mounted m ps n found).1 ≡ some b) × OnlyAt m b ps
unfolding count_mounted
count_mounted-one m [] n found h = absurd (omega arith)
count_mounted-one m (p ∷ ps) n found h = elim (Bool-cases (is_mounted_at m p)) [
  | inl e ↦
      let h' = rw e at h in
      let (l, r) = count_mounted-none m ps (n + 1) (some p) (omega arith) in
      (p, ground (arith, l), (λ t. refl, r p))
  | inr e ↦
      let h' = rw e at h in
      let (b, l, r) = count_mounted-one m ps n found (omega arith) in
      (b, ground (arith, l), (λ t. absurd (cc), r))
]

-- When the loop counts one match, it points to the only entry mounted there.
pub count_mounted_unique :
    (m : String) (ps : List Partition)
    → (count_mounted m ps 0 none).0 ≡ 1
    → (b : Partition) × ((count_mounted m ps 0 none).1 ≡ some b) × OnlyAt m b ps
count_mounted_unique m ps h =
    count_mounted-one m ps 0 none (omega (arith, count_mounted-count m ps 0 none))

pub count_mounted_one :
    (m : String) (ps : List Partition)
    → (count_mounted m ps 0 none).0 ≡ 1
    → count_if (is_mounted_at m) ps ≡ 1
count_mounted_one m ps h = omega (arith, count_mounted-count m ps 0 none)
