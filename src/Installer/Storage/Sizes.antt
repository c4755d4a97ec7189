-- ===== src/Installer/Storage/Sizes.antt =====
-- The sums of partition sizes that the custom mode compares, in `uint64_t`.
use jappeos_core.Prelude.{ℕ, ◌+◌, ◌%◌, ◌<◌, ◌≡◌, List, [], ◌∷◌, ◌++◌, arith, All, add64, u64_mod}
use jappeos_core.Installer.Data.{Partition}

-- `for (const auto& partition : partitions) partSizes += partition.sizeMiB;`
unfoldable pub sum_loop : ℕ → List Partition → ℕ
sum_loop acc [] = acc
sum_loop acc (p ∷ ps) = sum_loop (add64 acc p.size_mib) ps

-- The same sum without wrap-around.
abbrev pub total : List Partition → ℕ
total [] = 0
total (p ∷ ps) = p.size_mib + total ps

-- Every size is a `uint64_t`.
abbrev pub Fits : List Partition → Type 0
Fits = All (λ p. p.size_mib < u64_mod)

pub total-append : (ps qs : List Partition) → total (ps ++ qs) ≡ total ps + total qs
total-append [] qs = omega arith
total-append (p ∷ ps) qs = omega (arith, total-append ps qs)

pub sum_loop-eq-total :
    (acc : ℕ) (ps : List Partition) → acc < u64_mod → sum_loop acc ps ≡ (acc + total ps) % u64_mod
unfolding sum_loop
sum_loop-eq-total acc [] h = omega arith
sum_loop-eq-total acc (p ∷ ps) h =
    omega (arith, sum_loop-eq-total (add64 acc p.size_mib) ps (omega arith))
