-- ===== src/Installer/Storage/Merge.antt =====
-- The lambda `removeAdjacentSpaces` of `ValidateInstallStorageDataCustom`.
use jappeos_core.Prelude.{
  inr, inl, ◌<◌, Bool-cases, false, ◌+◌, ◌≡◌, refl, ◌&&◌, List, [], ◌∷◌, arith, if◌then◌else◌,
  add64, u64_mod,
}
use jappeos_core.Installer.Data.{Partition, is_free_space}
use jappeos_core.Installer.Storage.Sizes.{total}

-- The loop with `partitions[i - 1]` in hand: either the next entry is erased and its size added, or
-- the index moves on.
pub merge_from : Partition → List Partition → List Partition
merge_from p [] = p ∷ []
merge_from p (q ∷ ps) =
    let merged = merge_from (record p { size_mib = add64 p.size_mib q.size_mib }) ps in
    let kept = p ∷ merge_from q ps in if is_free_space p && is_free_space q then merged else kept

unfoldable pub remove_adjacent_spaces : List Partition → List Partition
unfolding merge_from
remove_adjacent_spaces [] = []
remove_adjacent_spaces (p ∷ ps) = merge_from p ps

merge_from-total :
    (p : Partition) (ps : List Partition)
    → p.size_mib + total ps < u64_mod
    → total (merge_from p ps) ≡ p.size_mib + total ps
unfolding merge_from
merge_from-total p [] h = omega arith
merge_from-total p (q ∷ ps) h = ground (
  arith,
  merge_from-total (record p { size_mib = add64 p.size_mib q.size_mib }) ps,
  merge_from-total q ps,
)

-- Merging free space keeps the sum of the sizes.
pub remove_adjacent_spaces-total :
    (ps : List Partition) → total ps < u64_mod → total (remove_adjacent_spaces ps) ≡ total ps
unfolding remove_adjacent_spaces
remove_adjacent_spaces-total [] h = refl
remove_adjacent_spaces-total (p ∷ ps) h = merge_from-total p ps h

-- No two neighbours are both free space.
abbrev pub IsMerged : List Partition → Type 0
IsMerged [] = Unit
IsMerged (p ∷ []) = Unit
IsMerged (p ∷ q ∷ ps) = ((is_free_space p && is_free_space q) ≡ false) × IsMerged (q ∷ ps)

-- The entries that are no free space, in order.
abbrev pub occupied : List Partition → List Partition
occupied [] = []
occupied (p ∷ ps) = if is_free_space p then occupied ps else p ∷ occupied ps

abbrev SameKind : Partition → List Partition → Type 0
SameKind p [] = ⊥
SameKind p (q ∷ ps) = is_free_space q ≡ is_free_space p

-- What the loop leaves: the head is as free as the entry in hand was, and no neighbours are free.
merge_from-IsMerged :
    (p : Partition) (ps : List Partition)
    → SameKind p (merge_from p ps) × IsMerged (merge_from p ps)
unfolding merge_from
merge_from-IsMerged p [] = (refl, tt)
merge_from-IsMerged p (q ∷ ps) = elim (Bool-cases (is_free_space p && is_free_space q)) [
  | inl e ↦ rw e (merge_from-IsMerged (record p { size_mib = add64 p.size_mib q.size_mib }) ps)
  | inr e ↦ rw e (refl, extend (merge_from q ps) (merge_from-IsMerged q ps) e)
]
  where
    extend :
        (rs : List Partition)
        → SameKind q rs × IsMerged rs
        → (is_free_space p && is_free_space q) ≡ false
        → IsMerged (p ∷ rs)
    extend [] h e = tt
    extend (r ∷ rs) (k, m) e = (rw k e, m)

merge_from-occupied :
    (p : Partition) (ps : List Partition) → occupied (merge_from p ps) ≡ occupied (p ∷ ps)
unfolding merge_from
merge_from-occupied p [] = refl
merge_from-occupied p (q ∷ ps) = ground (
  arith,
  merge_from-occupied (record p { size_mib = add64 p.size_mib q.size_mib }) ps,
  merge_from-occupied q ps,
)

-- Merging leaves no two free neighbours, and keeps the real partitions and their order.
pub remove_adjacent_spaces_lem :
    (ps : List Partition)
    → IsMerged (remove_adjacent_spaces ps) × (occupied (remove_adjacent_spaces ps) ≡ occupied ps)
unfolding remove_adjacent_spaces
remove_adjacent_spaces_lem [] = (tt, refl)
remove_adjacent_spaces_lem (p ∷ ps) = ((merge_from-IsMerged p ps).1, merge_from-occupied p ps)
