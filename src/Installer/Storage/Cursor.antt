-- ===== src/Installer/Storage/Cursor.antt =====
-- An iterator into the vector of partitions: what stands before it, the entry, what stands after.
use jappeos_core.Prelude.{
  ◌+◌, String, ◌≡◌, sym, ap, ◌∙◌, inl, inr, Option, none, some, List, [], ◌∷◌, ◌++◌, arith,
  if◌then◌else◌, Option-cases, ◌==◌, nat_eq, string_eq, eq_iff,
}
use jappeos_core.Installer.Data.{Partition}
use jappeos_core.Installer.Storage.Sizes.{total, total-append}

pub record Cursor : Type 0 where
  pub before : List Partition
  pub here : Partition
  pub after : List Partition

abbrev advance : Partition → Option Cursor → Option Cursor
advance p none = none
advance p (some c) = some (record c { before = p ∷ c.before })

-- `std::ranges::find_if(partitions, [&](const auto& p) { return p.device == id; })`
unfoldable pub locate : String → List Partition → Option Cursor
locate id [] = none
locate id (p ∷ ps) =
    let further = advance p (locate id ps) in
    if p.device == id then some (record { before = []; here = p; after = ps }) else further

abbrev pub restore : Cursor → List Partition
restore c = c.before ++ c.here ∷ c.after

-- The iterator points into the vector, at an entry of the wanted name.
pub locate-restore :
    (id : String) (ps : List Partition) {c : Cursor}
    → locate id ps ≡ some c
    → (restore c ≡ ps) × (c.here.device ≡ id)
unfolding locate
locate-restore id [] h = cc
locate-restore id (p ∷ ps) {c} h = elim (Option-cases (locate id ps)) [
  | inl e ↦ ground (arith, e, eq_iff p.device id)
  | inr (d, e) ↦ ground (arith, e, eq_iff p.device id, locate-restore id ps e)
]

pub total-cursor :
    (before after : List Partition) (p : Partition)
    → total (before ++ p ∷ after) ≡ total before + p.size_mib + total after
total-cursor before after p = omega (arith, total-append before (p ∷ after))

pub locate-total :
    (id : String) (ps : List Partition) {c : Cursor}
    → locate id ps ≡ some c
    → total ps ≡ total c.before + c.here.size_mib + total c.after
locate-total id ps {c} h =
    sym (ap total (locate-restore id ps h).0) ∙ total-cursor c.before c.after c.here
