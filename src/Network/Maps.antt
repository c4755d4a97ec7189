-- ===== src/Network/Maps.antt =====
-- `std::unordered_map` with texts as keys, as the list of its entries.
use jappeos_core.Prelude.{
  ◌≡◌, refl, inl, inr, Bool, Option, none, some, List, [], ◌∷◌, map, if◌then◌else◌, Bool-cases,
  nat_eq, list_beq, any, Bytes,
}

abbrev pub Map : Type 0 → Type 0
Map A = List (Bytes × A)

unfoldable pub erase_key : Bytes → List Bytes → List Bytes
erase_key k [] = []
erase_key k (j ∷ ks) = let rest = erase_key k ks in if list_beq k j then rest else j ∷ rest

module _ {A : Type 0} where
  abbrev pub keys : Map A → List Bytes
  keys = map (λ e. e.0)

  unfoldable pub find : Bytes → Map A → Option A
  find k [] = none
  find k ((j, a) ∷ m) = if list_beq k j then some a else find k m

  unfoldable pub contains : Bytes → Map A → Bool
  contains k m = any (λ e. list_beq k e.0) m

  unfoldable pub erase : Bytes → Map A → Map A
  erase k [] = []
  erase k ((j, a) ∷ m) = let rest = erase k m in if list_beq k j then rest else (j, a) ∷ rest

  -- A value is changed where it stands.
  unfoldable pub update : Bytes → (A → A) → Map A → Map A
  update k f [] = []
  update k f ((j, a) ∷ m) =
      let rest = update k f m in if list_beq k j then (j, f a) ∷ m else (j, a) ∷ rest

  -- `map[key] = value`
  unfoldable pub assign : Bytes → A → Map A → Map A
  unfolding contains update
  assign k a m = if contains k m then update k (λ b. a) m else (k, a) ∷ m

  pub keys-erase : (k : Bytes) (m : Map A) → keys (erase k m) ≡ erase_key k (keys m)
  unfolding erase erase_key
  keys-erase k [] = refl
  keys-erase k ((j, a) ∷ m) = elim (Bool-cases (list_beq k j)) [
    | inl e ↦ rw e (keys-erase k m)
    | inr e ↦ rw (e, keys-erase k m) refl
  ]

  pub keys-update : (k : Bytes) (f : A → A) (m : Map A) → keys (update k f m) ≡ keys m
  unfolding update
  keys-update k f [] = refl
  keys-update k f ((j, a) ∷ m) = elim (Bool-cases (list_beq k j)) [
    | inl e ↦ rw e refl
    | inr e ↦ rw (e, keys-update k f m) refl
  ]
