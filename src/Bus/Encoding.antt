-- ===== src/Bus/Encoding.antt =====
-- `EncodeForObjectPath`
-- (src/services/network_manager/network_manager_service.h): interface names, UUIDs and object paths
-- of NetworkManager as elements of object paths.
use jappeos_core.Prelude.{
  ℕ, ◌+◌, ◌/◌, ◌%◌, ◌<◌, ◌≡◌, ◌≢◌, refl, sym, inl, inr, true, false, List, [], ◌∷◌, ◌++◌,
  if◌then◌else◌, Bool-cases, ◌==◌, nat_eq, ltb, every, All, Bytes, arith,
}
use jappeos_core.Bus.ObjectPath.{is_name_byte}

-- A digit of `%X`.
abbrev pub hex_digit : ℕ → ℕ
hex_digit d = if ltb d 10 then 48 + d else 55 + d

abbrev pub encode_byte : ℕ → Bytes
encode_byte c =
    if is_name_byte c then c ∷ [] else b'_' ∷ hex_digit (c / 16) ∷ hex_digit (c % 16) ∷ []

unfoldable pub encode_for_object_path : Bytes → Bytes
encode_for_object_path [] = []
encode_for_object_path (c ∷ s) = encode_byte c ++ encode_for_object_path s

abbrev pub IsBytes : Bytes → Type 0
IsBytes = All (λ c. c < 256)

hex_digit-name : (d : ℕ) → d < 16 → is_name_byte (hex_digit d) ≡ true
hex_digit-name d h = ground (arith, h)

hex_digit-inj : (d e : ℕ) → d < 16 → e < 16 → hex_digit d ≡ hex_digit e → d ≡ e
hex_digit-inj d e h k same = ground (arith, h, k, same)

name_byte : (c : ℕ) → is_name_byte c ≡ true → encode_byte c ≡ c ∷ []
name_byte c h = rw h refl

escaped :
    (c : ℕ)
    → is_name_byte c ≡ false
    → encode_byte c ≡ b'_' ∷ hex_digit (c / 16) ∷ hex_digit (c % 16) ∷ []
escaped c h = rw h refl

encode_byte-every :
    (c : ℕ) (s : Bytes)
    → c < 256
    → every is_name_byte s ≡ true
    → every is_name_byte (encode_byte c ++ s) ≡ true
encode_byte-every c s h k = elim (Bool-cases (is_name_byte c)) [
  | inl e ↦ rw (name_byte c e, e) k
  | inr e ↦
      let high = hex_digit-name (c / 16) (omega arith) in
      let low = hex_digit-name (c % 16) (omega arith) in rw (escaped c e, high, low) k
]

encode-every : (s : Bytes) → IsBytes s → every is_name_byte (encode_for_object_path s) ≡ true
unfolding encode_for_object_path
encode-every [] h = refl
encode-every (c ∷ s) h = encode_byte-every c (encode_for_object_path s) h.0 (encode-every s h.1)

-- A text of which nothing is an underscore.
abbrev pub NoUnderscore : Bytes → Type 0
NoUnderscore = All (λ c. (c == b'_') ≡ false)

cons-parts : {A : Type 0} {x y : A} {xs ys : List A} → x ∷ xs ≡ y ∷ ys → (x ≡ y) × (xs ≡ ys)
cons-parts h = ground (arith, h)

-- What is written for one byte tells which byte it was, and where its code ends.
encode_byte-parts :
    (c d : ℕ) (s t : Bytes)
    → c < 256
    → d < 256
    → (c == b'_') ≡ false
    → (d == b'_') ≡ false
    → encode_byte c ++ s ≡ encode_byte d ++ t
    → (c ≡ d) × (s ≡ t)
encode_byte-parts c d s t bc bd nc nd e = elim (Bool-cases (is_name_byte c)) [
  | inl x ↦ elim (Bool-cases (is_name_byte d)) [
    | inl y ↦ cons-parts (rw (name_byte c x, name_byte d y) at e)
    | inr y ↦
        let parts = cons-parts (rw (name_byte c x, escaped d y) at e) in
        absurd (ground (arith, parts.0, nc))
  ]
  | inr x ↦ elim (Bool-cases (is_name_byte d)) [
    | inl y ↦
        let parts = cons-parts (rw (escaped c x, name_byte d y) at e) in
        absurd (ground (arith, parts.0, nd))
    | inr y ↦
        let parts = cons-parts (rw (escaped c x, escaped d y) at e) in
        let digits = cons-parts parts.1 in
        let rest = cons-parts digits.1 in
        let high = hex_digit-inj (c / 16) (d / 16) (omega arith) (omega arith) digits.0 in
        let low = hex_digit-inj (c % 16) (d % 16) (omega arith) (omega arith) rest.0 in
        (omega (arith, high, low), rest.1)
  ]
]

encode_byte-some : (c : ℕ) (s : Bytes) → encode_byte c ++ s ≢ []
encode_byte-some c s e = elim (Bool-cases (is_name_byte c)) [
  | inl x ↦ let none_left = rw (name_byte c x) at e in ground (arith, none_left)
  | inr x ↦ let none_left = rw (escaped c x) at e in ground (arith, none_left)
]

-- Texts without underscores that have the same encoding are the same text.
pub encode-inj :
    (s t : Bytes)
    → IsBytes s
    → IsBytes t
    → NoUnderscore s
    → NoUnderscore t
    → encode_for_object_path s ≡ encode_for_object_path t
    → s ≡ t
unfolding encode_for_object_path
encode-inj [] [] bs bt ns nt e = refl
encode-inj [] (d ∷ t) bs bt ns nt e = absurd (encode_byte-some d (encode_for_object_path t) (sym e))
encode-inj (c ∷ s) [] bs bt ns nt e = absurd (encode_byte-some c (encode_for_object_path s) e)
encode-inj (c ∷ s) (d ∷ t) bs bt ns nt e =
    let (same, rest) =
      encode_byte-parts c d (encode_for_object_path s) (encode_for_object_path t) bs.0 bt.0 ns.0
        nt.0 e in
    let tails = encode-inj s t bs.1 bt.1 ns.1 nt.1 rest in cc
