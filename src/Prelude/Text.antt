-- ===== src/Prelude/Text.antt =====
-- Texts as lists of bytes, with the functions of `std::string` and `std::getline` that the source
-- uses on them.
use Prim.Native.Nat.{ℕ}
use Prim.Native.String.{String}
use Prim.Native.Char.{code}
use mathlib.Core.Path.{◌≡◌, refl, ap, ◌∙◌, sym}
use mathlib.Core.Logic.{◌≢◌, inl, inr}
use mathlib.Core.Bool.{Bool, true, false, ◌||◌, ◌&&◌}
use mathlib.Core.Option.{Option, none, some}
use mathlib.Core.List.{List, [], ◌∷◌, ◌++◌, reverse, reverse-append, reverse-reverse}
use native.Mathlib.Omega.{arith}
use jappeos_core.Prelude.Tests.{ltb, if◌then◌else◌, ◌==◌, nat_eq, Bool-cases}
use jappeos_core.Prelude.Lists.{All, All-append}

abbrev pub Bytes : Type 0
Bytes = List ℕ

-- The code points of a text: its bytes, if it is ASCII.
abbrev pub codes : String → Bytes
codes String.[] = []
codes (String.◌∷◌ c s) = code c ∷ codes s

-- `a < b` on `std::string`.
unfoldable pub bytes_less : Bytes → Bytes → Bool
bytes_less [] [] = false
bytes_less [] (d ∷ t) = true
bytes_less (c ∷ s) [] = false
bytes_less (c ∷ s) (d ∷ t) = ltb c d || c == d && bytes_less s t

unfoldable pub text_less : String → String → Bool
unfolding bytes_less
text_less a b = bytes_less (codes a) (codes b)

abbrev pub is_blank : ℕ → Bool
is_blank c = c == b' ' || c == 9 || c == 13 || c == 10

unfoldable pub drop_blanks : Bytes → Bytes
drop_blanks [] = []
drop_blanks (c ∷ s) = if is_blank c then drop_blanks s else c ∷ s

-- The text from its first to its last byte that is none of `" \t\r\n"`.
unfoldable pub trim : Bytes → Bytes
unfolding drop_blanks
trim s = reverse (drop_blanks (reverse (drop_blanks s)))

-- What one `std::getline` reads: up to the first line feed.
unfoldable pub first_line : Bytes → Bytes
first_line [] = []
first_line (c ∷ s) = if c == 10 then [] else c ∷ first_line s

unfoldable pub add_to_line : ℕ → List Bytes → List Bytes
add_to_line c [] = (c ∷ []) ∷ []
add_to_line c (l ∷ ls) = (c ∷ l) ∷ ls

-- The pieces of a text between separators, as a loop over `find` or `std::getline` meets them:
-- where the text ends with a separator, nothing follows it.
unfoldable pub pieces : ℕ → Bytes → List Bytes
unfolding add_to_line
pieces sep [] = []
pieces sep (c ∷ s) = let rest = pieces sep s in if c == sep then [] ∷ rest else add_to_line c rest

-- What `while (std::getline(f, line))` reads.
unfoldable pub lines : Bytes → List Bytes
unfolding pieces
lines s = pieces 10 s

-- The text before the last separator and the text behind it.
unfoldable pub split_last : ℕ → Bytes → Option (Bytes × Bytes)
split_last sep [] = none
split_last sep (c ∷ s) = elim (split_last sep s) [
  | none ↦ if c == sep then some ([], s) else none
  | some (k, v) ↦ some (c ∷ k, v)
]

abbrev pub ends_with : ℕ → Bytes → Bool
ends_with sep [] = false
ends_with sep (c ∷ []) = c == sep
ends_with sep (c ∷ d ∷ s) = ends_with sep (d ∷ s)

-- No line feed.
abbrev pub IsLine : Bytes → Type 0
IsLine = All (λ c. c ≢ 10)

pub drop_blanks-IsLine : (s : Bytes) → IsLine s → IsLine (drop_blanks s)
unfolding drop_blanks
drop_blanks-IsLine [] h = tt
drop_blanks-IsLine (c ∷ s) h = elim (Bool-cases (is_blank c)) [
  | inl e ↦ rw e (drop_blanks-IsLine s h.1)
  | inr e ↦ rw e h
]

module _ {ℓ κ} {A : Type ℓ} (P : A → Type κ) where
  reverse-All : (xs : List A) → All P xs → All P (reverse xs)
  reverse-All [] h = tt
  reverse-All (x ∷ xs) h =
      let e : reverse (x ∷ xs) ≡ reverse xs ++ x ∷ [] = reverse-append (x ∷ []) xs in
      rw e (All-append P (reverse xs) (x ∷ []) (reverse-All xs h.1) (h.0, tt))

pub trim-IsLine : (s : Bytes) → IsLine s → IsLine (trim s)
unfolding trim
trim-IsLine s h =
    let P : ℕ → Type 0 = λ c. c ≢ 10 in
    reverse-All P _ (drop_blanks-IsLine _ (reverse-All P _ (drop_blanks-IsLine s h)))

pub first_line-IsLine : (s : Bytes) → IsLine (first_line s)
unfolding first_line
first_line-IsLine [] = tt
first_line-IsLine (c ∷ s) = elim (Bool-cases (c == 10)) [
  | inl e ↦ rw e tt
  | inr e ↦ rw e ((λ h. ground (arith, h, e)), first_line-IsLine s)
]

pub first_line_same : (s : Bytes) → IsLine s → first_line s ≡ s
unfolding first_line
first_line_same [] h = refl
first_line_same (c ∷ s) h = elim (Bool-cases (c == 10)) [
  | inl e ↦ absurd (h.0 (ground (arith, e)))
  | inr e ↦ rw e (ap (λ t. c ∷ t) (first_line_same s h.1))
]

add_to_line-IsLine :
    (c : ℕ) (ls : List Bytes) → c ≢ 10 → All IsLine ls → All IsLine (add_to_line c ls)
unfolding add_to_line
add_to_line-IsLine c [] n h = ((n, tt), tt)
add_to_line-IsLine c (l ∷ ls) n h = ((n, h.0), h.1)

pieces-IsLine : (s : Bytes) → All IsLine (pieces 10 s)
unfolding pieces
pieces-IsLine [] = tt
pieces-IsLine (c ∷ s) = elim (Bool-cases (c == 10)) [
  | inl e ↦ rw e (tt, pieces-IsLine s)
  | inr e ↦ rw e (add_to_line-IsLine c (pieces 10 s) (λ h. ground (arith, h, e)) (pieces-IsLine s))
]

pub lines-IsLine : (s : Bytes) → All IsLine (lines s)
unfolding lines
lines-IsLine s = pieces-IsLine s

-- A text between two bytes that are no blanks is its own trimmed text.
pub trim_same :
    (c d : ℕ) (s : Bytes)
    → is_blank c ≡ false
    → is_blank d ≡ false
    → trim (c ∷ s ++ d ∷ []) ≡ c ∷ s ++ d ∷ []
unfolding trim drop_blanks
trim_same c d s h k =
    let back : reverse ((c ∷ s) ++ d ∷ []) ≡ d ∷ reverse (c ∷ s) =
      reverse-append (c ∷ s) (d ∷ []) in
    rw (h, back, k) (ap reverse (sym back) ∙ reverse-reverse (c ∷ s ++ d ∷ []))
