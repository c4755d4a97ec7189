-- ===== src/Bus/Pieces.antt =====
-- What `ObjectPath::Child`, `Leaf` and `Parent` (src/dbus/dbus_wrapper.cpp) do to one another.
use jappeos_core.Prelude.{
  subst, ℕ, ◌≡◌, refl, ap, ◌∙◌, sym, inl, inr, Bool, true, false, ◌&&◌, none, some, List, [], ◌∷◌,
  ◌++◌, Bool-cases, ◌==◌, nat_eq, every, All, Bytes, pieces, add_to_line, split_last, ends_with,
  arith,
}
use jappeos_core.Bus.ObjectPath.{
  is_name_byte, is_valid_element, is_valid_below, is_valid_path, object_path, root, leaf, child,
  parent, is_valid_segment, is_valid_interface,
}

-- The separator does not stand in the text.
abbrev pub Without : ℕ → Bytes → Type 0
Without sep = All (λ c. (c == sep) ≡ false)

split_last-missing : (sep : ℕ) (e : Bytes) → Without sep e → split_last sep e ≡ none
unfolding split_last
split_last-missing sep [] h = refl
split_last-missing sep (c ∷ e) h = rw (split_last-missing sep e h.1, h.0) refl

split_last-found :
    (sep : ℕ) (k e : Bytes) → Without sep e → split_last sep (k ++ sep ∷ e) ≡ some (k, e)
unfolding split_last
split_last-found sep [] e h = rw (split_last-missing sep e h) (ground arith)
split_last-found sep (c ∷ k) e h = rw (split_last-found sep k e h) refl

ends_with-join :
    (sep : ℕ) (s : Bytes) (d : ℕ) (e : Bytes) → ends_with sep (s ++ d ∷ e) ≡ ends_with sep (d ∷ e)
ends_with-join sep [] d e = refl
ends_with-join sep (c ∷ []) d e = refl
ends_with-join sep (c ∷ b ∷ s) d e = ends_with-join sep (b ∷ s) d e

ends_with-Without : (sep : ℕ) (e : Bytes) → Without sep e → ends_with sep e ≡ false
ends_with-Without sep [] h = refl
ends_with-Without sep (c ∷ []) h = h.0
ends_with-Without sep (c ∷ d ∷ e) h = ends_with-Without sep (d ∷ e) h.1

pieces_one : (sep c : ℕ) (e : Bytes) → Without sep (c ∷ e) → pieces sep (c ∷ e) ≡ (c ∷ e) ∷ []
unfolding pieces add_to_line
pieces_one sep c [] h = rw h.0 refl
pieces_one sep c (d ∷ e) h = rw h.0 (ap (add_to_line c) (pieces_one sep d e h.1))

-- A text that does not end with the separator has a last piece.
add_to_line-snoc :
    (c : ℕ) (l : Bytes) (ls : List Bytes) (e : Bytes)
    → add_to_line c ((l ∷ ls) ++ e ∷ []) ≡ add_to_line c (l ∷ ls) ++ e ∷ []
unfolding add_to_line
add_to_line-snoc c l ls e = refl

add_to_line-some :
    (c : ℕ) (ls : List Bytes) → (l : Bytes) × (ls' : List Bytes) × (add_to_line c ls ≡ l ∷ ls')
unfolding add_to_line
add_to_line-some c [] = (c ∷ [], [], refl)
add_to_line-some c (l ∷ ls) = (c ∷ l, ls, refl)

pieces_some :
    (sep c : ℕ) (s : Bytes) → (l : Bytes) × (ls : List Bytes) × (pieces sep (c ∷ s) ≡ l ∷ ls)
unfolding pieces
pieces_some sep c s = elim (Bool-cases (c == sep)) [
  | inl e ↦ ([], pieces sep s, rw e refl)
  | inr e ↦ let (l, ls, e') = add_to_line-some c (pieces sep s) in (l, ls, rw e e')
]

equal_self : (n : ℕ) → (n == n) ≡ true
equal_self n = ground arith

pieces-join :
    (sep c : ℕ) (s : Bytes) (d : ℕ) (e : Bytes)
    → ends_with sep (c ∷ s) ≡ false
    → Without sep (d ∷ e)
    → pieces sep ((c ∷ s) ++ sep ∷ d ∷ e) ≡ pieces sep (c ∷ s) ++ (d ∷ e) ∷ []
unfolding pieces add_to_line
pieces-join sep c [] d e h k =
    rw (h, equal_self sep) (ap (λ ls. (c ∷ []) ∷ ls) (pieces_one sep d e k))
pieces-join sep c (b ∷ s) d e h k =
    let ih = pieces-join sep b s d e h k in
    elim (Bool-cases (c == sep)) [
      | inl x ↦ rw x (ap (λ ls. [] ∷ ls) ih)
      | inr x ↦
          let (l, ls, there) = pieces_some sep b s in
          rw x (
            ap (add_to_line c) ih
            ∙ ap (λ r. add_to_line c (r ++ (d ∷ e) ∷ [])) there
            ∙ ap (λ r. add_to_line c r ++ (d ∷ e) ∷ []) (sym there))
    ]

every-snoc :
    {A : Type 0} (p : A → Bool) (xs : List A) (y : A)
    → every p xs ≡ true
    → p y ≡ true
    → every p (xs ++ y ∷ []) ≡ true
every-snoc p [] y h k = rw k refl
every-snoc p (x ∷ xs) y h k = elim (Bool-cases (p x)) [
  | inl e ↦ rw e (every-snoc p xs y (ground (arith, h, e)) k)
  | inr e ↦ absurd (ground (arith, h, e))
]

name_byte-slash : (c : ℕ) → is_name_byte c ≡ true → (c == b'/') ≡ false
name_byte-slash c h = ground (arith, h)

every-Without : (e : Bytes) → every is_name_byte e ≡ true → Without b'/' e
every-Without [] h = tt
every-Without (c ∷ e) h = elim (Bool-cases (is_name_byte c)) [
  | inl x ↦ (name_byte-slash c x, every-Without e (ground (arith, h, x)))
  | inr x ↦ absurd (ground (arith, h, x))
]

below-intro :
    (s : Bytes)
    → ends_with b'/' s ≡ false
    → every is_valid_element (pieces b'/' s) ≡ true
    → is_valid_below s ≡ true
unfolding pieces
below-intro s h k = rw h k

below-parts :
    (s : Bytes)
    → is_valid_below s ≡ true
    → (ends_with b'/' s ≡ false) × (every is_valid_element (pieces b'/' s) ≡ true)
unfolding pieces
below-parts s h = elim (Bool-cases (ends_with b'/' s)) [
  | inl e ↦ absurd (no_below e)
  | inr e ↦ (e, rw e at h)
]
  where
    no_below : ends_with b'/' s ≡ true → ⊥
    no_below e = let f : false ≡ true = rw e at h in cc

element-bytes :
    (d : ℕ) (e : Bytes) → is_valid_element (d ∷ e) ≡ true → every is_name_byte (d ∷ e) ≡ true
element-bytes d e h = h

below_one : (d : ℕ) (e : Bytes) → is_valid_element (d ∷ e) ≡ true → is_valid_below (d ∷ e) ≡ true
below_one d e h =
    let without = every-Without (d ∷ e) (element-bytes d e h) in
    below-intro (d ∷ e) (ends_with-Without b'/' (d ∷ e) without)
      (ap (every is_valid_element) (pieces_one b'/' d e without) ∙ rw h refl)

below-join :
    (c : ℕ) (s : Bytes) (d : ℕ) (e : Bytes)
    → is_valid_below (c ∷ s) ≡ true
    → is_valid_element (d ∷ e) ≡ true
    → is_valid_below ((c ∷ s) ++ b'/' ∷ d ∷ e) ≡ true
below-join c s d e h k =
    let without = every-Without (d ∷ e) (element-bytes d e k) in
    let (open_end, elements) = below-parts (c ∷ s) h in
    below-intro ((c ∷ s) ++ b'/' ∷ d ∷ e)
      (ends_with-join b'/' (c ∷ s) b'/' (d ∷ e) ∙ ends_with-Without b'/' (d ∷ e) without)
      (ap (every is_valid_element) (pieces-join b'/' c s d e open_end without)
        ∙ every-snoc is_valid_element (pieces b'/' (c ∷ s)) (d ∷ e) elements k)

-- What `Child` gives: a valid path, whose leaf and whose parent are what it was made of.
abbrev pub Extends : Bytes → Bytes → Bytes → Type 0
Extends p e q = (child p e ≡ some q) × (is_valid_path q ≡ true) × (leaf q ≡ e) × (parent q ≡ some p)

object_path_valid : (s : Bytes) → is_valid_path s ≡ true → object_path s ≡ some s
unfolding object_path
object_path_valid s h = rw h refl

child_root :
    (d : ℕ) (e : Bytes) → is_valid_element (d ∷ e) ≡ true → Extends root (d ∷ e) (b'/' ∷ d ∷ e)
unfolding child leaf parent is_valid_path object_path
child_root d e h =
    let without = every-Without (d ∷ e) (element-bytes d e h) in
    let below = below_one d e h in
    let last = split_last-found b'/' [] (d ∷ e) without in
    (rw (h, below) refl, below, rw last refl, rw last refl)

child_below :
    (c : ℕ) (s : Bytes) (d : ℕ) (e : Bytes)
    → is_valid_below (c ∷ s) ≡ true
    → is_valid_element (d ∷ e) ≡ true
    → Extends (b'/' ∷ c ∷ s) (d ∷ e) ((b'/' ∷ c ∷ s) ++ b'/' ∷ d ∷ e)
unfolding child leaf parent is_valid_path object_path
child_below c s d e h k =
    let without = every-Without (d ∷ e) (element-bytes d e k) in
    let below = below-join c s d e h k in
    let last = split_last-found b'/' (b'/' ∷ c ∷ s) (d ∷ e) without in
    (rw (k, below) refl, below, rw last refl, rw last (rw h refl))

starts_below :
    (c b : ℕ) (s : Bytes)
    → is_valid_path (c ∷ b ∷ s) ≡ true
    → (c ≡ b'/') × (is_valid_below (b ∷ s) ≡ true)
unfolding is_valid_path
starts_below c b s h = elim (Bool-cases (c == b'/')) [
  | inl e ↦ (ground (arith, e), rw e at h)
  | inr e ↦ absurd (let f : false ≡ true = rw e at h in cc)
]

-- For a valid path and a valid element, `Child` does not throw, and the path that it makes is
-- valid, has the element as its leaf and the path as its parent.
pub child-leaf_parent :
    (p e : Bytes) → is_valid_path p ≡ true → is_valid_element e ≡ true → (q : Bytes) × Extends p e q
unfolding is_valid_path
child-leaf_parent p [] h k = absurd (ground (arith, k))
child-leaf_parent [] (d ∷ e) h k = absurd (ground (arith, h))
child-leaf_parent (c ∷ []) (d ∷ e) h k =
    let slash : c ≡ b'/' = ground (arith, h) in
    (
      b'/' ∷ d ∷ e,
      subst (λ x. Extends (x ∷ []) (d ∷ e) (b'/' ∷ d ∷ e)) (sym slash) (child_root d e k),
    )
child-leaf_parent (c ∷ b ∷ s) (d ∷ e) h k =
    let (slash, below) = starts_below c b s h in
    (
      (b'/' ∷ b ∷ s) ++ b'/' ∷ d ∷ e,
      subst (λ x. Extends (x ∷ b ∷ s) (d ∷ e) ((b'/' ∷ b ∷ s) ++ b'/' ∷ d ∷ e)) (sym slash)
          (child_below b s d e below k),
    )

pieces-snoc :
    (sep c : ℕ) (s : Bytes)
    → ends_with sep (c ∷ s) ≡ false
    → pieces sep ((c ∷ s) ++ sep ∷ []) ≡ pieces sep (c ∷ s)
unfolding pieces add_to_line
pieces-snoc sep c [] h = rw (h, equal_self sep) refl
pieces-snoc sep c (b ∷ s) h = elim (Bool-cases (c == sep)) [
  | inl x ↦ rw x (ap (λ ls. [] ∷ ls) (pieces-snoc sep b s h))
  | inr x ↦ rw x (ap (add_to_line c) (pieces-snoc sep b s h))
]

-- The text of a valid interface name with a dot behind it is valid too.
pub is_valid_interface-dot :
    (s : Bytes)
    → is_valid_interface s ≡ true
    → ends_with b'.' s ≡ false
    → is_valid_interface (s ++ b'.' ∷ []) ≡ true
unfolding is_valid_interface
is_valid_interface-dot [] h k = absurd (ground (arith, h))
is_valid_interface-dot (c ∷ s) h k =
    ap (λ ls. every is_valid_segment ls && true) (pieces-snoc b'.' c s k) ∙ h
