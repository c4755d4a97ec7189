-- ===== src/Installer/Names/Language.antt =====
-- The texts that the two regular expressions accept.
use jappeos_core.Installer.Names.{
  reserved, up_to, optional, class, is_name_start, then_, is_name_char, regex_match, Regex,
  is_valid_username, match_class, is_alnum_or_dash, is_valid_hostname, match_up_to, is_alnum,
}
use jappeos_core.Prelude.{
  Bytes, ◌&&◌, refl, ltb, ◌||◌, not, if◌then◌else◌, false, list_beq, any, list_empty, ℕ, zero, suc,
  ◌+◌, ◌≤◌, ◌≡◌, ◌↔◌, Bool, true, [], ◌∷◌, arith, nat_eq, string_eq, length, All,
}

-- All bytes but the last satisfy `p`, and the last satisfies `q`.
abbrev pub EndsWith : (ℕ → Bool) → (ℕ → Bool) → Bytes → Type 0
EndsWith p q [] = ⊥
EndsWith p q (c ∷ []) = q c ≡ true
EndsWith p q (c ∷ d ∷ s) = (p c ≡ true) × EndsWith p q (d ∷ s)

match_tail :
    (p q : ℕ → Bool) (n : ℕ) (s : Bytes)
    → (match_up_to n (match_class p) s (λ s'. match_class q s' list_empty) ≡ true)
      ↔ (EndsWith p q s × (length s ≤ n + 1))
unfolding match_up_to match_class
match_tail p q zero [] = ground arith
match_tail p q zero (c ∷ []) = ground arith
match_tail p q zero (c ∷ d ∷ s) = ground arith
match_tail p q (suc n) [] = ground arith
match_tail p q (suc n) (c ∷ []) = ground (arith, match_tail p q n [])
match_tail p q (suc n) (c ∷ d ∷ s) = ground (arith, match_tail p q n (d ∷ s))

match-All :
    (p : ℕ → Bool) (n : ℕ) (s : Bytes)
    → (match_up_to n (match_class p) s list_empty ≡ true)
      ↔ (All (λ c. p c ≡ true) s × (length s ≤ n))
unfolding match_up_to match_class
match-All p zero [] = ground arith
match-All p zero (c ∷ s) = ground arith
match-All p (suc n) [] = ground arith
match-All p (suc n) (c ∷ s) = ground (arith, match-All p n s)

-- Texts of 1 to 63 bytes whose first and last byte satisfy `q` and the others `p`.
abbrev pub Label : (ℕ → Bool) → (ℕ → Bool) → Bytes → Type 0
Label p q [] = ⊥
Label p q (c ∷ []) = q c ≡ true
Label p q (c ∷ d ∷ s) = (q c ≡ true) × EndsWith p q (d ∷ s) × (length (c ∷ d ∷ s) ≤ 63)

-- Texts of 1 to 32 bytes that begin with a `q` and go on with `p`.
abbrev pub Word : (ℕ → Bool) → (ℕ → Bool) → Bytes → Type 0
Word p q [] = ⊥
Word p q (c ∷ s) = (q c ≡ true) × All (λ d. p d ≡ true) s × (length (c ∷ s) ≤ 32)

label_pattern : (ℕ → Bool) → (ℕ → Bool) → Regex
label_pattern p q = then_ (class q) (optional (then_ (up_to 61 (class p)) (class q)))

-- The length guard before an expression that bounds the length by itself.
guard_lem :
    (n k : ℕ) (a x : Bool) {W : Type 0}
    → (x ≡ true) ↔ (W × (k ≤ n))
    → ((if ltb (suc n) (suc k) then false else (a && x)) ≡ true)
      ↔ ((a ≡ true) × W × (suc k ≤ suc n))
guard_lem n k true true e =
    ((λ h. (refl, (e.0 refl).0, omega (arith, (e.0 refl).1))), (λ h. ground arith))
guard_lem n k true false e =
    ((λ h. absurd (ground arith)), (λ h. absurd (no_match (e.1 (h.1, omega arith)))))
  where
    no_match : ◌≡◌ {A = Bool} false true → ⊥
    no_match h = cc
guard_lem n k false x e = ((λ h. absurd (ground arith)), (λ h. absurd (cc)))

or_false : (b : Bool) → (b || false) ≡ b
or_false true = refl
or_false false = refl

not-not : (b : Bool) → not (not b) ≡ b
not-not true = refl
not-not false = refl

label_lem :
    (p q : ℕ → Bool) (h : Bytes)
    → ((if list_empty h || ltb 63 (length h) then false else regex_match h (label_pattern p q))
        ≡ true)
      ↔ Label p q h
unfolding regex_match label_pattern
label_lem p q [] = ground arith
label_lem p q (c ∷ []) = ground (arith, match_tail p q 61 [])
label_lem p q (c ∷ d ∷ s) =
    rw (or_false (match_up_to 61 (match_class p) (d ∷ s) (λ s'. match_class q s' list_empty)))
      (guard_lem 62 (length (d ∷ s)) (q c) _ (match_tail p q 61 (d ∷ s)))

-- A host name: letters, digits and dashes.
abbrev pub IsHostname : Bytes → Type 0
IsHostname = Label is_alnum_or_dash is_alnum

-- `is_valid_hostname` accepts exactly the texts of 1 to 63 bytes of letters, digits and dashes that
-- neither begin nor end with a dash.
is_valid_hostname_iff : (h : Bytes) → (is_valid_hostname h ≡ true) ↔ IsHostname h
unfolding is_valid_hostname label_pattern
is_valid_hostname_iff h = label_lem is_alnum_or_dash is_alnum h

word_lem :
    (p q : ℕ → Bool) (u : Bytes)
    → ((if list_empty u || ltb 32 (length u)
          then false
          else not (not (regex_match u (then_ (class q) (up_to 31 (class p))))))
        ≡ true)
      ↔ Word p q u
unfolding regex_match
word_lem p q [] = ground arith
word_lem p q (c ∷ s) =
    rw (not-not (q c && match_up_to 31 (match_class p) s list_empty))
      (guard_lem 31 (length s) (q c) _ (match-All p 31 s))

-- The early returns after the regular expression, over its verdict.
three_tests :
    (bad match taken known : Bool) {W : Type 0}
    → ((if bad then false else not (not match)) ≡ true) ↔ W
    → ((if bad then false else if not match then false else if taken then false else not known)
        ≡ true)
      ↔ (W × (taken ≡ false) × (known ≡ false))
three_tests true match taken known e = ((λ h. absurd (cc)), (λ h. e.1 h.0))
three_tests false false taken known e = ((λ h. absurd (cc)), (λ h. e.1 h.0))
three_tests false true true known e = ((λ h. absurd (cc)), (λ h. absurd (cc)))
three_tests false true false true e = ((λ h. absurd (cc)), (λ h. absurd (cc)))
three_tests false true false false e = ((λ h. (e.0 refl, refl, refl)), (λ h. refl))

-- `is_valid_username` accepts exactly the texts of 1 to 32 bytes that begin with a lower-case letter
-- or `_`, go on with such bytes, digits and dashes, are not one of the reserved names, and name no
-- account of the system.
pub is_valid_username_iff :
    (getpwnam : Bytes → Bool) (u : Bytes)
    → (is_valid_username getpwnam u ≡ true) ↔ (
        Word is_name_char is_name_start u
        × (any (λ r. list_beq r u) reserved ≡ false)
        × (getpwnam u ≡ false))
unfolding is_valid_username
is_valid_username_iff getpwnam u = three_tests _ _ _ _ (word_lem is_name_char is_name_start u)
