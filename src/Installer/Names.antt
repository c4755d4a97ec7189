-- ===== src/Installer/Names.antt =====
-- `InstallerService::IsValidHostname` and `IsValidUsername`
-- (src/services/installer/installer_service.cpp): the two regular expressions, run by a
-- backtracking matcher on the bytes of the text.
pub mod Language
use jappeos_core.Prelude.{
  Bytes, codes, list_empty, ℕ, zero, suc, ◌-◌, String, Bool, false, ◌&&◌, ◌||◌, not, List, [], ◌∷◌,
  ltb, leb, if◌then◌else◌, ◌==◌, nat_eq, string_eq, list_beq, length, any,
}

-- The regular expressions that the source writes: a class, a sequence, `(r)?`, and `r{0,n}`.
pub data Regex : Type 0 where
  class : (ℕ → Bool) → Regex
  then_ : Regex → Regex → Regex
  optional : Regex → Regex
  up_to : ℕ → Regex → Regex

abbrev pub Matcher : Type 0
Matcher = Bytes → (Bytes → Bool) → Bool

unfoldable pub match_class : (ℕ → Bool) → Matcher
match_class p [] k = false
match_class p (c ∷ s) k = p c && k s

unfoldable pub match_up_to : ℕ → Matcher → Matcher
match_up_to zero m s k = k s
match_up_to (suc n) m s k = m s (λ s'. match_up_to n m s' k) || k s

-- Greedy: another round is tried before the rest of the expression.
unfoldable pub match_regex : Regex → Matcher
unfolding match_class match_up_to
match_regex (class p) s k = match_class p s k
match_regex (then_ r t) s k = match_regex r s (λ s'. match_regex t s' k)
match_regex (optional r) s k = match_regex r s k || k s
match_regex (up_to n r) s k = match_up_to n (match_regex r) s k

-- `std::regex_match`: the whole text matches.
unfoldable pub regex_match : Bytes → Regex → Bool
unfolding match_regex
regex_match s r = match_regex r s list_empty

abbrev pub in_range : ℕ → ℕ → ℕ → Bool
in_range lo hi c = leb lo c && leb c hi

abbrev pub is_alnum : ℕ → Bool
is_alnum c = in_range b'A' b'Z' c || in_range b'a' b'z' c || in_range b'0' b'9' c

abbrev pub is_alnum_or_dash : ℕ → Bool
is_alnum_or_dash c = is_alnum c || c == b'-'

-- `^[A-Za-z0-9]([A-Za-z0-9-]{0,61}[A-Za-z0-9])?$`
abbrev pub hostname_pattern : Regex
hostname_pattern =
    then_ (class is_alnum) (optional (then_ (up_to 61 (class is_alnum_or_dash)) (class is_alnum)))

unfoldable pub is_valid_hostname : Bytes → Bool
unfolding regex_match
is_valid_hostname h =
    if list_empty h || ltb 63 (length h) then false else regex_match h hostname_pattern

abbrev pub is_name_start : ℕ → Bool
is_name_start c = in_range b'a' b'z' c || c == b'_'

abbrev pub is_name_char : ℕ → Bool
is_name_char c = is_name_start c || in_range b'0' b'9' c || c == b'-'

-- `^[a-z_][a-z0-9_-]{0,31}$`
abbrev pub username_pattern : Regex
username_pattern = then_ (class is_name_start) (up_to 31 (class is_name_char))

abbrev pub reserved : List Bytes
reserved =
    codes "root"
    ∷ codes "daemon"
    ∷ codes "bin"
    ∷ codes "sys"
    ∷ codes "adm"
    ∷ codes "mail"
    ∷ codes "nobody"
    ∷ codes "systemd-network"
    ∷ codes "systemd-resolve"
    ∷ codes "systemd-timesync"
    ∷ codes "jos-greeter"
    ∷ []

-- `getpwnam` is the system's account database: whether it knows the name.
unfoldable pub is_valid_username : (Bytes → Bool) → Bytes → Bool
unfolding regex_match
is_valid_username getpwnam u =
    if list_empty u || ltb 32 (length u)
    then false
    else if not (regex_match u username_pattern)
    then false
    else if any (λ r. list_beq r u) reserved
    then false
    else not (getpwnam u)
