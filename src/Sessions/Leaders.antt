-- ===== src/Sessions/Leaders.antt =====
-- The leaders of src/services/session_manager/session_manager_service.cpp: how the log of the
-- effects accounts for every process that was opened.
use jappeos_core.Prelude.{
  subst, ℕ, ◌+◌, String, ◌≡◌, refl, ap, ◌∙◌, ◌≢◌, inl, inr, Bool, true, false, none, some, [], ◌∷◌,
  arith, if◌then◌else◌, Bool-cases, ◌==◌, nat_eq, string_eq, eq_iff, count_if, All,
}
use jappeos_core.Services.Manager.{Table, find_key, erase_key}
use jappeos_core.Services.Manager.Lifetime.{Distinct, erase_key_absent}
use jappeos_core.Sessions.Data.{
  activates, stops_unit, starts_unit, kills, polls, closes, signals, opens, reaps, Log, SessionInfo,
  Effect, update_key,
}

abbrev pub is_opening : ℕ → Effect → Bool
is_opening p (opens q) = q == p
is_opening p _ = false

abbrev pub is_reaping : ℕ → Effect → Bool
is_reaping p (reaps q) = q == p
is_reaping p _ = false

abbrev pub is_life : Effect → Bool
is_life (opens q) = true
is_life (reaps q) = true
is_life _ = false

-- How often a process was opened, and how often it was reaped.
abbrev pub opened : ℕ → Log → ℕ
opened p = count_if (is_opening p)

abbrev pub reaped : ℕ → Log → ℕ
reaped p = count_if (is_reaping p)

pub opened-other :
    (p : ℕ) (e : Effect) (l : Log) → is_life e ≡ false → opened p (e ∷ l) ≡ opened p l
opened-other p (opens q) l h = cc
opened-other p (reaps q) l h = omega arith
opened-other p (signals q) l h = omega arith
opened-other p (closes q) l h = omega arith
opened-other p (polls q) l h = omega arith
opened-other p (kills q) l h = omega arith
opened-other p (starts_unit q) l h = omega arith
opened-other p (stops_unit q) l h = omega arith
opened-other p (activates q r) l h = omega arith

pub reaped-other :
    (p : ℕ) (e : Effect) (l : Log) → is_life e ≡ false → reaped p (e ∷ l) ≡ reaped p l
reaped-other p (opens q) l h = omega arith
reaped-other p (reaps q) l h = cc
reaped-other p (signals q) l h = omega arith
reaped-other p (closes q) l h = omega arith
reaped-other p (polls q) l h = omega arith
reaped-other p (kills q) l h = omega arith
reaped-other p (starts_unit q) l h = omega arith
reaped-other p (stops_unit q) l h = omega arith
reaped-other p (activates q r) l h = omega arith

abbrev pub leads : SessionInfo → ℕ → ℕ
leads x p = if x.leader_pid == p then 1 else 0

-- How many sessions a process leads.
abbrev pub owned : ℕ → Table SessionInfo → ℕ
owned p [] = 0
owned p ((k, x) ∷ t) = leads x p + owned p t

-- A change of a session that leaves its id and its leader.
abbrev pub Keeping : (SessionInfo → SessionInfo) → Type 0
Keeping f = (x : SessionInfo) → ((f x).id ≡ x.id) × ((f x).leader_pid ≡ x.leader_pid)

abbrev pub IsNamed : String × SessionInfo → Type 0
IsNamed e = (e.1.id ≡ e.0) × (e.0 ≢ "")

module _ {A : Type 0} where
  pub find_key-update_absent :
      (k key : String) (f : A → A) (t : Table A)
      → find_key k t ≡ none
      → find_key k (update_key key f t) ≡ none
  unfolding find_key update_key
  find_key-update_absent k key f [] h = refl
  find_key-update_absent k key f ((q, a) ∷ t) h = elim (Bool-cases (q == k)) [
    | inl e ↦ absurd (ground (arith, h, e))
    | inr e ↦ rw e (find_key-update_absent k key f t (ground (arith, h, e)))
  ]

  pub find_key-update_self :
      (k : String) (f : A → A) (t : Table A) {a : A}
      → find_key k t ≡ some a
      → find_key k (update_key k f t) ≡ some (f a)
  unfolding find_key update_key
  find_key-update_self k f [] h = cc
  find_key-update_self k f ((q, b) ∷ t) h = elim (Bool-cases (q == k)) [
    | inl e ↦ rw e (ground (arith, h, e))
    | inr e ↦ rw e (find_key-update_self k f t (ground (arith, h, e)))
  ]

  pub erase_key-update :
      (k : String) (f : A → A) (t : Table A) → erase_key k (update_key k f t) ≡ erase_key k t
  unfolding erase_key update_key
  erase_key-update k f [] = refl
  erase_key-update k f ((q, b) ∷ t) = elim (Bool-cases (q == k)) [
    | inl e ↦ rw e (erase_key-update k f t)
    | inr e ↦ rw e (ap (λ r. (q, b) ∷ r) (erase_key-update k f t))
  ]

  pub find_key-erase_absent :
      (k key : String) (t : Table A) → find_key k t ≡ none → find_key k (erase_key key t) ≡ none
  unfolding find_key erase_key
  find_key-erase_absent k key [] h = refl
  find_key-erase_absent k key ((q, a) ∷ t) h = ground (arith, h, find_key-erase_absent k key t)

  pub update-Distinct :
      (key : String) (f : A → A) (t : Table A) → Distinct t → Distinct (update_key key f t)
  unfolding update_key
  update-Distinct key f [] d = tt
  update-Distinct key f ((k, a) ∷ t) d =
      (find_key-update_absent k key f t d.0, update-Distinct key f t d.1)

  pub erase-Distinct : (key : String) (t : Table A) → Distinct t → Distinct (erase_key key t)
  unfolding erase_key
  erase-Distinct key [] d = tt
  erase-Distinct key ((k, a) ∷ t) d = elim (Bool-cases (k == key)) [
    | inl e ↦ rw e (erase-Distinct key t d.1)
    | inr e ↦ rw e (find_key-erase_absent k key t d.0, erase-Distinct key t d.1)
  ]

pub owned-update :
    (p : ℕ) (key : String) (f : SessionInfo → SessionInfo) (t : Table SessionInfo)
    → Keeping f
    → owned p (update_key key f t) ≡ owned p t
unfolding update_key
owned-update p key f [] h = refl
owned-update p key f ((k, x) ∷ t) h = elim (Bool-cases (k == key)) [
  | inl e ↦ rw (e, (h x).1) (ap (λ n. leads x p + n) (owned-update p key f t h))
  | inr e ↦ rw e (ap (λ n. leads x p + n) (owned-update p key f t h))
]

pub update-IsNamed :
    (key : String) (f : SessionInfo → SessionInfo) (t : Table SessionInfo)
    → Keeping f
    → All IsNamed t
    → All IsNamed (update_key key f t)
unfolding update_key
update-IsNamed key f [] h n = tt
update-IsNamed key f ((k, x) ∷ t) h n = elim (Bool-cases (k == key)) [
  | inl e ↦ rw e (((h x).0 ∙ n.0.0, n.0.1), update-IsNamed key f t h n.1)
  | inr e ↦ rw e (n.0, update-IsNamed key f t h n.1)
]

pub erase-IsNamed :
    (key : String) (t : Table SessionInfo) → All IsNamed t → All IsNamed (erase_key key t)
unfolding erase_key
erase-IsNamed key [] n = tt
erase-IsNamed key ((k, x) ∷ t) n = elim (Bool-cases (k == key)) [
  | inl e ↦ rw e (erase-IsNamed key t n.1)
  | inr e ↦ rw e (n.0, erase-IsNamed key t n.1)
]

pub owned-erase :
    (p : ℕ) (key : String) (x : SessionInfo) (t : Table SessionInfo)
    → Distinct t
    → find_key key t ≡ some x
    → owned p t ≡ leads x p + owned p (erase_key key t)
unfolding find_key erase_key
owned-erase p key x [] d h = cc
owned-erase p key x ((k, y) ∷ t) d h = elim (Bool-cases (k == key)) [
  | inl e ↦
      let here : y ≡ x = ground (arith, h, e) in
      let gone : erase_key key t ≡ t =
        erase_key_absent key t (subst (λ q. find_key q t ≡ none) ((eq_iff k key).0 e) d.0) in
      rw (e, gone, here) refl
  | inr e ↦ rw e (omega (arith, owned-erase p key x t d.1 (ground (arith, h, e))))
]

pub find-IsNamed :
    (key : String) (x : SessionInfo) (t : Table SessionInfo)
    → All IsNamed t
    → find_key key t ≡ some x
    → x.id ≡ key
unfolding find_key
find-IsNamed key x [] n h = cc
find-IsNamed key x ((k, y) ∷ t) n h = elim (Bool-cases (k == key)) [
  | inl e ↦ let here : y ≡ x = ground (arith, h, e) in rw (← here) (n.0.0 ∙ (eq_iff k key).0 e)
  | inr e ↦ find-IsNamed key x t n.1 (ground (arith, h, e))
]

pub find_empty : (t : Table SessionInfo) → All IsNamed t → find_key "" t ≡ none
unfolding find_key
find_empty [] n = refl
find_empty ((k, y) ∷ t) n = ground (arith, n.0.1, eq_iff k "", find_empty t n.1)
