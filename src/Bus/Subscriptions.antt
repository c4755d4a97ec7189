-- ===== src/Bus/Subscriptions.antt =====
-- `SignalSubscription` and `Connection::HandleSignal` (src/dbus/dbus_wrapper.cpp): the handlers of
-- signals, and the match rules on the bus. A handler is a number, and a match rule its fields.
use jappeos_core.Prelude.{
  ℕ, zero, suc, ◌≡◌, refl, inl, inr, Bool, true, false, Option, none, some, List, [], ◌∷◌, ◌++◌,
  if◌then◌else◌, Bool-cases, list_beq, list_beq_refl, list_beq-path, nat_eq, ◌==◌, Bytes, length,
  every,
}

-- `SignalKey`
pub record SignalKey : Type 0 where
  pub interface : Bytes
  pub member : Bytes
  pub path : Option Bytes

abbrev same_path : Option Bytes → Option Bytes → Bool
same_path none none = true
same_path (some p) (some q) = list_beq p q
same_path _ _ = false

-- `SignalKey::operator==`
unfoldable pub same_key : SignalKey → SignalKey → Bool
same_key j k =
    if list_beq j.interface k.interface
    then if list_beq j.member k.member then same_path j.path k.path else false
    else false

pub record Rule : Type 0 where
  pub bus_name : Bytes
  pub key : SignalKey

unfoldable pub same_rule : Rule → Rule → Bool
same_rule r t = if list_beq r.bus_name t.bus_name then same_key r.key t.key else false

-- An element of a `HandlerList`; it is reset when its subscription ends.
abbrev pub Slot : Type 0
Slot = Option ℕ

-- The part of a `Connection` for signals, with the rules that the bus has. A connection to a peer,
-- which `_peer` tells, has no bus.
pub record Signals : Type 0 where
  pub handlers : SignalKey → Option (List Slot)
  pub rules : List Rule

-- `SignalSubscription`
pub record Subscription : Type 0 where
  pub rule : Rule
  pub index : ℕ
  pub is_active : Bool

unfoldable pub set_handlers : SignalKey → Option (List Slot) → Signals → Signals
unfolding same_key
set_handlers k l s = record s { handlers = λ j. if same_key j k then l else s.handlers j }

abbrev pub slots : Option (List Slot) → List Slot
slots none = []
slots (some l) = l

-- `AddMatch`: the bus may refuse a rule.
unfoldable pub add_match : Bool → Bool → Rule → Signals → Bool × Signals
add_match peer accepts r s =
    if peer
    then (true, s)
    else if accepts
    then (true, record s { rules = r ∷ s.rules })
    else (false, s)

-- The bus drops one such rule; it is an error if there is none.
unfoldable pub drop_rule : Rule → List Rule → Option (List Rule)
unfolding same_rule
drop_rule r [] = none
drop_rule r (t ∷ ts) =
    let rest = drop_rule r ts in
    if same_rule r t then some ts else elim rest [ none ↦ none | some us ↦ some (t ∷ us) ]

-- `RemoveMatch`
unfoldable pub remove_match : Bool → Rule → Signals → Bool × Signals
unfolding drop_rule
remove_match peer r s = if peer then (true, s) else elim (drop_rule r s.rules) [
  | none ↦ (false, s)
  | some ts ↦ (true, record s { rules = ts })
]

-- `SignalSubscription::SignalSubscription`; there is none if it throws.
unfoldable pub subscribe_signal :
    Bool → Bool → Bytes → SignalKey → ℕ → Signals → Option Subscription × Signals
unfolding set_handlers add_match
subscribe_signal peer accepts bus k h s =
    let l = slots (s.handlers k) in
    let r : Rule = record { bus_name = bus; key = k } in
    let sub : Subscription = record { rule = r; index = length l; is_active = true } in
    let pushed = set_handlers k (some (l ++ some h ∷ [])) s in
    let (added, s') = add_match peer accepts r pushed in
    if length (l ++ some h ∷ []) == 1
    then if added then (some sub, s') else (none, s')
    else (some sub, pushed)

abbrev pub reset : ℕ → List Slot → List Slot
reset i [] = []
reset zero (x ∷ xs) = none ∷ xs
reset (suc i) (x ∷ xs) = x ∷ reset i xs

abbrev pub is_reset : Slot → Bool
is_reset none = true
is_reset (some h) = false

-- `SignalSubscription::~SignalSubscription`, and false if `RemoveMatch` throws out of it, which ends
-- the program.
unfoldable pub unsubscribe_signal : Bool → Subscription → Signals → Bool × Signals
unfolding set_handlers remove_match
unsubscribe_signal peer sub s =
    if sub.is_active
    then elim (s.handlers sub.rule.key) [
      | none ↦ (true, s)
      | some l ↦
          let left = reset sub.index l in
          let (removed, s') = remove_match peer sub.rule s in
          if every is_reset left
          then if removed then (true, set_handlers sub.rule.key none s') else (false, s')
          else (true, set_handlers sub.rule.key (some left) s)
    ]
    else (true, s)

abbrev live : List Slot → List ℕ
live [] = []
live (none ∷ xs) = live xs
live (some h ∷ xs) = h ∷ live xs

-- `HandleSignal`: the handlers that are called, in this order, if there is an entry.
unfoldable pub handle_signal : SignalKey → Signals → Option (List ℕ)
handle_signal k s = elim (s.handlers k) [ none ↦ none | some l ↦ some (live l) ]

same_path_lem : (p q : Option Bytes) → same_path p q ≡ true → p ≡ q
same_path_lem none none h = refl
same_path_lem (some p) (some q) h = let e : p ≡ q = list_beq-path p q h in cc
same_path_lem none (some q) h = cc
same_path_lem (some p) none h = cc

pub same_key_refl : (k : SignalKey) → same_key k k ≡ true
unfolding same_key
same_key_refl k = rw (list_beq_refl k.interface, list_beq_refl k.member) (paths k.path)
  where
    paths : (p : Option Bytes) → same_path p p ≡ true
    paths none = refl
    paths (some p) = list_beq_refl p

pub same_key-path : (j k : SignalKey) → same_key j k ≡ true → j ≡ k
unfolding same_key
same_key-path j k h = elim (Bool-cases (list_beq j.interface k.interface)) [
  | inl e ↦ elim (Bool-cases (list_beq j.member k.member)) [
    | inl f ↦
        let i = list_beq-path j.interface k.interface e in
        let m = list_beq-path j.member k.member f in
        let p = same_path_lem j.path k.path (rw (e, f) at h) in cc
    | inr f ↦ absurd (let g : false ≡ true = rw (e, f) at h in cc)
  ]
  | inr e ↦ absurd (let g : false ≡ true = rw e at h in cc)
]
