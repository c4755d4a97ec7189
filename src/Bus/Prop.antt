-- ===== src/Bus/Prop.antt =====
-- `Prop<std::string>` and `Proxy::SubscribePropertyChanged` (src/dbus/dbus_wrapper.h): a property,
-- and a client that follows it. There is no callback for changes; the values of all properties are
-- a function from where they are.
use jappeos_core.Prelude.{
  ℕ, if_elim, Result, ◌≡◌, refl, ◌∙◌, ap, inl, inr, Bool, true, false, none, some, List, [], ◌∷◌,
  ◌++◌, if◌then◌else◌, Bool-cases, list_beq, nat_eq, Bytes, codes, ok, err,
}
use jappeos_core.Bus.Variant.{
  Failure, standard, Payload, basic, array, structure, variant, signature,
}
use jappeos_core.Bus.Objects.{
  Sent, properties_changed, Property, find_name, property_setter, Outcome, failed, wrong_type,
}
use jappeos_core.Bus.Objects.Replies.{SetsQuietly, replies}

-- A property, by its object, interface and name
pub record Place : Type 0 where
  pub path : Bytes
  pub interface : Bytes
  pub name : Bytes

unfoldable pub same_place : Place → Place → Bool
same_place p q =
    if list_beq p.path q.path
    then if list_beq p.interface q.interface then list_beq p.name q.name else false
    else false

abbrev pub Values : Type 0
Values = Place → Bytes

abbrev pub text : Bytes → Payload
text v = basic b's' v

-- `Prop::Set` with `EmitPropertiesChanged`: the values, what is sent, and whether it changed
unfoldable pub set_prop : Place → Bytes → Values → Values × List Sent × Bool
unfolding same_place
set_prop p v values = if list_beq v (values p) then (values, [], false) else (
  λ q. if same_place p q then v else values q,
  properties_changed p.path p.interface ((p.name, text v) ∷ []) ∷ [],
  true,
)

-- The setter of the property that the constructor of `Prop` registers, of `get<std::string>`
unfoldable set_payload : Place → Payload → Values → Outcome Values (Unit {0})
unfolding set_prop
set_payload p (basic c v) values =
    let (values', sent, changed) = set_prop p v values in
    record { state = values'; sent = sent; result = ok tt }
set_payload p _ values = failed values (standard (codes "bad any_cast"))

-- The property that the constructor of `Prop` registers
unfoldable pub prop_property : Bool → Place → Property Values
unfolding property_setter set_payload
prop_property settable p = record {
  getter = some (λ values. ok (text (values p)));
  setter = if settable then some (property_setter (codes "s") (set_payload p)) else none;
}

-- What the handler of `SubscribePropertyChanged` makes of a signal, for the last value seen. The
-- match rule lets signals of the object pass.
unfoldable pub follow : Place → Sent → Bytes → Bytes
unfolding find_name
follow p (properties_changed path interface changed) seen =
    if list_beq path p.path
    then if list_beq interface p.interface
      then elim (find_name p.name changed) [ none ↦ seen | some (basic c v) ↦ v | some _ ↦ seen ]
      else seen
    else seen
follow p _ seen = seen

unfoldable pub follow_all : Place → List Sent → Bytes → Bytes
unfolding follow
follow_all p [] seen = seen
follow_all p (m ∷ ms) seen = follow_all p ms (follow p m seen)

unfoldable pub set_props : List (Place × Bytes) → Values → Values × List Sent
unfolding set_prop
set_props [] values = (values, [])
set_props ((p, v) ∷ writes) values =
    let (values', sent, changed) = set_prop p v values in
    let (last, rest) = set_props writes values' in (last, sent ++ rest)

follow_all-append :
    (p : Place) (ms ns : List Sent) (seen : Bytes)
    → follow_all p (ms ++ ns) seen ≡ follow_all p ns (follow_all p ms seen)
unfolding follow_all
follow_all-append p [] ns seen = refl
follow_all-append p (m ∷ ms) ns seen = follow_all-append p ms ns (follow p m seen)

same_place-follow :
    (q p : Place) (v seen : Bytes)
    → follow q (properties_changed p.path p.interface ((p.name, text v) ∷ [])) seen
      ≡ (if same_place p q then v else seen)
unfolding follow find_name same_place
same_place-follow q p v seen = elim (Bool-cases (list_beq p.path q.path)) [
  | inr e ↦ rw e refl
  | inl e ↦ elim (Bool-cases (list_beq p.interface q.interface)) [
    | inr f ↦ rw (e, f) refl
    | inl f ↦ elim (Bool-cases (list_beq p.name q.name)) [
      | inr g ↦ rw (e, f, g) refl
      | inl g ↦ rw (e, f, g) refl
    ]
  ]
]

set_prop-follow_all :
    (p : Place) (v : Bytes) (values : Values) (q : Place)
    → let (values', sent, changed) = set_prop p v values in follow_all q sent (values q) ≡ values' q
unfolding set_prop follow_all
set_prop-follow_all p v values q = elim (Bool-cases (list_beq v (values p))) [
  | inl e ↦ rw e refl
  | inr e ↦ rw e (same_place-follow q p v (values q))
]

-- A client that saw the value of a property and gets the signals of all writes, of it and of other
-- properties, in their order, has seen the value that the property has.
pub set_props-follow_all :
    (writes : List (Place × Bytes)) (values : Values) (q : Place)
    → let (last, sent) = set_props writes values in follow_all q sent (values q) ≡ last q
unfolding set_props follow_all
set_props-follow_all [] values q = refl
set_props-follow_all ((p, v) ∷ writes) values q =
    let (values', sent, changed) = set_prop p v values in
    follow_all-append q sent (set_props writes values').1 (values q)
    ∙ ap (follow_all q (set_props writes values').1) (set_prop-follow_all p v values q)
    ∙ set_props-follow_all writes values' q

-- Where the value of a property is set, nothing that is sent is a reply.
set_prop_no_reply :
    (n : ℕ) (p : Place) (v : Bytes) (values : Values) → replies n (set_prop p v values).1 ≡ 0
unfolding set_prop
set_prop_no_reply n p v values = elim (Bool-cases (list_beq v (values p))) [
  | inl e ↦ rw e refl
  | inr e ↦ rw e refl
]

-- The setter of a property sends no reply: `HandleSetProperty` does.
pub prop_property-SetsQuietly :
    (settable : Bool) (p : Place) → SetsQuietly (prop_property settable p).setter
unfolding prop_property property_setter set_payload
prop_property-SetsQuietly false p = tt
prop_property-SetsQuietly true p = λ m values. entry m.serial values _
  where
    quiet :
        (n : ℕ) (values : Values) (value : Payload)
        → replies n (set_payload p value values).sent ≡ 0
    quiet n values (basic c v) = set_prop_no_reply n p v values
    quiet n values (array e v) = refl
    quiet n values (structure ps) = refl
    quiet n values (variant q) = refl

    entry :
        (n : ℕ) (values : Values) (r : Result Failure Payload)
        → replies n (
            (elim r as (λ x. Outcome Values (Unit {0})) [
              | err e ↦ failed values e
              | ok value ↦
                  if list_beq (signature value) (codes "s")
                  then set_payload p value values
                  else failed values wrong_type
            ]).sent)
          ≡ 0
    entry n values (err e) = refl
    entry n values (ok value) =
        if_elim (λ (out : Outcome Values (Unit {0})). replies n out.sent ≡ 0)
          (list_beq (signature value) (codes "s")) (λ e. quiet n values value) (λ e. refl)
