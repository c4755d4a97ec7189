-- ===== src/Bus/Objects.antt =====
-- `Interface` and its handlers of method calls (src/dbus/dbus_wrapper.h and
-- src/dbus/dbus_wrapper.cpp), and what they send. The `std::map`s and `std::unordered_map`s are the
-- lists of their entries. Getters only read, and memory does not run out.
pub mod Replies
use jappeos_core.Prelude.{
  ℕ, Bool, true, false, Option, none, some, List, [], ◌∷◌, ◌++◌, if◌then◌else◌, list_beq, nat_eq,
  ◌==◌, Bytes, codes, list_empty, Result, ok, err, ◌>>=◌, ◌>>◌, require, or_throw,
}
use jappeos_core.Bus.ObjectPath.{interface_name}
use jappeos_core.Bus.Variant.{
  Failure, dbus_exception, standard, Payload, basic, signature, variant, variant_arg, mismatch,
  invalid_args,
}

-- What the code reads of a message.
pub record Message : Type 0 where
  pub serial : ℕ
  pub is_signal : Bool
  pub path : Option Bytes
  pub interface : Option Bytes
  pub member : Bytes
  pub sender : Bytes
  pub args : List Payload

-- A message that is sent; an answer and a failure are for the call with a serial number.
pub data Sent : Type 0 where
  answer : ℕ → List Payload → Sent
  all_properties : ℕ → List (Bytes × Payload) → Sent
  failure : ℕ → Bytes → Bytes → Sent
  properties_changed : Bytes → Bytes → List (Bytes × Payload) → Sent

-- What code did that may have thrown.
pub record Outcome (S : Type 0) (A : Type 0) : Type 0 where
  pub state : S
  pub sent : List Sent
  pub result : Result Failure A

pub record Property (S : Type 0) : Type 0 where
  pub getter : Option (S → Result Failure Payload)
  pub setter : Option (Message → S → Outcome S (Unit {0}))

pub record Interface (S : Type 0) : Type 0 where
  pub name : Bytes
  pub methods : List (Bytes × (Message → S → Outcome S (Unit {0})))
  pub properties : List (Bytes × Property S)

pub record Object (S : Type 0) : Type 0 where
  pub path : Bytes
  pub interfaces : List (Bytes × Interface S)

pub record Handled (S : Type 0) : Type 0 where
  pub state : S
  pub sent : List Sent
  pub callbacks : List ℕ
  pub handled : Bool

abbrev pub unknown_interface : Failure
unknown_interface =
    dbus_exception (codes "org.freedesktop.DBus.Error.UnknownInterface") (codes "Unknown interface")

abbrev pub unknown_property : Failure
unknown_property =
    dbus_exception (codes "org.freedesktop.DBus.Error.UnknownProperty") (codes "Unknown property")

abbrev pub wrong_type : Failure
wrong_type = dbus_exception invalid_args (codes "Invalid variant signature for property")

-- `GetOne<std::string>`, with the arguments after it
abbrev pub text_arg : List Payload → Result Failure (Bytes × List Payload)
text_arg (basic c v ∷ ps) = if c == b's' then ok (v, ps) else err mismatch
text_arg _ = err mismatch

-- `GetArgs`: it is an error if there is none.
abbrev pub some_args : List Payload → Result Failure (List Payload)
some_args [] = err (dbus_exception invalid_args (codes "Message has no arguments"))
some_args (p ∷ ps) = ok (p ∷ ps)

-- `GetArgs<std::string, std::string>`
unfoldable pub text_args : List Payload → Result Failure (Bytes × Bytes × List Payload)
text_args ps = do
  args ← some_args ps
  (first, later) ← text_arg args
  (second, rest) ← text_arg later
  ok (first, second, rest)

-- `InterfaceName`, from an argument
abbrev pub target_interface : Bytes → Result Failure Bytes
target_interface s =
    or_throw (interface_name s) (standard (codes "Invalid D-Bus InterfaceName: " ++ s))

module _ {A : Type 0} where
  unfoldable pub find_name : Bytes → List (Bytes × A) → Option A
  find_name n [] = none
  find_name n ((k, a) ∷ t) = if list_beq k n then some a else find_name n t

abbrev pub failed : {S A : Type 0} → S → Failure → Outcome S A
failed s e = record { state = s; sent = []; result = err e }

module _ {S : Type 0} where
  -- A handler that returned has handled the call.
  abbrev pub handles : Outcome S (Unit {0}) → Outcome S Bool
  handles out = record {
    state = out.state;
    sent = out.sent;
    result = elim out.result [ ok u ↦ ok true | err e ↦ err e ];
  }

  -- `Properties.Set` of a property with a type and a setter for its value (`RegisterProperty`)
  unfoldable pub property_setter :
      Bytes → (Payload → S → Outcome S (Unit {0})) → Message → S → Outcome S (Unit {0})
  unfolding text_args variant_arg
  property_setter expected set c s =
      elim (do (interface, property, rest) ← text_args c.args; variant_arg rest) [
        | err e ↦ failed s e
        | ok value ↦
            if list_beq (signature value) expected then set value s else failed s wrong_type
      ]

  -- `Interface::HandleGetProperty`
  unfoldable pub handle_get_property :
      Interface S → Message → Bytes → Bytes → S → Outcome S (Unit {0})
  unfolding find_name require
  handle_get_property i c interface name s =
      elim (do
        require (list_beq interface i.name) unknown_interface
        property ← or_throw (find_name name i.properties) unknown_property
        getter ← or_throw property.getter unknown_property
        getter s) [
          | err e ↦ failed s e
          | ok value ↦ record {
            state = s;
            sent = answer c.serial (variant value ∷ []) ∷ [];
            result = ok tt;
          }
        ]

  -- `Interface::HandleSetProperty`
  unfoldable pub handle_set_property :
      Interface S → Message → Bytes → Bytes → S → Outcome S (Unit {0})
  unfolding find_name require
  handle_set_property i c interface name s =
      elim (do
        require (list_beq interface i.name) unknown_interface
        property ← or_throw (find_name name i.properties) unknown_property
        or_throw property.setter unknown_property) [
          | err e ↦ failed s e
          | ok setter ↦
              let out = setter c s in
              elim out.result [
                | err e ↦ out
                | ok u ↦ record out { sent = out.sent ++ answer c.serial [] ∷ [] }
              ]
        ]

  -- The values of all properties with a getter, each out of a reply it was written to.
  unfoldable pub read_properties :
      List (Bytes × Property S) → S → Result Failure (List (Bytes × Payload))
  unfolding variant_arg
  read_properties [] s = ok []
  read_properties ((name, property) ∷ t) s = elim property.getter [
    | none ↦ read_properties t s
    | some getter ↦ do
      value ← getter s
      arg ← variant_arg (variant value ∷ [])
      rest ← read_properties t s
      ok ((name, arg) ∷ rest)
  ]

  -- `Interface::HandleGetAllProperties`
  unfoldable pub handle_get_all_properties :
      Interface S → Message → Bytes → S → Outcome S (Unit {0})
  unfolding read_properties require
  handle_get_all_properties i c interface s =
      elim (do
        require (list_beq interface i.name) unknown_interface
        read_properties i.properties s) [
          | err e ↦ failed s e
          | ok values ↦ record {
            state = s;
            sent = all_properties c.serial values ∷ [];
            result = ok tt;
          }
        ]

  -- `Interface::Dispatch`
  unfoldable pub dispatch : Interface S → Message → S → Outcome S Bool
  unfolding find_name
  dispatch i c s = elim (find_name c.member i.methods) [
    | none ↦ record { state = s; sent = []; result = ok false }
    | some method ↦
        if list_empty c.sender
        then failed s
            (dbus_exception (codes "org.freedesktop.DBus.Error.AccessDenied") (codes "No sender"))
        else handles (method c s)
  ]
