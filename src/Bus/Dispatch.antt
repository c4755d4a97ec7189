-- ===== src/Bus/Dispatch.antt =====
-- `Object::HandleMessage` and `Connection::HandleMessage` (src/dbus/dbus_wrapper.h and
-- src/dbus/dbus_wrapper.cpp): how a method call finds its handler.
pub mod Replies
use jappeos_core.Prelude.{
  ℕ, ◌+◌, ◌≡◌, refl, inl, inr, Bool, true, false, not, Option, none, some, List, [], ◌∷◌, ◌++◌,
  if◌then◌else◌, Bool-cases, list_beq, nat_eq, ◌==◌, Bytes, codes, list_empty, Result, ok, err,
  ◌>>=◌, ◌>>◌, require, or_throw,
}
use jappeos_core.Bus.ObjectPath.{interface_name}
use jappeos_core.Bus.Subscriptions.{SignalKey, Signals, handle_signal}
use jappeos_core.Bus.Variant.{
  Failure, dbus_exception, standard, Payload, basic, signature, variant, variant_arg, mismatch,
  invalid_args,
}
use jappeos_core.Bus.Objects.{
  Message, Sent, answer, all_properties, failure, properties_changed, Outcome, Property, Interface,
  Object, Handled, unknown_interface, text_arg, some_args, text_args, target_interface, find_name,
  failed, handles, property_setter, handle_get_property, handle_set_property,
  handle_get_all_properties, dispatch,
}

module _ {S : Type 0} where
  abbrev find_interface : Object S → Bytes → Result Failure (Interface S)
  find_interface o target = or_throw (find_name target o.interfaces) unknown_interface

  -- The arguments of `Get`
  abbrev pub get_target : Object S → Message → Result Failure (Bytes × Bytes × Interface S)
  get_target o c = do
    (first, name, rest) ← text_args c.args
    target ← target_interface first
    i ← find_interface o target
    ok (target, name, i)

  -- The arguments of `Set`
  abbrev pub set_target : Object S → Message → Result Failure (Bytes × Bytes × Interface S)
  set_target o c = do
    (first, name, rest) ← text_args c.args
    value ← variant_arg rest
    target ← target_interface first
    i ← find_interface o target
    ok (target, name, i)

  -- The arguments of `GetAll`
  abbrev pub get_all_target : Object S → Message → Result Failure (Bytes × Interface S)
  get_all_target o c = do
    args ← some_args c.args
    (first, rest) ← text_arg args
    target ← target_interface first
    i ← find_interface o target
    ok (target, i)

  -- `Object::DispatchProperties`
  unfoldable pub dispatch_properties : Object S → Message → S → Outcome S Bool
  unfolding find_name text_args handle_get_property handle_set_property handle_get_all_properties
  dispatch_properties o c s =
      if list_beq c.member (codes "Get")
      then elim (get_target o c) [
        | err e ↦ failed s e
        | ok (target, name, i) ↦ handles (handle_get_property i c target name s)
      ]
      else if list_beq c.member (codes "Set")
      then elim (set_target o c) [
        | err e ↦ failed s e
        | ok (target, name, i) ↦ handles (handle_set_property i c target name s)
      ]
      else if list_beq c.member (codes "GetAll")
      then elim (get_all_target o c) [
        | err e ↦ failed s e
        | ok (target, i) ↦ handles (handle_get_all_properties i c target s)
      ]
      else record { state = s; sent = []; result = ok false }

  -- `Object::DispatchExceptionHandler`
  unfoldable pub dispatch_exception_handler : Message → Outcome S Bool → Handled S
  dispatch_exception_handler c out = elim out.result [
    | ok b ↦ record { state = out.state; sent = out.sent; callbacks = []; handled = b }
    | err (dbus_exception code text) ↦ record {
      state = out.state;
      sent = out.sent ++ failure c.serial code text ∷ [];
      callbacks = [];
      handled = true;
    }
    | err (standard text) ↦ record {
      state = out.state;
      sent = out.sent ++ failure c.serial (codes "org.freedesktop.DBus.Error.Failed") text ∷ [];
      callbacks = [];
      handled = true;
    }
  ]

  abbrev pub unhandled : S → Handled S
  unhandled s = record { state = s; sent = []; callbacks = []; handled = false }

  -- `Object::HandleMessage`
  unfoldable pub object_handle_message : Object S → Message → S → Handled S
  unfolding find_name dispatch dispatch_properties dispatch_exception_handler
  object_handle_message o c s = elim c.interface [
    | none ↦ unhandled s
    | some interface ↦
        if list_beq interface (codes "org.freedesktop.DBus.Properties")
        then dispatch_exception_handler c (dispatch_properties o c s)
        else elim (find_name interface o.interfaces) [
          | none ↦ unhandled s
          | some i ↦ dispatch_exception_handler c (dispatch i c s)
        ]
  ]

  -- `Connection::HandleMessage`; the callbacks of a signal are those to be called.
  unfoldable pub handle_message : Signals → List (Bytes × Object S) → Message → S → Handled S
  unfolding find_name handle_signal object_handle_message
  handle_message signals objects c s =
      if c.is_signal
      then elim c.interface [
        | none ↦ unhandled s
        | some interface ↦
            let key : SignalKey = record {
              interface = interface;
              member = c.member;
              path = c.path;
            } in
            elim (handle_signal key signals) [
              | none ↦ unhandled s
              | some callbacks ↦ record {
                state = s;
                sent = [];
                callbacks = callbacks;
                handled = true;
              }
            ]
      ]
      else elim c.path [
        | none ↦ unhandled s
        | some path ↦ elim (find_name path objects) [
          | none ↦ unhandled s
          | some o ↦ object_handle_message o c s
        ]
      ]
