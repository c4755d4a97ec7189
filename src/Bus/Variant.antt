-- ===== src/Bus/Variant.antt =====
-- `DBusGetTraits<DBusVariant>::ReadValue` (src/dbus/dbus_wrapper.h): what a variant in a message may
-- hold. A value of a basic type or an array is the bytes that libdbus has for it.
use jappeos_core.Prelude.{
  ℕ, List, [], ◌∷◌, ◌++◌, if◌then◌else◌, any, list_beq, nat_eq, ◌==◌, Bytes, codes, Result, ok, err,
  ◌>>=◌,
}

-- An exception: a `DBusException` with its code and message, or another with what `what` returns.
pub data Failure : Type 0 where
  dbus_exception : Bytes → Bytes → Failure
  standard : Bytes → Failure

mutual
  pub data Payload : Type 0 where
    basic : ℕ → Bytes → Payload
    array : Bytes → Bytes → Payload
    structure : Payloads → Payload
    variant : Payload → Payload

  pub data Payloads : Type 0 where
    no_fields : Payloads
    field : Payload → Payloads → Payloads

abbrev pub invalid_args : Bytes
invalid_args = codes "org.freedesktop.DBus.Error.InvalidArgs"

abbrev pub mismatch : Failure
mismatch = dbus_exception invalid_args (codes "D-Bus argument type mismatch")

abbrev unsupported : Failure
unsupported = dbus_exception invalid_args (codes "Unsupported variant payload")

abbrev unsupported_array : Bytes → Failure
unsupported_array sig =
    dbus_exception invalid_args (codes "Unsupported variant array payload: " ++ sig)

abbrev readable_arrays : List Bytes
readable_arrays =
    codes "ab"
    ∷ codes "ai"
    ∷ codes "au"
    ∷ codes "ax"
    ∷ codes "at"
    ∷ codes "ad"
    ∷ codes "as"
    ∷ codes "ao"
    ∷ []

-- `DBusVariant::signature`, as `ReadValue` makes it
unfoldable mutual
  pub signature : Payload → Bytes
  signature (basic c v) = c ∷ []
  signature (array e v) = b'a' ∷ e
  signature (structure ps) = codes "(" ++ signatures ps ++ codes ")"
  signature (variant p) = codes "v"

  signatures : Payloads → Bytes
  signatures no_fields = []
  signatures (field p ps) = signature p ++ signatures ps

-- `ReadValue`, `ReadArray` and `ReadStruct`
unfoldable mutual
  pub read_value : Payload → Result Failure Payload
  read_value (basic c v) =
      if any (λ d. c == d) (codes "biuxdtso") then ok (basic c v) else err unsupported
  read_value (array e v) =
      if any (list_beq (b'a' ∷ e)) readable_arrays
      then ok (array e v)
      else err (unsupported_array (b'a' ∷ e))
  read_value (variant p) = err unsupported
  read_value (structure ps) = do fields ← read_fields ps; ok (structure fields)

  pub read_fields : Payloads → Result Failure Payloads
  read_fields no_fields = ok no_fields
  read_fields (field p ps) = do first ← read_value p; rest ← read_fields ps; ok (field first rest)

-- `GetOne<DBusVariant>`, of the first argument that is left
unfoldable pub variant_arg : List Payload → Result Failure Payload
unfolding read_value
variant_arg (variant p ∷ ps) = read_value p
variant_arg _ = err mismatch
