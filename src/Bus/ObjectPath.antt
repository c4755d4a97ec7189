-- ===== src/Bus/ObjectPath.antt =====
-- `ObjectPath` and `InterfaceName` (src/dbus/dbus_wrapper.cpp), as the texts that they hold; a
-- constructor that throws is `none`.
use jappeos_core.Prelude.{
  ℕ, Bool, false, ◌&&◌, ◌||◌, not, Option, none, some, [], ◌∷◌, ◌++◌, if◌then◌else◌, ◌==◌, nat_eq,
  leb, list_beq, list_empty, every, Bytes, pieces, split_last, ends_with,
}

-- `IsAsciiAlpha`
abbrev pub is_ascii_alpha : ℕ → Bool
is_ascii_alpha c = leb b'A' c && leb c b'Z' || leb b'a' c && leb c b'z'

-- `IsAsciiDigit`
abbrev pub is_ascii_digit : ℕ → Bool
is_ascii_digit c = leb b'0' c && leb c b'9'

-- `IsAsciiAlnum`
abbrev pub is_ascii_alnum : ℕ → Bool
is_ascii_alnum c = is_ascii_alpha c || is_ascii_digit c

abbrev pub is_name_byte : ℕ → Bool
is_name_byte c = is_ascii_alnum c || c == b'_'

-- `ObjectPath::IsValidElement`
abbrev pub is_valid_element : Bytes → Bool
is_valid_element s = not (list_empty s) && every is_name_byte s

abbrev pub is_valid_below : Bytes → Bool
unfolding pieces
is_valid_below s = if ends_with b'/' s then false else every is_valid_element (pieces b'/' s)

-- `ObjectPath::IsValid`: the loop goes over the pieces behind the first slash.
unfoldable pub is_valid_path : Bytes → Bool
unfolding pieces
is_valid_path [] = false
is_valid_path (c ∷ []) = c == b'/'
is_valid_path (c ∷ d ∷ s) = if c == b'/' then is_valid_below (d ∷ s) else false

-- `ObjectPath::ObjectPath`
unfoldable pub object_path : Bytes → Option Bytes
unfolding is_valid_path
object_path s = if is_valid_path s then some s else none

abbrev pub root : Bytes
root = b'/' ∷ []

-- `ObjectPath::Leaf`
unfoldable pub leaf : Bytes → Bytes
unfolding split_last
leaf p = if list_beq p root then [] else elim (split_last b'/' p) [ none ↦ p | some (k, v) ↦ v ]

-- `ObjectPath::Child`
unfoldable pub child : Bytes → Bytes → Option Bytes
unfolding object_path
child p e =
    if is_valid_element e
    then object_path (if list_beq p root then b'/' ∷ e else p ++ b'/' ∷ e)
    else none

abbrev pub parent_of : Bytes → Option (Bytes × Bytes) → Option Bytes
unfolding object_path
parent_of p none = object_path p
parent_of p (some ([], v)) = object_path root
parent_of p (some (c ∷ k, v)) = object_path (c ∷ k)

-- `ObjectPath::Parent`
unfoldable pub parent : Bytes → Option Bytes
unfolding object_path split_last
parent p = if list_beq p root then some p else parent_of p (split_last b'/' p)

-- `InterfaceName::IsValidSegment`
abbrev pub is_valid_segment : Bytes → Bool
is_valid_segment [] = false
is_valid_segment (c ∷ s) = if is_ascii_alpha c || c == b'_' then every is_name_byte s else false

-- `InterfaceName::IsValid`
unfoldable pub is_valid_interface : Bytes → Bool
unfolding pieces
is_valid_interface s = every is_valid_segment (pieces b'.' s) && not (list_empty s)

-- `InterfaceName::InterfaceName`
unfoldable pub interface_name : Bytes → Option Bytes
unfolding is_valid_interface
interface_name s = if is_valid_interface s then some s else none

-- `InterfaceName::Child`
unfoldable pub interface_child : Bytes → Bytes → Option Bytes
unfolding interface_name
interface_child n s = if is_valid_segment s then interface_name (n ++ b'.' ∷ s) else none

abbrev interface_parent_of : Bytes → Option (Bytes × Bytes) → Option Bytes
unfolding interface_name
interface_parent_of n none = some n
interface_parent_of n (some (k, v)) = interface_name k

-- `InterfaceName::Parent`
unfoldable pub interface_parent : Bytes → Option Bytes
unfolding interface_name split_last
interface_parent n = interface_parent_of n (split_last b'.' n)
