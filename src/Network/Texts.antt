-- ===== src/Network/Texts.antt =====
-- The paths and texts that the network manager service
-- (src/services/network_manager/network_manager_service.cpp) makes of what libnm tells it.
use jappeos_core.Prelude.{
  ℕ, Bool, true, false, ◌&&◌, ◌||◌, Option, none, some, map, if◌then◌else◌, leb, ◌+◌, Bytes, codes,
  nat_eq,
}
use jappeos_core.Bus.ObjectPath.{child}
use jappeos_core.Bus.Encoding.{encode_for_object_path}
use jappeos_core.Network.Data.{
  DeviceKind, wifi, ethernet, other_kind, NmState, activated, prepare, config, need_auth,
  disconnected, unavailable, other_state, SecurityFlags, NmDevice, ConnectionState,
  connection_unknown, activating, connected, deactivating, deactivated, NmReason, NmActive,
  reason_none, reason_user_disconnected, reason_device_disconnected, reason_service_stopped,
  reason_ip_config_invalid, reason_connect_timeout, reason_service_start_timeout,
  reason_service_start_failed, reason_no_secrets, reason_login_failed, reason_connection_removed,
  reason_dependency_failed, reason_device_realize_failed, reason_device_removed, reason_unknown,
}

-- `GetBaseObjectPath` of the service
abbrev pub base : Bytes
base = codes "/org/jappeos/Core/NetworkManagerService"

-- `path.Child(group).Child(EncodeForObjectPath(name))`; `none` is an exception.
unfoldable pub object_path_of : Bytes → Bytes → Bytes → Option Bytes
unfolding child encode_for_object_path
object_path_of path group name = elim (child path group) [
  | none ↦ none
  | some p ↦ child p (encode_for_object_path name)
]

-- `GetBaseObjectPath().Child("Devices")…` of a device; it has none without an interface name.
unfoldable pub device_path : NmDevice → Option Bytes
unfolding object_path_of
device_path d = elim d.iface [ none ↦ none | some i ↦ object_path_of base (codes "Devices") i ]

-- `GetBaseObjectPath().Child("Connections")…` of an active connection
unfoldable pub connection_path : NmActive → Option Bytes
unfolding object_path_of
connection_path c = object_path_of base (codes "Connections") c.uuid

-- `AccessPointSecurityToString`
unfoldable pub access_point_security : SecurityFlags → Bytes
access_point_security f =
    if not_private f
    then codes "open"
    else if f.sae || f.suite_b
    then codes "wpa3"
    else if f.owe || f.owe_tm
    then codes "owe"
    else if f.rsn_psk || f.rsn_enterprise
    then codes "wpa2"
    else if f.wpa_psk || f.wpa_enterprise
    then codes "wpa1"
    else codes "wep"
  where
    not_private : SecurityFlags → Bool
    not_private f = if f.privacy then false else true

-- `std::tolower`
abbrev lower : ℕ → ℕ
lower c = if leb b'A' c && leb c b'Z' then c + 32 else c

-- `NormalizeSecurity`
unfoldable pub normalize_security : Bytes → Bytes
normalize_security s = map lower s

-- `DeviceTypeToString`
abbrev pub device_type_string : DeviceKind → Bytes
device_type_string wifi = codes "wifi"
device_type_string ethernet = codes "ethernet"
device_type_string other_kind = codes "unknown"

-- `DeviceStateToString`
abbrev pub device_state_string : NmState → Bytes
device_state_string activated = codes "connected"
device_state_string prepare = codes "connecting"
device_state_string config = codes "connecting"
device_state_string need_auth = codes "connecting"
device_state_string disconnected = codes "disconnected"
device_state_string unavailable = codes "unavailable"
device_state_string other_state = codes "unavailable"

-- `ActiveConnectionStateToString`
abbrev pub connection_state_string : ConnectionState → Bytes
connection_state_string connected = codes "activated"
connection_state_string activating = codes "activating"
connection_state_string deactivating = codes "deactivating"
connection_state_string deactivated = codes "unknown"
connection_state_string connection_unknown = codes "unknown"

-- `ActiveConnectionStateReasonToString`
abbrev pub reason_string : NmReason → Bytes
reason_string reason_none = codes "none"
reason_string reason_user_disconnected = codes "userDisconnected"
reason_string reason_device_disconnected = codes "deviceDisconnected"
reason_string reason_service_stopped = codes "serviceStopped"
reason_string reason_ip_config_invalid = codes "ipConfigInvalid"
reason_string reason_connect_timeout = codes "connectTimeout"
reason_string reason_service_start_timeout = codes "serviceStartTimeout"
reason_string reason_service_start_failed = codes "serviceStartFailed"
reason_string reason_no_secrets = codes "noSecrets"
reason_string reason_login_failed = codes "loginFailed"
reason_string reason_connection_removed = codes "connectionRemoved"
reason_string reason_dependency_failed = codes "dependencyFailed"
reason_string reason_device_realize_failed = codes "deviceRealizeFailed"
reason_string reason_device_removed = codes "deviceRemoved"
reason_string reason_unknown = codes "unknown"
