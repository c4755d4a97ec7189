-- ===== src/Network/Data.antt =====
-- What the network manager service (src/services/network_manager/network_manager_service.cpp) keeps,
-- and what libnm tells it.
use jappeos_core.Prelude.{ℕ, Bool, false, Option, [], ◌∷◌, List, Bytes, nat_eq}
use jappeos_core.Network.Maps.{Map}

-- An object of libnm, as the values that its getters give.

-- `NMDeviceType`, as far as it is told apart
pub data DeviceKind : Type 0 where
  wifi : DeviceKind
  ethernet : DeviceKind
  other_kind : DeviceKind

-- `NMDeviceState`, as far as it is told apart
pub data NmState : Type 0 where
  activated : NmState
  prepare : NmState
  config : NmState
  need_auth : NmState
  disconnected : NmState
  unavailable : NmState
  other_state : NmState

-- The flags of an access point that are looked at.
pub record SecurityFlags : Type 0 where
  pub privacy : Bool
  pub sae : Bool
  pub suite_b : Bool
  pub owe : Bool
  pub owe_tm : Bool
  pub rsn_psk : Bool
  pub rsn_enterprise : Bool
  pub wpa_psk : Bool
  pub wpa_enterprise : Bool

pub record NmAccessPoint : Type 0 where
  pub path : Option Bytes
  pub ssid : Bytes
  pub flags : SecurityFlags
  pub strength : ℕ
  pub frequency : ℕ

-- A saved profile: the SSID if it is a wireless one.
pub record NmProfile : Type 0 where
  pub wireless_ssid : Option Bytes

pub record NmDevice : Type 0 where
  pub iface : Option Bytes
  pub kind : DeviceKind
  pub managed : Bool
  pub hw_address : Option Bytes
  pub state : NmState
  pub access_points : List NmAccessPoint
  pub active_access_point : Option Bytes
  pub available_connections : List NmProfile

-- `NMActiveConnectionState`, as far as it is told apart
pub data ConnectionState : Type 0 where
  connection_unknown : ConnectionState
  activating : ConnectionState
  connected : ConnectionState
  deactivating : ConnectionState
  deactivated : ConnectionState

-- `NMActiveConnectionStateReason`
pub data NmReason : Type 0 where
  reason_none : NmReason
  reason_user_disconnected : NmReason
  reason_device_disconnected : NmReason
  reason_service_stopped : NmReason
  reason_ip_config_invalid : NmReason
  reason_connect_timeout : NmReason
  reason_service_start_timeout : NmReason
  reason_service_start_failed : NmReason
  reason_no_secrets : NmReason
  reason_login_failed : NmReason
  reason_connection_removed : NmReason
  reason_dependency_failed : NmReason
  reason_device_realize_failed : NmReason
  reason_device_removed : NmReason
  reason_unknown : NmReason

-- An active connection; libnm gives every one a UUID.
pub record NmActive : Type 0 where
  pub uuid : Bytes
  pub path : Option Bytes
  pub type : Option Bytes
  pub state : ConnectionState
  pub reason : NmReason

-- What the service keeps.

-- `NetworkAccessPoint`
pub record AccessPoint : Type 0 where
  pub ssid : Bytes
  pub strength : ℕ
  pub security : Bytes
  pub frequency : ℕ
  pub connected : Bool

-- `NetworkDevice`; `wifi` tells a `NetworkWifiDevice`.
pub record NetworkDevice : Type 0 where
  pub id : Bytes
  pub type : Bytes
  pub state : Bytes
  pub hw_address : Bytes
  pub managed : Bool
  pub active_connection : Bytes
  pub is_wifi : Bool
  pub access_points : Map AccessPoint

-- `NetworkConnection`
pub record NetworkConnection : Type 0 where
  pub id : Bytes
  pub type : Bytes
  pub state : Bytes
  pub nm_active_path : Option Bytes

-- `PendingWifiConnectRequest`
pub record PendingRequest : Type 0 where
  pub request_id : ℕ
  pub device_path : Bytes
  pub ssid : Bytes

-- The security setting of a new profile.
pub record WifiSecurity : Type 0 where
  pub key_mgmt : Bytes
  pub psk : Option Bytes
  pub wep_key0 : Option Bytes

-- libnm's two calls: with a saved profile, or with the SSID and the security of a new one; and the
-- path of the access point.
pub data Call : Type 0 where
  activate_connection : NmProfile → Bytes → Call
  add_and_activate_connection : Bytes → Option WifiSecurity → Bytes → Call

-- `WifiConnectAsyncContext`, with the call that it was handed to.
pub record Context : Type 0 where
  pub call : Call
  pub request_id : ℕ
  pub device_path : Bytes
  pub ssid : Bytes

-- Signals on the bus, and the events that the service raises.
pub data Signal : Type 0 where
  device_added : Bytes → Signal
  device_removed : Bytes → Signal
  access_point_added : Bytes → Bytes → Signal
  access_point_removed : Bytes → Bytes → Signal
  connect_result : Bytes → ℕ → Bool → Bytes → Bytes → Signal
  connection_added : Bytes → Signal
  connection_removed : Bytes → Signal

-- `started` holds the contexts of the calls that libnm has not answered, and `signals` what was
-- sent, the last first.
pub record NetworkManager : Type 0 where
  pub is_available : Bool
  pub devices : Map NetworkDevice
  pub connections : Map NetworkConnection
  pub pending : Map PendingRequest
  pub next_request_id : ℕ
  pub started : List Context
  pub signals : List Signal

abbrev pub new_network_manager : NetworkManager
new_network_manager = record {
  is_available = false;
  devices = [];
  connections = [];
  pending = [];
  next_request_id = 1;
  started = [];
  signals = [];
}

abbrev pub emit : Signal → NetworkManager → NetworkManager
emit x s = record s { signals = x ∷ s.signals }
