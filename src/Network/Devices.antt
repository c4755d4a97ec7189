-- ===== src/Network/Devices.antt =====
-- The devices and connections (src/services/network_manager/network_manager_service.cpp). A function
-- gives false beside its state where an exception ends it.
use jappeos_core.Prelude.{
  Bool, true, false, Option, none, some, List, [], ◌∷◌, if◌then◌else◌, list_beq, nat_eq, Bytes,
  codes,
}
use jappeos_core.Bus.ObjectPath.{root}
use jappeos_core.Network.Maps.{keys, find, contains, erase, update}
use jappeos_core.Network.Data.{
  DeviceKind, wifi, ethernet, other_kind, NmDevice, NmActive, NetworkDevice, NetworkConnection,
  Signal, device_added, device_removed, connection_added, connection_removed, NetworkManager, emit,
}
use jappeos_core.Network.Texts.{
  device_path, connection_path, device_type_string, device_state_string, connection_state_string,
}
use jappeos_core.Network.AccessPoints.{sync_wifi_access_points}
use jappeos_core.Network.Pending.{
  fail_pending_wifi_connect_requests_for_device, fail_all_pending_wifi_connect_requests,
  resolve_pending_wifi_connect_request,
}

abbrev pub Done : Type 0
Done = Bool × NetworkManager

-- The properties of a device that is added.
unfoldable pub describe_device : Bytes → NmDevice → NetworkDevice
describe_device iface d = record {
  id = iface;
  type = device_type_string d.kind;
  state = device_state_string d.state;
  hw_address = elim d.hw_address [ none ↦ [] | some hw ↦ hw ];
  managed = d.managed;
  active_connection = root;
  is_wifi = elim d.kind [ wifi ↦ true | _ ↦ false ];
  access_points = [];
}

-- `SyncWifiAccessPoints` for a device of the service.
unfoldable pub sync_device : Bytes → NmDevice → NetworkDevice → NetworkManager → Done
unfolding sync_wifi_access_points update
sync_device path d dev s =
    let (returned, (points, sent)) =
      sync_wifi_access_points path d.active_access_point d.access_points dev.access_points
        s.signals in
    (
      returned,
      record s {
        devices = update path (λ x. record x { access_points = points }) s.devices;
        signals = sent;
      },
    )

unfoldable pub enter_device : Bytes → Bytes → NmDevice → NetworkManager → NetworkManager
unfolding describe_device
enter_device path iface d s =
    emit (device_added path) (record s { devices = (path, describe_device iface d) ∷ s.devices })

-- The two kinds of device that are added; the access points of a Wi-Fi device are added with it.
unfoldable pub add_by_kind : DeviceKind → Bytes → Bytes → NmDevice → NetworkManager → Done
unfolding enter_device sync_device describe_device
add_by_kind wifi path iface d s =
    sync_device path d (describe_device iface d) (enter_device path iface d s)
add_by_kind ethernet path iface d s = (true, enter_device path iface d s)
add_by_kind other_kind path iface d s = (true, s)

-- `AddDevice`
unfoldable pub add_device : NmDevice → NetworkManager → Done
unfolding device_path contains add_by_kind
add_device d s = elim d.iface [
  | none ↦ (true, s)
  | some iface ↦ elim (device_path d) [
    | none ↦ (false, s)
    | some path ↦ if contains path s.devices then (true, s) else add_by_kind d.kind path iface d s
  ]
]

-- `DiscoverDevices`
unfoldable pub discover_devices : List NmDevice → NetworkManager → Done
unfolding add_device
discover_devices [] s = (true, s)
discover_devices (d ∷ ds) s =
    let (returned, s') = add_device d s in
    let rest = discover_devices ds s' in if returned then rest else (false, s')

-- The connection of a device that is removed goes with it; the event names the device.
abbrev pub drop_connection : Bytes → Bytes → NetworkManager → NetworkManager
unfolding erase
drop_connection connection named s =
    if list_beq connection root
    then s
    else emit (connection_removed named) (record s { connections = erase connection s.connections })

unfoldable pub remove_found : Bytes → NetworkDevice → NetworkManager → NetworkManager
unfolding fail_pending_wifi_connect_requests_for_device erase
remove_found path dev s =
    let told =
      fail_pending_wifi_connect_requests_for_device path (codes "device_removed")
        (codes "Device disappeared during connection attempt") (emit (device_removed path) s) in
    let dropped = drop_connection dev.active_connection path told in
    record dropped { devices = erase path dropped.devices }

-- `FindDevice`: the device and its path.
unfoldable pub find_device : NmDevice → NetworkManager → Option (Bytes × NetworkDevice)
unfolding device_path find
find_device d s = elim (device_path d) [
  | none ↦ none
  | some path ↦ elim (find path s.devices) [ none ↦ none | some dev ↦ some (path, dev) ]
]

-- `RemoveDevice`
unfoldable pub remove_device : NmDevice → NetworkManager → NetworkManager
unfolding find_device remove_found
remove_device d s = elim (find_device d s) [ none ↦ s | some (path, dev) ↦ remove_found path dev s ]

unfoldable pub set_device :
    Bytes → (NetworkDevice → NetworkDevice) → NetworkManager → NetworkManager
unfolding update
set_device path f s = record s { devices = update path f s.devices }

-- `OnDeviceStateChanged`
unfoldable pub on_device_state_changed : NmDevice → NetworkManager → NetworkManager
unfolding find_device set_device
on_device_state_changed d s = elim (find_device d s) [
  | none ↦ s
  | some (path, dev) ↦ set_device path (λ x. record x { state = device_state_string d.state }) s
]

-- `OnDeviceManagedChanged`
unfoldable pub on_device_managed_changed : NmDevice → NetworkManager → NetworkManager
unfolding find_device set_device
on_device_managed_changed d s = elim (find_device d s) [
  | none ↦ s
  | some (path, dev) ↦ set_device path (λ x. record x { managed = d.managed }) s
]

-- `OnWifiDeviceAccessPointsChanged` and `OnWifiDeviceActiveAccessPointChanged`
unfoldable pub on_wifi_device_access_points_changed : NmDevice → NetworkManager → Done
unfolding find_device sync_device
on_wifi_device_access_points_changed d s = elim (find_device d s) [
  | none ↦ (true, s)
  | some (path, dev) ↦ sync_device path d dev s
]

-- `EnsureConnectionObject`, without the addresses and the strength of the signal. libnm
-- gives every active connection a path; without one, the source would make a string of a null
-- pointer, and the model keeps that there is none.
unfoldable pub ensure_connection_object : NmActive → Bytes → NetworkManager → NetworkManager
unfolding contains
ensure_connection_object ac path s =
    let c : NetworkConnection = record {
      id = ac.uuid;
      type = elim ac.type [ none ↦ codes "unknown" | some t ↦ t ];
      state = connection_state_string ac.state;
      nm_active_path = ac.path;
    } in
    if contains path s.connections
    then s
    else emit (connection_added path) (record s { connections = (path, c) ∷ s.connections })

-- The part of `OnDeviceActiveConnectionChanged` for a device without active connection.
unfoldable pub drop_active : Bytes → NetworkDevice → NetworkManager → NetworkManager
unfolding set_device erase
drop_active path dev s =
    set_device path (λ x. record x { active_connection = root })
      (drop_connection dev.active_connection dev.active_connection s)

unfoldable pub set_active : NmActive → Bytes → Bytes → NetworkManager → NetworkManager
unfolding ensure_connection_object set_device
set_active ac connection path s =
    set_device path (λ x. record x { active_connection = connection })
      (ensure_connection_object ac connection s)

-- `OnDeviceActiveConnectionChanged`
unfoldable pub on_device_active_connection_changed :
    NmDevice → Option NmActive → NetworkManager → Done
unfolding find_device drop_active set_active connection_path
on_device_active_connection_changed d ac s = elim (find_device d s) [
  | none ↦ (true, s)
  | some (path, dev) ↦ elim ac [
    | none ↦ (true, drop_active path dev s)
    | some a ↦ elim (connection_path a) [
      | none ↦ (false, s)
      | some connection ↦ (true, set_active a connection path s)
    ]
  ]
]

-- `FindConnection`, as the path of the connection.
unfoldable pub find_connection : NmActive → NetworkManager → Option Bytes
unfolding connection_path contains
find_connection ac s = elim (connection_path ac) [
  | none ↦ none
  | some path ↦ if contains path s.connections then some path else none
]

-- `OnActiveConnectionStateChanged`
unfoldable pub on_active_connection_state_changed : NmActive → NetworkManager → NetworkManager
unfolding resolve_pending_wifi_connect_request find_connection update
on_active_connection_state_changed ac s =
    let told = resolve_pending_wifi_connect_request ac s in
    elim (find_connection ac told) [
      | none ↦ told
      | some path ↦ record told {
        connections =
            update path (λ c. record c { state = connection_state_string ac.state })
              told.connections;
      }
    ]

abbrev pub emit_each : (Bytes → Signal) → List Bytes → NetworkManager → NetworkManager
emit_each f [] s = s
emit_each f (p ∷ ps) s = emit_each f ps (emit (f p) s)

-- `OnNetworkManagerDisappeared`
unfoldable pub on_network_manager_disappeared : NetworkManager → NetworkManager
unfolding fail_all_pending_wifi_connect_requests
on_network_manager_disappeared s =
    let told =
      fail_all_pending_wifi_connect_requests (codes "network_manager_unavailable")
        (codes "NetworkManager disappeared during connection attempt") s in
    let events = emit_each connection_removed (keys told.connections) told in
    let sent = emit_each device_removed (keys events.devices) events in
    let left = record sent { is_available = false; devices = []; connections = [] } in
    if s.is_available then left else s

-- `TryInitNetworkManager`: the devices of libnm's new client, if it can be made.
unfoldable pub try_init_network_manager : Option (List NmDevice) → NetworkManager → Done
unfolding discover_devices
try_init_network_manager client s = elim client [
  | none ↦ (true, record s { is_available = false })
  | some ds ↦ discover_devices ds (record s { is_available = true })
]

-- `OnNetworkManagerAppeared`
unfoldable pub on_network_manager_appeared : Option (List NmDevice) → NetworkManager → Done
unfolding try_init_network_manager
on_network_manager_appeared client s =
    let init = try_init_network_manager client s in if s.is_available then (true, s) else init

-- `OnNameOwnerChanged`
unfoldable pub on_name_owner_changed :
    Bytes → Bytes → Option (List NmDevice) → NetworkManager → Done
unfolding on_network_manager_appeared on_network_manager_disappeared
on_name_owner_changed name owner client s =
    if list_beq name (codes "org.freedesktop.NetworkManager")
    then if list_beq owner []
      then (true, on_network_manager_disappeared s)
      else on_network_manager_appeared client s
    else (true, s)
