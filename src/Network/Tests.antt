-- ===== src/Network/Tests.antt =====
-- A Wi-Fi device that connects, for src/services/network_manager/network_manager_service.cpp.
use jappeos_core.Prelude.{
  ◌≤◌, ◌≡◌, refl, true, false, none, some, List, [], ◌∷◌, Bytes, codes, ok, err, arith, nat_eq,
}
use jappeos_core.Network.Maps.{keys, find, contains}
use jappeos_core.Network.Data.{
  reason_none, wifi, disconnected, NmAccessPoint, NmDevice, NmActive, NetworkDevice, NetworkManager,
  activating, connected, new_network_manager,
}
use jappeos_core.Network.Texts.{connection_path}
use jappeos_core.Network.Pending.{accepted}
use jappeos_core.Network.Devices.{find_device, remove_device, on_device_active_connection_changed}
use jappeos_core.Network.Wifi.{
  WifiRequest, wifi_connect, no_access_point, configure_wifi_security, secret_required,
}
use jappeos_core.Network.History.{
  NetworkEvent, name_owner_changed, connection_state_changed, connect_called, answered, run,
}
use jappeos_core.Network.Results.{tally, results}
use jappeos_core.Network.Once.{run-tally}
use jappeos_core.Network.Mirror.{mirror}
use jappeos_core.Network.Followed.{run-mirror}
use jappeos_core.Network.Stale.{switch-remove}

abbrev home : NmAccessPoint
home = record {
  path = some (codes "/ap/1");
  ssid = codes "home";
  flags = record {
    privacy = true;
    sae = false;
    suite_b = false;
    owe = false;
    owe_tm = false;
    rsn_psk = true;
    rsn_enterprise = false;
    wpa_psk = false;
    wpa_enterprise = false;
  };
  strength = 70;
  frequency = 2412;
}

abbrev wlan : NmDevice
wlan = record {
  iface = some (codes "wlan0");
  kind = wifi;
  managed = true;
  hw_address = none;
  state = disconnected;
  access_points = home ∷ [];
  active_access_point = none;
  available_connections = [];
}

abbrev wlan_path : Bytes
wlan_path = codes "/org/jappeos/Core/NetworkManagerService/Devices/wlan0"

abbrev link : NmActive
link = record {
  uuid = codes "a1";
  path = some (codes "/active/1");
  type = none;
  state = activating;
  reason = reason_none;
}

abbrev request : WifiRequest
request = record { ssid = codes "home"; security = []; secret = codes "secret" }

abbrev connects : List NetworkEvent
connects =
    name_owner_changed (codes "org.freedesktop.NetworkManager") (codes ":1.7") (some (wlan ∷ []))
    ∷ connect_called (ok tt) (some wlan) wlan_path request
    ∷ answered 1 (accepted link)
    ∷ connection_state_changed (record link { state = connected })
    ∷ connection_state_changed (record link { state = connected })
    ∷ []

-- The first request has got its result.
tells_once : results 1 (run connects new_network_manager).signals ≡ 1
unfolding run
tells_once = refl

run-tally_example : tally 1 (run connects new_network_manager) ≤ 1
run-tally_example = run-tally connects 1 (omega arith)

run-mirror_example :
    keys (run connects new_network_manager).devices
    ≡ mirror (run connects new_network_manager).signals
run-mirror_example = run-mirror connects

abbrev other_link : NmActive
other_link = record link { uuid = codes "b2" }

abbrev link_path : Bytes
link_path = codes "/org/jappeos/Core/NetworkManagerService/Connections/a1"

abbrev on_link : NetworkDevice
on_link = record {
  id = codes "wlan0";
  type = codes "wifi";
  state = codes "connected";
  hw_address = [];
  managed = true;
  active_connection = link_path;
  is_wifi = true;
  access_points = [];
}

abbrev linked : NetworkManager
linked = record new_network_manager {
  is_available = true;
  devices = (wlan_path, on_link) ∷ [];
  connections =
      (
        link_path,
        record {
          id = codes "a1";
          type = codes "unknown";
          state = codes "activated";
          nm_active_path = some (codes "/active/1");
        },
      )
      ∷ [];
}

switch-remove_example :
    let t =
      remove_device wlan (on_device_active_connection_changed wlan (some other_link) linked).1 in
    (contains link_path t.connections ≡ true) × (find wlan_path t.devices ≡ none)
unfolding find_device contains connection_path
switch-remove_example =
    switch-remove wlan other_link linked wlan_path
      (codes "/org/jappeos/Core/NetworkManagerService/Connections/b2") on_link refl refl refl refl

needs_secret : configure_wifi_security (codes "wpa3") [] ≡ err secret_required
unfolding configure_wifi_security
needs_secret = refl

nothing_visible :
    (wifi_connect (ok tt) (some wlan) wlan_path (record request { ssid = codes "work" }) linked).0
    ≡ err no_access_point
unfolding wifi_connect
nothing_visible = refl
