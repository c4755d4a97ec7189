-- ===== src/Network/History.antt =====
-- Every history of the network manager service
-- (src/services/network_manager/network_manager_service.cpp): what libnm and the clients do to it, one
-- after another.
use jappeos_core.Prelude.{ℕ, Option, List, [], ◌∷◌, Result, Bytes}
use jappeos_core.Network.Data.{NmDevice, NmActive, NetworkManager}
use jappeos_core.Network.Pending.{Answer, on_answered}
use jappeos_core.Network.Devices.{
  add_device, remove_device, on_device_state_changed, on_device_managed_changed,
  on_wifi_device_access_points_changed, on_device_active_connection_changed,
  on_active_connection_state_changed, on_name_owner_changed,
}
use jappeos_core.Network.Wifi.{WifiError, WifiRequest, wifi_connect}

-- The callbacks and the methods that change the state, with what they are given.
pub data NetworkEvent : Type 0 where
  name_owner_changed : Bytes → Bytes → Option (List NmDevice) → NetworkEvent
  nm_device_added : NmDevice → NetworkEvent
  nm_device_removed : NmDevice → NetworkEvent
  state_changed : NmDevice → NetworkEvent
  managed_changed : NmDevice → NetworkEvent
  access_points_changed : NmDevice → NetworkEvent
  active_connection_changed : NmDevice → Option NmActive → NetworkEvent
  connection_state_changed : NmActive → NetworkEvent
  connect_called :
      Result WifiError (Unit {0}) → Option NmDevice → Bytes → WifiRequest → NetworkEvent
  answered : ℕ → Answer → NetworkEvent

-- What an event does; a state that an exception leaves is gone on with.
unfoldable pub step : NetworkEvent → NetworkManager → NetworkManager
unfolding on_name_owner_changed add_device remove_device on_device_state_changed
    on_device_managed_changed on_wifi_device_access_points_changed
    on_device_active_connection_changed on_active_connection_state_changed wifi_connect on_answered
step (name_owner_changed name owner client) s = (on_name_owner_changed name owner client s).1
step (nm_device_added d) s = (add_device d s).1
step (nm_device_removed d) s = remove_device d s
step (state_changed d) s = on_device_state_changed d s
step (managed_changed d) s = on_device_managed_changed d s
step (access_points_changed d) s = (on_wifi_device_access_points_changed d s).1
step (active_connection_changed d ac) s = (on_device_active_connection_changed d ac s).1
step (connection_state_changed ac) s = on_active_connection_state_changed ac s
step (connect_called policy found dev r) s = (wifi_connect policy found dev r s).1
step (answered id a) s = on_answered id a s

-- The events of a history, the first one first.
unfoldable pub run : List NetworkEvent → NetworkManager → NetworkManager
unfolding step
run [] s = s
run (e ∷ es) s = run es (step e s)
