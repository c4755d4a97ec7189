-- ===== src/Power/Devices.antt =====
-- `PowerManagerService` (src/services/power_manager/power_manager_service.cpp). What UPower says is
-- given to the functions; one that an exception ends gives false beside its state.
use jappeos_core.Prelude.{
  Bool, true, false, Option, none, some, List, [], ◌∷◌, if◌then◌else◌, nat_eq, Bytes, codes, Result,
  ok, err, ◌>>◌, require,
}
use jappeos_core.Sessions.Data.{World, SessionManager}
use jappeos_core.Sessions.Requests.{Caller, is_managed_user_session, is_privileged_client_process}
use jappeos_core.Bus.ObjectPath.{child, leaf}
use jappeos_core.Network.Maps.{Map, keys, contains, erase}

pub data PowerSignal : Type 0 where
  battery_added : Bytes → PowerSignal
  battery_removed : Bytes → PowerSignal

-- The batteries with UPower's paths; what was sent and which methods of logind were called, the
-- last first.
pub record PowerManager : Type 0 where
  pub is_up : Bool
  pub batteries : Map Bytes
  pub sent : List PowerSignal
  pub called : List Bytes

abbrev pub new_power_manager : PowerManager
new_power_manager = record { is_up = false; batteries = []; sent = []; called = [] }

abbrev power_base : Bytes
power_base = codes "/org/jappeos/Core/PowerManagerService"

-- `GetBaseObjectPath().Child("Battery").Child(upowerPath.Leaf())`
unfoldable pub battery_path : Bytes → Option Bytes
unfolding child leaf
battery_path upower = elim (child power_base (codes "Battery")) [
  | none ↦ none
  | some p ↦ child p (leaf upower)
]

-- `AddDevice`
unfoldable pub add_battery : Bytes → PowerManager → Bool × PowerManager
unfolding battery_path contains
add_battery upower s = elim (battery_path upower) [
  | none ↦ (false, s)
  | some p ↦
      let added = record s {
        batteries = (p, upower) ∷ s.batteries;
        sent = battery_added p ∷ s.sent;
      } in
      (true, if contains p s.batteries then s else added)
]

-- `RemoveDevice`
unfoldable pub remove_battery : Bytes → PowerManager → Bool × PowerManager
unfolding battery_path erase
remove_battery upower s = elim (battery_path upower) [
  | none ↦ (false, s)
  | some p ↦ (true, record s { batteries = erase p s.batteries })
]

-- The loop of `DiscoverDevices`
unfoldable pub discover_batteries : List Bytes → PowerManager → Bool × PowerManager
unfolding add_battery
discover_batteries [] s = (true, s)
discover_batteries (u ∷ us) s =
    let (returned, s') = add_battery u s in
    let rest = discover_batteries us s' in if returned then rest else (false, s')

-- `InitPowerManager`
unfoldable pub init_power_manager : List Bytes → PowerManager → Bool × PowerManager
unfolding discover_batteries
init_power_manager us s =
    let (returned, s') = discover_batteries us s in
    if s.is_up then (true, s) else (returned, record s' { is_up = returned })

abbrev remove_each : List Bytes → List PowerSignal → List PowerSignal
remove_each [] xs = xs
remove_each (p ∷ ps) xs = remove_each ps (battery_removed p ∷ xs)

-- `CleanupPowerManager`
unfoldable pub cleanup_power_manager : PowerManager → PowerManager
cleanup_power_manager s =
    if s.is_up
    then record s { is_up = false; batteries = []; sent = remove_each (keys s.batteries) s.sent }
    else s

pub data PowerError : Type 0 where
  unknown_user : PowerError
  unauthorized_process : PowerError

-- `SharedPolicy`, which asks the session manager.
unfoldable pub power_policy : World → Caller → SessionManager → Result PowerError (Unit {0})
unfolding require
power_policy w c sessions = do
  require (is_managed_user_session c.uid sessions) unknown_user
  require (is_privileged_client_process w c.pid true sessions) unauthorized_process

-- `OnShutdown`, `OnReboot` and `OnSuspend`, which differ in the method of logind.
unfoldable pub forward :
    Bytes
    → Result PowerError (Unit {0})
    → PowerManager
    → Result PowerError (Unit {0}) × PowerManager
forward method (err e) s = (err e, s)
forward method (ok u) s = (ok u, record s { called = method ∷ s.called })

-- `OnListBatteryDevices`
unfoldable pub on_list_battery_devices :
    Result PowerError (Unit {0}) → PowerManager → Result PowerError (List Bytes)
on_list_battery_devices (err e) s = err e
on_list_battery_devices (ok u) s = ok (keys s.batteries)
