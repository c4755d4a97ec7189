-- ===== src/Power/Tests.antt =====
-- A battery that is taken out, for src/services/power_manager/power_manager_service.cpp.
use jappeos_core.Prelude.{◌≡◌, refl, false, [], ◌∷◌, Bytes, codes, ok, err}
use jappeos_core.Network.Maps.{contains}
use jappeos_core.Power.Devices.{
  battery_path, remove_battery, init_power_manager, cleanup_power_manager, new_power_manager,
  battery_added, battery_removed, PowerManager, unknown_user, forward, on_list_battery_devices,
}
use jappeos_core.Power.Removed.{run_power, removals, turns_off, run_power-removals}

abbrev upower : Bytes
upower = codes "/org/freedesktop/UPower/devices/battery_BAT0"

abbrev battery : Bytes
battery = codes "/org/jappeos/Core/PowerManagerService/Battery/battery_BAT0"

run_power-removals_example :
    let s =
      (remove_battery upower (
        run_power
          (turns_off (codes "Suspend") (ok tt) ∷ [])
          (init_power_manager (upower ∷ []) new_power_manager).1)).1 in
    (removals s ≡ 0) × (contains battery s.batteries ≡ false)
unfolding battery_path
run_power-removals_example =
    run_power-removals (upower ∷ []) (turns_off (codes "Suspend") (ok tt) ∷ []) upower battery refl

abbrev up : PowerManager
unfolding init_power_manager
up = (init_power_manager (upower ∷ []) new_power_manager).1

announces : up.sent ≡ battery_added battery ∷ []
unfolding init_power_manager
announces = refl

tells_at_the_end :
    (cleanup_power_manager up).sent ≡ battery_removed battery ∷ battery_added battery ∷ []
unfolding cleanup_power_manager init_power_manager
tells_at_the_end = refl

lists : on_list_battery_devices (ok tt) up ≡ ok (battery ∷ [])
unfolding on_list_battery_devices init_power_manager
lists = refl

refuses : (forward (codes "PowerOff") (err unknown_user) up).1.called ≡ []
unfolding forward init_power_manager
refuses = refl
