-- ===== src/Power/Removed.antt =====
-- Batteries that UPower removes (src/services/power_manager/power_manager_service.cpp).
use jappeos_core.Prelude.{
  ℕ, ◌≡◌, refl, ◌∙◌, inl, inr, Bool, true, false, some, List, [], ◌∷◌, Bool-cases, Option-cases,
  nat_eq, list_beq, count_if, if_elim, Bytes, Result, ok, err, arith,
}
use jappeos_core.Network.Maps.{Map, contains, erase}
use jappeos_core.Power.Devices.{
  PowerSignal, battery_added, battery_removed, PowerManager, new_power_manager, battery_path,
  add_battery, remove_battery, discover_batteries, init_power_manager, PowerError, forward,
}

-- What happens to the service once it is up.
pub data PowerEvent : Type 0 where
  upower_adds : Bytes → PowerEvent
  upower_removes : Bytes → PowerEvent
  turns_off : Bytes → Result PowerError (Unit {0}) → PowerEvent

unfoldable pub run_power : List PowerEvent → PowerManager → PowerManager
unfolding add_battery remove_battery forward
run_power [] s = s
run_power (upower_adds u ∷ es) s = run_power es (add_battery u s).1
run_power (upower_removes u ∷ es) s = run_power es (remove_battery u s).1
run_power (turns_off method policy ∷ es) s = run_power es (forward method policy s).1

abbrev is_removal : PowerSignal → Bool
is_removal (battery_added p) = false
is_removal (battery_removed p) = true

-- How many signals say that a battery has gone.
abbrev pub removals : PowerManager → ℕ
removals s = count_if is_removal s.sent

add-removals : (u : Bytes) (s : PowerManager) → removals (add_battery u s).1 ≡ removals s
unfolding add_battery
add-removals u s = elim (Option-cases (battery_path u)) [
  | inl e ↦ rw (add_battery, e) refl
  | inr (p, e) ↦ elim (Bool-cases (contains p s.batteries)) [
    | inl f ↦ rw (add_battery, e, f) refl
    | inr f ↦ rw (add_battery, e, f) (omega arith)
  ]
]

remove-removals : (u : Bytes) (s : PowerManager) → removals (remove_battery u s).1 ≡ removals s
unfolding remove_battery
remove-removals u s = elim (Option-cases (battery_path u)) [
  | inl e ↦ rw (remove_battery, e) refl
  | inr (p, e) ↦ rw (remove_battery, e) refl
]

discover-removals :
    (us : List Bytes) (s : PowerManager) → removals (discover_batteries us s).1 ≡ removals s
unfolding discover_batteries
discover-removals [] s = refl
discover-removals (u ∷ us) s =
    if_elim (λ (x : Bool × PowerManager). removals x.1 ≡ removals s) (add_battery u s).0
      (λ e. discover-removals us (add_battery u s).1 ∙ add-removals u s) (λ e. add-removals u s)

run-removals : (es : List PowerEvent) (s : PowerManager) → removals (run_power es s) ≡ removals s
unfolding run_power forward
run-removals [] s = refl
run-removals (upower_adds u ∷ es) s = run-removals es (add_battery u s).1 ∙ add-removals u s
run-removals (upower_removes u ∷ es) s =
    run-removals es (remove_battery u s).1 ∙ remove-removals u s
run-removals (turns_off method (ok u) ∷ es) s = run-removals es _
run-removals (turns_off method (err e) ∷ es) s = run-removals es s

contains-erased : (k : Bytes) (m : Map Bytes) → contains k (erase k m) ≡ false
unfolding contains erase
contains-erased k [] = refl
contains-erased k ((j, a) ∷ m) = elim (Bool-cases (list_beq k j)) [
  | inl e ↦ rw e (contains-erased k m)
  | inr e ↦ rw (e, contains, e) (contains-erased k m)
]

-- In every history of a service that has come up and is not destroyed yet, no BatteryDeviceRemoved
-- signal is sent, although a battery that UPower removes is not listed any more.
pub run_power-removals :
    (found : List Bytes) (es : List PowerEvent) (u p : Bytes)
    → battery_path u ≡ some p
    → let s = (remove_battery u (run_power es (init_power_manager found new_power_manager).1)).1 in
      (removals s ≡ 0) × (contains p s.batteries ≡ false)
unfolding init_power_manager remove_battery
run_power-removals found es u p h =
    let s = run_power es (init_power_manager found new_power_manager).1 in
    (
      remove-removals u s
          ∙ (run-removals es (init_power_manager found new_power_manager).1
              ∙ discover-removals found new_power_manager),
      gone s,
    )
  where
    gone : (s : PowerManager) → contains p (remove_battery u s).1.batteries ≡ false
    gone s = rw (remove_battery, h) (contains-erased p s.batteries)
