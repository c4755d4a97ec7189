-- ===== src/Network/Callbacks.antt =====
-- How often the number of a request is held after the callbacks of libnm
-- (src/services/network_manager/network_manager_service.cpp).
use jappeos_core.Prelude.{ℕ, refl, inl, inr, Option, Bool-cases, Option-cases, Bytes, arith}
use jappeos_core.Network.Maps.{contains}
use jappeos_core.Network.Data.{NmDevice, NmActive, NetworkDevice, NetworkManager}
use jappeos_core.Network.Texts.{connection_path}
use jappeos_core.Network.Pending.{resolve_pending_wifi_connect_request}
use jappeos_core.Network.Devices.{
  find_device, on_device_state_changed, on_device_managed_changed,
  on_wifi_device_access_points_changed, set_device, ensure_connection_object, drop_active,
  set_active, on_device_active_connection_changed, find_connection,
  on_active_connection_state_changed,
}
use jappeos_core.Network.Numbers.{Holds, Holds-none, resolve-Holds}
use jappeos_core.Network.Handlers.{drop_connection-Holds, sync_device-Holds}

module _ (id : ℕ) where
  pub state_changed-Holds :
      (d : NmDevice) (s : NetworkManager) → Holds id 0 s (on_device_state_changed d s)
  unfolding on_device_state_changed set_device
  state_changed-Holds d s = elim (Option-cases (find_device d s)) [
    | inl e ↦ rw (on_device_state_changed, e) (Holds-none id s)
    | inr (x, e) ↦ rw (on_device_state_changed, e) record { held = omega arith; same_next = refl }
  ]

  pub managed_changed-Holds :
      (d : NmDevice) (s : NetworkManager) → Holds id 0 s (on_device_managed_changed d s)
  unfolding on_device_managed_changed set_device
  managed_changed-Holds d s = elim (Option-cases (find_device d s)) [
    | inl e ↦ rw (on_device_managed_changed, e) (Holds-none id s)
    | inr (x, e) ↦ rw (on_device_managed_changed, e) record { held = omega arith; same_next = refl }
  ]

  pub points_changed-Holds :
      (d : NmDevice) (s : NetworkManager)
      → Holds id 0 s (on_wifi_device_access_points_changed d s).1
  unfolding on_wifi_device_access_points_changed
  points_changed-Holds d s = elim (Option-cases (find_device d s)) [
    | inl e ↦ rw (on_wifi_device_access_points_changed, e) (Holds-none id s)
    | inr ((path, dev), e) ↦
        rw (on_wifi_device_access_points_changed, e) (sync_device-Holds id path d dev s)
  ]

  set_active-Holds :
      (a : NmActive) (connection path : Bytes) (s : NetworkManager)
      → Holds id 0 s (set_active a connection path s)
  unfolding set_active ensure_connection_object set_device
  set_active-Holds a connection path s = elim (Bool-cases (contains connection s.connections)) [
    | inl e ↦ record {
      held = rw (set_active, ensure_connection_object, e) (omega arith);
      same_next = rw (set_active, ensure_connection_object, e) refl;
    }
    | inr e ↦ record {
      held = rw (set_active, ensure_connection_object, e) (omega arith);
      same_next = rw (set_active, ensure_connection_object, e) refl;
    }
  ]

  drop_active-Holds :
      (path : Bytes) (dev : NetworkDevice) (s : NetworkManager)
      → Holds id 0 s (drop_active path dev s)
  unfolding drop_active set_device
  drop_active-Holds path dev s =
      let p = drop_connection-Holds id dev.active_connection dev.active_connection s in
      record { held = omega (arith, p.held); same_next = p.same_next }

  pub active_changed-Holds :
      (d : NmDevice) (ac : Option NmActive) (s : NetworkManager)
      → Holds id 0 s (on_device_active_connection_changed d ac s).1
  unfolding on_device_active_connection_changed
  active_changed-Holds d ac s = elim (Option-cases (find_device d s)) [
    | inl e ↦ rw (on_device_active_connection_changed, e) (Holds-none id s)
    | inr ((path, dev), e) ↦ elim (Option-cases ac) [
      | inl f ↦ rw (on_device_active_connection_changed, e, f) (drop_active-Holds path dev s)
      | inr (a, f) ↦ elim (Option-cases (connection_path a)) [
        | inl g ↦ rw (on_device_active_connection_changed, e, f, g) (Holds-none id s)
        | inr (connection, g) ↦
            rw (on_device_active_connection_changed, e, f, g) (set_active-Holds a connection path s)
      ]
    ]
  ]

  pub connection_changed-Holds :
      (ac : NmActive) (s : NetworkManager) → Holds id 0 s (on_active_connection_state_changed ac s)
  unfolding on_active_connection_state_changed
  connection_changed-Holds ac s =
      let told = resolve_pending_wifi_connect_request ac s in
      let p = resolve-Holds id ac s in
      elim (Option-cases (find_connection ac told)) [
        | inl e ↦ rw (on_active_connection_state_changed, e) p
        | inr (path, e) ↦
            rw (on_active_connection_state_changed, e)
              record { held = omega (arith, p.held); same_next = p.same_next }
      ]
