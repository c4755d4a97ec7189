-- ===== src/Network/Kept.antt =====
-- The callbacks and methods of the network manager service that leave its devices
-- (src/services/network_manager/network_manager_service.cpp).
use jappeos_core.Prelude.{
  ◌≡◌, refl, inl, inr, Option, Option-cases, nat_eq, if_elim, Bytes, Result, ok, err,
}
use jappeos_core.Network.Maps.{contains, keys-update}
use jappeos_core.Network.Data.{NmDevice, NmActive, NetworkDevice, NetworkManager, Call}
use jappeos_core.Network.Texts.{connection_path}
use jappeos_core.Network.Pending.{resolve_pending_wifi_connect_request}
use jappeos_core.Network.Devices.{
  find_device, on_device_state_changed, on_device_managed_changed,
  on_wifi_device_access_points_changed, set_device, ensure_connection_object, drop_active,
  set_active, on_device_active_connection_changed, find_connection,
  on_active_connection_state_changed,
}
use jappeos_core.Network.Wifi.{WifiError, WifiRequest, admit_request, choose_call, wifi_connect}
use jappeos_core.Network.Shown.{sync_device-Keeps, drop_connection-Keeps}
use jappeos_core.Network.Mirror.{mirror, Keeps, Keeps-trans, Keeps-none, resolve-Keeps}

set_device-Keeps :
    (path : Bytes) (f : NetworkDevice → NetworkDevice) (s : NetworkManager)
    → Keeps s (set_device path f s)
unfolding set_device
set_device-Keeps path f s = record {
  same_devices = keys-update path f s.devices;
  same_mirror = refl;
}

pub state_changed-Keeps :
    (d : NmDevice) (s : NetworkManager) → Keeps s (on_device_state_changed d s)
unfolding on_device_state_changed
state_changed-Keeps d s = elim (Option-cases (find_device d s)) [
  | inl e ↦ rw (on_device_state_changed, e) (Keeps-none s)
  | inr ((path, dev), e) ↦ rw (on_device_state_changed, e) (set_device-Keeps path _ s)
]

pub managed_changed-Keeps :
    (d : NmDevice) (s : NetworkManager) → Keeps s (on_device_managed_changed d s)
unfolding on_device_managed_changed
managed_changed-Keeps d s = elim (Option-cases (find_device d s)) [
  | inl e ↦ rw (on_device_managed_changed, e) (Keeps-none s)
  | inr ((path, dev), e) ↦ rw (on_device_managed_changed, e) (set_device-Keeps path _ s)
]

pub points_changed-Keeps :
    (d : NmDevice) (s : NetworkManager) → Keeps s (on_wifi_device_access_points_changed d s).1
unfolding on_wifi_device_access_points_changed
points_changed-Keeps d s = elim (Option-cases (find_device d s)) [
  | inl e ↦ rw (on_wifi_device_access_points_changed, e) (Keeps-none s)
  | inr ((path, dev), e) ↦
      rw (on_wifi_device_access_points_changed, e) (sync_device-Keeps path d dev s)
]

ensure-Keeps :
    (a : NmActive) (connection : Bytes) (s : NetworkManager)
    → Keeps s (ensure_connection_object a connection s)
unfolding ensure_connection_object mirror
ensure-Keeps a connection s =
    if_elim (λ t. Keeps s t) (contains connection s.connections) (λ e. Keeps-none s)
      (λ e. record { same_devices = refl; same_mirror = refl })

pub active_changed-Keeps :
    (d : NmDevice) (ac : Option NmActive) (s : NetworkManager)
    → Keeps s (on_device_active_connection_changed d ac s).1
unfolding on_device_active_connection_changed drop_active set_active
active_changed-Keeps d ac s = elim (Option-cases (find_device d s)) [
  | inl e ↦ rw (on_device_active_connection_changed, e) (Keeps-none s)
  | inr ((path, dev), e) ↦ elim (Option-cases ac) [
    | inl f ↦
        rw (on_device_active_connection_changed, e, f)
          (Keeps-trans (drop_connection-Keeps dev.active_connection dev.active_connection s)
            (set_device-Keeps path _ _))
    | inr (a, f) ↦ elim (Option-cases (connection_path a)) [
      | inl g ↦ rw (on_device_active_connection_changed, e, f, g) (Keeps-none s)
      | inr (connection, g) ↦
          rw (on_device_active_connection_changed, e, f, g)
            (Keeps-trans (ensure-Keeps a connection s) (set_device-Keeps path _ _))
    ]
  ]
]

pub connection_changed-Keeps :
    (ac : NmActive) (s : NetworkManager) → Keeps s (on_active_connection_state_changed ac s)
unfolding on_active_connection_state_changed
connection_changed-Keeps ac s =
    let told = resolve_pending_wifi_connect_request ac s in
    let p = resolve-Keeps ac s in
    elim (Option-cases (find_connection ac told)) [
      | inl e ↦ rw (on_active_connection_state_changed, e) p
      | inr (path, e) ↦
          rw (on_active_connection_state_changed, e)
            record { same_devices = p.same_devices; same_mirror = p.same_mirror }
    ]

pub connect_called-Keeps :
    (policy : Result WifiError (Unit {0})) (found : Option NmDevice) (dev : Bytes) (r : WifiRequest)
    (s : NetworkManager)
    → Keeps s (wifi_connect policy found dev r s).1
unfolding wifi_connect
connect_called-Keeps policy found dev r s = admitted (admit_request policy found r s) refl
  where
    chosen :
        (d : NmDevice)
        → admit_request policy found r s ≡ ok d
        → (c : Result WifiError Call) → choose_call r d ≡ c
        → Keeps s (wifi_connect policy found dev r s).1
    chosen d e (err x) f =
        rw (wifi_connect, e, f) record { same_devices = refl; same_mirror = refl }
    chosen d e (ok call) f =
        rw (wifi_connect, e, f) record { same_devices = refl; same_mirror = refl }

    admitted :
        (a : Result WifiError NmDevice)
        → admit_request policy found r s ≡ a
        → Keeps s (wifi_connect policy found dev r s).1
    admitted (err x) e = rw (wifi_connect, e) (Keeps-none s)
    admitted (ok d) e = chosen d e (choose_call r d) refl
