-- ===== src/Network/Shown.antt =====
-- The signals that the handlers of devices send
-- (src/services/network_manager/network_manager_service.cpp).
use jappeos_core.Prelude.{
  ◌≡◌, refl, ◌∙◌, ap, sym, inl, inr, false, Option, List, [], ◌∷◌, Bool-cases, Option-cases, nat_eq,
  list_beq, if_elim, Bytes, codes,
}
use jappeos_core.Bus.ObjectPath.{root}
use jappeos_core.Network.Maps.{Map, keys, erase, erase_key, contains, keys-erase, keys-update}
use jappeos_core.Network.Data.{
  DeviceKind, wifi, ethernet, other_kind, NmAccessPoint, NmDevice, AccessPoint, NetworkDevice,
  Signal, device_removed, access_point_removed, NetworkManager, emit,
}
use jappeos_core.Network.Texts.{device_path, object_path_of}
use jappeos_core.Network.AccessPoints.{
  Syncing, see_access_point, see_access_points, is_seen, remove_unseen, sync_wifi_access_points,
}
use jappeos_core.Network.Devices.{
  Done, describe_device, sync_device, enter_device, add_by_kind, add_device, discover_devices,
  drop_connection, remove_found, find_device, remove_device,
}
use jappeos_core.Network.Mirror.{mirror, Keeps, Keeps-none, fail_device-Keeps}

see_one-mirror :
    (dev : Bytes) (active : Option Bytes) (point : NmAccessPoint) (s : Syncing)
    → mirror (see_access_point dev active point s).sent ≡ mirror s.sent
unfolding see_access_point mirror
see_one-mirror dev active point s = elim (Option-cases point.path) [
  | inl e ↦ rw (see_access_point, e) refl
  | inr (nm, e) ↦ elim (Option-cases (object_path_of dev (codes "AccessPoints") nm)) [
    | inl f ↦ rw (see_access_point, e, f) refl
    | inr (p, f) ↦ elim (Bool-cases (contains p s.points)) [
      | inl g ↦ rw (see_access_point, e, f, g) refl
      | inr g ↦ rw (see_access_point, e, f, g) refl
    ]
  ]
]

see_all-mirror :
    (dev : Bytes) (active : Option Bytes) (aps : List NmAccessPoint) (s : Syncing)
    → mirror (see_access_points dev active aps s).sent ≡ mirror s.sent
unfolding see_access_points
see_all-mirror dev active [] s = refl
see_all-mirror dev active (point ∷ aps) s =
    let seen = see_access_point dev active point s in
    let first = see_one-mirror dev active point s in
    elim (Bool-cases seen.is_thrown) [
      | inl e ↦ rw e first
      | inr e ↦ rw e (see_all-mirror dev active aps seen ∙ first)
    ]

remove-mirror :
    (dev : Bytes) (seen : List Bytes) (m : Map AccessPoint) (sent : List Signal)
    → mirror (remove_unseen dev seen m sent).1 ≡ mirror sent
unfolding remove_unseen mirror
remove-mirror dev seen [] sent = refl
remove-mirror dev seen ((p, a) ∷ m) sent = elim (Bool-cases (is_seen seen p)) [
  | inl e ↦ rw e (remove-mirror dev seen m sent)
  | inr e ↦ rw e (remove-mirror dev seen m (access_point_removed dev p ∷ sent))
]

sync-mirror :
    (dev : Bytes) (active : Option Bytes) (aps : List NmAccessPoint) (m : Map AccessPoint)
    (sent : List Signal)
    → mirror (sync_wifi_access_points dev active aps m sent).1.1 ≡ mirror sent
unfolding sync_wifi_access_points
sync-mirror dev active aps m sent =
    let start : Syncing = record { points = m; sent = sent; new_paths = []; is_thrown = false } in
    let s = see_access_points dev active aps start in
    let same = see_all-mirror dev active aps start in
    elim (Bool-cases s.is_thrown) [
      | inl e ↦ rw e same
      | inr e ↦ rw e (remove-mirror dev s.new_paths s.points s.sent ∙ same)
    ]

-- The devices of the service are those of a client that follows its signals.
abbrev pub IsShown : NetworkManager → Type 0
IsShown s = keys s.devices ≡ mirror s.signals

pub shown : {s t : NetworkManager} → Keeps s t → IsShown s → IsShown t
shown p h = p.same_devices ∙ (h ∙ sym p.same_mirror)

pub sync_device-Keeps :
    (path : Bytes) (d : NmDevice) (dev : NetworkDevice) (s : NetworkManager)
    → Keeps s (sync_device path d dev s).1
unfolding sync_device
sync_device-Keeps path d dev s = record {
  same_devices = keys-update path _ s.devices;
  same_mirror = sync-mirror path d.active_access_point d.access_points dev.access_points s.signals;
}

enter_device-IsShown :
    (path iface : Bytes) (d : NmDevice) (s : NetworkManager)
    → IsShown s
    → IsShown (enter_device path iface d s)
unfolding enter_device mirror
enter_device-IsShown path iface d s h = ap (λ ps. path ∷ ps) h

add_by_kind-IsShown :
    (k : DeviceKind) (path iface : Bytes) (d : NmDevice) (s : NetworkManager)
    → IsShown s
    → IsShown (add_by_kind k path iface d s).1
unfolding add_by_kind
add_by_kind-IsShown wifi path iface d s h =
    let entered = enter_device path iface d s in
    shown {s = entered} (sync_device-Keeps path d (describe_device iface d) entered)
      (enter_device-IsShown path iface d s h)
add_by_kind-IsShown ethernet path iface d s h = enter_device-IsShown path iface d s h
add_by_kind-IsShown other_kind path iface d s h = h

pub add_device-IsShown :
    (d : NmDevice) (s : NetworkManager) → IsShown s → IsShown (add_device d s).1
unfolding add_device
add_device-IsShown d s h = elim (Option-cases d.iface) [
  | inl e ↦ rw (add_device, e) h
  | inr (iface, e) ↦ elim (Option-cases (device_path d)) [
    | inl f ↦ rw (add_device, e, f) h
    | inr (path, f) ↦ elim (Bool-cases (contains path s.devices)) [
      | inl g ↦ rw (add_device, e, f, g) h
      | inr g ↦ rw (add_device, e, f, g) (add_by_kind-IsShown d.kind path iface d s h)
    ]
  ]
]

pub discover-IsShown :
    (ds : List NmDevice) (s : NetworkManager) → IsShown s → IsShown (discover_devices ds s).1
unfolding discover_devices
discover-IsShown [] s h = h
discover-IsShown (d ∷ ds) s h =
    let first = add_device-IsShown d s h in
    if_elim (λ (x : Done). IsShown x.1) (add_device d s).0
      (λ e. discover-IsShown ds (add_device d s).1 first) (λ e. first)

pub drop_connection-Keeps :
    (connection named : Bytes) (s : NetworkManager) → Keeps s (drop_connection connection named s)
unfolding erase mirror
drop_connection-Keeps connection named s =
    if_elim (λ t. Keeps s t) (list_beq connection root) (λ e. Keeps-none s)
      (λ e. record { same_devices = refl; same_mirror = refl })

remove_found-IsShown :
    (path : Bytes) (dev : NetworkDevice) (s : NetworkManager)
    → IsShown s
    → IsShown (remove_found path dev s)
unfolding remove_found mirror
remove_found-IsShown path dev s h =
    let p =
      fail_device-Keeps path (codes "device_removed")
        (codes "Device disappeared during connection attempt") (emit (device_removed path) s) in
    let q = drop_connection-Keeps dev.active_connection path _ in
    keys-erase path _
    ∙ (ap (erase_key path) (q.same_devices ∙ (p.same_devices ∙ h))
        ∙ sym (q.same_mirror ∙ p.same_mirror))

pub remove_device-IsShown :
    (d : NmDevice) (s : NetworkManager) → IsShown s → IsShown (remove_device d s)
unfolding remove_device
remove_device-IsShown d s h = elim (Option-cases (find_device d s)) [
  | inl e ↦ rw (remove_device, e) h
  | inr ((path, dev), e) ↦ rw (remove_device, e) (remove_found-IsShown path dev s h)
]
