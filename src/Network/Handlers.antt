-- ===== src/Network/Handlers.antt =====
-- How often the number of a request is held after the handlers of devices
-- (src/services/network_manager/network_manager_service.cpp).
use jappeos_core.Prelude.{
  ℕ, ◌≡◌, refl, ◌∙◌, inl, inr, false, Option, List, [], ◌∷◌, Bool-cases, Option-cases, nat_eq,
  list_beq, Bytes, codes, arith,
}
use jappeos_core.Bus.ObjectPath.{root}
use jappeos_core.Network.Maps.{Map, erase, contains}
use jappeos_core.Network.Data.{
  DeviceKind, wifi, ethernet, other_kind, NmAccessPoint, NmDevice, AccessPoint, NetworkDevice,
  Signal, access_point_removed, device_removed, NetworkManager, emit,
}
use jappeos_core.Network.Texts.{device_path, object_path_of}
use jappeos_core.Network.AccessPoints.{
  Syncing, see_access_point, see_access_points, is_seen, remove_unseen, sync_wifi_access_points,
}
use jappeos_core.Network.Devices.{
  describe_device, add_by_kind, sync_device, enter_device, add_device, discover_devices,
  drop_connection, remove_found, find_device, remove_device,
}
use jappeos_core.Network.Results.{results}
use jappeos_core.Network.Numbers.{Holds, Holds-trans, Holds-none}
use jappeos_core.Network.Answers.{fail_device-Holds}

module _ (id : ℕ) where
  see_one-results :
      (dev : Bytes) (active : Option Bytes) (point : NmAccessPoint) (s : Syncing)
      → results id (see_access_point dev active point s).sent ≡ results id s.sent
  unfolding see_access_point
  see_one-results dev active point s = elim (Option-cases point.path) [
    | inl e ↦ rw (see_access_point, e) refl
    | inr (nm, e) ↦ elim (Option-cases (object_path_of dev (codes "AccessPoints") nm)) [
      | inl f ↦ rw (see_access_point, e, f) refl
      | inr (p, f) ↦ elim (Bool-cases (contains p s.points)) [
        | inl g ↦ rw (see_access_point, e, f, g) refl
        | inr g ↦ rw (see_access_point, e, f, g) (omega arith)
      ]
    ]
  ]

  see_all-results :
      (dev : Bytes) (active : Option Bytes) (aps : List NmAccessPoint) (s : Syncing)
      → results id (see_access_points dev active aps s).sent ≡ results id s.sent
  unfolding see_access_points
  see_all-results dev active [] s = refl
  see_all-results dev active (point ∷ aps) s =
      let seen = see_access_point dev active point s in
      let first = see_one-results dev active point s in
      elim (Bool-cases seen.is_thrown) [
        | inl e ↦ rw e first
        | inr e ↦ rw e (see_all-results dev active aps seen ∙ first)
      ]

  remove-results :
      (dev : Bytes) (seen : List Bytes) (m : Map AccessPoint) (sent : List Signal)
      → results id (remove_unseen dev seen m sent).1 ≡ results id sent
  unfolding remove_unseen
  remove-results dev seen [] sent = refl
  remove-results dev seen ((p, a) ∷ m) sent = elim (Bool-cases (is_seen seen p)) [
    | inl e ↦ rw e (remove-results dev seen m sent)
    | inr e ↦ rw e (omega (arith, remove-results dev seen m (access_point_removed dev p ∷ sent)))
  ]

  sync-results :
      (dev : Bytes) (active : Option Bytes) (aps : List NmAccessPoint) (m : Map AccessPoint)
      (sent : List Signal)
      → results id (sync_wifi_access_points dev active aps m sent).1.1 ≡ results id sent
  unfolding sync_wifi_access_points
  sync-results dev active aps m sent =
      let start : Syncing = record { points = m; sent = sent; new_paths = []; is_thrown = false } in
      let s = see_access_points dev active aps start in
      let same = see_all-results dev active aps start in
      elim (Bool-cases s.is_thrown) [
        | inl e ↦ rw e same
        | inr e ↦ rw e (remove-results dev s.new_paths s.points s.sent ∙ same)
      ]

  pub sync_device-Holds :
      (path : Bytes) (d : NmDevice) (dev : NetworkDevice) (s : NetworkManager)
      → Holds id 0 s (sync_device path d dev s).1
  unfolding sync_device
  sync_device-Holds path d dev s =
      let same =
        sync-results path d.active_access_point d.access_points dev.access_points s.signals in
      record { held = omega (arith, same); same_next = refl }

  enter_device-Holds :
      (path iface : Bytes) (d : NmDevice) (s : NetworkManager)
      → Holds id 0 s (enter_device path iface d s)
  unfolding enter_device
  enter_device-Holds path iface d s = record { held = omega arith; same_next = refl }

  add_by_kind-Holds :
      (k : DeviceKind) (path iface : Bytes) (d : NmDevice) (s : NetworkManager)
      → Holds id 0 s (add_by_kind k path iface d s).1
  unfolding add_by_kind
  add_by_kind-Holds wifi path iface d s =
      let entered = enter_device path iface d s in
      Holds-trans id {s = s} {t = entered} 0 0 (enter_device-Holds path iface d s)
        (sync_device-Holds path d (describe_device iface d) entered)
  add_by_kind-Holds ethernet path iface d s = enter_device-Holds path iface d s
  add_by_kind-Holds other_kind path iface d s = Holds-none id s

  pub add_device-Holds : (d : NmDevice) (s : NetworkManager) → Holds id 0 s (add_device d s).1
  unfolding add_device
  add_device-Holds d s = elim (Option-cases d.iface) [
    | inl e ↦ rw (add_device, e) (Holds-none id s)
    | inr (iface, e) ↦ elim (Option-cases (device_path d)) [
      | inl f ↦ rw (add_device, e, f) (Holds-none id s)
      | inr (path, f) ↦ elim (Bool-cases (contains path s.devices)) [
        | inl g ↦ rw (add_device, e, f, g) (Holds-none id s)
        | inr g ↦ rw (add_device, e, f, g) (add_by_kind-Holds d.kind path iface d s)
      ]
    ]
  ]

  pub discover-Holds :
      (ds : List NmDevice) (s : NetworkManager) → Holds id 0 s (discover_devices ds s).1
  unfolding discover_devices
  discover-Holds [] s = Holds-none id s
  discover-Holds (d ∷ ds) s =
      let first = add_device-Holds d s in
      elim (Bool-cases (add_device d s).0) [
        | inl e ↦
            rw (discover_devices, e)
              (Holds-trans id {s = s} {t = (add_device d s).1} 0 0 first
                (discover-Holds ds (add_device d s).1))
        | inr e ↦ rw (discover_devices, e) first
      ]

  pub drop_connection-Holds :
      (connection named : Bytes) (s : NetworkManager)
      → Holds id 0 s (drop_connection connection named s)
  unfolding erase
  drop_connection-Holds connection named s = elim (Bool-cases (list_beq connection root)) [
    | inl e ↦ rw (drop_connection, e) (Holds-none id s)
    | inr e ↦ rw (drop_connection, e) record { held = omega arith; same_next = refl }
  ]

  remove_found-Holds :
      (path : Bytes) (dev : NetworkDevice) (s : NetworkManager)
      → Holds id 0 s (remove_found path dev s)
  unfolding remove_found
  remove_found-Holds path dev s =
      let p =
        fail_device-Holds id path (codes "device_removed")
          (codes "Device disappeared during connection attempt") (emit (device_removed path) s) in
      let q = drop_connection-Holds dev.active_connection path _ in
      record { held = omega (arith, p.held, q.held); same_next = q.same_next ∙ p.same_next }

  pub remove_device-Holds : (d : NmDevice) (s : NetworkManager) → Holds id 0 s (remove_device d s)
  unfolding remove_device
  remove_device-Holds d s = elim (Option-cases (find_device d s)) [
    | inl e ↦ rw (remove_device, e) (Holds-none id s)
    | inr ((path, dev), e) ↦ rw (remove_device, e) (remove_found-Holds path dev s)
  ]
