-- ===== src/Network/Followed.antt =====
-- The devices and the signals in a history of the network manager service
-- (src/services/network_manager/network_manager_service.cpp).
use jappeos_core.Prelude.{
  subst, ◌≡◌, refl, sym, inl, inr, true, false, Option, none, some, List, [], ◌∷◌, Bool-cases,
  nat_eq, list_beq, list_beq_refl, any, any_later, All, All-map, if_elim, Bytes, codes,
}
use jappeos_core.Network.Maps.{keys, erase_key}
use jappeos_core.Network.Data.{
  NmDevice, device_removed, connection_removed, NetworkManager, emit, new_network_manager,
}
use jappeos_core.Network.Pending.{fail_all_pending_wifi_connect_requests}
use jappeos_core.Network.Devices.{
  Done, emit_each, on_network_manager_disappeared, try_init_network_manager,
  on_network_manager_appeared, on_name_owner_changed,
}
use jappeos_core.Network.History.{
  NetworkEvent, name_owner_changed, nm_device_added, nm_device_removed, state_changed,
  managed_changed, access_points_changed, active_connection_changed, connection_state_changed,
  connect_called, answered, step, run,
}
use jappeos_core.Network.Shown.{
  IsShown, shown, discover-IsShown, add_device-IsShown, remove_device-IsShown,
}
use jappeos_core.Network.Kept.{
  state_changed-Keeps, managed_changed-Keeps, points_changed-Keeps, active_changed-Keeps,
  connection_changed-Keeps, connect_called-Keeps,
}
use jappeos_core.Network.Mirror.{mirror, Keeps, Keeps-none, fail_all-Keeps, answered-Keeps}

-- Every key is to be erased.
abbrev IsIn : List Bytes → List Bytes → Type 0
IsIn ps qs = All (λ q. any (λ p. list_beq p q) ps ≡ true) qs

IsIn-later : (p : Bytes) (ps qs : List Bytes) → IsIn ps qs → IsIn (p ∷ ps) qs
IsIn-later p ps qs h = All-map qs (λ q k. any_later (λ x. list_beq x q) p ps k) h

IsIn-self : (ps : List Bytes) → IsIn ps ps
IsIn-self [] = tt
IsIn-self (p ∷ ps) = (rw (list_beq_refl p) refl, IsIn-later p ps ps (IsIn-self ps))

IsIn-erase : (p : Bytes) (ps qs : List Bytes) → IsIn (p ∷ ps) qs → IsIn ps (erase_key p qs)
unfolding erase_key
IsIn-erase p ps [] h = tt
IsIn-erase p ps (q ∷ qs) h = elim (Bool-cases (list_beq p q)) [
  | inl e ↦ rw (erase_key, e) (IsIn-erase p ps qs h.1)
  | inr e ↦ rw (erase_key, e) (rw e at h.0, IsIn-erase p ps qs h.1)
]

-- The signals of devices that go away, all of them.
each_removed :
    (ps : List Bytes) (s : NetworkManager)
    → IsIn ps (mirror s.signals)
    → mirror (emit_each device_removed ps s).signals ≡ []
unfolding mirror
each_removed [] s h = nothing (mirror s.signals) h
  where
    nothing : (qs : List Bytes) → IsIn [] qs → qs ≡ []
    nothing [] h = refl
    nothing (q ∷ qs) h = absurd (let f : false ≡ true = h.0 in cc)
each_removed (p ∷ ps) s h =
    each_removed ps (emit (device_removed p) s) (IsIn-erase p ps (mirror s.signals) h)

each_connection_removed :
    (ps : List Bytes) (s : NetworkManager) → Keeps s (emit_each connection_removed ps s)
unfolding mirror
each_connection_removed [] s = Keeps-none s
each_connection_removed (p ∷ ps) s =
    let rest = each_connection_removed ps (emit (connection_removed p) s) in
    record { same_devices = rest.same_devices; same_mirror = rest.same_mirror }

disappeared-IsShown : (s : NetworkManager) → IsShown s → IsShown (on_network_manager_disappeared s)
unfolding on_network_manager_disappeared
disappeared-IsShown s h =
    if_elim (λ t. IsShown t) s.is_available
      (λ e. sym (
        each_removed (keys events.devices) events
          (subst (IsIn (keys events.devices)) both (IsIn-self (keys events.devices)))))
      (λ e. h)
  where
    told : NetworkManager
    told =
        fail_all_pending_wifi_connect_requests (codes "network_manager_unavailable")
          (codes "NetworkManager disappeared during connection attempt") s

    events : NetworkManager
    events = emit_each connection_removed (keys told.connections) told

    both : IsShown events
    both = shown {s = told} (each_connection_removed (keys told.connections) told) (
        shown {s = s}
          (fail_all-Keeps (codes "network_manager_unavailable")
            (codes "NetworkManager disappeared during connection attempt") s)
          h)

appeared-IsShown :
    (client : Option (List NmDevice)) (s : NetworkManager)
    → IsShown s
    → IsShown (on_network_manager_appeared client s).1
unfolding on_network_manager_appeared try_init_network_manager
appeared-IsShown client s h =
    if_elim (λ (x : Done). IsShown x.1) s.is_available (λ e. h) (λ e. init client)
  where
    init : (client : Option (List NmDevice)) → IsShown (try_init_network_manager client s).1
    init none = h
    init (some ds) = discover-IsShown ds (record s { is_available = true }) h

owner_changed-IsShown :
    (name owner : Bytes) (client : Option (List NmDevice)) (s : NetworkManager)
    → IsShown s
    → IsShown (on_name_owner_changed name owner client s).1
unfolding on_name_owner_changed
owner_changed-IsShown name owner client s h =
    let P : Done → Type 0 = λ x. IsShown x.1 in
    if_elim P (list_beq name (codes "org.freedesktop.NetworkManager"))
      (λ e.
        if_elim P (list_beq owner []) (λ f. disappeared-IsShown s h)
          (λ f. appeared-IsShown client s h))
      (λ e. h)

step-IsShown : (e : NetworkEvent) (s : NetworkManager) → IsShown s → IsShown (step e s)
unfolding step
step-IsShown (name_owner_changed name owner client) s h =
    owner_changed-IsShown name owner client s h
step-IsShown (nm_device_added d) s h = add_device-IsShown d s h
step-IsShown (nm_device_removed d) s h = remove_device-IsShown d s h
step-IsShown (state_changed d) s h = shown (state_changed-Keeps d s) h
step-IsShown (managed_changed d) s h = shown (managed_changed-Keeps d s) h
step-IsShown (access_points_changed d) s h = shown (points_changed-Keeps d s) h
step-IsShown (active_connection_changed d ac) s h = shown (active_changed-Keeps d ac s) h
step-IsShown (connection_state_changed ac) s h = shown (connection_changed-Keeps ac s) h
step-IsShown (connect_called policy found dev r) s h =
    shown (connect_called-Keeps policy found dev r s) h
step-IsShown (answered n a) s h = shown (answered-Keeps n a s) h

run-IsShown : (es : List NetworkEvent) (s : NetworkManager) → IsShown s → IsShown (run es s)
unfolding run
run-IsShown [] s h = h
run-IsShown (e ∷ es) s h = run-IsShown es (step e s) (step-IsShown e s h)

-- In every history, `ListDevices` gives the devices that a client has who follows the signals
-- DeviceAdded and DeviceRemoved from the start.
pub run-mirror :
    (es : List NetworkEvent)
    → keys (run es new_network_manager).devices ≡ mirror (run es new_network_manager).signals
unfolding mirror
run-mirror es = run-IsShown es new_network_manager refl
