-- ===== src/Network/Stale.antt =====
-- A device that goes from one active connection to another
-- (src/services/network_manager/network_manager_service.cpp).
use jappeos_core.Prelude.{
  list_beq-path, ◌≡◌, refl, ◌∙◌, ap, sym, inl, inr, Bool, true, false, Option, none, some, [], ◌∷◌,
  Bool-cases, nat_eq, list_beq, if_elim, Bytes, codes, list_beq_refl,
}
use jappeos_core.Bus.ObjectPath.{root}
use jappeos_core.Network.Maps.{Map, find, contains, erase, update}
use jappeos_core.Network.Data.{
  NmDevice, NmActive, NetworkDevice, device_removed, NetworkManager, emit,
}
use jappeos_core.Network.Texts.{device_path, connection_path}
use jappeos_core.Network.Pending.{fail_pending_wifi_connect_requests_for_device}
use jappeos_core.Network.Devices.{
  Done, find_device, set_device, ensure_connection_object, set_active, remove_found, remove_device,
  on_device_active_connection_changed,
}
use jappeos_core.Network.Results.{fail_loop-Spends}

module _ {A : Type 0} where
  find-update :
      (k : Bytes) (f : A → A) (m : Map A) (a : A)
      → find k m ≡ some a
      → find k (update k f m) ≡ some (f a)
  unfolding find update
  find-update k f [] a h = cc
  find-update k f ((j, b) ∷ m) a h = elim (Bool-cases (list_beq k j)) [
    | inl e ↦
        let same : b ≡ a = some-inj (rw e at h) in
        rw (update, e, find) (rw e (ap (λ x. some (f x)) same))
    | inr e ↦ rw (update, e, find) (rw e (find-update k f m a (rw e at h)))
  ]
    where
      some-inj : {x y : A} → some x ≡ some y → x ≡ y
      some-inj h = cc

  find-erase : (k : Bytes) (m : Map A) → find k (erase k m) ≡ none
  unfolding find erase
  find-erase k [] = refl
  find-erase k ((j, b) ∷ m) = elim (Bool-cases (list_beq k j)) [
    | inl e ↦ rw e (find-erase k m)
    | inr e ↦ rw (erase, e, find) (rw e (find-erase k m))
  ]

contains-erase :
    {A : Type 0} (q p : Bytes) (m : Map A)
    → list_beq q p ≡ false
    → contains p m ≡ true
    → contains p (erase q m) ≡ true
unfolding contains erase
contains-erase q p [] h k = k
contains-erase q p ((j, b) ∷ m) h k = elim (Bool-cases (list_beq q j)) [
  | inl e ↦ elim (Bool-cases (list_beq p j)) [
    | inl f ↦
        let same : p ≡ q = list_beq-path p j f ∙ sym (list_beq-path q j e) in absurd (clash same)
    | inr f ↦ rw (erase, e) (contains-erase q p m h (rw f at k))
  ]
  | inr e ↦ elim (Bool-cases (list_beq p j)) [
    | inl f ↦ rw (e, f) refl
    | inr f ↦ rw (e, f) (contains-erase q p m h (rw f at k))
  ]
]
  where
    clash : p ≡ q → ⊥
    clash same =
        let f : true ≡ false = sym (list_beq_refl q) ∙ (ap (list_beq q) (sym same) ∙ h) in cc

find_device-parts :
    (d : NmDevice) (s : NetworkManager) (path : Bytes) (dev : NetworkDevice)
    → find_device d s ≡ some (path, dev)
    → (device_path d ≡ some path) × (find path s.devices ≡ some dev)
unfolding find_device
find_device-parts d s path dev h = known (device_path d) refl
  where
    found :
        (p : Bytes)
        → (o : Option NetworkDevice) → find p s.devices ≡ o
        → device_path d ≡ some p
        → (device_path d ≡ some path) × (find path s.devices ≡ some dev)
    found p none f e = absurd (
        let g : Path (Option (Bytes × NetworkDevice)) none (some (path, dev)) =
          rw (find_device, e, f) at h in
        cc)
    found p (some x) f e =
        let g : Path (Option (Bytes × NetworkDevice)) (some (p, x)) (some (path, dev)) =
          rw (find_device, e, f) at h in
        let here : p ≡ path = cc in
        let this : x ≡ dev = cc in
        (e ∙ ap some here, ap (λ k. find k s.devices) (sym here) ∙ (f ∙ ap some this))

    known :
        (o : Option Bytes)
        → device_path d ≡ o
        → (device_path d ≡ some path) × (find path s.devices ≡ some dev)
    known none e = absurd (
        let g : Path (Option (Bytes × NetworkDevice)) none (some (path, dev)) =
          rw (find_device, e) at h in
        cc)
    known (some p) e = found p (find p s.devices) refl e

find_device-intro :
    (d : NmDevice) (s : NetworkManager) (path : Bytes) (dev : NetworkDevice)
    → device_path d ≡ some path
    → find path s.devices ≡ some dev
    → find_device d s ≡ some (path, dev)
unfolding find_device
find_device-intro d s path dev e f = rw (find_device, e, f) refl

-- What is left when the device is removed.
removed_connections :
    (path p q : Bytes) (dev : NetworkDevice) (s : NetworkManager)
    → list_beq q p ≡ false
    → dev.active_connection ≡ q
    → contains p s.connections ≡ true
    → contains p (remove_found path dev s).connections ≡ true
unfolding remove_found fail_pending_wifi_connect_requests_for_device
removed_connections path p q dev s h active k =
    let (n, (told, fits)) =
      fail_loop-Spends 0 path (codes "device_removed")
        (codes "Device disappeared during connection attempt") s.pending
        (emit (device_removed path) s) in
    if_elim (λ (t : NetworkManager). contains p t.connections ≡ true)
      (list_beq dev.active_connection root) (λ e. ap (contains p) told.same_connections ∙ k)
      (λ e.
        contains-erase dev.active_connection p _ (ap (λ x. list_beq x p) active ∙ h)
          (ap (contains p) told.same_connections ∙ k))

removed_device :
    (path : Bytes) (dev : NetworkDevice) (s : NetworkManager)
    → find path (remove_found path dev s).devices ≡ none
unfolding remove_found
removed_device path dev s = find-erase path _

ensure_keeps_connection :
    (a : NmActive) (q p : Bytes) (s : NetworkManager)
    → contains p s.connections ≡ true
    → contains p (ensure_connection_object a q s).connections ≡ true
unfolding ensure_connection_object contains
ensure_keeps_connection a q p s h =
    if_elim (λ (t : NetworkManager). contains p t.connections ≡ true) (contains q s.connections)
      (λ e. h) (λ e. if_elim (λ (x : Bool). x ≡ true) (list_beq p q) (λ f. refl) (λ f. h))

ensure_keeps_devices :
    (a : NmActive) (q : Bytes) (s : NetworkManager)
    → (ensure_connection_object a q s).devices ≡ s.devices
unfolding ensure_connection_object
ensure_keeps_devices a q s =
    if_elim (λ (t : NetworkManager). t.devices ≡ s.devices) (contains q s.connections) (λ e. refl)
      (λ e. refl)

changed_device :
    (d : NmDevice) (a : NmActive) (s : NetworkManager) (path q : Bytes) (dev : NetworkDevice)
    → find_device d s ≡ some (path, dev)
    → connection_path a ≡ some q
    → (on_device_active_connection_changed d (some a) s).1 ≡ set_active a q path s
unfolding on_device_active_connection_changed
changed_device d a s path q dev e named =
    let change : Bytes → Option Bytes → Done =
      λ p o. elim o [ none ↦ (false, s) | some c ↦ (true, set_active a c p s) ] in
    let by : Option (Bytes × NetworkDevice) → Done =
      λ o. elim o [ none ↦ (true, s) | some (p, x) ↦ change p (connection_path a) ] in
    ap (λ o. (by o).1) e ∙ ap (λ o. (change path o).1) named

found_device :
    (d : NmDevice) (s : NetworkManager) (path : Bytes) (dev : NetworkDevice)
    → find_device d s ≡ some (path, dev)
    → remove_device d s ≡ remove_found path dev s
unfolding remove_device
found_device d s path dev e = rw (remove_device, e) refl

-- When the active connection of a device changes to another one directly, and the device is then
-- removed, the object of the first connection is still there.
pub switch-remove :
    (d : NmDevice) (a : NmActive) (s : NetworkManager) (path q : Bytes) (dev : NetworkDevice)
    → find_device d s ≡ some (path, dev)
    → contains dev.active_connection s.connections ≡ true
    → connection_path a ≡ some q
    → list_beq q dev.active_connection ≡ false
    → let t = remove_device d (on_device_active_connection_changed d (some a) s).1 in
      (contains dev.active_connection t.connections ≡ true) × (find path t.devices ≡ none)
unfolding set_active set_device
switch-remove d a s path q dev e k named h =
    let after : NetworkDevice = record dev { active_connection = q } in
    let parts = find_device-parts d s path dev e in
    let ensured = ensure_connection_object a q s in
    let devices = ensure_keeps_devices a q s in
    let there = ap (find path) devices ∙ parts.1 in
    let switched =
      find_device-intro d (set_active a q path s) path after parts.0
        (find-update path (λ x. record x { active_connection = q }) ensured.devices dev there) in
    let removed =
      ap (remove_device d) (changed_device d a s path q dev e named)
      ∙ found_device d (set_active a q path s) path after switched in
    (
      ap (λ t. contains dev.active_connection t.connections) removed
          ∙ removed_connections path dev.active_connection q after (set_active a q path s) h refl
              (ensure_keeps_connection a q dev.active_connection s k),
      ap (λ t. find path t.devices) removed ∙ removed_device path after (set_active a q path s),
    )
