-- ===== src/Network/Mirror.antt =====
-- What a client that follows the signals of the network manager service
-- (src/services/network_manager/network_manager_service.cpp) takes its devices to be.
use jappeos_core.Prelude.{
  ℕ, ◌≡◌, refl, ◌∙◌, inl, inr, Bool, true, false, none, some, List, [], ◌∷◌, Bool-cases,
  Option-cases, nat_eq, list_beq, list_empty, if_elim, Bytes, codes,
}
use jappeos_core.Network.Maps.{Map, keys, find, erase, erase_key}
use jappeos_core.Network.Data.{
  NmActive, ConnectionState, connected, deactivated, connection_unknown, activating, deactivating,
  PendingRequest, Context, Signal, device_added, device_removed, NetworkManager,
}
use jappeos_core.Network.Texts.{reason_string}
use jappeos_core.Network.Pending.{
  emit_wifi_connect_result, fail_loop, tell_all, finish, settle, start_failed, Answer, rejected,
  accepted, resolve_pending_wifi_connect_request, track_pending_wifi_connect_request, on_answer,
  take_context, on_answered, fail_pending_wifi_connect_requests_for_device,
  fail_all_pending_wifi_connect_requests,
}

-- The devices of a client that starts with none, from the signals that it got, the last first.
unfoldable pub mirror : List Signal → List Bytes
unfolding erase_key
mirror [] = []
mirror (device_added p ∷ xs) = p ∷ mirror xs
mirror (device_removed p ∷ xs) = erase_key p (mirror xs)
mirror (_ ∷ xs) = mirror xs

-- The devices stay, for the service and for the client.
pub record Keeps (s t : NetworkManager) : Type 0 where
  pub same_devices : keys t.devices ≡ keys s.devices
  pub same_mirror : mirror t.signals ≡ mirror s.signals

pub Keeps-trans : {s t u : NetworkManager} → Keeps s t → Keeps t u → Keeps s u
Keeps-trans p q = record {
  same_devices = q.same_devices ∙ p.same_devices;
  same_mirror = q.same_mirror ∙ p.same_mirror;
}

pub Keeps-none : (s : NetworkManager) → Keeps s s
Keeps-none s = record { same_devices = refl; same_mirror = refl }

pub emit_result-Keeps :
    (dev : Bytes) (n : ℕ) (ok : Bool) (code message : Bytes) (s : NetworkManager)
    → Keeps s (emit_wifi_connect_result dev n ok code message s)
unfolding emit_wifi_connect_result mirror
emit_result-Keeps dev n ok code message s = elim (Option-cases (find dev s.devices)) [
  | inl e ↦ rw (emit_wifi_connect_result, e) (Keeps-none s)
  | inr (d, e) ↦ elim (Bool-cases d.is_wifi) [
    | inl f ↦ rw (emit_wifi_connect_result, e, f) record { same_devices = refl; same_mirror = refl }
    | inr f ↦ rw (emit_wifi_connect_result, e, f) (Keeps-none s)
  ]
]

tell_all-Keeps :
    (code message : Bytes) (m : Map PendingRequest) (s : NetworkManager)
    → Keeps s (tell_all code message m s)
unfolding tell_all
tell_all-Keeps code message [] s = Keeps-none s
tell_all-Keeps code message ((path, r) ∷ m) s =
    let told = emit_wifi_connect_result r.device_path r.request_id false code message s in
    Keeps-trans {s = s} {t = told}
      (emit_result-Keeps r.device_path r.request_id false code message s)
      (tell_all-Keeps code message m told)

fail_loop-Keeps :
    (dev code message : Bytes) (m : Map PendingRequest) (s : NetworkManager)
    → Keeps s (fail_loop dev code message m s).1
unfolding fail_loop
fail_loop-Keeps dev code message [] s = Keeps-none s
fail_loop-Keeps dev code message ((path, r) ∷ m) s =
    let told = emit_wifi_connect_result r.device_path r.request_id false code message s in
    if_elim (λ (x : Map PendingRequest × NetworkManager). Keeps s x.1) (list_beq r.device_path dev)
      (λ e.
        Keeps-trans {s = s} {t = told}
          (emit_result-Keeps r.device_path r.request_id false code message s)
          (fail_loop-Keeps dev code message m told))
      (λ e. fail_loop-Keeps dev code message m s)

pub fail_device-Keeps :
    (dev code message : Bytes) (s : NetworkManager)
    → Keeps s (fail_pending_wifi_connect_requests_for_device dev code message s)
unfolding fail_pending_wifi_connect_requests_for_device
fail_device-Keeps dev code message s =
    let p = fail_loop-Keeps dev code message s.pending s in
    record { same_devices = p.same_devices; same_mirror = p.same_mirror }

pub fail_all-Keeps :
    (code message : Bytes) (s : NetworkManager)
    → Keeps s (fail_all_pending_wifi_connect_requests code message s)
unfolding fail_all_pending_wifi_connect_requests
fail_all-Keeps code message s =
    let p = tell_all-Keeps code message s.pending s in
    record { same_devices = p.same_devices; same_mirror = p.same_mirror }

finish-Keeps :
    (k : Bytes) (r : PendingRequest) (ok : Bool) (code message : Bytes) (s : NetworkManager)
    → Keeps s (finish k r ok code message s)
unfolding erase emit_wifi_connect_result
finish-Keeps k r ok code message s =
    let p = emit_result-Keeps r.device_path r.request_id ok code message s in
    record { same_devices = p.same_devices; same_mirror = p.same_mirror }

settle-Keeps :
    (ac : NmActive) (k : Bytes) (r : PendingRequest) (s : NetworkManager)
    → Keeps s (settle ac k r s)
unfolding settle
settle-Keeps ac k r s = by_state ac.state
  where
    failure : Bytes
    failure = codes "Connection activation failed"

    by_state : (x : ConnectionState) → Keeps s (settle (record ac { state = x }) k r s)
    by_state connected = finish-Keeps k r true (codes "activated") [] s
    by_state deactivated = finish-Keeps k r false (reason_string ac.reason) failure s
    by_state connection_unknown = finish-Keeps k r false (reason_string ac.reason) failure s
    by_state activating = Keeps-none s
    by_state deactivating = Keeps-none s

pub resolve-Keeps :
    (ac : NmActive) (s : NetworkManager) → Keeps s (resolve_pending_wifi_connect_request ac s)
unfolding resolve_pending_wifi_connect_request
resolve-Keeps ac s = elim (Option-cases ac.path) [
  | inl e ↦ rw (resolve_pending_wifi_connect_request, e) (Keeps-none s)
  | inr (path, e) ↦ elim (Bool-cases (list_empty path)) [
    | inl f ↦ rw (resolve_pending_wifi_connect_request, e, f) (Keeps-none s)
    | inr f ↦ elim (Option-cases (find path s.pending)) [
      | inl g ↦ rw (resolve_pending_wifi_connect_request, e, f, g) (Keeps-none s)
      | inr (r, g) ↦ rw (resolve_pending_wifi_connect_request, e, f, g) (settle-Keeps ac path r s)
    ]
  ]
]

track-Keeps :
    (ac : NmActive) (c : Context) (s : NetworkManager)
    → Keeps s (track_pending_wifi_connect_request ac c s)
unfolding track_pending_wifi_connect_request
track-Keeps ac c s = elim (Option-cases ac.path) [
  | inl e ↦ rw (track_pending_wifi_connect_request, e) missing
  | inr (path, e) ↦ elim (Bool-cases (list_empty path)) [
    | inl f ↦ rw (track_pending_wifi_connect_request, e, f) missing
    | inr f ↦
        let p = resolve-Keeps ac _ in
        rw (track_pending_wifi_connect_request, e, f)
          record { same_devices = p.same_devices; same_mirror = p.same_mirror }
  ]
]
  where
    missing : Keeps s (start_failed (codes "Active connection path is missing") c s)
    missing =
        emit_result-Keeps c.device_path c.request_id false (codes "activationStartFailed")
          (codes "Active connection path is missing") s

answer-Keeps : (c : Context) (a : Answer) (s : NetworkManager) → Keeps s (on_answer c a s)
unfolding on_answer
answer-Keeps c (rejected none) s =
    emit_result-Keeps c.device_path c.request_id false (codes "activationStartFailed") _ s
answer-Keeps c (rejected (some message)) s =
    emit_result-Keeps c.device_path c.request_id false (codes "activationStartFailed") message s
answer-Keeps c (accepted ac) s = track-Keeps ac c s

pub answered-Keeps : (n : ℕ) (a : Answer) (s : NetworkManager) → Keeps s (on_answered n a s)
unfolding on_answered
answered-Keeps n a s = elim (Option-cases (take_context n s.started)) [
  | inl e ↦ rw (on_answered, e) (Keeps-none s)
  | inr ((c, cs), e) ↦
      let p = answer-Keeps c a (record s { started = cs }) in
      rw (on_answered, e) record { same_devices = p.same_devices; same_mirror = p.same_mirror }
]
