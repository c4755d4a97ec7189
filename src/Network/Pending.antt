-- ===== src/Network/Pending.antt =====
-- The requests for a Wi-Fi connection that wait for their result
-- (src/services/network_manager/network_manager_service.cpp).
use jappeos_core.Prelude.{
  ℕ, Bool, true, false, Option, none, some, List, [], ◌∷◌, if◌then◌else◌, list_beq, list_empty,
  nat_eq, ◌==◌, Bytes, codes,
}
use jappeos_core.Network.Maps.{Map, find, erase, assign}
use jappeos_core.Network.Data.{
  connected, deactivated, connection_unknown, NmActive, PendingRequest, Call, activate_connection,
  add_and_activate_connection, Context, connect_result, NetworkManager, emit,
}
use jappeos_core.Network.Texts.{reason_string}

-- `EmitWifiConnectResult`: only a Wi-Fi device that is there sends the signal.
unfoldable pub emit_wifi_connect_result :
    Bytes → ℕ → Bool → Bytes → Bytes → NetworkManager → NetworkManager
unfolding find
emit_wifi_connect_result dev id ok code message s = elim (find dev s.devices) [
  | none ↦ s
  | some d ↦ if d.is_wifi then emit (connect_result dev id ok code message) s else s
]

abbrev pub finish : Bytes → PendingRequest → Bool → Bytes → Bytes → NetworkManager → NetworkManager
unfolding emit_wifi_connect_result erase
finish path r ok code message s =
    let told = emit_wifi_connect_result r.device_path r.request_id ok code message s in
    record told { pending = erase path told.pending }

-- What `ResolvePendingWifiConnectRequest` does with the request that it finds.
unfoldable pub settle : NmActive → Bytes → PendingRequest → NetworkManager → NetworkManager
unfolding emit_wifi_connect_result erase
settle ac path r s = elim ac.state [
  | connected ↦ finish path r true (codes "activated") [] s
  | deactivated ↦
      finish path r false (reason_string ac.reason) (codes "Connection activation failed") s
  | connection_unknown ↦
      finish path r false (reason_string ac.reason) (codes "Connection activation failed") s
  | _ ↦ s
]

-- `ResolvePendingWifiConnectRequest`
unfoldable pub resolve_pending_wifi_connect_request : NmActive → NetworkManager → NetworkManager
unfolding find settle
resolve_pending_wifi_connect_request ac s = elim ac.path [
  | none ↦ s
  | some path ↦
      if list_empty path
      then s
      else elim (find path s.pending) [ none ↦ s | some r ↦ settle ac path r s ]
]

abbrev pub start_failed : Bytes → Context → NetworkManager → NetworkManager
unfolding emit_wifi_connect_result
start_failed message c s =
    emit_wifi_connect_result c.device_path c.request_id false (codes "activationStartFailed")
      message s

-- `TrackPendingWifiConnectRequest`
unfoldable pub track_pending_wifi_connect_request :
    NmActive → Context → NetworkManager → NetworkManager
unfolding assign resolve_pending_wifi_connect_request emit_wifi_connect_result
track_pending_wifi_connect_request ac c s =
    let missing = start_failed (codes "Active connection path is missing") c s in
    elim ac.path [
      | none ↦ missing
      | some path ↦
          let r : PendingRequest = record {
            request_id = c.request_id;
            device_path = c.device_path;
            ssid = c.ssid;
          } in
          if list_empty path
          then missing
          else resolve_pending_wifi_connect_request ac
              (record s { pending = assign path r s.pending })
    ]

-- What libnm answers to a call: an error, maybe with a message, or an active connection.
pub data Answer : Type 0 where
  rejected : Option Bytes → Answer
  accepted : NmActive → Answer

abbrev rejection : Call → Bytes
rejection (activate_connection profile ap) = codes "Activation request was rejected"
rejection (add_and_activate_connection ssid security ap) =
    codes "Add-and-activate request was rejected"

-- The callbacks of the two calls, which differ in one text.
unfoldable pub on_answer : Context → Answer → NetworkManager → NetworkManager
unfolding emit_wifi_connect_result track_pending_wifi_connect_request
on_answer c (rejected none) s = start_failed (rejection c.call) c s
on_answer c (rejected (some message)) s = start_failed message c s
on_answer c (accepted ac) s = track_pending_wifi_connect_request ac c s

abbrev pub put_back : Context → Option (Context × List Context) → Option (Context × List Context)
put_back c none = none
put_back c (some (d, ds)) = some (d, c ∷ ds)

-- The context of a call that libnm answers, and the others.
unfoldable pub take_context : ℕ → List Context → Option (Context × List Context)
take_context id [] = none
take_context id (c ∷ cs) =
    let rest = take_context id cs in if c.request_id == id then some (c, cs) else put_back c rest

-- libnm answers the call with this request; it answers each call once.
unfoldable pub on_answered : ℕ → Answer → NetworkManager → NetworkManager
unfolding take_context on_answer
on_answered id a s = elim (take_context id s.started) [
  | none ↦ s
  | some (c, cs) ↦ on_answer c a (record s { started = cs })
]

-- The loop of `FailPendingWifiConnectRequestsForDevice`, over what is left of the map.
unfoldable pub fail_loop :
    Bytes
    → Bytes
    → Bytes
    → Map PendingRequest
    → NetworkManager
    → Map PendingRequest × NetworkManager
unfolding emit_wifi_connect_result
fail_loop dev code message [] s = ([], s)
fail_loop dev code message ((path, r) ∷ m) s =
    let told = emit_wifi_connect_result r.device_path r.request_id false code message s in
    let gone = fail_loop dev code message m told in
    let kept = fail_loop dev code message m s in
    if list_beq r.device_path dev then gone else ((path, r) ∷ kept.0, kept.1)

-- `FailPendingWifiConnectRequestsForDevice`
unfoldable pub fail_pending_wifi_connect_requests_for_device :
    Bytes → Bytes → Bytes → NetworkManager → NetworkManager
unfolding fail_loop
fail_pending_wifi_connect_requests_for_device dev code message s =
    let (left, told) = fail_loop dev code message s.pending s in record told { pending = left }

-- The loop of `FailAllPendingWifiConnectRequests`
unfoldable pub tell_all : Bytes → Bytes → Map PendingRequest → NetworkManager → NetworkManager
unfolding emit_wifi_connect_result
tell_all code message [] s = s
tell_all code message ((path, r) ∷ m) s =
    tell_all code message m
      (emit_wifi_connect_result r.device_path r.request_id false code message s)

-- `FailAllPendingWifiConnectRequests`
unfoldable pub fail_all_pending_wifi_connect_requests :
    Bytes → Bytes → NetworkManager → NetworkManager
unfolding tell_all
fail_all_pending_wifi_connect_requests code message s = record (tell_all code message s.pending s) {
  pending = [];
}
