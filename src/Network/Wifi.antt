-- ===== src/Network/Wifi.antt =====
-- `WifiConnect` and `SharedPolicy` (src/services/network_manager/network_manager_service.cpp).
use jappeos_core.Prelude.{
  ℕ, ◌+◌, ◌%◌, Bool, true, false, ◌||◌, not, Option, none, some, List, [], ◌∷◌, if◌then◌else◌,
  list_beq, list_empty, nat_eq, Bytes, codes, Result, ok, err, ◌>>=◌, ◌>>◌, require, reject,
  or_throw, u64_mod,
}
use jappeos_core.Sessions.Data.{World, SessionManager}
use jappeos_core.Sessions.Requests.{Caller, is_managed_user_session, is_privileged_client_process}
use jappeos_core.Network.Data.{
  wifi, NmAccessPoint, NmProfile, NmDevice, WifiSecurity, Call, activate_connection,
  add_and_activate_connection, NetworkManager,
}
use jappeos_core.Network.Texts.{access_point_security, normalize_security}

-- The exceptions of the methods.
pub data WifiError : Type 0 where
  unknown_user : WifiError
  unauthorized_process : WifiError
  not_available : WifiError
  empty_ssid : WifiError
  unknown_device : WifiError
  not_a_wifi_device : WifiError
  no_access_point : WifiError
  no_object_path : WifiError
  secret_required : WifiError
  unsupported_security : Bytes → WifiError

-- `SharedPolicy`, which asks the session manager.
unfoldable pub shared_policy : World → Caller → SessionManager → Result WifiError (Unit {0})
unfolding require
shared_policy w c sessions = do
  require (is_managed_user_session c.uid sessions) unknown_user
  require (is_privileged_client_process w c.pid true sessions) unauthorized_process

-- What a client asks for.
pub record WifiRequest : Type 0 where
  pub ssid : Bytes
  pub security : Bytes
  pub secret : Bytes

abbrev key_of : Bytes → Bytes → Result WifiError (Option WifiSecurity)
key_of mgmt secret =
    if list_empty secret
    then err secret_required
    else ok (some (record { key_mgmt = mgmt; psk = some secret; wep_key0 = none }))

abbrev wep_of : Bytes → Result WifiError (Option WifiSecurity)
wep_of secret =
    if list_empty secret
    then err secret_required
    else ok (some (record { key_mgmt = codes "none"; psk = none; wep_key0 = some secret }))

-- `ConfigureWifiSecurity`
unfoldable pub configure_wifi_security : Bytes → Bytes → Result WifiError (Option WifiSecurity)
configure_wifi_security security secret =
    if list_empty security || list_beq security (codes "open")
    then ok none
    else if list_beq security (codes "wpa1") || list_beq security (codes "wpa2")
    then key_of (codes "wpa-psk") secret
    else if list_beq security (codes "wpa3")
    then key_of (codes "sae") secret
    else if list_beq security (codes "wep")
    then wep_of secret
    else if list_beq security (codes "owe")
    then ok (some (record { key_mgmt = codes "owe"; psk = none; wep_key0 = none }))
    else err (unsupported_security security)

-- The loop that selects an access point, for a security that is normalized.
unfoldable pub select_access_point : Bytes → Bytes → List NmAccessPoint → Option NmAccessPoint
unfolding normalize_security access_point_security
select_access_point ssid security [] = none
select_access_point ssid security (ap ∷ aps) =
    let rest = select_access_point ssid security aps in
    if not (list_beq ap.ssid ssid)
    then rest
    else if list_empty security
    then some ap
    else if list_beq (normalize_security (access_point_security ap.flags)) security
    then some ap
    else rest

abbrev has_ssid : Option Bytes → Bytes → Bool
has_ssid none ssid = false
has_ssid (some s) ssid = list_beq s ssid

-- The loop over the saved profiles.
unfoldable pub find_profile : Bytes → List NmProfile → Option NmProfile
find_profile ssid [] = none
find_profile ssid (p ∷ ps) =
    let rest = find_profile ssid ps in if has_ssid p.wireless_ssid ssid then some p else rest

-- The security of a new profile.
unfoldable pub effective_security : Bytes → NmAccessPoint → Bytes
unfolding normalize_security access_point_security
effective_security security ap =
    if list_empty security then normalize_security (access_point_security ap.flags) else security

abbrev new_profile : WifiRequest → Bytes → NmAccessPoint → Bytes → Result WifiError Call
unfolding configure_wifi_security effective_security
new_profile r security ap path = do
  key ← configure_wifi_security (effective_security security ap) r.secret
  ok (add_and_activate_connection r.ssid key path)

-- The call that is made: from the selection of the access point to the end.
unfoldable pub choose_call : WifiRequest → NmDevice → Result WifiError Call
unfolding select_access_point find_profile or_throw configure_wifi_security normalize_security
    effective_security
choose_call r d = do
  ap ←
      or_throw (select_access_point r.ssid (normalize_security r.security) d.access_points)
        no_access_point
  path ← or_throw ap.path no_object_path
  elim (find_profile r.ssid d.available_connections) [
    | some profile ↦ ok (activate_connection profile path)
    | none ↦ new_profile r (normalize_security r.security) ap path
  ]

abbrev is_wifi_kind : NmDevice → Bool
is_wifi_kind d = elim d.kind [ wifi ↦ true | _ ↦ false ]

-- The checks before the request gets its number; `found` is libnm's device of the interface.
unfoldable pub admit_request :
    Result WifiError (Unit {0})
    → Option NmDevice
    → WifiRequest
    → NetworkManager
    → Result WifiError NmDevice
unfolding require reject or_throw
admit_request policy found r s = do
  policy
  require s.is_available not_available
  reject (list_empty r.ssid) empty_ssid
  d ← or_throw found unknown_device
  require (is_wifi_kind d) not_a_wifi_device
  ok d

abbrev pub take_id : NetworkManager → NetworkManager
take_id s = record s { next_request_id = (s.next_request_id + 1) % u64_mod }

abbrev pub start_call : Bytes → WifiRequest → ℕ → Call → NetworkManager → NetworkManager
start_call dev r id call s = record s {
  started = (record { call = call; request_id = id; device_path = dev; ssid = r.ssid }) ∷ s.started;
}

-- `WifiConnect`: the number that the client gets, or the exception.
unfoldable pub wifi_connect :
    Result WifiError (Unit {0})
    → Option NmDevice
    → Bytes
    → WifiRequest
    → NetworkManager
    → Result WifiError ℕ × NetworkManager
unfolding admit_request choose_call
wifi_connect policy found dev r s = elim (admit_request policy found r s) [
  | err e ↦ (err e, s)
  | ok d ↦ elim (choose_call r d) [
    | err e ↦ (err e, take_id s)
    | ok call ↦ (ok s.next_request_id, start_call dev r s.next_request_id call (take_id s))
  ]
]
