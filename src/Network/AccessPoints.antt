-- ===== src/Network/AccessPoints.antt =====
-- `SyncWifiAccessPoints` (src/services/network_manager/network_manager_service.cpp).
use jappeos_core.Prelude.{
  Bool, true, false, Option, none, some, List, [], ◌∷◌, if◌then◌else◌, any, list_beq, nat_eq, Bytes,
  codes,
}
use jappeos_core.Network.Maps.{Map, contains, update}
use jappeos_core.Network.Data.{
  NmAccessPoint, AccessPoint, Signal, access_point_added, access_point_removed,
}
use jappeos_core.Network.Texts.{object_path_of, access_point_security}

-- The access points, the signals that were sent and the paths that were seen; and whether an
-- exception has ended the function.
pub record Syncing : Type 0 where
  pub points : Map AccessPoint
  pub sent : List Signal
  pub new_paths : List Bytes
  pub is_thrown : Bool

-- The properties that are set, on a new access point and on one that is there.
abbrev pub describe_access_point : Option Bytes → NmAccessPoint → Bytes → AccessPoint
unfolding access_point_security
describe_access_point active ap path = record {
  ssid = ap.ssid;
  strength = ap.strength;
  security = access_point_security ap.flags;
  frequency = ap.frequency;
  connected = elim active [ none ↦ false | some a ↦ list_beq a path ];
}

abbrev pub enter_access_point : Bytes → Bytes → AccessPoint → Syncing → Syncing
unfolding contains update
enter_access_point dev p a s =
    if contains p s.points
    then record s { points = update p (λ b. a) s.points; new_paths = p ∷ s.new_paths }
    else record s {
      points = (p, a) ∷ s.points;
      sent = access_point_added dev p ∷ s.sent;
      new_paths = p ∷ s.new_paths;
    }

-- One access point: the body of the loop over `aps`.
unfoldable pub see_access_point : Bytes → Option Bytes → NmAccessPoint → Syncing → Syncing
unfolding object_path_of contains update access_point_security
see_access_point dev active ap s = elim ap.path [
  | none ↦ s
  | some nm ↦ elim (object_path_of dev (codes "AccessPoints") nm) [
    | none ↦ record s { is_thrown = true }
    | some p ↦ enter_access_point dev p (describe_access_point active ap nm) s
  ]
]

-- The loop over `aps`.
unfoldable pub see_access_points : Bytes → Option Bytes → List NmAccessPoint → Syncing → Syncing
unfolding see_access_point
see_access_points dev active [] s = s
see_access_points dev active (ap ∷ aps) s =
    let seen = see_access_point dev active ap s in
    let rest = see_access_points dev active aps seen in if seen.is_thrown then seen else rest

abbrev pub is_seen : List Bytes → Bytes → Bool
is_seen ps p = any (λ q. list_beq p q) ps

-- The loop that removes what was not seen.
unfoldable pub remove_unseen :
    Bytes → List Bytes → Map AccessPoint → List Signal → Map AccessPoint × List Signal
remove_unseen dev seen [] sent = ([], sent)
remove_unseen dev seen ((p, a) ∷ m) sent =
    let kept = remove_unseen dev seen m sent in
    let rest = remove_unseen dev seen m (access_point_removed dev p ∷ sent) in
    if is_seen seen p then ((p, a) ∷ kept.0, kept.1) else rest

-- `SyncWifiAccessPoints`: the access points and the signals, and whether it returned.
unfoldable pub sync_wifi_access_points :
    Bytes
    → Option Bytes
    → List NmAccessPoint
    → Map AccessPoint
    → List Signal
    → Bool × (Map AccessPoint × List Signal)
unfolding see_access_points remove_unseen
sync_wifi_access_points dev active aps points sent =
    let start : Syncing = record {
      points = points;
      sent = sent;
      new_paths = [];
      is_thrown = false;
    } in
    let s = see_access_points dev active aps start in
    if s.is_thrown
    then (false, (s.points, s.sent))
    else (true, remove_unseen dev s.new_paths s.points s.sent)
