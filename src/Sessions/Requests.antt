-- ===== src/Sessions/Requests.antt =====
-- The methods that a client calls, with their policy
-- (src/services/session_manager/session_manager_service.cpp).
use jappeos_core.Sessions.Lifecycle.{stop_session, create_session, in_order}
use jappeos_core.Prelude.{
  ℕ, String, Bool, true, false, ◌&&◌, ◌||◌, not, Option, none, some, List, [], ◌∷◌, map,
  if◌then◌else◌, ◌==◌, nat_eq, string_eq, any,
}
use jappeos_core.Services.Manager.{Table, find_key}
use jappeos_core.Sessions.Data.{
  pure, no_such_session, access_denied, invalid_session, missing_username, check, get, lift, M,
  UnitName, World, SessionInfo, ◌>>=◌, ◌>>◌, SessionManager,
}

-- The sender of a message: `GetUnixUser` and `GetSenderPID`.
pub record Caller : Type 0 where
  pub uid : ℕ
  pub pid : ℕ

-- `IsManagedUserSession`
abbrev pub is_managed_user_session : ℕ → SessionManager → Bool
is_managed_user_session uid s = any (λ e. e.1.uid == uid) s.sessions

abbrev is_among : List ℕ → ℕ → Bool
is_among pids pid = any (λ p. p == pid) pids

abbrev is_parent_among : List ℕ → Option ℕ → Bool
is_parent_among pids none = false
is_parent_among pids (some parent) = is_among pids parent

-- `IsPrivilegedClientProcess`
abbrev pub is_privileged_client_process : World → ℕ → Bool → SessionManager → Bool
is_privileged_client_process w pid allow_child_processes s =
    any
      (λ e.
        let pids = e.1.privileged_client_processes in
        is_among pids pid || allow_child_processes && is_parent_among pids (w.parent_of s.log pid))
      s.sessions

-- `SharedPolicy`
unfoldable pub shared_policy : World → Caller → M (Unit {0})
shared_policy w c = do
  s ← get
  check (is_managed_user_session c.uid s) access_denied
  check (is_privileged_client_process w c.pid true s) access_denied

abbrev pub has_uid : Option SessionInfo → ℕ → Bool
has_uid none uid = false
has_uid (some x) uid = uid == x.uid

-- `IsGreeter`
unfoldable pub is_greeter : ℕ → SessionManager → Bool
unfolding find_key
is_greeter uid s = has_uid (find_key s.greeter_session_id s.sessions) uid

-- `OnCreateSession`
unfoldable pub on_create_session : World → Caller → String → String → M (String × (ℕ × String))
unfolding shared_policy is_greeter create_session
on_create_session w c username password = do
  shared_policy w c
  check (not (username == "")) missing_username
  s ← get
  check (c.uid == 0 || is_greeter c.uid s) access_denied
  create_session w (stop_session w) username password false none

-- The session of the user that an empty id stands for.
unfoldable pub find_uid : ℕ → Table SessionInfo → Option SessionInfo
find_uid uid [] = none
find_uid uid ((k, x) ∷ t) = if x.uid == uid then some x else find_uid uid t

unfoldable pub stop_target : World → Caller → String → SessionManager → M SessionInfo
unfolding find_key find_uid in_order
stop_target w c id s =
    if id == ""
    then lift (find_uid c.uid (in_order w s.sessions)) invalid_session
    else lift (find_key id s.sessions) no_such_session

-- `OnStopSession`
unfoldable pub on_stop_session : World → Caller → String → M (Unit {0})
unfolding shared_policy stop_session stop_target
on_stop_session w c id = do
  shared_policy w c
  s ← get
  x ← stop_target w c id s
  check (c.uid == x.uid) access_denied
  stop_session w id

-- The rows of the list: id, user name, uid, seat and scope.
abbrev pub Row : Type 0
Row = String × (String × (ℕ × (String × UnitName)))

abbrev row : String × SessionInfo → Row
row e = (e.0, (e.1.username, (e.1.uid, (e.1.seat, e.1.scope_name))))

-- `OnListSessions`
unfoldable pub on_list_sessions : World → Caller → M (List Row)
unfolding shared_policy in_order
on_list_sessions w c = do
  shared_policy w c
  check (c.uid == 0) access_denied
  s ← get
  pure (map row (in_order w s.sessions))
