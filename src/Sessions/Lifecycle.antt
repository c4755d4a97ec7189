-- ===== src/Sessions/Lifecycle.antt =====
-- How a session begins and ends
-- (src/services/session_manager/session_manager_service.cpp). `StopSession` and
-- `CreateLoginSession` call each other: each function here takes the `StopSession` that it calls,
-- and `stop_nested` ties the knot as often as it is told.
use jappeos_core.Sessions.Processes.{
  subscribe_to_session_signals, spawn_user_session_processes, terminate_pam, cleanup_pam,
  connect_user_manager, live_user, terminate_processes, activate_logind_session,
}
use jappeos_core.Prelude.{
  list_empty, ℕ, zero, suc, String, Bool, true, false, ◌&&◌, not, Option, none, some, List, [], ◌∷◌,
  if◌then◌else◌, ◌==◌, nat_eq, string_eq,
}
use jappeos_core.Services.Manager.{Table, find_key, erase_key, is_some}
use jappeos_core.Sessions.Data.{
  opens, guarded, authentication_failed, system_failed, duplicate_session, no_such_session,
  unknown_user, update_session, too_deep, no_accounts, no_session_id, update_key, when, lift,
  attempt, get, check, pure, erase_session, modify, throw, session_unit, M, World, SessionInfo,
  Leader, ◌>>=◌, ◌>>◌, SessionManager, log_effect,
}

abbrev pub greeter_user : String
greeter_user = "jos-greeter"

abbrev pub pam_service : Option String → Bool → String
pam_service none true = "jappeos-greeter"
pam_service none false = "jappeos-login"
pam_service (some service) is_login = service

abbrev pub no_password_service : String
no_password_service = "jappeos-login-nopassword"

abbrev pub or_seat0 : String → String
or_seat0 seat = if seat == "" then "seat0" else seat

abbrev pub new_session : String → String → ℕ → Leader → String → SessionInfo
new_session id username uid l seat = record {
  id = id;
  username = username;
  scope_name = session_unit id;
  uid = uid;
  leader_pid = l.pid;
  control_fd = some l.control_fd;
  seat = seat;
  vt_number = l.vt_number;
  privileged_client_processes = [];
  active_state = "";
  result = "";
  installer_launch_scheduled = false;
  installer_started = false;
  installer_source = false;
  manager = false;
  unit_path = "";
  starting = true;
  start_jobs = [];
}

abbrev pub insert_session : SessionInfo → SessionManager → SessionManager
insert_session x s = record s { sessions = (x.id, x) ∷ erase_key x.id s.sessions }

module _ (w : World) where
  -- What `guard1` of `CreateSession` undoes.
  unfoldable pub unregister : String → SessionManager → SessionManager
  unfolding terminate_processes erase_key
  unregister id s = erase_session id (terminate_processes w id s)

  unfoldable pub place : String × SessionInfo → Table SessionInfo → Table SessionInfo
  place e [] = e ∷ []
  place (k, x) ((j, y) ∷ t) = if w.less j k then (j, y) ∷ place (k, x) t else (k, x) ∷ (j, y) ∷ t

  -- The sessions in the order in which a loop over the `std::map` meets them.
  unfoldable pub in_order : Table SessionInfo → Table SessionInfo
  unfolding place
  in_order [] = []
  in_order (e ∷ t) = place e (in_order t)

  -- `_sessions.begin()`
  unfoldable pub first_session : Table SessionInfo → Option SessionInfo
  first_session [] = none
  first_session ((k, x) ∷ t) = elim (first_session t) [
    | none ↦ some x
    | some y ↦ if w.less y.id x.id then some y else some x
  ]

  module _ (stop_session : String → M (Unit {0})) where
    -- `StopLoginSession`
    unfoldable pub stop_login_session : M (Unit {0})
    stop_login_session = do
      s ← get
      when s.is_greeter_active (do
        stop_session s.greeter_session_id
        modify (λ s. record s { greeter_session_id = ""; is_greeter_active = false }))

    -- `CreateSession` from the registration of the session on.
    unfoldable pub start_session : String → String → String → Bool → M (Unit {0})
    unfolding connect_user_manager spawn_user_session_processes subscribe_to_session_signals
        activate_logind_session stop_login_session
    start_session username id seat is_login = do
      connect_user_manager w id
      spawn_user_session_processes w username id
      subscribe_to_session_signals w stop_session id (session_unit id)
      attempt (activate_logind_session w id seat) (λ e. pure tt)
      when (not is_login) (attempt stop_login_session (λ e. pure tt))

    -- `CreateSession` from the query of logind on.
    unfoldable pub register_session : String → ℕ → Leader → Bool → M (String × (ℕ × String))
    unfolding start_session unregister find_key erase_key
    register_session username uid l is_login = do
      s ← get
      let id = w.session_of s.log l.pid
      check (not (id == "")) no_session_id
      check (not (is_some (find_key id s.sessions))) duplicate_session
      let seat = or_seat0 (w.seat_of s.log id)
      modify (insert_session (new_session id username uid l seat))
      guarded (unregister id) (start_session username id seat is_login)
      pure (id, (uid, seat))

    -- `CreateSession`
    unfoldable pub create_session :
        String → String → Bool → Option String → M (String × (ℕ × String))
    unfolding register_session cleanup_pam
    create_session username password is_login service = do
      uid ← lift (w.uid_of username) unknown_user
      s ← get
      l ←
          lift (w.authenticate s.log (pam_service service is_login) username password)
            authentication_failed
      modify (log_effect (opens l.pid))
      guarded (cleanup_pam w l) (register_session username uid l is_login)

    -- The loop of `TryAutologinSession` over the users: the last one that is set to log in.
    unfoldable pub select_user : List String → Option String → M (Option String)
    select_user [] selected = pure selected
    select_user (u ∷ us) selected = do
      s ← get
      automatic ← lift (w.automatic_login s.log u) system_failed
      select_user us (if automatic then some u else selected)

    unfoldable pub log_in : Option String → M Bool
    unfolding create_session
    log_in none = pure false
    log_in (some user) = do
      s ← get
      name ← lift (w.user_name s.log user) system_failed
      created ← create_session name "" false (some no_password_service)
      pure true

    unfoldable pub log_in_live_user : M Bool
    unfolding create_session
    log_in_live_user = do
      created ← create_session live_user "" false (some no_password_service)
      pure true

    unfoldable pub log_in_selected : M Bool
    unfolding create_session select_user log_in
    log_in_selected = do
      check w.has_accounts no_accounts
      s ← get
      users ← lift (w.users s.log) system_failed
      user ← select_user users none
      log_in user

    -- `TryAutologinSession`
    unfoldable pub try_autologin_session : M Bool
    unfolding log_in_live_user log_in_selected
    try_autologin_session =
        attempt (do s ← get; if s.is_live_environment then log_in_live_user else log_in_selected)
          (λ e. pure false)

    unfoldable pub create_greeter : M (Unit {0})
    unfolding create_session
    create_greeter = do
      created ← create_session greeter_user "" true none
      modify (λ s. record s { greeter_session_id = created.0; is_greeter_active = true })

    -- `CreateLoginSession`
    unfoldable pub create_login_session : M (Unit {0})
    unfolding try_autologin_session create_greeter
    create_login_session = do
      s ← get
      when (not s.is_greeter_active)
          (do done ← try_autologin_session; when (not done) create_greeter)

  unfoldable pub activate_found : Option SessionInfo → M (Unit {0})
  unfolding activate_logind_session
  activate_found none = pure tt
  activate_found (some x) = activate_logind_session w x.id x.seat

  -- What `StopSession` turns to once the session is gone.
  unfoldable pub continue_after : M (Unit {0}) → M (Unit {0})
  unfolding activate_logind_session first_session activate_found
  continue_after login = do
    s ← get
    (if list_empty s.sessions
        then attempt login (λ e. pure tt)
        else activate_found (first_session s.sessions))

  -- The part of `StopSession` that takes the session down.
  unfoldable pub take_down : String → SessionInfo → SessionManager → SessionManager
  unfolding terminate_processes terminate_pam erase_key update_key
  take_down id x s = erase_session id (
      terminate_pam w id x (
        terminate_processes w id
          (update_session id (λ y. record y { installer_source = false }) s)))

  -- `StopSession`, with the `CreateLoginSession` that it calls.
  unfoldable pub stop_with : M (Unit {0}) → String → M (Unit {0})
  unfolding take_down continue_after find_key
  stop_with login id = do
    s ← get
    x ← lift (find_key id s.sessions) no_such_session
    modify (take_down id x)
    when (not (id == s.greeter_session_id) && not s.is_greeter_active) (continue_after login)

  -- Calls of `StopSession` inside each other, over what stands for the innermost one.
  unfoldable pub stop_nested : ℕ → (String → M (Unit {0})) → String → M (Unit {0})
  unfolding stop_with create_login_session
  stop_nested zero base = base
  stop_nested (suc n) base = stop_with (create_login_session (stop_nested n base))

  -- `StopSession`
  unfoldable pub stop_session : String → M (Unit {0})
  unfolding stop_nested
  stop_session = stop_nested 2 (λ id. throw too_deep)

  -- The first loop of `~SessionManagerService`
  unfoldable pub end_sessions : Table SessionInfo → SessionManager → SessionManager
  unfolding terminate_processes terminate_pam
  end_sessions [] s = s
  end_sessions ((k, x) ∷ t) s = end_sessions t (terminate_pam w k x (terminate_processes w x.id s))

  -- `~SessionManagerService`
  unfoldable pub destroy : SessionManager → SessionManager
  unfolding end_sessions in_order
  destroy s = record (end_sessions (in_order s.sessions) s) {
    sessions = [];
    greeter_session_id = "";
    is_greeter_active = false;
  }
