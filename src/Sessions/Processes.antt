-- ===== src/Sessions/Processes.antt =====
-- The processes behind a session
-- (src/services/session_manager/session_manager_service.cpp): the leader that holds the PAM
-- session, and the units of the user's systemd.
use jappeos_core.Sessions.Data.{
  session_unit, kills, installer_unit, activates, system_failed, starts_unit, no_such_session,
  reaps, daemon_unit, empty_session_id, signals, get, lift, polls, check, stops_unit, closes,
  modify, ◌>>=◌, ◌>>◌, SessionManager, log_effect, when, update_session, UnitName, Leader,
  update_key, M, World, SessionInfo,
}
use jappeos_core.Prelude.{
  ℕ, String, Bool, true, false, ◌&&◌, ◌||◌, not, Option, none, some, [], ◌∷◌, ◌++◌, if◌then◌else◌,
  ◌==◌, nat_eq, string_eq, ok,
}
use jappeos_core.Services.Manager.{find_key}

unfoldable pub when_found : Option SessionInfo → (SessionInfo → M (Unit {0})) → M (Unit {0})
when_found none f s = (ok tt, s)
when_found (some x) f s = f x s

abbrev pub live_user : String
live_user = "liveuser"

module _ (w : World) where
  -- `waitpid` without blocking, again after a while, and then a kill and `waitpid`.
  unfoldable pub reap : ℕ → SessionManager → SessionManager
  reap pid s =
      let s1 = log_effect (polls pid) s in
      let s2 = log_effect (polls pid) s1 in
      if w.has_exited s1.log pid
      then log_effect (reaps pid) s1
      else if w.has_exited s2.log pid
      then log_effect (reaps pid) s2
      else log_effect (reaps pid) (log_effect (kills pid) s2)

  -- `cleanupPam` of `CreateSession`
  unfoldable pub cleanup_pam : Leader → SessionManager → SessionManager
  unfolding reap
  cleanup_pam l s =
      let s1 = log_effect (closes l.control_fd) (log_effect (signals l.control_fd) s) in
      if l.pid == 0 then s1 else reap l.pid s1

  abbrev pub signal_fd : Option ℕ → SessionManager → SessionManager
  signal_fd none s = s
  signal_fd (some fd) s = log_effect (signals fd) s

  abbrev pub close_fd : Option ℕ → SessionManager → SessionManager
  close_fd none s = s
  close_fd (some fd) s = log_effect (closes fd) s

  abbrev pub without_leader : SessionInfo → SessionInfo
  without_leader x = record x { leader_pid = 0; control_fd = none }

  -- `TerminatePAMForSession`, on the session under the key.
  unfoldable pub terminate_pam : String → SessionInfo → SessionManager → SessionManager
  unfolding reap update_key
  terminate_pam key x s =
      if x.leader_pid == 0
      then s
      else update_session key (without_leader)
          (close_fd x.control_fd (reap x.leader_pid (signal_fd x.control_fd s)))

  abbrev pub stop_units : Option SessionInfo → String → SessionManager → SessionManager
  stop_units none id s = s
  stop_units (some x) id s =
      if x.manager
      then log_effect (stops_unit x.scope_name)
          (log_effect (stops_unit (daemon_unit id)) (log_effect (stops_unit (installer_unit id)) s))
      else s

  -- `TerminateUserSessionProcesses`: each failure to stop a unit is caught.
  unfoldable pub terminate_processes : String → SessionManager → SessionManager
  unfolding find_key
  terminate_processes id s = stop_units (find_key id s.sessions) id s

  -- `ConnectUserManager`
  unfoldable pub connect_user_manager : String → M (Unit {0})
  unfolding find_key update_key
  connect_user_manager id = do
    s ← get
    x ← lift (find_key id s.sessions) no_such_session
    check (w.connects s.log x.uid) system_failed
    modify (update_session id (λ x. record x { manager = true }))

  -- One call of `StartTransientUnit`, with its job.
  unfoldable pub start_transient_unit : String → UnitName → M (Unit {0})
  unfolding update_key
  start_transient_unit id name = do
    modify (log_effect (starts_unit name))
    s ← get
    job ← lift (w.start_unit s.log name) system_failed
    modify (update_session id (λ x. record x { start_jobs = x.start_jobs ++ job ∷ [] }))

  -- `SpawnUserSessionProcesses`
  unfoldable pub spawn_user_session_processes : String → String → M (Unit {0})
  unfolding start_transient_unit
  spawn_user_session_processes username id = do
    uid ← lift (w.uid_of username) system_failed
    start_transient_unit id (session_unit id)
    start_transient_unit id (daemon_unit id)

  -- `ActivateLogindSession`
  unfoldable pub activate_logind_session : String → String → M (Unit {0})
  activate_logind_session id seat = do
    check (not (id == "")) empty_session_id
    modify (log_effect (activates id seat))
    s ← get
    check (w.activation s.log id seat) system_failed

  abbrev pub owned_by : Option ℕ → ℕ → Bool
  owned_by none uid = false
  owned_by (some owner) uid = owner == uid

  -- `HandleSessionMainPIDChanged`
  unfoldable pub main_pid_changed : String → ℕ → SessionManager → SessionManager
  unfolding update_key
  main_pid_changed id pid s =
      update_session id
        (λ x. record x {
          privileged_client_processes =
              if not (pid == 0) && owned_by (w.owner_of s.log pid) x.uid then pid ∷ [] else [];
        })
        s

  abbrev pub is_stopped : SessionInfo → Bool
  is_stopped x =
      x.active_state == "failed"
      || not (x.result == "success") && not (x.result == "")
      || x.active_state == "inactive" && x.result == "success"

  module _ (stop_session : String → M (Unit {0})) where
    -- `EvaluateSessionState`
    unfoldable pub evaluate_session_state : SessionInfo → M (Unit {0})
    evaluate_session_state x = when (not x.starting && is_stopped x) (stop_session x.id)

    abbrev pub launches_installer : SessionManager → SessionInfo → Bool
    launches_installer s x =
        not x.starting
        && s.is_live_environment
        && x.active_state == "active"
        && x.username == live_user
        && not x.installer_launch_scheduled
        && not x.installer_started

    abbrev pub with_active_state : SessionManager → String → SessionInfo → SessionInfo
    with_active_state s state x =
        let y = record x { active_state = state } in
        if launches_installer s y
        then record y { installer_launch_scheduled = true; installer_source = true }
        else y

    -- `HandleSessionActiveStateChanged`
    unfoldable pub active_state_changed : String → String → M (Unit {0})
    unfolding find_key update_key evaluate_session_state
    active_state_changed id state = do
      s ← get
      modify (update_session id (with_active_state s state))
      s' ← get
      when_found (find_key id s'.sessions) evaluate_session_state

    abbrev pub refresh_found : String → SessionInfo → M (Unit {0})
    unfolding active_state_changed main_pid_changed update_key
    refresh_found id x = do
      s ← get
      now ← lift (w.snapshot s.log x.unit_path) system_failed
      modify (update_session id (λ y. record y { result = now.result }))
      modify (main_pid_changed id now.main_pid)
      active_state_changed id now.active_state

    -- `RefreshSessionState`
    unfoldable pub refresh_session_state : String → M (Unit {0})
    unfolding find_key active_state_changed main_pid_changed update_key
    refresh_session_state id = do s ← get; when_found (find_key id s.sessions) (refresh_found id)

    -- `SubscribeToSessionSignals`
    unfoldable pub subscribe_to_session_signals : String → UnitName → M (Unit {0})
    unfolding refresh_session_state update_key
    subscribe_to_session_signals id name = do
      s ← get
      path ← lift (w.unit_path s.log name) system_failed
      modify (update_session id (λ x. record x { unit_path = path }))
      refresh_session_state id
