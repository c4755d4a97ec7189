-- ===== src/Sessions/Signals.antt =====
-- What happens to the session manager from outside
-- (src/services/session_manager/session_manager_service.cpp): signals of the user's systemd,
-- timers, and the calls of clients, as one history.
use jappeos_core.Sessions.Processes.{when_found, refresh_session_state}
use jappeos_core.Sessions.Lifecycle.{stop_session, create_login_session}
use jappeos_core.Sessions.Requests.{on_list_sessions, on_stop_session, on_create_session, Caller}
use jappeos_core.Prelude.{
  list_empty, String, Bool, true, false, ◌&&◌, not, Option, none, some, List, [], ◌∷◌,
  if◌then◌else◌, ◌==◌, nat_eq, string_eq,
}
use jappeos_core.Services.Manager.{find_key}
use jappeos_core.Sessions.Data.{
  installer_unit, attempt, starts_unit, when, system_failed, update_session, modify, get, lift,
  pure, update_key, SessionInfo, M, World, ◌>>=◌, ◌>>◌, SessionManager, log_effect,
}

-- `std::ranges::find` and `erase`: the list without its first such entry.
unfoldable pub remove_job : String → List String → Option (List String)
remove_job job [] = none
remove_job job (j ∷ js) = elim (remove_job job js) [
  | none ↦ if j == job then some js else none
  | some rest ↦ if j == job then some js else some (j ∷ rest)
]

module _ (w : World) where
  abbrev pub start_finished : String → M (Unit {0})
  unfolding refresh_session_state update_key
  start_finished id = do
    modify (update_session id (λ x. record x { starting = false }))
    refresh_session_state w (stop_session w) id

  unfoldable pub job_ended : String → String → Option (List String) → M (Unit {0})
  unfolding refresh_session_state update_key stop_session
  job_ended id result none = pure tt
  job_ended id result (some jobs) = do
    modify (update_session id (λ x. record x { start_jobs = jobs }))
    (if result == "done" then when (list_empty jobs) (start_finished id) else stop_session w id)

  -- `HandleSessionJobRemoved`
  unfoldable pub job_removed : String → String → String → M (Unit {0})
  unfolding find_key remove_job update_key stop_session refresh_session_state job_ended
  job_removed id job result = do
    s ← get
    when_found (find_key id s.sessions) (λ x. job_ended id result (remove_job job x.start_jobs))

  -- The handler of the signal `Disconnected`
  unfoldable pub disconnected : String → M (Unit {0})
  unfolding find_key stop_session
  disconnected id = do s ← get; when_found (find_key id s.sessions) (λ x. stop_session w id)

  -- `StartInstallerForSession`
  unfoldable pub start_installer : SessionInfo → M (Unit {0})
  start_installer x = do
    uid ← lift (w.uid_of x.username) system_failed
    modify (log_effect (starts_unit (installer_unit x.id)))
    s ← get
    job ← lift (w.start_unit s.log (installer_unit x.id)) system_failed
    pure tt

  abbrev pub launch_installer : String → SessionInfo → M (Unit {0})
  unfolding start_installer update_key
  launch_installer id x = do
    modify (update_session id (λ y. record y { installer_source = false }))
    when (x.active_state == "active" && not x.installer_started) (do
      modify (update_session id (λ y. record y { installer_started = true }))
      attempt (start_installer x) (λ e. pure tt))

  -- The timeout that launches the installer, while its source is there.
  unfoldable pub installer_due : String → M (Unit {0})
  unfolding find_key start_installer update_key
  installer_due id = do
    s ← get
    when_found (find_key id s.sessions) (λ x. when x.installer_source (launch_installer id x))

pub data Call : Type 0 where
  starts_up : Call
  creates : Caller → String → String → Call
  stops : Caller → String → Call
  lists : Caller → Call
  removes_job : String → String → String → Call
  disconnects changes_properties installer_times_out : String → Call

abbrev pub ignore : {A : Type 0} → M A → M (Unit {0})
ignore m = do a ← m; pure tt

unfoldable pub handle : World → Call → M (Unit {0})
unfolding create_login_session on_create_session on_stop_session on_list_sessions job_removed
    disconnected refresh_session_state installer_due stop_session
handle w starts_up = create_login_session w (stop_session w)
handle w (creates c username password) = ignore (on_create_session w c username password)
handle w (stops c id) = on_stop_session w c id
handle w (lists c) = ignore (on_list_sessions w c)
handle w (removes_job id job result) = job_removed w id job result
handle w (disconnects id) = disconnected w id
handle w (changes_properties id) = refresh_session_state w (stop_session w) id
handle w (installer_times_out id) = installer_due w id

-- An exception ends its call and leaves the state as it stood.
unfoldable pub run : World → List Call → SessionManager → SessionManager
unfolding handle
run w [] s = s
run w (c ∷ cs) s = run w cs (handle w c s).1

abbrev pub new_manager : Bool → SessionManager
new_manager live = record {
  sessions = [];
  greeter_session_id = "";
  is_greeter_active = false;
  is_live_environment = live;
  log = [];
}
