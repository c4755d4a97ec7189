-- ===== src/Sessions/Greeter.antt =====
-- The end of the greeter's session in
-- src/services/session_manager/session_manager_service.cpp.
use jappeos_core.Services.Manager.Lifetime.{find_key_head}
use jappeos_core.Sessions.Leaders.{erase_key-update}
use jappeos_core.Sessions.Payment.{terminate_processes-sessions, erase-terminate_pam}
use jappeos_core.Services.Manager.{find_key, erase_key}
use jappeos_core.Sessions.Stability.{Stable, terminate_processes-Stable}
use jappeos_core.Sessions.Processes.{signal_fd, close_fd, when_found}
use jappeos_core.Sessions.Requests.{
  shared_policy, on_list_sessions, on_stop_session, on_create_session,
}
use jappeos_core.Sessions.Lifecycle.{
  stop_with, stop_nested, stop_session, create_login_session, take_down,
}
use jappeos_core.Sessions.Processes.{refresh_session_state, reap, terminate_pam}
use jappeos_core.Sessions.Signals.{
  starts_up, installer_times_out, changes_properties, removes_job, lists, stops, creates,
  installer_due, disconnected, job_removed, disconnects, Call, run, handle,
}
use jappeos_core.Prelude.{
  ok, ℕ, String, ◌≡◌, refl, ap, ◌∙◌, inl, inr, Bool, true, Option, none, some, List, [], ◌∷◌, arith,
  Bool-cases, ◌==◌, nat_eq, string_eq, eq_iff,
}
use jappeos_core.Sessions.Data.{lift, when, check, SessionInfo, World, SessionManager}

-- No session, and a greeter that is said to be active.
abbrev pub IsDeserted : SessionManager → Type 0
IsDeserted s = (s.sessions ≡ []) × (s.is_greeter_active ≡ true)

module _ (w : World) where
  -- Nothing that is to come changes such a state.
  handle-IsDeserted : (c : Call) (s : SessionManager) → IsDeserted s → (handle w c s).1 ≡ s
  unfolding handle create_login_session on_create_session on_stop_session on_list_sessions
      shared_policy check job_removed disconnected refresh_session_state installer_due when_found
      when find_key
  handle-IsDeserted starts_up s d = rw d.1 refl
  handle-IsDeserted (creates c username password) s d = rw d.0 refl
  handle-IsDeserted (stops c id) s d = rw d.0 refl
  handle-IsDeserted (lists c) s d = rw d.0 refl
  handle-IsDeserted (removes_job id job result) s d = rw d.0 refl
  handle-IsDeserted (disconnects id) s d = rw d.0 refl
  handle-IsDeserted (changes_properties id) s d = rw d.0 refl
  handle-IsDeserted (installer_times_out id) s d = rw d.0 refl

  run-IsDeserted : (cs : List Call) (s : SessionManager) → IsDeserted s → run w cs s ≡ s
  unfolding run
  run-IsDeserted [] s d = refl
  run-IsDeserted (c ∷ cs) s d = ap (run w cs) (handle-IsDeserted c s d) ∙ run-IsDeserted cs s d

-- What the service knows of the greeter.
abbrev pub greeter_of : SessionManager → String × Bool
greeter_of s = (s.greeter_session_id, s.is_greeter_active)

greeter-Stable : (id : String) (g : String × Bool) → Stable id (λ s. greeter_of s ≡ g)
greeter-Stable id g = record { updates = λ f s gentle e. e; logs = λ q s life e. e }

module _ (w : World) where
  reap-greeter : (pid : ℕ) (s : SessionManager) → greeter_of (reap w pid s) ≡ greeter_of s
  unfolding reap
  reap-greeter pid s = ground arith

  close_fd-greeter :
      (fd : Option ℕ) (s : SessionManager) → greeter_of (close_fd w fd s) ≡ greeter_of s
  close_fd-greeter none s = refl
  close_fd-greeter (some fd) s = refl

  signal_fd-greeter :
      (fd : Option ℕ) (s : SessionManager) → greeter_of (signal_fd w fd s) ≡ greeter_of s
  signal_fd-greeter none s = refl
  signal_fd-greeter (some fd) s = refl

  terminate_pam-greeter :
      (key : String) (x : SessionInfo) (s : SessionManager)
      → greeter_of (terminate_pam w key x s) ≡ greeter_of s
  unfolding terminate_pam
  terminate_pam-greeter key x s = elim (Bool-cases (x.leader_pid == 0)) [
    | inl e ↦ rw e refl
    | inr e ↦ rw e (
        close_fd-greeter x.control_fd _
        ∙ reap-greeter x.leader_pid _
        ∙ signal_fd-greeter x.control_fd s)
  ]

  pub take_down-greeter :
      (id : String) (x : SessionInfo) (s : SessionManager)
      → greeter_of (take_down w id x s) ≡ greeter_of s
  unfolding take_down
  take_down-greeter id x s =
      terminate_pam-greeter id x _
      ∙ terminate_processes-Stable w id (greeter-Stable id (greeter_of s)) _ refl

  take_down-sessions :
      (id : String) (x : SessionInfo) (s : SessionManager)
      → (take_down w id x s).sessions ≡ erase_key id s.sessions
  unfolding take_down
  take_down-sessions id x s =
      erase-terminate_pam w id x _
      ∙ ap (erase_key id) (terminate_processes-sessions w id _)
      ∙ erase_key-update id _ s.sessions

  stop_session-greeter :
      (x : SessionInfo) (s : SessionManager)
      → find_key s.greeter_session_id s.sessions ≡ some x
      → stop_session w s.greeter_session_id s ≡ (ok tt, take_down w s.greeter_session_id x s)
  unfolding stop_session stop_nested stop_with lift when
  stop_session-greeter x s there =
      let id = s.greeter_session_id in rw (there, (eq_iff id id).1 refl) refl

  disconnected-greeter :
      (x : SessionInfo) (s : SessionManager)
      → find_key s.greeter_session_id s.sessions ≡ some x
      → disconnected w s.greeter_session_id s ≡ (ok tt, take_down w s.greeter_session_id x s)
  unfolding disconnected when_found
  disconnected-greeter x s there = rw there (stop_session-greeter x s there)

-- When the user manager of the greeter's session disconnects while that is the only session, no
-- session is left and no later call, signal or timeout does anything: the service starts no
-- greeter again.
pub run-disconnects_greeter :
    (w : World) (x : SessionInfo) (cs : List Call) (s : SessionManager)
    → s.sessions ≡ (s.greeter_session_id, x) ∷ []
    → s.is_greeter_active ≡ true
    → let s' = run w (disconnects s.greeter_session_id ∷ []) s in
      (s'.sessions ≡ []) × (run w cs s' ≡ s')
unfolding run handle erase_key
run-disconnects_greeter w x cs s only active = (gone, run-IsDeserted w cs _ (gone, still))
  where
    id : String
    id = s.greeter_session_id

    there : find_key id s.sessions ≡ some x
    there = rw only (find_key_head id x [])

    ended : run w (disconnects id ∷ []) s ≡ take_down w id x s
    ended = ap (λ o. o.1) (disconnected-greeter w x s there)

    gone : (run w (disconnects id ∷ []) s).sessions ≡ []
    gone =
        ap (λ s. s.sessions) ended
        ∙ take_down-sessions w id x s
        ∙ ap (erase_key id) only
        ∙ rw ((eq_iff id id).1 refl) refl

    still : (run w (disconnects id ∷ []) s).is_greeter_active ≡ true
    still =
        ap (λ s. s.is_greeter_active) ended ∙ ap (λ g. g.1) (take_down-greeter w id x s) ∙ active
