-- ===== src/Sessions/Stability.antt =====
-- What the functions of src/services/session_manager/session_manager_service.cpp that work on one
-- session leave alone.
use jappeos_core.Sessions.Leaders.{is_life}
use jappeos_core.Sessions.Triple.{
  check-Stays, found-Post, returned, check-Post, bind-Post, lift-Post, Stays,
}
use jappeos_core.Sessions.Processes.{
  stop_units, with_active_state, subscribe_to_session_signals, refresh_session_state,
  active_state_changed, evaluate_session_state, connect_user_manager, main_pid_changed,
  start_transient_unit, spawn_user_session_processes, terminate_processes, activate_logind_session,
}
use jappeos_core.Prelude.{
  ℕ, String, ◌≡◌, refl, inl, inr, false, some, arith, Bool-cases, Option-cases, nat_eq, string_eq,
}
use jappeos_core.Services.Manager.{find_key}
use jappeos_core.Sessions.Data.{
  daemon_unit, session_unit, starts_unit, activates, UnitName, Effect, M, World, SessionInfo,
  SessionManager, log_effect, update_session,
}

-- A change of a session that leaves its id, its leader, and whether it is starting.
abbrev pub Gentle : (SessionInfo → SessionInfo) → Type 0
Gentle f =
    (x : SessionInfo)
    → ((f x).id ≡ x.id) × ((f x).leader_pid ≡ x.leader_pid) × ((f x).starting ≡ x.starting)

-- A property of the state that such changes of the session keep, and effects on other things than
-- leaders.
pub record Stable (id : String) (P : SessionManager → Type 0) : Type 0 where
  pub updates :
      (f : SessionInfo → SessionInfo) (s : SessionManager)
      → Gentle f
      → P s
      → P (update_session id f s)
  pub logs : (e : Effect) (s : SessionManager) → is_life e ≡ false → P s → P (log_effect e s)

module _ (w : World) (id : String) {P : SessionManager → Type 0} (stable : Stable id P) where
  pub terminate_processes-Stable : (s : SessionManager) → P s → P (terminate_processes w id s)
  unfolding terminate_processes
  terminate_processes-Stable s p = elim (Option-cases (find_key id s.sessions)) [
    | inl e ↦ rw e p
    | inr (x, e) ↦ rw e (units x)
  ]
    where
      units : (x : SessionInfo) → P (stop_units w (some x) id s)
      units x = elim (Bool-cases x.manager) [
        | inl e ↦ rw e (stable.logs _ _ refl (stable.logs _ _ refl (stable.logs _ _ refl p)))
        | inr e ↦ rw e p
      ]

  pub connect-Stays : (s : SessionManager) → P s → Stays P (connect_user_manager w id s)
  unfolding connect_user_manager
  connect-Stays s p =
      lift-Post _ _ _ p
        λ x e. check-Post _ _ _ p λ h. returned (stable.updates _ s (λ x. (refl, refl, refl)) p)

  pub start_transient_unit-Stays :
      (name : UnitName) (s : SessionManager) → P s → Stays P (start_transient_unit w id name s)
  unfolding start_transient_unit
  start_transient_unit-Stays name s p =
      let p' = stable.logs (starts_unit name) s refl p in
      lift-Post _ _ _ p' λ job e. returned (stable.updates _ _ (λ x. (refl, refl, refl)) p')

  pub spawn-Stays :
      (username : String) (s : SessionManager)
      → P s
      → Stays P (spawn_user_session_processes w username id s)
  unfolding spawn_user_session_processes
  spawn-Stays username s p = lift-Post _ _ _ p λ uid e.
      bind-Post (start_transient_unit-Stays (session_unit id) s p)
        λ a s' p'. start_transient_unit-Stays (daemon_unit id) s' p'

  pub main_pid_changed-Stable :
      (pid : ℕ) (s : SessionManager) → P s → P (main_pid_changed w id pid s)
  unfolding main_pid_changed
  main_pid_changed-Stable pid s p = stable.updates _ s (λ x. (refl, refl, refl)) p

  -- With a `StopSession` that keeps the property where it is called.
  module _ (stop : String → M (Unit {0}))
      (stops : (x : SessionInfo) (s : SessionManager)
        → find_key id s.sessions ≡ some x
        → P s
        → Stays P (evaluate_session_state w stop x s)) where
    pub active_state_changed-Stays :
        (state : String) (s : SessionManager)
        → P s
        → Stays P (active_state_changed w stop id state s)
    unfolding active_state_changed
    active_state_changed-Stays state s p =
        let p' = stable.updates _ s (gentle state s) p in found-Post _ _ p' λ x e. stops x _ e p'
      where
        gentle : (state : String) (s : SessionManager) → Gentle (with_active_state w stop s state)
        gentle state s x = ground arith

    pub refresh-Stays : (s : SessionManager) → P s → Stays P (refresh_session_state w stop id s)
    unfolding refresh_session_state
    refresh-Stays s p = found-Post _ _ p λ x e. lift-Post _ _ _ p λ now e'.
        active_state_changed-Stays _ _
          (main_pid_changed-Stable _ _ (stable.updates _ s (λ x. (refl, refl, refl)) p))

    pub subscribe-Stays :
        (name : UnitName) (s : SessionManager)
        → P s
        → Stays P (subscribe_to_session_signals w stop id name s)
    unfolding subscribe_to_session_signals
    subscribe-Stays name s p =
        lift-Post _ _ _ p λ path e. refresh-Stays _ (stable.updates _ s (λ x. (refl, refl, refl)) p)

pub activate-Stays :
    (w : World) (id key seat : String) {P : SessionManager → Type 0} (stable : Stable id P)
    (s : SessionManager)
    → P s
    → Stays P (activate_logind_session w key seat s)
unfolding activate_logind_session
activate-Stays w id key seat stable s p =
    let p' = stable.logs (activates key seat) s refl p in
    check-Post _ _ _ p λ h. check-Stays _ _ _ p'
