-- ===== src/Sessions/Account.antt =====
-- The account of the leaders after `StopSession` and the methods that a client calls
-- (src/services/session_manager/session_manager_service.cpp).
use jappeos_core.Sessions.Ends.{take_down-Inv}
use jappeos_core.Sessions.Stability.{activate-Stays, refresh-Stays}
use jappeos_core.Sessions.Creation.{create_session-Inv, create_login-Inv}
use jappeos_core.Services.Manager.{find_key}
use jappeos_core.Sessions.Triple.{
  returned, check-Stays, lift-Stays, threw, when-Post, bind-Post, attempt-Post, check-Post,
  lift-Post, Stays,
}
use jappeos_core.Sessions.Processes.{refresh_session_state, evaluate_session_state}
use jappeos_core.Sessions.Balance.{Inv-Stable, Inv}
use jappeos_core.Sessions.Lifecycle.{
  first_session, activate_found, create_login_session, stop_session, stop_nested, continue_after,
  stop_with, in_order,
}
use jappeos_core.Sessions.Requests.{
  find_uid, stop_target, shared_policy, Caller, on_stop_session, on_create_session,
  on_list_sessions,
}
use jappeos_core.Prelude.{
  list_empty, ℕ, zero, suc, String, ◌≡◌, inl, inr, false, Option, none, some, List, Bool-cases,
  ◌==◌, nat_eq, string_eq,
}
use jappeos_core.Sessions.Data.{
  no_such_session, invalid_session, M, SessionInfo, World, SessionManager,
}

module _ (w : World) {debts : List ℕ} where
  activate_found-Inv :
      (o : Option SessionInfo) (s : SessionManager)
      → Inv debts s
      → Stays (Inv debts) (activate_found w o s)
  unfolding activate_found
  activate_found-Inv none s v = returned v
  activate_found-Inv (some x) s v = activate-Stays w x.id x.id x.seat (Inv-Stable x.id) s v

  continue_after-Inv :
      (login : M (Unit {0})) (s : SessionManager)
      → (Inv debts s → Stays (Inv debts) (login s))
      → Inv debts s
      → Stays (Inv debts) (continue_after w login s)
  unfolding continue_after
  continue_after-Inv login s keeps v = elim (Bool-cases (list_empty s.sessions)) [
    | inl e ↦ rw e (attempt-Post _ (keeps v) λ e' s' v'. returned v')
    | inr e ↦ rw e (activate_found-Inv (first_session w s.sessions) s v)
  ]

  stop_with-Inv :
      (login : M (Unit {0}))
      → ((s : SessionManager) → Inv debts s → Stays (Inv debts) (login s))
      → (id : String) (s : SessionManager) → Inv debts s
      → Stays (Inv debts) (stop_with w login id s)
  unfolding stop_with
  stop_with-Inv login keeps id s v = lift-Post _ _ _ v λ x there.
      let v' = take_down-Inv w id x s there v in
      when-Post _ _ v' λ h. continue_after-Inv login _ (keeps _) v'

  stop_nested-Inv :
      (n : ℕ) (base : String → M (Unit {0}))
      → ((id : String) (s : SessionManager) → Inv debts s → Stays (Inv debts) (base id s))
      → (id : String) (s : SessionManager) → Inv debts s
      → Stays (Inv debts) (stop_nested w n base id s)
  unfolding stop_nested
  stop_nested-Inv zero base keeps id s v = keeps id s v
  stop_nested-Inv (suc n) base keeps id s v =
      stop_with-Inv (create_login_session w (stop_nested w n base))
        (create_login-Inv w (stop_nested w n base) (stop_nested-Inv n base keeps)) id s v

  pub stop_session-Inv :
      (id : String) (s : SessionManager) → Inv debts s → Stays (Inv debts) (stop_session w id s)
  unfolding stop_session
  stop_session-Inv id s v = stop_nested-Inv 2 _ (λ id s v. threw v) id s v

  evaluate-Inv :
      (id : String) (x : SessionInfo) (s : SessionManager)
      → find_key id s.sessions ≡ some x
      → Inv debts s
      → Stays (Inv debts) (evaluate_session_state w (stop_session w) x s)
  unfolding evaluate_session_state
  evaluate-Inv id x s there v = when-Post _ _ v λ h. stop_session-Inv x.id s v

  pub refresh-Inv :
      (id : String) (s : SessionManager)
      → Inv debts s
      → Stays (Inv debts) (refresh_session_state w (stop_session w) id s)
  refresh-Inv id s v = refresh-Stays w id (Inv-Stable id) (stop_session w) (evaluate-Inv id) s v

  shared_policy-Inv :
      (c : Caller) (s : SessionManager) → Inv debts s → Stays (Inv debts) (shared_policy w c s)
  unfolding shared_policy
  shared_policy-Inv c s v = check-Post _ _ _ v λ h. check-Stays _ _ _ v

  pub on_create_session-Inv :
      (c : Caller) (username password : String) (s : SessionManager)
      → Inv debts s
      → Stays (Inv debts) (on_create_session w c username password s)
  unfolding on_create_session
  on_create_session-Inv c username password s v = bind-Post (shared_policy-Inv c s v) λ a s' v'.
      check-Post _ _ _ v' λ h. check-Post _ _ _ v' λ h'.
        create_session-Inv w (stop_session w) stop_session-Inv username password false none s' v'

  stop_target-Inv :
      (c : Caller) (id : String) (s : SessionManager)
      → Inv debts s
      → Stays (Inv debts) (stop_target w c id s s)
  unfolding stop_target
  stop_target-Inv c id s v = elim (Bool-cases (id == "")) [
    | inl e ↦ rw e (lift-Stays (find_uid c.uid (in_order w s.sessions)) invalid_session s v)
    | inr e ↦ rw e (lift-Stays (find_key id s.sessions) no_such_session s v)
  ]

  pub on_stop_session-Inv :
      (c : Caller) (id : String) (s : SessionManager)
      → Inv debts s
      → Stays (Inv debts) (on_stop_session w c id s)
  unfolding on_stop_session
  on_stop_session-Inv c id s v = bind-Post (shared_policy-Inv c s v) λ a s1 v1.
      bind-Post (stop_target-Inv c id s1 v1)
        λ x s2 v2. check-Post _ _ _ v2 λ h. stop_session-Inv id s2 v2

  pub on_list_sessions-Inv :
      (c : Caller) (s : SessionManager) → Inv debts s → Stays (Inv debts) (on_list_sessions w c s)
  unfolding on_list_sessions
  on_list_sessions-Inv c s v =
      bind-Post (shared_policy-Inv c s v) λ a s' v'. check-Post _ _ _ v' λ h. returned v'
