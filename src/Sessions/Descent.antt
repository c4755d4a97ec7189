-- ===== src/Sessions/Descent.antt =====
-- How deep the calls of `StopSession` inside each other go
-- (src/services/session_manager/session_manager_service.cpp), in every state that the service
-- reaches.
use jappeos_core.Sessions.Processes.{live_user}
use jappeos_core.Sessions.Creation.{try_autologin-Inv}
use jappeos_core.Sessions.Ends.{take_down-Inv}
use jappeos_core.Sessions.History.{reached-Inv}
use jappeos_core.Sessions.Depth.{never-Inv, check-eq, create_session-eq, when-eq, lift-eq, never}
use jappeos_core.Sessions.Triple.{continue-eq, lift-Post, returned, Stays}
use jappeos_core.Sessions.Balance.{Inv}
use jappeos_core.Sessions.Signals.{new_manager, run, Call}
use jappeos_core.Sessions.Lifecycle.{
  take_down, greeter_user, no_password_service, log_in_selected, create_greeter,
  try_autologin_session, select_user, log_in, log_in_live_user, create_login_session, stop_with,
  continue_after, stop_session, stop_nested,
}
use jappeos_core.Prelude.{
  list_empty, ℕ, suc, String, ◌≡◌, refl, sym, ap, ◌∙◌, inl, inr, Bool, true, false, not, Option,
  none, some, List, [], ◌∷◌, arith, if◌then◌else◌, Bool-cases, nat_eq, string_eq,
}
use jappeos_core.Sessions.Data.{
  when, too_deep, throw, modify, continue, pure, caught, M, World, SessionManager,
}

module _ (w : World) (stop : String → M (Unit {0})) where
  select_user-eq :
      (us : List String) (selected : Option String) (s : SessionManager)
      → select_user w stop us selected s ≡ select_user w never us selected s
  unfolding select_user
  select_user-eq [] selected s = refl
  select_user-eq (u ∷ us) selected s = lift-eq _ _ _ _ λ automatic e. select_user-eq us _ s

  -- The loop over the users changes nothing.
  select_user-Stays :
      (us : List String) (selected : Option String) (s : SessionManager)
      (P : SessionManager → Type 0)
      → P s
      → Stays P (select_user w stop us selected s)
  unfolding select_user
  select_user-Stays [] selected s P p = returned p
  select_user-Stays (u ∷ us) selected s P p =
      lift-Post _ _ _ p λ automatic e. select_user-Stays us _ s P p

  log_in-eq :
      {debts : List ℕ} (user : Option String) (s : SessionManager)
      → s.is_greeter_active ≡ false
      → Inv debts s
      → log_in w stop user s ≡ log_in w never user s
  unfolding log_in
  log_in-eq none s inactive v = refl
  log_in-eq (some user) s inactive v = lift-eq _ _ _ _ λ name e.
      ap (λ o. continue o (λ created. pure true))
        (create_session-eq w stop name "" false (some no_password_service) s (λ h. inactive) v)

module _ (w : World) (stop : String → M (Unit {0})) {debts : List ℕ} where
  try_log_in-eq :
      (b : Bool) (s : SessionManager)
      → s.is_greeter_active ≡ false
      → Inv debts s
      → (if b then log_in_live_user w stop else log_in_selected w stop) s
        ≡ (if b then log_in_live_user w never else log_in_selected w never) s
  unfolding log_in_live_user log_in_selected
  try_log_in-eq true s inactive v =
      ap (λ o. continue o (λ created. pure true))
        (create_session-eq w stop live_user "" false (some no_password_service) s (λ h. inactive) v)
  try_log_in-eq false s inactive v = check-eq _ _ _ _ λ accounts. lift-eq _ _ _ _ λ users e.
      ap (λ o. continue o (log_in w stop)) (select_user-eq w stop users none s)
      ∙ continue-eq
          (select_user-Stays w never users none s
            (λ s'. (s'.is_greeter_active ≡ false) × Inv debts s') (inactive, v))
          λ user s' v'. log_in-eq w stop user s' v'.0 v'.1

  try_autologin-eq :
      (s : SessionManager)
      → s.is_greeter_active ≡ false
      → Inv debts s
      → try_autologin_session w stop s ≡ try_autologin_session w never s
  unfolding try_autologin_session
  try_autologin-eq s inactive v =
      ap (λ o. caught o (λ e. pure false)) (try_log_in-eq s.is_live_environment s inactive v)

  create_greeter-eq :
      (s : SessionManager) → Inv debts s → create_greeter w stop s ≡ create_greeter w never s
  unfolding create_greeter
  create_greeter-eq s v =
      ap
        (λ o. continue o (λ created.
          modify (λ s. record s { greeter_session_id = created.0; is_greeter_active = true })))
        (create_session-eq w stop greeter_user "" true none s (λ h. cc) v)

  create_login-eq :
      (s : SessionManager)
      → Inv debts s
      → create_login_session w stop s ≡ create_login_session w never s
  unfolding create_login_session
  create_login-eq s v = when-eq (not s.is_greeter_active) _ _ s λ h.
      ap (λ o. continue o (λ done. when (not done) (create_greeter w stop)))
        (try_autologin-eq s (ground (arith, h)) v)
      ∙ continue-eq (try_autologin-Inv w never never-Inv s v) λ done s1 v1.
        when-eq (not done) (create_greeter w stop) (create_greeter w never) s1
          λ h'. create_greeter-eq s1 v1

module _ (w : World) where
  continue_after-eq :
      (m n : M (Unit {0})) (s : SessionManager)
      → m s ≡ n s
      → continue_after w m s ≡ continue_after w n s
  unfolding continue_after
  continue_after-eq m n s h = elim (Bool-cases (list_empty s.sessions)) [
    | inl e ↦ rw e (ap (λ o. caught o (λ e. pure tt)) h)
    | inr e ↦ rw e refl
  ]

  stop_with-eq :
      {debts : List ℕ} (stop : String → M (Unit {0})) (id : String) (s : SessionManager)
      → Inv debts s
      → stop_with w (create_login_session w stop) id s
        ≡ stop_with w (create_login_session w never) id s
  unfolding stop_with
  stop_with-eq stop id s v = lift-eq _ _ _ _ λ x there. when-eq _ _ _ _ λ h.
      let s' = take_down w id x s in
      continue_after-eq (create_login_session w stop) (create_login_session w never) s'
        (create_login-eq w stop s' (take_down-Inv w id x s there v))

-- In every state that the service reaches, `StopSession` returns what it returns when its calls
-- inside each other are cut off after the first: it does not matter how many are followed, nor
-- what stands for the next one.
pub stop_nested_lem :
    (w : World) (cs : List Call) (live : Bool) (n : ℕ) (base : String → M (Unit {0})) (id : String)
    → let s = run w cs (new_manager live) in stop_nested w (suc n) base id s ≡ stop_session w id s
unfolding stop_nested stop_session
stop_nested_lem w cs live n base id =
    let v = reached-Inv w cs live in
    stop_with-eq w (stop_nested w n base) id _ v
    ∙ sym (stop_with-eq w (stop_nested w 1 (λ id. throw too_deep)) id _ v)
