-- ===== src/Sessions/History.antt =====
-- The account of the leaders over the whole life of the service
-- (src/services/session_manager/session_manager_service.cpp): whatever happens to it, in whatever
-- order, and however each of its calls ends.
use jappeos_core.Sessions.Stability.{terminate_processes-Stable}
use jappeos_core.Sessions.Payment.{Owes-Stable, terminate_pam-Owes, Owes}
use jappeos_core.Sessions.Leaders.{leads, owned, reaped, opened}
use jappeos_core.Services.Manager.{Table}
use jappeos_core.Sessions.Requests.{on_list_sessions, on_create_session}
use jappeos_core.Sessions.Lifecycle.{end_sessions, destroy, stop_session, in_order, place}
use jappeos_core.Sessions.Account.{
  on_list_sessions-Inv, on_stop_session-Inv, on_create_session-Inv, refresh-Inv, stop_session-Inv,
}
use jappeos_core.Sessions.Creation.{create_login-Inv}
use jappeos_core.Sessions.Balance.{update-Inv, log-Inv, Inv}
use jappeos_core.Sessions.Triple.{
  attempt-Post, when-Post, bind-Post, found-Post, Stays-state, lift-Post, returned, Stays,
}
use jappeos_core.Sessions.Signals.{
  starts_up, installer_times_out, changes_properties, disconnects, removes_job, new_manager, lists,
  stops, start_finished, creates, ignore, Call, disconnected, installer_due, run, start_installer,
  handle, job_ended, job_removed,
}
use jappeos_core.Prelude.{
  list_empty, ℕ, ◌+◌, ◌<◌, String, ◌≡◌, refl, inl, inr, Bool, true, false, Option, none, some, List,
  [], ◌∷◌, arith, Bool-cases, ◌==◌, nat_eq, string_eq,
}
use jappeos_core.Sessions.Data.{
  installer_unit, starts_unit, update_session, SessionInfo, M, World, SessionManager,
}

module _ (w : World) {debts : List ℕ} where
  job_ended-Inv :
      (id result : String) (o : Option (List String)) (s : SessionManager)
      → Inv debts s
      → Stays (Inv debts) (job_ended w id result o s)
  unfolding job_ended
  job_ended-Inv id result none s v = returned v
  job_ended-Inv id result (some jobs) s v = elim (Bool-cases (result == "done")) [
    | inl e ↦ rw e (
        when-Post (list_empty jobs) (start_finished w id) v'
          λ h. refresh-Inv w id _ (update-Inv id _ _ (λ x. (refl, refl)) v'))
    | inr e ↦ rw e (stop_session-Inv w id _ v')
  ]
    where
      v' : Inv debts (update_session id (λ x. record x { start_jobs = jobs }) s)
      v' = update-Inv id (λ x. record x { start_jobs = jobs }) s (λ x. (refl, refl)) v

  job_removed-Inv :
      (id job result : String) (s : SessionManager)
      → Inv debts s
      → Stays (Inv debts) (job_removed w id job result s)
  unfolding job_removed
  job_removed-Inv id job result s v = found-Post _ _ v λ x e. job_ended-Inv id result _ s v

  disconnected-Inv :
      (id : String) (s : SessionManager) → Inv debts s → Stays (Inv debts) (disconnected w id s)
  unfolding disconnected
  disconnected-Inv id s v = found-Post _ _ v λ x e. stop_session-Inv w id s v

  start_installer-Inv :
      (x : SessionInfo) (s : SessionManager)
      → Inv debts s
      → Stays (Inv debts) (start_installer w x s)
  unfolding start_installer
  start_installer-Inv x s v = lift-Post _ _ _ v λ uid e.
      let v' = log-Inv (starts_unit (installer_unit x.id)) s refl v in
      lift-Post _ _ _ v' λ job e'. returned v'

  installer_due-Inv :
      (id : String) (s : SessionManager) → Inv debts s → Stays (Inv debts) (installer_due w id s)
  unfolding installer_due
  installer_due-Inv id s v = found-Post _ _ v λ x e. when-Post _ _ v λ h.
      let v1 = update-Inv id (λ y. record y { installer_source = false }) s (λ y. (refl, refl)) v in
      when-Post _ _ v1 λ h'.
        let v2 =
          update-Inv id (λ y. record y { installer_started = true }) _ (λ y. (refl, refl)) v1 in
        attempt-Post _ (start_installer-Inv x _ v2) λ e' s' v'. returned v'

  ignore-Stays :
      {A : Type 0} (m : M A) (s : SessionManager)
      → Stays (Inv debts) (m s)
      → Stays (Inv debts) (ignore m s)
  ignore-Stays m s h = bind-Post h λ a s' v'. returned v'

  handle-Inv : (c : Call) (s : SessionManager) → Inv debts s → Stays (Inv debts) (handle w c s)
  unfolding handle
  handle-Inv starts_up s v = create_login-Inv w (stop_session w) (stop_session-Inv w) s v
  handle-Inv (creates c username password) s v =
      ignore-Stays (on_create_session w c username password) s
        (on_create_session-Inv w c username password s v)
  handle-Inv (stops c id) s v = on_stop_session-Inv w c id s v
  handle-Inv (lists c) s v = ignore-Stays (on_list_sessions w c) s (on_list_sessions-Inv w c s v)
  handle-Inv (removes_job id job result) s v = job_removed-Inv id job result s v
  handle-Inv (disconnects id) s v = disconnected-Inv id s v
  handle-Inv (changes_properties id) s v = refresh-Inv w id s v
  handle-Inv (installer_times_out id) s v = installer_due-Inv id s v

  pub run-Inv : (cs : List Call) (s : SessionManager) → Inv debts s → Inv debts (run w cs s)
  unfolding run
  run-Inv [] s v = v
  run-Inv (c ∷ cs) s v = run-Inv cs _ (Stays-state (handle-Inv c s v))

abbrev no_session : (live : Bool) → Inv [] (new_manager live)
no_session live = record { distinct = tt; named = tt; balanced = λ p h. refl }

-- The invariant of every state that the service reaches.
pub reached-Inv : (w : World) (cs : List Call) (live : Bool) → Inv [] (run w cs (new_manager live))
reached-Inv w cs live = run-Inv w cs _ (no_session live)

end_sessions-Owes :
    (w : World) (p : ℕ) (t : Table SessionInfo) (s : SessionManager)
    → 0 < p
    → Owes p (owned p t) s
    → Owes p 0 (end_sessions w t s)
unfolding end_sessions
end_sessions-Owes w p [] s h owes = owes
end_sessions-Owes w p ((k, x) ∷ t) s h owes = end_sessions-Owes w p t _ h (
    terminate_pam-Owes w p (owned p t) h k x _
      (terminate_processes-Stable w x.id (Owes-Stable p (leads x p + owned p t) x.id) s owes))

module _ (w : World) (p : ℕ) where
  owned-place :
      (e : String × SessionInfo) (t : Table SessionInfo)
      → owned p (place w e t) ≡ leads e.1 p + owned p t
  unfolding place
  owned-place e [] = refl
  owned-place (k, x) ((j, y) ∷ t) = elim (Bool-cases (w.less j k)) [
    | inl h ↦ rw h (omega (arith, owned-place (k, x) t))
    | inr h ↦ rw h refl
  ]

  owned-in_order : (t : Table SessionInfo) → owned p (in_order w t) ≡ owned p t
  unfolding in_order
  owned-in_order [] = refl
  owned-in_order ((k, x) ∷ t) = omega (arith, owned-place (k, x) (in_order w t), owned-in_order t)

-- Whatever calls, signals and timeouts the service has met, and whether each returned or threw:
-- each process that authentication opened has been reaped as often, except for the sessions that
-- it leads.
pub run-opened :
    (w : World) (cs : List Call) (live : Bool) (p : ℕ)
    → 0 < p
    → let s = run w cs (new_manager live) in opened p s.log ≡ reaped p s.log + owned p s.sessions
run-opened w cs live p h = omega (arith, (reached-Inv w cs live).balanced p h)

-- Once the service is destroyed, after whatever history, each process that authentication opened
-- has been reaped as often as it was opened.
pub destroy-run :
    (w : World) (cs : List Call) (live : Bool) (p : ℕ)
    → 0 < p
    → let s = destroy w (run w cs (new_manager live)) in opened p s.log ≡ reaped p s.log
unfolding destroy
destroy-run w cs live p h =
    let s = run w cs (new_manager live) in
    let t = in_order w s.sessions in
    let before : Owes p (owned p t) s =
      omega (arith, run-opened w cs live p h, owned-in_order w p s.sessions) in
    let owes : Owes p 0 (end_sessions w t s) = end_sessions-Owes w p t s h before in
    omega (arith, owes)
