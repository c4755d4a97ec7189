-- ===== src/Sessions/Depth.antt =====
-- The calls of `StopSession` and `CreateLoginSession`
-- (src/services/session_manager/session_manager_service.cpp) inside each other, while a session is being
-- created.
use jappeos_core.Sessions.Creation.{activated-Fresh, absent_of, prepare-Fresh}
use jappeos_core.Sessions.Ends.{insert-Fresh, owe-Inv}
use jappeos_core.Sessions.Stability.{spawn-Stays, connect-Stays, main_pid_changed-Stable}
use jappeos_core.Services.Manager.{find_key}
use jappeos_core.Sessions.Lifecycle.{
  new_session, unregister, or_seat0, start_session, register_session, create_session,
  stop_login_session,
}
use jappeos_core.Sessions.Triple.{continue-eq, threw, Stays}
use jappeos_core.Sessions.Processes.{
  activate_logind_session, with_active_state, cleanup_pam, active_state_changed,
  subscribe_to_session_signals, refresh_session_state, evaluate_session_state, when_found,
}
use jappeos_core.Sessions.Balance.{Fresh-Stable, Fresh, Inv}
use jappeos_core.Prelude.{
  ℕ, String, ◌≡◌, refl, ap, ◌∙◌, Bool, true, false, not, Option, none, some, List, ◌∷◌, arith,
  nat_eq, string_eq, eq_iff,
}
use jappeos_core.Sessions.Data.{
  attempt, ◌>>◌, caught, session_unit, pure, too_deep, Leader, unwound, UnitName, continue,
  SessionError, SessionInfo, throw, when, M, check, lift, World, SessionManager,
}

module _ {A : Type 0} {s : SessionManager} where
  pub lift-eq :
      {B : Type 0} (o : Option B) (e : SessionError) (f g : B → M A)
      → ((b : B) → o ≡ some b → f b s ≡ g b s)
      → continue (lift o e s) f ≡ continue (lift o e s) g
  unfolding lift
  lift-eq none e f g h = refl
  lift-eq (some b) e f g h = h b refl

  pub check-eq :
      (b : Bool) (e : SessionError) (m n : M A)
      → (b ≡ true → m s ≡ n s)
      → continue (check b e s) (λ a. m) ≡ continue (check b e s) (λ a. n)
  unfolding check
  check-eq true e m n h = h refl
  check-eq false e m n h = refl

pub when-eq :
    (b : Bool) (m n : M (Unit {0})) (s : SessionManager)
    → (b ≡ true → m s ≡ n s)
    → when b m s ≡ when b n s
unfolding when
when-eq true m n s h = h refl
when-eq false m n s h = refl

found-eq :
    (o : Option SessionInfo) (f g : SessionInfo → M (Unit {0})) (s : SessionManager)
    → ((x : SessionInfo) → o ≡ some x → f x s ≡ g x s)
    → when_found o f s ≡ when_found o g s
unfolding when_found
found-eq none f g s h = refl
found-eq (some x) f g s h = h x refl

abbrev pub never : String → M (Unit {0})
never id = throw too_deep

pub never-Inv :
    {debts : List ℕ} (id : String) (s : SessionManager)
    → Inv debts s
    → Stays (Inv debts) (never id s)
never-Inv id s v = threw v

-- The end of `start_session`, once the session has been read for the first time.
unfoldable finish : World → (String → M (Unit {0})) → String → String → Bool → M (Unit {0})
unfolding activate_logind_session stop_login_session
finish w stop id seat is_login = do
  attempt (activate_logind_session w id seat) (λ e. pure tt)
  when (not is_login) (attempt (stop_login_session w stop) (λ e. pure tt))

module _ (w : World) (stop : String → M (Unit {0})) {debts : List ℕ} where
  module _ {pid : ℕ} {id : String} {b : Bool} where
    evaluate-eq :
        (x : SessionInfo) (s : SessionManager)
        → find_key id s.sessions ≡ some x
        → Fresh debts pid id b s
        → evaluate_session_state w stop x s ≡ evaluate_session_state w never x s
    unfolding evaluate_session_state when
    evaluate-eq x s there v = rw (v.starts x there) refl

    active_state_changed-eq :
        (state : String) (s : SessionManager)
        → Fresh debts pid id b s
        → active_state_changed w stop id state s ≡ active_state_changed w never id state s
    unfolding active_state_changed
    active_state_changed-eq state s v =
        let v' =
          (Fresh-Stable pid id b).updates (with_active_state w stop s state) s (λ x. ground arith)
            v in
        found-eq _ _ _ _ λ x there. evaluate-eq x _ there v'

    refresh-eq :
        (s : SessionManager)
        → Fresh debts pid id b s
        → refresh_session_state w stop id s ≡ refresh_session_state w never id s
    unfolding refresh_session_state
    refresh-eq s v = found-eq _ _ _ s λ x there. lift-eq _ _ _ _ λ now e.
        active_state_changed-eq now.active_state _ (
          main_pid_changed-Stable w id (Fresh-Stable pid id b) now.main_pid _
            ((Fresh-Stable pid id b).updates _ s (λ y. (refl, refl, refl)) v))

    subscribe-eq :
        (name : UnitName) (s : SessionManager)
        → Fresh debts pid id b s
        → subscribe_to_session_signals w stop id name s
          ≡ subscribe_to_session_signals w never id name s
    unfolding subscribe_to_session_signals
    subscribe-eq name s v =
        lift-eq _ _ _ _
          λ path e. refresh-eq _ ((Fresh-Stable pid id b).updates _ s (λ y. (refl, refl, refl)) v)

    stop_login-eq :
        (s : SessionManager)
        → Fresh debts pid id b s
        → b ≡ false
        → stop_login_session w stop s ≡ stop_login_session w never s
    unfolding stop_login_session
    stop_login-eq s v e = when-eq _ _ _ s λ active. absurd (ground (arith, active, v.greeter, e))

    finish-eq :
        (seat : String) (is_login : Bool) (s : SessionManager)
        → (not is_login ≡ true → b ≡ false)
        → Fresh debts pid id b s
        → finish w stop id seat is_login s ≡ finish w never id seat is_login s
    unfolding finish
    finish-eq seat is_login s idle v = continue-eq (activated-Fresh w seat s v) λ a s' v'.
        when-eq (not is_login) _ _ s'
          λ h. ap (λ o. caught o (λ e. pure tt)) (stop_login-eq s' v' (idle h))

    start_session-eq :
        (username seat : String) (is_login : Bool) (s : SessionManager)
        → (not is_login ≡ true → b ≡ false)
        → Fresh debts pid id b s
        → start_session w stop username id seat is_login s
          ≡ start_session w never username id seat is_login s
    unfolding start_session finish
    start_session-eq username seat is_login s idle v =
        let stable = Fresh-Stable pid id b in
        continue-eq (connect-Stays w id stable s v) λ a1 s1 v1.
          continue-eq (spawn-Stays w id stable username s1 v1) λ a2 s2 v2.
            ap (λ o. continue o (λ a. finish w stop id seat is_login))
              (subscribe-eq (session_unit id) s2 v2)
            ∙ continue-eq (prepare-Fresh w never (session_unit id) s2 v2)
                λ a3 s3 v3. finish-eq seat is_login s3 idle v3

  register_session-eq :
      (username : String) (uid : ℕ) (l : Leader) (is_login : Bool) (s : SessionManager)
      → (not is_login ≡ true → s.is_greeter_active ≡ false)
      → Inv (l.pid ∷ debts) s
      → register_session w stop username uid l is_login s
        ≡ register_session w never username uid l is_login s
  unfolding register_session
  register_session-eq username uid l is_login s idle v =
      let id = w.session_of s.log l.pid in
      let seat = or_seat0 (w.seat_of s.log id) in
      check-eq _ _ _ _ λ named. check-eq _ _ _ _ λ absent.
        ap (λ o. continue (unwound o (unregister w id)) (λ a. pure (id, (uid, seat))))
          (start_session-eq username seat is_login _ idle (
            insert-Fresh (new_session id username uid l seat) s
              (absent_of (find_key id s.sessions) absent) (ground (arith, named, eq_iff id "")) refl
              v))

  pub create_session-eq :
      (username password : String) (is_login : Bool) (service : Option String) (s : SessionManager)
      → (not is_login ≡ true → s.is_greeter_active ≡ false)
      → Inv debts s
      → create_session w stop username password is_login service s
        ≡ create_session w never username password is_login service s
  unfolding create_session
  create_session-eq username password is_login service s idle v = lift-eq _ _ _ _ λ uid e.
      lift-eq _ _ _ _ λ l e'.
        ap (λ o. unwound o (cleanup_pam w l))
          (register_session-eq username uid l is_login _ idle (owe-Inv l.pid s v))
