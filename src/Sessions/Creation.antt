-- ===== src/Sessions/Creation.antt =====
-- The account of the leaders after `CreateSession` and what calls it
-- (src/services/session_manager/session_manager_service.cpp).
use jappeos_core.Sessions.Ends.{unregister-Inv, cleanup_pam-Inv, owe-Inv, insert-Fresh}
use jappeos_core.Sessions.Stability.{spawn-Stays, activate-Stays, connect-Stays, subscribe-Stays}
use jappeos_core.Sessions.Lifecycle.{
  create_greeter, no_password_service, log_in_selected, log_in_live_user, unregister, new_session,
  greeter_user, or_seat0, register_session, select_user, create_login_session, log_in,
  stop_login_session, try_autologin_session, create_session, start_session,
}
use jappeos_core.Sessions.Triple.{
  check-Post, guarded-Post, bind-Post, returned, Post, when-Post, lift-Post, attempt-Post, Stays,
}
use jappeos_core.Sessions.Processes.{
  cleanup_pam, live_user, activate_logind_session, subscribe_to_session_signals,
  evaluate_session_state,
}
use jappeos_core.Sessions.Balance.{Fresh-Stable, Inv, Fresh}
use jappeos_core.Services.Manager.{find_key, is_some}
use jappeos_core.Prelude.{
  if◌then◌else◌, ℕ, String, ◌≡◌, refl, Bool, true, false, not, Option, none, some, List, [], ◌∷◌,
  arith, nat_eq, string_eq, eq_iff,
}
use jappeos_core.Sessions.Data.{
  session_unit, pure, Leader, SessionInfo, caught, UnitName, when, M, World, SessionManager,
}

-- The outcome of a test of the table and of an id.
pub absent_of : {A : Type 0} (o : Option A) → not (is_some o) ≡ true → o ≡ none
absent_of none h = refl
absent_of (some a) h = cc

module _ (w : World) {debts : List ℕ} {pid : ℕ} {id : String} {b : Bool} where
  -- A session that is starting is not stopped by its own signals.
  evaluate-Fresh :
      (stop : String → M (Unit {0})) (x : SessionInfo) (s : SessionManager)
      → find_key id s.sessions ≡ some x
      → Fresh debts pid id b s
      → Stays (Fresh debts pid id b) (evaluate_session_state w stop x s)
  unfolding evaluate_session_state when
  evaluate-Fresh stop x s there v = rw (v.starts x there) (returned v)

  pub prepare-Fresh :
      (stop : String → M (Unit {0})) (name : UnitName) (s : SessionManager)
      → Fresh debts pid id b s
      → Stays (Fresh debts pid id b) (subscribe_to_session_signals w stop id name s)
  prepare-Fresh stop name s v =
      subscribe-Stays w id (Fresh-Stable pid id b) stop (evaluate-Fresh stop) name s v

  pub activated-Fresh :
      (seat : String) (s : SessionManager)
      → Fresh debts pid id b s
      → Stays (Fresh debts pid id b) (caught (activate_logind_session w id seat s) (λ e. pure tt))
  activated-Fresh seat s v =
      attempt-Post _ (activate-Stays w id id seat (Fresh-Stable pid id b) s v)
        λ e s' v'. returned v'

module _ (w : World) {debts : List ℕ} (stop : String → M (Unit {0}))
    (keeps : (id : String) (s : SessionManager) → Inv debts s → Stays (Inv debts) (stop id s)) where
  stop_login-Inv :
      (s : SessionManager) → Inv debts s → Stays (Inv debts) (stop_login_session w stop s)
  unfolding stop_login_session
  stop_login-Inv s v = when-Post _ _ v λ h. bind-Post (keeps s.greeter_session_id s v) λ a s' v'.
      returned record { distinct = v'.distinct; named = v'.named; balanced = v'.balanced }

  start_session-Inv :
      {pid : ℕ} {b : Bool} (username id seat : String) (is_login : Bool) (s : SessionManager)
      → Fresh debts pid id b s
      → Post
          (λ a. Inv debts)
          (Fresh debts pid id b)
          (start_session w stop username id seat is_login s)
  unfolding start_session
  start_session-Inv {pid} {b} username id seat is_login s v =
      let stable = Fresh-Stable pid id b in
      bind-Post (connect-Stays w id stable s v) λ a1 s1 v1.
        bind-Post (spawn-Stays w id stable username s1 v1) λ a2 s2 v2.
          bind-Post (prepare-Fresh w stop (session_unit id) s2 v2) λ a3 s3 v3.
            bind-Post (activated-Fresh w seat s3 v3) λ a4 s4 v4.
              when-Post (not is_login) _ v4.led.inv
                λ h. attempt-Post _ (stop_login-Inv s4 v4.led.inv) λ e s5 v5. returned v5

  register_session-Inv :
      (username : String) (uid : ℕ) (l : Leader) (is_login : Bool) (s : SessionManager)
      → Inv (l.pid ∷ debts) s
      → Post
          (λ a. Inv debts)
          (Inv (l.pid ∷ debts))
          (register_session w stop username uid l is_login s)
  unfolding register_session
  register_session-Inv username uid l is_login s v =
      let id = w.session_of s.log l.pid in
      let seat = or_seat0 (w.seat_of s.log id) in
      check-Post _ _ _ v λ named. check-Post _ _ _ v λ absent.
        let fresh =
          insert-Fresh (new_session id username uid l seat) s
            (absent_of (find_key id s.sessions) absent) (ground (arith, named, eq_iff id "")) refl
            v in
        bind-Post
          (guarded-Post (unregister w id) (start_session-Inv username id seat is_login _ fresh)
            λ s' v'. unregister-Inv w l.pid id s' v'.led)
          λ a s' v'. returned v'

  pub create_session-Inv :
      (username password : String) (is_login : Bool) (service : Option String) (s : SessionManager)
      → Inv debts s
      → Stays (Inv debts) (create_session w stop username password is_login service s)
  unfolding create_session
  create_session-Inv username password is_login service s v = lift-Post _ _ _ v λ uid e.
      lift-Post _ _ _ v λ l e'.
        guarded-Post (cleanup_pam w l)
          (register_session-Inv username uid l is_login _ (owe-Inv l.pid s v))
          λ s' v'. cleanup_pam-Inv w l s' v'

  select_user-Inv :
      (us : List String) (selected : Option String) (s : SessionManager)
      → Inv debts s
      → Stays (Inv debts) (select_user w stop us selected s)
  unfolding select_user
  select_user-Inv [] selected s v = returned v
  select_user-Inv (u ∷ us) selected s v = lift-Post _ _ _ v λ automatic e. select_user-Inv us _ s v

  log_in-Inv :
      (user : Option String) (s : SessionManager)
      → Inv debts s
      → Stays (Inv debts) (log_in w stop user s)
  unfolding log_in
  log_in-Inv none s v = returned v
  log_in-Inv (some user) s v = lift-Post _ _ _ v λ name e.
      bind-Post (create_session-Inv name "" false (some no_password_service) s v)
        λ a s' v'. returned v'

  try_log_in-Inv :
      (b : Bool) (s : SessionManager)
      → Inv debts s
      → Stays (Inv debts) ((if b then log_in_live_user w stop else log_in_selected w stop) s)
  unfolding log_in_live_user log_in_selected
  try_log_in-Inv true s v =
      bind-Post (create_session-Inv live_user "" false (some no_password_service) s v)
        λ a s' v'. returned v'
  try_log_in-Inv false s v = check-Post _ _ _ v λ accounts.
      lift-Post _ _ _ v λ users there.
        bind-Post (select_user-Inv users none s v) λ user s' v'. log_in-Inv user s' v'

  pub try_autologin-Inv :
      (s : SessionManager) → Inv debts s → Stays (Inv debts) (try_autologin_session w stop s)
  unfolding try_autologin_session
  try_autologin-Inv s v =
      attempt-Post _ (try_log_in-Inv s.is_live_environment s v) λ e' s' v'. returned v'

  pub create_login-Inv :
      (s : SessionManager) → Inv debts s → Stays (Inv debts) (create_login_session w stop s)
  unfolding create_login_session create_greeter
  create_login-Inv s v = when-Post _ _ v λ inactive. bind-Post (try_autologin-Inv s v) λ done s1 v1.
      when-Post _ _ v1 λ failed.
        bind-Post (create_session-Inv greeter_user "" true none s1 v1) λ created s2 v2.
          returned record { distinct = v2.distinct; named = v2.named; balanced = v2.balanced }
