-- ===== src/Sessions/Data.antt =====
-- `SessionInfo` and the state of `SessionManagerService`
-- (src/services/session_manager/session_manager_service.h), and what the service asks of the
-- system: PAM, logind, the user's systemd, the account service and /proc.
use jappeos_core.Prelude.{
  ℕ, String, Bool, true, false, Option, none, some, List, [], ◌∷◌, if◌then◌else◌, ◌==◌, nat_eq,
  string_eq, Result, ok, err,
}
use jappeos_core.Services.Manager.{Table, erase_key}

-- The systemd units of a session, by the session's id.
pub data UnitName : Type 0 where
  session_unit daemon_unit installer_unit : String → UnitName

-- The process that holds the PAM session, with its control pipe and its terminal.
pub record Leader : Type 0 where
  pub pid : ℕ
  pub control_fd : ℕ
  pub vt_number : ℕ

-- `SessionInfo`. `leaderPid` 0 and `controlFd` -1 (`none`) say that the leader has been ended;
-- `manager` is whether the pointer is set.
pub record SessionInfo : Type 0 where
  pub id : String
  pub username : String
  pub scope_name : UnitName
  pub uid : ℕ
  pub leader_pid : ℕ
  pub control_fd : Option ℕ
  pub seat : String
  pub vt_number : ℕ
  pub privileged_client_processes : List ℕ
  pub active_state : String
  pub result : String
  pub installer_launch_scheduled : Bool
  pub installer_started : Bool
  pub installer_source : Bool
  pub manager : Bool
  pub unit_path : String
  pub starting : Bool
  pub start_jobs : List String

-- What the service does to the system.
pub data Effect : Type 0 where
  opens : ℕ → Effect
  signals closes : ℕ → Effect
  polls kills reaps : ℕ → Effect
  starts_unit stops_unit : UnitName → Effect
  activates : String → String → Effect

-- The effects so far, the newest first.
abbrev pub Log : Type 0
Log = List Effect

-- The properties of a unit that `RefreshSessionState` reads.
pub record Snapshot : Type 0 where
  pub result : String
  pub main_pid : ℕ
  pub active_state : String

-- The answers of the system, which may depend on what has been done before; `none` is a failure
-- that the source meets as an exception. `session_of` and `seat_of` catch their own; `less` is the
-- order of `std::map`.
pub record World : Type 0 where
  pub uid_of : String → Option ℕ
  pub authenticate : Log → String → String → String → Option Leader
  pub session_of : Log → ℕ → String
  pub seat_of : Log → String → String
  pub connects : Log → ℕ → Bool
  pub start_unit : Log → UnitName → Option String
  pub unit_path : Log → UnitName → Option String
  pub snapshot : Log → String → Option Snapshot
  pub activation : Log → String → String → Bool
  pub has_exited : Log → ℕ → Bool
  pub owner_of : Log → ℕ → Option ℕ
  pub parent_of : Log → ℕ → Option ℕ
  pub less : String → String → Bool
  pub has_accounts : Bool
  pub users : Log → Option (List String)
  pub automatic_login : Log → String → Option Bool
  pub user_name : Log → String → Option String

pub record SessionManager : Type 0 where
  pub sessions : Table SessionInfo
  pub greeter_session_id : String
  pub is_greeter_active : Bool
  pub is_live_environment : Bool
  pub log : Log

pub data SessionError : Type 0 where
  unknown_user authentication_failed no_session_id duplicate_session : SessionError
  system_failed empty_session_id no_accounts : SessionError
  access_denied missing_username invalid_session no_such_session : SessionError
  too_deep : SessionError

-- What a function of the service returns or throws, with the state that it leaves.
abbrev pub Outcome : Type 0 → Type 0
Outcome A = Result SessionError A × SessionManager

abbrev pub M : Type 0 → Type 0
M A = SessionManager → Outcome A

abbrev pub continue : {A B : Type 0} → Outcome A → (A → M B) → Outcome B
continue (ok a, s) f = f a s
continue (err e, s) f = (err e, s)

infixl 5 ◌>>=◌ ◌>>◌
abbrev pub ◌>>=◌ : {A B : Type 0} → M A → (A → M B) → M B
◌>>=◌ m f s = continue (m s) f

abbrev pub ◌>>◌ : {B : Type 0} → M (Unit {0}) → M B → M B
◌>>◌ m k s = continue (m s) (λ _. k)

abbrev pub pure : {A : Type 0} → A → M A
pure a s = (ok a, s)

abbrev pub throw : {A : Type 0} → SessionError → M A
throw e s = (err e, s)

unfoldable pub lift : {A : Type 0} → Option A → SessionError → M A
lift none e s = (err e, s)
lift (some a) e s = (ok a, s)

unfoldable pub check : Bool → SessionError → M (Unit {0})
check true e s = (ok tt, s)
check false e s = (err e, s)

abbrev pub get : M SessionManager
get s = (ok s, s)

abbrev pub modify : (SessionManager → SessionManager) → M (Unit {0})
modify f s = (ok tt, f s)

unfoldable pub when : Bool → M (Unit {0}) → M (Unit {0})
when true m s = m s
when false m s = (ok tt, s)

unfoldable pub caught : {A : Type 0} → Outcome A → (SessionError → M A) → Outcome A
caught (ok a, s) f = (ok a, s)
caught (err e, s) f = f e s

-- `try { m } catch { f }`
abbrev pub attempt : {A : Type 0} → M A → (SessionError → M A) → M A
attempt m f s = caught (m s) f

unfoldable pub unwound : {A : Type 0} → Outcome A → (SessionManager → SessionManager) → Outcome A
unwound (ok a, s) cleanup = (ok a, s)
unwound (err e, s) cleanup = (err e, cleanup s)

-- `ScopeGuard guard(cleanup); m; guard.Dismiss();`
abbrev pub guarded : {A : Type 0} → (SessionManager → SessionManager) → M A → M A
guarded cleanup m s = unwound (m s) cleanup

abbrev pub log_effect : Effect → SessionManager → SessionManager
log_effect e s = record s { log = e ∷ s.log }

module _ {A : Type 0} where
  -- `table.at(key) = f(table.at(key))`
  unfoldable pub update_key : String → (A → A) → Table A → Table A
  update_key key f [] = []
  update_key key f ((k, a) ∷ t) = (k, if k == key then f a else a) ∷ update_key key f t

abbrev pub update_session : String → (SessionInfo → SessionInfo) → SessionManager → SessionManager
update_session id f s = record s { sessions = update_key id f s.sessions }

abbrev pub erase_session : String → SessionManager → SessionManager
erase_session id s = record s { sessions = erase_key id s.sessions }
