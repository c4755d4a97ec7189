-- ===== src/Installer/Plan.antt =====
-- The install plan of src/services/installer/installer_service.cpp: `ValidateInstallData` and the
-- handlers that create, cancel and begin a plan. `getpwnam` is the system's account database, and a
-- fresh plan number is what the random generator gives. The controller is its public `State`; what
-- `StartInstall` hands to the worker is kept in `started`, newest first.
use jappeos_core.Installer.Names.{is_valid_username, is_valid_hostname}
use jappeos_core.Installer.Storage.Validate.{validate_storage, Warning, Verdict}
use jappeos_core.Installer.Exception.{
  unknown_keyboard_variant, unknown_keyboard_layout, unknown_locale, unknown_timezone,
  invalid_username, plan_exists, in_progress, unknown_plan, invalid_hostname, fail_with, Exception,
}
pub mod Laws
use jappeos_core.Prelude.{
  Bytes, ℕ, String, Bool, true, false, not, Option, none, some, List, [], ◌∷◌, if◌then◌else◌, ◌==◌,
  nat_eq, string_eq, any, Result, ok, err, ◌>>=◌, ◌>>◌, require, reject, or_throw,
}
use jappeos_core.Installer.Data.{InstallData, KeyboardLayout, StorageDevice}

-- `InstallState`
pub data InstallState : Type 0 where
  idle running succeeded failed_install cancelled : InstallState

abbrev pub is_running : InstallState → Bool
is_running running = true
is_running _ = false

-- What the constructor of the service collects, and never changes afterwards.
pub record Catalog : Type 0 where
  pub locales : List String
  pub timezones : List String
  pub keyboard_layouts : List KeyboardLayout
  pub storage_devices : List StorageDevice

pub record Installer : Type 0 where
  pub catalog : Catalog
  pub plan_id : ℕ
  pub install_data : Option InstallData
  pub controller : InstallState
  pub started : List InstallData

unfoldable pub find_layout : String → List KeyboardLayout → Option KeyboardLayout
find_layout id [] = none
find_layout id (l ∷ ls) = if l.id == id then some l else find_layout id ls

abbrev pub contains : List String → String → Bool
contains xs x = any (λ y. y == x) xs

unfoldable pub validate_install_data : (Bytes → Bool) → Catalog → InstallData → Verdict
unfolding find_layout
validate_install_data getpwnam catalog d = do
  require (is_valid_hostname d.hostname) (fail_with invalid_hostname)
  require (is_valid_username getpwnam d.username) (fail_with invalid_username)
  require (contains catalog.timezones d.timezone) (fail_with unknown_timezone)
  require (contains catalog.locales d.locale) (fail_with unknown_locale)
  layout ←
      or_throw (find_layout d.keyboard_layout catalog.keyboard_layouts)
        (fail_with unknown_keyboard_layout)
  require (contains layout.variants d.keyboard_variant) (fail_with unknown_keyboard_variant)
  validate_storage catalog.storage_devices d.disk []

-- `OnCreateInstallPlan`, after the arguments are decoded: the reply is the plan number and the
-- warnings.
unfoldable pub on_create_install_plan :
    (Bytes → Bool) → ℕ → InstallData → Installer → Result Exception (Installer × (ℕ × List Warning))
on_create_install_plan getpwnam fresh d s = do
  reject (not (s.plan_id == 0)) (fail_with plan_exists)
  reject (is_running s.controller) (fail_with in_progress)
  ws ← validate_install_data getpwnam s.catalog d
  ok (record s { plan_id = fresh; install_data = some d }, (fresh, ws))

-- `OnCancelInstallPlan`
unfoldable pub on_cancel_install_plan : ℕ → Installer → Result Exception Installer
on_cancel_install_plan plan s = do
  require (plan == s.plan_id) (fail_with unknown_plan)
  ok (record s { plan_id = 0 })

-- `BeginInstallation` with `InstallController::StartInstall`
unfoldable pub begin_installation : InstallData → Installer → Result Exception Installer
begin_installation d s = do
  reject (is_running s.controller) (fail_with in_progress)
  ok (record s { controller = running; started = d ∷ s.started })

-- `OnBeginInstallation`: a null `_installData` is refused like a wrong number.
unfoldable pub on_begin_installation : ℕ → Installer → Result Exception Installer
unfolding begin_installation
on_begin_installation plan s = do
  require (plan == s.plan_id) (fail_with unknown_plan)
  d ← or_throw s.install_data (fail_with unknown_plan)
  s' ← begin_installation d s
  ok (record s' { plan_id = 0 })

-- `InstallerStateToString`
unfoldable pub installer_state_to_string : InstallState → String
installer_state_to_string idle = "idle"
installer_state_to_string running = "running"
installer_state_to_string succeeded = "succeeded"
installer_state_to_string failed_install = "failed"
installer_state_to_string cancelled = "cancelled"

-- What may happen to the service: a client's call, with what the generator and the account database
-- answer, or the worker thread that stores the state in which it ends.
pub data Call : Type 0 where
  creates : (Bytes → Bool) → ℕ → InstallData → Call
  cancels begins : ℕ → Call
  ends : InstallState → Call

abbrev pub after_create : Installer → Result Exception (Installer × (ℕ × List Warning)) → Installer
after_create s (ok (s', reply)) = s'
after_create s (err e) = s

abbrev pub after : Installer → Result Exception Installer → Installer
after s (ok s') = s'
after s (err e) = s

-- A handler that throws has changed nothing.
unfoldable pub step : Installer → Call → Installer
step s (creates getpwnam fresh d) = after_create s (on_create_install_plan getpwnam fresh d s)
step s (cancels plan) = after s (on_cancel_install_plan plan s)
step s (begins plan) = after s (on_begin_installation plan s)
step s (ends state) = record s { controller = state }

unfoldable pub run : Installer → List Call → Installer
run s [] = s
run s (c ∷ cs) = run (step s c) cs

unfoldable pub init : Catalog → Installer
init catalog = record {
  catalog = catalog;
  plan_id = 0;
  install_data = none;
  controller = idle;
  started = [];
}
