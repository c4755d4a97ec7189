-- ===== src/Drivers/Install.antt =====
-- `DriverManagerService::TryInstallStaticDriversWithRetry` and what it calls
-- (src/services/driver_manager/driver_manager_service.cpp). Each function takes the events so far
-- and returns them with its own in front.
use jappeos_core.Prelude.{
  ℕ, zero, suc, String, Bool, true, false, ◌||◌, not, Option, none, some, List, [], ◌∷◌,
  if◌then◌else◌, Result, ok, err, or_throw, ◌>>=◌,
}
use jappeos_core.Drivers.Data.{
  ContentMatch, DeviceFinder, DriverInfo, sees, waits, checks_packages, removes, installs, Trace,
  Entry, Machine, is_static,
}

pub data Failure : Type 0 where
  bad_regex no_directory : Failure

abbrev pub driver_result : Option Bool × Trace → Result Failure Bool × Trace
driver_result (none, t) = (ok false, t)
driver_result (some any_success, t) = (ok any_success, t)

-- How the loop over the drivers ends.
pub data Ending : Type 0 where
  finished stopped threw : Ending

abbrev pub go_on : Result Failure Bool × Trace → (Trace → Ending × Trace) → Ending × Trace
go_on (ok b, t) k = k t
go_on (err e, t) k = (threw, t)

abbrev pub unless_returned : Bool × Trace → (Trace → Trace) → Trace
unless_returned (true, t) k = t
unless_returned (false, t) k = k t

abbrev pub is_success : Ending × Trace → Bool × Trace
is_success (finished, t) = (true, t)
is_success (stopped, t) = (false, t)
is_success (threw, t) = (false, t)

module _ (m : Machine) where
  -- The loop over `contentMatches`: the expression is compiled when the file could be opened.
  unfoldable pub has_contents : Entry → List ContentMatch → Result Failure Bool
  unfolding or_throw
  has_contents e [] = ok true
  has_contents e (c ∷ cs) = elim (e.line c.path) [
    | none ↦ ok false
    | some value ↦ or_throw (m.compile c.regex) bad_regex >>= λ search.
        if search value then has_contents e cs else ok false
  ]

  unfoldable pub find_entry : (String → Bool) → List ContentMatch → List Entry → Result Failure Bool
  unfolding has_contents
  find_entry search contents [] = ok false
  find_entry search contents (e ∷ es) =
      let rest = find_entry search contents es in
      if not e.is_directory || not (search e.name)
      then rest
      else (do matches ← has_contents e contents; if matches then ok true else rest)

  -- `HasDeviceForDriver`
  unfoldable pub has_device_for_driver : DeviceFinder → Result Failure Bool
  unfolding find_entry or_throw
  has_device_for_driver finder = do
    search ← or_throw (m.compile finder.entry_regex) bad_regex
    entries ← or_throw (m.directory finder.path) no_directory
    find_entry search finder.content_matches entries

  -- The loop of `InstallDriver`: whether any package was installed, or `none` when it is stopped.
  unfoldable pub install_packages : List String → Bool → Trace → Option Bool × Trace
  install_packages [] any_success t = (some any_success, t)
  install_packages (p ∷ ps) any_success t =
      let t1 = sees false ∷ t in
      let done = m.install t1 p in
      let rest = install_packages ps (any_success || done) (installs p done ∷ t1) in
      if m.stops t then (none, sees true ∷ t) else rest

  unfoldable pub install_if :
      Result Failure Bool → List String → Trace → Result Failure Bool × Trace
  unfolding install_packages
  install_if (err e) packages t = (err e, t)
  install_if (ok false) packages t = (ok false, t)
  install_if (ok true) packages t = driver_result (install_packages packages false t)

  -- `InstallDriver`
  unfoldable pub install_driver : DriverInfo → Trace → Result Failure Bool × Trace
  unfolding has_device_for_driver install_if
  install_driver d t = install_if (has_device_for_driver d.device_finder) d.packages t

  -- The loop over `_drivers` in `TryInstallStaticDriversWithRetry`: what `InstallDriver` returns is
  -- not looked at.
  unfoldable pub install_static_drivers : List DriverInfo → Trace → Ending × Trace
  unfolding install_driver
  install_static_drivers [] t = (finished, t)
  install_static_drivers (d ∷ ds) t =
      let t1 = sees false ∷ t in
      let skipped = install_static_drivers ds t1 in
      let after = go_on (install_driver d t1) (install_static_drivers ds) in
      if m.stops t then (stopped, sees true ∷ t) else if is_static d then after else skipped

  -- The inner loop of `CleanupStaticDrivers`: whether the function returns, and the events.
  unfoldable pub remove_packages : List String → Trace → Bool × Trace
  remove_packages [] t = (false, t)
  remove_packages (p ∷ ps) t =
      let t1 = sees false ∷ t in
      let rest = remove_packages ps (removes p (m.remove t1 p) ∷ t1) in
      if m.stops t then (true, sees true ∷ t) else rest

  -- `CleanupStaticDrivers`
  unfoldable pub cleanup_static_drivers : List DriverInfo → Trace → Trace
  unfolding remove_packages
  cleanup_static_drivers [] t = t
  cleanup_static_drivers (d ∷ ds) t =
      let skipped = cleanup_static_drivers ds t in
      let after = unless_returned (remove_packages d.packages t) (cleanup_static_drivers ds) in
      if is_static d then after else skipped

  -- What an attempt does once the packages are checked.
  unfoldable pub replace_drivers : List DriverInfo → Trace → Bool × Trace
  unfolding cleanup_static_drivers install_static_drivers
  replace_drivers ds t =
      if m.stops t
      then (false, sees true ∷ t)
      else is_success (install_static_drivers ds (cleanup_static_drivers ds (sees false ∷ t)))

  -- `TryInstallStaticDriversWithRetry`, with so many attempts left.
  unfoldable pub try_install : ℕ → List DriverInfo → Trace → Bool × Trace
  unfolding replace_drivers
  try_install zero ds t = (false, t)
  try_install (suc n) ds t =
      let t1 = waits false ∷ t in
      let checked = checks_packages (m.check t1) ∷ t1 in
      let retry = try_install n ds checked in
      if m.stops t
      then (false, waits true ∷ t)
      else if m.check t1
      then replace_drivers ds checked
      else retry

-- `TRY_INSTALL_STATIC_DRIVERS_RETRY_COUNT`
abbrev pub retry_count : ℕ
retry_count = 4
