-- ===== src/Drivers/Success.antt =====
-- What a run of the installation reports
-- (`TryInstallStaticDriversWithRetry` in
-- src/services/driver_manager/driver_manager_service.cpp).
use jappeos_core.Prelude.{
  String, ◌≡◌, refl, ap, ◌∙◌, Bool, true, false, ◌||◌, some, List, [], ◌∷◌, inl, inr, Bool-cases,
  if_elim, All, ok,
}
use jappeos_core.Drivers.Data.{DriverInfo, sees, waits, installs, Trace, Machine, is_static}
use jappeos_core.Drivers.Install.{
  install_packages, has_device_for_driver, install_driver, install_static_drivers, Ending, finished,
  driver_result, go_on, replace_drivers, try_install, retry_count, is_success, install_if,
}

-- Looking for the devices of the driver does not throw, if the driver is static.
abbrev pub IsProbed : Machine → DriverInfo → Type 0
IsProbed m d = is_static d ≡ true → (b : Bool) × (has_device_for_driver m d.device_finder ≡ ok b)

module _ (m : Machine) (on : (t : Trace) → m.stops t ≡ false) where
  install_packages_on :
      (ps : List String) (b : Bool) (t : Trace)
      → (a : Bool) × (t' : Trace) × (install_packages m ps b t ≡ (some a, t'))
  unfolding install_packages
  install_packages_on [] b t = (b, t, refl)
  install_packages_on (p ∷ ps) b t =
      let t1 : Trace = sees false ∷ t in
      let (a, t', e) =
        install_packages_on ps (b || m.install t1 p) (installs p (m.install t1 p) ∷ t1) in
      (a, t', rw (on t) e)

  install_if_on :
      (b : Bool) (ps : List String) (t : Trace)
      → (a : Bool) × (t' : Trace) × (install_if m (ok b) ps t ≡ (ok a, t'))
  unfolding install_if
  install_if_on false ps t = (false, t, refl)
  install_if_on true ps t =
      let (a, t', e) = install_packages_on ps false t in (a, t', ap driver_result e)

  install_static_drivers_on :
      (ds : List DriverInfo) (t : Trace)
      → All (IsProbed m) ds
      → (install_static_drivers m ds t).0 ≡ finished
  unfolding install_static_drivers
  install_static_drivers_on [] t h = refl
  install_static_drivers_on (d ∷ ds) t h = rw (on t) (elim (Bool-cases (is_static d)) [
    | inl s ↦
        let t1 : Trace = sees false ∷ t in
        let (b, there) = h.0 s in
        let (a, t', e) = install_if_on b d.packages t1 in
        let run : install_driver m d t1 ≡ (ok a, t') =
          unfold install_driver in (ap (λ r. install_if m r d.packages t1) there ∙ e) in
        rw s (
          ap (λ r. (go_on r (install_static_drivers m ds)).0) run
          ∙ install_static_drivers_on ds t' h.1)
    | inr s ↦ rw s (install_static_drivers_on ds (sees false ∷ t) h.1)
  ])

  finished-success : (r : Ending × Trace) → r.0 ≡ finished → (is_success r).0 ≡ true
  finished-success (Ending.finished, t) h = refl
  finished-success (Ending.stopped, t) h = cc
  finished-success (Ending.threw, t) h = cc

  replace_drivers_on :
      (ds : List DriverInfo) (t : Trace) → All (IsProbed m) ds → (replace_drivers m ds t).0 ≡ true
  unfolding replace_drivers
  replace_drivers_on ds t h = rw (on t) (finished-success _ (install_static_drivers_on ds _ h))

-- While nobody stops the worker, a run whose first check of the packages succeeds and whose search
-- for devices does not throw reports success, whichever packages pacman fails to install.
pub try_install_success :
    (m : Machine) (ds : List DriverInfo)
    → ((t : Trace) → m.stops t ≡ false)
    → m.check (waits false ∷ []) ≡ true
    → All (IsProbed m) ds
    → (try_install m retry_count ds []).0 ≡ true
unfolding try_install
try_install_success m ds on checked h =
    if_elim Reports (m.stops []) (λ e. absurd (ne (on []) e))
      λ e.
        if_elim Reports (m.check (waits false ∷ [])) (λ c. replace_drivers_on m on ds _ h)
          λ c. absurd (ne c checked)
  where
    Reports : Bool × Trace → Type 0
    Reports r = r.0 ≡ true

    ne : {b : Bool} → b ≡ false → b ≡ true → ⊥
    ne p q = cc
