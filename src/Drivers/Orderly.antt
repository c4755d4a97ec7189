-- ===== src/Drivers/Orderly.antt =====
-- The order in which the worker of src/services/driver_manager/driver_manager_service.cpp runs
-- pacman and looks whether it shall stop.
use jappeos_core.Prelude.{
  ℕ, zero, suc, ◌+◌, ◌≤◌, String, ◌≡◌, refl, inl, inr, Bool, true, false, ◌&&◌, ◌||◌, Option, none,
  some, List, [], ◌∷◌, ◌==◌, string_eq, Bool-cases, if_elim, All-map, any_later, any, All, count_if,
  Result, ok, err, arith, eq_iff,
}
use jappeos_core.Drivers.Data.{
  DriverInfo, Event, sees, waits, checks_packages, removes, installs, Trace, Machine, is_static,
}
use jappeos_core.Drivers.Install.{
  Failure, install_packages, has_device_for_driver, install_driver, driver_result, go_on,
  unless_returned, install_static_drivers, Ending, remove_packages, cleanup_static_drivers,
  replace_drivers, try_install, retry_count, is_success, install_if,
}

-- The newest event is a reading of the flag that was unset.
abbrev pub Saw : Trace → Type 0
Saw (sees false ∷ t) = Unit {0}
Saw _ = ⊥

-- The newest event is a wait that ran to its end.
abbrev pub Waited : Trace → Type 0
Waited (waits false ∷ t) = Unit {0}
Waited _ = ⊥

-- Some static driver has the package.
abbrev pub wants : List DriverInfo → String → Bool
wants ds p = any (λ d. is_static d && any (λ q. q == p) d.packages) ds

-- After these events, the next one may be this.
abbrev pub Allowed : (String → Type 0) → Event → Trace → Type 0
Allowed P (installs p b) t = P p × Saw t
Allowed P (removes p b) t = P p × Saw t
Allowed P (checks_packages b) t = Waited t
Allowed P _ t = Unit

abbrev pub Orderly : (String → Type 0) → Trace → Type 0
Orderly P [] = Unit
Orderly P (e ∷ t) = Allowed P e t × Orderly P t

abbrev pub is_check : Event → Bool
is_check (checks_packages b) = true
is_check _ = false

abbrev pub checks : Trace → ℕ
checks = count_if is_check

-- What a part of an attempt keeps: the order, and the number of checks.
abbrev Keeps : (String → Type 0) → Trace → Trace → Type 0
Keeps P t t' = Orderly P t' × (checks t' ≡ checks t)

abbrev Wanted : (String → Type 0) → DriverInfo → Type 0
Wanted P d = is_static d ≡ true → All P d.packages

module _ (m : Machine) (P : String → Type 0) where
  install_packages-Keeps :
      (ps : List String) (b : Bool) (t : Trace)
      → All P ps
      → Orderly P t
      → Keeps P t (install_packages m ps b t).1
  unfolding install_packages
  install_packages-Keeps [] b t h o = (o, refl)
  install_packages-Keeps (p ∷ ps) b t h o = elim (Bool-cases (m.stops t)) [
    | inl e ↦ rw e ((tt, o), omega arith)
    | inr e ↦
        let t1 : Trace = sees false ∷ t in
        let (o', same) =
          install_packages-Keeps ps (b || m.install t1 p) (installs p (m.install t1 p) ∷ t1) h.1
            ((h.0, tt), (tt, o)) in
        rw e (o', omega (arith, same))
  ]

  installed : (t : Trace) (r : Option Bool × Trace) → Keeps P t r.1 → Keeps P t (driver_result r).1
  installed t (none, t') k = k
  installed t (some b, t') k = k

  install_if-Keeps :
      (r : Result Failure Bool) (ps : List String) (t : Trace)
      → All P ps
      → Orderly P t
      → Keeps P t (install_if m r ps t).1
  unfolding install_if
  install_if-Keeps (err e) ps t h o = (o, refl)
  install_if-Keeps (ok false) ps t h o = (o, refl)
  install_if-Keeps (ok true) ps t h o =
      installed t (install_packages m ps false t) (install_packages-Keeps ps false t h o)

  remove_packages-Keeps :
      (ps : List String) (t : Trace) → All P ps → Orderly P t → Keeps P t (remove_packages m ps t).1
  unfolding remove_packages
  remove_packages-Keeps [] t h o = (o, refl)
  remove_packages-Keeps (p ∷ ps) t h o = elim (Bool-cases (m.stops t)) [
    | inl e ↦ rw e ((tt, o), omega arith)
    | inr e ↦
        let t1 : Trace = sees false ∷ t in
        let (o', same) =
          remove_packages-Keeps ps (removes p (m.remove t1 p) ∷ t1) h.1 ((h.0, tt), (tt, o)) in
        rw e (o', omega (arith, same))
  ]

  install_driver-Keeps :
      (d : DriverInfo) (t : Trace)
      → All P d.packages
      → Orderly P t
      → Keeps P t (install_driver m d t).1
  unfolding install_driver
  install_driver-Keeps d t h o =
      install_if-Keeps (has_device_for_driver m d.device_finder) d.packages t h o

  go_on-Keeps :
      (t : Trace) (r : Result Failure Bool × Trace) (k : Trace → Ending × Trace)
      → Keeps P t r.1
      → ((t' : Trace) → Orderly P t' → Keeps P t' (k t').1)
      → Keeps P t (go_on r k).1
  go_on-Keeps t (ok b, t') k (o, same) next =
      let (o', same') = next t' o in (o', omega (arith, same, same'))
  go_on-Keeps t (err e, t') k h next = h

  install_static_drivers-Keeps :
      (ds : List DriverInfo) (t : Trace)
      → All (Wanted P) ds
      → Orderly P t
      → Keeps P t (install_static_drivers m ds t).1
  unfolding install_static_drivers
  install_static_drivers-Keeps [] t h o = (o, refl)
  install_static_drivers-Keeps (d ∷ ds) t h o = elim (Bool-cases (m.stops t)) [
    | inl e ↦ rw e ((tt, o), omega arith)
    | inr e ↦
        let t1 : Trace = sees false ∷ t in
        elim (Bool-cases (is_static d)) [
          | inl s ↦
              let (o', same) =
                go_on-Keeps t1 (install_driver m d t1) (install_static_drivers m ds)
                  (install_driver-Keeps d t1 (h.0 s) (tt, o))
                  (λ t' o'. install_static_drivers-Keeps ds t' h.1 o') in
              rw (e, s) (o', omega (arith, same))
          | inr s ↦
              let (o', same) = install_static_drivers-Keeps ds t1 h.1 (tt, o) in
              rw (e, s) (o', omega (arith, same))
        ]
  ]

  unless_returned-Keeps :
      (t : Trace) (r : Bool × Trace) (k : Trace → Trace)
      → Keeps P t r.1
      → ((t' : Trace) → Orderly P t' → Keeps P t' (k t'))
      → Keeps P t (unless_returned r k)
  unless_returned-Keeps t (true, t') k h next = h
  unless_returned-Keeps t (false, t') k (o, same) next =
      let (o', same') = next t' o in (o', omega (arith, same, same'))

  cleanup_static_drivers-Keeps :
      (ds : List DriverInfo) (t : Trace)
      → All (Wanted P) ds
      → Orderly P t
      → Keeps P t (cleanup_static_drivers m ds t)
  unfolding cleanup_static_drivers
  cleanup_static_drivers-Keeps [] t h o = (o, refl)
  cleanup_static_drivers-Keeps (d ∷ ds) t h o = elim (Bool-cases (is_static d)) [
    | inl s ↦ rw s (
        unless_returned-Keeps t (remove_packages m d.packages t) (cleanup_static_drivers m ds)
          (remove_packages-Keeps d.packages t (h.0 s) o)
          (λ t' o'. cleanup_static_drivers-Keeps ds t' h.1 o'))
    | inr s ↦ rw s (cleanup_static_drivers-Keeps ds t h.1 o)
  ]

  is_success-Keeps : (t : Trace) (r : Ending × Trace) → Keeps P t r.1 → Keeps P t (is_success r).1
  is_success-Keeps t (Ending.finished, t') k = k
  is_success-Keeps t (Ending.stopped, t') k = k
  is_success-Keeps t (Ending.threw, t') k = k

  replace_drivers-Keeps :
      (ds : List DriverInfo) (t : Trace)
      → All (Wanted P) ds
      → Orderly P t
      → Keeps P t (replace_drivers m ds t).1
  unfolding replace_drivers
  replace_drivers-Keeps ds t h o = elim (Bool-cases (m.stops t)) [
    | inl e ↦ rw e ((tt, o), omega arith)
    | inr e ↦
        let (o1, same1) = cleanup_static_drivers-Keeps ds (sees false ∷ t) h (tt, o) in
        let (o2, same2) = install_static_drivers-Keeps ds _ h o1 in
        rw e (is_success-Keeps _ _ (o2, omega (arith, same1, same2)))
  ]

  try_install-Orderly :
      (n : ℕ) (ds : List DriverInfo) (t : Trace)
      → All (Wanted P) ds
      → Orderly P t
      → Orderly P (try_install m n ds t).1 × (checks (try_install m n ds t).1 ≤ checks t + n)
  unfolding try_install
  try_install-Orderly zero ds t h o = (o, omega arith)
  try_install-Orderly (suc n) ds t h o =
      let t1 : Trace = waits false ∷ t in
      let t2 : Trace = checks_packages (m.check t1) ∷ t1 in
      let o2 : Orderly P t2 = (tt, (tt, o)) in
      if_elim Bounded (m.stops t) (λ e. ((tt, o), omega arith))
        λ e.
          if_elim Bounded (m.check t1)
            (λ c. let (o', same) = replace_drivers-Keeps ds t2 h o2 in (o', omega (arith, same)))
            λ c. let (o', few) = try_install-Orderly n ds t2 h o2 in (o', omega (arith, few))
    where
      Bounded : Bool × Trace → Type 0
      Bounded r = Orderly P r.1 × (checks r.1 ≤ checks t + suc n)

wants_self : (ps : List String) → All (λ p. any (λ q. q == p) ps ≡ true) ps
wants_self [] = tt
wants_self (p ∷ ps) =
    (rw (eq_iff p p).1 refl, All-map ps (λ q h. any_later (λ r. r == q) p ps h) (wants_self ps))

wants-Wanted : (ds : List DriverInfo) → All (Wanted (λ p. wants ds p ≡ true)) ds
wants-Wanted [] = tt
wants-Wanted (d ∷ ds) = (
  (λ s. All-map d.packages (λ p h. ground (arith, s, h)) (wants_self d.packages)),
  All-map ds
      (λ e h s.
        All-map e.packages (λ p. any_later (λ d. is_static d && any (λ q. q == p) d.packages) d ds)
          (h s))
      (wants-Wanted ds),
)

-- A run of the installation removes and installs nothing but packages of static drivers, each right
-- after a look at `_stopping` that found it unset, and checks the packages at most four times, each
-- time right after a wait that ran to its end.
pub try_install_order :
    (m : Machine) (ds : List DriverInfo)
    → let t = (try_install m retry_count ds []).1 in
      Orderly (λ p. wants ds p ≡ true) t × (checks t ≤ 4)
try_install_order m ds = try_install-Orderly m _ retry_count ds [] (wants-Wanted ds) tt
