-- ===== src/Installer/Plan/Laws.antt =====
-- What holds of install plans over any history of calls.
use jappeos_core.Installer.Exception.{unknown_plan, fail_with, Exception}
use jappeos_core.Installer.Storage.Validate.{Warning}
use jappeos_core.Installer.Plan.{
  ends, begins, cancels, running, after, init, after_create, creates, is_running,
  validate_install_data, begin_installation, Call, step, on_cancel_install_plan, run, Installer,
  Catalog, on_begin_installation, on_create_install_plan,
}
use jappeos_core.Prelude.{
  Bytes, Ensures-self, subst, Ensures, value, require-Ensures, reject-Ensures, or_throw-Ensures,
  bind-Ensures, Ensures-ok, ℕ, ◌≤◌, ◌≡◌, refl, sym, ◌∙◌, ◌≢◌, Bool, false, some, List, [], ◌∷◌,
  arith, nat_eq, string_eq, All, Result, ok, err, require, reject, or_throw,
}
use jappeos_core.Installer.Data.{InstallData}

-- The data has passed `ValidateInstallData` against the catalog at some point.
abbrev pub IsVetted : Catalog → InstallData → Type 0
IsVetted catalog d =
    (getpwnam : Bytes → Bool) × (ws : List Warning) × (validate_install_data getpwnam catalog d
      ≡ ok ws)

pub record Inv (s : Installer) : Type 0 where
  pub stored : (d : InstallData) → s.install_data ≡ some d → IsVetted s.catalog d
  pub planned : s.plan_id ≢ 0 → (d : InstallData) × (s.install_data ≡ some d)
  pub installed : All (IsVetted s.catalog) s.started

create-Inv :
    (getpwnam : Bytes → Bool) (fresh : ℕ) (d : InstallData) (s : Installer)
    → Inv s
    → Ensures (λ r. Inv r.0 × (r.0.catalog ≡ s.catalog)) (on_create_install_plan getpwnam fresh d s)
unfolding on_create_install_plan
create-Inv getpwnam fresh d s v = reject-Ensures _ _ λ _. reject-Ensures _ _ λ _.
    bind-Ensures (Ensures-self _) λ ws e. value (
      record {
        stored = λ d' h.
            let same : d ≡ d' = cc in
            (getpwnam, ws, subst (λ x. validate_install_data getpwnam s.catalog x ≡ ok ws) same e);
        planned = λ _. (d, refl);
        installed = v.installed;
      },
      refl,
    )

cancel-Inv :
    (plan : ℕ) (s : Installer)
    → Inv s
    → Ensures (λ r. Inv r × (r.catalog ≡ s.catalog)) (on_cancel_install_plan plan s)
unfolding on_cancel_install_plan
cancel-Inv plan s v = require-Ensures _ _ λ _.
    value
      (record { stored = v.stored; planned = λ h. absurd (h refl); installed = v.installed }, refl)

begin-Inv :
    (plan : ℕ) (s : Installer)
    → Inv s
    → Ensures (λ r. Inv r × (r.catalog ≡ s.catalog)) (on_begin_installation plan s)
unfolding on_begin_installation
begin-Inv plan s v =
    require-Ensures _ _ λ _. or_throw-Ensures _ _ λ d e. bind-Ensures (started d e) λ s' h. value h
  where
    started :
        (d : InstallData)
        → s.install_data ≡ some d
        → Ensures
            (λ s'. Inv (record s' { plan_id = 0 }) × (s'.catalog ≡ s.catalog))
            (begin_installation d s)
    started d e = reject-Ensures _ _ λ _. value (
      record {
        stored = v.stored;
        planned = λ h. absurd (h refl);
        installed = (v.stored d e, v.installed);
      },
      refl,
    )

after_Ensures :
    (P : Installer → Type 0) (s : Installer) (r : Result Exception Installer)
    → P s
    → Ensures P r
    → P (after s r)
after_Ensures P s (ok s') p h = Ensures-ok h refl
after_Ensures P s (err e) p h = p

after_create_Ensures :
    (P : Installer → Type 0) (s : Installer) (r : Result Exception (Installer × (ℕ × List Warning)))
    → P s
    → Ensures (λ x. P x.0) r
    → P (after_create s r)
after_create_Ensures P s (ok (s', reply)) p h = Ensures-ok h refl
after_create_Ensures P s (err e) p h = p

Kept : Catalog → Installer → Type 0
Kept catalog r = Inv r × (r.catalog ≡ catalog)

step-Inv : (s : Installer) (c : Call) → Inv s → Inv (step s c) × ((step s c).catalog ≡ s.catalog)
unfolding step Kept
step-Inv s (creates getpwnam fresh d) v =
    after_create_Ensures (Kept s.catalog) s _ (v, refl) (create-Inv getpwnam fresh d s v)
step-Inv s (cancels plan) v = after_Ensures (Kept s.catalog) s _ (v, refl) (cancel-Inv plan s v)
step-Inv s (begins plan) v = after_Ensures (Kept s.catalog) s _ (v, refl) (begin-Inv plan s v)
step-Inv s (ends state) v =
    (record { stored = v.stored; planned = v.planned; installed = v.installed }, refl)

run-Inv :
    (s : Installer) (cs : List Call) → Inv s → Inv (run s cs) × ((run s cs).catalog ≡ s.catalog)
unfolding run
run-Inv s [] v = (v, refl)
run-Inv s (c ∷ cs) v =
    let (v', e) = step-Inv s c v in let (w, e') = run-Inv (step s c) cs v' in (w, e' ∙ e)

-- Whatever calls the service has received since it started, every installation that was begun is of
-- data that passed `validate_install_data` against the catalog, and while a plan number is set
-- there is data for it.
pub run-IsVetted :
    (catalog : Catalog) (cs : List Call)
    → All (IsVetted catalog) (run (init catalog) cs).started
      × ((run (init catalog) cs).plan_id ≢ 0
          → (d : InstallData) × ((run (init catalog) cs).install_data ≡ some d))
unfolding init
run-IsVetted catalog cs =
    let (v, e) = run-Inv (init catalog) cs init-Inv in
    (
      subst (λ c. All (IsVetted c) (run (init catalog) cs).started) (e ∙ same) v.installed,
      v.planned,
    )
  where
    init-Inv : Inv (init catalog)
    init-Inv = record {
      stored = λ d h. absurd (cc);
      planned = λ h. absurd (h refl);
      installed = tt;
    }

    same : (init catalog).catalog ≡ catalog
    same = refl

create-ok :
    (getpwnam : Bytes → Bool) (fresh : ℕ) (d : InstallData) (s : Installer)
    → Ensures
        (λ r.
          (r.0 ≡ record s { plan_id = fresh; install_data = some d })
          × (is_running s.controller ≡ false))
        (on_create_install_plan getpwnam fresh d s)
unfolding on_create_install_plan
create-ok getpwnam fresh d s = reject-Ensures _ _ λ _. reject-Ensures _ _ λ r.
    bind-Ensures (Ensures-self (validate_install_data getpwnam s.catalog d)) λ ws e.
      value {a = (record s { plan_id = fresh; install_data = some d }, (fresh, ws))} (refl, r)

begin_twice :
    (fresh : ℕ) (d : InstallData) (s : Installer)
    → 1 ≤ fresh
    → is_running s.controller ≡ false
    → (s'' : Installer) × (on_begin_installation fresh
          (record s { plan_id = fresh; install_data = some d })
        ≡ ok s'')
      × (s''.started ≡ d ∷ s.started)
      × (s''.controller ≡ running)
      × (on_begin_installation fresh s'' ≡ err (fail_with unknown_plan))
unfolding on_begin_installation require reject or_throw
begin_twice fresh d s h r = (
  record s { plan_id = 0; install_data = some d; controller = running; started = d ∷ s.started },
  ground arith,
  refl,
  refl,
  ground arith,
)

-- A plan that was created starts the installation of exactly its data, once: a second call with the
-- same number is refused. The generator never gives 0.
pub create-begin :
    (getpwnam : Bytes → Bool) (fresh : ℕ) (d : InstallData) (s s' : Installer) (ws : List Warning)
    → 1 ≤ fresh
    → on_create_install_plan getpwnam fresh d s ≡ ok (s', (fresh, ws))
    → (s'' : Installer) × (on_begin_installation fresh s' ≡ ok s'')
      × (s''.started ≡ d ∷ s.started)
      × (s''.controller ≡ running)
      × (on_begin_installation fresh s'' ≡ err (fail_with unknown_plan))
create-begin getpwnam fresh d s s' ws h e =
    let (same, r) = Ensures-ok (create-ok getpwnam fresh d s) e in
    subst
      (λ x.
        (s'' : Installer) × (on_begin_installation fresh x ≡ ok s'')
        × (s''.started ≡ d ∷ s.started)
        × (s''.controller ≡ running)
        × (on_begin_installation fresh s'' ≡ err (fail_with unknown_plan)))
      (sym same) (begin_twice fresh d s h r)

-- Cancelling does not forget the data: right after any plan is cancelled, a call that begins plan 0
-- starts the installation of the data that was cancelled, unless one is running.
cancel-begin_zero :
    (plan : ℕ) (d : InstallData) (s : Installer)
    → s.plan_id ≡ plan
    → s.install_data ≡ some d
    → is_running s.controller ≡ false
    → (s' s'' : Installer) × (on_cancel_install_plan plan s ≡ ok s')
      × (on_begin_installation 0 s' ≡ ok s'')
      × (s''.started ≡ d ∷ s.started)
unfolding on_cancel_install_plan on_begin_installation require reject or_throw
cancel-begin_zero plan d s p e r = (
  record s { plan_id = 0 },
  record s { plan_id = 0; controller = running; started = d ∷ s.started },
  ground arith,
  ground arith,
  refl,
)
