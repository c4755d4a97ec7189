-- ===== src/Installer/Controller/Invariant.antt =====
-- What holds of the controller at every moment, however the threads interleave.
use jappeos_core.Prelude.{
  subst, ℕ, ◌+◌, ◌≤◌, ◌<◌, ◌≡◌, sym, Bool, true, false, not, ◌&&◌, ◌||◌, List, [], ◌∷◌, arith,
  nat_eq, string_eq, if◌then◌else◌,
}
use jappeos_core.Installer.Plan.{is_running}
use jappeos_core.Installer.Controller.{
  Steps, Main, Worker, Report, Controller, Move, Reach, start, here, next, starts, stores_running,
  reports_running, spawns, joins, cancels, flags, begins, reads, announces, returns, throws,
  finishes, stores, tells, old_tells, starting, started, reported, joining, absent, at_step,
  announcing, executing, storing, reporting, state_changed, progress_changed, progress_at,
  start_loads, start_spawns, cancel_loads, cancel_stores, run_begins, loop_head, announce,
  step_throws, loop_ends,
}

-- The thread has not yet stored the state in which it ends.
abbrev pub is_active : Worker → Bool
is_active absent = false
is_active (reporting s message) = false
is_active _ = true

abbrev pub is_absent : Worker → Bool
is_absent absent = true
is_absent _ = false

abbrev pub is_reporting : Worker → Bool
is_reporting (reporting s message) = true
is_reporting _ = false

-- `Running` is stored, and there is no thread for it yet.
abbrev pub is_launching : Main → Bool
is_launching started = true
is_launching reported = true
is_launching _ = false

abbrev pub is_preparing : Main → Bool
is_preparing starting = true
is_preparing started = true
is_preparing reported = true
is_preparing _ = false

abbrev pub is_joining : Main → Bool
is_joining joining = true
is_joining _ = false

abbrev pub is_unreported : Main → Bool
is_unreported started = true
is_unreported _ = false

-- A thread ends in a state that is not running.
abbrev pub Terminal : Worker → Type 0
Terminal (storing s message) = is_running s ≡ false
Terminal (reporting s message) = is_running s ≡ false
Terminal _ = Unit

-- The loop variable is within the steps.
abbrev pub InLoop : ℕ → Worker → Type 0
InLoop steps (at_step i) = i ≤ steps
InLoop steps (announcing i) = i < steps
InLoop steps (executing i) = i < steps
InLoop steps _ = Unit

-- Every progress report is a percentage.
abbrev pub ReportsFit : List Report → Type 0
ReportsFit [] = Unit
ReportsFit (progress_changed n p t ∷ rs) = (p ≤ 100) × ReportsFit rs
ReportsFit (state_changed s e ∷ rs) = ReportsFit rs

abbrev pub one : Bool → ℕ
one b = if b then 1 else 0

-- The reports that a run has begun, and those that one has ended.
abbrev pub begun_reports : List Report → ℕ
begun_reports [] = 0
begun_reports (progress_changed n p t ∷ rs) = begun_reports rs
begun_reports (state_changed s e ∷ rs) = one (is_running s) + begun_reports rs

abbrev pub ended_reports : List Report → ℕ
ended_reports [] = 0
ended_reports (progress_changed n p t ∷ rs) = ended_reports rs
ended_reports (state_changed s e ∷ rs) = one (not (is_running s)) + ended_reports rs

pub record Inv (steps : Steps) (c : Controller) : Type 0 where
  pub alive : is_running c.state ≡ (is_launching c.main || is_active c.worker)
  pub single : (is_preparing c.main && is_active c.worker) ≡ false
  pub ended : is_active c.old ≡ false
  pub joined : (is_joining c.main || is_absent c.old) ≡ true
  pub terminal : Terminal c.worker × Terminal c.old
  pub in_loop : InLoop steps.size c.worker
  pub percentages : ReportsFit c.reports
  pub accounted :
      begun_reports c.reports + one (is_unreported c.main)
      ≡ ended_reports c.reports
        + one (is_reporting c.worker)
        + one (is_reporting c.old)
        + one (is_running c.state)

percentage : (steps i : ℕ) → i < steps → progress_at steps i ≤ 100
percentage steps i h = grind arith

Move-Inv : (steps : Steps) {c c' : Controller} → Move steps c c' → Inv steps c → Inv steps c'
unfolding start_loads start_spawns cancel_loads cancel_stores run_begins loop_head announce
    step_throws loop_ends
Move-Inv steps {c} (starts m e) v = subst (Inv steps) (sym e) (ground arith)
Move-Inv steps {c} (stores_running m e) v = subst (Inv steps) (sym e) (ground arith)
Move-Inv steps {c} (reports_running m e) v = subst (Inv steps) (sym e) (ground arith)
Move-Inv steps {c} (spawns m e) v = subst (Inv steps) (sym e) (ground arith)
Move-Inv steps {c} (joins m o e) v = subst (Inv steps) (sym e) (ground arith)
Move-Inv steps {c} (cancels m e) v = subst (Inv steps) (sym e) (ground arith)
Move-Inv steps {c} (flags m e) v = subst (Inv steps) (sym e) (ground arith)
Move-Inv steps {c} (begins w e) v = subst (Inv steps) (sym e) (ground arith)
Move-Inv steps {c} (reads i w h e) v = subst (Inv steps) (sym e) (ground arith)
Move-Inv steps {c} (announces i w e) v =
    subst (Inv steps) (sym e) (ground (arith, percentage steps.size i))
Move-Inv steps {c} (returns i w e) v = subst (Inv steps) (sym e) (ground arith)
Move-Inv steps {c} (throws i what w e) v = subst (Inv steps) (sym e) (ground arith)
Move-Inv steps {c} (finishes w e) v = subst (Inv steps) (sym e) (ground arith)
Move-Inv steps {c} (stores s message w e) v = subst (Inv steps) (sym e) (ground arith)
Move-Inv steps {c} (tells s message w e) v = subst (Inv steps) (sym e) (ground arith)
Move-Inv steps {c} (old_tells s message w e) v = subst (Inv steps) (sym e) (ground arith)

-- In every interleaving of the main thread and the workers from the initial state: the state is
-- running exactly while `Running` is stored for a run that has no thread yet, or a worker has not
-- stored the state in which it ends; nothing is started while there is such a worker, and a thread
-- that is being joined is no such worker; the loop variable stays within the steps, and every
-- progress report is at most 100; and each report that a run has begun, made or still to be made,
-- has one report of its end, made or still to be made by a thread that has stored the state, unless
-- the run is under way.
pub Reach-Inv : (steps : Steps) {c : Controller} → Reach steps start c → Inv steps c
Reach-Inv steps here = ground arith
Reach-Inv steps (next r m) = Move-Inv steps m (Reach-Inv steps r)
