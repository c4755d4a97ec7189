-- ===== src/Installer/Controller.antt =====
-- src/services/installer/install_controller.cpp: the threads that run the installation steps, and
-- the main thread, which starts and cancels them. Every load and store of an atomic, every call of
-- `g_main_context_invoke`, and every start and join of a thread is one move of the relation `Move`,
-- so its sequences are all interleavings. A thread does nothing after its last report, so it is
-- over with it. `reports` has the calls of `g_main_context_invoke`, newest first.
pub mod Invariant
pub mod Cancelling
use Prim.Native.String.{◌++◌ as text_append}
use jappeos_core.Prelude.{
  ℕ, ◌+◌, ◌*◌, ◌/◌, ◌<◌, String, ◌≡◌, Bool, true, false, ◌&&◌, not, List, [], ◌∷◌, if◌then◌else◌,
  ◌==◌, nat_eq, string_eq, err,
}
use jappeos_core.Installer.Plan.{
  is_running, InstallState, running, succeeded, failed_install, cancelled, idle,
}

-- Where a worker thread stands in `RunInstall`.
pub data Worker : Type 0 where
  absent : Worker  -- no thread, or one that has made its last report
  spawned : Worker  -- the thread exists, `RunInstall` has not begun
  at_step : ℕ → Worker  -- at the head of the loop, with the value of `i`
  announcing : ℕ → Worker  -- the flag has been read and was not set
  executing : ℕ → Worker  -- inside `step->Execute(context)`
  storing : InstallState → String → Worker  -- in `UpdateState`, before the store
  reporting : InstallState → String → Worker  -- in `UpdateState`, after the store

-- Where the main thread stands.
pub data Main : Type 0 where
  ready : Main  -- in neither method
  starting : Main  -- in `StartInstall`, the load has found no run
  started : Main  -- `Running` has been stored
  reported : Main  -- and reported
  joining : Main  -- the new thread runs, and the old one is joined by the assignment to `_worker`
  cancelling : Main  -- in `CancelInstall`, the load has found a run

-- The vector of steps: its size, and what `Name()` and `Message()` of each step return.
pub record Steps : Type 0 where
  pub size : ℕ
  pub name : ℕ → String
  pub message : ℕ → String

-- A call of `stateChanged` or `progressChanged`.
pub data Report : Type 0 where
  state_changed : InstallState → String → Report
  progress_changed : String → ℕ → String → Report

-- `worker` is the thread that was started last, and `old` the one that is being joined.
pub record Controller : Type 0 where
  pub state : InstallState
  pub cancel_requested : Bool
  pub main : Main
  pub worker : Worker
  pub old : Worker
  pub reports : List Report

abbrev pub start : Controller
start = record {
  state = idle;
  cancel_requested = false;
  main = ready;
  worker = absent;
  old = absent;
  reports = [];
}

abbrev pub is_failed : InstallState → Bool
is_failed failed_install = true
is_failed _ = false

-- `UpdateState`: the store
abbrev pub store_state : InstallState → Controller → Controller
store_state s c = record c { state = s }

-- `UpdateState`: the report. Only a failure keeps its message.
abbrev pub report_state : InstallState → String → Controller → Controller
report_state s message c =
    let err = if not (is_failed s) && not (message == "") then "" else message in
    record c { reports = state_changed s err ∷ c.reports }

-- `UpdateProgress`
abbrev pub update_progress : String → ℕ → String → Controller → Controller
update_progress step percent message c = record c {
  reports = progress_changed step percent message ∷ c.reports;
}

-- `(100 / _steps.size()) * i`
abbrev pub progress_at : ℕ → ℕ → ℕ
progress_at steps i = 100 / steps * i

-- `StartInstall`: the load; it throws if there is a run.
unfoldable pub start_loads : Controller → Controller
start_loads c = if is_running c.state then c else record c { main = starting }

-- `StartInstall`: the new thread runs before the assignment to `_worker` joins the old one.
unfoldable pub start_spawns : Controller → Controller
start_spawns c = record c { main = joining; worker = spawned; old = c.worker }

-- `CancelInstall`: the load
unfoldable pub cancel_loads : Controller → Controller
cancel_loads c = if is_running c.state then record c { main = cancelling } else c

-- `CancelInstall`: the store
unfoldable pub cancel_stores : Controller → Controller
cancel_stores c = record c { main = ready; cancel_requested = true }

-- `RunInstall`: the store before the loop
unfoldable pub run_begins : Controller → Controller
run_begins c = record c { cancel_requested = false; worker = at_step 0 }

-- The head of the loop: the flag is read.
unfoldable pub loop_head : ℕ → Controller → Controller
loop_head i c = record c {
  worker = if c.cancel_requested then storing cancelled "" else announcing i;
}

-- The report of a step, before it is executed
unfoldable pub announce : Steps → ℕ → Controller → Controller
announce steps i c =
    record (update_progress (steps.name i) (progress_at steps.size i) (steps.message i) c) {
      worker = executing i;
    }

-- A step that throws an exception with the text `what`
unfoldable pub step_throws : String → Controller → Controller
step_throws what c = record c {
  worker = storing failed_install (text_append "Install failed: " what);
}

-- The report after the loop
unfoldable pub loop_ends : Controller → Controller
loop_ends c = record (update_progress "Done" 100 "Install done!" c) {
  worker = storing succeeded "";
}

-- One move of the main thread or of a worker, with `steps` installation steps.
pub data Move (steps : Steps) (c : Controller) : Controller → Type 0 where
  starts : {c' : Controller} → c.main ≡ ready → c' ≡ start_loads c → Move steps c c'
  stores_running :
      {c' : Controller}
      → c.main ≡ starting
      → c' ≡ record (store_state running c) { main = started }
      → Move steps c c'
  reports_running :
      {c' : Controller}
      → c.main ≡ started
      → c' ≡ record (report_state running "" c) { main = reported }
      → Move steps c c'
  spawns : {c' : Controller} → c.main ≡ reported → c' ≡ start_spawns c → Move steps c c'
  joins :
      {c' : Controller}
      → c.main ≡ joining
      → c.old ≡ absent
      → c' ≡ record c { main = ready }
      → Move steps c c'
  cancels : {c' : Controller} → c.main ≡ ready → c' ≡ cancel_loads c → Move steps c c'
  flags : {c' : Controller} → c.main ≡ cancelling → c' ≡ cancel_stores c → Move steps c c'
  begins : {c' : Controller} → c.worker ≡ spawned → c' ≡ run_begins c → Move steps c c'
  reads :
      {c' : Controller} (i : ℕ)
      → c.worker ≡ at_step i
      → i < steps.size
      → c' ≡ loop_head i c
      → Move steps c c'
  announces :
      {c' : Controller} (i : ℕ)
      → c.worker ≡ announcing i
      → c' ≡ announce steps i c
      → Move steps c c'
  returns :
      {c' : Controller} (i : ℕ)
      → c.worker ≡ executing i
      → c' ≡ record c { worker = at_step (i + 1) }
      → Move steps c c'
  throws :
      {c' : Controller} (i : ℕ) (what : String)
      → c.worker ≡ executing i
      → c' ≡ step_throws what c
      → Move steps c c'
  finishes : {c' : Controller} → c.worker ≡ at_step steps.size → c' ≡ loop_ends c → Move steps c c'
  stores :
      {c' : Controller} (s : InstallState) (message : String)
      → c.worker ≡ storing s message
      → c' ≡ record (store_state s c) { worker = reporting s message }
      → Move steps c c'
  tells :
      {c' : Controller} (s : InstallState) (message : String)
      → c.worker ≡ reporting s message
      → c' ≡ record (report_state s message c) { worker = absent }
      → Move steps c c'
  old_tells :
      {c' : Controller} (s : InstallState) (message : String)
      → c.old ≡ reporting s message
      → c' ≡ record (report_state s message c) { old = absent }
      → Move steps c c'

pub data Reach (steps : Steps) (c : Controller) : Controller → Type 0 where
  here : Reach steps c c
  next : {d e : Controller} → Reach steps c d → Move steps d e → Reach steps c e
