-- ===== src/Drivers/Worker.antt =====
-- The worker thread of src/services/driver_manager/driver_manager_service.cpp beside the main
-- thread. What a thread does while it holds `_workerMutex` is one move of the relation `Move`, so
-- its sequences are all interleavings; the run of `TryInstallStaticDriversWithRetry` lies between
-- two moves of the worker.
use jappeos_core.Prelude.{
  zero, suc, ◌∙◌, ℕ, ◌+◌, ◌≡◌, refl, subst, if_elim, Bool, true, false, ◌||◌, if◌then◌else◌, ap,
  arith,
}

-- Where the worker stands in `ThreadFunc`: before the loop, in the wait, in a run, and gone, by a
-- return or by an exception out of the run.
pub data Phase : Type 0 where
  starting waiting running returned failed : Phase

pub record Worker : Type 0 where
  pub stopping : Bool
  pub install_requested : Bool
  pub installing : Bool
  pub installation_complete : Bool
  pub phase : Phase
  pub runs : ℕ  -- how many runs have begun

abbrev pub new_worker : Worker
new_worker = record {
  stopping = false;
  install_requested = true;
  installing = false;
  installation_complete = false;
  phase = starting;
  runs = 0;
}

-- `HandleNetworkConnectionAdded`
unfoldable pub connection_added : Worker → Worker
connection_added w =
    if w.stopping || (w.installation_complete || w.installing)
    then w
    else record w { install_requested = true }

-- The destructor, before it waits for the thread.
abbrev pub destroy_begins : Worker → Worker
destroy_begins w = record w { stopping = true }

-- `ThreadFunc` before the loop; `changed` is whether there are drivers and the hardware has changed.
unfoldable pub thread_begins : Bool → Worker → Worker
thread_begins changed w =
    if w.stopping
    then record w { phase = returned }
    else record w { phase = if changed then waiting else returned }

-- The end of the wait, up to the run.
unfoldable pub wait_ends : Worker → Worker
wait_ends w = if w.stopping then record w { phase = returned } else record w {
  install_requested = false;
  installing = true;
  phase = running;
  runs = w.runs + 1;
}

-- What follows a run that returned.
unfoldable pub run_ends : Bool → Worker → Worker
run_ends success w =
    if success
    then record w { installing = false; installation_complete = true; phase = returned }
    else record w { installing = false; phase = if w.stopping then returned else waiting }

pub data Move (w : Worker) : Worker → Type 0 where
  connects : {v : Worker} → v ≡ connection_added w → Move w v
  destroys : {v : Worker} → v ≡ destroy_begins w → Move w v
  begins :
      {v : Worker} (changed : Bool) → w.phase ≡ starting → v ≡ thread_begins changed w → Move w v
  wakes :
      {v : Worker}
      → w.phase ≡ waiting
      → (w.stopping || w.install_requested) ≡ true
      → v ≡ wait_ends w
      → Move w v
  ends : {v : Worker} (success : Bool) → w.phase ≡ running → v ≡ run_ends success w → Move w v
  throws : {v : Worker} → w.phase ≡ running → v ≡ record w { phase = failed } → Move w v

pub data Reach (w : Worker) : Worker → Type 0 where
  here : Reach w w
  next : {u v : Worker} → Reach w u → Move u v → Reach w v

-- The flags of the worker at each place.
abbrev pub Flags : Phase → Worker → Type 0
Flags starting w = (w.installing ≡ false) × (w.installation_complete ≡ false) × (w.runs ≡ 0)
Flags waiting w = (w.installing ≡ false) × (w.installation_complete ≡ false)
Flags running w =
    (w.installing ≡ true) × (w.installation_complete ≡ false) × (w.install_requested ≡ false)
Flags returned w = w.installing ≡ false
Flags failed w = (w.installing ≡ true) × (w.installation_complete ≡ false)

abbrev pub Consistent : Worker → Type 0
Consistent w = Flags w.phase w

connection_added-Flags : (p : Phase) (w : Worker) → Flags p w → Flags p (connection_added w)
unfolding connection_added
connection_added-Flags starting w f = ground (arith, f)
connection_added-Flags waiting w f = ground (arith, f)
connection_added-Flags running w f = ground (arith, f)
connection_added-Flags returned w f = ground (arith, f)
connection_added-Flags failed w f = ground (arith, f)

connection_added-phase : (w : Worker) → w.phase ≡ (connection_added w).phase
unfolding connection_added
connection_added-phase w = ground arith

destroy-Flags : (p : Phase) (w : Worker) → Flags p w → Flags p (destroy_begins w)
destroy-Flags starting w f = f
destroy-Flags waiting w f = f
destroy-Flags running w f = f
destroy-Flags returned w f = f
destroy-Flags failed w f = f

begun : (changed : Bool) (w : Worker) → Flags starting w → Consistent (thread_begins changed w)
unfolding thread_begins
begun changed w f = if_elim Consistent w.stopping (λ e. f.0) (λ e. later changed)
  where
    later : (b : Bool) → Consistent (record w { phase = if b then waiting else returned })
    later true = (f.0, f.1)
    later false = f.0

woken : (w : Worker) → Flags waiting w → Consistent (wait_ends w)
unfolding wait_ends
woken w f = if_elim Consistent w.stopping (λ e. f.0) (λ e. (refl, f.1, refl))

ended : (success : Bool) (w : Worker) → Flags running w → Consistent (run_ends success w)
unfolding run_ends
ended true w f = refl
ended false w f = later w.stopping
  where
    later :
        (b : Bool)
        → Consistent (record w { installing = false; phase = if b then returned else waiting })
    later true = refl
    later false = (refl, f.1)

step-Consistent : {w v : Worker} → Move w v → Consistent w → Consistent v
step-Consistent {w} (connects e) f = rw e (
    subst (λ p. Flags p (connection_added w)) (connection_added-phase w)
      (connection_added-Flags w.phase w f))
step-Consistent {w} (destroys e) f = rw e (destroy-Flags w.phase w f)
step-Consistent {w} (begins changed e0 e) f =
    let g : Flags starting w = subst (λ p. Flags p w) e0 f in rw e (begun changed w g)
step-Consistent {w} (wakes e0 any e) f =
    let g : Flags waiting w = subst (λ p. Flags p w) e0 f in rw e (woken w g)
step-Consistent {w} (ends success e0 e) f =
    let g : Flags running w = subst (λ p. Flags p w) e0 f in rw e (ended success w g)
step-Consistent {w} (throws e0 e) f =
    let g : Flags running w = subst (λ p. Flags p w) e0 f in rw e (g.0, g.1)

pub Reach-Consistent : {w v : Worker} → Consistent w → Reach w v → Consistent v
Reach-Consistent c here = c
Reach-Consistent c (next r m) = step-Consistent m (Reach-Consistent c r)

-- `HandleNetworkConnectionAdded`, so often.
unfoldable pub connections : ℕ → Worker → Worker
connections zero w = w
connections (suc n) w = connections n (connection_added w)

connections_running : (n : ℕ) (w : Worker) → w.installing ≡ true → connections n w ≡ w
unfolding connections connection_added
connections_running zero w h = refl
connections_running (suc n) w h =
    let same : connection_added w ≡ w = ground (arith, h) in
    ap (connections n) same ∙ connections_running n w h

-- In every interleaving: network connections that come up while a run is under way are forgotten.
-- If the run fails and the service is not being destroyed, the worker waits with nothing that wakes
-- it.
pub connections-run_ends :
    {w : Worker} (n : ℕ)
    → Reach new_worker w
    → w.phase ≡ running
    → w.stopping ≡ false
    → let v = run_ends false (connections n w) in
      (v.phase ≡ waiting) × ((v.stopping || v.install_requested) ≡ false)
unfolding run_ends
connections-run_ends {w} n r e on =
    let f : Flags running w = subst (λ p. Flags p w) e (Reach-Consistent (refl, refl, refl) r) in
    rw (connections_running n w f.0) (ground (arith, on), ground (arith, on, f.2))

-- Once the destructor has set `_stopping`, no run begins.
pub stopping-runs :
    {w v : Worker} → Reach w v → w.stopping ≡ true → (v.stopping ≡ true) × (v.runs ≡ w.runs)
unfolding connection_added thread_begins wait_ends run_ends
stopping-runs here h = (h, refl)
stopping-runs (next r m) h = step_stopping m (stopping-runs r h)
  where
    step_stopping :
        {n : ℕ} {u v : Worker}
        → Move u v
        → (u.stopping ≡ true) × (u.runs ≡ n)
        → (v.stopping ≡ true) × (v.runs ≡ n)
    step_stopping (connects e) h = ground (arith, e, h)
    step_stopping (destroys e) h = ground (arith, e, h)
    step_stopping (begins changed e0 e) h = ground (arith, e, h)
    step_stopping (wakes e0 any e) h = ground (arith, e, h)
    step_stopping (ends success e0 e) h = ground (arith, e, h)
    step_stopping (throws e0 e) h = ground (arith, e, h)
