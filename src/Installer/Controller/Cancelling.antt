-- ===== src/Installer/Controller/Cancelling.antt =====
-- What a cancel request does, and what it does not.
use jappeos_core.Prelude.{
  subst, ℕ, zero, suc, ◌+◌, ◌≡◌, refl, sym, Bool, true, false, arith, nat_eq, string_eq,
}
use jappeos_core.Installer.Plan.{succeeded, running, is_running}
use jappeos_core.Installer.Controller.{
  Steps, Main, Worker, Controller, Move, starts, stores_running, reports_running, spawns, joins,
  cancels, flags, begins, reads, announces, returns, throws, finishes, stores, tells, old_tells,
  ready, cancelling, absent, spawned, at_step, announcing, executing, storing, reporting,
  start_loads, start_spawns, cancel_loads, cancel_stores, run_begins, loop_head, announce,
  step_throws, loop_ends, store_state,
}

abbrev pub is_start : {steps : Steps} {c d : Controller} → Move steps c d → Bool
is_start (starts m e) = true
is_start _ = false

-- Moves of one installation: nobody calls `StartInstall` meanwhile.
pub data Continues (steps : Steps) (c : Controller) : Controller → Type 0 where
  here : Continues steps c c
  next :
      {d e : Controller}
      → Continues steps c d
      → (m : Move steps d e) → is_start m ≡ false
      → Continues steps c e

-- The main thread is not in `StartInstall`.
abbrev pub IsIdle : Main → Type 0
IsIdle ready = Unit
IsIdle cancelling = Unit
IsIdle _ = ⊥

-- The worker has gone no further than the end of step `i` with the flag set; or it ends, or has
-- ended, with success only if that step was the last.
abbrev pub Halting : Steps → ℕ → Controller → Worker → Type 0
Halting steps i c (executing j) = (j ≡ i) × (c.cancel_requested ≡ true)
Halting steps i c (at_step j) = (j ≡ i + 1) × (c.cancel_requested ≡ true)
Halting steps i c (storing s message) =
    (is_running s ≡ false) × (s ≡ succeeded → i + 1 ≡ steps.size)
Halting steps i c (reporting s message) =
    (is_running c.state ≡ false) × (c.state ≡ succeeded → i + 1 ≡ steps.size)
Halting steps i c absent = (is_running c.state ≡ false) × (c.state ≡ succeeded → i + 1 ≡ steps.size)
Halting steps i c spawned = ⊥
Halting steps i c (announcing j) = ⊥

abbrev pub Stopping : Steps → ℕ → Controller → Type 0
Stopping steps i c = IsIdle c.main × Halting steps i c c.worker

Move-Stopping :
    (steps : Steps) (i : ℕ) {c c' : Controller} (m : Move steps c c')
    → is_start m ≡ false
    → Stopping steps i c
    → Stopping steps i c'
unfolding start_loads start_spawns cancel_loads cancel_stores run_begins loop_head announce
    step_throws loop_ends
Move-Stopping steps i (starts m e) n s = absurd (cc)
Move-Stopping steps i (stores_running m e) n s = subst (Stopping steps i) (sym e) (ground arith)
Move-Stopping steps i (reports_running m e) n s = subst (Stopping steps i) (sym e) (ground arith)
Move-Stopping steps i (spawns m e) n s = subst (Stopping steps i) (sym e) (ground arith)
Move-Stopping steps i (joins m o e) n s = subst (Stopping steps i) (sym e) (ground arith)
Move-Stopping steps i (cancels m e) n s = subst (Stopping steps i) (sym e) (ground arith)
Move-Stopping steps i (flags m e) n s = subst (Stopping steps i) (sym e) (ground arith)
Move-Stopping steps i (begins w e) n s = subst (Stopping steps i) (sym e) (ground arith)
Move-Stopping steps i (reads j w h e) n s = subst (Stopping steps i) (sym e) (ground arith)
Move-Stopping steps i (announces j w e) n s = subst (Stopping steps i) (sym e) (ground arith)
Move-Stopping steps i (returns j w e) n s = subst (Stopping steps i) (sym e) (ground arith)
Move-Stopping steps i (throws j what w e) n s = subst (Stopping steps i) (sym e) (ground arith)
Move-Stopping steps i (finishes w e) n s = subst (Stopping steps i) (sym e) (ground arith)
Move-Stopping steps i (stores t message w e) n s = subst (Stopping steps i) (sym e) (ground arith)
Move-Stopping steps i (tells t message w e) n s = subst (Stopping steps i) (sym e) (ground arith)
Move-Stopping steps i (old_tells t message w e) n s =
    subst (Stopping steps i) (sym e) (ground arith)

Continues-Stopping :
    (steps : Steps) (i : ℕ) {c c' : Controller}
    → Stopping steps i c
    → Continues steps c c'
    → Stopping steps i c'
Continues-Stopping steps i s here = s
Continues-Stopping steps i s (next r m n) =
    Move-Stopping steps i m n (Continues-Stopping steps i s r)

-- A cancel request that stores its flag while step `i` executes lets no further step begin, however
-- the threads interleave until the next call of `StartInstall`: the worker finishes that step or
-- ends, and it ends with success only if that step was the last one.
pub cancel_install-Stopping :
    (steps : Steps) (i : ℕ) (c c' : Controller)
    → c.main ≡ cancelling
    → c.worker ≡ executing i
    → Continues steps (cancel_stores c) c'
    → Stopping steps i c'
unfolding cancel_stores
cancel_install-Stopping steps i c c' m w r =
    Continues-Stopping steps i (tt, subst (Halting steps i (cancel_stores c)) (sym w) (refl, refl))
      r

-- The moves of a run in which no step throws and nobody cancels.
runs_on :
    (steps : Steps) (k i : ℕ) (c d : Controller)
    → i + k ≡ steps.size
    → d.cancel_requested ≡ false
    → d.worker ≡ at_step i
    → Continues steps c d
    → (e : Controller) × Continues steps c e × (e.state ≡ succeeded)
unfolding loop_head announce loop_ends
runs_on steps zero i c d h f w r =
    let done = loop_ends d in
    let stored : Controller = record (store_state succeeded done) {
      worker = reporting succeeded "";
    } in
    (
      stored,
      next (next r (finishes (ground (arith, w)) refl) refl) (stores succeeded "" refl refl) refl,
      refl,
    )
runs_on steps (suc k) i c d h f w r =
    let read = loop_head i d in
    let entered = announce steps i read in
    let returned : Controller = record entered { worker = at_step (i + 1) } in
    let unset : read.worker ≡ announcing i = rw f refl in
    runs_on steps k (i + 1) c returned (omega arith) f refl (
      next (next (next r (reads i w (omega arith) refl) refl) (announces i unset refl) refl)
        (returns i refl refl) refl)

-- A cancel request that arrives after `StartInstall` has returned, but before the new thread has
-- entered `RunInstall`, is lost: the installation can still run through all its steps and succeed.
pub cancel_install_lost :
    (steps : Steps) (c : Controller)
    → c.state ≡ running
    → c.worker ≡ spawned
    → (c' : Controller) × Continues steps (cancel_stores (cancel_loads c)) c'
      × (c'.state ≡ succeeded)
unfolding cancel_loads cancel_stores run_begins
cancel_install_lost steps c r w =
    runs_on steps steps.size 0 (cancel_stores (cancel_loads c))
      (run_begins (cancel_stores (cancel_loads c))) (omega arith) refl refl
      (next here (begins (ground arith) refl) refl)
