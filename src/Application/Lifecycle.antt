-- ===== src/Application/Lifecycle.antt =====
-- `Application::Run`, `CleanUp` and `FailFastFatalError` (src/application.h and
-- src/application.cpp): how the daemon starts, runs and ends. What `Initialize`, `Update` and
-- `CleanUp` meet is an input.
use jappeos_core.Prelude.{
  ℕ, zero, suc, ◌≡◌, refl, sym, ap, Bool, true, false, ◌||◌, not, Option, none, some, List, [], ◌∷◌,
  if◌then◌else◌, any, nat_eq, ◌==◌, arith,
}

-- `ApplicationState`
pub data State : Type 0 where
  initializing : State
  running : State
  stopping : State
  stopped : State

-- What a pointer is to.
pub data Memory : Type 0 where
  null : Memory
  live : Memory
  deleted : Memory

pub record App : Type 0 where
  pub should_run : Bool
  pub exit_code : ℕ
  pub state : State
  pub service_manager : Memory

abbrev pub new_app : App
new_app = record { should_run = true; exit_code = 0; state = initializing; service_manager = null }

-- What `Initialize` does: it may throw before or after it made the service manager.
pub data Initialization : Type 0 where
  initializes : Initialization
  throws_early : Initialization
  throws_late : Initialization

-- An exception: one that `catch (const std::exception&)` takes, or another. `JosException` is of the
-- others, since its base `std::runtime_error` is private (src/utils/jos_exception.h).
pub data Thrown : Type 0 where
  standard : Thrown
  other : Thrown

-- An iteration of the loop: the exception if `Update` throws one, the exit code if it calls `Quit`,
-- and `s_signalCaught` after it, which is 0 if there was no signal.
pub record Round : Type 0 where
  pub throws : Option Thrown
  pub quits : Option ℕ
  pub signal : ℕ

-- `waits` if the rounds are over before the program is; `exits` in `FailFastFatalError`, and
-- `uses_deleted` if that calls a service manager that is deleted; `terminates` where an exception
-- leaves `Run`, which calls `std::terminate`.
pub data Ending : Type 0 where
  waits : Ending
  returns : ℕ → Ending
  exits : ℕ → Ending
  uses_deleted : Ending
  terminates : Ending

-- The signals that are an exception: SIGHUP, SIGQUIT, SIGILL, SIGABRT, SIGBUS, SIGFPE, SIGUSR1,
-- SIGSEGV, SIGUSR2, SIGPIPE, SIGXCPU, SIGXFSZ and SIGSYS.
abbrev pub is_fatal : ℕ → Bool
is_fatal n = any (λ k. k == n) (1 ∷ 3 ∷ 4 ∷ 6 ∷ 7 ∷ 8 ∷ 10 ∷ 11 ∷ 12 ∷ 13 ∷ 24 ∷ 25 ∷ 31 ∷ [])

-- `Quit`
abbrev pub quit : ℕ → App → App
quit code a = record a { should_run = false; exit_code = code }

abbrev pub quit_if : Option ℕ → App → App
quit_if none a = a
quit_if (some code) a = quit code a

-- How the loop is left.
pub data Left : Type 0 where
  is_running : Left
  by_exception : Thrown → App → Left
  by_quit : App → Left

unfoldable pub run_loop : List Round → App → Left
run_loop [] a = is_running
run_loop (r ∷ rs) a =
    let updated = quit_if r.quits a in
    let signalled = if r.signal == 0 then updated else quit 0 updated in
    let rest = run_loop rs signalled in
    elim r.throws [
      | some t ↦ by_exception t a
      | none ↦
          if is_fatal r.signal
          then by_exception other updated
          else if signalled.should_run
          then rest
          else by_quit signalled
    ]

-- `CleanUp`: an exception is a standard one of `RunBeforeCleanup`.
unfoldable pub clean_up : Bool → App → Bool × App
clean_up throws a = if throws then (false, a) else (true, record a { service_manager = deleted })

-- `FailFastFatalError`
unfoldable pub fail_fast : App → Ending
fail_fast a = elim a.service_manager [ null ↦ exits 1 | live ↦ exits 1 | deleted ↦ uses_deleted ]

-- `catch (const std::exception& e)` of `Run`
unfoldable pub caught : Bool → App → Ending
unfolding clean_up fail_fast
caught cleanup_throws a =
    let cleaned = (clean_up cleanup_throws (record a { state = stopping })).1 in
    elim a.state [
      | running ↦ fail_fast (record cleaned { state = stopped; exit_code = 1 })
      | initializing ↦ fail_fast (record a { state = stopped; exit_code = 1 })
      | stopping ↦ fail_fast (record a { state = stopped; exit_code = 1 })
      | stopped ↦ fail_fast (record a { state = stopped; exit_code = 1 })
    ]

-- The end of `Run` after an exception
abbrev pub thrown : Bool → Thrown → App → Ending
thrown cleanup_throws standard a = caught cleanup_throws a
thrown cleanup_throws other a = terminates

abbrev pub initialized : App
initialized = record new_app { state = running; service_manager = live }

-- `Run`
unfoldable pub run : Initialization → List Round → Bool → Ending
unfolding run_loop clean_up caught
run throws_early rounds cleanup_throws = caught cleanup_throws new_app
run throws_late rounds cleanup_throws =
    caught cleanup_throws (record new_app { service_manager = live })
run initializes rounds cleanup_throws = elim (run_loop rounds initialized) [
  | is_running ↦ waits
  | by_exception t a ↦ thrown cleanup_throws t a
  | by_quit a ↦
      let (done, cleaned) = clean_up cleanup_throws (record a { state = stopping }) in
      if done then returns a.exit_code else caught cleanup_throws (record a { state = stopping })
]

abbrev pub is_thrown : Option Thrown → Bool
is_thrown none = false
is_thrown (some t) = true

-- The first round that ends the loop, and how it ends.
abbrev pub ends_loop : Round → Bool
ends_loop r =
    is_thrown r.throws || (not (r.signal == 0) || (elim r.quits [ none ↦ false | some c ↦ true ]))

unfoldable pub first_end : List Round → Option Round
first_end [] = none
first_end (r ∷ rs) = let rest = first_end rs in if ends_loop r then some r else rest

abbrev pub exception_of : Round → Option Thrown
exception_of r = elim r.throws [
  | some t ↦ some t
  | none ↦ if is_fatal r.signal then some other else none
]

abbrev pub code_of : Round → ℕ
code_of r = if r.signal == 0 then elim r.quits [ none ↦ 0 | some c ↦ c ] else 0

-- What `Run` comes to, by the first round that ends the loop.
abbrev pub ending : Bool → Option Round → Ending
ending cleanup_throws none = waits
ending cleanup_throws (some r) = elim (exception_of r) [
  | some other ↦ terminates
  | some standard ↦ if cleanup_throws then exits 1 else uses_deleted
  | none ↦ if cleanup_throws then exits 1 else returns (code_of r)
]

-- The end of `Run` after the loop
abbrev after_loop : Bool → Left → Ending
after_loop cleanup_throws is_running = waits
after_loop cleanup_throws (by_exception t a) = thrown cleanup_throws t a
after_loop cleanup_throws (by_quit a) =
    let (done, cleaned) = clean_up cleanup_throws (record a { state = stopping }) in
    if done then returns a.exit_code else caught cleanup_throws (record a { state = stopping })

run_loop_round :
    (b : Bool) (t : Option Thrown) (q : Option ℕ) (n : ℕ) (rs : List Round)
    → after_loop b (run_loop rs initialized) ≡ ending b (first_end rs)
    → let r : Round = record { throws = t; quits = q; signal = n } in
      after_loop b (run_loop (r ∷ rs) initialized) ≡ ending b (first_end (r ∷ rs))
unfolding run_loop first_end caught clean_up fail_fast
run_loop_round true (some standard) q n rs ih = refl
run_loop_round false (some standard) q n rs ih = refl
run_loop_round b (some other) q n rs ih = refl
run_loop_round b none none zero rs ih = ih
run_loop_round true none (some c) zero rs ih = refl
run_loop_round false none (some c) zero rs ih = refl
run_loop_round b none q (suc n) rs ih =
    let e : (suc n == 0) ≡ false = ground arith in
    let r : Round = record { throws = none; quits = q; signal = suc n } in
    let zero_code : code_of r ≡ 0 = rw e refl in
    rw (run_loop, first_end, e) (signalled b q (is_fatal (suc n)) (code_of r) zero_code)
  where
    signalled :
        (b : Bool) (q : Option ℕ) (fatal : Bool) (code : ℕ)
        → code ≡ 0
        → after_loop b (
            if fatal
            then by_exception other (quit_if q initialized)
            else by_quit (quit 0 (quit_if q initialized)))
          ≡ elim (if fatal then some other else none) as (λ x. Ending) [
            | some other ↦ terminates
            | some standard ↦ if b then exits 1 else uses_deleted
            | none ↦ if b then exits 1 else returns code
          ]
    signalled b q true code z = refl
    signalled true none false code z = refl
    signalled true (some c) false code z = refl
    signalled false none false code z = ap returns (sym z)
    signalled false (some c) false code z = ap returns (sym z)

-- An initialized daemon ends with the first round that throws, has a signal or quits. A standard
-- exception makes it call a deleted service manager, or exit with failure if `CleanUp` throws.
-- After an exception of another type, or a signal of the list, it calls `std::terminate` without
-- `CleanUp`. Otherwise it returns the exit code, 0 after a signal, or exits with failure if
-- `CleanUp` throws.
pub run-by_first_end :
    (rounds : List Round) (cleanup_throws : Bool)
    → run initializes rounds cleanup_throws ≡ ending cleanup_throws (first_end rounds)
unfolding run run_loop first_end
run-by_first_end [] cleanup_throws = refl
run-by_first_end (r ∷ rs) cleanup_throws =
    run_loop_round cleanup_throws r.throws r.quits r.signal rs (run-by_first_end rs cleanup_throws)
