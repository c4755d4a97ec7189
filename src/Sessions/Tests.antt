-- ===== src/Sessions/Tests.antt =====
-- A run of src/services/session_manager/session_manager_service.cpp on a small machine: the
-- greeter comes up, a user logs in there, and the greeter goes.
use jappeos_core.Sessions.History.{run-opened, destroy-run}
use jappeos_core.Sessions.Descent.{stop_nested_lem}
use jappeos_core.Sessions.Greeter.{run-disconnects_greeter}
use jappeos_core.Sessions.Access.{
  is_admitted, on_stop_session-ok, on_create_session-ok, on_stop_session-empty,
}
use jappeos_core.Sessions.Lifecycle.{destroy, stop_nested, stop_session, new_session}
use jappeos_core.Sessions.Processes.{when_found}
use jappeos_core.Sessions.Leaders.{owned, reaped, opened}
use jappeos_core.Sessions.Signals.{
  creates, removes_job, starts_up, disconnects, new_manager, Call, run,
}
use jappeos_core.Sessions.Requests.{Caller, is_greeter, on_create_session, on_stop_session}
use jappeos_core.Services.Manager.{find_key}
use jappeos_core.Prelude.{
  ◌+◌, String, ◌≡◌, ◌≢◌, refl, err, true, false, ◌||◌, none, some, List, [], ◌∷◌, map, arith,
  if◌then◌else◌, ◌==◌, nat_eq, string_eq,
}
use jappeos_core.Sessions.Data.{
  World, Leader, SessionManager, M, pure, SessionInfo, access_denied, no_such_session, when, caught,
  check, lift, unwound,
}

abbrev leader_of : String → Leader
leader_of user =
    if user == "jos-greeter"
    then record { pid = 70; control_fd = 7; vt_number = 1 }
    else record { pid = 80; control_fd = 8; vt_number = 2 }

abbrev machine : World
machine = record {
  uid_of = λ user. if user == "jos-greeter" then some 900 else some 1000;
  authenticate = λ l service user password.
      if user == "jos-greeter" || password == "secret" then some (leader_of user) else none;
  session_of = λ l pid. if pid == 70 then "c1" else "c2";
  seat_of = λ l id. "seat0";
  connects = λ l uid. true;
  start_unit = λ l name. some "job";
  unit_path = λ l name. some "/unit";
  snapshot = λ l path. some record { result = ""; main_pid = 71; active_state = "activating" };
  activation = λ l id seat. true;
  has_exited = λ l pid. pid == 70;
  owner_of = λ l pid. some 900;
  parent_of = λ l pid. none;
  less = λ a b. false;
  has_accounts = false;
  users = λ l. none;
  automatic_login = λ l user. none;
  user_name = λ l user. none;
}

abbrev greeter_client : Caller
greeter_client = record { uid = 900; pid = 71 }

abbrev login : List Call
login =
    starts_up
    ∷ removes_job "c1" "job" "done"
    ∷ removes_job "c1" "job" "done"
    ∷ creates greeter_client "ann" "secret"
    ∷ []

abbrev ids : SessionManager → List String
ids s = map (λ e. e.0) s.sessions

abbrev greeter_up : SessionManager
unfolding run
greeter_up = run machine (starts_up ∷ []) (new_manager false)

abbrev greeter_session : SessionInfo
greeter_session = record (new_session "c1" "jos-greeter" 900 (leader_of "jos-greeter") "seat0") {
  privileged_client_processes = 71 ∷ [];
  active_state = "activating";
  manager = true;
  unit_path = "/unit";
  start_jobs = "job" ∷ "job" ∷ [];
}

starts_greeter : ids (run machine (starts_up ∷ []) (new_manager false)) ≡ "c1" ∷ []
unfolding run when caught check lift unwound when_found
starts_greeter = refl

logs_in : ids (run machine login (new_manager false)) ≡ "c2" ∷ []
unfolding run when caught check lift unwound when_found
logs_in = refl

run-opened_example :
    let s = run machine login (new_manager false) in
    opened 80 s.log ≡ reaped 80 s.log + owned 80 s.sessions
run-opened_example = run-opened machine login false 80 (omega arith)

destroy-run_example :
    let s = destroy machine (run machine login (new_manager false)) in
    opened 80 s.log ≡ reaped 80 s.log
destroy-run_example = destroy-run machine login false 80 (omega arith)

-- What stands for the innermost call: one that does nothing.
abbrev no_stop : String → M (Unit {0})
no_stop id = pure tt

stop_nested_example :
    let s = run machine login (new_manager false) in
    stop_nested machine 5 no_stop "c2" s ≡ stop_session machine "c2" s
stop_nested_example = stop_nested_lem machine login false 4 no_stop "c2"

on_create_session-ok_example :
    (is_admitted machine greeter_client greeter_up ≡ true)
    × ((◌≢◌ {A = String} "ann" "")
        × ((greeter_client.uid == 0 || is_greeter greeter_client.uid greeter_up) ≡ true))
unfolding run when caught check lift unwound when_found on_create_session
on_create_session-ok_example =
    on_create_session-ok machine greeter_client "ann" "secret" greeter_up
      {a = ("c2", (1000, "seat0"))}
      {s' = (on_create_session machine greeter_client "ann" "secret" greeter_up).1} refl

on_stop_session-empty_example :
    let s = run machine login (new_manager false) in
    on_stop_session machine greeter_client "" s
    ≡ (err (if is_admitted machine greeter_client s then no_such_session else access_denied), s)
on_stop_session-empty_example = on_stop_session-empty machine login false greeter_client

-- The greeter's process ends the greeter's session by its id.
on_stop_session-ok_example :
    (is_admitted machine greeter_client greeter_up ≡ true)
    × ((◌≢◌ {A = String} "c1" "")
        × ((x : SessionInfo) × (find_key "c1" greeter_up.sessions ≡ some x)
            × ((greeter_client.uid == x.uid) ≡ true)))
unfolding run when caught check lift unwound when_found on_stop_session
on_stop_session-ok_example =
    on_stop_session-ok machine (starts_up ∷ []) false greeter_client "c1"
      {s' = (on_stop_session machine greeter_client "c1" greeter_up).1} refl

run-disconnects_greeter_example :
    let s = run machine (disconnects "c1" ∷ []) greeter_up in
    (s.sessions ≡ []) × (run machine login s ≡ s)
unfolding run when caught check lift unwound when_found
run-disconnects_greeter_example =
    run-disconnects_greeter machine greeter_session login greeter_up refl refl
