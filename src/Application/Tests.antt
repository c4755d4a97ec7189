-- ===== src/Application/Tests.antt =====
-- Runs of the daemon and of its loop over messages (src/application.cpp).
use jappeos_core.Prelude.{
  ℕ, suc, ◌≡◌, refl, false, none, some, List, [], ◌∷◌, ◌++◌, append-nil, codes, ok,
}
use jappeos_core.Services.Manager.{new_manager}
use jappeos_core.Bus.Objects.{Message, answer}
use jappeos_core.Application.Lifecycle.{
  initializes, throws_early, Round, uses_deleted, terminates, standard, returns, exits, run,
  run-by_first_end, ending, first_end,
}
use jappeos_core.Application.Messages.{Daemon, Inbox, Turn, Updated, update}
use jappeos_core.Application.Messages.Order.{Reads, update-handles}

abbrev quiet : Round
quiet = record { throws = none; quits = none; signal = 0 }

abbrev terminated : Round
terminated = record { throws = none; quits = some 0; signal = 15 }

abbrev quit_signal : Round
quit_signal = record { throws = none; quits = some 0; signal = 3 }

run-by_first_end_example :
    run initializes (quiet ∷ terminated ∷ []) false
    ≡ ending false (first_end (quiet ∷ terminated ∷ []))
run-by_first_end_example = run-by_first_end (quiet ∷ terminated ∷ []) false

returns_after_sigterm : run initializes (quiet ∷ terminated ∷ []) false ≡ returns 0
unfolding run
returns_after_sigterm = refl

-- After SIGQUIT, the exception is not caught.
sigquit_terminates : run initializes (quit_signal ∷ []) false ≡ terminates
unfolding run
sigquit_terminates = refl

abbrev failing : Round
failing = record { throws = some standard; quits = none; signal = 0 }

-- `FailFastFatalError` calls the service manager that `CleanUp` deleted.
exception_uses_deleted : run initializes (quiet ∷ failing ∷ []) false ≡ uses_deleted
unfolding run
exception_uses_deleted = refl

fails_without_pipe : run throws_early [] false ≡ exits 1
unfolding run
fails_without_pipe = refl

abbrev hello : Message
hello = record {
  serial = 1;
  is_signal = false;
  path = some (codes "/com");
  interface = some (codes "com.jappeos");
  member = codes "Hello";
  sender = codes ":1.5";
  args = [];
}

-- A daemon whose state is the number of the calls of its only method
abbrev counter : Daemon ℕ
counter = record {
  manager = new_manager;
  signals_of = λ s. record { handlers = λ k. none; rules = [] };
  objects_of = λ s.
      (
        codes "/com",
        record {
          path = codes "/com";
          interfaces =
              (
                codes "com.jappeos",
                record {
                  name = codes "com.jappeos";
                  methods =
                      (
                        codes "Hello",
                        λ m n. record {
                          state = suc n;
                          sent = answer m.serial [] ∷ [];
                          result = ok tt;
                        },
                      )
                      ∷ [];
                  properties = [];
                },
              )
              ∷ [];
        },
      )
      ∷ [];
  callback = λ h m s. record { state = s; sent = []; result = ok tt };
  legacy = λ service m s. record { state = s; sent = []; result = ok false };
}

abbrev reads_all : List Message → List Message × List Message
reads_all ms = (ms, [])

reads_all-Reads : Reads counter reads_all
reads_all-Reads = record { in_order = λ ms. append-nil ms; progress = λ ms h. h }

abbrev readable : Turn ℕ
readable = record { glib = λ s. (s, []); poll_fails = false; signal_byte = false; read_ahead = 0 }

abbrev two_calls : Inbox
two_calls = record { queue = hello ∷ []; socket = hello ∷ [] }

update-handles_example :
    let out = update counter reads_all readable two_calls 0 in
    (out.handled ≡ hello ∷ hello ∷ [])
    × (out.state ≡ 2)
    × (out.handled ++ (out.inbox.queue ++ out.inbox.socket) ≡ hello ∷ hello ∷ [])
unfolding update jappeos_core.Application.Messages.serve_all
    jappeos_core.Bus.Dispatch.handle_message
update-handles_example = update-handles counter reads_all reads_all-Reads readable two_calls 0

-- A message that libdbus has read stays unserved while nothing is on the socket.
read_message_waits :
    (update counter reads_all readable (record { queue = hello ∷ []; socket = [] }) 0).handled ≡ []
unfolding update
read_message_waits = refl

-- A method call for an object that there is not is not replied to.
unknown_object_no_reply :
    let lost : Message = record hello { path = some (codes "/org") } in
    (update counter reads_all readable (record { queue = []; socket = lost ∷ [] }) 0).sent ≡ []
unfolding update jappeos_core.Bus.Dispatch.handle_message
unknown_object_no_reply = refl
