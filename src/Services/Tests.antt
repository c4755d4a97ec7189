-- ===== src/Services/Tests.antt =====
-- A history of an event (src/event.h) and of the service manager (src/services/service.h).
use jappeos_core.Services.Manager.Lifetime.{
  destroy_all, departures, failures, logged, quiet, Ordered,
}
use jappeos_core.Services.Event.{
  subscribe-unsubscribe, called, unsubscribes, find_id, subscribes, unsubscribe, new_event, use_all,
  Use, subscribe,
}
use jappeos_core.Services.Manager.{
  logs_failure, runs, deletes, run_hooks, tear_down, erase_key, runs_before, init_all, registers,
  init_dbus, inits, run_before, new_manager, destroy, register, find_key, Call, call_all, Service,
}
use jappeos_core.Prelude.{
  ◌==◌, false, Bool, String, ◌≡◌, refl, true, none, some, List, [], ◌∷◌, arith, nat_eq, string_eq,
}

-- Two handlers; the first is taken out again.
abbrev history : List (Use String)
history = subscribes "begin" ∷ subscribes "end" ∷ unsubscribes 0 ∷ []

subscribe-unsubscribe_example :
    let e = use_all history new_event in
    let r = subscribe "again" e in
    (find_id r.1 e.handlers ≡ none)
    × (called r.0 ≡ "again" ∷ called e)
    × ((unsubscribe r.1 r.0).handlers ≡ e.handlers)
subscribe-unsubscribe_example = subscribe-unsubscribe history "again" (omega arith)

third_id : (subscribe "again" (use_all history new_event)).1 ≡ 2
unfolding subscribe use_all unsubscribe
third_id = refl

abbrev logger : Service
logger = record { type_name = "StdoutLogger"; base_interface = "org.jappeos.Core.Logger" }

-- The logger, the watchdog, a service whose constructor throws, and the watchdog again.
abbrev start_up : List Call
start_up =
    inits
    ∷ registers "StdoutLogger" (some "org.jappeos.Core.Logger")
    ∷ registers "Watchdog" (some "org.jappeos.Core.Watchdog")
    ∷ registers "Installer" none
    ∷ registers "Watchdog" (some "org.jappeos.Core.Other")
    ∷ runs_before logger (record { id = 1; throws = true })
    ∷ runs_before logger (record { id = 2; throws = false })
    ∷ []

abbrev loggers : String → Bool
loggers type_name = type_name == "StdoutLogger"

destroy_all_example :
    let m = call_all start_up new_manager in
    Ordered m
    × ((quiet (destroy loggers m) ≡ departures m.run_before_cleanup m.services)
        × (logged (destroy loggers m) ≡ failures loggers m.run_before_cleanup m.services))
destroy_all_example = destroy_all loggers start_up

start_up_ends :
    destroy loggers (call_all start_up new_manager)
    ≡ deletes (record { type_name = "Watchdog"; base_interface = "org.jappeos.Core.Watchdog" })
      ∷ runs (record { id = 1; throws = true })
      ∷ logs_failure "org.jappeos.Core.Logger"
      ∷ runs (record { id = 2; throws = false })
      ∷ deletes logger
      ∷ []
unfolding destroy call_all register run_before init_dbus init_all find_key erase_key tear_down
    run_hooks
start_up_ends = refl

first_registered :
    (register "StdoutLogger" (some "org.jappeos.Core.Logger") new_manager).1 ≡ some logger
unfolding register find_key
first_registered = refl
