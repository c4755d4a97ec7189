-- ===== src/Services/Manager.antt =====
-- `ServiceManager` (src/services/service.h and src/services/service.cpp): registration, lookup,
-- and the destructor. A type is its name. The `std::map`s and `std::unordered_map`s are the lists
-- of their entries with one entry for each key, the newest first.
pub mod Lifetime
use jappeos_core.Prelude.{
  any, ◌&&◌, reverse, ℕ, ◌+◌, String, Bool, true, false, Option, none, some, List, [], ◌∷◌, ◌++◌,
  if◌then◌else◌, ◌==◌, nat_eq, string_eq, ok,
}

-- A service, by the type it is registered under and its base interface.
pub record Service : Type 0 where
  pub type_name : String
  pub base_interface : String

-- A `std::function<void()>`, by a number and whether it throws a `std::exception`.
pub record Runnable : Type 0 where
  pub id : ℕ
  pub throws : Bool

abbrev pub Table : Type 0 → Type 0
Table A = List (String × A)

module _ {A : Type 0} where
  unfoldable pub find_key : String → Table A → Option A
  find_key key [] = none
  find_key key ((k, a) ∷ t) = if k == key then some a else find_key key t

  unfoldable pub erase_key : String → Table A → Table A
  erase_key key [] = []
  erase_key key ((k, a) ∷ t) = if k == key then erase_key key t else (k, a) ∷ erase_key key t

abbrev pub is_some : {A : Type 0} → Option A → Bool
is_some none = false
is_some (some a) = true

-- `emplace`: an entry that is there stays.
abbrev pub emplace : {A : Type 0} → String → A → Table A → Table A
emplace key a t = if is_some (find_key key t) then t else (key, a) ∷ t

abbrev pub entries : {A : Type 0} → Option (List A) → List A
entries none = []
entries (some as_list) = as_list

-- `table[key].push_back(a)`
abbrev pub push_at : {A : Type 0} → String → A → Table (List A) → Table (List A)
push_at key a t = (key, entries (find_key key t) ++ a ∷ []) ∷ erase_key key t

-- `initialized` is the history of the calls of `Service::InitDBus`, the newest first.
pub record Manager : Type 0 where
  pub services : Table Service
  pub order : List String
  pub interface_services : Table Service
  pub signal_subscribers : Table (List Service)
  pub run_before_cleanup : Table (List Runnable)
  pub dbus_initialized : Bool
  pub initialized : List Service

abbrev pub new_manager : Manager
new_manager = record {
  services = [];
  order = [];
  interface_services = [];
  signal_subscribers = [];
  run_before_cleanup = [];
  dbus_initialized = false;
  initialized = [];
}

unfoldable pub init_all : Table Service → List Service → List Service
init_all [] done = done
init_all ((k, s) ∷ t) done = init_all t (s ∷ done)

-- `InitDBus`
unfoldable pub init_dbus : Manager → Manager
unfolding init_all
init_dbus m = record m { dbus_initialized = true; initialized = init_all m.services m.initialized }

abbrev pub registered : Service → Manager → Manager
registered s m = record m {
  order = m.order ++ s.type_name ∷ [];
  services = emplace s.type_name s m.services;
  interface_services = emplace s.base_interface s m.interface_services;
  initialized = if m.dbus_initialized then s ∷ m.initialized else m.initialized;
}

abbrev pub register_made : String → Option String → Manager → Manager × Option Service
register_made type_name none m = (m, none)
register_made type_name (some interface) m =
    let s : Service = record { type_name = type_name; base_interface = interface } in
    (registered s m, some s)

-- `Register<T>`: the constructor of the service makes an object with an interface, or throws.
unfoldable pub register : String → Option String → Manager → Manager × Option Service
unfolding find_key
register type_name made m =
    if is_some (find_key type_name m.services) then (m, none) else register_made type_name made m

-- `SubscribeServiceToSignalLegacy`
unfoldable pub subscribe_service : String → Service → Manager → Manager
unfolding find_key erase_key
subscribe_service signal s m = record m {
  signal_subscribers = push_at signal s m.signal_subscribers;
}

-- `RunBeforeCleanup`
unfoldable pub run_before : Service → Runnable → Manager → Manager
unfolding find_key erase_key
run_before s f m = record m { run_before_cleanup = push_at s.base_interface f m.run_before_cleanup }

-- What the destructor does that can be observed. A runnable that throws is logged, where a logger
-- is there.
pub data Action : Type 0 where
  runs : Runnable → Action
  logs_failure : String → Action
  deletes : Service → Action

-- `Get<LoggerService>()` is not null: some type in the table is a logger.
abbrev pub has_logger : (String → Bool) → Table Service → Bool
has_logger logs services = any (λ e. logs e.0) services

unfoldable pub run_hooks : Bool → String → List Runnable → List Action
run_hooks logger interface [] = []
run_hooks logger interface (f ∷ fs) =
    let rest = run_hooks logger interface fs in
    runs f ∷ (if f.throws && logger then logs_failure interface ∷ rest else rest)

abbrev pub dismiss : Bool → Table (List Runnable) → Service → List Action
dismiss logger hooks s =
    run_hooks logger s.base_interface (entries (find_key s.base_interface hooks)) ++ deletes s ∷ []

abbrev pub dismiss_found : Bool → Table (List Runnable) → Option Service → List Action
dismiss_found logger hooks none = []
dismiss_found logger hooks (some s) = dismiss logger hooks s

-- `for (auto it = _order.rbegin(); ...)`: to erase the entry of a type that has none does nothing.
-- A service is in the table while its runnables run.
unfoldable pub tear_down :
    (String → Bool) → Table (List Runnable) → List String → Table Service → List Action
tear_down logs hooks [] services = []
tear_down logs hooks (key ∷ keys) services =
    dismiss_found (has_logger logs services) hooks (find_key key services)
    ++ tear_down logs hooks keys (erase_key key services)

-- `~ServiceManager`, where `logs` says which types derive from `LoggerService`
unfoldable pub destroy : (String → Bool) → Manager → List Action
unfolding tear_down
destroy logs m = tear_down logs m.run_before_cleanup (reverse m.order) m.services

-- A call of the manager's interface.
pub data Call : Type 0 where
  registers : String → Option String → Call
  subscribes_signal : String → Service → Call
  runs_before : Service → Runnable → Call
  inits : Call

abbrev pub call : Call → Manager → Manager
call (registers t made) m = (register t made m).0
call (subscribes_signal signal s) m = subscribe_service signal s m
call (runs_before s f) m = run_before s f m
call inits m = init_dbus m

unfoldable pub call_all : List Call → Manager → Manager
call_all [] m = m
call_all (c ∷ cs) m = call_all cs (call c m)
