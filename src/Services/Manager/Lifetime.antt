-- ===== src/Services/Manager/Lifetime.antt =====
-- The order in which the destructor of src/services/service.cpp takes the services down.
use jappeos_core.Services.Manager.{
  run_hooks, has_logger, entries, runs, logs_failure, deletes, inits, register_made, registered,
  runs_before, subscribes_signal, dismiss, registers, Action, new_manager, Service, call, init_dbus,
  run_before, Call, erase_key, Runnable, find_key, subscribe_service, destroy, call_all, register,
  tear_down, Table, Manager,
}
use jappeos_core.Prelude.{
  filter, append_assoc, ◌&&◌, Bool, ◌⊎◌, sym, subst, reverse, reverse-append, String, ◌≡◌, refl, ap,
  ◌∙◌, inl, inr, true, Option, none, some, List, [], ◌∷◌, ◌++◌, map, arith, Bool-cases,
  Option-cases, ◌==◌, nat_eq, string_eq, eq_iff,
}

-- The keys of a table differ from each other.
abbrev pub Distinct : {A : Type 0} → Table A → Type 0
Distinct [] = Unit
Distinct ((k, a) ∷ t) = (find_key k t ≡ none) × Distinct t

abbrev key_of : {A : Type 0} → String × A → String
key_of e = e.0

same_key : (k : String) → (k == k) ≡ true
same_key k = (eq_iff k k).1 refl

module _ {A : Type 0} where
  pub find_key_head : (k : String) (a : A) (t : Table A) → find_key k ((k, a) ∷ t) ≡ some a
  unfolding find_key
  find_key_head k a t = ground (arith, same_key k)

  erase_key_head : (k : String) (a : A) (t : Table A) → erase_key k ((k, a) ∷ t) ≡ erase_key k t
  unfolding erase_key
  erase_key_head k a t = ground (arith, same_key k)

  pub erase_key_absent : (k : String) (t : Table A) → find_key k t ≡ none → erase_key k t ≡ t
  unfolding find_key erase_key
  erase_key_absent k [] h = refl
  erase_key_absent k ((q, a) ∷ t) h = elim (Bool-cases (q == k)) [
    | inl e ↦ absurd (ground (arith, h, e))
    | inr e ↦ rw e (ap (λ r. (q, a) ∷ r) (erase_key_absent k t (ground (arith, h, e))))
  ]

-- The runs and the deletions among what the destructor does.
unfoldable pub quiet : List Action → List Action
quiet [] = []
quiet (runs f ∷ acts) = runs f ∷ quiet acts
quiet (logs_failure i ∷ acts) = quiet acts
quiet (deletes s ∷ acts) = deletes s ∷ quiet acts

-- The interfaces of the failures that are logged.
unfoldable pub logged : List Action → List String
logged [] = []
logged (runs f ∷ acts) = logged acts
logged (logs_failure i ∷ acts) = i ∷ logged acts
logged (deletes s ∷ acts) = logged acts

quiet-append : (acts bs : List Action) → quiet (acts ++ bs) ≡ quiet acts ++ quiet bs
unfolding quiet
quiet-append [] bs = refl
quiet-append (runs f ∷ acts) bs = ap (λ r. runs f ∷ r) (quiet-append acts bs)
quiet-append (logs_failure i ∷ acts) bs = quiet-append acts bs
quiet-append (deletes s ∷ acts) bs = ap (λ r. deletes s ∷ r) (quiet-append acts bs)

logged-append : (acts bs : List Action) → logged (acts ++ bs) ≡ logged acts ++ logged bs
unfolding logged
logged-append [] bs = refl
logged-append (runs f ∷ acts) bs = logged-append acts bs
logged-append (logs_failure i ∷ acts) bs = ap (λ r. i ∷ r) (logged-append acts bs)
logged-append (deletes s ∷ acts) bs = logged-append acts bs

-- All runnables that were left for a service.
abbrev pub hooks_of : Table (List Runnable) → Service → List Runnable
hooks_of hooks s = entries (find_key s.base_interface hooks)

-- The services of the table from its head, each after all runnables that were left for it.
unfoldable pub departures : Table (List Runnable) → Table Service → List Action
departures hooks [] = []
departures hooks ((k, s) ∷ t) = map runs (hooks_of hooks s) ++ deletes s ∷ departures hooks t

-- One failure for each runnable that throws while a logger is among the services that are left.
unfoldable pub failures : (String → Bool) → Table (List Runnable) → Table Service → List String
failures logs hooks [] = []
failures logs hooks ((k, s) ∷ t) =
    map (λ f. s.base_interface)
      (filter (λ f. f.throws && has_logger logs ((k, s) ∷ t)) (hooks_of hooks s))
    ++ failures logs hooks t

quiet-run_hooks :
    (logger : Bool) (i : String) (fs : List Runnable) → quiet (run_hooks logger i fs) ≡ map runs fs
unfolding quiet run_hooks
quiet-run_hooks logger i [] = refl
quiet-run_hooks logger i (f ∷ fs) = elim (Bool-cases (f.throws && logger)) [
  | inl e ↦ rw e (ap (λ r. runs f ∷ r) (quiet-run_hooks logger i fs))
  | inr e ↦ rw e (ap (λ r. runs f ∷ r) (quiet-run_hooks logger i fs))
]

logged-run_hooks :
    (logger : Bool) (i : String) (fs : List Runnable)
    → logged (run_hooks logger i fs) ≡ map (λ f. i) (filter (λ f. f.throws && logger) fs)
unfolding logged run_hooks
logged-run_hooks logger i [] = refl
logged-run_hooks logger i (f ∷ fs) = elim (Bool-cases (f.throws && logger)) [
  | inl e ↦ rw e (ap (λ r. i ∷ r) (logged-run_hooks logger i fs))
  | inr e ↦ rw e (logged-run_hooks logger i fs)
]

quiet-dismiss :
    (logger : Bool) (hooks : Table (List Runnable)) (s : Service) (acts : List Action)
    → quiet (dismiss logger hooks s ++ acts) ≡ map runs (hooks_of hooks s) ++ deletes s ∷ quiet acts
unfolding quiet
quiet-dismiss logger hooks s acts =
    let ran = run_hooks logger s.base_interface (hooks_of hooks s) in
    ap quiet (append_assoc ran (deletes s ∷ []) acts)
    ∙ quiet-append ran (deletes s ∷ acts)
    ∙ ap (λ r. r ++ deletes s ∷ quiet acts) (quiet-run_hooks logger s.base_interface _)

logged-dismiss :
    (logger : Bool) (hooks : Table (List Runnable)) (s : Service) (acts : List Action)
    → logged (dismiss logger hooks s ++ acts)
      ≡ map (λ f. s.base_interface) (filter (λ f. f.throws && logger) (hooks_of hooks s))
        ++ logged acts
unfolding logged
logged-dismiss logger hooks s acts =
    let ran = run_hooks logger s.base_interface (hooks_of hooks s) in
    ap logged (append_assoc ran (deletes s ∷ []) acts)
    ∙ logged-append ran (deletes s ∷ acts)
    ∙ ap (λ r. r ++ logged acts) (logged-run_hooks logger s.base_interface _)

module _ (logs : String → Bool) (hooks : Table (List Runnable)) where
  tear_down_head :
      (k : String) (s : Service) (t : Table Service)
      → Distinct ((k, s) ∷ t)
      → tear_down logs hooks (map key_of ((k, s) ∷ t)) ((k, s) ∷ t)
        ≡ dismiss (has_logger logs ((k, s) ∷ t)) hooks s ++ tear_down logs hooks (map key_of t) t
  unfolding tear_down
  tear_down_head k s t d =
      rw (find_key_head k s t, erase_key_head k s t, erase_key_absent k t d.0) refl

  tear_down-departures :
      (t : Table Service)
      → Distinct t
      → quiet (tear_down logs hooks (map key_of t) t) ≡ departures hooks t
  unfolding departures tear_down quiet
  tear_down-departures [] d = refl
  tear_down-departures ((k, s) ∷ t) d =
      ap quiet (tear_down_head k s t d)
      ∙ quiet-dismiss (has_logger logs ((k, s) ∷ t)) hooks s _
      ∙ ap (λ r. map runs (hooks_of hooks s) ++ deletes s ∷ r) (tear_down-departures t d.1)

  tear_down-failures :
      (t : Table Service)
      → Distinct t
      → logged (tear_down logs hooks (map key_of t) t) ≡ failures logs hooks t
  unfolding failures tear_down logged
  tear_down-failures [] d = refl
  tear_down-failures ((k, s) ∷ t) d =
      let there = has_logger logs ((k, s) ∷ t) in
      ap logged (tear_down_head k s t d)
      ∙ logged-dismiss there hooks s _
      ∙ ap
          (λ r.
            map (λ f. s.base_interface) (filter (λ f. f.throws && there) (hooks_of hooks s)) ++ r)
          (tear_down-failures t d.1)

-- The vector of types is that of the table, and no type is there twice.
pub record Ordered (m : Manager) : Type 0 where
  pub distinct : Distinct m.services
  pub in_order : reverse m.order ≡ map key_of m.services

registered-Ordered :
    (s : Service) (m : Manager)
    → find_key s.type_name m.services ≡ none
    → Ordered m
    → Ordered (registered s m)
registered-Ordered s m h v = record {
  distinct = rw h (h, v.distinct);
  in_order =
      reverse-append m.order (s.type_name ∷ [])
      ∙ ap (λ ks. s.type_name ∷ ks) v.in_order
      ∙ rw h refl;
}

made-Ordered :
    (type_name : String) (made : Option String) (m : Manager)
    → find_key type_name m.services ≡ none
    → Ordered m
    → Ordered (register_made type_name made m).0
made-Ordered type_name none m h v = v
made-Ordered type_name (some interface) m h v = registered-Ordered _ m h v

register-Ordered :
    (type_name : String) (made : Option String) (m : Manager)
    → Ordered m
    → Ordered (register type_name made m).0
unfolding register
register-Ordered type_name made m v = elim (Option-cases (find_key type_name m.services)) [
  | inl h ↦ rw h (made-Ordered type_name made m h v)
  | inr (found, h) ↦ rw h v
]

call-Ordered : (c : Call) (m : Manager) → Ordered m → Ordered (call c m)
unfolding subscribe_service run_before init_dbus
call-Ordered (registers t made) m v = register-Ordered t made m v
call-Ordered (subscribes_signal signal s) m v = record {
  distinct = v.distinct;
  in_order = v.in_order;
}
call-Ordered (runs_before s f) m v = record { distinct = v.distinct; in_order = v.in_order }
call-Ordered inits m v = record { distinct = v.distinct; in_order = v.in_order }

call_all-Ordered : (cs : List Call) (m : Manager) → Ordered m → Ordered (call_all cs m)
unfolding call_all
call_all-Ordered [] m v = v
call_all-Ordered (c ∷ cs) m v = call_all-Ordered cs (call c m) (call-Ordered c m v)

-- After any calls of a new manager, no type is registered twice, and the destructor deletes every
-- registered service exactly once, the last one registered first, each after all runnables that
-- were left for it, whichever of them throw. A runnable that throws is logged if and only if a
-- logger is among the services that are left, its own service included.
pub destroy_all :
    (logs : String → Bool) (cs : List Call)
    → let m = call_all cs new_manager in
      Ordered m
      × ((quiet (destroy logs m) ≡ departures m.run_before_cleanup m.services)
          × (logged (destroy logs m) ≡ failures logs m.run_before_cleanup m.services))
unfolding destroy
destroy_all logs cs =
    let m = call_all cs new_manager in
    let v = call_all-Ordered cs new_manager (record { distinct = tt; in_order = refl }) in
    let same = ap (λ ks. tear_down logs m.run_before_cleanup ks m.services) v.in_order in
    (
      v,
      (
        ap quiet same ∙ tear_down-departures logs m.run_before_cleanup m.services v.distinct,
        ap logged same ∙ tear_down-failures logs m.run_before_cleanup m.services v.distinct,
      ),
    )

find_key_below :
    (k t : String) (s s' : Service) (ss : Table Service)
    → find_key t ss ≡ none
    → find_key k ss ≡ some s
    → find_key k ((t, s') ∷ ss) ≡ some s
unfolding find_key
find_key_below k t s s' ss new e = elim (Bool-cases (t == k)) [
  | inl same ↦ absurd (
      let at : find_key k ss ≡ none = subst (λ q. find_key q ss ≡ none) ((eq_iff t k).0 same) new in
      cc)
  | inr other ↦ rw other e
]

registered-keeps :
    (t : String) (made : Option String) (m : Manager) (k : String) (s : Service)
    → find_key t m.services ≡ none
    → find_key k m.services ≡ some s
    → find_key k (register_made t made m).0.services ≡ some s
registered-keeps t none m k s new e = e
registered-keeps t (some i) m k s new e = rw new (find_key_below k t s _ m.services new e)

register-cases :
    (t : String) (made : Option String) (m : Manager)
    → (register t made m ≡ (m, none))
      ⊎ ((find_key t m.services ≡ none) × (register t made m ≡ register_made t made m))
unfolding register
register-cases t made m = elim (Option-cases (find_key t m.services)) [
  | inl new ↦ inr (new, rw new refl)
  | inr (old, found) ↦ inl (rw found refl)
]

call-keeps :
    (c : Call) (m : Manager) (k : String) (s : Service)
    → find_key k m.services ≡ some s
    → find_key k (call c m).services ≡ some s
unfolding subscribe_service run_before init_dbus
call-keeps (registers t made) m k s e =
    let found : Manager × Option Service → Type 0 = λ r. find_key k r.0.services ≡ some s in
    elim (register-cases t made m) [
      | inl same ↦ subst found (sym same) e
      | inr (new, r) ↦ subst found (sym r) (registered-keeps t made m k s new e)
    ]
call-keeps (subscribes_signal signal s') m k s e = e
call-keeps (runs_before s' f) m k s e = e
call-keeps inits m k s e = e

call_all-keeps :
    (cs : List Call) (m : Manager) (k : String) (s : Service)
    → find_key k m.services ≡ some s
    → find_key k (call_all cs m).services ≡ some s
unfolding call_all
call_all-keeps [] m k s e = e
call_all-keeps (c ∷ cs) m k s e = call_all-keeps cs (call c m) k s (call-keeps c m k s e)

found_made :
    (t : String) (made : Option String) (m : Manager) (s : Service)
    → find_key t m.services ≡ none
    → (register_made t made m).1 ≡ some s
    → find_key t (register_made t made m).0.services ≡ some s
found_made t none m s new e = cc
found_made t (some i) m s new e = rw new (find_key_head t _ m.services ∙ e)

found_registered :
    (t : String) (made : Option String) (m : Manager) (s : Service)
    → (register t made m).1 ≡ some s
    → find_key t (register t made m).0.services ≡ some s
found_registered t made m s e = elim (register-cases t made m) [
  | inl same ↦ absurd (let no : none ≡ some s = sym (ap (λ r. r.1) same) ∙ e in cc)
  | inr (new, r) ↦ rw r (found_made t made m s new (sym (ap (λ q. q.1) r) ∙ e))
]

-- The service that `register` returns is the one found under its type after any further calls,
-- other registrations under that type among them.
register_stays :
    (t : String) (made : Option String) (m : Manager) (s : Service) (cs : List Call)
    → (register t made m).1 ≡ some s
    → find_key t (call_all cs (register t made m).0).services ≡ some s
register_stays t made m s cs e = call_all-keeps cs _ t s (found_registered t made m s e)
