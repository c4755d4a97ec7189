-- ===== src/Sessions/Access.antt =====
-- Who may call the methods of the service
-- (src/services/session_manager/session_manager_service.cpp), and for which sessions.
use jappeos_core.Sessions.History.{reached-Inv}
use jappeos_core.Sessions.Leaders.{find_empty}
use jappeos_core.Sessions.Signals.{Call, run, new_manager}
use jappeos_core.Sessions.Lifecycle.{
  create_session, stop_with, stop_nested, stop_session, in_order, place,
}
use jappeos_core.Services.Manager.{find_key, Table}
use jappeos_core.Sessions.Requests.{
  is_privileged_client_process, is_managed_user_session, is_greeter, Caller, stop_target, find_uid,
  on_stop_session, on_create_session, shared_policy,
}
use jappeos_core.Prelude.{
  Option, subst, ℕ, String, ◌≡◌, refl, sym, ap, ◌∙◌, ◌≢◌, inl, inr, Bool, true, false, ◌&&◌, ◌||◌,
  not, none, some, List, [], ◌∷◌, arith, if◌then◌else◌, Bool-cases, ◌==◌, nat_eq, string_eq, eq_iff,
  any, ok, err,
}
use jappeos_core.Sessions.Data.{
  SessionError, missing_username, continue, M, no_such_session, lift, access_denied, SessionInfo,
  check, World, SessionManager,
}

-- The caller's user has a session, and the caller or its parent is the main process of one.
abbrev pub is_admitted : World → Caller → SessionManager → Bool
is_admitted w c s = is_managed_user_session c.uid s && is_privileged_client_process w c.pid true s

shared_policy-check :
    (w : World) (c : Caller) (s : SessionManager)
    → shared_policy w c s ≡ check (is_admitted w c s) access_denied s
unfolding shared_policy check
shared_policy-check w c s = elim (Bool-cases (is_managed_user_session c.uid s)) [
  | inl e ↦ rw e refl
  | inr e ↦ rw e refl
]

err-ne-ok : {A : Type 0} {a : A} {e : SessionError} → err e ≢ ok a
err-ne-ok h = cc

-- What a check that was passed says.
passed :
    {A : Type 0} {s : SessionManager} {a : A} {s' : SessionManager} (b : Bool) (e : SessionError)
    (m : M A)
    → continue (check b e s) (λ u. m) ≡ (ok a, s')
    → (b ≡ true) × (m s ≡ (ok a, s'))
unfolding check
passed true e m h = (refl, h)
passed false e m h = absurd (err-ne-ok (ap (λ o. o.0) h))

-- A call of `CreateSession` that succeeds was made for some user, by a caller that the shared
-- policy admits and that is root or the user of the greeter's session.
pub on_create_session-ok :
    (w : World) (c : Caller) (username password : String) (s : SessionManager)
    {a : String × (ℕ × String)} {s' : SessionManager}
    → on_create_session w c username password s ≡ (ok a, s')
    → (is_admitted w c s ≡ true) × ((username ≢ "") × ((c.uid == 0 || is_greeter c.uid s) ≡ true))
unfolding on_create_session
on_create_session-ok w c username password s h =
    let allowed : SessionManager → Bool = λ s. c.uid == 0 || is_greeter c.uid s in
    let create = create_session w (stop_session w) username password false none in
    let by_some : M (String × (ℕ × String)) =
      λ s. continue (check (allowed s) access_denied s) (λ a. create) in
    let for_some : M (String × (ℕ × String)) =
      λ s. continue (check (not (username == "")) missing_username s) (λ a. by_some) in
    let (admitted, h1) =
      passed (is_admitted w c s) access_denied for_some
        (ap (λ o. continue o (λ a. for_some)) (sym (shared_policy-check w c s)) ∙ h) in
    let (named, h2) = passed (not (username == "")) missing_username by_some h1 in
    (
      admitted,
      (ground (arith, named, eq_iff username ""), (passed (allowed s) access_denied create h2).0),
    )

-- A user with a session is found.
find_uid-managed :
    (uid : ℕ) (t : Table SessionInfo)
    → any (λ e. e.1.uid == uid) t ≡ true
    → (x : SessionInfo) × (find_uid uid t ≡ some x) × ((uid == x.uid) ≡ true)
unfolding find_uid
find_uid-managed uid [] h = cc
find_uid-managed uid ((k, x) ∷ t) h = elim (Bool-cases (x.uid == uid)) [
  | inl e ↦ (x, rw e refl, ground (arith, e))
  | inr e ↦
      let (y, there, same) = find_uid-managed uid t (ground (arith, h, e)) in (y, rw e there, same)
]

module _ (w : World) (p : String × SessionInfo → Bool) where
  any-place :
      (e : String × SessionInfo) (t : Table SessionInfo) → any p (place w e t) ≡ any p (e ∷ t)
  unfolding place
  any-place e [] = refl
  any-place (k, x) ((j, y) ∷ t) = elim (Bool-cases (w.less j k)) [
    | inl h ↦ rw h (ground (arith, any-place (k, x) t))
    | inr h ↦ rw h refl
  ]

  any-in_order : (t : Table SessionInfo) → any p (in_order w t) ≡ any p t
  unfolding in_order
  any-in_order [] = refl
  any-in_order (e ∷ t) =
      any-place e (in_order w t) ∙ ap (λ b. if p e then true else b) (any-in_order t)

-- In every state that the service reaches, `StopSession` without an id ends no session: it fails
-- with `no_such_session` for a caller that the shared policy admits, and changes nothing.
pub on_stop_session-empty :
    (w : World) (cs : List Call) (live : Bool) (c : Caller)
    → let s = run w cs (new_manager live) in
      on_stop_session w c "" s
      ≡ (err (if is_admitted w c s then no_such_session else access_denied), s)
unfolding on_stop_session stop_target stop_session stop_nested stop_with check lift
on_stop_session-empty w cs live c =
    let s = run w cs (new_manager live) in
    let missing : find_key "" s.sessions ≡ none =
      find_empty s.sessions (reached-Inv w cs live).named in
    elim (Bool-cases (is_admitted w c s)) [
      | inl e ↦
          let (x, there, same) =
            find_uid-managed c.uid (in_order w s.sessions)
              (any-in_order w (λ e. e.1.uid == c.uid) s.sessions ∙ ground (arith, e)) in
          rw (shared_policy-check w c s, e, there, same, missing) refl
      | inr e ↦ rw (shared_policy-check w c s, e) refl
    ]

-- What `StopSession` has asked of the target that was found.
found_target :
    (w : World) (c : Caller) (id : String) (s : SessionManager) (o : Option SessionInfo)
    (e : SessionError) {s' : SessionManager}
    → continue
        (lift o e s)
        (λ x s1. continue (check (c.uid == x.uid) access_denied s1) (λ u. stop_session w id))
      ≡ (ok tt, s')
    → (x : SessionInfo) × (o ≡ some x)
      × ((c.uid == x.uid) ≡ true)
      × (stop_session w id s ≡ (ok tt, s'))
unfolding lift
found_target w c id s none e h = absurd (err-ne-ok (ap (λ o. o.0) h))
found_target w c id s (some x) e h =
    let (same, stopped) = passed (c.uid == x.uid) access_denied (stop_session w id) h in
    (x, refl, same, stopped)

-- In every state that the service reaches, a call of `StopSession` that succeeds was made by a
-- caller that the shared policy admits, with the id of a session of the table, which is not empty,
-- and that session is of the caller's own user: not even root ends the session of another user.
pub on_stop_session-ok :
    (w : World) (cs : List Call) (live : Bool) (c : Caller) (id : String) {s' : SessionManager}
    → let s = run w cs (new_manager live) in
      on_stop_session w c id s ≡ (ok tt, s')
      → (is_admitted w c s ≡ true)
        × ((id ≢ "")
            × ((x : SessionInfo) × (find_key id s.sessions ≡ some x) × ((c.uid == x.uid) ≡ true)))
unfolding on_stop_session stop_target
on_stop_session-ok w cs live c id {s'} h =
    let s = run w cs (new_manager live) in
    let owned : SessionInfo → M (Unit {0}) =
      λ x s1. continue (check (c.uid == x.uid) access_denied s1) (λ u. stop_session w id) in
    let asked : M (Unit {0}) = λ s1. continue (stop_target w c id s1 s1) owned in
    let (admitted, h1) =
      passed (is_admitted w c s) access_denied asked
        (ap (λ o. continue o (λ u. asked)) (sym (shared_policy-check w c s)) ∙ h) in
    elim (Bool-cases (id == "")) [
      | inl e ↦ absurd (
          let empty : on_stop_session w c "" s ≡ (ok tt, s') =
            subst (λ q. on_stop_session w c q s ≡ (ok tt, s')) ((eq_iff id "").0 e) h in
          err-ne-ok (ap (λ o. o.0) (sym (on_stop_session-empty w cs live c) ∙ empty)))
      | inr e ↦
          let target : stop_target w c id s s ≡ lift (find_key id s.sessions) no_such_session s =
            rw e refl in
          let (x, there, same, stopped) =
            found_target w c id s (find_key id s.sessions) no_such_session
              (ap (λ o. continue o owned) (sym target) ∙ h1) in
          (admitted, (ground (arith, e, eq_iff id ""), (x, there, same)))
    ]
