-- ===== src/Sessions/Triple.antt =====
-- Reasoning about a function of the session manager
-- (src/services/session_manager/session_manager_service.cpp): what holds of the state that it
-- leaves when it returns, and when it throws.
use jappeos_core.Sessions.Processes.{when_found}
use jappeos_core.Prelude.{
  ◌≡◌, refl, Bool, true, false, Option, none, some, nat_eq, string_eq, ok, err,
}
use jappeos_core.Sessions.Data.{
  caught, unwound, lift, check, when, continue, Outcome, M, SessionInfo, SessionError,
  SessionManager,
}

pub data Post {A : Type 0} (Q : A → SessionManager → Type 0) (E : SessionManager → Type 0)
    : Outcome A → Type 0 where
  returned : {a : A} {s : SessionManager} → Q a s → Post Q E (ok a, s)
  threw : {e : SessionError} {s : SessionManager} → E s → Post Q E (err e, s)

-- Both are the same property of the state.
abbrev pub Stays : {A : Type 0} → (SessionManager → Type 0) → Outcome A → Type 0
Stays P = Post (λ a. P) P

module _ {A : Type 0} {Q : A → SessionManager → Type 0} {E : SessionManager → Type 0} where
  pub bind-Post :
      {B : Type 0} {Q' : B → SessionManager → Type 0} {o : Outcome B} {f : B → M A}
      → Post Q' E o
      → ((b : B) (s : SessionManager) → Q' b s → Post Q E (f b s))
      → Post Q E (continue o f)
  bind-Post (returned q) k = k _ _ q
  bind-Post (threw e) k = threw e

  pub lift-Post :
      {B : Type 0} (o : Option B) (e : SessionError) (f : B → M A) {s : SessionManager}
      → E s
      → ((b : B) → o ≡ some b → Post Q E (f b s))
      → Post Q E (continue (lift o e s) f)
  unfolding lift
  lift-Post none e f h k = threw h
  lift-Post (some b) e f h k = k b refl

  pub check-Post :
      (b : Bool) (e : SessionError) (m : M A) {s : SessionManager}
      → E s
      → (b ≡ true → Post Q E (m s))
      → Post Q E (continue (check b e s) (λ _. m))
  unfolding check
  check-Post true e m h k = k refl
  check-Post false e m h k = threw h

  pub guarded-Post :
      {E' : SessionManager → Type 0} {o : Outcome A} (cleanup : SessionManager → SessionManager)
      → Post Q E' o
      → ((s : SessionManager) → E' s → E (cleanup s))
      → Post Q E (unwound o cleanup)
  unfolding unwound
  guarded-Post c (returned q) k = returned q
  guarded-Post c (threw e) k = threw (k _ e)

  pub attempt-Post :
      {E' : SessionManager → Type 0} {o : Outcome A} (f : SessionError → M A)
      → Post Q E' o
      → ((e : SessionError) (s : SessionManager) → E' s → Post Q E (f e s))
      → Post Q E (caught o f)
  unfolding caught
  attempt-Post f (returned q) k = returned q
  attempt-Post f (threw e) k = k _ _ e

  Post-state :
      {P : SessionManager → Type 0} {o : Outcome A}
      → ((a : A) (s : SessionManager) → Q a s → P s)
      → ((s : SessionManager) → E s → P s)
      → Post Q E o
      → P o.1
  Post-state f g (returned q) = f _ _ q
  Post-state f g (threw e) = g _ e

  pub weaken-Post :
      {Q' : A → SessionManager → Type 0} {E' : SessionManager → Type 0} {o : Outcome A}
      → ((a : A) (s : SessionManager) → Q' a s → Q a s)
      → ((s : SessionManager) → E' s → E s)
      → Post Q' E' o
      → Post Q E o
  weaken-Post f g (returned q) = returned (f _ _ q)
  weaken-Post f g (threw e) = threw (g _ e)

pub when-Post :
    {Q E : SessionManager → Type 0} (b : Bool) (m : M (Unit {0})) {s : SessionManager}
    → Q s
    → (b ≡ true → Post (λ _. Q) E (m s))
    → Post (λ _. Q) E (when b m s)
unfolding when
when-Post true m h k = k refl
when-Post false m h k = returned h

pub found-Post :
    {Q E : SessionManager → Type 0} (o : Option SessionInfo) (f : SessionInfo → M (Unit {0}))
    {s : SessionManager}
    → Q s
    → ((x : SessionInfo) → o ≡ some x → Post (λ _. Q) E (f x s))
    → Post (λ _. Q) E (when_found o f s)
unfolding when_found
found-Post none f h k = returned h
found-Post (some x) f h k = k x refl

pub Stays-state : {A : Type 0} {P : SessionManager → Type 0} {o : Outcome A} → Stays P o → P o.1
Stays-state h = Post-state (λ a s q. q) (λ s e. e) h

-- Two ways on from the same point that agree wherever it may end.
pub continue-eq :
    {A B : Type 0} {Q : A → SessionManager → Type 0} {E : SessionManager → Type 0} {o : Outcome A}
    {f g : A → M B}
    → Post Q E o
    → ((a : A) (s : SessionManager) → Q a s → f a s ≡ g a s)
    → continue o f ≡ continue o g
continue-eq (returned q) k = k _ _ q
continue-eq (threw e) k = refl

pub check-Stays :
    {P : SessionManager → Type 0} (b : Bool) (e : SessionError) (s : SessionManager)
    → P s
    → Stays P (check b e s)
unfolding check
check-Stays true e s p = returned p
check-Stays false e s p = threw p

pub lift-Stays :
    {A : Type 0} {P : SessionManager → Type 0} (o : Option A) (e : SessionError)
    (s : SessionManager)
    → P s
    → Stays P (lift o e s)
unfolding lift
lift-Stays none e s p = threw p
lift-Stays (some a) e s p = returned p
