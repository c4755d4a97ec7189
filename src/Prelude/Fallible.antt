-- ===== src/Prelude/Fallible.antt =====
-- Fallible code: a value or an error, with `do`.
use mathlib.Core.Path.{◌≡◌, refl, subst}
use mathlib.Core.Bool.{Bool, true, false}
use jappeos_core.Prelude.Tests.{if◌then◌else◌}
use mathlib.Core.Option.{Option, none, some}

pub data Result (E : Type 0) (A : Type 0) : Type 0 where
  ok : A → Result E A
  err : E → Result E A

infixl 5 ◌>>=◌ ◌>>◌
-- The rest of the code runs on the value, unless an exception has been thrown.
abbrev pub ◌>>=◌ : {E A B : Type 0} → Result E A → (A → Result E B) → Result E B
err thrown >>= rest = err thrown
ok result >>= rest = rest result

abbrev pub ◌>>◌ : {E B : Type 0} → Result E (Unit {0}) → Result E B → Result E B
err thrown >> rest = err thrown
ok tt >> rest = rest

-- `if (!test) throw e;`
unfoldable pub require : {E : Type 0} → Bool → E → Result E (Unit {0})
require true e = ok tt
require false e = err e

-- `if (test) throw e;`
unfoldable pub reject : {E : Type 0} → Bool → E → Result E (Unit {0})
reject true e = err e
reject false e = ok tt

unfoldable pub or_throw : {E A : Type 0} → Option A → E → Result E A
or_throw none e = err e
or_throw (some a) e = ok a

pub require-ok : {E : Type 0} (b : Bool) (e : E) → require b e ≡ ok tt → b ≡ true
unfolding require
require-ok true e h = refl
require-ok false e h = cc

pub reject-ok : {E : Type 0} (b : Bool) (e : E) → reject b e ≡ ok tt → b ≡ false
unfolding reject
reject-ok true e h = cc
reject-ok false e h = refl

pub or_throw-ok : {E A : Type 0} (o : Option A) (e : E) {a : A} → or_throw o e ≡ ok a → o ≡ some a
unfolding or_throw
or_throw-ok none e h = cc
or_throw-ok (some x) e h = cc

-- `P` holds of the value, if there is one.
pub data Ensures {E A : Type 0} (P : A → Type 0) : Result E A → Type 0 where
  value : {a : A} → P a → Ensures P (ok a)
  error : {e : E} → Ensures P (err e)

module _ {E A : Type 0} {P : A → Type 0} where
  pub require-Ensures :
      (b : Bool) (e : E) {r : Result E A} → (b ≡ true → Ensures P r) → Ensures P (require b e >> r)
  unfolding require
  require-Ensures true e h = h refl
  require-Ensures false e h = error

  pub reject-Ensures :
      (b : Bool) (e : E) {r : Result E A} → (b ≡ false → Ensures P r) → Ensures P (reject b e >> r)
  unfolding reject
  reject-Ensures true e h = error
  reject-Ensures false e h = h refl

  pub or_throw-Ensures :
      {B : Type 0} (o : Option B) (e : E) {f : B → Result E A}
      → ((b : B) → o ≡ some b → Ensures P (f b))
      → Ensures P (or_throw o e >>= f)
  unfolding or_throw
  or_throw-Ensures none e h = error
  or_throw-Ensures (some b) e h = h b refl

  Ensures-inv : {r : Result E A} {a : A} → Ensures P r → r ≡ ok a → P a
  Ensures-inv (value h) e = subst P (cc) h
  Ensures-inv error e = absurd (cc)

  pub Ensures-ok : {r : Result E A} {a : A} → Ensures P r → r ≡ ok a → P a
  Ensures-ok h e = Ensures-inv h e

  pub bind-Ensures :
      {B : Type 0} {Q : B → Type 0} {r : Result E B} {f : B → Result E A}
      → Ensures Q r
      → ((b : B) → Q b → Ensures P (f b))
      → Ensures P (r >>= f)
  bind-Ensures (value h) k = k _ h
  bind-Ensures error k = error

  pub bind-Ensures_all :
      {B : Type 0} (r : Result E B) {f : B → Result E A}
      → ((b : B) → Ensures P (f b))
      → Ensures P (r >>= f)
  bind-Ensures_all (ok b) k = k b
  bind-Ensures_all (err e) k = error

  pub Ensures-map :
      {Q : A → Type 0} {r : Result E A} → ((a : A) → Q a → P a) → Ensures Q r → Ensures P r
  Ensures-map f (value h) = value (f _ h)
  Ensures-map f error = error

pub if_Ensures :
    {E A : Type 0} {P : A → Type 0} (b : Bool) {r t : Result E A}
    → Ensures P r
    → Ensures P t
    → Ensures P (if b then r else t)
if_Ensures true h k = h
if_Ensures false h k = k

pub Ensures-self : {E A : Type 0} (r : Result E A) → Ensures (λ a. r ≡ ok a) r
Ensures-self (ok a) = value refl
Ensures-self (err e) = error

-- `Q` holds of the error, if there is one.
pub data Raises {E A : Type 0} (Q : E → Type 0) : Result E A → Type 0 where
  quiet : {a : A} → Raises Q (ok a)
  raised : {e : E} → Q e → Raises Q (err e)

module _ {E A : Type 0} {Q : E → Type 0} where
  pub require-Raises :
      (b : Bool) (e : E) {r : Result E A}
      → (b ≡ false → Q e)
      → (b ≡ true → Raises Q r)
      → Raises Q (require b e >> r)
  unfolding require
  require-Raises true e q h = h refl
  require-Raises false e q h = raised (q refl)

  pub reject-Raises :
      (b : Bool) (e : E) {r : Result E A}
      → (b ≡ true → Q e)
      → (b ≡ false → Raises Q r)
      → Raises Q (reject b e >> r)
  unfolding reject
  reject-Raises true e q h = raised (q refl)
  reject-Raises false e q h = h refl

  pub or_throw-Raises :
      {B : Type 0} (o : Option B) (e : E) {f : B → Result E A}
      → (o ≡ none → Q e)
      → ((b : B) → o ≡ some b → Raises Q (f b))
      → Raises Q (or_throw o e >>= f)
  unfolding or_throw
  or_throw-Raises none e q h = raised (q refl)
  or_throw-Raises (some b) e q h = h b refl

  pub bind-Raises :
      {B : Type 0} {r : Result E B} {f : B → Result E A}
      → Raises Q r
      → ((b : B) → r ≡ ok b → Raises Q (f b))
      → Raises Q (r >>= f)
  bind-Raises quiet k = k _ refl
  bind-Raises (raised q) k = raised q

  Raises-inv : {r : Result E A} {e : E} → Raises Q r → r ≡ err e → Q e
  Raises-inv quiet h = absurd (cc)
  Raises-inv (raised q) h = subst Q (cc) q

  pub Raises-err : {r : Result E A} {e : E} → Raises Q r → r ≡ err e → Q e
  Raises-err q h = Raises-inv q h
