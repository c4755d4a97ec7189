-- ===== src/Sessions/Balance.antt =====
-- The invariant of the session manager
-- (src/services/session_manager/session_manager_service.cpp) that accounts for the leaders, and
-- the parts of `CreateSession` and `StopSession` that open and end them.
use jappeos_core.Sessions.Leaders.{
  reaped-other, opened-other, owned-update, update-IsNamed, owned, update-Distinct, reaped,
  find_key-update_self, Keeping, is_life, opened, IsNamed,
}
use jappeos_core.Sessions.Stability.{Stable}
use jappeos_core.Prelude.{
  ℕ, ◌+◌, ◌<◌, String, ◌≡◌, sym, ap, ◌∙◌, Bool, true, false, some, List, ◌==◌, nat_eq, string_eq,
  count_if, All,
}
use mathlib.Core.Option.{some-injective}
use jappeos_core.Services.Manager.{find_key}
use jappeos_core.Services.Manager.Lifetime.{Distinct}
use jappeos_core.Sessions.Data.{SessionInfo, Effect, SessionManager, log_effect, update_session}

abbrev pub owing : ℕ → List ℕ → ℕ
owing p = count_if (λ q. q == p)

-- Every process that was opened has been reaped, leads a session, or is among the debts of the
-- calls that are under way.
pub record Inv (debts : List ℕ) (s : SessionManager) : Type 0 where
  pub distinct : Distinct s.sessions
  pub named : All IsNamed s.sessions
  pub balanced :
      (p : ℕ) → 0 < p → opened p s.log ≡ reaped p s.log + owned p s.sessions + owing p debts

-- The session under the id is there with its leader.
pub record Led (debts : List ℕ) (pid : ℕ) (id : String) (s : SessionManager) : Type 0 where
  pub inv : Inv debts s
  pub found : (x : SessionInfo) × (find_key id s.sessions ≡ some x) × (x.leader_pid ≡ pid)

-- The session under the id is being created.
pub record Fresh (debts : List ℕ) (pid : ℕ) (id : String) (b : Bool) (s : SessionManager)
    : Type 0 where
  pub led : Led debts pid id s
  pub starts : (x : SessionInfo) → find_key id s.sessions ≡ some x → x.starting ≡ true
  pub greeter : s.is_greeter_active ≡ b

module _ {debts : List ℕ} where
  pub update-Inv :
      (key : String) (f : SessionInfo → SessionInfo) (s : SessionManager)
      → Keeping f
      → Inv debts s
      → Inv debts (update_session key f s)
  update-Inv key f s k v = record {
    distinct = update-Distinct key f s.sessions v.distinct;
    named = update-IsNamed key f s.sessions k v.named;
    balanced = λ p h. rw (owned-update p key f s.sessions k) (v.balanced p h);
  }

  pub log-Inv :
      (e : Effect) (s : SessionManager)
      → is_life e ≡ false
      → Inv debts s
      → Inv debts (log_effect e s)
  log-Inv e s q v = record {
    distinct = v.distinct;
    named = v.named;
    balanced = λ p h. rw (opened-other p e s.log q, reaped-other p e s.log q) (v.balanced p h);
  }

  pub Inv-Stable : (id : String) → Stable id (Inv debts)
  Inv-Stable id = record {
    updates = λ f s g v. update-Inv id f s (λ x. ((g x).0, (g x).1)) v;
    logs = log-Inv;
  }

  pub Led-Stable : (pid : ℕ) (id : String) → Stable id (Led debts pid id)
  Led-Stable pid id = record {
    updates = λ f s g v. record {
      inv = update-Inv id f s (λ x. ((g x).0, (g x).1)) v.inv;
      found = (
        f v.found.0,
        find_key-update_self id f s.sessions v.found.1,
        (g v.found.0).1 ∙ v.found.2,
      );
    };
    logs = λ e s q v. record { inv = log-Inv e s q v.inv; found = v.found };
  }

  pub Fresh-Stable : (pid : ℕ) (id : String) (b : Bool) → Stable id (Fresh debts pid id b)
  Fresh-Stable pid id b = record {
    updates = λ f s g v. record {
      led = (Led-Stable pid id).updates f s g v.led;
      starts = λ x e.
          let (y, there, _) = v.led.found in
          let same : f y ≡ x =
            some-injective (f y) x (sym (find_key-update_self id f s.sessions there) ∙ e) in
          ap (λ z. z.starting) (sym same) ∙ (g y).2 ∙ v.starts y there;
      greeter = v.greeter;
    };
    logs = λ e s q v. record {
      led = (Led-Stable pid id).logs e s q v.led;
      starts = v.starts;
      greeter = v.greeter;
    };
  }
