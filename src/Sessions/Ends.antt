-- ===== src/Sessions/Ends.antt =====
-- The steps of src/services/session_manager/session_manager_service.cpp that pass a leader on: to
-- a session that is registered, back to the call that opened it, and to its end.
use jappeos_core.Sessions.Payment.{
  cleanup_pam-sessions, terminate_pam-Owes, cleanup_pam-Owes, Owes, one, erase-terminate_pam,
}
use mathlib.Core.Option.{some-injective}
use jappeos_core.Services.Manager.Lifetime.{find_key_head, Distinct, erase_key_absent}
use jappeos_core.Sessions.Stability.{terminate_processes-Stable}
use jappeos_core.Sessions.Leaders.{
  owned-erase, leads, owned, IsNamed, erase-IsNamed, erase-Distinct,
}
use jappeos_core.Sessions.Processes.{terminate_pam, cleanup_pam}
use jappeos_core.Sessions.Lifecycle.{take_down, insert_session, unregister}
use jappeos_core.Sessions.Balance.{owing, Led-Stable, Fresh, Led, Inv}
use jappeos_core.Services.Manager.{erase_key, find_key}
use jappeos_core.Prelude.{
  subst, ℕ, ◌+◌, String, ◌≡◌, refl, sym, ap, ◌∙◌, ◌≢◌, true, none, some, List, ◌∷◌, arith, nat_eq,
  string_eq, All,
}
use jappeos_core.Sessions.Data.{
  opens, Leader, erase_session, World, SessionInfo, SessionManager, log_effect,
}

module _ {debts : List ℕ} where
  pub owe-Inv :
      (pid : ℕ) (s : SessionManager) → Inv debts s → Inv (pid ∷ debts) (log_effect (opens pid) s)
  owe-Inv pid s v = record {
    distinct = v.distinct;
    named = v.named;
    balanced = λ p h. omega (arith, v.balanced p h);
  }

  -- A session that goes leaves its leader to its caller.
  pub erase-Inv :
      (pid : ℕ) (id : String) (s : SessionManager)
      → Led debts pid id s
      → Inv (pid ∷ debts) (erase_session id s)
  erase-Inv pid id s v =
      let (x, there, leader) = v.found in
      record {
        distinct = erase-Distinct id s.sessions v.inv.distinct;
        named = erase-IsNamed id s.sessions v.inv.named;
        balanced = λ p h.
            let gone : owned p s.sessions ≡ one pid p + owned p (erase_key id s.sessions) =
              subst (λ q. owned p s.sessions ≡ one q p + owned p (erase_key id s.sessions)) leader
                (owned-erase p id x s.sessions v.inv.distinct there) in
            omega (arith, v.inv.balanced p h, gone);
      }

  pub insert-Led :
      (x : SessionInfo) (s : SessionManager)
      → find_key x.id s.sessions ≡ none
      → x.id ≢ ""
      → Inv (x.leader_pid ∷ debts) s
      → Led debts x.leader_pid x.id (insert_session x s)
  unfolding find_key
  insert-Led x s absent named v =
      let same : erase_key x.id s.sessions ≡ s.sessions = erase_key_absent x.id s.sessions absent in
      record {
        inv = record {
          distinct = rw same (absent, v.distinct);
          named = rw same ((refl, named), v.named);
          balanced = λ p h. rw same (omega (arith, v.balanced p h));
        };
        found = (x, find_key_head x.id x (erase_key x.id s.sessions), refl);
      }

  pub insert-Fresh :
      (x : SessionInfo) (s : SessionManager)
      → find_key x.id s.sessions ≡ none
      → x.id ≢ ""
      → x.starting ≡ true
      → Inv (x.leader_pid ∷ debts) s
      → Fresh debts x.leader_pid x.id s.is_greeter_active (insert_session x s)
  insert-Fresh x s absent named starts v = record {
    led = insert-Led x s absent named v;
    starts = λ y e.
        let same : x ≡ y =
          some-injective x y (sym (find_key_head x.id x (erase_key x.id s.sessions)) ∙ e) in
        subst (λ z. z.starting ≡ true) same starts;
    greeter = refl;
  }

module _ (w : World) {debts : List ℕ} where
  pub cleanup_pam-Inv :
      (l : Leader) (s : SessionManager) → Inv (l.pid ∷ debts) s → Inv debts (cleanup_pam w l s)
  cleanup_pam-Inv l s v = rebalance (cleanup_pam-sessions w l s)
    where
      rebalance : (cleanup_pam w l s).sessions ≡ s.sessions → Inv debts (cleanup_pam w l s)
      rebalance same = record {
        distinct = subst Distinct (sym same) v.distinct;
        named = subst (All IsNamed) (sym same) v.named;
        balanced = λ p h.
            let before : Owes p (one l.pid p + (owned p s.sessions + owing p debts)) s =
              omega (arith, v.balanced p h) in
            let after = cleanup_pam-Owes w p (owned p s.sessions + owing p debts) h l s before in
            omega (arith, after, ap (owned p) same);
      }

  pub unregister-Inv :
      (pid : ℕ) (id : String) (s : SessionManager)
      → Led debts pid id s
      → Inv (pid ∷ debts) (unregister w id s)
  unfolding unregister
  unregister-Inv pid id s v =
      erase-Inv pid id _ (terminate_processes-Stable w id (Led-Stable pid id) s v)

  -- The end of the leader and of the entry of a session that is there.
  terminate-Inv :
      (id : String) (x : SessionInfo) (s : SessionManager)
      → Led debts x.leader_pid id s
      → Inv debts (erase_session id (terminate_pam w id x s))
  terminate-Inv id x s v = record {
    distinct = subst Distinct (sym same) before.distinct;
    named = subst (All IsNamed) (sym same) before.named;
    balanced = λ p h.
        let n = owned p (erase_key id s.sessions) + owing p debts in
        let owes : Owes p (leads x p + n) s = omega (arith, before.balanced p h) in
        let after = terminate_pam-Owes w p n h id x s owes in
        omega (arith, after, ap (owned p) same);
  }
    where
      same : erase_key id (terminate_pam w id x s).sessions ≡ erase_key id s.sessions
      same = erase-terminate_pam w id x s

      before : Inv (x.leader_pid ∷ debts) (erase_session id s)
      before = erase-Inv x.leader_pid id s v

  pub take_down-Inv :
      (id : String) (x : SessionInfo) (s : SessionManager)
      → find_key id s.sessions ≡ some x
      → Inv debts s
      → Inv debts (take_down w id x s)
  unfolding take_down
  take_down-Inv id x s there v =
      let led : Led debts x.leader_pid id s = record { inv = v; found = (x, there, refl) } in
      let stable = Led-Stable x.leader_pid id in
      terminate-Inv id x _ (
        terminate_processes-Stable w id stable _ (stable.updates _ s (λ y. (refl, refl, refl)) led))
