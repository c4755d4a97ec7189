-- ===== src/Network/Answers.antt =====
-- How often the number of a request is held after an answer of libnm, and after requests have
-- failed with a device or with NetworkManager
-- (src/services/network_manager/network_manager_service.cpp).
use jappeos_core.Prelude.{
  ℕ, ◌+◌, ◌≡◌, refl, ap, inl, inr, false, Option, none, some, List, [], ◌∷◌, Bool-cases,
  Option-cases, nat_eq, ◌==◌, list_empty, Bytes, codes, arith,
}
use jappeos_core.Network.Maps.{assign}
use jappeos_core.Network.Data.{NmActive, PendingRequest, Context, NetworkManager}
use jappeos_core.Network.Pending.{
  start_failed, Answer, rejected, accepted, track_pending_wifi_connect_request, on_answer,
  take_context, put_back, on_answered, fail_pending_wifi_connect_requests_for_device,
  fail_all_pending_wifi_connect_requests,
}
use jappeos_core.Network.Results.{
  in_flight, one, emit_result-Spends, tell_all-Spends, fail_loop-Spends,
}
use jappeos_core.Network.Numbers.{
  Holds, Holds-trans, Holds-none, Spends-Holds, waiting-assign, resolve-Holds,
}

module _ (id : ℕ) where
  -- A call that is answered is not in flight any more; its number is told or waits.
  track-Holds :
      (ac : NmActive) (c : Context) (s : NetworkManager)
      → Holds id (one id c.request_id) s (track_pending_wifi_connect_request ac c s)
  unfolding track_pending_wifi_connect_request
  track-Holds ac c s = elim (Option-cases ac.path) [
    | inl e ↦ rw (track_pending_wifi_connect_request, e) missing
    | inr (path, e) ↦ elim (Bool-cases (list_empty path)) [
      | inl f ↦ rw (track_pending_wifi_connect_request, e, f) missing
      | inr f ↦
          let r : PendingRequest = record {
            request_id = c.request_id;
            device_path = c.device_path;
            ssid = c.ssid;
          } in
          let entered : NetworkManager = record s { pending = assign path r s.pending } in
          let entering : Holds id (one id c.request_id) s entered = record {
            held = omega (arith, waiting-assign id path r s.pending);
            same_next = refl;
          } in
          let both =
            Holds-trans id {s = s} {t = entered} (one id c.request_id) 0 entering
              (resolve-Holds id ac entered) in
          rw (track_pending_wifi_connect_request, e, f) (less both)
    ]
  ]
    where
      missing :
          Holds id
            (one id c.request_id)
            s
            (start_failed (codes "Active connection path is missing") c s)
      missing = Spends-Holds id (one id c.request_id) (
          emit_result-Spends id c.device_path c.request_id false (codes "activationStartFailed")
            (codes "Active connection path is missing") s)

      less :
          {t : NetworkManager}
          → Holds id (one id c.request_id + 0) s t
          → Holds id (one id c.request_id) s t
      less p = record { held = omega (arith, p.held); same_next = p.same_next }

  answer-Holds :
      (c : Context) (a : Answer) (s : NetworkManager)
      → Holds id (one id c.request_id) s (on_answer c a s)
  unfolding on_answer
  answer-Holds c (rejected none) s =
      Spends-Holds id (one id c.request_id)
        (emit_result-Spends id c.device_path c.request_id false (codes "activationStartFailed") _ s)
  answer-Holds c (rejected (some message)) s = Spends-Holds id (one id c.request_id) (
      emit_result-Spends id c.device_path c.request_id false (codes "activationStartFailed") message
        s)
  answer-Holds c (accepted ac) s = track-Holds ac c s

  in_flight-taken :
      (n : ℕ) (cs : List Context) (c : Context) (ds : List Context)
      → take_context n cs ≡ some (c, ds)
      → in_flight id ds + one id c.request_id ≡ in_flight id cs
  unfolding take_context
  in_flight-taken n [] c ds h = cc
  in_flight-taken n (b ∷ cs) c ds h = elim (Bool-cases (b.request_id == n)) [
    | inl e ↦
        let same : Path (Option (Context × List Context)) (some (b, cs)) (some (c, ds)) =
          rw e at h in
        let this = found same in
        omega (arith, ap (λ x. one id x.request_id) this.0, ap (in_flight id) this.1)
    | inr e ↦ later (take_context n cs) (λ d es g. in_flight-taken n cs d es g) (rw e at h)
  ]
    where
      found :
          {x y : Context} {xs ys : List Context}
          → Path (Option (Context × List Context)) (some (x, xs)) (some (y, ys))
          → (x ≡ y) × (xs ≡ ys)
      found h = (cc, cc)

      later :
          (o : Option (Context × List Context))
          → ((d : Context) (es : List Context)
              → o ≡ some (d, es)
              → in_flight id es + one id d.request_id ≡ in_flight id cs)
          → Path (Option (Context × List Context)) (put_back b o) (some (c, ds))
          → in_flight id ds + one id c.request_id ≡ in_flight id (b ∷ cs)
      later none ih g = cc
      later (some (d, es)) ih g =
          let this = found g in
          omega
            (arith, ap (λ x. one id x.request_id) this.0, ap (in_flight id) this.1, ih d es refl)

  pub answered-Holds : (n : ℕ) (a : Answer) (s : NetworkManager) → Holds id 0 s (on_answered n a s)
  unfolding on_answered
  answered-Holds n a s = elim (Option-cases (take_context n s.started)) [
    | inl e ↦ rw (on_answered, e) (Holds-none id s)
    | inr ((c, cs), e) ↦
        let p = answer-Holds c a (record s { started = cs }) in
        rw (on_answered, e)
          (record {
            held = omega (arith, p.held, in_flight-taken n s.started c cs e);
            same_next = p.same_next;
          })
  ]

  pub fail_device-Holds :
      (dev code message : Bytes) (s : NetworkManager)
      → Holds id 0 s (fail_pending_wifi_connect_requests_for_device dev code message s)
  unfolding fail_pending_wifi_connect_requests_for_device
  fail_device-Holds dev code message s =
      let (k, (p, fits)) = fail_loop-Spends id dev code message s.pending s in
      record {
        held = omega (arith, p.sent, ap (in_flight id) p.same_started, fits);
        same_next = p.same_next;
      }

  pub fail_all-Holds :
      (code message : Bytes) (s : NetworkManager)
      → Holds id 0 s (fail_all_pending_wifi_connect_requests code message s)
  unfolding fail_all_pending_wifi_connect_requests
  fail_all-Holds code message s =
      let p = tell_all-Spends id code message s.pending s in
      record {
        held = omega (arith, p.sent, ap (in_flight id) p.same_started);
        same_next = p.same_next;
      }
