-- ===== src/Network/Results.antt =====
-- How often the number of a request for a Wi-Fi connection is held by libnm, by the map of pending
-- requests and by the signals (src/services/network_manager/network_manager_service.cpp).
use jappeos_core.Prelude.{
  ℕ, ◌+◌, ◌≤◌, ◌≡◌, refl, ◌∙◌, inl, inr, Bool, false, List, [], ◌∷◌, if◌then◌else◌, Bool-cases,
  Option-cases, nat_eq, ◌==◌, list_beq, count_if, Bytes, arith,
}
use jappeos_core.Network.Maps.{Map, find}
use jappeos_core.Network.Data.{
  PendingRequest, Context, Signal, connect_result, NetworkManager, emit,
}
use jappeos_core.Network.Pending.{emit_wifi_connect_result, tell_all, fail_loop}

abbrev pub is_result : ℕ → Signal → Bool
is_result id (connect_result dev n ok code message) = n == id
is_result id _ = false

module _ (id : ℕ) where
  abbrev pub results : List Signal → ℕ
  results = count_if (is_result id)

  abbrev pub waiting : Map PendingRequest → ℕ
  waiting = count_if (λ e. e.1.request_id == id)

  abbrev pub in_flight : List Context → ℕ
  in_flight = count_if (λ c. c.request_id == id)

  abbrev pub tally : NetworkManager → ℕ
  tally s = results s.signals + waiting s.pending + in_flight s.started

  abbrev pub one : ℕ → ℕ
  one n = if n == id then 1 else 0

  -- At most so many results are sent; the tables of requests stay.
  pub record Spends (k : ℕ) (s t : NetworkManager) : Type 0 where
    pub sent : results t.signals ≤ results s.signals + k
    pub same_started : t.started ≡ s.started
    pub same_pending : t.pending ≡ s.pending
    pub same_next : t.next_request_id ≡ s.next_request_id
    pub same_devices : t.devices ≡ s.devices
    pub same_connections : t.connections ≡ s.connections

  pub Spends-trans :
      {s t u : NetworkManager} (j k : ℕ) → Spends j s t → Spends k t u → Spends (j + k) s u
  Spends-trans j k p q = record {
    sent = omega (arith, p.sent, q.sent);
    same_started = q.same_started ∙ p.same_started;
    same_pending = q.same_pending ∙ p.same_pending;
    same_next = q.same_next ∙ p.same_next;
    same_devices = q.same_devices ∙ p.same_devices;
    same_connections = q.same_connections ∙ p.same_connections;
  }

  pub Spends-none : (s : NetworkManager) → Spends 0 s s
  Spends-none s = record {
    sent = omega arith;
    same_started = refl;
    same_pending = refl;
    same_next = refl;
    same_devices = refl;
    same_connections = refl;
  }

  pub emit_result-Spends :
      (dev : Bytes) (n : ℕ) (ok : Bool) (code message : Bytes) (s : NetworkManager)
      → Spends (one n) s (emit_wifi_connect_result dev n ok code message s)
  unfolding emit_wifi_connect_result
  emit_result-Spends dev n ok code message s = elim (Option-cases (find dev s.devices)) [
    | inl e ↦ rw (emit_wifi_connect_result, e) silent
    | inr (d, e) ↦ elim (Bool-cases d.is_wifi) [
      | inl f ↦ rw (emit_wifi_connect_result, e, f) told
      | inr f ↦ rw (emit_wifi_connect_result, e, f) silent
    ]
  ]
    where
      silent : Spends (one n) s s
      silent = record {
        sent = omega arith;
        same_started = refl;
        same_pending = refl;
        same_next = refl;
        same_devices = refl;
        same_connections = refl;
      }

      told : Spends (one n) s (emit (connect_result dev n ok code message) s)
      told = record {
        sent = omega arith;
        same_started = refl;
        same_pending = refl;
        same_next = refl;
        same_devices = refl;
        same_connections = refl;
      }

  pub tell_all-Spends :
      (code message : Bytes) (m : Map PendingRequest) (s : NetworkManager)
      → Spends (waiting m) s (tell_all code message m s)
  unfolding tell_all
  tell_all-Spends code message [] s = Spends-none s
  tell_all-Spends code message ((path, r) ∷ m) s =
      Spends-trans (one r.request_id) (waiting m)
        (emit_result-Spends r.device_path r.request_id false code message s)
        (tell_all-Spends code message m
          (emit_wifi_connect_result r.device_path r.request_id false code message s))

  -- The loop of a device that fails: what is told is no longer in the map.
  pub fail_loop-Spends :
      (dev code message : Bytes) (m : Map PendingRequest) (s : NetworkManager)
      → (k : ℕ) × (Spends k s (fail_loop dev code message m s).1
          × (waiting (fail_loop dev code message m s).0 + k ≤ waiting m))
  unfolding fail_loop
  fail_loop-Spends dev code message [] s = (0, (Spends-none s, omega arith))
  fail_loop-Spends dev code message ((path, r) ∷ m) s =
      elim (Bool-cases (list_beq r.device_path dev)) [
        | inl e ↦
            let told = emit_wifi_connect_result r.device_path r.request_id false code message s in
            let (k, (spends, fits)) = fail_loop-Spends dev code message m told in
            let first = emit_result-Spends r.device_path r.request_id false code message s in
            rw e (
              one r.request_id + k,
              (Spends-trans (one r.request_id) k first spends, omega (arith, fits)),
            )
        | inr e ↦
            let (k, (spends, fits)) = fail_loop-Spends dev code message m s in
            rw e (k, (spends, omega (arith, fits)))
      ]
