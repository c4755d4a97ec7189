-- ===== src/Network/Numbers.antt =====
-- How often the number of a request is held after a result has been told, and after the map of
-- pending requests has changed (src/services/network_manager/network_manager_service.cpp).
use jappeos_core.Prelude.{
  ℕ, ◌+◌, ◌≤◌, ◌≡◌, refl, ◌∙◌, ap, inl, inr, Bool, true, false, some, [], ◌∷◌, Bool-cases,
  Option-cases, nat_eq, list_beq, list_empty, Bytes, codes, arith,
}
use jappeos_core.Network.Maps.{Map, find, erase, update, assign, contains}
use jappeos_core.Network.Data.{
  ConnectionState, connected, deactivated, connection_unknown, activating, deactivating, NmActive,
  PendingRequest, NetworkManager,
}
use jappeos_core.Network.Texts.{reason_string}
use jappeos_core.Network.Pending.{
  emit_wifi_connect_result, finish, settle, resolve_pending_wifi_connect_request,
}
use jappeos_core.Network.Results.{waiting, in_flight, tally, one, Spends, emit_result-Spends}

module _ (id : ℕ) where
  waiting-erase : (k : Bytes) (m : Map PendingRequest) → waiting id (erase k m) ≤ waiting id m
  unfolding erase
  waiting-erase k [] = omega arith
  waiting-erase k ((j, r) ∷ m) = elim (Bool-cases (list_beq k j)) [
    | inl e ↦ rw e (omega (arith, waiting-erase k m))
    | inr e ↦ rw e (omega (arith, waiting-erase k m))
  ]

  waiting-found :
      (k : Bytes) (m : Map PendingRequest) (r : PendingRequest)
      → find k m ≡ some r
      → waiting id (erase k m) + one id r.request_id ≤ waiting id m
  unfolding find erase
  waiting-found k [] r h = cc
  waiting-found k ((j, a) ∷ m) r h = elim (Bool-cases (list_beq k j)) [
    | inl e ↦
        let same : a ≡ r = some-inj (rw e at h) in
        rw e (omega (arith, waiting-erase k m, ap (λ x. one id x.request_id) same))
    | inr e ↦ rw e (omega (arith, waiting-found k m r (rw e at h)))
  ]
    where
      some-inj : {x y : PendingRequest} → some x ≡ some y → x ≡ y
      some-inj h = cc

  waiting-update :
      (k : Bytes) (r : PendingRequest) (m : Map PendingRequest)
      → waiting id (update k (λ x. r) m) ≤ waiting id m + one id r.request_id
  unfolding update
  waiting-update k r [] = omega arith
  waiting-update k r ((j, a) ∷ m) = elim (Bool-cases (list_beq k j)) [
    | inl e ↦ rw e (omega arith)
    | inr e ↦ rw e (omega (arith, waiting-update k r m))
  ]

  pub waiting-assign :
      (k : Bytes) (r : PendingRequest) (m : Map PendingRequest)
      → waiting id (assign k r m) ≤ waiting id m + one id r.request_id
  unfolding assign
  waiting-assign k r m = elim (Bool-cases (contains k m)) [
    | inl e ↦ rw e (waiting-update k r m)
    | inr e ↦ rw e (omega arith)
  ]

  -- The number is held at most so many times more, and the next number stays.
  pub record Holds (k : ℕ) (s t : NetworkManager) : Type 0 where
    pub held : tally id t ≤ tally id s + k
    pub same_next : t.next_request_id ≡ s.next_request_id

  pub Holds-trans :
      {s t u : NetworkManager} (j k : ℕ) → Holds j s t → Holds k t u → Holds (j + k) s u
  Holds-trans j k p q = record {
    held = omega (arith, p.held, q.held);
    same_next = q.same_next ∙ p.same_next;
  }

  pub Holds-none : (s : NetworkManager) → Holds 0 s s
  Holds-none s = record { held = omega arith; same_next = refl }

  pub Spends-Holds : {s t : NetworkManager} (k : ℕ) → Spends id k s t → Holds k s t
  Spends-Holds {s} {t} k p = record {
    held = omega (arith, p.sent, ap (in_flight id) p.same_started, ap (waiting id) p.same_pending);
    same_next = p.same_next;
  }

  finish-Holds :
      (k : Bytes) (r : PendingRequest) (ok : Bool) (code message : Bytes) (s : NetworkManager)
      → find k s.pending ≡ some r
      → Holds 0 s (finish k r ok code message s)
  unfolding erase emit_wifi_connect_result
  finish-Holds k r ok code message s h =
      let told = emit_wifi_connect_result r.device_path r.request_id ok code message s in
      let p = emit_result-Spends id r.device_path r.request_id ok code message s in
      record {
        held = omega (
          arith,
          p.sent,
          ap (in_flight id) p.same_started,
          ap (λ m. waiting id (erase k m)) p.same_pending,
          waiting-found k s.pending r h,
        );
        same_next = p.same_next;
      }

  settle-Holds :
      (ac : NmActive) (k : Bytes) (r : PendingRequest) (s : NetworkManager)
      → find k s.pending ≡ some r
      → Holds 0 s (settle ac k r s)
  unfolding settle
  settle-Holds ac k r s h = by_state ac.state
    where
      by_state : (x : ConnectionState) → Holds 0 s (settle (record ac { state = x }) k r s)
      by_state connected = finish-Holds k r true (codes "activated") [] s h
      by_state deactivated =
          finish-Holds k r false (reason_string ac.reason) (codes "Connection activation failed") s
            h
      by_state connection_unknown =
          finish-Holds k r false (reason_string ac.reason) (codes "Connection activation failed") s
            h
      by_state activating = Holds-none s
      by_state deactivating = Holds-none s

  pub resolve-Holds :
      (ac : NmActive) (s : NetworkManager) → Holds 0 s (resolve_pending_wifi_connect_request ac s)
  unfolding resolve_pending_wifi_connect_request
  resolve-Holds ac s = elim (Option-cases ac.path) [
    | inl e ↦ rw (resolve_pending_wifi_connect_request, e) (Holds-none s)
    | inr (path, e) ↦ elim (Bool-cases (list_empty path)) [
      | inl f ↦ rw (resolve_pending_wifi_connect_request, e, f) (Holds-none s)
      | inr f ↦ elim (Option-cases (find path s.pending)) [
        | inl g ↦ rw (resolve_pending_wifi_connect_request, e, f, g) (Holds-none s)
        | inr (r, g) ↦
            rw (resolve_pending_wifi_connect_request, e, f, g) (settle-Holds ac path r s g)
      ]
    ]
  ]
