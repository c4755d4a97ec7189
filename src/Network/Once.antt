-- ===== src/Network/Once.antt =====
-- The numbers of requests for a Wi-Fi connection in a history of the network manager service
-- (src/services/network_manager/network_manager_service.cpp).
use jappeos_core.Prelude.{
  ℕ, suc, ◌+◌, ◌%◌, ◌≤◌, ◌<◌, ◌≡◌, refl, ◌∙◌, ap, inl, inr, ◌⊎◌, ◌==◌, nat_eq, if_elim, true,
  Option, none, some, List, [], ◌∷◌, Bool-cases, list_beq, length, Bytes, codes, arith, Result, ok,
  err, u64_mod,
}
use jappeos_core.Network.Maps.{keys}
use jappeos_core.Network.Data.{
  NmDevice, device_removed, connection_removed, NetworkManager, new_network_manager, Call,
}
use jappeos_core.Network.Pending.{fail_all_pending_wifi_connect_requests}
use jappeos_core.Network.Devices.{
  Done, emit_each, on_network_manager_disappeared, try_init_network_manager,
  on_network_manager_appeared, on_name_owner_changed,
}
use jappeos_core.Network.Wifi.{
  WifiError, WifiRequest, admit_request, choose_call, take_id, start_call, wifi_connect,
}
use jappeos_core.Network.History.{
  NetworkEvent, name_owner_changed, nm_device_added, nm_device_removed, state_changed,
  managed_changed, access_points_changed, active_connection_changed, connection_state_changed,
  connect_called, answered, step, run,
}
use jappeos_core.Network.Results.{tally}
use jappeos_core.Network.Numbers.{Holds, Holds-none}
use jappeos_core.Network.Answers.{answered-Holds, fail_all-Holds}
use jappeos_core.Network.Handlers.{add_device-Holds, discover-Holds, remove_device-Holds}
use jappeos_core.Network.Callbacks.{
  state_changed-Holds, managed_changed-Holds, points_changed-Holds, active_changed-Holds,
  connection_changed-Holds,
}

module _ (id : ℕ) where
  each_removed :
      (ps : List Bytes) (s : NetworkManager) → Holds id 0 s (emit_each device_removed ps s)
  each_removed [] s = Holds-none id s
  each_removed (p ∷ ps) s =
      let rest = each_removed ps (record s { signals = device_removed p ∷ s.signals }) in
      record { held = omega (arith, rest.held); same_next = rest.same_next }

  each_connection_removed :
      (ps : List Bytes) (s : NetworkManager) → Holds id 0 s (emit_each connection_removed ps s)
  each_connection_removed [] s = Holds-none id s
  each_connection_removed (p ∷ ps) s =
      let rest =
        each_connection_removed ps (record s { signals = connection_removed p ∷ s.signals }) in
      record { held = omega (arith, rest.held); same_next = rest.same_next }

  disappeared-Holds : (s : NetworkManager) → Holds id 0 s (on_network_manager_disappeared s)
  unfolding on_network_manager_disappeared
  disappeared-Holds s =
      let p =
        fail_all-Holds id (codes "network_manager_unavailable")
          (codes "NetworkManager disappeared during connection attempt") s in
      let q = each_connection_removed (keys told.connections) told in
      let r = each_removed (keys events.devices) events in
      if_elim (λ t. Holds id 0 s t) s.is_available
        (λ e. record {
          held = omega (arith, p.held, q.held, r.held);
          same_next = r.same_next ∙ (q.same_next ∙ p.same_next);
        })
        (λ e. Holds-none id s)
    where
      told : NetworkManager
      told =
          fail_all_pending_wifi_connect_requests (codes "network_manager_unavailable")
            (codes "NetworkManager disappeared during connection attempt") s

      events : NetworkManager
      events = emit_each connection_removed (keys told.connections) told

  appeared-Holds :
      (client : Option (List NmDevice)) (s : NetworkManager)
      → Holds id 0 s (on_network_manager_appeared client s).1
  unfolding on_network_manager_appeared try_init_network_manager
  appeared-Holds client s =
      if_elim (λ (x : Done). Holds id 0 s x.1) s.is_available (λ e. Holds-none id s)
        (λ e. init client)
    where
      init : (client : Option (List NmDevice)) → Holds id 0 s (try_init_network_manager client s).1
      init none = record { held = omega arith; same_next = refl }
      init (some ds) =
          let p = discover-Holds id ds (record s { is_available = true }) in
          record { held = omega (arith, p.held); same_next = p.same_next }

  owner_changed-Holds :
      (name owner : Bytes) (client : Option (List NmDevice)) (s : NetworkManager)
      → Holds id 0 s (on_name_owner_changed name owner client s).1
  unfolding on_name_owner_changed
  owner_changed-Holds name owner client s =
      let P : Done → Type 0 = λ x. Holds id 0 s x.1 in
      if_elim P (list_beq name (codes "org.freedesktop.NetworkManager"))
        (λ e.
          if_elim P (list_beq owner []) (λ f. disappeared-Holds s) (λ f. appeared-Holds client s))
        (λ e. Holds-none id s)

  -- What holds after an event: the next number has gone up by one at most, and only the number
  -- that was the next is held once more.
  record Follows (s t : NetworkManager) : Type 0 where
    next_after : t.next_request_id ≤ suc s.next_request_id
    next_before : s.next_request_id ≤ t.next_request_id
    held_after :
        (tally id t ≤ tally id s)
        ⊎ ((s.next_request_id ≡ id)
            × ((t.next_request_id ≡ suc id) × (tally id t ≤ suc (tally id s))))

  follows : {s t : NetworkManager} → Holds id 0 s t → Follows s t
  follows p = record {
    next_after = omega (arith, p.same_next);
    next_before = omega (arith, p.same_next);
    held_after = inl (omega (arith, p.held));
  }

  connect_called-Follows :
      (policy : Result WifiError (Unit {0})) (found : Option NmDevice) (dev : Bytes)
      (r : WifiRequest) (s : NetworkManager)
      → suc s.next_request_id < u64_mod
      → Follows s (wifi_connect policy found dev r s).1
  unfolding wifi_connect
  connect_called-Follows policy found dev r s h = admitted (admit_request policy found r s) refl
    where
      next_id : (s.next_request_id + 1) % u64_mod ≡ suc s.next_request_id
      next_id = omega (arith, h)

      spent : Follows s (take_id s)
      spent = record {
        next_after = omega (arith, next_id);
        next_before = omega (arith, next_id);
        held_after = inl (omega arith);
      }

      started : (call : Call) → Follows s (start_call dev r s.next_request_id call (take_id s))
      started call = record {
        next_after = omega (arith, next_id);
        next_before = omega (arith, next_id);
        held_after = elim (Bool-cases (s.next_request_id == id)) [
          | inl e ↦
              let same : s.next_request_id ≡ id = ground (arith, e) in
              inr (same, (next_id ∙ ap suc same, rw e (omega arith)))
          | inr e ↦ inl (rw e (omega arith))
        ];
      }

      chosen :
          (d : NmDevice)
          → admit_request policy found r s ≡ ok d
          → (c : Result WifiError Call) → choose_call r d ≡ c
          → Follows s (wifi_connect policy found dev r s).1
      chosen d e (err x) f = rw (wifi_connect, e, f) spent
      chosen d e (ok call) f = rw (wifi_connect, e, f) (started call)

      admitted :
          (a : Result WifiError NmDevice)
          → admit_request policy found r s ≡ a
          → Follows s (wifi_connect policy found dev r s).1
      admitted (err x) e = rw (wifi_connect, e) (follows (Holds-none id s))
      admitted (ok d) e = chosen d e (choose_call r d) refl

  step-Follows :
      (e : NetworkEvent) (s : NetworkManager)
      → suc s.next_request_id < u64_mod
      → Follows s (step e s)
  unfolding step
  step-Follows (name_owner_changed name owner client) s h =
      follows (owner_changed-Holds name owner client s)
  step-Follows (nm_device_added d) s h = follows (add_device-Holds id d s)
  step-Follows (nm_device_removed d) s h = follows (remove_device-Holds id d s)
  step-Follows (state_changed d) s h = follows (state_changed-Holds id d s)
  step-Follows (managed_changed d) s h = follows (managed_changed-Holds id d s)
  step-Follows (access_points_changed d) s h = follows (points_changed-Holds id d s)
  step-Follows (active_connection_changed d ac) s h = follows (active_changed-Holds id d ac s)
  step-Follows (connection_state_changed ac) s h = follows (connection_changed-Holds id ac s)
  step-Follows (connect_called policy found dev r) s h =
      connect_called-Follows policy found dev r s h
  step-Follows (answered n a) s h = follows (answered-Holds id n a s)

  -- A number below the next one is held once at most, any other not at all.
  record IsFresh (s : NetworkManager) : Type 0 where
    once : tally id s ≤ 1
    unborn : s.next_request_id ≤ id → tally id s ≡ 0

  step-IsFresh :
      (e : NetworkEvent) (s : NetworkManager)
      → suc s.next_request_id < u64_mod
      → IsFresh s
      → IsFresh (step e s)
  step-IsFresh e s h f =
      let p = step-Follows e s h in
      elim p.held_after [
        | inl less ↦ record {
          once = omega (arith, less, f.once);
          unborn = λ k. omega (arith, less, f.unborn (omega (arith, k, p.next_before)));
        }
        | inr (this, (after, more)) ↦ record {
          once = omega (arith, more, f.unborn (omega (arith, this)));
          unborn = λ k. absurd (omega (arith, k, after));
        }
      ]

  run-IsFresh :
      (es : List NetworkEvent) (s : NetworkManager)
      → s.next_request_id + length es < u64_mod
      → IsFresh s
      → IsFresh (run es s)
  unfolding run
  run-IsFresh [] s h f = f
  run-IsFresh (e ∷ es) s h f =
      let p = step-Follows e s (omega (arith, h)) in
      run-IsFresh es (step e s) (omega (arith, h, p.next_after))
        (step-IsFresh e s (omega (arith, h)) f)

-- In every history of less than 2^64 - 1 events, the number of a request is held at most once: by
-- a call that libnm has not answered, by the map of pending requests, or by the one signal that
-- was sent with its result.
pub run-tally :
    (es : List NetworkEvent) (id : ℕ)
    → 1 + length es < u64_mod
    → tally id (run es new_network_manager) ≤ 1
run-tally es id h =
    (run-IsFresh id es new_network_manager h
      (record { once = omega arith; unborn = λ k. refl })).once
