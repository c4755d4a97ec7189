-- ===== src/Services/Event.antt =====
-- `Event` (src/event.h): handlers under numbers. The `std::unordered_map` is the list of its
-- entries with one entry for each key; the order of a call over it is not specified.
use jappeos_core.Prelude.{
  subst, ℕ, ◌+◌, ◌-◌, ◌≤◌, ◌<◌, ◌≡◌, refl, sym, ap, ◌∙◌, Option, none, some, List, [], ◌∷◌, map,
  arith, if◌then◌else◌, ◌==◌, nat_eq, string_eq, length, All, u64_mod, add64,
}

pub record Event (H : Type 0) : Type 0 where
  pub handlers : List (ℕ × H)
  pub next_id : ℕ

module _ {H : Type 0} where
  -- `_handlers.erase(id)`
  unfoldable pub erase_id : ℕ → List (ℕ × H) → List (ℕ × H)
  erase_id id [] = []
  erase_id id ((k, h) ∷ hs) = if k == id then erase_id id hs else (k, h) ∷ erase_id id hs

  -- `_handlers.find(id)`
  unfoldable pub find_id : ℕ → List (ℕ × H) → Option H
  find_id id [] = none
  find_id id ((k, h) ∷ hs) = if k == id then some h else find_id id hs

  -- `Subscribe`: `_handlers[id] = handler` replaces an entry under the number, and `_nextId++`
  -- wraps around.
  unfoldable pub subscribe : H → Event H → Event H × ℕ
  subscribe h e = (
    record {
      handlers = (e.next_id, h) ∷ erase_id e.next_id e.handlers;
      next_id = add64 e.next_id 1;
    },
    e.next_id,
  )

  -- `Unsubscribe`
  unfoldable pub unsubscribe : ℕ → Event H → Event H
  unsubscribe id e = record e { handlers = erase_id id e.handlers }

  -- `Clear`
  unfoldable pub clear : Event H → Event H
  clear e = record e { handlers = [] }

  -- `operator()`: the handlers that a call runs.
  unfoldable pub called : Event H → List H
  called e = map (λ e. e.1) e.handlers

abbrev pub new_event : {H : Type 0} → Event H
new_event = record { handlers = []; next_id = 0 }

pub data Use (H : Type 0) : Type 0 where
  subscribes : H → Use H
  unsubscribes : ℕ → Use H
  clears : Use H

abbrev pub use_event : {H : Type 0} → Use H → Event H → Event H
use_event (subscribes h) e = (subscribe h e).0
use_event (unsubscribes id) e = unsubscribe id e
use_event clears e = clear e

unfoldable pub use_all : {H : Type 0} → List (Use H) → Event H → Event H
use_all [] e = e
use_all (u ∷ us) e = use_all us (use_event u e)

next_grows : (n : ℕ) → n + 1 < u64_mod → add64 n 1 ≡ n + 1
next_grows n h = omega (arith, h)

-- Every number in use has been handed out.
abbrev Below : {H : Type 0} → ℕ → List (ℕ × H) → Type 0
Below n = All (λ e. e.0 < n)

module _ {H : Type 0} where
  Below-weaken : (n : ℕ) (hs : List (ℕ × H)) → Below n hs → Below (n + 1) hs
  Below-weaken n [] b = tt
  Below-weaken n ((k, h) ∷ hs) b = (omega (arith, b.0), Below-weaken n hs b.1)

  erase_id-Below : (id n : ℕ) (hs : List (ℕ × H)) → Below n hs → Below n (erase_id id hs)
  unfolding erase_id
  erase_id-Below id n [] b = tt
  erase_id-Below id n ((k, h) ∷ hs) b = ground (arith, b.0, erase_id-Below id n hs b.1)

  erase_id_fresh : (id : ℕ) (hs : List (ℕ × H)) → Below id hs → erase_id id hs ≡ hs
  unfolding erase_id
  erase_id_fresh id [] b = refl
  erase_id_fresh id ((k, h) ∷ hs) b = ground (arith, b.0, erase_id_fresh id hs b.1)

  erase_id_head :
      (id : ℕ) (h : H) (hs : List (ℕ × H))
      → erase_id id ((id, h) ∷ erase_id id hs) ≡ erase_id id (erase_id id hs)
  unfolding erase_id
  erase_id_head id h hs = ground arith

  find_id_fresh : (id : ℕ) (hs : List (ℕ × H)) → Below id hs → find_id id hs ≡ none
  unfolding find_id
  find_id_fresh id [] b = refl
  find_id_fresh id ((k, h) ∷ hs) b = ground (arith, b.0, find_id_fresh id hs b.1)

  -- The numbers in use are below the next one, which counts at most the uses.
  record Counted (n : ℕ) (e : Event H) : Type 0 where
    counted : e.next_id ≤ n
    below : Below e.next_id e.handlers

  use_event-Counted :
      (u : Use H) (n : ℕ) (e : Event H)
      → n + 1 < u64_mod
      → Counted n e
      → Counted (n + 1) (use_event u e)
  unfolding subscribe unsubscribe clear
  use_event-Counted (subscribes h) n e small c =
      let grows = next_grows e.next_id (omega (arith, small, c.counted)) in
      record {
        counted = omega (arith, grows, c.counted);
        below =
            subst (λ k. Below k ((e.next_id, h) ∷ erase_id e.next_id e.handlers)) (sym grows)
              (
                omega arith,
                Below-weaken _ _ (erase_id-Below e.next_id e.next_id e.handlers c.below),
              );
      }
  use_event-Counted (unsubscribes id) n e small c = record {
    counted = omega (arith, c.counted);
    below = erase_id-Below id _ _ c.below;
  }
  use_event-Counted clears n e small c = record { counted = omega (arith, c.counted); below = tt }

  use_all-Counted :
      (us : List (Use H)) (n : ℕ) (e : Event H)
      → n + length us < u64_mod
      → Counted n e
      → Counted (n + length us) (use_all us e)
  unfolding use_all
  use_all-Counted [] n e small c = subst (λ k. Counted k e) (omega arith) c
  use_all-Counted (u ∷ us) n e small c =
      subst (λ k. Counted k (use_all us (use_event u e))) (omega arith)
        (use_all-Counted us (n + 1) (use_event u e) (omega (arith, small))
          (use_event-Counted u n e (omega (arith, small)) c))

-- A subscription after fewer than 2^64 - 1 uses of a new event gets a number that no handler has,
-- adds its handler to the ones that a call runs, and taking the number back restores exactly the
-- handlers from before.
pub subscribe-unsubscribe :
    {H : Type 0} (us : List (Use H)) (h : H)
    → length us < u64_mod - 1
    → let e = use_all us new_event in
      let r = subscribe h e in
      (find_id r.1 e.handlers ≡ none)
      × (called r.0 ≡ h ∷ called e)
      × ((unsubscribe r.1 r.0).handlers ≡ e.handlers)
unfolding subscribe unsubscribe called
subscribe-unsubscribe us h small =
    let e = use_all us new_event in
    let c =
      use_all-Counted us 0 new_event (omega (arith, small))
        (record { counted = omega arith; below = tt }) in
    let fresh = erase_id_fresh e.next_id e.handlers c.below in
    (
      find_id_fresh e.next_id e.handlers c.below,
      ap (λ hs. h ∷ map (λ e. e.1) hs) fresh,
      erase_id_head e.next_id h e.handlers ∙ ap (erase_id e.next_id) fresh ∙ fresh,
    )
