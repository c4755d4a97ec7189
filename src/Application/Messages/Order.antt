-- ===== src/Application/Messages/Order.antt =====
-- The order in which `Application::Update` serves messages (src/application.cpp).
use jappeos_core.Prelude.{
  subst, ℕ, zero, suc, ◌≤◌, ◌≡◌, refl, sym, ap, ◌∙◌, inl, inr, List, [], ◌∷◌, ◌++◌, ◌||◌,
  append_assoc, append-nil, if◌then◌else◌, Bool-cases, nat_eq, list_empty, length, arith,
}
use jappeos_core.Bus.Objects.{Message}
use jappeos_core.Application.Messages.{
  Daemon, Inbox, Turn, Updated, serve, serve_all, read_write, drain, read_ahead, update,
}

module _ {S : Type 0} (d : Daemon S) where
  module _ (reads : List Message → List Message × List Message) where
    -- libdbus keeps the order of the messages it reads, and reads some if there are any.
    pub record Reads : Type 0 where
      pub in_order : (ms : List Message) → (reads ms).0 ++ (reads ms).1 ≡ ms
      pub progress : (ms : List Message) → (reads ms).0 ≡ [] → ms ≡ []

    module _ (contract : Reads) where
      read_write_all :
          (b : Inbox)
          → (read_write d reads b).queue ++ (read_write d reads b).socket ≡ b.queue ++ b.socket
      read_write_all b =
          append_assoc b.queue (reads b.socket).0 (reads b.socket).1
          ∙ ap (λ ms. b.queue ++ ms) (contract.in_order b.socket)

      read_write_none : (b : Inbox) → (read_write d reads b).queue ≡ [] → b.queue ++ b.socket ≡ []
      read_write_none b h = nothing b.queue (reads b.socket).0 refl h
        where
          nothing : (q r : List Message) → (reads b.socket).0 ≡ r → q ++ r ≡ [] → q ++ b.socket ≡ []
          nothing [] r e f = contract.progress b.socket (e ∙ f)
          nothing (m ∷ q) r e f = cc

      -- The loop serves all messages in their order.
      abbrev pub Drains : List Message → S → Updated S → Type 0
      Drains ms s out =
          (out.handled ≡ ms)
          × (out.state ≡ (serve_all d ms s).0)
          × (out.sent ≡ (serve_all d ms s).1)
          × (out.inbox.queue ++ out.inbox.socket ≡ [])

      drain-Drains :
          (n : ℕ) (b : Inbox) (s : S)
          → length (b.queue ++ b.socket) ≤ n
          → Drains (b.queue ++ b.socket) s (drain d reads n b s)
      unfolding drain serve_all
      drain-Drains zero b s h = empty (b.queue ++ b.socket) h
        where
          empty :
              (ms : List Message)
              → length ms ≤ 0
              → ([] ≡ ms) × (s ≡ (serve_all d ms s).0) × ([] ≡ (serve_all d ms s).1) × (ms ≡ [])
          empty [] g = (refl, refl, refl, refl)
          empty (m ∷ ms) g = absurd (omega (arith, g))
      drain-Drains (suc n) b s h =
          entry (λ b' s' h'. drain-Drains n b' s' h') (read_write d reads b).queue refl
        where
          entry :
              ((b' : Inbox) (s' : S)
                → length (b'.queue ++ b'.socket) ≤ n
                → Drains (b'.queue ++ b'.socket) s' (drain d reads n b' s'))
              → (q : List Message) → (read_write d reads b).queue ≡ q
              → Drains (b.queue ++ b.socket) s (drain d reads (suc n) b s)
          entry ih [] e =
              let none_left : b.queue ++ b.socket ≡ [] = read_write_none b e in
              rw (drain, e, none_left) (refl, refl, refl, read_write_all b ∙ none_left)
          entry ih (m ∷ ms) e =
              let left : Inbox = record { queue = ms; socket = (reads b.socket).1 } in
              let all : m ∷ (ms ++ (reads b.socket).1) ≡ b.queue ++ b.socket =
                ap (λ q. q ++ (reads b.socket).1) (sym e) ∙ read_write_all b in
              let shorter : length (ms ++ (reads b.socket).1) ≤ n =
                omega (arith, h, ap length all) in
              let (handled, last, sent, empty) = ih left (serve d m s).0 shorter in
              subst (λ ws. Drains ws s (drain d reads (suc n) b s)) all
                (rw (drain, e)
                  (ap (λ ws. m ∷ ws) handled, last, ap (λ out. (serve d m s).1 ++ out) sent, empty))

      -- What `update` handles
      abbrev pub handled_by : Turn S → Inbox → List Message
      handled_by t b =
          if t.poll_fails || (t.signal_byte || list_empty b.socket) then [] else b.queue ++ b.socket

      read_ahead_all :
          (n : ℕ) (b : Inbox)
          → (read_ahead n b).queue ++ (read_ahead n b).socket ≡ b.queue ++ b.socket
      unfolding read_ahead
      read_ahead_all zero b = refl
      read_ahead_all (suc n) b = entry (λ b'. read_ahead_all n b') b.socket refl
        where
          entry :
              ((b' : Inbox)
                → (read_ahead n b').queue ++ (read_ahead n b').socket ≡ b'.queue ++ b'.socket)
              → (ms : List Message) → b.socket ≡ ms
              → let b' = read_ahead (suc n) b in b'.queue ++ b'.socket ≡ b.queue ++ b.socket
          entry ih [] e = rw (read_ahead, e) (ap (λ ms. b.queue ++ ms) e)
          entry ih (m ∷ ms) e =
              rw (read_ahead, e)
                (ih (record { queue = b.queue ++ m ∷ []; socket = ms })
                  ∙ append_assoc b.queue (m ∷ []) ms)

      -- While libdbus reads in order, and reads something if there is something: `update` serves all
      -- messages, one after another, if `poll` does not fail, there is no byte in the pipe of
      -- signals and a message was on the socket before; otherwise none. The messages that it served
      -- and those that it left are those that there were, in their order.
      pub update-handles :
          (t : Turn S) (b : Inbox) (s : S)
          → let out = update d reads t b s in
            (out.handled ≡ handled_by t b)
            × (out.state
                ≡ (if t.poll_fails then s else (serve_all d (handled_by t b) (t.glib s).0).0))
            × (out.handled ++ (out.inbox.queue ++ out.inbox.socket) ≡ b.queue ++ b.socket)
      unfolding update serve_all
      update-handles t b s =
          let b' = read_ahead t.read_ahead b in
          let all = read_ahead_all t.read_ahead b in
          let n = length (b'.queue ++ b'.socket) in
          let out = drain d reads n b' (t.glib s).0 in
          let (handled, last, sent, empty) = drain-Drains n b' (t.glib s).0 (omega arith) in
          elim (Bool-cases t.poll_fails) [
            | inl e ↦ rw e (refl, refl, refl)
            | inr e ↦ elim (Bool-cases t.signal_byte) [
              | inl f ↦ rw (e, f) (refl, refl, all)
              | inr f ↦ elim (Bool-cases (list_empty b.socket)) [
                | inl g ↦ rw (e, f, g) (refl, refl, all)
                | inr g ↦
                    rw (e, f, g)
                      (
                        handled ∙ all,
                        last ∙ ap (λ ms. (serve_all d ms (t.glib s).0).0) all,
                        ap (λ ms. out.handled ++ ms) empty ∙ append-nil out.handled ∙ handled ∙ all,
                      )
              ]
            ]
          ]
