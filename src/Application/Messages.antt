-- ===== src/Application/Messages.antt =====
-- `Application::Update` and `HandleDBusMessageLegacy` (src/application.cpp), and
-- `Connection::HandleSignal` (src/dbus/dbus_wrapper.cpp): how messages reach the services. What
-- libdbus reads from its socket, and what poll and GLib do, are inputs; what the daemon logs, and
-- the events around a message, are not modelled.
pub mod Order
use jappeos_core.Prelude.{
  subst, ℕ, zero, suc, ◌+◌, ◌≤◌, ◌≡◌, refl, sym, ap, ◌∙◌, inl, inr, Bool, true, false, not, Option,
  none, some, List, [], ◌∷◌, ◌++◌, ◌||◌, append_assoc, append-nil, if◌then◌else◌, if_elim,
  Bool-cases, Option-cases, list_beq, nat_eq, ◌==◌, Bytes, codes, list_empty, length, length-append,
  any, arith,
}
use jappeos_core.Services.Manager.{Service, Table, Manager, entries}
use jappeos_core.Bus.Subscriptions.{SignalKey, Slot, Signals, slots}
use jappeos_core.Bus.Objects.{Message, Sent, Outcome, Object}
use jappeos_core.Bus.Dispatch.{handle_message}

-- The parts of the daemon that handle messages; what its services keep is a state of type `S`.
pub record Daemon (S : Type 0) : Type 0 where
  pub manager : Manager
  pub signals_of : S → Signals
  pub objects_of : S → List (Bytes × Object S)
  pub callback : ℕ → Message → S → Outcome S (Unit {0})
  pub legacy : Service → Message → S → Outcome S Bool

unfoldable pub find_codes : {A : Type 0} → Bytes → Table A → Option A
find_codes key [] = none
find_codes key ((k, a) ∷ t) =
    let rest = find_codes key t in if list_beq (codes k) key then some a else rest

-- `HandleDBusMessageLegacy`: the services that get the message
unfoldable pub legacy_receivers : Manager → Message → List Service
unfolding find_codes
legacy_receivers manager m = elim m.interface [
  | none ↦ []
  | some interface ↦
      if m.is_signal
      then entries (find_codes (interface ++ codes "." ++ m.member) manager.signal_subscribers)
      else elim (find_codes interface manager.interface_services) [
        | none ↦ []
        | some service ↦ service ∷ []
      ]
]

-- The messages of a connection: those on its socket, and those that libdbus has read.
pub record Inbox : Type 0 where
  pub queue : List Message
  pub socket : List Message

-- What `poll` and GLib did: an error of `poll`, a byte in the pipe of signals, what the callbacks
-- of GLib did, and the number of messages that libdbus read while they waited for replies.
pub record Turn (S : Type 0) : Type 0 where
  pub glib : S → S × List Sent
  pub poll_fails : Bool
  pub signal_byte : Bool
  pub read_ahead : ℕ

-- `ReadWrite` by what waits for a reply: `n` messages at most
unfoldable pub read_ahead : ℕ → Inbox → Inbox
read_ahead zero b = b
read_ahead (suc n) b = elim b.socket [
  | [] ↦ b
  | m ∷ ms ↦ read_ahead n (record { queue = b.queue ++ m ∷ []; socket = ms })
]

pub record Updated (S : Type 0) : Type 0 where
  pub state : S
  pub sent : List Sent
  pub handled : List Message
  pub inbox : Inbox
  pub quits : Bool

is_slot : ℕ → Slot → Bool
is_slot h none = false
is_slot h (some k) = k == h

module _ {S : Type 0} (d : Daemon S) where
  -- The loop of `HandleSignal` over the handlers that there were: one whose subscription has ended
  -- since is skipped, and exceptions are ignored.
  unfoldable pub run_callbacks : SignalKey → List ℕ → Message → S → S × List Sent
  unfolding is_slot
  run_callbacks key [] m s = (s, [])
  run_callbacks key (h ∷ hs) m s =
      let out = d.callback h m s in
      let (last, sent) = run_callbacks key hs m out.state in
      let skipped = run_callbacks key hs m s in
      if any (is_slot h) (slots ((d.signals_of s).handlers key))
      then (last, out.sent ++ sent)
      else skipped

  -- `HandleMethodCallLegacy` of the services: exceptions are logged.
  unfoldable pub run_legacy : List Service → Message → S → S × List Sent
  run_legacy [] m s = (s, [])
  run_legacy (service ∷ services) m s =
      let out = d.legacy service m s in
      let (last, sent) = run_legacy services m out.state in (last, out.sent ++ sent)

  abbrev key_of : Message → SignalKey
  key_of m = record {
    interface = elim m.interface [ none ↦ [] | some i ↦ i ];
    member = m.member;
    path = m.path;
  }

  -- The body of the loop over the messages
  unfoldable pub serve : Message → S → S × List Sent
  unfolding run_callbacks run_legacy legacy_receivers
  serve m s =
      let h = handle_message (d.signals_of s) (d.objects_of s) m s in
      let (last, sent) = run_callbacks (key_of m) h.callbacks m h.state in
      if h.handled then (last, h.sent ++ sent) else run_legacy (legacy_receivers d.manager m) m s

  -- Messages, each served in the state that the one before it left
  unfoldable pub serve_all : List Message → S → S × List Sent
  unfolding serve
  serve_all [] s = (s, [])
  serve_all (m ∷ ms) s =
      let (next, sent) = serve m s in let (last, rest) = serve_all ms next in (last, sent ++ rest)

  module _ (reads : List Message → List Message × List Message) where
    -- `ReadWrite`
    abbrev pub read_write : Inbox → Inbox
    read_write b =
        let (read, left) = reads b.socket in record { queue = b.queue ++ read; socket = left }

    -- `while (_conn->ReadWrite(0))`, while the connection is there
    unfoldable pub drain : ℕ → Inbox → S → Updated S
    unfolding serve
    drain zero b s = record { state = s; sent = []; handled = []; inbox = b; quits = false }
    drain (suc n) b s =
        let read = read_write b in
        elim read.queue [
          | [] ↦ record { state = s; sent = []; handled = []; inbox = read; quits = false }
          | m ∷ ms ↦
              let (next, sent) = serve m s in
              let rest = drain n (record { queue = ms; socket = read.socket }) next in
              record rest { sent = sent ++ rest.sent; handled = m ∷ rest.handled }
        ]

    -- `Update`; what `poll` found on the socket was there before GLib's callbacks.
    unfoldable pub update : Turn S → Inbox → S → Updated S
    unfolding drain read_ahead
    update t b s =
        let b' = read_ahead t.read_ahead b in
        let (s', sent) = t.glib s in
        let out = drain (length (b'.queue ++ b'.socket)) b' s' in
        if t.poll_fails
        then record { state = s; sent = []; handled = []; inbox = b; quits = false }
        else if t.signal_byte
        then record { state = s'; sent = sent; handled = []; inbox = b'; quits = true }
        else if list_empty b.socket
        then record { state = s'; sent = sent; handled = []; inbox = b'; quits = false }
        else record out { sent = sent ++ out.sent }
