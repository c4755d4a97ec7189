-- ===== src/Bus/Objects/Replies.antt =====
-- The replies of an interface to a method call (src/dbus/dbus_wrapper.cpp).
use jappeos_core.Prelude.{
  subst, ℕ, ◌≡◌, refl, inl, inr, Bool, true, false, Option, none, some, List, [], ◌∷◌, ◌++◌,
  if◌then◌else◌, if_elim, Bool-cases, list_beq, nat_eq, ◌==◌, Bytes, list_empty, Result, ok, err,
  or_throw, Ensures, value, error, require-Ensures, or_throw-Ensures, count_if, count_if-append,
  All, arith,
}
use jappeos_core.Bus.Variant.{Failure, Payload, variant}
use jappeos_core.Bus.Objects.{
  Message, Sent, answer, all_properties, failure, properties_changed, Outcome, Interface, find_name,
  failed, handles, handle_get_property, handle_set_property, handle_get_all_properties, dispatch,
  unknown_interface, unknown_property,
}

-- Is it a reply to the call with this serial number?
abbrev pub is_reply : ℕ → Sent → Bool
is_reply n (answer m ps) = m == n
is_reply n (all_properties m ps) = m == n
is_reply n (failure m code text) = m == n
is_reply n (properties_changed path interface values) = false

abbrev pub replies : ℕ → List Sent → ℕ
replies n = count_if (is_reply n)

pub nat_refl : (n : ℕ) → (n == n) ≡ true
nat_refl n = ground arith

one_reply : (n : ℕ) → replies n (answer n [] ∷ []) ≡ 1
one_reply n = rw (nat_refl n) refl

handled_or_not : Path (Result Failure Bool) (ok true) (ok false) → ⊥
handled_or_not f = let g : true ≡ false = same f in cc
  where
    same : {a b : Bool} → Path (Result Failure Bool) (ok a) (ok b) → a ≡ b
    same h = cc

module _ {A : Type 0} where
  pub find_name-All :
      (P : A → Type 0) (n : Bytes) (t : List (Bytes × A)) (a : A)
      → All (λ entry. P entry.1) t
      → find_name n t ≡ some a
      → P a
  unfolding find_name
  find_name-All P n [] a h e = cc
  find_name-All P n ((k, b) ∷ t) a h e = elim (Bool-cases (list_beq k n)) [
    | inl f ↦ let same : b ≡ a = some-inj (rw (find_name, f) at e) in subst P same h.0
    | inr f ↦ find_name-All P n t a h.1 (rw (find_name, f) at e)
  ]
    where
      some-inj : {x y : A} → some x ≡ some y → x ≡ y
      some-inj g = cc

module _ {S : Type 0} where
  -- The number of replies is that of the result, and none after an exception.
  abbrev pub Ends : {A : Type 0} → (A → ℕ) → ℕ → Outcome S A → Type 0
  Ends f n out = replies n out.sent ≡ (elim out.result [ ok a ↦ f a | err e ↦ 0 ])

  -- A method sends one reply, or throws without one.
  abbrev pub RepliesOnce : (Message → S → Outcome S (Unit {0})) → Type 0
  RepliesOnce m = (c : Message) (s : S) → Ends (λ u. 1) c.serial (m c s)

  abbrev pub NoReply : (Message → S → Outcome S (Unit {0})) → Type 0
  NoReply m = (c : Message) (s : S) → replies c.serial (m c s).sent ≡ 0

  -- The setter of a property, if it has one, sends no reply.
  abbrev pub SetsQuietly : Option (Message → S → Outcome S (Unit {0})) → Type 0
  SetsQuietly none = Unit
  SetsQuietly (some set) = NoReply set

  abbrev pub Replying : Interface S → Type 0
  Replying i =
      All (λ entry. RepliesOnce entry.1) i.methods
      × All (λ entry. SetsQuietly entry.1.setter) i.properties

  module _ (c : Message) (s : S) where
    pub handle_get_property-Ends :
        (i : Interface S) (interface name : Bytes)
        → Ends (λ u. 1) c.serial (handle_get_property i c interface name s)
    unfolding handle_get_property
    handle_get_property-Ends i interface name = entry _
      where
        entry :
            (r : Result Failure Payload)
            → Ends
                (λ (u : Unit {0}). 1)
                c.serial
                (elim r [
                  | err e ↦ failed s e
                  | ok v ↦ record {
                    state = s;
                    sent = answer c.serial (variant v ∷ []) ∷ [];
                    result = ok tt;
                  }
                ])
        entry (ok v) = rw (nat_refl c.serial) refl
        entry (err e) = refl

    pub handle_get_all_properties-Ends :
        (i : Interface S) (interface : Bytes)
        → Ends (λ u. 1) c.serial (handle_get_all_properties i c interface s)
    unfolding handle_get_all_properties
    handle_get_all_properties-Ends i interface = entry _
      where
        entry :
            (r : Result Failure (List (Bytes × Payload)))
            → Ends
                (λ (u : Unit {0}). 1)
                c.serial
                (elim r [
                  | err e ↦ failed s e
                  | ok vs ↦ record {
                    state = s;
                    sent = all_properties c.serial vs ∷ [];
                    result = ok tt;
                  }
                ])
        entry (ok vs) = rw (nat_refl c.serial) refl
        entry (err e) = refl

    pub handle_set_property-Ends :
        (i : Interface S) (interface name : Bytes)
        → Replying i
        → Ends (λ u. 1) c.serial (handle_set_property i c interface name s)
    unfolding handle_set_property or_throw
    handle_set_property-Ends i interface name h = entry (
        require-Ensures (list_beq interface i.name) unknown_interface (λ same.
          or_throw-Ensures (find_name name i.properties) unknown_property (λ p found.
            found_setter p.setter
              (find_name-All (λ x. SetsQuietly x.setter) name i.properties p h.1 found))))
      where
        found_setter :
            (o : Option (Message → S → Outcome S (Unit {0})))
            → SetsQuietly o
            → Ensures NoReply (or_throw o unknown_property)
        found_setter none q = error
        found_setter (some set) q = value q

        replied : Outcome S (Unit {0}) → Outcome S (Unit {0})
        replied out = elim out.result [
          | err e ↦ out
          | ok u ↦ record out { sent = out.sent ++ answer c.serial [] ∷ [] }
        ]

        replied-Ends :
            (t : S) (ms : List Sent) (r : Result Failure (Unit {0}))
            → replies c.serial ms ≡ 0
            → let out : Outcome S (Unit {0}) = record { state = t; sent = ms; result = r } in
              Ends (λ u. 1) c.serial (replied out)
        replied-Ends t ms (err e) q = q
        replied-Ends t ms (ok u) q = omega (
          arith,
          q,
          count_if-append (is_reply c.serial) ms (answer c.serial [] ∷ []),
          one_reply c.serial,
        )

        entry :
            {r : Result Failure (Message → S → Outcome S (Unit {0}))}
            → Ensures NoReply r
            → Ends
                (λ (u : Unit {0}). 1)
                c.serial
                (elim r [ err e ↦ failed s e | ok set ↦ replied (set c s) ])
        entry error = refl
        entry (value {a = set} q) =
            replied-Ends (set c s).state (set c s).sent (set c s).result (q c s)

    -- What is not handled has done nothing.
    abbrev pub Settled : Outcome S Bool → Type 0
    Settled out =
        Ends (λ b. if b then 1 else 0) c.serial out
        × (out.result ≡ ok false → (out.state ≡ s) × (out.sent ≡ []))

    pub failed-Settled : (e : Failure) → Settled (failed s e)
    failed-Settled e = (refl, λ f. cc)

    pub handles-Settled :
        (out : Outcome S (Unit {0})) → Ends (λ u. 1) c.serial out → Settled (handles out)
    handles-Settled out h = entry out.state out.sent out.result h
      where
        entry :
            (t : S) (ms : List Sent) (r : Result Failure (Unit {0}))
            → let out : Outcome S (Unit {0}) = record { state = t; sent = ms; result = r } in
              Ends (λ u. 1) c.serial out → Settled (handles out)
        entry t ms (ok u) q = (q, λ f. absurd (handled_or_not f))
        entry t ms (err e) q = (q, λ f. cc)

    pub dispatch-Settled : (i : Interface S) → Replying i → Settled (dispatch i c s)
    unfolding dispatch
    dispatch-Settled i h = entry (find_name c.member i.methods) refl
      where
        entry :
            (o : Option (Message → S → Outcome S (Unit {0})))
            → find_name c.member i.methods ≡ o
            → Settled (dispatch i c s)
        entry none e = rw (dispatch, e) (refl, λ f. (refl, refl))
        entry (some m) e =
            rw (dispatch, e)
              (if_elim Settled (list_empty c.sender) (λ f. failed-Settled _)
                (λ f.
                  handles-Settled (m c s)
                    (find_name-All RepliesOnce c.member i.methods m h.0 e c s)))
