-- ===== src/Bus/Rules.antt =====
-- The match rules of the subscriptions of a connection over its life (src/dbus/dbus_wrapper.cpp).
use jappeos_core.Prelude.{
  subst, ℕ, zero, suc, ◌+◌, ◌≡◌, refl, sym, ap, ◌∙◌, inl, inr, Bool, true, false, Option, none,
  some, List, [], ◌∷◌, ◌++◌, if◌then◌else◌, if_elim, Bool-cases, list_beq, list_beq_refl,
  list_beq-path, nat_eq, ◌==◌, Bytes, length, length-append, every, count_if, All, arith,
}
use jappeos_core.Bus.Subscriptions.{
  SignalKey, same_key, Rule, same_rule, Slot, Signals, Subscription, set_handlers, add_match,
  drop_rule, remove_match, subscribe_signal, reset, is_reset, unsubscribe_signal, same_key_refl,
  same_key-path,
}

same_rule-path : (r t : Rule) → same_rule r t ≡ true → r ≡ t
unfolding same_rule
same_rule-path r t h = elim (Bool-cases (list_beq r.bus_name t.bus_name)) [
  | inl e ↦
      let b = list_beq-path r.bus_name t.bus_name e in
      let k = same_key-path r.key t.key (rw e at h) in cc
  | inr e ↦ absurd (let g : false ≡ true = rw e at h in cc)
]

-- What the bus drops is one rule that is the same.
drop_rule-some :
    (p : Rule → Bool) (r : Rule) (ts us : List Rule)
    → drop_rule r ts ≡ some us
    → count_if p ts ≡ count_if p us + (if p r then 1 else 0)
unfolding drop_rule
drop_rule-some p r [] us h = cc
drop_rule-some p r (t ∷ ts) us h = elim (Bool-cases (same_rule r t)) [
  | inl e ↦
      let same = same_rule-path r t e in
      let rest : ts ≡ us = some-inj (rw e at h) in
      omega (arith, ap (λ x. count_if p (x ∷ [])) same, ap (count_if p) rest)
  | inr e ↦ later (drop_rule r ts) (λ vs g. drop_rule-some p r ts vs g) (rw (drop_rule, e) at h)
]
  where
    some-inj : {x y : List Rule} → some x ≡ some y → x ≡ y
    some-inj h = cc

    later :
        (o : Option (List Rule))
        → ((vs : List Rule) → o ≡ some vs → count_if p ts ≡ count_if p vs + (if p r then 1 else 0))
        → Path (Option (List Rule)) (elim o [ none ↦ none | some vs ↦ some (t ∷ vs) ]) (some us)
        → count_if p (t ∷ ts) ≡ count_if p us + (if p r then 1 else 0)
    later none ih g = cc
    later (some vs) ih g =
        let same : (t ∷ vs) ≡ us = some-inj g in omega (arith, ih vs refl, ap (count_if p) same)

drop_rule-none : (r : Rule) (ts : List Rule) → drop_rule r ts ≡ none → count_if (same_rule r) ts ≡ 0
unfolding drop_rule
drop_rule-none r [] h = refl
drop_rule-none r (t ∷ ts) h = elim (Bool-cases (same_rule r t)) [
  | inl e ↦ absurd (some-none (rw (drop_rule, e) at h))
  | inr e ↦ rw e (later (drop_rule r ts) (λ g. drop_rule-none r ts g) (rw (drop_rule, e) at h))
]
  where
    some-none : {x : List Rule} → Path (Option (List Rule)) (some x) none → ⊥
    some-none h = cc

    later :
        (o : Option (List Rule))
        → (o ≡ none → count_if (same_rule r) ts ≡ 0)
        → Path (Option (List Rule)) (elim o [ none ↦ none | some vs ↦ some (t ∷ vs) ]) none
        → 0 + count_if (same_rule r) ts ≡ 0
    later none ih g = omega (arith, ih refl)
    later (some vs) ih g = cc

-- Subscriptions begin and end.
pub data SignalEvent : Type 0 where
  begins : Bytes → SignalKey → ℕ → SignalEvent
  ends : Subscription → SignalEvent

-- A history, until the program ends; the bus accepts all rules.
unfoldable pub run_signals : Bool → List SignalEvent → Signals → Bool × Signals
unfolding subscribe_signal unsubscribe_signal
run_signals peer [] s = (true, s)
run_signals peer (begins bus k h ∷ es) s =
    run_signals peer es (subscribe_signal peer true bus k h s).1
run_signals peer (ends sub ∷ es) s =
    let (goes_on, s') = unsubscribe_signal peer sub s in
    let rest = run_signals peer es s' in if goes_on then rest else (false, s')

abbrev as_number : Bool → ℕ
as_number b = if b then 1 else 0

module _ (bus_of : SignalKey → Bytes) where
  abbrev pub rule_of : SignalKey → Rule
  rule_of k = record { bus_name = bus_of k; key = k }

  -- All subscriptions of a signal name the same sender.
  abbrev pub FromOneBus : SignalEvent → Type 0
  FromOneBus (begins bus k h) = bus ≡ bus_of k
  FromOneBus (ends sub) = sub.rule ≡ rule_of sub.rule.key

  -- A signal has one rule if there is an entry for it, and none otherwise.
  abbrev pub Fits : Option (List Slot) → ℕ → Type 0
  Fits none n = n ≡ 0
  Fits (some []) n = ⊥
  Fits (some (x ∷ xs)) n = n ≡ 1

  abbrev pub rules_for : SignalKey → Signals → ℕ
  rules_for k s = count_if (same_rule (rule_of k)) s.rules

  abbrev pub AreRuled : Signals → Type 0
  AreRuled s = (k : SignalKey) → Fits (s.handlers k) (rules_for k s)

  rule_of-same : (k : SignalKey) → same_rule (rule_of k) (rule_of k) ≡ true
  unfolding same_rule
  rule_of-same k = rw (list_beq_refl (bus_of k)) (same_key_refl k)

  rule_of-other :
      (j k : SignalKey) → same_key j k ≡ false → same_rule (rule_of j) (rule_of k) ≡ false
  unfolding same_rule
  rule_of-other j k h =
      if_elim (λ (b : Bool). b ≡ false) (list_beq (bus_of j) (bus_of k)) (λ e. h) (λ e. refl)

  -- One entry of the map is set, and the rules for its signal change with it.
  set_handlers-AreRuled :
      (k : SignalKey) (l : Option (List Slot)) (s : Signals) (ts : List Rule)
      → AreRuled s
      → Fits l (count_if (same_rule (rule_of k)) ts)
      → ((j : SignalKey)
          → same_key j k ≡ false
          → count_if (same_rule (rule_of j)) ts ≡ rules_for j s)
      → AreRuled (set_handlers k l (record s { rules = ts }))
  unfolding set_handlers
  set_handlers-AreRuled k l s ts ruled here others = λ j. elim (Bool-cases (same_key j k)) [
    | inl e ↦
        let same = same_key-path j k e in
        rw e (subst (λ x. Fits l (count_if (same_rule (rule_of x)) ts)) (sym same) here)
    | inr e ↦ rw e (subst (Fits (s.handlers j)) (sym (others j e)) (ruled j))
  ]

  begins-AreRuled :
      (k : SignalKey) (h : ℕ) (s : Signals)
      → AreRuled s
      → AreRuled (subscribe_signal false true (bus_of k) k h s).1
  unfolding subscribe_signal add_match
  begins-AreRuled k h s inv = entry (s.handlers k) refl (inv k)
    where
      entry :
          (o : Option (List Slot))
          → s.handlers k ≡ o
          → Fits o (rules_for k s)
          → AreRuled (subscribe_signal false true (bus_of k) k h s).1
      entry none e fits =
          rw (subscribe_signal, e, add_match)
            (set_handlers-AreRuled k (some (some h ∷ [])) s (rule_of k ∷ s.rules) inv
              (rw (rule_of-same k) (omega (arith, fits)))
              (λ j f. rw (rule_of-other j k f) (omega arith)))
      entry (some []) e fits = absurd fits
      entry (some (x ∷ xs)) e fits =
          let more : (length ((x ∷ xs) ++ some h ∷ []) == 1) ≡ false =
            ground (arith, length-append xs (some h ∷ [])) in
          rw (subscribe_signal, e, more)
            (set_handlers-AreRuled k (some ((x ∷ xs) ++ some h ∷ [])) s s.rules inv fits
              (λ j f. refl))

  reset-Fits : (i : ℕ) (l : List Slot) (n : ℕ) → Fits (some l) n → Fits (some (reset i l)) n
  reset-Fits i [] n h = h
  reset-Fits zero (x ∷ xs) n h = h
  reset-Fits (suc i) (x ∷ xs) n h = h

  -- The end of a subscription goes on, and keeps the rules right.
  ends-AreRuled :
      (k : SignalKey) (i : ℕ) (b : Bool) (s : Signals)
      → AreRuled s
      → let out =
          unsubscribe_signal false (record { rule = rule_of k; index = i; is_active = b }) s in
        (out.0 ≡ true) × AreRuled out.1
  unfolding unsubscribe_signal remove_match
  ends-AreRuled k i false s inv = (refl, inv)
  ends-AreRuled k i true s inv = entry (s.handlers k) refl (inv k)
    where
      sub : Subscription
      sub = record { rule = rule_of k; index = i; is_active = true }

      Kept : Bool × Signals → Type 0
      Kept out = (out.0 ≡ true) × AreRuled out.1

      dropped :
          (l : List Slot)
          → s.handlers k ≡ some l
          → rules_for k s ≡ 1
          → every is_reset (reset i l) ≡ true
          → (o : Option (List Rule)) → drop_rule (rule_of k) s.rules ≡ o
          → Kept (unsubscribe_signal false sub s)
      dropped l e one all none f = absurd (omega (arith, one, drop_rule-none (rule_of k) s.rules f))
      dropped l e one all (some ts) f =
          let count = λ (p : Rule → Bool). drop_rule-some p (rule_of k) s.rules ts f in
          let here : count_if (same_rule (rule_of k)) ts ≡ 0 =
            omega (arith, one, count (same_rule (rule_of k)), ap as_number (rule_of-same k)) in
          rw (unsubscribe_signal, e, remove_match, f, all)
            (
              refl,
              set_handlers-AreRuled k none s ts inv here (λ j g.
                  omega (arith, count (same_rule (rule_of j)), ap as_number (rule_of-other j k g))),
            )

      entry :
          (o : Option (List Slot))
          → s.handlers k ≡ o
          → Fits o (rules_for k s)
          → Kept (unsubscribe_signal false sub s)
      entry none e fits = rw (unsubscribe_signal, e) (refl, inv)
      entry (some []) e fits = absurd fits
      entry (some (x ∷ xs)) e fits = elim (Bool-cases (every is_reset (reset i (x ∷ xs)))) [
        | inl all ↦ dropped (x ∷ xs) e fits all (drop_rule (rule_of k) s.rules) refl
        | inr some_left ↦
            rw (unsubscribe_signal, e, some_left)
              (
                refl,
                set_handlers-AreRuled k (some (reset i (x ∷ xs))) s s.rules inv
                    (reset-Fits i (x ∷ xs) _ fits) (λ j f. refl),
              )
      ]

  run_signals-AreRuled :
      (es : List SignalEvent) (s : Signals)
      → All FromOneBus es
      → AreRuled s
      → ((run_signals false es s).0 ≡ true) × AreRuled (run_signals false es s).1
  unfolding run_signals
  run_signals-AreRuled [] s from inv = (refl, inv)
  run_signals-AreRuled (begins bus k h ∷ es) s from inv =
      let ruled =
        subst (λ b. AreRuled (subscribe_signal false true b k h s).1) (sym from.0)
          (begins-AreRuled k h s inv) in
      run_signals-AreRuled es (subscribe_signal false true bus k h s).1 from.1 ruled
  run_signals-AreRuled (ends sub ∷ es) s from inv =
      let (goes_on, ruled) =
        subst
          (λ r.
            let out = unsubscribe_signal false (record sub { rule = r }) s in
            (out.0 ≡ true) × AreRuled out.1)
          (sym from.0) (ends-AreRuled sub.rule.key sub.index sub.is_active s inv) in
      let rest = run_signals-AreRuled es (unsubscribe_signal false sub s).1 from.1 ruled in
      if_elim (λ (out : Bool × Signals). (out.0 ≡ true) × AreRuled out.1)
        (unsubscribe_signal false sub s).0 (λ e. rest)
        (λ e. absurd (let f : true ≡ false = sym goes_on ∙ e in cc))

abbrev pub no_signals : Signals
no_signals = record { handlers = λ k. none; rules = [] }

-- While the bus accepts all rules, and all subscriptions of a signal name the same sender: in every
-- history of subscriptions that begin and end, no end of a subscription ends the program, and the
-- bus has one match rule for each signal with an entry in `_signalHandlers`, and none for the others.
pub run_signals-rules :
    (bus_of : SignalKey → Bytes) (es : List SignalEvent)
    → All (FromOneBus bus_of) es
    → let out = run_signals false es no_signals in (out.0 ≡ true) × AreRuled bus_of out.1
run_signals-rules bus_of es from = run_signals-AreRuled bus_of es no_signals from (λ k. refl)
