-- ===== src/Bus/Dispatch/Replies.antt =====
-- The replies to a method call (src/dbus/dbus_wrapper.cpp).
use jappeos_core.Prelude.{
  ap, suc, bind-Ensures_all, ◌≡◌, refl, Bool, true, false, Option, none, some, List, [], ◌∷◌, ◌++◌,
  if◌then◌else◌, if_elim, list_beq, nat_eq, Bytes, codes, Result, ok, err, Ensures, value, error,
  or_throw-Ensures, count_if-append, All, arith,
}
use jappeos_core.Bus.Subscriptions.{Signals}
use jappeos_core.Bus.Variant.{Failure, dbus_exception, standard, variant_arg}
use jappeos_core.Bus.Objects.{
  Message, Sent, failure, Outcome, Interface, Object, Handled, find_name, failed, handles,
  handle_get_property, handle_set_property, handle_get_all_properties, dispatch, unknown_interface,
  text_args, target_interface,
}
use jappeos_core.Bus.Dispatch.{
  get_target, set_target, get_all_target, dispatch_properties, dispatch_exception_handler,
  unhandled, object_handle_message, handle_message,
}
use jappeos_core.Bus.Objects.Replies.{
  is_reply, replies, nat_refl, find_name-All, Replying, Settled, failed-Settled, handles-Settled,
  dispatch-Settled, handle_get_property-Ends, handle_get_all_properties-Ends,
  handle_set_property-Ends,
}

module _ {S : Type 0} where
  abbrev pub AllReplying : Object S → Type 0
  AllReplying o = All (λ entry. Replying entry.1) o.interfaces

  module _ (c : Message) (s : S) where
    abbrev pub Answered : Handled S → Type 0
    Answered h =
        (replies c.serial h.sent ≡ (if h.handled then 1 else 0))
        × (h.handled ≡ false → (h.state ≡ s) × (h.sent ≡ []))

    set_target-Ensures :
        (o : Object S) → AllReplying o → Ensures (λ t. Replying t.2) (set_target o c)
    set_target-Ensures o h = bind-Ensures_all (text_args c.args) (λ t.
        bind-Ensures_all (variant_arg t.2) (λ v. bind-Ensures_all (target_interface t.0) (λ target.
          or_throw-Ensures (find_name target o.interfaces) unknown_interface
            (λ i found. value (find_name-All Replying target o.interfaces i h found)))))

    dispatch_properties-Settled :
        (o : Object S) → AllReplying o → Settled c s (dispatch_properties o c s)
    unfolding dispatch_properties
    dispatch_properties-Settled o h =
        if_elim (Settled c s) (list_beq c.member (codes "Get")) (λ e. getting (get_target o c))
          (λ e.
            if_elim (Settled c s) (list_beq c.member (codes "Set"))
              (λ f. setting (set_target-Ensures o h))
              (λ f.
                if_elim (Settled c s) (list_beq c.member (codes "GetAll"))
                  (λ g. all_getting (get_all_target o c)) (λ g. (refl, λ f. (refl, refl)))))
      where
        getting :
            (r : Result Failure (Bytes × Bytes × Interface S))
            → Settled c s (elim r [
              | err e ↦ failed s e
              | ok (target, name, i) ↦ handles (handle_get_property i c target name s)
            ])
        getting (err e) = failed-Settled c s e
        getting (ok (target, name, i)) =
            handles-Settled c s (handle_get_property i c target name s)
              (handle_get_property-Ends c s i target name)

        setting :
            {r : Result Failure (Bytes × Bytes × Interface S)}
            → Ensures (λ t. Replying t.2) r
            → Settled c s (elim r [
              | err e ↦ failed s e
              | ok (target, name, i) ↦ handles (handle_set_property i c target name s)
            ])
        setting (error {e = e}) = failed-Settled c s e
        setting (value {a = (target, name, i)} q) =
            handles-Settled c s (handle_set_property i c target name s)
              (handle_set_property-Ends c s i target name q)

        all_getting :
            (r : Result Failure (Bytes × Interface S))
            → Settled c s (elim r [
              | err e ↦ failed s e
              | ok (target, i) ↦ handles (handle_get_all_properties i c target s)
            ])
        all_getting (err e) = failed-Settled c s e
        all_getting (ok (target, i)) =
            handles-Settled c s (handle_get_all_properties i c target s)
              (handle_get_all_properties-Ends c s i target)

    dispatch_exception_handler-Answered :
        (out : Outcome S Bool) → Settled c s out → Answered (dispatch_exception_handler c out)
    unfolding dispatch_exception_handler
    dispatch_exception_handler-Answered out h = entry out.state out.sent out.result h
      where
        one_more :
            (ms : List Sent) (m : Sent)
            → is_reply c.serial m ≡ true
            → replies c.serial (ms ++ m ∷ []) ≡ suc (replies c.serial ms)
        one_more ms m e = rw (count_if-append (is_reply c.serial) ms (m ∷ []), e) (omega arith)

        entry :
            (t : S) (ms : List Sent) (r : Result Failure Bool)
            → let out : Outcome S Bool = record { state = t; sent = ms; result = r } in
              Settled c s out → Answered (dispatch_exception_handler c out)
        entry t ms (ok b) q = (q.0, λ e. q.1 (ap ok e))
        entry t ms (err (dbus_exception code text)) q = (
          omega (arith, q.0, one_more ms (failure c.serial code text) (nat_refl c.serial)),
          λ e. cc,
        )
        entry t ms (err (standard text)) q =
            let code = codes "org.freedesktop.DBus.Error.Failed" in
            (
              omega (arith, q.0, one_more ms (failure c.serial code text) (nat_refl c.serial)),
              λ e. cc,
            )

    unhandled-Answered : Answered (unhandled s)
    unhandled-Answered = (refl, λ e. (refl, refl))

    object_handle_message-Answered :
        (o : Object S) → AllReplying o → Answered (object_handle_message o c s)
    unfolding object_handle_message
    object_handle_message-Answered o h = entry c.interface refl
      where
        found :
            (interface : Bytes) (r : Option (Interface S))
            → find_name interface o.interfaces ≡ r
            → Answered (elim r [
              | none ↦ unhandled s
              | some i ↦ dispatch_exception_handler c (dispatch i c s)
            ])
        found interface none e = unhandled-Answered
        found interface (some i) e =
            let replying = find_name-All Replying interface o.interfaces i h e in
            dispatch_exception_handler-Answered (dispatch i c s) (dispatch-Settled c s i replying)

        entry : (r : Option Bytes) → c.interface ≡ r → Answered (object_handle_message o c s)
        entry none e = rw (object_handle_message, e) unhandled-Answered
        entry (some interface) e =
            rw (object_handle_message, e)
              (if_elim Answered (list_beq interface (codes "org.freedesktop.DBus.Properties"))
                (λ f.
                  dispatch_exception_handler-Answered (dispatch_properties o c s)
                    (dispatch_properties-Settled o h))
                (λ f. found interface (find_name interface o.interfaces) refl))

-- While methods reply once or throw without a reply, and setters do not reply: a method call that
-- is handled, also by an exception, is replied to exactly once, and one that is not handled has
-- changed nothing and nothing is sent.
pub handle_message-Answered :
    {S : Type 0} (signals : Signals) (objects : List (Bytes × Object S)) (c : Message) (s : S)
    → All (λ entry. AllReplying entry.1) objects
    → c.is_signal ≡ false
    → Answered c s (handle_message signals objects c s)
unfolding handle_message
handle_message-Answered {S} signals objects c s h call = entry c.path refl
  where
    entry : (r : Option Bytes) → c.path ≡ r → Answered c s (handle_message signals objects c s)
    entry none e = rw (handle_message, call, e) (unhandled-Answered c s)
    entry (some path) e = rw (handle_message, call, e) (found (find_name path objects) refl)
      where
        found :
            (r : Option (Object S))
            → find_name path objects ≡ r
            → Answered c s (elim r [ none ↦ unhandled s | some o ↦ object_handle_message o c s ])
        found none f = unhandled-Answered c s
        found (some o) f =
            object_handle_message-Answered c s o (find_name-All AllReplying path objects o h f)
