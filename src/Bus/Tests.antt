-- ===== src/Bus/Tests.antt =====
-- Names on the bus, subscriptions and a settable property (src/dbus).
use jappeos_core.Prelude.{
  ◌≡◌, refl, true, false, List, [], ◌∷◌, nat_eq, ◌++◌, Bytes, codes, some, none, arith,
}
use jappeos_core.Bus.ObjectPath.{
  object_path, parent, is_valid_path, is_valid_interface, interface_name, interface_child,
  interface_parent,
}
use jappeos_core.Bus.Pieces.{Extends, child-leaf_parent, is_valid_interface-dot}
use jappeos_core.Bus.Encoding.{encode_for_object_path, encode-inj}
use jappeos_core.Bus.Subscriptions.{SignalKey, subscribe_signal}
use jappeos_core.Bus.Rules.{
  begins, ends, SignalEvent, run_signals, no_signals, AreRuled, run_signals-rules,
}
use jappeos_core.Bus.Variant.{variant}
use jappeos_core.Bus.Objects.{Message, answer, Object, properties_changed}
use jappeos_core.Bus.Dispatch.{handle_message}
use jappeos_core.Bus.Dispatch.Replies.{Answered, handle_message-Answered}
use jappeos_core.Bus.Prop.{
  Place, Values, text, prop_property, prop_property-SetsQuietly, set_props, follow_all,
  set_props-follow_all,
}

child-leaf_parent_example : (q : Bytes) × Extends (codes "/com/jappeos") (codes "Wlan0") q
unfolding is_valid_path
child-leaf_parent_example = child-leaf_parent (codes "/com/jappeos") (codes "Wlan0") refl refl

is_valid_interface-dot_example : is_valid_interface (codes "com.jappeos.Core" ++ codes ".") ≡ true
unfolding is_valid_interface
is_valid_interface-dot_example = is_valid_interface-dot (codes "com.jappeos.Core") refl refl

encode-inj_example : codes "eth0.5" ≡ codes "eth0.5"
encode-inj_example =
    encode-inj (codes "eth0.5") (codes "eth0.5")
      (omega arith, (omega arith, (omega arith, (omega arith, (omega arith, (omega arith, tt))))))
      (omega arith, (omega arith, (omega arith, (omega arith, (omega arith, (omega arith, tt))))))
      (refl, (refl, (refl, (refl, (refl, (refl, tt))))))
      (refl, (refl, (refl, (refl, (refl, (refl, tt)))))) refl

no_double_slash : object_path (codes "/com//jappeos") ≡ none
unfolding object_path is_valid_path
no_double_slash = refl

above_wlan : parent (codes "/com") ≡ some (codes "/")
unfolding parent object_path is_valid_path
above_wlan = refl

child_of_interface : interface_child (codes "com") (codes "jappeos") ≡ some (codes "com.jappeos")
unfolding interface_child interface_name is_valid_interface
child_of_interface = refl

parent_of_interface : interface_parent (codes "com.jappeos") ≡ some (codes "com")
unfolding interface_parent interface_name is_valid_interface
parent_of_interface = refl

escapes_dash : encode_for_object_path (codes "a-b") ≡ codes "a_2Db"
unfolding encode_for_object_path
escapes_dash = refl

-- The escape character is not escaped itself.
collides : encode_for_object_path (codes "eth0.5") ≡ encode_for_object_path (codes "eth0_2E5")
unfolding encode_for_object_path
collides = refl

abbrev changed_key : SignalKey
changed_key = record {
  interface = codes "com.jappeos";
  member = codes "Changed";
  path = some (codes "/com");
}

abbrev bus_of : SignalKey → Bytes
bus_of k = codes "org.bus"

abbrev history : List SignalEvent
history =
    begins (codes "org.bus") changed_key 1
    ∷ begins (codes "org.bus") changed_key 2
    ∷ ends (record {
      rule = record { bus_name = codes "org.bus"; key = changed_key };
      index = 0;
      is_active = true;
    })
    ∷ []

run_signals-rules_example :
    let out = run_signals false history no_signals in (out.0 ≡ true) × AreRuled bus_of out.1
run_signals-rules_example = run_signals-rules bus_of history (refl, (refl, (refl, tt)))

-- The rule of the second subscription, which names another sender, was never added.
other_sender_ends_program :
    (run_signals false
      (begins (codes "org.bus") changed_key 1
        ∷ begins (codes "net.bus") changed_key 2
        ∷ ends (record {
          rule = record { bus_name = codes "org.bus"; key = changed_key };
          index = 0;
          is_active = true;
        })
        ∷ ends (record {
          rule = record { bus_name = codes "net.bus"; key = changed_key };
          index = 1;
          is_active = true;
        })
        ∷ [])
      no_signals).0
    ≡ false
unfolding run_signals
other_sender_ends_program = refl

-- After a refused rule, the entry stays, and the next subscription adds no rule.
refused_rule_is_not_retried :
    let refused = (subscribe_signal false false (codes "org.bus") changed_key 1 no_signals).1 in
    (subscribe_signal false true (codes "org.bus") changed_key 2 refused).1.rules ≡ []
unfolding subscribe_signal
refused_rule_is_not_retried = refl

abbrev locale : Place
locale = record { path = codes "/com"; interface = codes "com.jappeos"; name = codes "Locale" }

abbrev values : Values
values p = codes "C"

abbrev installer : Object Values
installer = record {
  path = codes "/com";
  interfaces =
      (
        codes "com.jappeos",
        record {
          name = codes "com.jappeos";
          methods = [];
          properties = (codes "Locale", prop_property true locale) ∷ [];
        },
      )
      ∷ [];
}

abbrev set_locale : Message
set_locale = record {
  serial = 7;
  is_signal = false;
  path = some (codes "/com");
  interface = some (codes "org.freedesktop.DBus.Properties");
  member = codes "Set";
  sender = codes ":1.5";
  args = text (codes "com.jappeos") ∷ text (codes "Locale") ∷ variant (text (codes "fi_FI")) ∷ [];
}

sets_and_replies :
    (handle_message no_signals ((codes "/com", installer) ∷ []) set_locale values).sent
    ≡ properties_changed
        (codes "/com")
        (codes "com.jappeos")
        ((codes "Locale", text (codes "fi_FI")) ∷ [])
      ∷ answer 7 []
      ∷ []
unfolding handle_message prop_property jappeos_core.Prelude.or_throw interface_name
    jappeos_core.Bus.Variant.signature
sets_and_replies = refl

handle_message-Answered_example :
    Answered set_locale values
      (handle_message no_signals ((codes "/com", installer) ∷ []) set_locale values)
handle_message-Answered_example =
    handle_message-Answered no_signals ((codes "/com", installer) ∷ []) set_locale values
      (((tt, (prop_property-SetsQuietly true locale, tt)), tt), tt) refl

set_props-follow_all_example :
    let (last, sent) = set_props ((locale, codes "fi_FI") ∷ (locale, codes "C") ∷ []) values in
    follow_all locale sent (codes "C") ≡ last locale
set_props-follow_all_example =
    set_props-follow_all ((locale, codes "fi_FI") ∷ (locale, codes "C") ∷ []) values locale
