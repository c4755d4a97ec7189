-- ===== src/Installer/Request/Tests.antt =====
-- The decoding of src/services/installer/installer_service.cpp on messages.
use jappeos_core.Installer.Exception.{type_mismatch, invalid_signature, thrown}
use jappeos_core.Installer.Data.{create, set_mountpoint, custom, InstallData}
use jappeos_core.Installer.Request.{
  find_or, decode_resize, text_variant, decode_set_mountpoint, decode_operation, OperationArg,
  decode_plan,
}
use jappeos_core.Installer.Request.Wire.{decode-encode_plan, encode_plan}
use jappeos_core.Prelude.{◌≡◌, refl, true, false, [], ◌∷◌, nat_eq, string_eq, ok, err}

abbrev wanted : InstallData
wanted = record {
  hostname = 97 ∷ [];
  username = 98 ∷ [];
  password = "secret";
  timezone = "Europe/Helsinki";
  locale = "fi_FI.UTF-8";
  keyboard_layout = "fi";
  keyboard_variant = "classic";
  disk = record {
    device = "/dev/sda";
    mode = custom;
    mounts = [];
    operations =
        create (record {
          region = "/dev/sda#free-0";
          size_mib = 600;
          remaining = false;
          filesystem = "fat32";
          mountpoint = "/boot";
        })
        ∷ set_mountpoint (record { partition = "/dev/sda2"; mountpoint = "/" })
        ∷ [];
  };
  install_proprietary = true;
  install_recommended_drivers = false;
}

decode-encode_plan_example : decode_plan (encode_plan wanted) ≡ ok wanted
decode-encode_plan_example = decode-encode_plan wanted tt

abbrev nameless : OperationArg
nameless = record { kind = 3; options = ("mountpoint", text_variant "/") ∷ [] }

nameless_decodes :
    decode_operation nameless ≡ ok (set_mountpoint (record { partition = ""; mountpoint = "/" }))
unfolding decode_operation decode_set_mountpoint find_or
nameless_decodes = refl

-- A size that is sent as a text is refused.
ill_typed :
    decode_operation (record {
      kind = 1;
      options = ("partition", text_variant "a") ∷ ("sizeMiB", text_variant "7") ∷ [];
    })
    ≡ err (thrown invalid_signature type_mismatch)
unfolding decode_operation decode_resize find_or
ill_typed = refl
