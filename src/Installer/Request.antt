-- ===== src/Installer/Request.antt =====
-- `InstallerService::OnCreateInstallPlan` (src/services/installer/installer_service.cpp), the part
-- that decodes the arguments of the message. `GetArgs` has checked the signature of the message,
-- so an argument has its type; the type of a variant is checked by `DBusVariant::get`
-- (src/dbus/dbus_wrapper.h). The `std::map` of options is the list of its entries.
use jappeos_core.Installer.Storage.Validate.{Warning}
use jappeos_core.Installer.Plan.{on_create_install_plan, Installer}
use jappeos_core.Installer.Data.{
  other_mode, custom, manual, InstallData, set_filesystem, resize, erase, create, remove,
  set_mountpoint, Operation, DiskMode, MountData,
}
use jappeos_core.Installer.Exception.{
  type_mismatch, invalid_operation_type, invalid_signature, thrown, bad_args, Exception,
}
pub mod Wire
pub mod Begun
mod Tests
use jappeos_core.Prelude.{
  Bytes, ℕ, String, Bool, false, List, [], ◌∷◌, map, if◌then◌else◌, ◌==◌, nat_eq, string_eq, Result,
  ok, err, ◌>>=◌, ◌>>◌,
}

-- `DBusVariant`, by the types that the handler reads.
pub data Variant : Type 0 where
  text_variant : String → Variant
  u64_variant : ℕ → Variant
  bool_variant : Bool → Variant
  other_variant : Variant

abbrev pub Options : Type 0
Options = List (String × Variant)

pub record OperationArg : Type 0 where
  pub kind : ℕ
  pub options : Options

pub record DiskArg : Type 0 where
  pub device : String
  pub mode : ℕ
  pub mounts : List (String × String)
  pub operations : List OperationArg

-- The arguments in the order of the message.
pub record PlanArgs : Type 0 where
  pub hostname : Bytes
  pub username : Bytes
  pub password : String
  pub timezone : String
  pub locale : String
  pub keyboard_layout : String × String
  pub disk : DiskArg
  pub install_proprietary : Bool
  pub install_recommended_drivers : Bool

abbrev mismatch : Exception
mismatch = thrown invalid_signature type_mismatch

-- `DBusVariant::get<std::string>`, `get<uint64_t>` and `get<bool>`
abbrev pub get_text : Variant → Result Exception String
get_text (text_variant s) = ok s
get_text _ = err mismatch

abbrev pub get_u64 : Variant → Result Exception ℕ
get_u64 (u64_variant n) = ok n
get_u64 _ = err mismatch

abbrev pub get_bool : Variant → Result Exception Bool
get_bool (bool_variant b) = ok b
get_bool _ = err mismatch

-- `if (it = map.find(key); it != map.end()) value = it->second.get<T>();`
unfoldable pub find_or :
    {A : Type 0} → (Variant → Result Exception A) → A → String → Options → Result Exception A
find_or get default key [] = ok default
find_or get default key ((k, v) ∷ m) = if k == key then get v else find_or get default key m

abbrev pub find_text : String → Options → Result Exception String
find_text = find_or get_text ""

unfoldable pub decode_create : Options → Result Exception Operation
decode_create m = do
  region ← find_text "region" m
  size_mib ← find_or get_u64 0 "sizeMiB" m
  remaining ← find_or get_bool false "remaining" m
  filesystem ← find_text "filesystem" m
  mountpoint ← find_text "mountpoint" m
  ok (
      create (record {
        region = region;
        size_mib = size_mib;
        remaining = remaining;
        filesystem = filesystem;
        mountpoint = mountpoint;
      }))

unfoldable pub decode_resize : Options → Result Exception Operation
decode_resize m = do
  partition ← find_text "partition" m
  size_mib ← find_or get_u64 0 "sizeMiB" m
  remaining ← find_or get_bool false "remaining" m
  ok (resize (record { partition = partition; size_mib = size_mib; remaining = remaining }))

unfoldable pub decode_remove : Options → Result Exception Operation
decode_remove m = do
  partition ← find_text "partition" m
  ok (remove (record { partition = partition }))

unfoldable pub decode_set_mountpoint : Options → Result Exception Operation
decode_set_mountpoint m = do
  partition ← find_text "partition" m
  mountpoint ← find_text "mountpoint" m
  ok (set_mountpoint (record { partition = partition; mountpoint = mountpoint }))

unfoldable pub decode_set_filesystem : Options → Result Exception Operation
decode_set_filesystem m = do
  partition ← find_text "partition" m
  filesystem ← find_text "filesystem" m
  ok (set_filesystem (record { partition = partition; filesystem = filesystem }))

-- The `switch` on the type: the enumerators count from 0.
unfoldable pub decode_operation : OperationArg → Result Exception Operation
unfolding decode_create decode_resize decode_remove decode_set_mountpoint decode_set_filesystem
decode_operation a =
    if a.kind == 0
    then decode_create a.options
    else if a.kind == 1
    then decode_resize a.options
    else if a.kind == 2
    then decode_remove a.options
    else if a.kind == 3
    then decode_set_mountpoint a.options
    else if a.kind == 4
    then decode_set_filesystem a.options
    else err (bad_args invalid_operation_type)

unfoldable pub decode_operations : List OperationArg → Result Exception (List Operation)
decode_operations [] = ok []
decode_operations (a ∷ rest) = do o ← decode_operation a; os ← decode_operations rest; ok (o ∷ os)

-- `static_cast<InstallDiskMode>`
abbrev pub decode_mode : ℕ → DiskMode
decode_mode n =
    if n == 0 then erase else if n == 1 then manual else if n == 2 then custom else other_mode n

abbrev pub decode_mount : String × String → MountData
decode_mount (partition, mountpoint) = record { partition = partition; mountpoint = mountpoint }

abbrev pub plan_data : PlanArgs → List Operation → InstallData
plan_data a os = record {
  hostname = a.hostname;
  username = a.username;
  password = a.password;
  timezone = a.timezone;
  locale = a.locale;
  keyboard_layout = a.keyboard_layout.0;
  keyboard_variant = a.keyboard_layout.1;
  disk = record {
    device = a.disk.device;
    mode = decode_mode a.disk.mode;
    mounts = map decode_mount a.disk.mounts;
    operations = os;
  };
  install_proprietary = a.install_proprietary;
  install_recommended_drivers = a.install_recommended_drivers;
}

unfoldable pub decode_plan : PlanArgs → Result Exception InstallData
unfolding decode_operations decode_operation
decode_plan a = do os ← decode_operations a.disk.operations; ok (plan_data a os)

-- The whole handler: the operations are decoded before the state of the service is looked at.
unfoldable pub create_install_plan :
    (Bytes → Bool) → ℕ → PlanArgs → Installer → Result Exception (Installer × (ℕ × List Warning))
unfolding decode_plan
create_install_plan getpwnam fresh a s = do
  d ← decode_plan a
  on_create_install_plan getpwnam fresh d s
