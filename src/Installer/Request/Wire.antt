-- ===== src/Installer/Request/Wire.antt =====
-- What a client has to send for the decoding of src/services/installer/installer_service.cpp to
-- yield the operation that it means.
use jappeos_core.Installer.Exception.{missing_partition, missing_region, Exception, fail_with}
use jappeos_core.Installer.Storage.Operations.{
  apply_set_filesystem, apply_remove, apply_resize, apply_set_mountpoint, apply_create,
  apply_operation,
}
use jappeos_core.Installer.Request.{
  get_bool, get_u64, find_text, get_text, decode_mount, bool_variant, decode_set_filesystem,
  u64_variant, decode_set_mountpoint, text_variant, decode_remove, decode_resize, Variant, PlanArgs,
  decode_mode, Options, decode_create, OperationArg, decode_plan, find_or, decode_operations,
  decode_operation,
}
use jappeos_core.Installer.Data.{
  SetFilesystemData, ResizeData, SetMountpointData, CreateData, RemoveData, set_filesystem,
  set_mountpoint, remove, resize, custom, manual, erase, create, InstallData, Partition, MountData,
  other_mode, Operation, DiskMode,
}
use jappeos_core.Prelude.{
  bind-Ensures_all, false, if_Ensures, Ensures, value, error, bind-Ensures, Ensures-ok, ℕ, ◌≤◌,
  String, ◌≡◌, refl, ◌≢◌, ◌⊎◌, inl, inr, List, [], ◌∷◌, map, arith, ◌==◌, nat_eq, string_eq, eq_iff,
  All, Result, ok, err, reject,
}

-- The message of a client, written from the data that it wants the service to have.
abbrev encode_operation : Operation → OperationArg
encode_operation (create o) = record {
  kind = 0;
  options =
      ("region", text_variant o.region)
      ∷ ("sizeMiB", u64_variant o.size_mib)
      ∷ ("remaining", bool_variant o.remaining)
      ∷ ("filesystem", text_variant o.filesystem)
      ∷ ("mountpoint", text_variant o.mountpoint)
      ∷ [];
}
encode_operation (resize o) = record {
  kind = 1;
  options =
      ("partition", text_variant o.partition)
      ∷ ("sizeMiB", u64_variant o.size_mib)
      ∷ ("remaining", bool_variant o.remaining)
      ∷ [];
}
encode_operation (remove o) = record {
  kind = 2;
  options = ("partition", text_variant o.partition) ∷ [];
}
encode_operation (set_mountpoint o) = record {
  kind = 3;
  options =
      ("partition", text_variant o.partition) ∷ ("mountpoint", text_variant o.mountpoint) ∷ [];
}
encode_operation (set_filesystem o) = record {
  kind = 4;
  options =
      ("partition", text_variant o.partition) ∷ ("filesystem", text_variant o.filesystem) ∷ [];
}

encode_operation_lem : (o : Operation) → decode_operation (encode_operation o) ≡ ok o
unfolding decode_operation decode_create decode_resize decode_remove decode_set_mountpoint
    decode_set_filesystem find_or
encode_operation_lem (create o) = refl
encode_operation_lem (resize o) = refl
encode_operation_lem (remove o) = refl
encode_operation_lem (set_mountpoint o) = refl
encode_operation_lem (set_filesystem o) = refl

encode_operations_lem : (os : List Operation) → decode_operations (map encode_operation os) ≡ ok os
unfolding decode_operations
encode_operations_lem [] = refl
encode_operations_lem (o ∷ os) = rw (encode_operation_lem o, encode_operations_lem os)

abbrev encode_mode : DiskMode → ℕ
encode_mode erase = 0
encode_mode manual = 1
encode_mode custom = 2
encode_mode (other_mode n) = n

-- The number of a mode that is no enumerator is none of theirs.
abbrev pub IsMode : DiskMode → Type 0
IsMode (other_mode n) = 3 ≤ n
IsMode _ = Unit

encode_mode_lem : (m : DiskMode) → IsMode m → decode_mode (encode_mode m) ≡ m
encode_mode_lem erase h = refl
encode_mode_lem manual h = refl
encode_mode_lem custom h = refl
encode_mode_lem (other_mode n) h = ground arith

abbrev encode_mount : MountData → String × String
encode_mount m = (m.partition, m.mountpoint)

decode-encode_mounts : (ms : List MountData) → map decode_mount (map encode_mount ms) ≡ ms
decode-encode_mounts [] = refl
decode-encode_mounts (m ∷ ms) = rw (decode-encode_mounts ms)

abbrev pub encode_plan : InstallData → PlanArgs
encode_plan d = record {
  hostname = d.hostname;
  username = d.username;
  password = d.password;
  timezone = d.timezone;
  locale = d.locale;
  keyboard_layout = (d.keyboard_layout, d.keyboard_variant);
  disk = record {
    device = d.disk.device;
    mode = encode_mode d.disk.mode;
    mounts = map encode_mount d.disk.mounts;
    operations = map encode_operation d.disk.operations;
  };
  install_proprietary = d.install_proprietary;
  install_recommended_drivers = d.install_recommended_drivers;
}

-- The handler reads back whatever install data a client writes into a message under the documented
-- keys, as long as the number of an unknown mode is none of the enumerators'.
pub decode-encode_plan : (d : InstallData) → IsMode d.disk.mode → decode_plan (encode_plan d) ≡ ok d
unfolding decode_plan
decode-encode_plan d h = rw (
  encode_operations_lem d.disk.operations,
  encode_mode_lem d.disk.mode h,
  decode-encode_mounts d.disk.mounts,
)

-- No option has this key.
abbrev pub Lacks : String → Options → Type 0
Lacks key = All (λ e. e.0 ≢ key)

distinct : (k key : String) → k ≢ key → (k == key) ≡ false
distinct k key h = ground (arith, eq_iff k key)

find_or-Lacks :
    {A : Type 0} (get : Variant → Result Exception A) (default : A) (key : String) (m : Options)
    → Lacks key m
    → Ensures (λ v. v ≡ default) (find_or get default key m)
unfolding find_or
find_or-Lacks get default key [] h = value refl
find_or-Lacks get default key ((k, v) ∷ m) h =
    rw (distinct k key h.0) (find_or-Lacks get default key m h.1)

-- `apply_operation` refuses the operation, for want of a name, whatever the partitions are.
abbrev pub IsUnnamed : Operation → Type 0
IsUnnamed o =
    (ps : List Partition)
    → (apply_operation o ps ≡ err (fail_with missing_region))
      ⊎ (apply_operation o ps ≡ err (fail_with missing_partition))

create_refused : (d : CreateData) → d.region ≡ "" → IsUnnamed (create d)
unfolding apply_operation apply_create reject
create_refused d e ps = inl (rw e refl)

resize_refused : (d : ResizeData) → d.partition ≡ "" → IsUnnamed (resize d)
unfolding apply_operation apply_resize reject
resize_refused d e ps = inr (rw e refl)

remove_refused : (d : RemoveData) → d.partition ≡ "" → IsUnnamed (remove d)
unfolding apply_operation apply_remove reject
remove_refused d e ps = inr (rw e refl)

set_mountpoint_refused : (d : SetMountpointData) → d.partition ≡ "" → IsUnnamed (set_mountpoint d)
unfolding apply_operation apply_set_mountpoint reject
set_mountpoint_refused d e ps = inr (rw e refl)

set_filesystem_refused : (d : SetFilesystemData) → d.partition ≡ "" → IsUnnamed (set_filesystem d)
unfolding apply_operation apply_set_filesystem reject
set_filesystem_refused d e ps = inr (rw e refl)

module _ (m : Options) where
  create-IsUnnamed : Lacks "region" m → Ensures IsUnnamed (decode_create m)
  unfolding decode_create
  create-IsUnnamed h = bind-Ensures (find_or-Lacks get_text "" "region" m h) λ v e.
      bind-Ensures_all (find_or get_u64 0 "sizeMiB" m) λ _.
        bind-Ensures_all (find_or get_bool false "remaining" m) λ _.
          bind-Ensures_all (find_text "filesystem" m)
            λ _. bind-Ensures_all (find_text "mountpoint" m) λ _. value (create_refused _ e)

  module _ (h : Lacks "partition" m) where
    resize-IsUnnamed : Ensures IsUnnamed (decode_resize m)
    unfolding decode_resize
    resize-IsUnnamed = bind-Ensures (find_or-Lacks get_text "" "partition" m h) λ v e.
        bind-Ensures_all (find_or get_u64 0 "sizeMiB" m) λ _.
          bind-Ensures_all (find_or get_bool false "remaining" m) λ _. value (resize_refused _ e)

    remove-IsUnnamed : Ensures IsUnnamed (decode_remove m)
    unfolding decode_remove
    remove-IsUnnamed =
        bind-Ensures (find_or-Lacks get_text "" "partition" m h) λ v e. value (remove_refused _ e)

    set_mountpoint-IsUnnamed : Ensures IsUnnamed (decode_set_mountpoint m)
    unfolding decode_set_mountpoint
    set_mountpoint-IsUnnamed =
        bind-Ensures (find_or-Lacks get_text "" "partition" m h)
          λ v e. bind-Ensures_all (find_text "mountpoint" m) λ _. value (set_mountpoint_refused _ e)

    set_filesystem-IsUnnamed : Ensures IsUnnamed (decode_set_filesystem m)
    unfolding decode_set_filesystem
    set_filesystem-IsUnnamed =
        bind-Ensures (find_or-Lacks get_text "" "partition" m h)
          λ v e. bind-Ensures_all (find_text "filesystem" m) λ _. value (set_filesystem_refused _ e)

-- An operation whose message has neither a "region" nor a "partition" is never carried out: if it
-- decodes at all, `apply_operation` refuses it on every list of partitions for the missing name.
decode_operation-IsUnnamed :
    (a : OperationArg) (o : Operation)
    → Lacks "region" a.options
    → Lacks "partition" a.options
    → decode_operation a ≡ ok o
    → IsUnnamed o
unfolding decode_operation
decode_operation-IsUnnamed a o region partition e =
    let m = a.options in
    Ensures-ok
      (if_Ensures (a.kind == 0) (create-IsUnnamed m region) (
        if_Ensures (a.kind == 1) (resize-IsUnnamed m partition) (
          if_Ensures (a.kind == 2) (remove-IsUnnamed m partition) (
            if_Ensures (a.kind == 3) (set_mountpoint-IsUnnamed m partition)
              (if_Ensures (a.kind == 4) (set_filesystem-IsUnnamed m partition) error)))))
      e
