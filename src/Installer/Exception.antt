-- ===== src/Installer/Exception.antt =====
-- The exceptions of src/services/installer/installer_service.cpp: a D-Bus error name with the
-- reason that the message gives, one constructor for each `throw`.
use jappeos_core.Prelude.{ℕ, String}

pub data ErrorName : Type 0 where
  failed invalid_args invalid_signature : ErrorName

pub data Reason : Type 0 where
  plan_exists in_progress unknown_plan : Reason
  invalid_hostname invalid_username unknown_timezone unknown_locale : Reason
  unknown_keyboard_layout unknown_keyboard_variant : Reason
  invalid_disk_mode unknown_storage_device invalid_operation_type : Reason
  type_mismatch : Reason
  erase_with_mounts_or_operations manual_with_operations custom_with_mounts : Reason
  storage_device_too_small : ℕ → Reason
  invalid_mountpoint unknown_partition cannot_mount_free_space : String → Reason
  multiple_mountpoints : String → Reason
  expected_one_boot expected_one_root : Reason
  missing_region missing_partition : Reason
  unknown_region not_free_space free_space size_with_remaining : String → Reason
  unknown_filesystem : String → Reason
  size_too_small size_too_big : ℕ → Reason
  sizes_do_not_add_up : Reason
  boot_not_fat32 root_is_fat32 root_unsupported : Reason
  boot_too_small root_too_small : ℕ → Reason

-- `DBusException`, or the undefined behaviour of a dereferenced null pointer.
pub data Exception : Type 0 where
  thrown : ErrorName → Reason → Exception
  null_dereference : Exception

abbrev pub fail_with : Reason → Exception
fail_with r = thrown failed r

abbrev pub bad_args : Reason → Exception
bad_args r = thrown invalid_args r
