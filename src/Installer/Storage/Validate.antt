-- ===== src/Installer/Storage/Validate.antt =====
-- `ValidateInstallStorageData`, its manual and custom modes, and
-- `ValidateInstallStorageData_VerifyMountpoints`. The warnings collected in `outWarnings` are the
-- value of a run that does not throw.
use jappeos_core.Installer.Storage.Sizes.{sum_loop}
use jappeos_core.Installer.Storage.Operations.{apply_operations}
use jappeos_core.Installer.Storage.Cursor.{locate}
use jappeos_core.Installer.Exception.{
  root_too_small, root_unsupported, multiple_mountpoints, cannot_mount_free_space,
  sizes_do_not_add_up, root_is_fat32, null_dereference, boot_too_small, expected_one_root,
  unknown_partition, expected_one_boot, unknown_storage_device, storage_device_too_small,
  boot_not_fat32, invalid_disk_mode, manual_with_operations, erase_with_mounts_or_operations,
  custom_with_mounts, invalid_mountpoint, fail_with, bad_args, Exception,
}
use jappeos_core.Installer.Data.{
  custom, manual, erase, is_valid_storage_filesystem, is_free_space, part_boot_min_size_mib,
  mountpoint_root, part_root_min_size_mib, mountpoint_boot, part_root_min_recommended_size_mib,
  other_mode, is_valid_storage_mountpoint, DiskMode, DiskData, MountData, Partition, StorageDevice,
  part_boot_min_recommended_size_mib,
}
use jappeos_core.Prelude.{
  list_empty, ℕ, ◌+◌, String, Bool, true, false, ◌&&◌, Option, none, some, List, [], ◌∷◌, ◌++◌, ltb,
  if◌then◌else◌, ◌==◌, nat_eq, string_eq, any, count_if, Result, ok, ◌>>=◌, ◌>>◌, require, reject,
  or_throw,
}

-- A warning, with the recommended size that its text names.
pub data Warning : Type 0 where
  device_below_recommended boot_below_recommended root_below_recommended : ℕ → Warning

abbrev pub Verdict : Type 0
Verdict = Result Exception (List Warning)

-- `if (test) outWarnings.push_back(w);`
abbrev pub warn_if : Bool → Warning → List Warning → List Warning
warn_if b w ws = if b then ws ++ w ∷ [] else ws

unfoldable pub verify_mountpoints : Partition → Partition → List Warning → Verdict
verify_mountpoints boot root ws = do
  require (boot.filesystem == "fat32") (fail_with boot_not_fat32)
  reject (ltb boot.size_mib part_boot_min_size_mib)
      (fail_with (boot_too_small part_boot_min_size_mib))
  let ws' =
      warn_if (ltb boot.size_mib part_boot_min_recommended_size_mib)
        (boot_below_recommended part_boot_min_recommended_size_mib) ws
  reject (root.filesystem == "fat32") (fail_with root_is_fat32)
  require (is_valid_storage_filesystem root.filesystem false) (fail_with root_unsupported)
  reject (ltb root.size_mib part_root_min_size_mib)
      (fail_with (root_too_small part_root_min_size_mib))
  ok (
      warn_if (ltb root.size_mib part_root_min_recommended_size_mib)
        (root_below_recommended part_root_min_recommended_size_mib) ws')

-- The loop of the manual mode: the pointers and the set of partitions seen so far.
pub record Mounted : Type 0 where
  pub boot : Option Partition
  pub root : Option Partition
  pub seen : List String

abbrev pub mounts_at : String → MountData → Bool
mounts_at m x = x.mountpoint == m

abbrev note_mount : MountData → Partition → Mounted → Mounted
note_mount m p s =
    let s' = record s { seen = m.partition ∷ s.seen } in
    if m.mountpoint == mountpoint_boot
    then record s' { boot = some p }
    else if m.mountpoint == mountpoint_root
    then record s' { root = some p }
    else s'

unfoldable pub check_mount : List Partition → MountData → Mounted → Result Exception Mounted
check_mount partitions m s = do
  require (is_valid_storage_mountpoint m.mountpoint) (fail_with (invalid_mountpoint m.mountpoint))
  c ← or_throw (locate m.partition partitions) (fail_with (unknown_partition m.partition))
  reject (is_free_space c.here) (fail_with (cannot_mount_free_space m.partition))
  reject (any (λ q. q == m.partition) s.seen) (fail_with (multiple_mountpoints m.partition))
  ok (note_mount m c.here s)

unfoldable pub check_mounts : List Partition → List MountData → Mounted → Result Exception Mounted
check_mounts partitions [] s = ok s
check_mounts partitions (m ∷ ms) s = check_mount partitions m s >>= check_mounts partitions ms

unfoldable pub validate_manual : DiskData → StorageDevice → List Warning → Verdict
unfolding check_mounts check_mount
validate_manual disk device ws = do
  require (list_empty disk.operations) (fail_with manual_with_operations)
  s ← check_mounts device.partitions disk.mounts (record { boot = none; root = none; seen = [] })
  require (count_if (mounts_at mountpoint_boot) disk.mounts == 1) (fail_with expected_one_boot)
  require (count_if (mounts_at mountpoint_root) disk.mounts == 1) (fail_with expected_one_root)
  boot ← or_throw s.boot null_dereference
  root ← or_throw s.root null_dereference
  verify_mountpoints boot root ws

abbrev pub is_mounted_at : String → Partition → Bool
is_mounted_at m p = p.mountpoint == m

-- `std::ranges::count_if` with the lambda that keeps a pointer to the match: the count, and the
-- last entry that matched.
unfoldable pub count_mounted : String → List Partition → ℕ → Option Partition → ℕ × Option Partition
count_mounted m [] n found = (n, found)
count_mounted m (p ∷ ps) n found =
    count_mounted m ps (if is_mounted_at m p then n + 1 else n)
      (if is_mounted_at m p then some p else found)

unfoldable pub validate_custom : DiskData → StorageDevice → List Warning → Verdict
unfolding count_mounted
validate_custom disk device ws = do
  require (list_empty disk.mounts) (fail_with custom_with_mounts)
  partitions ← apply_operations disk.operations device.partitions
  require (sum_loop 0 partitions == sum_loop 0 device.partitions) (fail_with sizes_do_not_add_up)
  let boot = count_mounted mountpoint_boot partitions 0 none
  require (boot.0 == 1) (fail_with expected_one_boot)
  let root = count_mounted mountpoint_root partitions 0 none
  require (root.0 == 1) (fail_with expected_one_root)
  b ← or_throw boot.1 null_dereference
  r ← or_throw root.1 null_dereference
  verify_mountpoints b r ws

abbrev min_disk_size : ℕ
min_disk_size = part_boot_min_recommended_size_mib + part_root_min_size_mib

abbrev min_recommended_disk_size : ℕ
min_recommended_disk_size = part_boot_min_recommended_size_mib + part_root_min_recommended_size_mib

unfoldable pub validate_erase : DiskData → StorageDevice → List Warning → Verdict
validate_erase disk device ws = do
  require (list_empty disk.mounts && list_empty disk.operations)
      (fail_with erase_with_mounts_or_operations)
  reject (ltb device.size_mib min_disk_size) (fail_with (storage_device_too_small min_disk_size))
  ok (
      warn_if (ltb device.size_mib min_recommended_disk_size)
        (device_below_recommended min_recommended_disk_size) ws)

abbrev is_known_mode : DiskMode → Bool
is_known_mode (other_mode n) = false
is_known_mode _ = true

unfoldable pub find_device : String → List StorageDevice → Option StorageDevice
find_device id [] = none
find_device id (d ∷ ds) = if d.device == id then some d else find_device id ds

abbrev pub validate_mode : DiskMode → DiskData → StorageDevice → List Warning → Verdict
validate_mode erase disk device ws = validate_erase disk device ws
validate_mode manual disk device ws = validate_manual disk device ws
validate_mode custom disk device ws = validate_custom disk device ws
validate_mode (other_mode n) disk device ws = ok ws

-- The map `_storageDevices` is the list of its values, each under its own name.
unfoldable pub validate_storage : List StorageDevice → DiskData → List Warning → Verdict
unfolding find_device
validate_storage devices disk ws = do
  require (is_known_mode disk.mode) (bad_args invalid_disk_mode)
  device ← or_throw (find_device disk.device devices) (fail_with unknown_storage_device)
  validate_mode disk.mode disk device ws
