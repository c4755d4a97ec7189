-- ===== src/Installer/Data.antt =====
-- src/services/installer/install_data.h, installer_def.h and install_state.h: the records that the
-- installer passes around. A text that the code only compares is a `String`; one whose bytes it
-- walks (host name, user name) is the list of its bytes. `uint64_t` sizes are natural numbers.
use jappeos_core.Prelude.{
  Bytes, eq_iff, arith, ◌≢◌, ℕ, ◌*◌, Bool, String, List, ◌==◌, ◌||◌, false, string_eq,
  if◌then◌else◌,
}

-- `InstallDiskMode`. A client sends a number, which may be none of the enumerators.
pub data DiskMode : Type 0 where
  erase manual custom : DiskMode
  other_mode : ℕ → DiskMode

pub record CreateData : Type 0 where
  pub region : String
  pub size_mib : ℕ
  pub remaining : Bool
  pub filesystem : String
  pub mountpoint : String

pub record ResizeData : Type 0 where
  pub partition : String
  pub size_mib : ℕ
  pub remaining : Bool

pub record RemoveData : Type 0 where
  pub partition : String

pub record SetMountpointData : Type 0 where
  pub partition : String
  pub mountpoint : String

pub record SetFilesystemData : Type 0 where
  pub partition : String
  pub filesystem : String

-- `InstallDiskOperationData`: the tag and its variant agree in every value that the code builds.
pub data Operation : Type 0 where
  create : CreateData → Operation
  resize : ResizeData → Operation
  remove : RemoveData → Operation
  set_mountpoint : SetMountpointData → Operation
  set_filesystem : SetFilesystemData → Operation

pub record MountData : Type 0 where
  pub partition : String
  pub mountpoint : String

pub record DiskData : Type 0 where
  pub device : String
  pub mode : DiskMode
  pub mounts : List MountData
  pub operations : List Operation

pub record InstallData : Type 0 where
  pub hostname : Bytes
  pub username : Bytes
  pub password : String
  pub timezone : String
  pub locale : String
  pub keyboard_layout : String
  pub keyboard_variant : String
  pub disk : DiskData
  pub install_proprietary : Bool
  pub install_recommended_drivers : Bool

pub record Partition : Type 0 where
  pub device : String
  pub filesystem : String
  pub size_mib : ℕ
  pub mountpoint : String

-- `StoragePartitionData::IsFreeSpace`
abbrev pub is_free_space : Partition → Bool
is_free_space p = p.filesystem == ""

pub record StorageDevice : Type 0 where
  pub device : String
  pub model : String
  pub is_removable : Bool
  pub size_mib : ℕ
  pub partitions : List Partition

pub record KeyboardLayout : Type 0 where
  pub id : String
  pub name : String
  pub variants : List String

abbrev pub mountpoint_boot : String
mountpoint_boot = "/boot"

abbrev pub mountpoint_root : String
mountpoint_root = "/"

abbrev pub part_boot_min_size_mib : ℕ
part_boot_min_size_mib = 100

abbrev pub part_boot_min_recommended_size_mib : ℕ
part_boot_min_recommended_size_mib = 512

abbrev pub part_root_min_size_mib : ℕ
part_root_min_size_mib = 40960

abbrev pub part_root_min_recommended_size_mib : ℕ
part_root_min_recommended_size_mib = 40960 * 2

abbrev pub filesystem_unknown : String
filesystem_unknown = "unknown"

-- `InstallerService::IsValidStorageFilesystem`
abbrev pub is_valid_storage_filesystem : String → Bool → Bool
is_valid_storage_filesystem fs allow_unknown =
    fs == "fat32"
    || fs == "ext4"
    || fs == "btrfs"
    || fs == "xfs"
    || (if allow_unknown then fs == filesystem_unknown else false)

-- `InstallerService::IsValidStorageMountpoint`
abbrev pub is_valid_storage_mountpoint : String → Bool
is_valid_storage_mountpoint m = m == mountpoint_boot || m == mountpoint_root

pub boot_ne_root : mountpoint_boot ≢ mountpoint_root
boot_ne_root = ground (arith, eq_iff mountpoint_boot mountpoint_root)
