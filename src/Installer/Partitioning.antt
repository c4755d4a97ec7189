-- ===== src/Installer/Partitioning.antt =====
-- `PartitionStep` (src/services/installer/steps/partition_step.cpp): the view of the partition
-- table, and the targets for the steps that follow, which its modes share. libparted is the
-- interface `Parted`; a handle is the region it was handed out for. The entries of a `std::map`
-- are a list, newest first, in place of the order of their keys.
pub mod Custom
pub mod Manual
pub mod Targets
mod Tests
use jappeos_core.Prelude.{
  ℕ, ◌+◌, ◌*◌, ◌/◌, ◌%◌, String, Bool, true, false, ◌&&◌, ◌||◌, not, Option, none, some, List, [],
  ◌∷◌, ◌++◌, if◌then◌else◌, ◌==◌, nat_eq, string_eq, length, Result, ok, ◌>>=◌, ◌>>◌, or_throw,
  u64_mod, add64, sub64,
}
use jappeos_core.Services.Manager.{Table, find_key, erase_key}
use jappeos_core.Installer.Steps.{Context}
use jappeos_core.Installer.Data.{mountpoint_boot, mountpoint_root, filesystem_unknown}

pub data RegionKind : Type 0 where
  extended metadata unused occupied : RegionKind

-- `PedPartition`, with what `ped_partition_get_path` and `ped_file_system_probe` answer for it.
pub record Region : Type 0 where
  pub kind : RegionKind
  pub path : Option String
  pub probed : Option String
  pub start : ℕ
  pub length : ℕ

-- What libparted does; `none` and `false` are its failures. `open_disk` opens the device with its
-- partition table, or with a new GPT where it has none.
pub record Parted : Type 1 where
  pub Disk : Type 0
  pub open_disk : String → Option Disk
  pub sector_size : ℕ
  pub regions : Disk → List Region
  pub supports : String → Bool
  pub add : Disk → String → ℕ → ℕ → Option (Disk × Option String)
  pub set_geometry : Disk → Region → ℕ → ℕ → Option Disk
  pub delete : Disk → Region → Option Disk
  pub set_system : Disk → Region → String → Option (Disk × Option String)
  pub commits : Disk → Bool
  pub syncs : Disk → Bool

pub data PartError : Type 0 where
  with_mounts open_failed no_path add_failed commit_failed sync_failed wrong_targets : PartError
  unknown_region region_in_use unknown_partition is_unused : String → PartError
  invalid_size : ℕ → PartError
  resize_failed remove_failed system_failed unsupported : String → PartError
  gone not_found not_a_partition : String → PartError
  no_boot no_root : PartError

-- `PartitionView`
pub record View : Type 0 where
  pub id : String
  pub filesystem : String
  pub region : Region
  pub is_unused_space : Bool

-- `MapFilesystem`
unfoldable pub map_filesystem : Option String → String
map_filesystem none = filesystem_unknown
map_filesystem (some name) =
    if name == "fat32" || name == "fat16"
    then "fat32"
    else if name == "ext4" || name == "ext3" || name == "ext2"
    then "ext4"
    else if name == "btrfs"
    then "btrfs"
    else if name == "xfs"
    then "xfs"
    else filesystem_unknown

abbrev mib_bytes : ℕ
mib_bytes = 1024 * 1024

-- `SectorsForMiB` and `SectorsToMiB`
abbrev pub sectors_for_mib : ℕ → ℕ → ℕ
sectors_for_mib sector mib = sub64 (add64 (mib * mib_bytes % u64_mod) sector) 1 / sector

abbrev pub sectors_to_mib : ℕ → ℕ → ℕ
sectors_to_mib sector sectors = sector * sectors % u64_mod / mib_bytes

-- `FreeSpaceRegionId` for the disk, from an index: the text is formed by the standard library.
abbrev pub RegionId : Type 0
RegionId = ℕ → String

-- `BuildPartitionView`
unfoldable pub build_view : ℕ → RegionId → List Region → ℕ → Result PartError (List View)
build_view sector free_id [] index = ok []
build_view sector free_id (r ∷ rs) index = elim r.kind [
  | extended ↦ build_view sector free_id rs index
  | metadata ↦ build_view sector free_id rs index
  | unused ↦ if sectors_to_mib sector r.length == 0 then build_view sector free_id rs index else (do
    rest ← build_view sector free_id rs (index + 1)
    ok (
        record { id = free_id (index + 1); filesystem = ""; region = r; is_unused_space = true }
        ∷ rest))
  | occupied ↦ (do
    path ← or_throw r.path no_path
    rest ← build_view sector free_id rs index
    ok (
        record {
          id = path;
          filesystem = map_filesystem r.probed;
          region = r;
          is_unused_space = false;
        }
        ∷ rest))
]

-- `FindPartition`: the entry, with the ones after it.
unfoldable pub find_view : String → List View → Option (View × List View)
find_view id [] = none
find_view id (v ∷ vs) = if v.id == id then some (v, vs) else find_view id vs

abbrev pub assign : {A : Type 0} → String → A → Table A → Table A
assign key a t = (key, a) ∷ erase_key key t

abbrev moved : {A : Type 0} → String → String → Table A → Option A → Table A
moved old new t none = t
moved old new t (some a) = assign new a (erase_key old t)

-- `UpdateMapKey` and `UpdateFormatKey`
unfoldable pub update_key : {A : Type 0} → String → String → Table A → Table A
unfolding find_key erase_key
update_key old new t = if old == new then t else moved old new t (find_key old t)

-- `AddTarget`
unfoldable pub add_target : String → String → String → Bool → Context → Context
add_target device mountpoint filesystem format c = record c {
  boot_partition = if mountpoint == mountpoint_boot then device else c.boot_partition;
  root_partition =
      if mountpoint == mountpoint_boot
      then c.root_partition
      else if mountpoint == mountpoint_root
      then device
      else c.root_partition;
  targets =
      c.targets
      ++ record {
        device = device;
        mountpoint = mountpoint;
        filesystem = filesystem;
        format = format;
      }
        ∷ [];
}

-- The local variables of `ExecuteCustom`.
pub record Work (Disk : Type 0) : Type 0 where
  pub disk : Disk
  pub mountpoints : Table String
  pub filesystems : Table String
  pub formats : Table Bool
  pub partitions : List View

abbrev pub or_else : {A : Type 0} → A → Option A → A
or_else a none = a
or_else a (some b) = b

abbrev pub find_occupied : String → List View → Option View
find_occupied id [] = none
find_occupied id (v ∷ vs) =
    if not v.is_unused_space && v.id == id then some v else find_occupied id vs

-- The loop over `mountpointByPartition`, with the count of targets.
unfoldable pub collect :
    {Disk : Type 0} → Work Disk → Table String → Context → ℕ → Result PartError (Context × ℕ)
unfolding find_key
collect w [] c n = ok (c, n)
collect w ((path, m) ∷ t) c n =
    if not (m == mountpoint_boot) && not (m == mountpoint_root) then collect w t c n else (do
      v ← or_throw (find_occupied path w.partitions) (gone path)
      collect w t
          (add_target path m (or_else v.filesystem (find_key path w.filesystems))
            (or_else false (find_key path w.formats)) c)
          (n + 1))
