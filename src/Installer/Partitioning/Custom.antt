-- ===== src/Installer/Partitioning/Custom.antt =====
-- `PartitionStep::ExecuteCustom` (src/services/installer/steps/partition_step.cpp): one function
-- for each case of the `switch`, and the whole step over a libparted that is a parameter.
use jappeos_core.Installer.Data.{
  set_filesystem, set_mountpoint, remove, resize, create, SetFilesystemData, Operation, RemoveData,
  ResizeData, DiskData, SetMountpointData, CreateData,
}
use jappeos_core.Installer.Partitioning.{
  no_path, resize_failed, add_failed, invalid_size, system_failed, assign, sectors_for_mib,
  sync_failed, unsupported, remove_failed, commit_failed, region_in_use, is_unused,
  unknown_partition, unknown_region, open_failed, wrong_targets, with_mounts, find_view, View,
  build_view, Work, collect, update_key, Region, PartError, RegionId, Parted,
}
use jappeos_core.Installer.Steps.{Context}
use jappeos_core.Prelude.{
  list_empty, ℕ, ◌+◌, ◌-◌, true, ◌&&◌, ◌||◌, not, List, [], ◌∷◌, ltb, if◌then◌else◌, ◌==◌, nat_eq,
  string_eq, Result, ok, ◌>>=◌, ◌>>◌, require, reject, or_throw,
}
use jappeos_core.Services.Manager.{erase_key}

-- What stands after the commit: the targets, and the check that there are two.
unfoldable pub collect_targets : {Disk : Type 0} → Work Disk → Context → Result PartError Context
unfolding collect
collect_targets w c = do
  r ← collect w w.mountpoints c 0
  require (r.1 == 2 && not (r.0.boot_partition == "") && not (r.0.root_partition == ""))
      wrong_targets
  ok r.0

module _ (parted : Parted) (free_id : RegionId) where
  abbrev pub Worked : Type 0
  Worked = Result PartError (Work parted.Disk)

  -- `rebuildPartitions`
  unfoldable pub rebuild : Work parted.Disk → Worked
  rebuild w = do
    views ← build_view parted.sector_size free_id (parted.regions w.disk) 0
    ok (record w { partitions = views })

  unfoldable pub execute_create : CreateData → Work parted.Disk → Worked
  unfolding erase_key
  execute_create o w = do
    found ← or_throw (find_view o.region w.partitions) (unknown_region o.region)
    require found.0.is_unused_space (region_in_use o.region)
    let region = found.0.region
    let length =
        if o.remaining then region.length else sectors_for_mib parted.sector_size o.size_mib
    reject (ltb length 1 || ltb region.length length) (invalid_size o.size_mib)
    require (parted.supports o.filesystem) (unsupported o.filesystem)
    added ←
        or_throw (parted.add w.disk o.filesystem region.start (region.start + length - 1))
          add_failed
    path ← or_throw added.1 no_path
    rebuild (record {
      disk = added.0;
      mountpoints = assign path o.mountpoint w.mountpoints;
      filesystems = assign path o.filesystem w.filesystems;
      formats = assign path true w.formats;
      partitions = w.partitions;
    })

  abbrev free_after : Region → List View → ℕ
  free_after r [] = 0
  free_after r (v ∷ vs) =
      if v.is_unused_space && v.region.start == r.start + r.length then v.region.length else 0

  unfoldable pub execute_resize : ResizeData → Work parted.Disk → Worked
  execute_resize o w = do
    found ← or_throw (find_view o.partition w.partitions) (unknown_partition o.partition)
    reject found.0.is_unused_space (is_unused o.partition)
    let region = found.0.region
    let most = region.length + free_after region found.1
    let length = if o.remaining then most else sectors_for_mib parted.sector_size o.size_mib
    reject (ltb length 1) (invalid_size o.size_mib)
    reject (ltb most length) (invalid_size o.size_mib)
    disk ←
        or_throw (parted.set_geometry w.disk region region.start (region.start + length - 1))
          (resize_failed o.partition)
    rebuild (record w { disk = disk })

  unfoldable pub execute_remove : RemoveData → Work parted.Disk → Worked
  unfolding erase_key
  execute_remove o w = do
    found ← or_throw (find_view o.partition w.partitions) (unknown_partition o.partition)
    reject found.0.is_unused_space (is_unused o.partition)
    disk ← or_throw (parted.delete w.disk found.0.region) (remove_failed o.partition)
    rebuild (record {
      disk = disk;
      mountpoints = erase_key found.0.id w.mountpoints;
      filesystems = erase_key found.0.id w.filesystems;
      formats = erase_key found.0.id w.formats;
      partitions = w.partitions;
    })

  unfoldable pub execute_set_mountpoint : SetMountpointData → Work parted.Disk → Worked
  unfolding erase_key
  execute_set_mountpoint o w = do
    found ← or_throw (find_view o.partition w.partitions) (unknown_partition o.partition)
    reject found.0.is_unused_space (is_unused o.partition)
    ok (record w { mountpoints = assign found.0.id o.mountpoint w.mountpoints })

  unfoldable pub execute_set_filesystem : SetFilesystemData → Work parted.Disk → Worked
  unfolding erase_key update_key
  execute_set_filesystem o w = do
    found ← or_throw (find_view o.partition w.partitions) (unknown_partition o.partition)
    reject found.0.is_unused_space (is_unused o.partition)
    require (parted.supports o.filesystem) (unsupported o.filesystem)
    set ←
        or_throw (parted.set_system w.disk found.0.region o.filesystem) (system_failed o.filesystem)
    path ← or_throw set.1 no_path
    rebuild (record {
      disk = set.0;
      mountpoints = update_key found.0.id path w.mountpoints;
      filesystems = assign path o.filesystem (update_key found.0.id path w.filesystems);
      formats = assign path true (update_key found.0.id path w.formats);
      partitions = w.partitions;
    })

  unfoldable pub execute_operation : Operation → Work parted.Disk → Worked
  execute_operation (create o) w = execute_create o w
  execute_operation (resize o) w = execute_resize o w
  execute_operation (remove o) w = execute_remove o w
  execute_operation (set_mountpoint o) w = execute_set_mountpoint o w
  execute_operation (set_filesystem o) w = execute_set_filesystem o w

  unfoldable pub execute_operations : List Operation → Work parted.Disk → Worked
  execute_operations [] w = ok w
  execute_operations (o ∷ os) w = execute_operation o w >>= execute_operations os

  abbrev pub fresh_work : parted.Disk → Work parted.Disk
  fresh_work disk = record {
    disk = disk;
    mountpoints = [];
    filesystems = [];
    formats = [];
    partitions = [];
  }

  -- `ExecuteCustom`
  unfoldable pub execute_custom : DiskData → Context → Result PartError Context
  unfolding execute_operations rebuild collect_targets
  execute_custom d c = do
    require (list_empty d.mounts) with_mounts
    disk ← or_throw (parted.open_disk d.device) open_failed
    started ← rebuild (fresh_work disk)
    done ← execute_operations d.operations started
    require (parted.commits done.disk) commit_failed
    require (parted.syncs done.disk) sync_failed
    committed ← rebuild done
    collect_targets committed c

-- The beginning of `PartitionStep::Execute`
unfoldable pub clear_targets : Context → Context
clear_targets c = record c { boot_partition = ""; root_partition = ""; targets = [] }
