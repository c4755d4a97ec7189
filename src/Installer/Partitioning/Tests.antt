-- ===== src/Installer/Partitioning/Tests.antt =====
-- A custom run of src/services/installer/steps/partition_step.cpp on a small libparted.
use jappeos_core.Installer.Partitioning.Manual.{
  probe_from, probe_partition, execute_manual-IsManual, mounts_by_mountpoint, Disks, execute_manual,
  IsManual,
}
use jappeos_core.Services.Manager.{erase_key, find_key}
use jappeos_core.Installer.Partitioning.{
  add_target, collect, update_key, find_view, map_filesystem, build_view, unused, metadata,
  occupied, Region, Parted, RegionId,
}
use jappeos_core.Installer.Steps.{Context}
use jappeos_core.Installer.Partitioning.Targets.{execute_custom-AreFound, AreFound}
use jappeos_core.Installer.Partitioning.Custom.{
  collect_targets, rebuild, execute_set_filesystem, execute_set_mountpoint, execute_operation,
  execute_operations, clear_targets, execute_custom,
}
use jappeos_core.Installer.Data.{manual, set_filesystem, set_mountpoint, custom, DiskData}
use jappeos_core.Prelude.{
  ◌==◌, ◌≡◌, refl, true, false, none, some, List, [], ◌∷◌, nat_eq, string_eq, ok, require, reject,
  or_throw,
}

-- Partitions under fixed names, on sectors of 512 bytes; the disk is the list of its regions, and
-- only changes of file systems are carried out.
abbrev small_parted : Parted
small_parted = record {
  Disk = List Region;
  open_disk = λ d. some (
      record {
        kind = occupied;
        path = some "/dev/sda1";
        probed = some "vfat";
        start = 2048;
        length = 1048576;
      }
      ∷ record { kind = metadata; path = none; probed = none; start = 0; length = 34 }
      ∷ record {
        kind = occupied;
        path = some "/dev/sda2";
        probed = some "ext3";
        start = 1050624;
        length = 104857600;
      }
      ∷ record { kind = unused; path = none; probed = none; start = 105908224; length = 100 }
      ∷ []);
  sector_size = 512;
  regions = λ d. d;
  supports = λ fs. true;
  add = λ d fs start end. none;
  set_geometry = λ d r start end. none;
  delete = λ d r. none;
  set_system = λ d r fs. some (d, r.path);
  commits = λ d. true;
  syncs = λ d. true;
}

abbrev free_name : RegionId
free_name n = "/dev/sda#free"

abbrev plan : DiskData
plan = record {
  device = "/dev/sda";
  mode = custom;
  mounts = [];
  operations =
      set_mountpoint (record { partition = "/dev/sda2"; mountpoint = "/" })
      ∷ set_filesystem (record { partition = "/dev/sda1"; filesystem = "fat32" })
      ∷ set_mountpoint (record { partition = "/dev/sda1"; mountpoint = "/boot" })
      ∷ [];
}

abbrev stale : Context
stale = record { target_root = ""; boot_partition = "/dev/old"; root_partition = ""; targets = [] }

abbrev partitioned_context : Context
partitioned_context = record {
  target_root = "";
  boot_partition = "/dev/sda1";
  root_partition = "/dev/sda2";
  targets =
      record { device = "/dev/sda1"; mountpoint = "/boot"; filesystem = "fat32"; format = true }
      ∷ record { device = "/dev/sda2"; mountpoint = "/"; filesystem = "ext4"; format = false }
      ∷ [];
}

plan_runs :
    execute_custom small_parted free_name plan (clear_targets stale) ≡ ok partitioned_context
unfolding execute_custom clear_targets execute_operations execute_operation execute_set_mountpoint
    execute_set_filesystem rebuild build_view map_filesystem find_view update_key collect_targets
    collect add_target find_key erase_key require reject or_throw
plan_runs = refl

execute_custom-AreFound_example : AreFound partitioned_context
execute_custom-AreFound_example =
    execute_custom-AreFound small_parted free_name plan stale partitioned_context plan_runs

abbrev manual_plan : DiskData
manual_plan = record {
  device = "/dev/sda";
  mode = manual;
  mounts =
      record { partition = "/dev/sda1"; mountpoint = "/boot" }
      ∷ record { partition = "/dev/sda2"; mountpoint = "/" }
      ∷ [];
  operations = [];
}

abbrev small_disks : Disks
small_disks = record {
  is_partition_of = λ device partition. device == "/dev/sda";
  read_table = λ device. small_parted.open_disk device;
}

abbrev manual_context : Context
manual_context = record {
  target_root = "";
  boot_partition = "/dev/sda1";
  root_partition = "/dev/sda2";
  targets =
      record { device = "/dev/sda1"; mountpoint = "/boot"; filesystem = "unknown"; format = false }
      ∷ record { device = "/dev/sda2"; mountpoint = "/"; filesystem = "ext4"; format = false }
      ∷ [];
}

manual_plan_runs : execute_manual small_disks manual_plan (clear_targets stale) ≡ ok manual_context
unfolding execute_manual clear_targets mounts_by_mountpoint probe_partition probe_from
    map_filesystem add_target find_key require or_throw
manual_plan_runs = refl

execute_manual-IsManual_example : IsManual small_disks manual_plan manual_context
execute_manual-IsManual_example =
    execute_manual-IsManual small_disks manual_plan stale manual_context manual_plan_runs
