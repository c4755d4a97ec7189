-- ===== src/Installer/Partitioning/Manual.antt =====
-- `PartitionStep::ExecuteManual` (src/services/installer/steps/partition_step.cpp): the
-- mounts of the plan as targets, without a change of the partition table.
use jappeos_core.Installer.Partitioning.Custom.{clear_targets}
use jappeos_core.Installer.Partitioning.{
  map_filesystem, no_path, unused, extended, metadata, occupied, add_target, no_root, open_failed,
  no_boot, not_a_partition, not_found, PartError, Region,
}
use jappeos_core.Prelude.{
  Ensures-self, subst, Ensures, value, require-Ensures, or_throw-Ensures, bind-Ensures, Ensures-ok,
  Ensures-map, String, ◌≡◌, refl, sym, ◌∙◌, inl, inr, Bool, false, Option, none, some, List, [],
  ◌∷◌, if◌then◌else◌, Bool-cases, Option-cases, ◌==◌, nat_eq, string_eq, eq_iff, Result, ok, err,
  ◌>>=◌, ◌>>◌, require, or_throw,
}
use jappeos_core.Services.Manager.{emplace, Table, find_key}
use jappeos_core.Installer.Data.{mountpoint_boot, mountpoint_root, DiskData, MountData}
use jappeos_core.Installer.Steps.{Context}

-- What the step asks of the system: whether udev knows the path as a partition of the disk, and
-- the partition table that libparted reads from the disk.
pub record Disks : Type 0 where
  pub is_partition_of : String → String → Bool
  pub read_table : String → Option (List Region)

-- The loop of `ProbePartitionFilesystem`
unfoldable pub probe_from : String → List Region → Result PartError String
probe_from partition [] = err (not_found partition)
probe_from partition (r ∷ rs) =
    let rest = probe_from partition rs in
    elim r.kind [
      | unused ↦ rest
      | extended ↦ rest
      | metadata ↦ rest
      | occupied ↦ (do
        path ← or_throw r.path no_path
        if path == partition then ok (map_filesystem r.probed) else rest)
    ]

-- `ProbePartitionFilesystem`
unfoldable pub probe_partition : Disks → String → String → Result PartError String
unfolding probe_from
probe_partition disks device partition = do
  table ← or_throw (disks.read_table device) open_failed
  probe_from partition table

-- The loop over the mounts: `emplace` keeps the first partition of a mountpoint.
unfoldable pub mounts_by_mountpoint :
    Disks → String → List MountData → Table String → Result PartError (Table String)
unfolding find_key
mounts_by_mountpoint disks device [] t = ok t
mounts_by_mountpoint disks device (m ∷ ms) t = do
  require (disks.is_partition_of device m.partition) (not_a_partition m.partition)
  mounts_by_mountpoint disks device ms (emplace m.mountpoint m.partition t)

-- `ExecuteManual`
unfoldable pub execute_manual : Disks → DiskData → Context → Result PartError Context
unfolding find_key mounts_by_mountpoint probe_partition
execute_manual disks d c = do
  t ← mounts_by_mountpoint disks d.device d.mounts []
  boot ← or_throw (find_key mountpoint_boot t) no_boot
  root ← or_throw (find_key mountpoint_root t) no_root
  boot_fs ← probe_partition disks d.device boot
  root_fs ← probe_partition disks d.device root
  ok (
      add_target root mountpoint_root root_fs false
        (add_target boot mountpoint_boot boot_fs false c))

-- The path of the first mount with the mountpoint.
unfoldable pub first_mount : String → List MountData → Option String
first_mount m [] = none
first_mount m (x ∷ xs) = if x.mountpoint == m then some x.partition else first_mount m xs

abbrev first_or : Option String → Option String → Option String
first_or none b = b
first_or (some a) b = some a

first_or-none : (o : Option String) → o ≡ first_or o none
first_or-none none = refl
first_or-none (some a) = refl

first_or-emplace :
    (m key partition : String) (t : Table String) (ms : List MountData)
    → first_or (find_key m (emplace key partition t)) (first_mount m ms)
      ≡ first_or (find_key m t) (if key == m then some partition else first_mount m ms)
unfolding find_key
first_or-emplace m key partition t ms = elim (Option-cases (find_key key t)) [
  | inl new ↦ elim (Bool-cases (key == m)) [
    | inl same ↦
        let here = subst (λ q. find_key q t ≡ none) ((eq_iff key m).0 same) new in
        rw (new, same, here) refl
    | inr other ↦ rw (new, other) refl
  ]
  | inr (old, found) ↦ elim (Bool-cases (key == m)) [
    | inl same ↦
        let here = subst (λ q. find_key q t ≡ some old) ((eq_iff key m).0 same) found in
        rw (found, same, here) refl
    | inr other ↦ rw (found, other) refl
  ]
]

mounts_by_mountpoint_first :
    (disks : Disks) (device : String) (ms : List MountData) (t : Table String)
    → Ensures
        (λ r. (m : String) → find_key m r ≡ first_or (find_key m t) (first_mount m ms))
        (mounts_by_mountpoint disks device ms t)
unfolding mounts_by_mountpoint first_mount
mounts_by_mountpoint_first disks device [] t = value (λ m. first_or-none (find_key m t))
mounts_by_mountpoint_first disks device (x ∷ xs) t = require-Ensures _ _ λ _.
    Ensures-map (λ r h m. h m ∙ first_or-emplace m x.mountpoint x.partition t xs)
      (mounts_by_mountpoint_first disks device xs (emplace x.mountpoint x.partition t))

-- The targets are the partitions of the first mounts at "/boot" and at "/", in this order, with
-- the file systems that were found there. None is to be formatted.
pub record IsManual (disks : Disks) (d : DiskData) (c : Context) : Type 0 where
  pub boot_fs : String
  pub root_fs : String
  pub boot : first_mount mountpoint_boot d.mounts ≡ some c.boot_partition
  pub root : first_mount mountpoint_root d.mounts ≡ some c.root_partition
  pub boot_probed : probe_partition disks d.device c.boot_partition ≡ ok boot_fs
  pub root_probed : probe_partition disks d.device c.root_partition ≡ ok root_fs
  pub targets :
      c.targets
      ≡ record {
        device = c.boot_partition;
        mountpoint = mountpoint_boot;
        filesystem = boot_fs;
        format = false;
      }
        ∷ record {
          device = c.root_partition;
          mountpoint = mountpoint_root;
          filesystem = root_fs;
          format = false;
        }
        ∷ []

-- A manual run that succeeds, from a context that `Execute` has cleared, leaves exactly two
-- targets: the partition of the first mount of the plan at "/boot", to be mounted there, and that
-- of the first mount at "/", to be mounted there. Each has the file system that was found on it,
-- and neither is to be formatted.
pub execute_manual-IsManual :
    (disks : Disks) (d : DiskData) (c c' : Context)
    → execute_manual disks d (clear_targets c) ≡ ok c'
    → IsManual disks d c'
unfolding execute_manual clear_targets add_target find_key
execute_manual-IsManual disks d c c' e =
    Ensures-ok {P = IsManual disks d}
      (bind-Ensures (mounts_by_mountpoint_first disks d.device d.mounts []) λ t h.
        or_throw-Ensures _ _ λ boot hb. or_throw-Ensures _ _ λ root hr.
          bind-Ensures (Ensures-self (probe_partition disks d.device boot)) λ boot_fs pb.
            bind-Ensures (Ensures-self (probe_partition disks d.device root)) λ root_fs pr.
              value (record {
                boot_fs = boot_fs;
                root_fs = root_fs;
                boot = sym (h mountpoint_boot) ∙ hb;
                root = sym (h mountpoint_root) ∙ hr;
                boot_probed = pb;
                root_probed = pr;
                targets = refl;
              }))
      e
