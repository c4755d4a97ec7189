-- ===== src/Installer/Steps.antt =====
-- The installation steps of src/services/installer/steps/ that run commands: formatting, mounting,
-- cleaning up. A command is kept as what its arguments say. The machine is a parameter: how
-- `CommandRunner::Run` ends, after its calls before, and what the file system answers.
pub mod Format
pub mod Mount
use Prim.Native.String.{◌++◌ as text_append}
use jappeos_core.Prelude.{
  list_empty, ◌+◌, ◌-◌, ◌/◌, String, Bool, true, false, not, Option, none, some, List, [], ◌∷◌,
  ◌++◌, if◌then◌else◌, ◌==◌, nat_eq, string_eq, Result, ok, err, ◌>>=◌, ◌>>◌, reject, or_throw,
}
use jappeos_core.Installer.Data.{mountpoint_boot, mountpoint_root}

pub data Command : Type 0 where
  mkfs_fat mkfs_ext4 mkfs_btrfs mkfs_xfs : String → Command
  mount : String → String → Command  -- device, mountpoint
  umount : String → Command
  sync : Command

-- The commands that `CommandRunner::Run` was called with, newest first.
abbrev pub Log : Type 0
Log = List Command

-- How `CommandRunner::Run` ends: with the exit code 0, with another one, or with an exception where
-- `pipe`, `fork` or `waitpid` fails.
pub data Exit : Type 0 where
  exits_zero : Exit
  exits_nonzero : Exit
  throws : Exit

abbrev pub is_zero : Exit → Bool
is_zero exits_zero = true
is_zero _ = false

pub record Machine : Type 0 where
  pub exit : Log → Command → Exit
  pub creates_directories : String → Bool
  pub exists : Log → String → Bool

pub data StepError : Type 0 where
  command_failed : Command → StepError
  runner_failed : Command → StepError
  filesystem_error : String → StepError
  empty_format_target : StepError
  unsupported_filesystem : String → StepError
  multiple_targets missing_target empty_device : String → StepError
  cleanup_failed : List String → StepError

-- `InstallPartitionTargetData`
pub record Target : Type 0 where
  pub device : String
  pub mountpoint : String
  pub filesystem : String
  pub format : Bool

-- `InstallContext`, without the constant installation data.
pub record Context : Type 0 where
  pub target_root : String
  pub boot_partition : String
  pub root_partition : String
  pub targets : List Target

-- A result, and the commands of the calls of `CommandRunner::Run` up to it.
abbrev pub Run : Type 0 → Type 0
Run A = Result StepError A × Log

-- `CommandRunner::Run`: whether the exit code is 0
abbrev pub run_command : Exit → Command → Result StepError Bool
run_command exits_zero c = ok true
run_command exits_nonzero c = ok false
run_command throws c = err (runner_failed c)

abbrev pub exited : Exit → Command → Result StepError (Unit {0})
exited exits_zero c = ok tt
exited exits_nonzero c = err (command_failed c)
exited throws c = err (runner_failed c)

-- `CommandRunner::RunOrThrow`
abbrev pub run_or_throw : Machine → Command → Log → Run (Unit {0})
run_or_throw m c log = (exited (m.exit log c) c, c ∷ log)

-- `FormatStep::BuildFormatCommand`
unfoldable pub build_format_command : Target → Result StepError Command
build_format_command t =
    if t.filesystem == "fat32"
    then ok (mkfs_fat t.device)
    else if t.filesystem == "ext4"
    then ok (mkfs_ext4 t.device)
    else if t.filesystem == "btrfs"
    then ok (mkfs_btrfs t.device)
    else if t.filesystem == "xfs"
    then ok (mkfs_xfs t.device)
    else err (unsupported_filesystem t.filesystem)

abbrev pub go_on : Run (Unit {0}) → (Log → Run (Unit {0})) → Run (Unit {0})
go_on (ok u, log) k = k log
go_on (err e, log) k = (err e, log)

abbrev pub format_with : Machine → Result StepError Command → Log → Run (Unit {0})
format_with m (ok c) log = run_or_throw m c log
format_with m (err e) log = (err e, log)

unfoldable pub format_target : Machine → Target → Log → Run (Unit {0})
format_target m t log =
    if not t.format
    then (ok tt, log)
    else if t.device == ""
    then (err empty_format_target, log)
    else format_with m (build_format_command t) log

-- The loop of `FormatStep::Execute`.
unfoldable pub format_targets : Machine → List Target → Log → Run (Unit {0})
format_targets m [] log = (ok tt, log)
format_targets m (t ∷ ts) log = go_on (format_target m t log) (format_targets m ts)

-- `FormatStep::Execute`
unfoldable pub format_step : Machine → Context → Log → Run (Unit {0})
unfolding format_targets
format_step m ctx log = format_targets m ctx.targets log

-- The loop of `MountStep::FindTarget`, with the pointer found so far.
unfoldable pub find_target_from : String → Option Target → List Target → Result StepError Target
find_target_from mp found [] = do
  t ← or_throw found (missing_target mp)
  reject (t.device == "") (empty_device mp)
  ok t
find_target_from mp found (t ∷ ts) =
    if not (t.mountpoint == mp)
    then find_target_from mp found ts
    else elim found [ none ↦ find_target_from mp (some t) ts | some t' ↦ err (multiple_targets mp) ]

unfoldable pub find_target : String → Context → Result StepError Target
unfolding find_target_from
find_target mp ctx = find_target_from mp none ctx.targets

abbrev pub install_target_root : String
install_target_root = "/mnt/jappeos-target"

abbrev pub install_target_boot : String
install_target_boot = "/mnt/jappeos-target/boot"

-- `MountStep::MountDevice`
unfoldable pub mount_device : Machine → String → String → Log → Run (Unit {0})
mount_device m device mp log =
    if m.creates_directories mp
    then run_or_throw m (mount device mp) log
    else (err (filesystem_error mp), log)

-- The `catch (...)` block: every mounted path, newest first, is unmounted, errors ignored.
unfoldable pub unmount_all : List String → Log → Log
unmount_all [] log = log
unmount_all (mp ∷ mps) log = unmount_all mps (umount mp ∷ log)

abbrev pub after_boot : Target → Context → Run (Unit {0}) → Run Context
after_boot root ctx (ok u, log) =
    (ok (record ctx { target_root = install_target_root; root_partition = root.device }), log)
after_boot root ctx (err e, log) = (err e, unmount_all (install_target_root ∷ []) log)

abbrev pub after_root : Machine → Target → Target → Context → Run (Unit {0}) → Run Context
after_root m root boot ctx (ok u, log) =
    after_boot root ctx (mount_device m boot.device install_target_boot log)
after_root m root boot ctx (err e, log) = (err e, unmount_all [] log)

abbrev pub mount_targets :
    Machine → Context → Result StepError (Target × Target) → Log → Run Context
mount_targets m ctx (ok (root, boot)) log =
    after_root m root boot ctx (mount_device m root.device install_target_root log)
mount_targets m ctx (err e) log = (err e, log)

-- `MountStep::Execute`
unfoldable pub mount_step : Machine → Context → Log → Run Context
unfolding unmount_all mount_device
mount_step m ctx log =
    mount_targets m ctx
      (do
        root ← find_target mountpoint_root ctx
        boot ← find_target mountpoint_boot ctx
        ok (root, boot))
      log

-- One round of the loop in `CleanupStep::Execute`: the paths that were not unmounted, with the log.
abbrev pub cleaned_one :
    String → List String → Result StepError Bool → Result StepError (List String)
cleaned_one mp errors (ok true) = ok errors
cleaned_one mp errors (ok false) = ok (errors ++ mp ∷ [])
cleaned_one mp errors (err e) = err e

unfoldable pub cleanup_one : Machine → String → List String → Log → Run (List String)
cleanup_one m mp errors log =
    if m.exists log mp
    then (cleaned_one mp errors (run_command (m.exit log (umount mp)) (umount mp)), umount mp ∷ log)
    else (ok errors, log)

-- The loop
unfoldable pub cleanup_all : Machine → List String → List String → Log → Run (List String)
unfolding cleanup_one
cleanup_all m [] errors log = (ok errors, log)
cleanup_all m (mp ∷ mps) errors log =
    let (r, log') = cleanup_one m mp errors log in
    elim r [ err e ↦ (err e, log') | ok errors' ↦ cleanup_all m mps errors' log' ]

abbrev pub cleared : Context → Context
cleared ctx = record ctx { target_root = ""; root_partition = "" }

-- After the loop: an exception out of it leaves the context as it is.
abbrev pub cleanup_ends : Context → Run (List String) → Context × Run (Unit {0})
cleanup_ends ctx (ok [], log) = (cleared ctx, (ok tt, log))
cleanup_ends ctx (ok (mp ∷ mps), log) = (cleared ctx, (err (cleanup_failed (mp ∷ mps)), log))
cleanup_ends ctx (err e, log) = (ctx, (err e, log))

-- `sync`, whose exit code is not looked at, and the loop
abbrev pub synced : Machine → Context → Log → Result StepError Bool → Context × Run (Unit {0})
synced m ctx log (err e) = (ctx, (err e, log))
synced m ctx log (ok b) =
    cleanup_ends ctx
      (cleanup_all m (text_append ctx.target_root "/boot" ∷ ctx.target_root ∷ []) [] log)

-- `CleanupStep::Execute`
unfoldable pub cleanup_step : Machine → Context → Log → Context × Run (Unit {0})
unfolding cleanup_all
cleanup_step m ctx log =
    if ctx.target_root == ""
    then (ctx, (ok tt, log))
    else synced m ctx (sync ∷ log) (run_command (m.exit log sync) sync)
