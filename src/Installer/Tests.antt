-- ===== src/Installer/Tests.antt =====
-- The theorems at inputs that can be followed in the source, and runs of the model.
use jappeos_core.Installer.Storage.Cursor.{locate}
use jappeos_core.Installer.Exception.{unknown_storage_device, fail_with}
use jappeos_core.Installer.Storage.Conservation.{apply_operations-total}
use jappeos_core.Installer.Names.Language.{is_valid_username_iff, Word}
use jappeos_core.Installer.Storage.Merge.{
  remove_adjacent_spaces_lem, occupied, remove_adjacent_spaces, IsMerged,
}
use jappeos_core.Installer.Storage.Sizes.{sum_loop, total}
use jappeos_core.Installer.Steps.Format.{format_step-marked, formats_marked, GrewBy}
use jappeos_core.Installer.Storage.Operations.{
  apply_set_mountpoint, apply_set_filesystem, apply_resize, apply_operation, apply_operations,
}
use jappeos_core.Installer.Storage.Safety.{validate_storage-IsOrdinary, IsOrdinary}
use jappeos_core.Installer.Request.{create_install_plan}
use jappeos_core.Installer.Plan.{on_begin_installation}
use jappeos_core.Installer.Exception.{unknown_plan}
use jappeos_core.Prelude.{ap, ◌∙◌, ◌>>=◌, err}
use jappeos_core.Installer.Request.Wire.{encode_plan, decode-encode_plan}
use jappeos_core.Installer.Request.Begun.{create-begin_requested}
use jappeos_core.Installer.Plan.Laws.{run-IsVetted, IsVetted}
use jappeos_core.Installer.Names.{
  reserved, is_name_start, is_name_char, is_valid_hostname, is_valid_username,
}
use jappeos_core.Installer.Controller.Cancelling.{
  cancel_install_lost, cancel_install-Stopping, Continues, Stopping,
}
use jappeos_core.Installer.Steps.{Command, umount, Exit, exits_zero, throws}
use jappeos_core.Installer.Steps.Mount.{
  mounted, Works, Undone, mount_step-cleanup, mount_step-Balanced, pending, Balanced,
}
use jappeos_core.Installer.Storage.Validate.{
  count_mounted, validate_custom, validate_storage, verify_mountpoints,
}
use jappeos_core.Installer.Storage.Accepts.{validate_custom-IsInstallable, RunsTo}
use jappeos_core.Installer.Controller.{
  at_step, returns, reads, loop_head, Steps, Controller, Reach, start, starts, stores_running,
  reports_running, spawns, joins, begins, finishes, stores, old_tells, ready, joining, cancelling,
  absent, spawned, executing, state_changed, progress_changed, start_loads, start_spawns,
  cancel_loads, cancel_stores, run_begins, loop_ends,
}
use jappeos_core.Installer.Steps.{
  format_step, install_target_boot, find_target, cleanup_step, mount, install_target_root, Context,
  Log, Machine, mount_step,
}
use jappeos_core.Installer.Plan.{
  Call, creates, validate_install_data, succeeded, running, idle, run, on_create_install_plan,
  Installer, init, Catalog,
}
use jappeos_core.Installer.Controller.Invariant.{Reach-Inv, Inv}
use jappeos_core.Prelude.{
  Bytes, codes, ◌≡◌, refl, ◌≢◌, ◌↔◌, Bool, true, false, some, List, [], ◌∷◌, arith, nat_eq,
  string_eq, list_beq, any, All, ok, err, require, reject, or_throw,
}
use jappeos_core.Installer.Data.{
  set_mountpoint, set_filesystem, custom, resize, DiskData, Partition, Operation, InstallData,
  StorageDevice,
}

abbrev esp : Partition
esp = record { device = "/dev/sda1"; filesystem = "fat32"; size_mib = 600; mountpoint = "" }

abbrev home : Partition
home = record { device = "/dev/sda2"; filesystem = "ext4"; size_mib = 100000; mountpoint = "" }

abbrev gap : Partition
gap = record { device = "/dev/sda#free-1"; filesystem = ""; size_mib = 9000; mountpoint = "" }

abbrev disk_a : StorageDevice
disk_a = record {
  device = "/dev/sda";
  model = "disk";
  is_removable = false;
  size_mib = 109600;
  partitions = esp ∷ home ∷ gap ∷ [];
}

-- Shrink the second partition, make a root file system of it, and mount both.
abbrev requests : List Operation
requests =
    resize (record { partition = "/dev/sda2"; size_mib = 90000; remaining = false })
    ∷ set_filesystem (record { partition = "/dev/sda2"; filesystem = "btrfs" })
    ∷ set_mountpoint (record { partition = "/dev/sda2"; mountpoint = "/" })
    ∷ set_mountpoint (record { partition = "/dev/sda1"; mountpoint = "/boot" })
    ∷ []

abbrev custom_disk : DiskData
custom_disk = record { device = "/dev/sda"; mode = custom; mounts = []; operations = requests }

abbrev partitioned : List Partition
partitioned =
    record esp { mountpoint = "/boot" }
    ∷ record { device = "/dev/sda2"; filesystem = "btrfs"; size_mib = 90000; mountpoint = "/" }
    ∷ record { device = ""; filesystem = ""; size_mib = 19000; mountpoint = "" }
    ∷ []

requests_run : apply_operations requests disk_a.partitions ≡ ok partitioned
unfolding apply_operations apply_operation apply_resize apply_set_filesystem apply_set_mountpoint
    locate remove_adjacent_spaces require reject or_throw
requests_run = refl

apply_operations-total_example : total partitioned ≡ total disk_a.partitions
apply_operations-total_example =
    apply_operations-total requests disk_a.partitions partitioned (omega arith) (omega arith)
      requests_run

custom_disk_accepted : validate_custom custom_disk disk_a [] ≡ ok []
unfolding validate_custom verify_mountpoints sum_loop count_mounted apply_operations apply_operation
    apply_resize apply_set_filesystem apply_set_mountpoint locate remove_adjacent_spaces require
    reject or_throw
custom_disk_accepted = refl

validate_custom-IsInstallable_example : RunsTo custom_disk disk_a
validate_custom-IsInstallable_example =
    validate_custom-IsInstallable custom_disk disk_a [] [] custom_disk_accepted

abbrev unnamed_disk : DiskData
unnamed_disk = record custom_disk { device = "/dev/sdb" }

unknown_disk :
    validate_storage (disk_a ∷ []) unnamed_disk [] ≡ err (fail_with unknown_storage_device)
unfolding validate_storage require or_throw
unknown_disk = refl

validate_storage-IsOrdinary_example : IsOrdinary (fail_with unknown_storage_device)
validate_storage-IsOrdinary_example =
    validate_storage-IsOrdinary (disk_a ∷ []) unnamed_disk [] (fail_with unknown_storage_device)
      (omega arith) (omega arith) unknown_disk

remove_adjacent_spaces_lem_example :
    IsMerged (remove_adjacent_spaces (gap ∷ gap ∷ esp ∷ []))
    × (occupied (remove_adjacent_spaces (gap ∷ gap ∷ esp ∷ [])) ≡ esp ∷ [])
remove_adjacent_spaces_lem_example = remove_adjacent_spaces_lem (gap ∷ gap ∷ esp ∷ [])

-- Host and user names.

hostname_tests :
    (is_valid_hostname (codes "jappe-os") ≡ true) × (is_valid_hostname (codes "os-") ≡ false)
unfolding is_valid_hostname
hostname_tests = (refl, refl)

abbrev nobody_known : Bytes → Bool
nobody_known u = false

is_valid_username_iff_example : (is_valid_username nobody_known (codes "root") ≡ true) ↔ (
    Word is_name_char is_name_start (codes "root")
    × (any (λ r. list_beq r (codes "root")) reserved ≡ false)
    × (nobody_known (codes "root") ≡ false))
is_valid_username_iff_example = is_valid_username_iff nobody_known (codes "root")

username_tests :
    (is_valid_username nobody_known (codes "root") ≡ false)
    × (is_valid_username nobody_known (codes "jappe") ≡ true)
unfolding is_valid_username
username_tests = (refl, refl)

-- Plans.

abbrev catalog : Catalog
catalog = record {
  locales = "en_US.UTF-8" ∷ [];
  timezones = "UTC" ∷ [];
  keyboard_layouts = record { id = "U"; name = "Unknown"; variants = "U" ∷ [] } ∷ [];
  storage_devices = disk_a ∷ [];
}

abbrev data_a : InstallData
data_a = record {
  hostname = codes "jappe";
  username = codes "user";
  password = "";
  timezone = "UTC";
  locale = "en_US.UTF-8";
  keyboard_layout = "U";
  keyboard_variant = "U";
  disk = custom_disk;
  install_proprietary = false;
  install_recommended_drivers = false;
}

run-IsVetted_example :
    All
      (IsVetted catalog)
      (run (init catalog) (creates nobody_known 7 data_a ∷ Call.begins 7 ∷ [])).started
    × ((run (init catalog) (creates nobody_known 7 data_a ∷ Call.begins 7 ∷ [])).plan_id ≢ 0
        → (d : InstallData) × ((run
              (init catalog)
              (creates nobody_known 7 data_a ∷ Call.begins 7 ∷ [])).install_data
            ≡ some d))
run-IsVetted_example = run-IsVetted catalog (creates nobody_known 7 data_a ∷ Call.begins 7 ∷ [])

abbrev planned : Installer
planned = record {
  catalog = catalog;
  plan_id = 7;
  install_data = some data_a;
  controller = idle;
  started = [];
}

creation : on_create_install_plan nobody_known 7 data_a (init catalog) ≡ ok (planned, (7, []))
unfolding init on_create_install_plan validate_install_data is_valid_hostname is_valid_username
    validate_storage validate_custom verify_mountpoints sum_loop count_mounted apply_operations
    apply_operation apply_resize apply_set_filesystem apply_set_mountpoint locate
    remove_adjacent_spaces require reject or_throw
creation = refl

-- The same plan as a message
requested :
    create_install_plan nobody_known 7 (encode_plan data_a) (init catalog) ≡ ok (planned, (7, []))
unfolding create_install_plan
requested =
    ap (λ r. r >>= (λ x. on_create_install_plan nobody_known 7 x (init catalog)))
      (decode-encode_plan data_a tt)
    ∙ creation

create-begin_requested_example :
    (s'' : Installer) × (on_begin_installation 7 planned ≡ ok s'')
    × (s''.started ≡ data_a ∷ (init catalog).started)
    × (s''.controller ≡ running)
    × (on_begin_installation 7 s'' ≡ err (fail_with unknown_plan))
create-begin_requested_example =
    create-begin_requested nobody_known 7 data_a (init catalog) planned [] tt (omega arith)
      requested

-- The controller.

abbrev nine : Steps
nine = record { size = 9; name = λ i. "step"; message = λ i. "working" }

-- `StartInstall` has returned, and the new thread has not begun.
abbrev launched : Controller
launched = record {
  state = running;
  cancel_requested = false;
  main = ready;
  worker = spawned;
  old = absent;
  reports = state_changed running "" ∷ [];
}

launched-Reach : (steps : Steps) → Reach steps start launched
unfolding start_loads start_spawns
launched-Reach steps =
    Reach.next
      (Reach.next
        (Reach.next
          (Reach.next (Reach.next Reach.here (starts refl refl)) (stores_running refl refl))
          (reports_running refl refl))
        (spawns refl refl))
      (joins refl refl refl)

Reach-Inv_example : Inv nine launched
Reach-Inv_example = Reach-Inv nine (launched-Reach nine)

abbrev busy : Controller
busy = record {
  state = running;
  cancel_requested = false;
  main = cancelling;
  worker = executing 3;
  old = absent;
  reports = [];
}

-- Step 3 returns, and the head of the loop sees the flag.
abbrev halted : Controller
unfolding loop_head cancel_stores
halted = loop_head 4 (record (cancel_stores busy) { worker = at_step 4 })

cancel_install-Stopping_example : Stopping nine 3 halted
unfolding loop_head cancel_stores
cancel_install-Stopping_example = cancel_install-Stopping nine 3 busy halted refl refl (
    Continues.next (Continues.next Continues.here (returns 3 refl refl) refl)
      (reads 4 refl (omega arith) refl) refl)

cancel_install_lost_example :
    (c' : Controller) × Continues nine (cancel_stores (cancel_loads launched)) c'
    × (c'.state ≡ succeeded)
cancel_install_lost_example = cancel_install_lost nine launched refl refl

abbrev no_steps : Steps
no_steps = record { size = 0; name = λ i. ""; message = λ i. "" }

-- A second run has begun and is reported before the first has reported its success: the last state
-- that a client is told is not the state.
abbrev told_late : Controller
told_late = record {
  state = running;
  cancel_requested = false;
  main = joining;
  worker = spawned;
  old = absent;
  reports =
      state_changed succeeded ""
      ∷ state_changed running ""
      ∷ progress_changed "Done" 100 "Install done!"
      ∷ state_changed running ""
      ∷ [];
}

told_late-Reach : Reach no_steps start told_late
unfolding start_loads start_spawns run_begins loop_ends
told_late-Reach =
    let ended =
      Reach.next
        (Reach.next (Reach.next (launched-Reach no_steps) (begins refl refl)) (finishes refl refl))
        (stores succeeded "" refl refl) in
    Reach.next
      (Reach.next
        (Reach.next (Reach.next (Reach.next ended (starts refl refl)) (stores_running refl refl))
          (reports_running refl refl))
        (spawns refl refl))
      (old_tells succeeded "" refl refl)

-- The steps.

abbrev machine : Machine
machine = record {
  exit = λ log c. exits_zero;
  creates_directories = λ mp. true;
  exists = λ log mp. true;
}

abbrev context : Context
context = record {
  target_root = "";
  boot_partition = "/dev/sda1";
  root_partition = "/dev/sda2";
  targets =
      record { device = "/dev/sda1"; mountpoint = "/boot"; filesystem = "fat32"; format = false }
      ∷ record { device = "/dev/sda2"; mountpoint = "/"; filesystem = "btrfs"; format = true }
      ∷ [];
}

format_step-marked_example :
    GrewBy (formats_marked context.targets) [] (format_step machine context []).1
format_step-marked_example = format_step-marked machine context []

mount_step-Balanced_example : Balanced machine (pending machine []) (mount_step machine context [])
mount_step-Balanced_example = mount_step-Balanced machine context []

abbrev mounted_log : Log
mounted_log = mount "/dev/sda1" install_target_boot ∷ mount "/dev/sda2" install_target_root ∷ []

abbrev mounted_context : Context
mounted_context = record context { target_root = install_target_root }

mounting : mount_step machine context [] ≡ (ok mounted_context, mounted_log)
unfolding mount_step find_target require reject or_throw
mounting = refl

machine-Works : Works machine
machine-Works = record {
  boot_present = λ log. refl;
  root_present = λ log. refl;
  syncs = λ log. refl;
  unmounts = λ log mp mps h. refl;
}

mount_step-cleanup_example :
    Undone machine mounted_context
      (mounted machine [])
      (cleanup_step machine mounted_context mounted_log)
mount_step-cleanup_example =
    mount_step-cleanup machine context mounted_context [] mounted_log mounting machine-Works

-- Where `umount` cannot be started, the exception leaves the context as it is.
abbrev no_umount : Log → Command → Exit
no_umount log (umount mp) = throws
no_umount log _ = exits_zero

umount_not_started :
    (cleanup_step (record machine { exit = no_umount }) mounted_context mounted_log).0
    ≡ mounted_context
unfolding cleanup_step
umount_not_started = refl
