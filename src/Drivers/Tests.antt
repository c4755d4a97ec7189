-- ===== src/Drivers/Tests.antt =====
-- The drivers of data/jappeos_core/driver_manager/ on a machine with one of the devices.
use jappeos_core.Prelude.{
  ok, ◌≤◌, ◌≡◌, refl, true, false, ◌||◌, Option, none, some, List, [], ◌∷◌, string_eq, Bytes, codes,
  ◌++◌, ltb, length,
}
use jappeos_core.Drivers.Data.{
  static_driver, additional_driver, DriverInfo, Machine, add_drivers, on_list_available_drivers,
  on_list_available_additional_drivers,
}
use jappeos_core.Drivers.Install.{retry_count, try_install, has_device_for_driver}
use jappeos_core.Drivers.Orderly.{Orderly, checks, wants, try_install_order}
use jappeos_core.Drivers.Success.{try_install_success}
use jappeos_core.Drivers.Worker.{
  Worker, Reach, here, next, new_worker, thread_begins, wait_ends, run_ends, connections, begins,
  wakes, waiting, connections-run_ends,
}
use jappeos_core.Drivers.Fingerprint.{
  Device, hardware_fingerprint_changed, current_hardware_fingerprint,
}
use jappeos_core.Drivers.Remembered.{hardware_fingerprint_changed_twice}

abbrev amd : DriverInfo
amd = record {
  name = "AMD Graphics Stack";
  type = static_driver;
  packages = "mesa" ∷ "vulkan-radeon" ∷ [];
  device_finder = record {
    path = "/sys/class/drm/";
    entry_regex = "^card";
    content_matches = record { path = "device/vendor"; regex = "^0x1002$" } ∷ [];
  };
}

abbrev extra : DriverInfo
extra = record amd { name = "Extra"; type = additional_driver }

-- A machine that fails to install anything.
abbrev broken : Machine
broken = record {
  stops = λ t. false;
  check = λ t. true;
  remove = λ t p. true;
  install = λ t p. false;
  compile = λ r. some (λ v. true);
  directory =
      λ path. some (record { name = "card0"; is_directory = true; line = λ f. some "0x1002" } ∷ []);
}

-- A machine that stops the worker after a while, and whose checks fail at first.
abbrev stopping : Machine
stopping = record broken {
  stops = λ t. ltb 7 (length t);
  check = λ t. ltb 2 (length t);
  install = λ t p. true;
}

lists_drivers :
    on_list_available_drivers (add_drivers (extra ∷ amd ∷ extra ∷ []) [])
    ≡ "AMD Graphics Stack" ∷ "Extra" ∷ []
unfolding on_list_available_drivers add_drivers
lists_drivers = refl

lists_additional : on_list_available_additional_drivers (amd ∷ extra ∷ []) ≡ "Extra" ∷ []
unfolding on_list_available_additional_drivers
lists_additional = refl

stops_early : (try_install stopping retry_count (amd ∷ []) []).0 ≡ false
unfolding try_install
stops_early = refl

try_install_order_example :
    let t = (try_install stopping retry_count (amd ∷ extra ∷ []) []).1 in
    Orderly (λ p. wants (amd ∷ extra ∷ []) p ≡ true) t × (checks t ≤ 4)
try_install_order_example = try_install_order stopping (amd ∷ extra ∷ [])

has_amd : has_device_for_driver broken amd.device_finder ≡ ok true
unfolding has_device_for_driver
has_amd = refl

try_install_success_example : (try_install broken retry_count (amd ∷ extra ∷ []) []).0 ≡ true
try_install_success_example =
    try_install_success broken (amd ∷ extra ∷ []) (λ t. refl) refl
      ((λ s. (true, has_amd)), ((λ s. (true, has_amd)), tt))

abbrev in_run : Worker
in_run = wait_ends (thread_begins true new_worker)

in_run-Reach : Reach new_worker in_run
unfolding thread_begins wait_ends
in_run-Reach = next (next here (begins true refl refl)) (wakes refl refl refl)

connections-run_ends_example :
    let v = run_ends false (connections 2 in_run) in
    (v.phase ≡ waiting) × ((v.stopping || v.install_requested) ≡ false)
unfolding thread_begins wait_ends
connections-run_ends_example = connections-run_ends 2 in_run-Reach refl refl

abbrev cpuinfo : Option Bytes
cpuinfo = some (codes "vendor_id : GenuineIntel" ++ 10 ∷ codes "model : 7")

abbrev devices : List Device
devices =
    record {
      class = some (codes "0x030000");
      vendor = some (codes "0x1002");
      device = some (codes "0x73bf");
    }
    ∷ []

reads_hardware :
    current_hardware_fingerprint cpuinfo devices
    ≡ some (codes "v1;gpu=0x1002:0x73bf;cpu{vendor_id=GenuineIntel,model=7,};")
unfolding current_hardware_fingerprint
reads_hardware = refl

abbrev written : Option Bytes → Bytes → Option Bytes
written f c = some c

hardware_fingerprint_changed_twice_example :
    let file' = (hardware_fingerprint_changed written cpuinfo devices none).1 in
    hardware_fingerprint_changed written cpuinfo devices file' ≡ (false, file')
hardware_fingerprint_changed_twice_example =
    hardware_fingerprint_changed_twice written (λ f c. refl) cpuinfo devices none
