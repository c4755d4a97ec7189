-- ===== src/Drivers/Data.antt =====
-- The records of src/services/driver_manager/driver_manager_service.h, and what the service asks
-- of the machine: pacman, sysfs, the regular expressions, and the flag that ends it.
use jappeos_core.Prelude.{
  map, String, Bool, true, false, Option, List, [], ◌∷◌, if◌then◌else◌, ◌==◌, string_eq, any,
  text_less,
}

pub data DriverType : Type 0 where
  static_driver additional_driver : DriverType

-- `PathDriverDeviceFinderContentMatchInfo`
pub record ContentMatch : Type 0 where
  pub path : String
  pub regex : String

-- `PathDriverDeviceFinderInfo`
pub record DeviceFinder : Type 0 where
  pub path : String
  pub entry_regex : String
  pub content_matches : List ContentMatch

pub record DriverInfo : Type 0 where
  pub name : String
  pub type : DriverType
  pub packages : List String
  pub device_finder : DeviceFinder

-- What the worker does that others can tell: it reads `_stopping`, it waits before an attempt (and
-- sees `_stopping`), and it runs pacman, which succeeds or not.
pub data Event : Type 0 where
  sees waits checks_packages : Bool → Event
  removes installs : String → Bool → Event

-- The newest event first.
abbrev pub Trace : Type 0
Trace = List Event

-- An entry of a directory; `line` is the first line of a file below it, if that can be opened.
pub record Entry : Type 0 where
  pub name : String
  pub is_directory : Bool
  pub line : String → Option String

-- `stops` is the value of `_stopping` after the events. `compile` is the constructor of
-- `std::regex` with `std::regex_search`, `none` where it throws.
pub record Machine : Type 0 where
  pub stops : Trace → Bool
  pub check : Trace → Bool
  pub remove : Trace → String → Bool
  pub install : Trace → String → Bool
  pub compile : String → Option (String → Bool)
  pub directory : String → Option (List Entry)

abbrev pub is_static : DriverInfo → Bool
is_static d = elim d.type [ static_driver ↦ true | additional_driver ↦ false ]

-- `finalDrivers.emplace`, in the order of the `std::map`.
unfoldable pub insert_driver : DriverInfo → List DriverInfo → List DriverInfo
unfolding text_less
insert_driver d [] = d ∷ []
insert_driver d (e ∷ ds) = if text_less e.name d.name then e ∷ insert_driver d ds else d ∷ e ∷ ds

unfoldable pub add_driver : DriverInfo → List DriverInfo → List DriverInfo
unfolding insert_driver
add_driver d ds = if any (λ e. e.name == d.name) ds then ds else insert_driver d ds

-- The loop of the constructor: the first driver of a name stays.
unfoldable pub add_drivers : List DriverInfo → List DriverInfo → List DriverInfo
unfolding add_driver
add_drivers [] ds = ds
add_drivers (d ∷ found) ds = add_drivers found (add_driver d ds)

-- `OnListAvailableDrivers`
unfoldable pub on_list_available_drivers : List DriverInfo → List String
on_list_available_drivers ds = map (λ d. d.name) ds

abbrev is_additional : DriverInfo → Bool
is_additional d = elim d.type [ static_driver ↦ false | additional_driver ↦ true ]

-- `OnListAvailableAdditionalDrivers`
unfoldable pub on_list_available_additional_drivers : List DriverInfo → List String
on_list_available_additional_drivers [] = []
on_list_available_additional_drivers (d ∷ ds) =
    let rest = on_list_available_additional_drivers ds in
    if is_additional d then d.name ∷ rest else rest
