-- ===== src/Drivers/Fingerprint.antt =====
-- `HardwareFingerprintChanged` and `GetCurrentHardwareFingerprint`
-- (src/services/driver_manager/driver_manager_service.cpp), over the contents of the files that
-- they read; `none` is a file that does not open.
use jappeos_core.Prelude.{
  Bool, true, false, ◌||◌, Option, none, some, List, [], ◌∷◌, ◌++◌, if◌then◌else◌, ◌==◌, nat_eq,
  list_beq, list_empty, Bytes, codes, bytes_less, trim, first_line, lines,
}

-- `ReadFileTrimmed`
unfoldable pub read_file_trimmed : Option Bytes → Bytes
unfolding trim first_line
read_file_trimmed none = []
read_file_trimmed (some content) = trim (first_line content)

-- An entry of /sys/bus/pci/devices, with its files.
pub record Device : Type 0 where
  pub class : Option Bytes
  pub vendor : Option Bytes
  pub device : Option Bytes

unfoldable pub starts_with : Bytes → Bytes → Bool
starts_with [] s = true
starts_with (c ∷ p) [] = false
starts_with (c ∷ p) (d ∷ s) = if c == d then starts_with p s else false

-- One round of the loop in `collectGpus`.
unfoldable pub gpu_of : Device → Option Bytes
unfolding read_file_trimmed starts_with
gpu_of d =
    let vendor = read_file_trimmed d.vendor in
    let device = read_file_trimmed d.device in
    if starts_with (codes "0x03") (read_file_trimmed d.class)
    then if list_empty vendor || list_empty device
      then none
      else some (codes "gpu=" ++ (vendor ++ (b':' ∷ device)))
    else none

unfoldable pub insert_sorted : Bytes → List Bytes → List Bytes
unfolding bytes_less
insert_sorted x [] = x ∷ []
insert_sorted x (y ∷ ys) = if bytes_less y x then y ∷ insert_sorted x ys else x ∷ y ∷ ys

abbrev pub insert_found : Option Bytes → List Bytes → List Bytes
unfolding insert_sorted
insert_found none xs = xs
insert_found (some x) xs = insert_sorted x xs

-- `collectGpus`: the entries in the order of `std::sort`, duplicates kept.
unfoldable pub collect_gpus : List Device → List Bytes
unfolding gpu_of insert_sorted
collect_gpus [] = []
collect_gpus (d ∷ ds) = insert_found (gpu_of d) (collect_gpus ds)

-- The map `block` of `collectCpus`, an entry for each key.
abbrev pub Block : Type 0
Block = List (Bytes × Bytes)

unfoldable pub find_value : Bytes → Block → Option Bytes
find_value k [] = none
find_value k ((j, v) ∷ b) = if list_beq j k then some v else find_value k b

-- `block[key] = value`
unfoldable pub assign : Bytes → Bytes → Block → Block
assign k v [] = (k, v) ∷ []
assign k v ((j, u) ∷ b) = if list_beq j k then (k, v) ∷ b else (j, u) ∷ assign k v b

abbrev pub keys : List Bytes
keys =
    codes "vendor_id"
    ∷ codes "cpu family"
    ∷ codes "model"
    ∷ codes "stepping"
    ∷ codes "CPU implementer"
    ∷ codes "CPU architecture"
    ∷ codes "CPU variant"
    ∷ codes "CPU part"
    ∷ codes "CPU revision"
    ∷ []

abbrev pub entry : Bytes → Option Bytes → Bytes
entry k none = []
entry k (some v) = k ++ ((b'=' ∷ v) ++ (b',' ∷ []))

-- The text that `flush` builds.
unfoldable pub describe : List Bytes → Block → Bytes
unfolding find_value
describe [] b = []
describe (k ∷ ks) b = entry k (find_value k b) ++ describe ks b

-- `std::set::insert`
unfoldable pub insert_new : Bytes → List Bytes → List Bytes
unfolding bytes_less
insert_new x [] = x ∷ []
insert_new x (y ∷ ys) =
    if bytes_less y x then y ∷ insert_new x ys else if bytes_less x y then x ∷ y ∷ ys else y ∷ ys

-- `flush`, but for the clearing of the block.
unfoldable pub flush : Block → List Bytes → List Bytes
unfolding describe insert_new
flush b out = if list_empty (describe keys b) then out else insert_new (describe keys b) out

-- The text before the first colon and the text behind it.
unfoldable pub split_colon : Bytes → Option (Bytes × Bytes)
split_colon [] = none
split_colon (c ∷ s) = elim (split_colon s) [
  | none ↦ if c == b':' then some ([], s) else none
  | some (k, v) ↦ if c == b':' then some ([], s) else some (c ∷ k, v)
]

abbrev pub read_pair : Option (Bytes × Bytes) → Block → Block
unfolding assign trim
read_pair none b = b
read_pair (some (k, v)) b = assign (trim k) (trim v) b

-- The loop of `collectCpus` over the lines.
unfoldable pub read_cpus : List Bytes → Block → List Bytes → List Bytes
unfolding flush split_colon assign trim
read_cpus [] b out = flush b out
read_cpus (l ∷ ls) b out =
    let blank = list_empty (trim l) in
    read_cpus ls (if blank then [] else read_pair (split_colon l) b)
      (if blank then flush b out else out)

-- `collectCpus`
unfoldable pub collect_cpus : Option Bytes → List Bytes
unfolding read_cpus lines
collect_cpus none = []
collect_cpus (some content) = read_cpus (lines content) [] []

unfoldable pub write_all : Bytes → Bytes → List Bytes → Bytes
write_all before after [] = []
write_all before after (x ∷ xs) = before ++ (x ++ (after ++ write_all before after xs))

abbrev pub fingerprint_of : List Bytes → List Bytes → Option Bytes
unfolding write_all
fingerprint_of cpus gpus =
    if list_empty cpus
    then none
    else some (
        codes "v1;"
        ++ (write_all [] (b';' ∷ []) gpus ++ write_all (codes "cpu{") (codes "};") cpus))

-- `GetCurrentHardwareFingerprint`
unfoldable pub current_hardware_fingerprint : Option Bytes → List Device → Option Bytes
unfolding collect_cpus collect_gpus write_all
current_hardware_fingerprint cpuinfo devices =
    fingerprint_of (collect_cpus cpuinfo) (collect_gpus devices)

abbrev pub value_or : Bytes → Option Bytes → Bytes
value_or d none = d
value_or d (some a) = a

-- `HardwareFingerprintChanged`: whether it is, and the file that it leaves. `write` is the file
-- after `WriteFile`.
unfoldable pub hardware_fingerprint_changed :
    (Option Bytes → Bytes → Option Bytes)
    → Option Bytes
    → List Device
    → Option Bytes
    → Bool × Option Bytes
unfolding current_hardware_fingerprint read_file_trimmed
hardware_fingerprint_changed write cpuinfo devices file =
    let current = value_or (codes "?") (current_hardware_fingerprint cpuinfo devices) in
    if list_beq (read_file_trimmed file) current then (false, file) else (true, write file current)
