-- ===== src/Drivers/Remembered.antt =====
-- Writing and reading the fingerprint in `HardwareFingerprintChanged`
-- (src/services/driver_manager/driver_manager_service.cpp).
use jappeos_core.Prelude.{
  drop_blanks, ℕ, ◌≡◌, ◌≢◌, append-nil, refl, ap, ◌∙◌, sym, inl, inr, false, ◌||◌, Option, none,
  some, List, [], ◌∷◌, ◌++◌, append_assoc, if◌then◌else◌, if_elim, Bool-cases, ◌==◌, nat_eq,
  list_beq, list_beq_refl, list_empty, All, All-append, Bytes, codes, IsLine, bytes_less, trim,
  trim_same, trim-IsLine, first_line_same, first_line-IsLine, lines, lines-IsLine, arith,
}
use jappeos_core.Drivers.Fingerprint.{
  read_file_trimmed, Device, gpu_of, starts_with, insert_sorted, insert_found, collect_gpus, Block,
  find_value, assign, keys, entry, describe, insert_new, flush, split_colon, read_pair, read_cpus,
  collect_cpus, write_all, fingerprint_of, current_hardware_fingerprint, value_or,
  hardware_fingerprint_changed,
}

read_file_trimmed-IsLine : (f : Option Bytes) → IsLine (read_file_trimmed f)
unfolding read_file_trimmed
read_file_trimmed-IsLine none = tt
read_file_trimmed-IsLine (some c) = trim-IsLine _ (first_line-IsLine c)

join : (s t : Bytes) → IsLine s → IsLine t → IsLine (s ++ t)
join s t h k = All-append (λ c. c ≢ 10) s t h k

insert_sorted-All :
    (x : Bytes) (xs : List Bytes) → IsLine x → All IsLine xs → All IsLine (insert_sorted x xs)
unfolding insert_sorted
insert_sorted-All x [] h k = (h, tt)
insert_sorted-All x (y ∷ ys) h k =
    if_elim (All IsLine) (bytes_less y x) (λ e. (k.0, insert_sorted-All x ys h k.1)) (λ e. (h, k))

insert_new-All :
    (x : Bytes) (xs : List Bytes) → IsLine x → All IsLine xs → All IsLine (insert_new x xs)
unfolding insert_new
insert_new-All x [] h k = (h, tt)
insert_new-All x (y ∷ ys) h k =
    if_elim (All IsLine) (bytes_less y x) (λ e. (k.0, insert_new-All x ys h k.1))
      λ e. if_elim (All IsLine) (bytes_less x y) (λ e'. (h, k)) (λ e'. k)

-- A text, if there is one, is a line.
abbrev Found : Option Bytes → Type 0
Found none = Unit
Found (some s) = IsLine s

gpu_of-Found : (d : Device) → Found (gpu_of d)
unfolding gpu_of
gpu_of-Found d =
    let v = read_file_trimmed-IsLine d.vendor in
    let w = read_file_trimmed-IsLine d.device in
    if_elim Found (starts_with (codes "0x03") (read_file_trimmed d.class))
      (λ e.
        if_elim Found
          (list_empty (read_file_trimmed d.vendor) || list_empty (read_file_trimmed d.device))
          (λ e'. tt) λ e'. join (codes "gpu=") _ (omega arith) (join _ _ v ((omega arith), w)))
      λ e. tt

collect_gpus-All : (ds : List Device) → All IsLine (collect_gpus ds)
unfolding collect_gpus
collect_gpus-All [] = tt
collect_gpus-All (d ∷ ds) =
    found (collect_gpus ds) (gpu_of d) (gpu_of-Found d) (collect_gpus-All ds)
  where
    found :
        (xs : List Bytes) (o : Option Bytes)
        → Found o
        → All IsLine xs
        → All IsLine (insert_found o xs)
    found xs none f k = k
    found xs (some x) f k = insert_sorted-All x xs f k

-- The values of a block are lines.
abbrev IsBlock : Block → Type 0
IsBlock = All (λ e. IsLine e.1)

assign-IsBlock : (k v : Bytes) (b : Block) → IsLine v → IsBlock b → IsBlock (assign k v b)
unfolding assign
assign-IsBlock k v [] h i = (h, tt)
assign-IsBlock k v ((j, u) ∷ b) h i =
    if_elim IsBlock (list_beq j k) (λ e. (h, i.1)) (λ e. (i.0, assign-IsBlock k v b h i.1))

entry-IsLine : (k : Bytes) (b : Block) → IsLine k → IsBlock b → IsLine (entry k (find_value k b))
unfolding find_value
entry-IsLine k [] h i = tt
entry-IsLine k ((j, v) ∷ b) h i =
    if_elim (λ o. IsLine (entry k o)) (list_beq j k)
      (λ e. join k _ h (join (b'=' ∷ v) (b',' ∷ []) (omega arith, i.0) (omega arith)))
      λ e. entry-IsLine k b h i.1

describe-IsLine : (ks : List Bytes) (b : Block) → All IsLine ks → IsBlock b → IsLine (describe ks b)
unfolding describe
describe-IsLine [] b h i = tt
describe-IsLine (k ∷ ks) b h i = join _ _ (entry-IsLine k b h.0 i) (describe-IsLine ks b h.1 i)

keys-All : All IsLine keys
keys-All = omega arith

flush-All : (b : Block) (out : List Bytes) → IsBlock b → All IsLine out → All IsLine (flush b out)
unfolding flush
flush-All b out i k =
    if_elim (All IsLine) (list_empty (describe keys b)) (λ e. k)
      λ e. insert_new-All _ out (describe-IsLine keys b keys-All i) k

-- The text behind the colon is a line.
abbrev FoundPair : Option (Bytes × Bytes) → Type 0
FoundPair none = Unit
FoundPair (some (k, v)) = IsLine v

split_colon-FoundPair : (s : Bytes) → IsLine s → FoundPair (split_colon s)
unfolding split_colon
split_colon-FoundPair [] h = tt
split_colon-FoundPair (c ∷ s) h = split (split_colon s) (split_colon-FoundPair s h.1)
  where
    split :
        (o : Option (Bytes × Bytes))
        → FoundPair o
        → FoundPair (elim o [
          | none ↦ if c == b':' then some ([], s) else none
          | some (k, v) ↦ if c == b':' then some ([], s) else some (c ∷ k, v)
        ])
    split none f = if_elim FoundPair (c == b':') (λ e. h.1) (λ e. tt)
    split (some (k, v)) f = if_elim FoundPair (c == b':') (λ e. h.1) (λ e. f)

read_pair-IsBlock :
    (o : Option (Bytes × Bytes)) (b : Block) → FoundPair o → IsBlock b → IsBlock (read_pair o b)
unfolding assign trim
read_pair-IsBlock none b f i = i
read_pair-IsBlock (some (k, v)) b f i = assign-IsBlock (trim k) (trim v) b (trim-IsLine v f) i

read_cpus-All :
    (ls : List Bytes) (b : Block) (out : List Bytes)
    → All IsLine ls
    → IsBlock b
    → All IsLine out
    → All IsLine (read_cpus ls b out)
unfolding read_cpus
read_cpus-All [] b out h i k = flush-All b out i k
read_cpus-All (l ∷ ls) b out h i k =
    let blank = list_empty (trim l) in
    read_cpus-All ls _ _ h.1
      (if_elim IsBlock blank (λ e. tt)
        λ e. read_pair-IsBlock (split_colon l) b (split_colon-FoundPair l h.0) i)
      (if_elim (All IsLine) blank (λ e. flush-All b out i k) (λ e. k))

collect_cpus-All : (f : Option Bytes) → All IsLine (collect_cpus f)
unfolding collect_cpus
collect_cpus-All none = tt
collect_cpus-All (some c) = read_cpus-All (lines c) [] [] (lines-IsLine c) tt tt

write_all-IsLine :
    (before after : Bytes) (xs : List Bytes)
    → IsLine before
    → IsLine after
    → All IsLine xs
    → IsLine (write_all before after xs)
unfolding write_all
write_all-IsLine before after [] h k l = tt
write_all-IsLine before after (x ∷ xs) h k l =
    join before _ h (join x _ l.0 (join after _ k (write_all-IsLine before after xs h k l.1)))

-- Where something is written, the text ends as each part ends.
write_all-last :
    (before after : Bytes) (c : ℕ) (x : Bytes) (xs : List Bytes)
    → (s : Bytes) × (write_all before (after ++ c ∷ []) (x ∷ xs) ≡ s ++ c ∷ [])
unfolding write_all
write_all-last before after c x [] = (before ++ (x ++ after), simp (append-nil, append_assoc))
write_all-last before after c x (y ∷ ys) =
    let (s, e) = write_all-last before after c y ys in
    (
      before ++ (x ++ ((after ++ c ∷ []) ++ s)),
      ap (λ t. before ++ (x ++ ((after ++ c ∷ []) ++ t))) e ∙ simp append_assoc,
    )

-- The text that is written is a line with no blanks around it.
abbrev Survives : Bytes → Type 0
Survives s = IsLine s × (trim s ≡ s)

trim_question : trim (codes "?") ≡ codes "?"
unfolding trim drop_blanks
trim_question = refl

trim_between : (w m : Bytes) → w ≡ (b'v' ∷ m) ++ b';' ∷ [] → trim w ≡ w
trim_between w m e = rw e (trim_same b'v' b';' m refl refl)

fingerprint_of-Survives :
    (cpus gpus : List Bytes)
    → All IsLine cpus
    → All IsLine gpus
    → Survives (value_or (codes "?") (fingerprint_of cpus gpus))
unfolding write_all
fingerprint_of-Survives [] gpus h k = (omega arith, trim_question)
fingerprint_of-Survives (c ∷ cpus) gpus h k =
    let first = write_all [] (b';' ∷ []) gpus in
    let (s, e) = write_all-last (codes "cpu{") (b'}' ∷ []) b';' c cpus in
    (
      join (codes "v1;") _ (omega arith) (
          join _ _ (write_all-IsLine [] (b';' ∷ []) gpus tt (omega arith) k) (
            write_all-IsLine (codes "cpu{") (codes "};") (c ∷ cpus) (omega arith) (omega arith) h)),
      trim_between _ (b'1' ∷ b';' ∷ (first ++ s)) (
          ap (λ t. codes "v1;" ++ (first ++ t)) e
          ∙ ap (λ t. codes "v1;" ++ t) (sym (append_assoc first s (b';' ∷ [])))),
    )

read_back : (s : Bytes) → Survives s → read_file_trimmed (some s) ≡ s
unfolding read_file_trimmed
read_back s h = ap trim (first_line_same s h.0) ∙ h.1

-- Where writing a file leaves in it what was written: once `HardwareFingerprintChanged` has been
-- asked, whatever it found, it says that nothing has changed on the same hardware, although its
-- caller may not have installed anything since.
pub hardware_fingerprint_changed_twice :
    (write : Option Bytes → Bytes → Option Bytes)
    → ((f : Option Bytes) (c : Bytes) → write f c ≡ some c)
    → (cpuinfo : Option Bytes) (devices : List Device) (file : Option Bytes)
    → let file' = (hardware_fingerprint_changed write cpuinfo devices file).1 in
      hardware_fingerprint_changed write cpuinfo devices file' ≡ (false, file')
unfolding hardware_fingerprint_changed current_hardware_fingerprint
hardware_fingerprint_changed_twice write writes cpuinfo devices file =
    elim (Bool-cases (list_beq (read_file_trimmed file) current)) [
      | inl e ↦ rw e (rw e refl)
      | inr e ↦
          let back : read_file_trimmed (write file current) ≡ current =
            ap read_file_trimmed (writes file current) ∙ read_back current survives in
          rw (e, back, list_beq_refl current) refl
    ]
  where
    current : Bytes
    current = value_or (codes "?") (current_hardware_fingerprint cpuinfo devices)

    survives : Survives current
    survives =
        fingerprint_of-Survives (collect_cpus cpuinfo) (collect_gpus devices)
          (collect_cpus-All cpuinfo) (collect_gpus-All devices)
