-- ===== src/Installer/Storage/Safety.antt =====
-- Errors of the storage validation that cannot happen: the "BUG" throw of the custom mode, and a
-- dereferenced null pointer.
use jappeos_core.Installer.Storage.Conservation.{apply_operations-total, size_of}
use jappeos_core.Installer.Storage.Sizes.{sum_loop-eq-total, sum_loop, total}
use jappeos_core.Installer.Storage.Validate.{
  validate_mode, validate_erase, find_device, check_mounts, validate_storage, validate_manual,
  mounts_at, Mounted, check_mount, count_mounted, Warning, validate_custom, verify_mountpoints,
}
use jappeos_core.Installer.Storage.Operations.{
  apply_set_filesystem, apply_set_mountpoint, apply_remove, apply_resize, apply_operations,
  apply_create, apply_operation,
}
use jappeos_core.Installer.Exception.{sizes_do_not_add_up, null_dereference, thrown, Exception}
use jappeos_core.Installer.Data.{
  custom, manual, erase, other_mode, DiskMode, boot_ne_root, MountData, set_filesystem,
  set_mountpoint, remove, resize, mountpoint_root, mountpoint_boot, create, CreateData, Operation,
  StorageDevice, DiskData, Partition,
}
use jappeos_core.Prelude.{
  inr, subst, Raises-err, inl, Bool-cases, err, Ensures-map, refl, some, Ensures-ok, bind-Ensures,
  eq_iff, value, reject-Ensures, or_throw-Ensures, require-Ensures, ◌+◌, count_if, Ensures, ℕ,
  Raises, quiet, require-Raises, reject-Raises, or_throw-Raises, bind-Raises, ◌^◌, ◌<◌, String, ◌≡◌,
  true, false, none, List, [], ◌∷◌, arith, ◌==◌, nat_eq, string_eq, All, Result, ok, u64_mod,
}
use jappeos_core.Installer.Storage.Mounts.{count_mounted_unique}

-- Neither the throw that reports a bug nor undefined behaviour.
abbrev pub IsOrdinary : Exception → Type 0
IsOrdinary null_dereference = ⊥
IsOrdinary (thrown name sizes_do_not_add_up) = ⊥
IsOrdinary (thrown name r) = Unit

abbrev Ordinary : {A : Type 0} → Result Exception A → Type 0
Ordinary = Raises IsOrdinary

verify_mountpoints-Ordinary :
    (b r : Partition) (ws : List Warning) → Ordinary (verify_mountpoints b r ws)
unfolding verify_mountpoints
verify_mountpoints-Ordinary b r ws =
    require-Raises _ _ (λ _. tt)
      λ _.
        reject-Raises _ _ (λ _. tt)
          λ _.
            reject-Raises _ _ (λ _. tt)
              λ _. require-Raises _ _ (λ _. tt) λ _. reject-Raises _ _ (λ _. tt) λ _. quiet

create-Ordinary : (o : CreateData) (ps : List Partition) → Ordinary (apply_create o ps)
unfolding apply_create
create-Ordinary o ps =
    reject-Raises _ _ (λ _. tt)
      λ _.
        or_throw-Raises _ _ (λ _. tt)
          λ c e.
            require-Raises _ _ (λ _. tt)
              λ _.
                reject-Raises _ _ (λ _. tt)
                  λ _.
                    reject-Raises _ _ (λ _. tt)
                      λ _.
                        reject-Raises _ _ (λ _. tt)
                          λ _.
                            require-Raises _ _ (λ _. tt)
                              λ _. require-Raises _ _ (λ _. tt) λ _. quiet

operation-Ordinary : (o : Operation) (ps : List Partition) → Ordinary (apply_operation o ps)
unfolding apply_operation apply_resize apply_remove apply_set_mountpoint apply_set_filesystem
operation-Ordinary (create o) ps = create-Ordinary o ps
operation-Ordinary (resize o) ps =
    reject-Raises _ _ (λ _. tt)
      λ _.
        or_throw-Raises _ _ (λ _. tt)
          λ c e.
            reject-Raises _ _ (λ _. tt)
              λ _.
                reject-Raises _ _ (λ _. tt)
                  λ _. reject-Raises _ _ (λ _. tt) λ _. reject-Raises _ _ (λ _. tt) λ _. quiet
operation-Ordinary (remove o) ps =
    reject-Raises _ _ (λ _. tt)
      λ _. or_throw-Raises _ _ (λ _. tt) λ c e. reject-Raises _ _ (λ _. tt) λ _. quiet
operation-Ordinary (set_mountpoint o) ps =
    reject-Raises _ _ (λ _. tt)
      λ _.
        or_throw-Raises _ _ (λ _. tt)
          λ c e. reject-Raises _ _ (λ _. tt) λ _. require-Raises _ _ (λ _. tt) λ _. quiet
operation-Ordinary (set_filesystem o) ps =
    reject-Raises _ _ (λ _. tt)
      λ _.
        or_throw-Raises _ _ (λ _. tt)
          λ c e. reject-Raises _ _ (λ _. tt) λ _. require-Raises _ _ (λ _. tt) λ _. quiet

operations-Ordinary :
    (os : List Operation) (ps : List Partition) → Ordinary (apply_operations os ps)
unfolding apply_operations
operations-Ordinary [] ps = quiet
operations-Ordinary (o ∷ os) ps =
    bind-Raises (operation-Ordinary o ps) λ qs e. operations-Ordinary os qs

-- The two sums agree when no space was gained or lost.
sum_loop-eq :
    (ps qs : List Partition) → total ps ≡ total qs → (sum_loop 0 ps == sum_loop 0 qs) ≡ true
sum_loop-eq ps qs h =
    (nat_eq.test_iff _ _).1
      (omega (arith, sum_loop-eq-total 0 ps (omega arith), sum_loop-eq-total 0 qs (omega arith)))

-- The sizes are those of a real disk: together fewer than 2^63 MiB, and each request a `uint64_t`.
pub record IsSized (disk : DiskData) (device : StorageDevice) : Type 0 where
  pub device_size : total device.partitions < 2 ^ 63
  pub request_sizes : All (λ o. size_of o < u64_mod) disk.operations

custom-Ordinary :
    (disk : DiskData) (device : StorageDevice) (ws : List Warning)
    → IsSized disk device
    → Ordinary (validate_custom disk device ws)
unfolding validate_custom
custom-Ordinary disk device ws s =
    require-Raises _ _ (λ _. tt)
      λ _. bind-Raises (operations-Ordinary disk.operations device.partitions) λ qs e.
        require-Raises _ _ (λ no_sum. absurd (bad_sum qs e no_sum))
          λ _.
            require-Raises _ _ (λ _. tt)
              λ boot.
                require-Raises _ _ (λ _. tt)
                  λ root.
                    or_throw-Raises _ _ (λ gone. absurd (bad_pointer qs mountpoint_boot boot gone))
                      λ b eb.
                        or_throw-Raises _ _
                          (λ gone. absurd (bad_pointer qs mountpoint_root root gone))
                          λ r er. verify_mountpoints-Ordinary b r ws
  where
    bad_sum :
        (qs : List Partition)
        → apply_operations disk.operations device.partitions ≡ ok qs
        → (sum_loop 0 qs == sum_loop 0 device.partitions) ≡ false
        → ⊥
    bad_sum qs e h =
        let t = sum_loop-eq qs device.partitions (
          apply_operations-total disk.operations device.partitions qs s.device_size s.request_sizes
            e) in
        cc

    bad_pointer :
        (qs : List Partition) (m : String)
        → ((count_mounted m qs 0 none).0 == 1) ≡ true
        → (count_mounted m qs 0 none).1 ≡ none
        → ⊥
    bad_pointer qs m h gone =
        let (b, e, _) = count_mounted_unique m qs ((nat_eq.test_iff _ _).0 h) in cc

-- Once a mount at the boot or root mountpoint has been counted, the pointer to it is set.
abbrev HasPointers : ℕ → ℕ → Mounted → Type 0
HasPointers boots roots s = ((s.boot ≡ none) → boots ≡ 0) × ((s.root ≡ none) → roots ≡ 0)

check_mount-HasPointers :
    (partitions : List Partition) (m : MountData) (s : Mounted) (boots roots : ℕ)
    → HasPointers boots roots s
    → Ensures
        (HasPointers
          (count_if (mounts_at mountpoint_boot) (m ∷ []) + boots)
          (count_if (mounts_at mountpoint_root) (m ∷ []) + roots))
        (check_mount partitions m s)
unfolding check_mount
check_mount-HasPointers partitions m s boots roots (hb, hr) = require-Ensures _ _ λ _.
    or_throw-Ensures _ _ λ c e. reject-Ensures _ _ λ _. reject-Ensures _ _ λ _. value (
      ground (
        arith,
        eq_iff m.mountpoint mountpoint_boot,
        eq_iff m.mountpoint mountpoint_root,
        boot_ne_root,
      ),
      ground (
        arith,
        eq_iff m.mountpoint mountpoint_boot,
        eq_iff m.mountpoint mountpoint_root,
        boot_ne_root,
      ),
    )

check_mounts-HasPointers :
    (partitions : List Partition) (ms : List MountData) (s : Mounted) (boots roots : ℕ)
    → HasPointers boots roots s
    → Ensures
        (HasPointers
          (count_if (mounts_at mountpoint_boot) ms + boots)
          (count_if (mounts_at mountpoint_root) ms + roots))
        (check_mounts partitions ms s)
unfolding check_mounts
check_mounts-HasPointers partitions [] s boots roots h =
    value ((λ e. omega (arith, h.0 e)), (λ e. omega (arith, h.1 e)))
check_mounts-HasPointers partitions (m ∷ ms) s boots roots h =
    bind-Ensures (check_mount-HasPointers partitions m s boots roots h) λ s' h'.
      Ensures-map (λ t k. ((λ e. omega (arith, k.0 e)), (λ e. omega (arith, k.1 e))))
        (check_mounts-HasPointers partitions ms s' _ _ h')

check_mounts-Ordinary :
    (partitions : List Partition) (ms : List MountData) (s : Mounted)
    → Ordinary (check_mounts partitions ms s)
unfolding check_mounts check_mount
check_mounts-Ordinary partitions [] s = quiet
check_mounts-Ordinary partitions (m ∷ ms) s =
    bind-Raises
      (require-Raises _ _ (λ _. tt)
        λ _.
          or_throw-Raises _ _ (λ _. tt)
            λ c e. reject-Raises _ _ (λ _. tt) λ _. reject-Raises _ _ (λ _. tt) λ _. quiet)
      λ s' e. check_mounts-Ordinary partitions ms s'

manual-Ordinary :
    (disk : DiskData) (device : StorageDevice) (ws : List Warning)
    → Ordinary (validate_manual disk device ws)
unfolding validate_manual
manual-Ordinary disk device ws =
    require-Raises _ _ (λ _. tt)
      λ _. bind-Raises (check_mounts-Ordinary device.partitions disk.mounts start) λ s e.
        let h =
          Ensures-ok
            (check_mounts-HasPointers device.partitions disk.mounts start 0 0
              ((λ _. refl), (λ _. refl)))
            e in
        require-Raises _ _ (λ _. tt)
          λ boots.
            require-Raises _ _ (λ _. tt)
              λ roots.
                or_throw-Raises _ _
                  (λ gone. absurd (omega (arith, h.0 gone, (nat_eq.test_iff _ _).0 boots)))
                  λ b eb.
                    or_throw-Raises _ _
                      (λ gone. absurd (omega (arith, h.1 gone, (nat_eq.test_iff _ _).0 roots)))
                      λ r er. verify_mountpoints-Ordinary b r ws
  where
    start : Mounted
    start = record { boot = none; root = none; seen = [] }

find_device-All :
    (P : StorageDevice → Type 0) (id : String) (ds : List StorageDevice) {d : StorageDevice}
    → All P ds
    → find_device id ds ≡ some d
    → P d
unfolding find_device
find_device-All P id [] h e = absurd (cc)
find_device-All P id (x ∷ ds) {d} h e = elim (Bool-cases (x.device == id)) [
  | inl t ↦ let e' = rw t at e in subst P (cc) h.0
  | inr f ↦ let e' = rw f at e in find_device-All P id ds h.1 e'
]

-- Whatever the client asks for, the storage validation never throws "BUG: Partition sizes do not
-- add up to the device size" and never dereferences a null pointer, when each disk has fewer than
-- 2^63 MiB and the requested sizes are `uint64_t` values.
pub validate_storage-IsOrdinary :
    (devices : List StorageDevice) (disk : DiskData) (ws : List Warning) (e : Exception)
    → All (λ d. total d.partitions < 2 ^ 63) devices
    → All (λ o. size_of o < u64_mod) disk.operations
    → validate_storage devices disk ws ≡ err e
    → IsOrdinary e
unfolding validate_storage validate_erase
validate_storage-IsOrdinary devices disk ws e sizes requests failure =
    Raises-err
      (require-Raises _ _ (λ _. tt)
        λ _.
          or_throw-Raises _ _ (λ _. tt)
            λ device found.
              by_mode disk.mode device (
                find_device-All (λ d. total d.partitions < 2 ^ 63) disk.device devices sizes found))
      failure
  where
    by_mode :
        (m : DiskMode) (device : StorageDevice)
        → total device.partitions < 2 ^ 63
        → Ordinary (validate_mode m disk device ws)
    by_mode erase device h =
        require-Raises _ _ (λ _. tt) λ _. reject-Raises _ _ (λ _. tt) λ _. quiet
    by_mode manual device h = manual-Ordinary disk device ws
    by_mode custom device h =
        custom-Ordinary disk device ws (record { device_size = h; request_sizes = requests })
    by_mode (other_mode n) device h = quiet
