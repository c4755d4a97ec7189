-- ===== src/Installer/Storage/Accepts.antt =====
-- What an accepted disk plan is: `verify_mountpoints` decides it, and the custom mode rests on it.
use jappeos_core.Installer.Storage.Operations.{apply_operations}
use jappeos_core.Installer.Storage.Validate.{
  count_mounted, is_mounted_at, validate_custom, warn_if, root_below_recommended,
  boot_below_recommended, Warning, verify_mountpoints,
}
use jappeos_core.Installer.Data.{
  StorageDevice, DiskData, mountpoint_root, mountpoint_boot, is_valid_storage_filesystem, Partition,
}
use jappeos_core.Prelude.{
  subst, list_empty_nil, Ensures-self, append-nil, append_assoc, Ensures, value, require-Ensures,
  reject-Ensures, or_throw-Ensures, bind-Ensures, Ensures-ok, Ensures-map, ◌≤◌, ◌≡◌, refl, sym, ◌≢◌,
  ◌↔◌, Bool, true, false, none, some, List, [], ◌∷◌, ◌++◌, arith, ltb, if◌then◌else◌, ◌==◌, nat_eq,
  string_eq, eq_iff, count_if, ok, require, reject,
}
use jappeos_core.Installer.Storage.Mounts.{count_mounted_one, count_mounted_unique, OnlyAt}

-- A boot and a root partition that the installed system can start from.
pub record IsBootable (boot root : Partition) : Type 0 where
  pub boot_fat32 : boot.filesystem ≡ "fat32"
  pub boot_size : 100 ≤ boot.size_mib
  pub root_not_fat32 : root.filesystem ≢ "fat32"
  pub root_supported : is_valid_storage_filesystem root.filesystem false ≡ true
  pub root_size : 40960 ≤ root.size_mib

-- The boot warning, then the root warning.
abbrev pub size_warnings : Partition → Partition → List Warning
size_warnings boot root =
    (if ltb boot.size_mib 512 then boot_below_recommended 512 ∷ [] else [])
    ++ (if ltb root.size_mib 81920 then root_below_recommended 81920 ∷ [] else [])

two_warnings :
    (b r : Bool) (x y : Warning) (ws : List Warning)
    → warn_if r y (warn_if b x ws)
      ≡ ws ++ ((if b then x ∷ [] else []) ++ (if r then y ∷ [] else []))
two_warnings true true x y ws = append_assoc ws (x ∷ []) (y ∷ [])
two_warnings true false x y ws = refl
two_warnings false true x y ws = refl
two_warnings false false x y ws = sym (append-nil ws)

verify_mountpoints_sound :
    (boot root : Partition) (ws : List Warning)
    → Ensures
        (λ ws'. IsBootable boot root × (ws' ≡ ws ++ size_warnings boot root))
        (verify_mountpoints boot root ws)
unfolding verify_mountpoints
verify_mountpoints_sound boot root ws = require-Ensures _ _ λ fat. reject-Ensures _ _ λ big.
    reject-Ensures _ _ λ not_fat. require-Ensures _ _ λ supported. reject-Ensures _ _ λ large.
      value (
        record {
          boot_fat32 = (eq_iff _ _).0 fat;
          boot_size = ground arith;
          root_not_fat32 = λ e. let t = (eq_iff _ _).1 e in cc;
          root_supported = supported;
          root_size = ground arith;
        },
        two_warnings _ _ _ _ ws,
      )

verify_mountpoints_complete :
    (boot root : Partition) (ws : List Warning)
    → IsBootable boot root
    → verify_mountpoints boot root ws ≡ ok (ws ++ size_warnings boot root)
unfolding verify_mountpoints require reject
verify_mountpoints_complete boot root ws h = ground (
  arith,
  eq_iff boot.filesystem "fat32",
  eq_iff root.filesystem "fat32",
  two_warnings (ltb boot.size_mib 512) (ltb root.size_mib 81920) (boot_below_recommended 512)
      (root_below_recommended 81920) ws,
)

-- `verify_mountpoints` accepts a boot and a root partition exactly when the first is a FAT32
-- partition of at least 100 MiB and the second a supported one, not FAT32, of at least 40960 MiB;
-- and then it adds the warning about each of them that is below the recommended size.
verify_mountpoints_iff :
    (boot root : Partition) (ws ws' : List Warning)
    → (verify_mountpoints boot root ws ≡ ok ws')
      ↔ (IsBootable boot root × (ws' ≡ ws ++ size_warnings boot root))
verify_mountpoints_iff boot root ws ws' = (
  (λ e. Ensures-ok (verify_mountpoints_sound boot root ws) e),
  (λ h. rw (h.1) (verify_mountpoints_complete boot root ws h.0)),
)

-- What a list of operations must leave behind to be accepted.
pub record IsInstallable (qs : List Partition) : Type 0 where
  pub boot : Partition
  pub root : Partition
  pub only_boot : OnlyAt mountpoint_boot boot qs
  pub only_root : OnlyAt mountpoint_root root qs
  pub one_boot : count_if (is_mounted_at mountpoint_boot) qs ≡ 1
  pub one_root : count_if (is_mounted_at mountpoint_root) qs ≡ 1
  pub bootable : IsBootable boot root

abbrev pub RunsTo : DiskData → StorageDevice → Type 0
RunsTo disk device =
    (disk.mounts ≡ [])
    × ((qs : List Partition) × (apply_operations disk.operations device.partitions ≡ ok qs)
        × IsInstallable qs)

-- A custom plan that is accepted names no mounts, and its operations run through and leave exactly
-- one partition mounted at "/boot" and exactly one at "/", from which the system can start.
pub validate_custom-IsInstallable :
    (disk : DiskData) (device : StorageDevice) (ws ws' : List Warning)
    → validate_custom disk device ws ≡ ok ws'
    → (disk.mounts ≡ [])
      × ((qs : List Partition) × (apply_operations disk.operations device.partitions ≡ ok qs)
          × IsInstallable qs)
unfolding validate_custom
validate_custom-IsInstallable disk device ws ws' accepted = Ensures-ok sound accepted
  where
    installable :
        (qs : List Partition) (b r : Partition)
        → ((count_mounted mountpoint_boot qs 0 none).0 == 1) ≡ true
        → ((count_mounted mountpoint_root qs 0 none).0 == 1) ≡ true
        → (count_mounted mountpoint_boot qs 0 none).1 ≡ some b
        → (count_mounted mountpoint_root qs 0 none).1 ≡ some r
        → IsBootable b r
        → IsInstallable qs
    installable qs b r boots roots eb er v =
        let one_b = (nat_eq.test_iff _ _).0 boots in
        let one_r = (nat_eq.test_iff _ _).0 roots in
        let (b', pb, ub) = count_mounted_unique mountpoint_boot qs one_b in
        let (r', pr, ur) = count_mounted_unique mountpoint_root qs one_r in
        record {
          boot = b;
          root = r;
          only_boot = subst (λ x. OnlyAt mountpoint_boot x qs) (cc) ub;
          only_root = subst (λ x. OnlyAt mountpoint_root x qs) (cc) ur;
          one_boot = count_mounted_one mountpoint_boot qs one_b;
          one_root = count_mounted_one mountpoint_root qs one_r;
          bootable = v;
        }

    sound : Ensures (λ _. RunsTo disk device) (validate_custom disk device ws)
    sound = require-Ensures _ _ λ no_mounts. bind-Ensures (Ensures-self _) λ qs e.
        require-Ensures _ _ λ _. require-Ensures _ _ λ boots. require-Ensures _ _ λ roots.
          or_throw-Ensures _ _ λ b eb. or_throw-Ensures _ _ λ r er.
            Ensures-map
              (λ ws'' v. (
                list_empty_nil disk.mounts no_mounts,
                (qs, e, installable qs b r boots roots eb er v.0),
              ))
              (verify_mountpoints_sound b r ws)
