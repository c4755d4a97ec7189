-- ===== src/Installer/Partitioning/Targets.antt =====
-- What a custom run of src/services/installer/steps/partition_step.cpp leaves for the steps after
-- it (src/services/installer/steps/mount_step.cpp).
use jappeos_core.Services.Manager.{Table}
use jappeos_core.Installer.Data.{DiskData, boot_ne_root, mountpoint_root, mountpoint_boot}
use jappeos_core.Installer.Partitioning.Custom.{
  execute_operations, fresh_work, rebuild, clear_targets, execute_custom, collect_targets,
}
use jappeos_core.Installer.Partitioning.{RegionId, Parted, Work, collect, add_target}
use jappeos_core.Installer.Steps.{find_target, Context, find_target_from, Target}
use jappeos_core.Prelude.{
  subst, Ensures, value, require-Ensures, or_throw-Ensures, bind-Ensures, bind-Ensures_all,
  Ensures-ok, ℕ, ◌+◌, String, ◌≡◌, refl, sym, ap, ◌∙◌, ◌≢◌, inl, inr, Bool, true, false, ◌&&◌, not,
  none, some, List, [], ◌∷◌, ◌++◌, arith, if◌then◌else◌, Bool-cases, ◌==◌, nat_eq, string_eq,
  eq_iff, length, length-append, count_if, count_if-append, ok, reject, or_throw,
}

abbrev pub is_at : String → Target → Bool
is_at m t = t.mountpoint == m

-- The device of the last target with the mountpoint, or the given one.
abbrev last_device : String → String → List Target → String
last_device m d [] = d
last_device m d (t ∷ ts) = last_device m (if is_at m t then t.device else d) ts

last_device-append :
    (m d : String) (ts : List Target) (t : Target)
    → last_device m d (ts ++ t ∷ []) ≡ (if is_at m t then t.device else last_device m d ts)
last_device-append m d [] t = refl
last_device-append m d (q ∷ ts) t = last_device-append m (if is_at m q then q.device else d) ts t

last_device_none :
    (m d : String) (ts : List Target) → count_if (is_at m) ts ≡ 0 → last_device m d ts ≡ d
last_device_none m d [] h = refl
last_device_none m d (t ∷ ts) h = elim (Bool-cases (t.mountpoint == m)) [
  | inl at ↦ absurd (ground (arith, h, at))
  | inr other ↦ rw other (last_device_none m d ts (ground (arith, h, other)))
]

-- With one target at the mountpoint, whose device is named, `FindTarget` finds it.
abbrev pub IsFound : String → String → Context → Type 0
IsFound m d c = (t : Target) × (find_target m c ≡ ok t) × (t.device ≡ d) × (t.mountpoint ≡ m)

find_rest :
    (m : String) (t : Target) (ts : List Target)
    → (t.device == "") ≡ false
    → count_if (is_at m) ts ≡ 0
    → find_target_from m (some t) ts ≡ ok t
unfolding find_target_from or_throw reject
find_rest m t [] named h = rw named refl
find_rest m t (q ∷ ts) named h = elim (Bool-cases (q.mountpoint == m)) [
  | inl at ↦ absurd (ground (arith, h, at))
  | inr other ↦ rw other (find_rest m t ts named (ground (arith, h, other)))
]

named_device :
    (m : String) (ts : List Target)
    → (last_device m "" ts == "") ≡ false
    → count_if (is_at m) ts ≢ 0
named_device m ts named h =
    let unnamed : (last_device m "" ts == "") ≡ true =
      (eq_iff (last_device m "" ts) "").1 (last_device_none m "" ts h) in
    cc

find_head :
    (m : String) (t : Target) (ts : List Target)
    → (last_device m t.device ts == "") ≡ false
    → count_if (is_at m) ts ≡ 0
    → (find_target_from m (some t) ts ≡ ok t) × (t.device ≡ last_device m t.device ts)
find_head m t ts named h =
    let last = last_device_none m t.device ts h in
    (find_rest m t ts (subst (λ d. (d == "") ≡ false) last named) h, sym last)

find_unique :
    (m : String) (ts : List Target)
    → count_if (is_at m) ts ≡ 1
    → (last_device m "" ts == "") ≡ false
    → (t : Target) × (find_target_from m none ts ≡ ok t)
      × (t.device ≡ last_device m "" ts)
      × (t.mountpoint ≡ m)
unfolding find_target_from
find_unique m [] h named = absurd (omega (arith, h))
find_unique m (t ∷ ts) h named = elim (Bool-cases (t.mountpoint == m)) [
  | inl at ↦
      let (found, device) =
        find_head m t ts
          (subst (λ b. (last_device m (if b then t.device else "") ts == "") ≡ false) at named)
          (ground (arith, h, at)) in
      rw at (t, found, device, (eq_iff t.mountpoint m).0 at)
  | inr other ↦ rw other (
      find_unique m ts (ground (arith, h, other))
        (subst (λ b. (last_device m (if b then t.device else "") ts == "") ≡ false) other named))
]

-- While the targets are collected: each is at one of the two mountpoints, and the two paths of the
-- context are those of the last targets.
record Collected (r : Context × ℕ) : Type 0 where
  size : length r.0.targets ≡ r.1
  split :
      count_if (is_at mountpoint_boot) r.0.targets + count_if (is_at mountpoint_root) r.0.targets
      ≡ length r.0.targets
  boot : r.0.boot_partition ≡ last_device mountpoint_boot "" r.0.targets
  root : r.0.root_partition ≡ last_device mountpoint_root "" r.0.targets

one_of_two :
    (m : String)
    → (not (m == mountpoint_boot) && not (m == mountpoint_root)) ≡ false
    → (if m == mountpoint_boot then 1 else 0) + (if m == mountpoint_root then 1 else 0) ≡ 1
one_of_two m h = ground (arith, h, eq_iff m mountpoint_boot, eq_iff m mountpoint_root, boot_ne_root)

root_choice :
    (m device root : String)
    → (if m == mountpoint_boot then root else if m == mountpoint_root then device else root)
      ≡ (if m == mountpoint_root then device else root)
root_choice m device root =
    ground (arith, eq_iff m mountpoint_boot, eq_iff m mountpoint_root, boot_ne_root)

-- A target at one of the two mountpoints.
add_target-Collected :
    (device m filesystem : String) (format : Bool) (c : Context) (n : ℕ)
    → (not (m == mountpoint_boot) && not (m == mountpoint_root)) ≡ false
    → Collected (c, n)
    → Collected (add_target device m filesystem format c, n + 1)
unfolding add_target
add_target-Collected device m filesystem format c n h v =
    let t : Target = record {
      device = device;
      mountpoint = m;
      filesystem = filesystem;
      format = format;
    } in
    record {
      size = omega (arith, length-append c.targets (t ∷ []), v.size);
      split = omega (
        arith,
        length-append c.targets (t ∷ []),
        count_if-append (is_at mountpoint_boot) c.targets (t ∷ []),
        count_if-append (is_at mountpoint_root) c.targets (t ∷ []),
        one_of_two m h,
        v.split,
      );
      boot =
          ap (λ d. if m == mountpoint_boot then device else d) v.boot
          ∙ sym (last_device-append mountpoint_boot "" c.targets t);
      root =
          root_choice m device c.root_partition
          ∙ ap (λ d. if m == mountpoint_root then device else d) v.root
          ∙ sym (last_device-append mountpoint_root "" c.targets t);
    }

collect-Collected :
    {Disk : Type 0} (w : Work Disk) (t : Table String) (c : Context) (n : ℕ)
    → Collected (c, n)
    → Ensures Collected (collect w t c n)
unfolding collect
collect-Collected w [] c n v = value v
collect-Collected w ((path, m) ∷ t) c n v =
    elim (Bool-cases (not (m == mountpoint_boot) && not (m == mountpoint_root))) [
      | inl skipped ↦ rw skipped (collect-Collected w t c n v)
      | inr taken ↦ rw taken (
          or_throw-Ensures _ _
            λ q _. collect-Collected w t _ (n + 1) (add_target-Collected path m _ _ c n taken v))
    ]

abbrev pub AreFound : Context → Type 0
AreFound r = IsFound mountpoint_boot r.boot_partition r × IsFound mountpoint_root r.root_partition r

-- What the final check says of the targets.
Collected-AreFound :
    (r : Context × ℕ)
    → Collected r
    → (r.1 ≡ 2)
    → (r.0.boot_partition == "") ≡ false
    → (r.0.root_partition == "") ≡ false
    → AreFound r.0
unfolding find_target
Collected-AreFound r v two boot root =
    let ts = r.0.targets in
    let boot' = subst (λ d. (d == "") ≡ false) v.boot boot in
    let root' = subst (λ d. (d == "") ≡ false) v.root root in
    let b = named_device mountpoint_boot ts boot' in
    let q = named_device mountpoint_root ts root' in
    let (x, fx, dx, mx) =
      find_unique mountpoint_boot ts (omega (arith, v.split, v.size, two, b, q)) boot' in
    let (y, fy, dy, my) =
      find_unique mountpoint_root ts (omega (arith, v.split, v.size, two, b, q)) root' in
    ((x, fx, dx ∙ sym v.boot, mx), (y, fy, dy ∙ sym v.root, my))

collect_targets-AreFound :
    {Disk : Type 0} (w : Work Disk) (c : Context)
    → Collected (c, 0)
    → Ensures AreFound (collect_targets w c)
unfolding collect_targets
collect_targets-AreFound w c v = bind-Ensures (collect-Collected w w.mountpoints c 0 v) λ r v'.
    require-Ensures _ _ λ h.
      value (Collected-AreFound r v' (ground (arith, h)) (ground (arith, h)) (ground (arith, h)))

-- A custom run that succeeds, from a context that `Execute` has cleared, leaves targets of which
-- the mount step finds exactly one for "/boot" and one for "/", on the partitions that the context
-- names, whatever libparted answers.
pub execute_custom-AreFound :
    (parted : Parted) (free_id : RegionId) (d : DiskData) (c c' : Context)
    → execute_custom parted free_id d (clear_targets c) ≡ ok c'
    → AreFound c'
unfolding execute_custom clear_targets
execute_custom-AreFound parted free_id d c c' e =
    Ensures-ok
      (require-Ensures _ _ λ _. or_throw-Ensures _ _ λ disk _.
        bind-Ensures_all (rebuild parted free_id (fresh_work parted free_id disk)) λ started.
          bind-Ensures_all (execute_operations parted free_id d.operations started) λ done.
            require-Ensures _ _ λ _. require-Ensures _ _ λ _.
              bind-Ensures_all (rebuild parted free_id done) λ committed.
                collect_targets-AreFound committed (clear_targets c)
                  (record { size = refl; split = refl; boot = refl; root = refl }))
      e
