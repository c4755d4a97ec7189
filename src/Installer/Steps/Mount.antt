-- ===== src/Installer/Steps/Mount.antt =====
-- Mounting rolls back on every error, and cleaning up undoes it.
use jappeos_core.Prelude.{
  ap, inr, inl, Bool-cases, ◌∙◌, sym, subst, refl, arith, true, err, Result, ◌≡◌, ok, String, List,
  [], ◌∷◌, if◌then◌else◌, ◌==◌, nat_eq, string_eq,
}
use jappeos_core.Installer.Steps.{
  cleanup_ends, cleanup_all, cleanup_one, Exit, exits_zero, exits_nonzero, throws, is_zero, exited,
  sync, after_boot, after_root, mount_targets, cleanup_step, install_target_boot,
  install_target_root, StepError, Target, mount_device, Context, unmount_all, Run, mount_step,
  umount, mount, Machine, Log, Command,
}

-- Takes away the first occurrence.
abbrev pub erase_first : String → List String → List String
erase_first x [] = []
erase_first x (y ∷ ys) = if y == x then ys else y ∷ erase_first x ys

-- The effect of a command on the mountpoints that were mounted and for which no `umount` has been
-- run since.
abbrev pub effect : Machine → Log → Command → List String → List String
effect m log (mount device mp) mps =
    if is_zero (m.exit log (mount device mp)) then mp ∷ mps else mps
effect m log (umount mp) mps = erase_first mp mps
effect m log _ mps = mps

unfoldable pub pending : Machine → Log → List String
pending m [] = []
pending m (c ∷ log) = effect m log c (pending m log)

-- The pending paths after an attempt to mount `mp`: `mp` is new exactly when it succeeded.
abbrev Attempted : Machine → String → List String → Run (Unit {0}) → Type 0
Attempted m mp mps (ok u, log) = pending m log ≡ mp ∷ mps
Attempted m mp mps (err e, log) = pending m log ≡ mps

mount_device-Attempted :
    (m : Machine) (device mp : String) (log : Log) (mps : List String)
    → pending m log ≡ mps
    → Attempted m mp mps (mount_device m device mp log)
unfolding mount_device pending
mount_device-Attempted m device mp log mps h = elim (Bool-cases (m.creates_directories mp)) [
  | inl e ↦ rw e (ran (m.exit log (mount device mp)) refl)
  | inr e ↦ rw e h
]
  where
    ran :
        (x : Exit)
        → m.exit log (mount device mp) ≡ x
        → Attempted m mp mps (exited x (mount device mp), mount device mp ∷ log)
    ran exits_zero e = rw e (ground (arith, h))
    ran exits_nonzero e = rw e h
    ran throws e = rw e h

-- What the mount step leaves pending: both paths after success, nothing new after an error.
abbrev pub Balanced : Machine → List String → Run Context → Type 0
Balanced m mps (ok ctx, log) =
    (pending m log ≡ install_target_boot ∷ install_target_root ∷ mps)
    × (ctx.target_root ≡ install_target_root)
Balanced m mps (err e, log) = pending m log ≡ mps

after_boot-Balanced :
    (m : Machine) (root : Target) (ctx : Context) (mps : List String) (r : Run (Unit {0}))
    → Attempted m install_target_boot (install_target_root ∷ mps) r
    → Balanced m mps (after_boot root ctx r)
unfolding pending unmount_all
after_boot-Balanced m root ctx mps (ok u, log) h = (h, refl)
after_boot-Balanced m root ctx mps (err e, log) h = rw h refl

after_root-Balanced :
    (m : Machine) (root boot : Target) (ctx : Context) (mps : List String) (r : Run (Unit {0}))
    → Attempted m install_target_root mps r
    → Balanced m mps (after_root m root boot ctx r)
unfolding unmount_all
after_root-Balanced m root boot ctx mps (ok u, log) h =
    after_boot-Balanced m root ctx mps (mount_device m boot.device install_target_boot log)
      (mount_device-Attempted m boot.device install_target_boot log _ h)
after_root-Balanced m root boot ctx mps (err e, log) h = h

targets-Balanced :
    (m : Machine) (ctx : Context) (r : Result StepError (Target × Target)) (log : Log)
    → Balanced m (pending m log) (mount_targets m ctx r log)
targets-Balanced m ctx (ok (root, boot)) log =
    after_root-Balanced m root boot ctx (pending m log)
      (mount_device m root.device install_target_root log)
      (mount_device-Attempted m root.device install_target_root log _ refl)
targets-Balanced m ctx (err e) log = refl

-- Whatever fails on the way, `mount_step` that throws has run an `umount` for every path that it
-- mounted; and one that succeeds leaves the boot path mounted over the root path and records the
-- root path in the context.
pub mount_step-Balanced :
    (m : Machine) (ctx : Context) (log : Log) → Balanced m (pending m log) (mount_step m ctx log)
unfolding mount_step
mount_step-Balanced m ctx log = targets-Balanced m ctx _ log

-- The mountpoints that are mounted, the last one first: an `umount` that exits with 0 takes its path
-- away.
abbrev pub mounted_after : Machine → Log → Command → List String → List String
mounted_after m log (mount device mp) mps =
    if is_zero (m.exit log (mount device mp)) then mp ∷ mps else mps
mounted_after m log (umount mp) mps =
    if is_zero (m.exit log (umount mp)) then erase_first mp mps else mps
mounted_after m log _ mps = mps

unfoldable pub mounted : Machine → Log → List String
mounted m [] = []
mounted m (c ∷ log) = mounted_after m log c (mounted m log)

-- What the steps rely on: the two paths exist, `sync` is run, and `umount` of the path that was
-- mounted last exits with 0. Of a path below another mounted one, nothing is said.
pub record Works (m : Machine) : Type 0 where
  pub boot_present : (log : Log) → m.exists log install_target_boot ≡ true
  pub root_present : (log : Log) → m.exists log install_target_root ≡ true
  pub syncs : (log : Log) → m.exit log sync ≡ exits_zero
  pub unmounts :
      (log : Log) (mp : String) (mps : List String)
      → mounted m log ≡ mp ∷ mps
      → m.exit log (umount mp) ≡ exits_zero

-- What a mount that succeeds has mounted.
abbrev Mounts : Machine → String → List String → Run (Unit {0}) → Type 0
Mounts m mp mps (ok u, log) = mounted m log ≡ mp ∷ mps
Mounts m mp mps (err e, log) = Unit

mount_device-Mounts :
    (m : Machine) (device mp : String) (log : Log) (mps : List String)
    → mounted m log ≡ mps
    → Mounts m mp mps (mount_device m device mp log)
unfolding mount_device mounted
mount_device-Mounts m device mp log mps h = elim (Bool-cases (m.creates_directories mp)) [
  | inl e ↦ rw e (ran (m.exit log (mount device mp)) refl)
  | inr e ↦ rw e tt
]
  where
    ran :
        (x : Exit)
        → m.exit log (mount device mp) ≡ x
        → Mounts m mp mps (exited x (mount device mp), mount device mp ∷ log)
    ran exits_zero e = rw e (ground (arith, h))
    ran exits_nonzero e = tt
    ran throws e = tt

abbrev MountsBoth : Machine → List String → Run Context → Type 0
MountsBoth m mps (ok ctx, log) =
    (mounted m log ≡ install_target_boot ∷ install_target_root ∷ mps)
    × (ctx.target_root ≡ install_target_root)
MountsBoth m mps (err e, log) = Unit

after_boot-MountsBoth :
    (m : Machine) (root : Target) (ctx : Context) (mps : List String) (r : Run (Unit {0}))
    → Mounts m install_target_boot (install_target_root ∷ mps) r
    → MountsBoth m mps (after_boot root ctx r)
after_boot-MountsBoth m root ctx mps (ok u, log) h = (h, refl)
after_boot-MountsBoth m root ctx mps (err e, log) h = tt

mount_step-MountsBoth :
    (m : Machine) (ctx : Context) (log : Log) → MountsBoth m (mounted m log) (mount_step m ctx log)
unfolding mount_step
mount_step-MountsBoth m ctx log = found _
  where
    after :
        (root boot : Target) (r : Run (Unit {0}))
        → Mounts m install_target_root (mounted m log) r
        → MountsBoth m (mounted m log) (after_root m root boot ctx r)
    after root boot (ok u, log') h =
        after_boot-MountsBoth m root ctx (mounted m log)
          (mount_device m boot.device install_target_boot log')
          (mount_device-Mounts m boot.device install_target_boot log' _ h)
    after root boot (err e, log') h = tt

    found :
        (r : Result StepError (Target × Target))
        → MountsBoth m (mounted m log) (mount_targets m ctx r log)
    found (ok (root, boot)) =
        after root boot (mount_device m root.device install_target_root log)
          (mount_device-Mounts m root.device install_target_root log _ refl)
    found (err e) = tt

-- The result of a cleanup that undoes the two mounts.
abbrev pub Undone : Machine → Context → List String → Context × Run (Unit {0}) → Type 0
Undone m ctx mps (ctx', (r, log)) =
    (r ≡ ok tt)
    × (mounted m log ≡ mps)
    × (ctx' ≡ record ctx { target_root = ""; root_partition = "" })

cleanup_all_one :
    (m : Machine) (mp : String) (mps : List String) (log : Log)
    → m.exists log mp ≡ true
    → m.exit log (umount mp) ≡ exits_zero
    → cleanup_all m (mp ∷ mps) [] log ≡ cleanup_all m mps [] (umount mp ∷ log)
unfolding cleanup_all cleanup_one
cleanup_all_one m mp mps log there e =
    let one : cleanup_one m mp [] log ≡ (ok [], umount mp ∷ log) = rw (there, e) refl in
    ap (λ r. elim r.0 [ err e ↦ (err e, r.1) | ok errors ↦ cleanup_all m mps errors r.1 ]) one

cleanup_step-Undone :
    (m : Machine) (ctx : Context) (log : Log) (mps : List String)
    → Works m
    → mounted m log ≡ install_target_boot ∷ install_target_root ∷ mps
    → Undone m ctx mps (cleanup_step m (record ctx { target_root = install_target_root }) log)
unfolding cleanup_step cleanup_all cleanup_one mounted
cleanup_step-Undone m ctx log mps works h =
    let boot = works.unmounts (sync ∷ log) install_target_boot (install_target_root ∷ mps) h in
    let below : mounted m (umount install_target_boot ∷ sync ∷ log) ≡ install_target_root ∷ mps =
      rw (boot, h) refl in
    let root =
      works.unmounts (umount install_target_boot ∷ sync ∷ log) install_target_root mps below in
    let none_left : mounted m (umount install_target_root ∷ umount install_target_boot ∷ sync ∷ log)
        ≡ mps =
      rw (root, boot, h) refl in
    let ctx_now = record ctx { target_root = install_target_root } in
    let log_boot = umount install_target_boot ∷ sync ∷ log in
    let all : cleanup_all m (install_target_boot ∷ install_target_root ∷ []) [] (sync ∷ log)
        ≡ (ok [], umount install_target_root ∷ log_boot) =
      cleanup_all_one m install_target_boot (install_target_root ∷ []) (sync ∷ log)
        (works.boot_present (sync ∷ log)) boot
      ∙ cleanup_all_one m install_target_root [] log_boot (works.root_present log_boot) root in
    rw (works.syncs log)
      (subst (λ r. Undone m ctx mps (cleanup_ends ctx_now r)) (sym all) (refl, none_left, refl))

-- On a machine where the two paths exist, `sync` exits with 0, and so does an `umount` of the path
-- that was mounted last: a mount step that succeeds, followed by the cleanup step, leaves exactly
-- the mounts from before. The cleanup succeeds, and it clears the two paths of the context and
-- nothing else.
pub mount_step-cleanup :
    (m : Machine) (ctx ctx' : Context) (log log' : Log)
    → mount_step m ctx log ≡ (ok ctx', log')
    → Works m
    → Undone m ctx' (mounted m log) (cleanup_step m ctx' log')
mount_step-cleanup m ctx ctx' log log' h works =
    let (p, r) = subst (MountsBoth m (mounted m log)) h (mount_step-MountsBoth m ctx log) in
    let same : ctx' ≡ record ctx' { target_root = install_target_root } =
      λ i. record ctx' { target_root = r i } in
    subst (λ c. Undone m ctx' (mounted m log) (cleanup_step m c log')) (sym same)
      (cleanup_step-Undone m ctx' log' (mounted m log) works p)
