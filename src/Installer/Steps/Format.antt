-- ===== src/Installer/Steps/Format.antt =====
-- What `FormatStep` formats.
use jappeos_core.Prelude.{
  not, if_Ensures, append_assoc, Ensures, value, error, Ensures-ok, ◌≡◌, refl, sym, ap, ◌∙◌, Bool,
  true, false, ◌&&◌, List, [], ◌∷◌, ◌++◌, arith, if◌then◌else◌, ◌==◌, nat_eq, string_eq, eq_iff,
  any, All, All-append, Result, ok, err,
}
use jappeos_core.Installer.Steps.{
  unsupported_filesystem, sync, go_on, format_with, umount, Context, empty_format_target, Run,
  mount, StepError, format_targets, format_step, mkfs_xfs, mkfs_btrfs, mkfs_ext4, mkfs_fat,
  format_target, build_format_command, Machine, Target, Log, Command,
}

-- The command makes a file system on a device that a target marks for formatting.
abbrev pub formats_marked : List Target → Command → Bool
formats_marked ts (mkfs_fat d) = any (λ t. t.format && t.device == d) ts
formats_marked ts (mkfs_ext4 d) = any (λ t. t.format && t.device == d) ts
formats_marked ts (mkfs_btrfs d) = any (λ t. t.format && t.device == d) ts
formats_marked ts (mkfs_xfs d) = any (λ t. t.format && t.device == d) ts
formats_marked ts _ = false

-- The log has grown by commands that satisfy `p`.
abbrev pub GrewBy : (Command → Bool) → Log → Log → Type 0
GrewBy p log log' = (cs : List Command) × (log' ≡ cs ++ log) × All (λ c. p c ≡ true) cs

-- The command that a target marked for formatting asks for is on that target's device.
build-marked :
    (t : Target) (ts : List Target)
    → t.format ≡ true
    → Ensures (λ c. formats_marked (t ∷ ts) c ≡ true) (build_format_command t)
unfolding build_format_command
build-marked t ts h = if_Ensures (t.filesystem == "fat32") (value {a = mkfs_fat t.device} here) (
    if_Ensures (t.filesystem == "ext4") (value {a = mkfs_ext4 t.device} here) (
      if_Ensures (t.filesystem == "btrfs") (value {a = mkfs_btrfs t.device} here) (
        if_Ensures (t.filesystem == "xfs") (value {a = mkfs_xfs t.device} here)
          (error {e = unsupported_filesystem t.filesystem}))))
  where
    here : any (λ u. u.format && u.device == t.device) (t ∷ ts) ≡ true
    here = rw (h, (eq_iff t.device t.device).1 refl)

format_target-marked :
    (m : Machine) (t : Target) (ts : List Target) (log : Log)
    → GrewBy (formats_marked (t ∷ ts)) log (format_target m t log).1
unfolding format_target
format_target-marked m t ts log = by_flag t.format refl
  where
    on_device :
        (b : Bool) (r : Result StepError Command)
        → Ensures (λ c. formats_marked (t ∷ ts) c ≡ true) r
        → GrewBy
            (formats_marked (t ∷ ts))
            log
            (if b then (err empty_format_target, log) else format_with m r log).1
    on_device true r h = ([], refl, tt)
    on_device false (ok c) h = (c ∷ [], refl, (Ensures-ok h refl, tt))
    on_device false (err e) h = ([], refl, tt)

    by_flag :
        (b : Bool)
        → t.format ≡ b
        → GrewBy
            (formats_marked (t ∷ ts))
            log
            (if not b
              then (ok tt, log)
              else if t.device == ""
              then (err empty_format_target, log)
              else format_with m (build_format_command t) log).1
    by_flag true e = on_device (t.device == "") (build_format_command t) (build-marked t ts e)
    by_flag false e = ([], refl, tt)

marked-weaken :
    (t : Target) (ts : List Target) (cs : List Command)
    → All (λ c. formats_marked ts c ≡ true) cs
    → All (λ c. formats_marked (t ∷ ts) c ≡ true) cs
marked-weaken t ts [] h = tt
marked-weaken t ts (c ∷ cs) (h, hs) = (one c h, marked-weaken t ts cs hs)
  where
    one : (c : Command) → formats_marked ts c ≡ true → formats_marked (t ∷ ts) c ≡ true
    one (mkfs_fat d) h = ground arith
    one (mkfs_ext4 d) h = ground arith
    one (mkfs_btrfs d) h = ground arith
    one (mkfs_xfs d) h = ground arith
    one (mount d mp) h = h
    one (umount mp) h = h
    one sync h = h

format_targets-marked :
    (m : Machine) (ts : List Target) (log : Log)
    → GrewBy (formats_marked ts) log (format_targets m ts log).1
unfolding format_targets
format_targets-marked m [] log = ([], refl, tt)
format_targets-marked m (t ∷ ts) log =
    rest (format_targets-marked m ts) (format_target m t log) (format_target-marked m t ts log)
  where
    rest :
        ((l : Log) → GrewBy (formats_marked ts) l (format_targets m ts l).1)
        → (r : Run (Unit {0})) → GrewBy (formats_marked (t ∷ ts)) log r.1
        → GrewBy (formats_marked (t ∷ ts)) log (go_on r (format_targets m ts)).1
    rest ih (err e, log') g = g
    rest ih (ok u, log') (cs, e, h) =
        let (cs', e', h') = ih log' in
        (
          cs' ++ cs,
          e' ∙ ap (◌++◌ cs') e ∙ sym (append_assoc cs' cs log),
          All-append _ cs' cs (marked-weaken t ts cs' h') h,
        )

-- Whether or not it throws, the format step has run nothing but commands that make a file system on
-- the device of a target that is marked for formatting.
pub format_step-marked :
    (m : Machine) (ctx : Context) (log : Log)
    → GrewBy (formats_marked ctx.targets) log (format_step m ctx log).1
unfolding format_step
format_step-marked m ctx log = format_targets-marked m ctx.targets log
