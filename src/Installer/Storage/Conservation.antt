-- ===== src/Installer/Storage/Conservation.antt =====
-- No operation of the custom mode gains or loses disk space.
use jappeos_core.Prelude.{
  refl, ◌∙◌, Ensures-map, Ensures-ok, bind-Ensures, ok, All, ℕ, ◌+◌, ◌^◌, ◌≤◌, ◌<◌, ◌≡◌, inl, inr,
  false, ◌&&◌, List, [], ◌∷◌, arith, ltb, if◌then◌else◌, Bool-cases, nat_eq, string_eq, u64_mod,
  add64, sub64, value, Ensures, require-Ensures, reject-Ensures, or_throw-Ensures,
}
use jappeos_core.Installer.Data.{
  set_filesystem, set_mountpoint, remove, ResizeData, is_free_space, RemoveData, SetMountpointData,
  SetFilesystemData, CreateData, Operation, create, resize, Partition,
}
use jappeos_core.Installer.Storage.Sizes.{total, total-append}
use jappeos_core.Installer.Storage.Merge.{remove_adjacent_spaces-total}
use jappeos_core.Installer.Storage.Cursor.{total-cursor, Cursor, locate-total}
use jappeos_core.Installer.Storage.Operations.{
  apply_operations, resize_at, apply_resize, apply_operation, free_region, remove_at, resized_after,
  apply_set_mountpoint, apply_remove, free_space_after, apply_set_filesystem, create_at,
  apply_create,
}

-- The sums of the sizes agree.
abbrev SameTotal : List Partition → List Partition → Type 0
SameTotal ps qs = total qs ≡ total ps

abbrev pub size_of : Operation → ℕ
size_of (create o) = o.size_mib
size_of (resize o) = o.size_mib
size_of _ = 0

create_at-total :
    (o : CreateData) (size : ℕ) (c : Cursor)
    → size ≤ c.here.size_mib
    → c.here.size_mib < u64_mod
    → total (create_at o size c) ≡ total c.before + c.here.size_mib + total c.after
create_at-total o size c h k =
    ground (arith, total-append c.before (create_at o size (record c { before = [] })))

create-Keeps :
    (o : CreateData) (ps : List Partition)
    → total ps < u64_mod
    → Ensures (SameTotal ps) (apply_create o ps)
unfolding apply_create
create-Keeps o ps h = reject-Ensures _ _ λ _. or_throw-Ensures _ _ λ c e. require-Ensures _ _ λ _.
    reject-Ensures _ _ λ _. reject-Ensures _ _ λ _. reject-Ensures _ _ λ fits.
      require-Ensures _ _ λ _. require-Ensures _ _ λ _.
        let size = if o.remaining then c.here.size_mib else o.size_mib in
        value (
          omega (
            arith,
            remove_adjacent_spaces-total (create_at o size c),
            create_at-total o size c (ground arith) (omega (arith, locate-total o.region ps e)),
            locate-total o.region ps e,
          ))

-- The resized entry and what follows it, when the guards have passed.
resized-total :
    (size old : ℕ) (after : List Partition)
    → old + total after < 2 ^ 63
    → size < u64_mod
    → (ltb old size && ltb (free_space_after after) (sub64 size old)) ≡ false
    → size + total (resized_after (sub64 size old) (free_space_after after) after)
      ≡ old + total after
resized-total size old [] h k g = ground arith
resized-total size old (q ∷ qs) h k g = elim (Bool-cases (is_free_space q)) [
  | inl e ↦ let g' = rw e at g in rw e (ground arith)
  | inr e ↦ let g' = rw e at g in rw e (ground arith)
]

resize-Keeps :
    (o : ResizeData) (ps : List Partition)
    → total ps < 2 ^ 63
    → o.size_mib < u64_mod
    → Ensures (SameTotal ps) (apply_resize o ps)
unfolding apply_resize
resize-Keeps o ps h k = reject-Ensures _ _ λ _. or_throw-Ensures _ _ λ c e. reject-Ensures _ _ λ _.
    reject-Ensures _ _ λ _. reject-Ensures _ _ λ _. reject-Ensures _ _ λ fits.
      let size =
        if o.remaining then add64 c.here.size_mib (free_space_after c.after) else o.size_mib in
      value (
        omega (
          arith,
          remove_adjacent_spaces-total (resize_at size c),
          total-append c.before (resize_at size (record c { before = [] })),
          resized-total size c.here.size_mib c.after (omega (arith, locate-total o.partition ps e))
              (ground arith) fits,
          locate-total o.partition ps e,
        ))

remove-Keeps :
    (o : RemoveData) (ps : List Partition)
    → total ps < u64_mod
    → Ensures (SameTotal ps) (apply_remove o ps)
unfolding apply_remove
remove-Keeps o ps h = reject-Ensures _ _ λ _. or_throw-Ensures _ _ λ c e. reject-Ensures _ _ λ _.
    value (
      omega (
        arith,
        remove_adjacent_spaces-total (remove_at c),
        total-cursor c.before c.after (free_region c.here.size_mib),
        locate-total o.partition ps e,
      ))

set_mountpoint-Keeps :
    (o : SetMountpointData) (ps : List Partition)
    → Ensures (SameTotal ps) (apply_set_mountpoint o ps)
unfolding apply_set_mountpoint
set_mountpoint-Keeps o ps = reject-Ensures _ _ λ _. or_throw-Ensures _ _ λ c e.
    reject-Ensures _ _ λ _. require-Ensures _ _ λ _. value (
      omega (
        arith,
        total-cursor c.before c.after (record (c.here) { mountpoint = o.mountpoint }),
        locate-total o.partition ps e,
      ))

set_filesystem-Keeps :
    (o : SetFilesystemData) (ps : List Partition)
    → Ensures (SameTotal ps) (apply_set_filesystem o ps)
unfolding apply_set_filesystem
set_filesystem-Keeps o ps = reject-Ensures _ _ λ _. or_throw-Ensures _ _ λ c e.
    reject-Ensures _ _ λ _. require-Ensures _ _ λ _. value (
      omega (
        arith,
        total-cursor c.before c.after (record (c.here) { filesystem = o.filesystem }),
        locate-total o.partition ps e,
      ))

operation-Keeps :
    (o : Operation) (ps : List Partition)
    → total ps < 2 ^ 63
    → size_of o < u64_mod
    → Ensures (SameTotal ps) (apply_operation o ps)
unfolding apply_operation
operation-Keeps (create o) ps h k = create-Keeps o ps (omega arith)
operation-Keeps (resize o) ps h k = resize-Keeps o ps h k
operation-Keeps (remove o) ps h k = remove-Keeps o ps (omega arith)
operation-Keeps (set_mountpoint o) ps h k = set_mountpoint-Keeps o ps
operation-Keeps (set_filesystem o) ps h k = set_filesystem-Keeps o ps

operations-Keeps :
    (os : List Operation) (ps : List Partition)
    → total ps < 2 ^ 63
    → All (λ o. size_of o < u64_mod) os
    → Ensures (SameTotal ps) (apply_operations os ps)
unfolding apply_operations
operations-Keeps [] ps h k = value refl
operations-Keeps (o ∷ os) ps h k =
    bind-Ensures (operation-Keeps o ps h k.0)
      λ qs e. Ensures-map (λ rs e'. e' ∙ e) (operations-Keeps os qs (omega arith) k.1)

-- The sizes of the partitions still add up to the same number after any list of operations that
-- is accepted, when the disk has fewer than 2^63 MiB and every requested size is a `uint64_t`.
pub apply_operations-total :
    (os : List Operation) (ps qs : List Partition)
    → total ps < 2 ^ 63
    → All (λ o. size_of o < u64_mod) os
    → apply_operations os ps ≡ ok qs
    → total qs ≡ total ps
apply_operations-total os ps qs h k e = Ensures-ok (operations-Keeps os ps h k) e
