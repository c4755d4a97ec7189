-- ===== src/Installer/Storage/Operations.antt =====
-- The five cases of the `switch` in `ValidateInstallStorageDataCustom`: each works on the copied
-- vector of partitions and either throws or leaves the new vector.
use jappeos_core.Prelude.{
  ℕ, ◌^◌, Bool, false, ◌&&◌, not, List, [], ◌∷◌, ◌++◌, ltb, leb, if◌then◌else◌, ◌==◌, nat_eq,
  string_eq, Result, ok, ◌>>=◌, ◌>>◌, require, reject, or_throw, add64, sub64,
}
use jappeos_core.Installer.Data.{
  CreateData, ResizeData, RemoveData, SetMountpointData, SetFilesystemData, Operation, create,
  resize, remove, set_mountpoint, set_filesystem, Partition, is_free_space,
  is_valid_storage_filesystem, is_valid_storage_mountpoint,
}
use jappeos_core.Installer.Exception.{
  Exception, fail_with, missing_region, missing_partition, unknown_region, unknown_partition,
  not_free_space, free_space, size_with_remaining, size_too_small, size_too_big, unknown_filesystem,
  invalid_mountpoint,
}
use jappeos_core.Installer.Storage.Merge.{remove_adjacent_spaces}
use jappeos_core.Installer.Storage.Cursor.{Cursor, locate}

abbrev pub Outcome : Type 0
Outcome = Result Exception (List Partition)

-- The part of a free region that a new partition leaves over.
abbrev left_over : Partition → ℕ → List Partition → List Partition
left_over part size after =
    if part.size_mib == size
    then after
    else record part { size_mib = sub64 part.size_mib size } ∷ after

abbrev pub create_at : CreateData → ℕ → Cursor → List Partition
create_at o size c =
    c.before
    ++ record { device = ""; filesystem = o.filesystem; size_mib = size; mountpoint = o.mountpoint }
      ∷ left_over c.here size c.after

unfoldable pub apply_create : CreateData → List Partition → Outcome
apply_create o ps = do
  reject (o.region == "") (fail_with missing_region)
  c ← or_throw (locate o.region ps) (fail_with (unknown_region o.region))
  require (is_free_space c.here) (fail_with (not_free_space o.region))
  reject (o.remaining && not (o.size_mib == 0)) (fail_with (size_with_remaining o.region))
  reject (not o.remaining && ltb o.size_mib 1) (fail_with (size_too_small o.size_mib))
  let size = if o.remaining then c.here.size_mib else o.size_mib
  reject (ltb c.here.size_mib size) (fail_with (size_too_big size))
  require (is_valid_storage_filesystem o.filesystem false)
      (fail_with (unknown_filesystem o.filesystem))
  require (is_valid_storage_mountpoint o.mountpoint) (fail_with (invalid_mountpoint o.mountpoint))
  ok (remove_adjacent_spaces (create_at o size c))

-- `StoragePartitionData{"", "", size}`
abbrev pub free_region : ℕ → Partition
free_region size = record { device = ""; filesystem = ""; size_mib = size; mountpoint = "" }

-- `freeSpaceAfter`, and whether `nextPart` stands for an entry.
abbrev pub free_space_after : List Partition → ℕ
free_space_after [] = 0
free_space_after (q ∷ qs) = if is_free_space q then q.size_mib else 0

-- `partitions.erase(nextPart)` if `nextPart` is free space.
abbrev pub erase_next : List Partition → List Partition
erase_next [] = []
erase_next (q ∷ qs) = if is_free_space q then qs else q ∷ qs

-- `nextPart->sizeMiB -= growth` if `nextPart` is free space.
abbrev pub shrink_next : ℕ → List Partition → List Partition
shrink_next growth [] = []
shrink_next growth (q ∷ qs) =
    if is_free_space q then record q { size_mib = sub64 q.size_mib growth } ∷ qs else q ∷ qs

-- `addedSpace` is an `int64_t`, kept as its bit pattern: it is negative from 2^63 on, and a
-- comparison with the unsigned `freeSpaceAfter` compares the patterns.
abbrev is_negative : ℕ → Bool
is_negative x = leb (2 ^ 63) x

-- The entries after the resized one.
abbrev pub resized_after : ℕ → ℕ → List Partition → List Partition
resized_after added free_after after =
    let next =
      if added == free_after
      then erase_next after
      else if not (is_negative added) && not (added == 0)
      then shrink_next added after
      else after in
    if is_negative added then free_region (sub64 0 added) ∷ next else next

abbrev pub resize_at : ℕ → Cursor → List Partition
resize_at size c =
    c.before
    ++ record c.here { size_mib = size }
      ∷ resized_after (sub64 size c.here.size_mib) (free_space_after c.after) c.after

unfoldable pub apply_resize : ResizeData → List Partition → Outcome
apply_resize o ps = do
  reject (o.partition == "") (fail_with missing_partition)
  c ← or_throw (locate o.partition ps) (fail_with (unknown_partition o.partition))
  reject (is_free_space c.here) (fail_with (free_space o.partition))
  reject (o.remaining && not (o.size_mib == 0)) (fail_with (size_with_remaining o.partition))
  reject (not o.remaining && ltb o.size_mib 1) (fail_with (size_too_small o.size_mib))
  let free_after = free_space_after c.after
  let size = if o.remaining then add64 c.here.size_mib free_after else o.size_mib
  reject (ltb c.here.size_mib size && ltb free_after (sub64 size c.here.size_mib))
      (fail_with (size_too_big size))
  ok (remove_adjacent_spaces (resize_at size c))

abbrev pub remove_at : Cursor → List Partition
remove_at c = c.before ++ free_region c.here.size_mib ∷ c.after

unfoldable pub apply_remove : RemoveData → List Partition → Outcome
apply_remove o ps = do
  reject (o.partition == "") (fail_with missing_partition)
  c ← or_throw (locate o.partition ps) (fail_with (unknown_partition o.partition))
  reject (is_free_space c.here) (fail_with (free_space o.partition))
  ok (remove_adjacent_spaces (remove_at c))

unfoldable pub apply_set_mountpoint : SetMountpointData → List Partition → Outcome
apply_set_mountpoint o ps = do
  reject (o.partition == "") (fail_with missing_partition)
  c ← or_throw (locate o.partition ps) (fail_with (unknown_partition o.partition))
  reject (is_free_space c.here) (fail_with (free_space o.partition))
  require (is_valid_storage_mountpoint o.mountpoint) (fail_with (invalid_mountpoint o.mountpoint))
  ok (c.before ++ record (c.here) { mountpoint = o.mountpoint } ∷ c.after)

unfoldable pub apply_set_filesystem : SetFilesystemData → List Partition → Outcome
apply_set_filesystem o ps = do
  reject (o.partition == "") (fail_with missing_partition)
  c ← or_throw (locate o.partition ps) (fail_with (unknown_partition o.partition))
  reject (is_free_space c.here) (fail_with (free_space o.partition))
  require (is_valid_storage_filesystem o.filesystem false)
      (fail_with (unknown_filesystem o.filesystem))
  ok (c.before ++ record (c.here) { filesystem = o.filesystem } ∷ c.after)

unfoldable pub apply_operation : Operation → List Partition → Outcome
apply_operation (create o) ps = apply_create o ps
apply_operation (resize o) ps = apply_resize o ps
apply_operation (remove o) ps = apply_remove o ps
apply_operation (set_mountpoint o) ps = apply_set_mountpoint o ps
apply_operation (set_filesystem o) ps = apply_set_filesystem o ps

-- `for (const auto& operation : data.disk.operations)`
unfoldable pub apply_operations : List Operation → List Partition → Outcome
apply_operations [] ps = ok ps
apply_operations (o ∷ os) ps = apply_operation o ps >>= apply_operations os
