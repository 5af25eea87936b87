-- ===== src/Disks/RootMount.antt =====
-- `WithRootMount` of pkg/guest/mount_table.go: the mount of the root device.
use kc_utils.Base.{
  ℕ, ◌+◌, ◌≡◌, ◌≢◌, refl, inl, inr, Bool, true, false, List, [], ◌∷◌, ◌++◌, map, Option, none, some,
  arith, if◌then◌else◌, Bool-cases,
}
use kc_utils.Text.{Text, codes, text_eq}
use kc_utils.Text.Laws.{text_eq_refl}
use kc_utils.FilePath.{slash}
use kc_utils.Disks.{
  PartitionInfo, DiskInfo, normalize_guest_path, is_root, any_part, any_partition, clear_root,
  clear_disk, or_this, mount_last_part, with_parts, or_disk, mount_last, append_partition,
  synthetic, or_append, remount_root, with_root_mount,
}

abbrev pub at_root : PartitionInfo → Bool
at_root p = text_eq p.mount_point slash

unfoldable pub count_parts : List PartitionInfo → ℕ
count_parts [] = 0
count_parts (p ∷ ps) = (if at_root p then 1 else 0) + count_parts ps

-- How many partitions are mounted at the root.
unfoldable pub count_roots : List DiskInfo → ℕ
count_roots [] = 0
count_roots (d ∷ ds) = count_parts d.partitions + count_roots ds

count_parts-clear : (ps : List PartitionInfo) → count_parts (map clear_root ps) ≡ 0
unfolding count_parts text_eq
count_parts-clear [] = refl
count_parts-clear (p ∷ ps) = ground (arith, count_parts-clear ps)

count_roots-clear : (ds : List DiskInfo) → count_roots (map clear_disk ds) ≡ 0
unfolding count_roots
count_roots-clear [] = refl
count_roots-clear (d ∷ ds) = omega (arith, count_parts-clear d.partitions, count_roots-clear ds)

count_parts-append :
    (ps qs : List PartitionInfo) → count_parts (ps ++ qs) ≡ count_parts ps + count_parts qs
unfolding count_parts
count_parts-append [] qs = omega arith
count_parts-append (p ∷ ps) qs = omega (arith, count_parts-append ps qs)

count_parts-synthetic : (root : Text) → count_parts (synthetic root slash (codes "auto") ∷ []) ≡ 1
unfolding count_parts
count_parts-synthetic root = ground (arith, text_eq_refl slash)

module _ (root : Text) where
  -- Once a partition is chosen, it alone is mounted at the root.
  abbrev IsOnePart : Option (List PartitionInfo) → Type 0
  IsOnePart none = Unit
  IsOnePart (some qs) = (count_parts qs ≡ 1) × (any_part (is_root root) qs ≡ true)

  abbrev IsOne : List DiskInfo → Type 0
  IsOne ds = (count_roots ds ≡ 1) × (any_partition (is_root root) ds ≡ true)

  abbrev IsOneDisk : Option (List DiskInfo) → Type 0
  IsOneDisk none = Unit
  IsOneDisk (some ds) = IsOne ds

  or_this-IsOnePart :
      (p : PartitionInfo) (ps : List PartitionInfo) (o : Option (List PartitionInfo))
      → count_parts (p ∷ ps) ≡ 0
      → IsOnePart o
      → IsOnePart (or_this root p ps o)
  unfolding or_this count_parts any_part
  or_this-IsOnePart p ps (some qs) h k = ground (arith, k, h)
  or_this-IsOnePart p ps none h k = ground (arith, h, text_eq_refl slash, text_eq_refl root)

  mount_last_part-IsOnePart :
      (ps : List PartitionInfo) → count_parts ps ≡ 0 → IsOnePart (mount_last_part root ps)
  unfolding mount_last_part count_parts
  mount_last_part-IsOnePart [] h = tt
  mount_last_part-IsOnePart (p ∷ ps) h =
      or_this-IsOnePart p ps (mount_last_part root ps) h
        (mount_last_part-IsOnePart ps (omega (arith, h)))

  with_parts-IsOneDisk :
      (d : DiskInfo) (o : Option (List PartitionInfo)) (ds : List DiskInfo)
      → count_roots ds ≡ 0
      → IsOnePart o
      → IsOneDisk (with_parts d o ds)
  unfolding count_roots any_partition
  with_parts-IsOneDisk d none ds h k = tt
  with_parts-IsOneDisk d (some ps) ds h k = (omega (arith, h, k.0), rw k.1 refl)

  or_disk-IsOneDisk :
      (d : DiskInfo) (ds : List DiskInfo) (o : Option (List DiskInfo))
      → count_roots (d ∷ ds) ≡ 0
      → IsOneDisk o
      → IsOneDisk (or_disk root d ds o)
  unfolding or_disk count_roots any_partition
  or_disk-IsOneDisk d ds (some es) h k = (omega (arith, h, k.0), ground (arith, k.1))
  or_disk-IsOneDisk d ds none h k =
      with_parts-IsOneDisk d (mount_last_part root d.partitions) ds (omega (arith, h))
        (mount_last_part-IsOnePart d.partitions (omega (arith, h)))

  mount_last-IsOneDisk : (ds : List DiskInfo) → count_roots ds ≡ 0 → IsOneDisk (mount_last root ds)
  unfolding mount_last count_roots
  mount_last-IsOneDisk [] h = tt
  mount_last-IsOneDisk (d ∷ ds) h =
      or_disk-IsOneDisk d ds (mount_last root ds) h (mount_last-IsOneDisk ds (omega (arith, h)))

  any_part-last :
      (ps : List PartitionInfo) (p : PartitionInfo)
      → is_root root p ≡ true
      → any_part (is_root root) (ps ++ p ∷ []) ≡ true
  unfolding any_part
  any_part-last [] p e = rw e refl
  any_part-last (q ∷ ps) p e = ground (arith, any_part-last ps p e)

  or_append-IsOne :
      (o : Option (List DiskInfo)) (d : DiskInfo) (ds : List DiskInfo)
      → count_roots (d ∷ ds) ≡ 0
      → IsOneDisk o
      → IsOne (or_append root o (d ∷ ds))
  unfolding or_append append_partition count_roots any_partition count_parts
  or_append-IsOne (some es) d ds h k = k
  or_append-IsOne none d ds h k =
      let p = synthetic root slash (codes "auto") in
      let last =
        any_part-last d.partitions p (ground (arith, text_eq_refl root, text_eq_refl slash)) in
      (
        omega (arith, h, count_parts-append d.partitions (p ∷ []), count_parts-synthetic root),
        rw last refl,
      )

  remount_root-IsOne :
      (disks : List DiskInfo)
      → disks ≢ []
      → any_partition (is_root root) disks ≡ false
      → IsOne (remount_root root disks)
  unfolding remount_root
  remount_root-IsOne [] ne e = absurd (ne refl)
  remount_root-IsOne (d ∷ ds) ne e =
      let none_left = count_roots-clear (d ∷ ds) in
      rw e (
        or_append-IsOne (mount_last root (map clear_disk (d ∷ ds))) (clear_disk d)
          (map clear_disk ds) none_left (mount_last-IsOneDisk (map clear_disk (d ∷ ds)) none_left))

  remount_root-mounted :
      (disks : List DiskInfo)
      → disks ≢ []
      → any_partition (is_root root) (remount_root root disks) ≡ true
  unfolding remount_root
  remount_root-mounted disks ne = elim (Bool-cases (any_partition (is_root root) disks)) [
    | inl e ↦ rw (e, remount_root) e
    | inr e ↦ (remount_root-IsOne disks ne e).1
  ]

with_root_mount-remount :
    (disks : List DiskInfo) (root_device : Text)
    → root_device ≢ []
    → disks ≢ []
    → with_root_mount disks root_device ≡ remount_root (normalize_guest_path root_device) disks
unfolding with_root_mount
with_root_mount-remount disks [] r d = absurd (r refl)
with_root_mount-remount [] (c ∷ root) r d = absurd (d refl)
with_root_mount-remount (x ∷ disks) (c ∷ root) r d = refl

-- With a root device and a disk, `WithRootMount` answers disks with a partition that has the device,
-- by its normal path, and is mounted at the root.
pub with_root_mount-mounted :
    (disks : List DiskInfo) (root_device : Text)
    → root_device ≢ []
    → disks ≢ []
    → any_partition (is_root (normalize_guest_path root_device)) (with_root_mount disks root_device)
      ≡ true
with_root_mount-mounted disks root_device r d =
    let root = normalize_guest_path root_device in
    rw (with_root_mount-remount disks root_device r d) (remount_root-mounted root disks d)

-- If the root device was not mounted at the root before, exactly one partition is mounted there
-- after `WithRootMount`, for a root device that is given and one disk at least.
pub with_root_mount-count :
    (disks : List DiskInfo) (root_device : Text)
    → root_device ≢ []
    → disks ≢ []
    → any_partition (is_root (normalize_guest_path root_device)) disks ≡ false
    → count_roots (with_root_mount disks root_device) ≡ 1
with_root_mount-count disks root_device r d e =
    let root = normalize_guest_path root_device in
    rw (with_root_mount-remount disks root_device r d) (remount_root-IsOne root disks d e).0
