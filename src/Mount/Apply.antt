-- ===== src/Mount/Apply.antt =====
-- The mounts in their order, and what the disks record.
use kc_utils.Base.{
  ◌≡◌, ◌≢◌, refl, sym, ◌∙◌, inl, inr, Bool, true, false, ◌||◌, ◌&&◌, List, [], ◌∷◌, ◌++◌, Option,
  none, some, arith, Bool-cases, append-nil, append_assoc,
}
use kc_utils.Text.{Text, text_eq, is_empty}
use kc_utils.Text.Laws.{text_eq_refl}
use kc_utils.Sort.{Ascending, sort-Ascending}
use kc_utils.Disks.{PartitionInfo, DiskInfo, any_part, any_partition, append_partition, synthetic}
use kc_utils.Mount.{
  MountSpec, path_length, sort_specs, cons_some, update_part, or_next, update_disks, or_synthetic,
  update_mount_point, Mounts, apply_list, apply,
}

apply_list-mounted :
    (fails : MountSpec → Bool) (specs : List MountSpec) (m : Mounts)
    → (apply_list fails specs m).0 ≡ true
    → (apply_list fails specs m).1.mounted ≡ m.mounted ++ specs
unfolding apply_list
apply_list-mounted fails [] m = λ e. sym (append-nil m.mounted)
apply_list-mounted fails (s ∷ specs) m = elim (Bool-cases (fails s)) [
  | inl f ↦ rw (f, apply_list) λ e. ground (arith, e)
  | inr f ↦
      rw (f, apply_list)
        λ e. apply_list-mounted fails specs _ e ∙ append_assoc m.mounted (s ∷ []) specs
]

apply_list-stops :
    (fails : MountSpec → Bool) (specs : List MountSpec) (m : Mounts)
    → (apply_list fails specs m).0 ≡ false
    → (s : MountSpec) × (rest : List MountSpec) × (fails s ≡ true)
      × ((apply_list fails specs m).1.mounted ++ s ∷ rest ≡ m.mounted ++ specs)
unfolding apply_list
apply_list-stops fails [] m = λ e. absurd (ground (arith, e))
apply_list-stops fails (s ∷ specs) m = elim (Bool-cases (fails s)) [
  | inl f ↦ rw (f, apply_list) λ e. (s, specs, f, refl)
  | inr f ↦
      rw (f, apply_list)
        λ e.
          (let later = apply_list-stops fails specs _ e in
            (later.0, later.1, later.2, later.3 ∙ append_assoc m.mounted (s ∷ []) specs))
]

-- If `Apply` answers no error, it has made every mount, in the order of `SortSpecs`: the lengths of
-- their mount points do not fall.
pub apply-mounted :
    (fails : MountSpec → Bool) (specs : List MountSpec) (disks : List DiskInfo)
    → (apply fails specs disks).0 ≡ true
    → ((apply fails specs disks).1.mounted ≡ sort_specs specs)
      × Ascending path_length (apply fails specs disks).1.mounted
unfolding apply sort_specs
apply-mounted fails specs disks e =
    let done =
      apply_list-mounted fails (sort_specs specs) (record { mounted = []; disks = disks }) e in
    (done, rw done (sort-Ascending path_length specs))

-- If `Apply` answers an error, it has stopped at a mount that fails, and has made those before it in
-- the order of `SortSpecs`.
pub apply-stops :
    (fails : MountSpec → Bool) (specs : List MountSpec) (disks : List DiskInfo)
    → (apply fails specs disks).0 ≡ false
    → (s : MountSpec) × (rest : List MountSpec) × (fails s ≡ true)
      × ((apply fails specs disks).1.mounted ++ s ∷ rest ≡ sort_specs specs)
unfolding apply
apply-stops fails specs disks e =
    apply_list-stops fails (sort_specs specs) (record { mounted = []; disks = disks }) e

-- The partition has the device and the mount point.
abbrev pub is_mount : Text → Text → PartitionInfo → Bool
is_mount dev mp p = text_eq p.device_path dev && text_eq p.mount_point mp

module _ (dev mp ft : Text) where
  abbrev IsRecordedPart : Option (List PartitionInfo) → Type 0
  IsRecordedPart none = Unit
  IsRecordedPart (some ps) = any_part (is_mount dev mp) ps ≡ true

  abbrev IsRecorded : Option (List DiskInfo) → Type 0
  IsRecorded none = Unit
  IsRecorded (some ds) = any_partition (is_mount dev mp) ds ≡ true

  cons_some-IsRecorded :
      (p : PartitionInfo) (o : Option (List PartitionInfo))
      → IsRecordedPart o
      → IsRecordedPart (cons_some p o)
  unfolding any_part
  cons_some-IsRecorded p none h = tt
  cons_some-IsRecorded p (some ps) h = ground (arith, h)

  update_part-IsRecorded : (ps : List PartitionInfo) → IsRecordedPart (update_part dev mp ft ps)
  unfolding update_part any_part
  update_part-IsRecorded [] = tt
  update_part-IsRecorded (p ∷ ps) = elim (Bool-cases (text_eq p.device_path dev)) [
    | inl e ↦ rw e (rw (e, text_eq_refl mp) refl)
    | inr e ↦ rw e (cons_some-IsRecorded p (update_part dev mp ft ps) (update_part-IsRecorded ps))
  ]

  or_next-IsRecorded :
      (d : DiskInfo) (o : Option (List PartitionInfo)) (ds : List DiskInfo)
      (r : Option (List DiskInfo))
      → IsRecordedPart o
      → IsRecorded r
      → IsRecorded (or_next d o ds r)
  unfolding any_partition
  or_next-IsRecorded d (some ps) ds r h k = rw h refl
  or_next-IsRecorded d none ds none h k = tt
  or_next-IsRecorded d none ds (some es) h k = ground (arith, k)

  update_disks-IsRecorded : (ds : List DiskInfo) → IsRecorded (update_disks dev mp ft ds)
  unfolding update_disks
  update_disks-IsRecorded [] = tt
  update_disks-IsRecorded (d ∷ ds) =
      or_next-IsRecorded d (update_part dev mp ft d.partitions) ds (update_disks dev mp ft ds)
        (update_part-IsRecorded d.partitions) (update_disks-IsRecorded ds)

  any_part-last :
      (ps : List PartitionInfo) → any_part (is_mount dev mp) (ps ++ synthetic dev mp ft ∷ []) ≡ true
  unfolding any_part
  any_part-last [] = rw (text_eq_refl dev, text_eq_refl mp) refl
  any_part-last (p ∷ ps) = ground (arith, any_part-last ps)

  or_synthetic-IsRecorded :
      (ds : List DiskInfo) (o : Option (List DiskInfo))
      → ds ≢ []
      → (is_empty dev || is_empty mp) ≡ false
      → IsRecorded o
      → any_partition (is_mount dev mp) (or_synthetic dev mp ft ds o) ≡ true
  unfolding or_synthetic append_partition any_partition
  or_synthetic-IsRecorded ds (some es) ne h k = k
  or_synthetic-IsRecorded [] none ne h k = absurd (ne refl)
  or_synthetic-IsRecorded (d ∷ ds) none ne h k = rw h (rw (any_part-last d.partitions) refl)

-- A mount of a device at a mount point is recorded, with a partition that has both, whether the
-- device was a partition before or not: given one disk at least, and neither name empty.
pub update_mount_point-recorded :
    (disks : List DiskInfo) (dev mp ft : Text)
    → disks ≢ []
    → (is_empty dev || is_empty mp) ≡ false
    → any_partition (is_mount dev mp) (update_mount_point disks dev mp ft) ≡ true
unfolding update_mount_point
update_mount_point-recorded disks dev mp ft ne h =
    or_synthetic-IsRecorded dev mp ft disks (update_disks dev mp ft disks) ne h
      (update_disks-IsRecorded dev mp ft disks)
