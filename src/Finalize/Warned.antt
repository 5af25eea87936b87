-- ===== src/Finalize/Warned.antt =====
-- The number of warnings in the metadata, against the failures of the run that the code puts there.
use kc_utils.Base.{
  ℕ, ◌+◌, ◌≡◌, refl, ap, inl, inr, Bool-cases, List, [], ◌∷◌, ◌++◌, map, Option, none, some, arith,
  length, length-append, length-map,
}
use kc_utils.Text.{Text, codes}
use kc_utils.Disks.{PartitionInfo, DiskInfo}
use kc_utils.Finalize.{
  Prepared, Converted, TargetMeta, customizer_opts, block_warning, merge_warnings,
}
use kc_utils.Finalize.Paths.{mounted_guest_paths}
use kc_utils.Finalize.Pipeline.{
  Host, unmount, sync, customize, fs_check, fs_trim, State, do_call, warn, run_customizer,
  run_customizers, sync_guest, trim_paths, check_part, check_parts, check_disks, release_guest,
  use_guest, final_meta, attached, run_finalize,
}

abbrev pub one_if : Option Text → ℕ
one_if none = 0
one_if (some e) = 1

-- How many of the items fail.
abbrev pub failures {ℓ} : {A : Type ℓ} → (A → Option Text) → List A → ℕ
failures f [] = 0
failures f (x ∷ xs) = one_if (f x) + failures f xs

-- How many partitions of the disks fail.
abbrev pub disk_failures : (PartitionInfo → Option Text) → List DiskInfo → ℕ
disk_failures f [] = 0
disk_failures f (d ∷ ds) = failures f d.partitions + disk_failures f ds

warn-length :
    (prefix : Text) (o : Option Text) (s : State)
    → length (warn prefix o s).warnings ≡ length s.warnings + one_if o
warn-length prefix none s = omega arith
warn-length prefix (some e) s = omega (arith, length-append s.warnings ((prefix ++ e) ∷ []))

trim_paths-warnings : (ps : List Text) (s : State) → (trim_paths ps s).warnings ≡ s.warnings
unfolding trim_paths do_call
trim_paths-warnings [] s = refl
trim_paths-warnings (p ∷ ps) s = trim_paths-warnings ps (do_call (fs_trim p) s)

module _ (host : Host) where
  run_customizers-length :
      (opts : List (Text × Text)) (names : List Text) (s : State)
      → length (run_customizers host opts names s).warnings
        ≡ length s.warnings + failures (λ name. host.apply_error name opts) names
  unfolding run_customizers run_customizer do_call
  run_customizers-length opts [] s = omega arith
  run_customizers-length opts (name ∷ names) s = omega (
    arith,
    run_customizers-length opts names (run_customizer host opts name s),
    warn-length (codes "customization " ++ (name ++ codes " failed: ")) (host.apply_error name opts)
        (do_call (customize name) s),
  )

  check_parts-length :
      (ps : List PartitionInfo) (s : State)
      → length (check_parts host ps s).warnings ≡ length s.warnings + failures host.check_error ps
  unfolding check_parts check_part do_call
  check_parts-length [] s = omega arith
  check_parts-length (p ∷ ps) s = omega (
    arith,
    check_parts-length ps (check_part host p s),
    warn-length (codes "filesystem check failed on " ++ (p.device_path ++ codes ": "))
        (host.check_error p) (do_call (fs_check p) s),
  )

  check_disks-length :
      (ds : List DiskInfo) (s : State)
      → length (check_disks host ds s).warnings
        ≡ length s.warnings + disk_failures host.check_error ds
  unfolding check_disks
  check_disks-length [] s = omega arith
  check_disks-length (d ∷ ds) s = omega (
    arith,
    check_disks-length ds (check_parts host d.partitions s),
    check_parts-length d.partitions s,
  )

  use_guest-length :
      (p : Prepared) (c : Converted) (mount_root : Text) (s : State)
      → length (use_guest host p c mount_root s).warnings
        ≡ length s.warnings
          + failures (λ name. host.apply_error name (customizer_opts p c)) host.customizers
          + one_if host.sync_error
          + disk_failures host.check_error p.disks
  unfolding use_guest release_guest sync_guest do_call
  use_guest-length p c mount_root s =
      let customized = run_customizers host (customizer_opts p c) host.customizers s in
      let synced = sync_guest host customized in
      let trimmed = trim_paths (mounted_guest_paths mount_root p.disks) synced in
      let same = ap length (trim_paths-warnings (mounted_guest_paths mount_root p.disks) synced) in
      omega (
        arith,
        check_disks-length p.disks (do_call unmount trimmed),
        same,
        warn-length (codes "guest sync failed: ") host.sync_error (do_call sync customized),
        run_customizers-length (customizer_opts p c) host.customizers s,
      )

merge_warnings-length :
    (c : Converted) (ws : List Text)
    → length (merge_warnings c ws) ≡ length ws + length c.warnings + length c.errors
unfolding merge_warnings
merge_warnings-length c ws = omega (
  arith,
  length-append (ws ++ c.warnings) (map block_warning c.errors),
  length-append ws c.warnings,
  length-map c.errors block_warning,
)

-- The metadata of a run have as many warnings as customizers, the sync and checks of partitions have
-- failed in it, and the conversion has given warnings and errors.
pub run_finalize-warnings :
    (host : Host) (p : Prepared) (c : Converted) (mount_root : Text) (meta : TargetMeta)
    → (run_finalize host p c mount_root).meta ≡ some meta
    → length meta.warnings
      ≡ failures (λ name. host.apply_error name (customizer_opts p c)) host.customizers
        + one_if host.sync_error
        + disk_failures host.check_error p.disks
        + length c.warnings
        + length c.errors
unfolding run_finalize final_meta
run_finalize-warnings host p c mount_root meta = elim (Bool-cases host.attach_ok) [
  | inl e ↦ rw e λ f.
      let same : final_meta p c (use_guest host p c mount_root attached) ≡ meta = cc in
      rw (← same) (
        omega (
          arith,
          merge_warnings-length c (use_guest host p c mount_root attached).warnings,
          use_guest-length host p c mount_root attached,
        ))
  | inr e ↦ rw e λ f. absurd cc
]
