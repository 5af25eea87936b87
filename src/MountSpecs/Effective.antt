-- ===== src/MountSpecs/Effective.antt =====
-- The specs of a session: those of prepare, or of the disks, with those that the inspection adds.
--
-- `Session` has what guestfish answers to the two commands of the inspection, if it answers.
use kc_utils.Base.{
  ℕ, Bool, true, false, not, ◌||◌, List, [], ◌∷◌, ◌++◌, Option, none, some, if◌then◌else◌, ◌==◌,
}
use kc_utils.Text.{Text, text_eq, is_empty, has_prefix, trim_space, split}
use kc_utils.Disks.{DiskInfo}
use kc_utils.MountSpecs.{
  GfsMountSpec, or_specs, sorted_mount_specs, preferred_root, mount_specs_from_disk_infos,
}
use kc_utils.MountSpecs.Device.{dev_dir, device_equal}

unfoldable pub is_mounted : Text → List GfsMountSpec → Bool
unfolding text_eq
is_mounted mp [] = false
is_mounted mp (s ∷ specs) = text_eq s.guest_mount mp || is_mounted mp specs

-- The rest of `mergeMountSpecs`, where `merged` has all the mount points that `have` has.
unfoldable pub merge_onto : List GfsMountSpec → List GfsMountSpec → List GfsMountSpec
unfolding is_mounted
merge_onto merged [] = merged
merge_onto merged (s ∷ extra) =
    merge_onto (if is_mounted s.guest_mount merged then merged else merged ++ s ∷ []) extra

-- `mergeMountSpecs`
unfoldable pub merge_mount_specs : List GfsMountSpec → List GfsMountSpec → List GfsMountSpec
unfolding merge_onto
merge_mount_specs base extra = merge_onto base extra

unfoldable pub roots_of_lines : List Text → List Text
unfolding trim_space has_prefix
roots_of_lines [] = []
roots_of_lines (l ∷ lines) =
    let rest = roots_of_lines lines in
    if has_prefix (trim_space l) dev_dir then trim_space l ∷ rest else rest

-- `parseInspectOSRoots`
unfoldable pub parse_inspect_os_roots : Text → List Text
unfolding roots_of_lines trim_space split
parse_inspect_os_roots out = roots_of_lines (split 10 (trim_space out))

unfoldable pub first_equal : Text → List Text → Option Text
unfolding device_equal
first_equal preferred [] = none
first_equal preferred (r ∷ roots) =
    let rest = first_equal preferred roots in if device_equal preferred r then some r else rest

-- `selectInspectRoot`; an error is `none`.
unfoldable pub select_inspect_root : List Text → Text → Option Text
unfolding trim_space first_equal
select_inspect_root [] preferred = some []
select_inspect_root (r ∷ roots) preferred =
    if is_empty (trim_space preferred)
    then some r
    else first_equal (trim_space preferred) (r ∷ roots)

abbrev pub with_head : ℕ → Option (Text × Text) → Option (Text × Text)
with_head c none = none
with_head c (some (a, b)) = some (c ∷ a, b)

-- `strings.Cut` at a colon.
unfoldable pub cut_colon : Text → Option (Text × Text)
cut_colon [] = none
cut_colon (c ∷ s) = let rest = cut_colon s in if c == b':' then some ([], s) else with_head c rest

abbrev pub spec_of_cut : Option (Text × Text) → Option GfsMountSpec
spec_of_cut none = none
spec_of_cut (some (mp, dev)) =
    if is_empty (trim_space mp)
      || (is_empty (trim_space dev) || not (has_prefix (trim_space dev) dev_dir))
    then none
    else some (record { device = trim_space dev; guest_mount = trim_space mp })

abbrev pub cons_spec : Option GfsMountSpec → List GfsMountSpec → List GfsMountSpec
cons_spec none specs = specs
cons_spec (some s) specs = s ∷ specs

-- The lines of `inspect-get-mountpoints`; a blank line has no colon.
unfoldable pub specs_of_lines : List Text → List GfsMountSpec
unfolding trim_space cut_colon has_prefix
specs_of_lines [] = []
specs_of_lines (l ∷ lines) =
    cons_spec (spec_of_cut (cut_colon (trim_space l))) (specs_of_lines lines)

pub record Session : Type 0 where
  pub inspect_os : Option Text
  pub inspect_mountpoints : Text → Option Text

abbrev pub specs_of_output : Option Text → List GfsMountSpec
specs_of_output none = []
specs_of_output (some out) = specs_of_lines (split 10 out)

abbrev pub specs_of_root : Session → Option Text → Option (List GfsMountSpec)
specs_of_root session none = none
specs_of_root session (some []) = some []
specs_of_root session (some (c ∷ root)) =
    some (specs_of_output (session.inspect_mountpoints (c ∷ root)))

abbrev pub specs_of_roots : Session → Text → Option Text → Option (List GfsMountSpec)
specs_of_roots session preferred none = some []
specs_of_roots session preferred (some out) =
    specs_of_root session (select_inspect_root (parse_inspect_os_roots out) preferred)

-- `discoverMountpoints` of a backend with a session.
unfoldable pub discover_mountpoints : Session → Text → Option (List GfsMountSpec)
unfolding parse_inspect_os_roots select_inspect_root specs_of_lines split
discover_mountpoints session preferred = specs_of_roots session preferred session.inspect_os

pub record Backend : Type 0 where
  pub session : Option Session
  pub disk_infos : List DiskInfo
  pub mount_specs : List GfsMountSpec
  pub inspect_done : Bool

-- The specs before the inspection.
abbrev pub known_specs : Backend → List GfsMountSpec
known_specs b = or_specs b.mount_specs (mount_specs_from_disk_infos b.disk_infos)

abbrev pub with_extra :
    Backend → List GfsMountSpec → List GfsMountSpec → Option (List GfsMountSpec) × Backend
with_extra b specs [] = (some (sorted_mount_specs specs), record b { inspect_done = true })
with_extra b specs (e ∷ extra) =
    let merged = merge_mount_specs specs (e ∷ extra) in
    (some (sorted_mount_specs merged), record b { mount_specs = merged; inspect_done = true })

abbrev pub after_discovery :
    Backend → List GfsMountSpec → Option (List GfsMountSpec) → Option (List GfsMountSpec) × Backend
after_discovery b specs none = (none, b)
after_discovery b specs (some extra) = with_extra b specs extra

unfoldable pub inspect_with :
    Option Session → Backend → List GfsMountSpec → Option (List GfsMountSpec) × Backend
unfolding sorted_mount_specs discover_mountpoints preferred_root merge_mount_specs
inspect_with none b specs = (some (sorted_mount_specs specs), b)
inspect_with (some session) b specs =
    after_discovery b specs (discover_mountpoints session (preferred_root specs))

-- `effectiveMountSpecs`
unfoldable pub effective_mount_specs : Backend → Option (List GfsMountSpec) × Backend
unfolding inspect_with mount_specs_from_disk_infos sorted_mount_specs
effective_mount_specs b =
    if b.inspect_done
    then (some (sorted_mount_specs (known_specs b)), b)
    else inspect_with b.session b (known_specs b)
