-- ===== src/MountSpecs.antt =====
-- pkg/backend/plugins/guestfs/mount_specs.go: which of the guest's filesystems a guestfish session
-- mounts. Devices are compared in `MountSpecs.Device`, and `MountSpecs.Effective` puts the specs of
-- prepare and those of the inspection together.
pub mod Device
pub mod Effective
pub mod Merged
pub mod Again
use kc_utils.Base.{
  ℕ, Bool, true, false, not, ◌&&◌, ◌||◌, List, [], ◌∷◌, ◌++◌, map, Option, none, some,
  if◌then◌else◌, length, ◌==◌,
}
use kc_utils.Text.{Text, codes, text_eq, is_empty}
use kc_utils.FilePath.{slash}
use kc_utils.Sort.{sort, by_key}
use kc_utils.Disks.{PartitionInfo, DiskInfo}

pub record GfsMountSpec : Type 0 where
  pub device : Text
  pub guest_mount : Text

abbrev pub mount_length : GfsMountSpec → ℕ
mount_length s = length s.guest_mount

-- `sortedMountSpecs`
unfoldable pub sorted_mount_specs : List GfsMountSpec → List GfsMountSpec
unfolding sort
sorted_mount_specs specs = sort (by_key mount_length) specs

-- `preferredRoot`
unfoldable pub preferred_root : List GfsMountSpec → Text
unfolding text_eq
preferred_root [] = []
preferred_root (s ∷ specs) =
    let rest = preferred_root specs in
    if text_eq s.guest_mount slash && not (is_empty s.device) then s.device else rest

-- The partition can be mounted.
unfoldable pub has_filesystem : PartitionInfo → Bool
unfolding text_eq
has_filesystem p =
    not (is_empty p.device_path)
    && (not (is_empty p.fs_type) && not (text_eq p.fs_type (codes "swap")))

unfoldable pub specs_of_parts : List PartitionInfo → List GfsMountSpec
unfolding has_filesystem
specs_of_parts [] = []
specs_of_parts (p ∷ ps) =
    let rest = specs_of_parts ps in
    if has_filesystem p && not (is_empty p.mount_point)
    then record { device = p.device_path; guest_mount = p.mount_point } ∷ rest
    else rest

unfoldable pub specs_of_disks : List DiskInfo → List GfsMountSpec
unfolding specs_of_parts
specs_of_disks [] = []
specs_of_disks (d ∷ ds) = specs_of_parts d.partitions ++ specs_of_disks ds

unfoldable pub first_part_at_root : List PartitionInfo → List GfsMountSpec
unfolding has_filesystem
first_part_at_root [] = []
first_part_at_root (p ∷ ps) =
    let rest = first_part_at_root ps in
    if has_filesystem p then record { device = p.device_path; guest_mount = slash } ∷ [] else rest

abbrev pub or_specs : List GfsMountSpec → List GfsMountSpec → List GfsMountSpec
or_specs [] other = other
or_specs (s ∷ specs) other = s ∷ specs

unfoldable pub first_disk_at_root : List DiskInfo → List GfsMountSpec
unfolding first_part_at_root
first_disk_at_root [] = []
first_disk_at_root (d ∷ ds) = or_specs (first_part_at_root d.partitions) (first_disk_at_root ds)

-- `mountSpecsFromDiskInfos`
unfoldable pub mount_specs_from_disk_infos : List DiskInfo → List GfsMountSpec
unfolding specs_of_disks first_disk_at_root
mount_specs_from_disk_infos disks = or_specs (specs_of_disks disks) (first_disk_at_root disks)

-- `quoteGuestfish`
unfoldable pub needs_quotes : Text → Bool
needs_quotes [] = false
needs_quotes (c ∷ s) = c == b' ' || c == 9 || c == b'"' || c == 39 || c == 92 || needs_quotes s

unfoldable pub escape_quoted : Text → Text
escape_quoted [] = []
escape_quoted (c ∷ s) =
    let rest = escape_quoted s in if c == 92 || c == b'"' then 92 ∷ c ∷ rest else c ∷ rest

unfoldable pub quote_guestfish : Text → Text
unfolding needs_quotes escape_quoted
quote_guestfish p = if needs_quotes p then b'"' ∷ (escape_quoted p ++ b'"' ∷ []) else p

unfoldable pub mount_lines : List GfsMountSpec → Text
unfolding quote_guestfish
mount_lines [] = []
mount_lines (s ∷ specs) =
    codes "-mount "
    ++ (quote_guestfish s.device
        ++ (b' ' ∷ (quote_guestfish s.guest_mount ++ (10 ∷ mount_lines specs))))

-- `mountScriptPrefix`
unfoldable pub mount_script_prefix : List GfsMountSpec → Text
unfolding sorted_mount_specs mount_lines
mount_script_prefix specs = codes "-umount-all" ++ (10 ∷ mount_lines (sorted_mount_specs specs))
