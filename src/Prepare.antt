-- ===== src/Prepare.antt =====
-- pkg/cmd/prepare: the disks that kc-prepare is given, and the firmware of pkg/prepare/firmware.
-- `Prepare.Unlock` opens encrypted volumes, and `Prepare.Pipeline` is the run, on `Root` and `Mount`.
pub mod Images
pub mod Unlock
pub mod Pipeline
pub mod Written
pub mod Released
use kc_utils.Base.{
  ℕ, zero, suc, ◌+◌, ◌-◌, ◌*◌, ◌^◌, Bool, true, false, not, ◌&&◌, ◌||◌, List, [], ◌∷◌, ◌++◌, Option,
  none, some, if◌then◌else◌, ◌==◌, leb, ltb, length, take, drop,
}
use kc_utils.Text.{Text, codes, text_eq, is_empty, has_prefix, has_suffix, contains, to_lower}
use kc_utils.FilePath.{join_path}
use kc_utils.Sort.{sort, by_key}
use kc_utils.Copy.Select.{all_digits}
use kc_utils.Copy.Plan.{value_from}
use kc_utils.Disks.{PartitionInfo, DiskInfo}

pub record DiskSpec : Type 0 where
  pub path : Text
  pub format : Text

-- The number of `diskN.img`, for `diskImageNameRE` and `Atoi`, which refuses what is no `int`.
unfoldable pub image_number : Text → Option ℕ
unfolding has_prefix has_suffix all_digits value_from
image_number name =
    let middle = take (length name - 8) (drop 4 name) in
    let n = value_from 0 middle in
    if has_prefix name (codes "disk")
      && has_suffix name (codes ".img")
      && ltb 8 (length name)
      && all_digits middle
      && ltb n (2 ^ 63)
    then some n
    else none

-- A name in the directory, and whether it is a regular file.
abbrev pub DirEntry : Type 0
DirEntry = Text × Bool

abbrev pub cons_found : Text → Text → Option ℕ → List (ℕ × Text) → List (ℕ × Text)
cons_found dir name none rest = rest
cons_found dir name (some n) rest = (n, join_path (dir ∷ name ∷ [])) ∷ rest

unfoldable pub found_images : Text → List DirEntry → List (ℕ × Text)
unfolding image_number join_path
found_images dir [] = []
found_images dir ((name, regular) ∷ entries) =
    let rest = found_images dir entries in
    if regular then cons_found dir name (image_number name) rest else rest

abbrev pub raw_specs : List (ℕ × Text) → List DiskSpec
raw_specs [] = []
raw_specs ((n, p) ∷ files) = record { path = p; format = codes "raw" } ∷ raw_specs files

abbrev pub some_specs : List DiskSpec → Option (List DiskSpec)
some_specs [] = none
some_specs (s ∷ specs) = some (s ∷ specs)

abbrev pub image_index : ℕ × Text → ℕ
image_index f = f.0

abbrev pub expand_listing : Text → Option (List DirEntry) → Option (List DiskSpec)
expand_listing dir none = none
expand_listing dir (some entries) =
    some_specs (raw_specs (sort (by_key image_index) (found_images dir entries)))

-- `ExpandDiskDir`, for what the host lists in a directory; an error is `none`.
unfoldable pub expand_disk_dir : (Text → Option (List DirEntry)) → Text → Option (List DiskSpec)
unfolding found_images sort
expand_disk_dir read_dir dir = if is_empty dir then none else expand_listing dir (read_dir dir)

-- `resolveInputDisks`
unfoldable pub resolve_input_disks :
    (Text → Option (List DirEntry)) → Text → List DiskSpec → Option (List DiskSpec)
unfolding expand_disk_dir
resolve_input_disks read_dir dir (d ∷ ds) = some (d ∷ ds)
resolve_input_disks read_dir dir [] = if is_empty dir then some [] else expand_disk_dir read_dir dir

-- `looksLikeESP`
unfoldable pub looks_like_esp : PartitionInfo → Bool
unfolding text_eq contains to_lower
looks_like_esp p =
    text_eq p.fs_type (codes "vfat")
    && (text_eq p.mount_point (codes "/boot/efi")
        || text_eq p.mount_point (codes "/efi")
        || ltb 0 p.size_bytes && leb p.size_bytes (1024 * 1024 * 1024) && p.index == 1
        || contains (to_lower p.device_path) (codes "efi"))

unfoldable pub esp_of_parts : List PartitionInfo → List Text
unfolding looks_like_esp
esp_of_parts [] = []
esp_of_parts (p ∷ ps) =
    let rest = esp_of_parts ps in if looks_like_esp p then p.device_path ∷ [] else rest

abbrev pub or_devices : List Text → List Text → List Text
or_devices [] other = other
or_devices (d ∷ ds) other = d ∷ ds

unfoldable pub esp_of_disks : List DiskInfo → List Text
unfolding esp_of_parts
esp_of_disks [] = []
esp_of_disks (d ∷ ds) = or_devices (esp_of_parts d.partitions) (esp_of_disks ds)

abbrev pub firmware_of : List Text → Text × List Text
firmware_of [] = (codes "bios", [])
firmware_of (d ∷ ds) = (codes "uefi", d ∷ ds)

-- `Detect` of the firmware: UEFI with its one device, or BIOS with none.
unfoldable pub detect_firmware : List DiskInfo → Text × List Text
unfolding esp_of_disks
detect_firmware disks = firmware_of (esp_of_disks disks)
