-- ===== src/WindowsVol.antt =====
-- pkg/backend/windowsvol/detect.go: the volumes of a Windows guest that only some backends handle.
--
-- The probe of a device, which answers its partition type and its filesystem type, is an argument.
pub mod Scan
use kc_utils.Base.{
  Bool, true, false, ◌&&◌, ◌||◌, List, [], ◌∷◌, ◌++◌, Option, none, some, if◌then◌else◌,
}
use kc_utils.Text.{Text, codes, text_eq, is_empty, trim_space, to_lower, contains}
use kc_utils.Disks.{PartitionInfo, DiskInfo}
use kc_utils.Finalize.Paths.{is_among}

pub data Kind : Type 0 where
  ldm : Kind
  bitlocker : Kind
  storage_spaces : Kind

pub record Issue : Type 0 where
  pub kind : Kind
  pub device : Text

abbrev gpt_ldm_metadata : Text
gpt_ldm_metadata = codes "5808c8aa-7e8f-42e0-85d2-e1e90434cfb3"

abbrev gpt_ldm_data : Text
gpt_ldm_data = codes "af9b60a0-1431-4f62-bc68-3311714a69ad"

abbrev gpt_storage_spaces_protective : Text
gpt_storage_spaces_protective = codes "e75caf8f-f680-4cee-afa3-b001e56ef2da"

abbrev gpt_storage_spaces_data : Text
gpt_storage_spaces_data = codes "90442c87-50cb-4b44-9a9e-5bd169bd69e7"

abbrev mbr_ldm_metadata : Text
mbr_ldm_metadata = codes "0x42"

unfoldable pub is_ldm : Text → Bool
unfolding text_eq contains
is_ldm part_type =
    text_eq part_type gpt_ldm_metadata
    || (text_eq part_type gpt_ldm_data
        || (text_eq part_type mbr_ldm_metadata
            || (contains part_type (codes "5808c8aa") || contains part_type (codes "af9b60a0"))))

unfoldable pub is_storage_spaces : Text → Bool
unfolding text_eq contains
is_storage_spaces part_type =
    text_eq part_type gpt_storage_spaces_protective
    || (text_eq part_type gpt_storage_spaces_data
        || (contains part_type (codes "e75caf8f") || contains part_type (codes "90442c87")))

unfoldable pub classify_lower : Text → Text → Option Kind
unfolding text_eq is_ldm is_storage_spaces
classify_lower part_type fs_type =
    if text_eq fs_type (codes "bitlocker")
    then some bitlocker
    else if is_ldm part_type
    then some ldm
    else if is_storage_spaces part_type
    then some storage_spaces
    else none

unfoldable pub classify : Text → Text → Option Kind
unfolding to_lower trim_space classify_lower
classify part_type fs_type =
    classify_lower (to_lower (trim_space part_type)) (to_lower (trim_space fs_type))

abbrev pub Probe : Type 0
Probe = Option (Text → Text × Text)

abbrev pub or_text : Text → Text → Text
or_text [] t = t
or_text (c ∷ s) t = c ∷ s

-- What a partition is, by the probe where there is one; the filesystem that is known already stands.
unfoldable pub kind_of : Probe → PartitionInfo → Option Kind
unfolding classify
kind_of none p = classify [] p.fs_type
kind_of (some probe) p =
    let answer = probe p.device_path in classify answer.0 (or_text p.fs_type answer.1)

-- The devices seen so far, and the issues found on them.
pub record Scanned : Type 0 where
  pub seen : List Text
  pub issues : List Issue

unfoldable pub add_issue : Option Kind → Text → Scanned → Scanned
add_issue none device s = record { seen = device ∷ s.seen; issues = s.issues }
add_issue (some k) device s = record {
  seen = device ∷ s.seen;
  issues = s.issues ++ record { kind = k; device = device } ∷ [];
}

unfoldable pub scan_partition : Probe → PartitionInfo → Scanned → Scanned
unfolding is_among kind_of add_issue
scan_partition probe p s =
    if is_empty p.device_path || is_among p.device_path s.seen
    then s
    else add_issue (kind_of probe p) p.device_path s

unfoldable pub scan_partitions : Probe → List PartitionInfo → Scanned → Scanned
unfolding scan_partition
scan_partitions probe [] s = s
scan_partitions probe (p ∷ ps) s = scan_partitions probe ps (scan_partition probe p s)

unfoldable pub scan_disks : Probe → List DiskInfo → Scanned → Scanned
unfolding scan_partitions
scan_disks probe [] s = s
scan_disks probe (d ∷ ds) s = scan_disks probe ds (scan_partitions probe d.partitions s)

-- `ScanDiskInfos`
unfoldable pub scan_disk_infos : List DiskInfo → Probe → List Issue
unfolding scan_disks
scan_disk_infos disks probe = (scan_disks probe disks (record { seen = []; issues = [] })).issues

-- The kinds that a backend cannot handle.
abbrev pub unhandled : Bool → Kind → Bool
unhandled true storage_spaces = true
unhandled true _ = false
unhandled false _ = true

unfoldable pub first_issue : Bool → List Issue → Option Issue
first_issue is_qemu [] = none
first_issue is_qemu (i ∷ is) =
    let rest = first_issue is_qemu is in if unhandled is_qemu i.kind then some i else rest

-- `FirstUnsupported`
unfoldable pub first_unsupported : List Issue → Text → Option Issue
unfolding text_eq first_issue
first_unsupported issues backend_name = first_issue (text_eq backend_name (codes "qemu")) issues
