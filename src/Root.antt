-- ===== src/Root.antt =====
-- pkg/prepare/root and its selectors: the devices that hold an operating system, and the choice of one.
--
-- `Scan` holds the answers of the guest wrapper and of the inspection: the type of a volume's
-- filesystem (nothing for an error), and what the probe of a device finds (nothing for an error, and
-- then nothing for a miss).
pub mod Selected
pub mod Found
use kc_utils.Base.{
  ℕ, zero, suc, ◌+◌, Bool, true, false, not, ◌||◌, ◌&&◌, List, [], ◌∷◌, ◌++◌, Option, none, some,
  if◌then◌else◌,
}
use kc_utils.Text.{Text, codes, text_eq, is_empty, has_prefix, contains, trim_space, to_lower}
use kc_utils.Disks.{PartitionInfo, DiskInfo}

pub record RootCandidate : Type 0 where
  pub device_path : Text
  pub disk_index : ℕ
  pub part_index : ℕ
  pub fs_type : Text
  pub os_type : Text
  pub product_name : Text

pub data Selection : Type 0 where
  selected : RootCandidate → Selection
  no_candidates : Selection
  multi_boot : List RootCandidate → Selection
  not_found : Text → Selection
  invalid_choice : Text → Selection
  not_registered : Text → Selection

abbrev pub Selector : Type 0
Selector = List RootCandidate → Text → Selection

-- `Select` of the plugin first.
unfoldable pub select_first : Selector
select_first [] choice = no_candidates
select_first (c ∷ cs) choice = selected c

-- `Select` of the plugin single.
unfoldable pub select_single : Selector
select_single [] choice = no_candidates
select_single (c ∷ []) choice = selected c
select_single (c ∷ d ∷ cs) choice = multi_boot (c ∷ d ∷ cs)

-- `Select` of the plugin device.
unfoldable pub select_device : Selector
unfolding text_eq
select_device [] choice = not_found choice
select_device (c ∷ cs) choice =
    if text_eq c.device_path choice then selected c else select_device cs choice

-- The registry, as the plugins fill it.
abbrev pub Registry : Type 0
Registry = Text → Option Selector

unfoldable pub selectors : Registry
unfolding text_eq
selectors name =
    if text_eq name (codes "single")
    then some select_single
    else if text_eq name (codes "first")
    then some select_first
    else if text_eq name (codes "device")
    then some select_device
    else none

abbrev pub select_with : Text → Option Selector → Selector
select_with name none candidates choice = not_registered name
select_with name (some s) candidates choice = s candidates choice

abbrev pub or_first : Text → Text
or_first [] = codes "first"
or_first (c ∷ s) = c ∷ s

unfoldable pub select_choice : Registry → List RootCandidate → Text → Selection
unfolding text_eq has_prefix
select_choice registry cs choice =
    if text_eq choice (codes "single")
    then select_with (codes "single") (registry (codes "single")) cs choice
    else if text_eq choice (codes "first")
    then select_with (codes "first") (registry (codes "first")) cs choice
    else if has_prefix choice (codes "/dev/")
    then select_with (codes "device") (registry (codes "device")) cs choice
    else invalid_choice choice

-- `Select`
unfoldable pub select : Registry → List RootCandidate → Text → Selection
unfolding select_choice trim_space
select registry cs choice = select_choice registry cs (or_first (trim_space choice))

-- `skipFSType`
unfoldable pub skip_fs_type : Text → Bool
unfolding to_lower trim_space text_eq has_prefix contains
skip_fs_type text =
    let ft = to_lower (trim_space text) in
    (is_empty ft || text_eq ft (codes "unknown") || text_eq ft (codes "swap"))
    || (has_prefix ft (codes "swap") || contains ft (codes "swap"))
    || (text_eq ft (codes "crypto_luks")
        || contains ft (codes "crypto_luks")
        || text_eq ft (codes "bitlocker"))

-- The operating system's type and its product name.
pub record Inspected : Type 0 where
  pub os_type : Text
  pub product_name : Text

pub record Scan : Type 0 where
  pub fs_type : Text → Option Text
  pub probe : Text → Text → Option (Option Inspected)

abbrev pub candidate_of : Text → ℕ → ℕ → Text → Inspected → RootCandidate
candidate_of device di pi ft found = record {
  device_path = device;
  disk_index = di;
  part_index = pi;
  fs_type = ft;
  os_type = found.os_type;
  product_name = found.product_name;
}

abbrev pub hit_or_miss : Text → ℕ → ℕ → Text → Option (Option Inspected) → List RootCandidate
hit_or_miss device di pi ft none = []
hit_or_miss device di pi ft (some none) = []
hit_or_miss device di pi ft (some (some found)) = candidate_of device di pi ft found ∷ []

-- `probeDevice`: the candidate, with none for a miss or an error, which the caller passes over.
unfoldable pub probe_device : Scan → Text → ℕ → ℕ → Text → List RootCandidate
probe_device scan device di pi ft = hit_or_miss device di pi ft (scan.probe device ft)

-- The loop over a disk's partitions.
unfoldable pub discover_parts : Scan → ℕ → List PartitionInfo → List RootCandidate
unfolding skip_fs_type probe_device
discover_parts scan di [] = []
discover_parts scan di (p ∷ ps) =
    let rest = discover_parts scan di ps in
    if skip_fs_type p.fs_type
    then rest
    else probe_device scan p.device_path di p.index p.fs_type ++ rest

-- The loop over the disks, from the disk with this index on.
unfoldable pub discover_disks : Scan → ℕ → List DiskInfo → List RootCandidate
unfolding discover_parts
discover_disks scan di [] = []
discover_disks scan di (d ∷ ds) =
    discover_parts scan di d.partitions ++ discover_disks scan (di + 1) ds

unfoldable pub discover_volume : Scan → Text → Option Text → List RootCandidate
unfolding skip_fs_type probe_device
discover_volume scan lv none = []
discover_volume scan lv (some ft) = if skip_fs_type ft then [] else probe_device scan lv 0 0 ft

-- The loop over the logical volumes.
unfoldable pub discover_volumes : Scan → List Text → List RootCandidate
unfolding discover_volume
discover_volumes scan [] = []
discover_volumes scan (lv ∷ lvs) =
    discover_volume scan lv (scan.fs_type lv) ++ discover_volumes scan lvs

abbrev pub some_found : List RootCandidate → Option (List RootCandidate)
some_found [] = none
some_found (c ∷ cs) = some (c ∷ cs)

-- `Discover`; nothing is the error that there is no root device.
unfoldable pub discover : Scan → List DiskInfo → List Text → Option (List RootCandidate)
unfolding discover_disks discover_volumes
discover scan disks lvs = some_found (discover_disks scan 0 disks ++ discover_volumes scan lvs)
