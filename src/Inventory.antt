-- ===== src/Inventory.antt =====
-- pkg/v2v/vsphere/disks.go: the disks of a virtual machine in the order that libvirt gives them.
--
-- A device is a controller of a bus, a disk, or another one. The keys of an inventory are not negative.
pub mod Listed
pub mod Order
use kc_utils.Base.{
  ℕ, zero, suc, ◌+◌, Bool, true, false, not, ◌&&◌, ◌||◌, List, [], ◌∷◌, ◌++◌, map, Option, none,
  some, if◌then◌else◌, ◌==◌, ltb,
}
use kc_utils.Text.{Text, codes, text_eq, is_empty}
use kc_utils.Sort.{sort}
use kc_utils.Copy.Select.{normalize_disk_path}

pub data Bus : Type 0 where
  scsi sata ide nvme : Bus

-- The file of the disk, and those of its parents, the nearest first.
pub data Backing : Type 0 where
  flat sparse : Text → List Text → Backing
  se_sparse : Text → Backing
  raw_mapping other_backing : Backing

pub record VirtualDisk : Type 0 where
  pub key : ℕ
  pub controller_key : ℕ
  pub unit_number : Option ℕ
  pub backing : Backing

pub data Device : Type 0 where
  controller : Bus → ℕ → Device
  disk : VirtualDisk → Device
  other_device : ℕ → Device

pub record DiskEntry : Type 0 where
  pub path : Text
  pub bus : Option Bus
  pub controller_key : ℕ
  pub unit_number : Option ℕ
  pub device_key : ℕ

-- `busRank`, by `libvirtBusOrder`.
abbrev pub bus_rank : Option Bus → ℕ
bus_rank (some scsi) = 0
bus_rank (some sata) = 1
bus_rank (some ide) = 2
bus_rank (some nvme) = 3
bus_rank none = 4

-- A disk without a unit has the unit -1.
abbrev pub unit_rank : Option ℕ → ℕ
unit_rank none = 0
unit_rank (some n) = n + 1

-- `trimDeltaSuffix`, which is written as `normalizeDiskPath` is.
abbrev pub trim_delta_suffix : Text → Text
trim_delta_suffix = normalize_disk_path

abbrev pub last_parent : Text → List Text → Text
last_parent p [] = p
last_parent p (q ∷ ps) = last_parent q ps

-- `baseDiskPath` and `baseDiskPathSparse`
unfoldable pub base_disk_path : Text → List Text → Text
unfolding normalize_disk_path
base_disk_path current [] = normalize_disk_path current
base_disk_path current (p ∷ ps) =
    let top = last_parent p ps in if is_empty top then normalize_disk_path current else top

-- `diskFilePath`
unfoldable pub disk_file_path : Backing → Text
unfolding base_disk_path
disk_file_path (flat file parents) = base_disk_path file parents
disk_file_path (sparse file parents) = base_disk_path file parents
disk_file_path (se_sparse file) = file
disk_file_path raw_mapping = []
disk_file_path other_backing = []

abbrev pub or_bus : Option Bus → Option Bus → Option Bus
or_bus (some b) other = some b
or_bus none other = other

-- The bus of a controller; the last one with the key counts.
unfoldable pub controller_bus : ℕ → List Device → Option Bus
controller_bus key [] = none
controller_bus key (controller b k ∷ ds) =
    or_bus (controller_bus key ds) (if k == key then some b else none)
controller_bus key (disk d ∷ ds) = controller_bus key ds
controller_bus key (other_device k ∷ ds) = controller_bus key ds

unfoldable pub entry_of : List Device → VirtualDisk → DiskEntry
unfolding controller_bus disk_file_path
entry_of all d = record {
  path = disk_file_path d.backing;
  bus = if d.controller_key == 0 then none else controller_bus d.controller_key all;
  controller_key = d.controller_key;
  unit_number = d.unit_number;
  device_key = d.key;
}

unfoldable pub entries_from : List Device → List Device → List DiskEntry
unfolding entry_of
entries_from all [] = []
entries_from all (disk d ∷ ds) =
    let e = entry_of all d in
    let rest = entries_from all ds in if is_empty e.path then rest else e ∷ rest
entries_from all (controller b k ∷ ds) = entries_from all ds
entries_from all (other_device k ∷ ds) = entries_from all ds

-- One key, and the next where it is the same.
abbrev pub then_by : ℕ → ℕ → Bool → Bool
then_by a b rest = if a == b then rest else ltb a b

unfoldable pub entry_less : DiskEntry → DiskEntry → Bool
entry_less a b = then_by (bus_rank a.bus) (bus_rank b.bus) (
    then_by a.controller_key b.controller_key
      (then_by (unit_rank a.unit_number) (unit_rank b.unit_number) (ltb a.device_key b.device_key)))

abbrev pub entry_path : DiskEntry → Text
entry_path e = e.path

-- `disksFromDevices`
unfoldable pub disks_from_devices : List Device → List Text
unfolding sort entry_less entries_from
disks_from_devices devices = map entry_path (sort entry_less (entries_from devices devices))
