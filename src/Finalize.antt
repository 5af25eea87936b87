-- ===== src/Finalize.antt =====
-- pkg/finalize/target and pkg/finalize/metadata: what the target's metadata hold, and the options of
-- the customizers. The pipeline that writes them is in `Finalize.Pipeline`.
pub mod Paths
pub mod Pipeline
pub mod Order
pub mod Warned
use kc_utils.Base.{
  ℕ, zero, suc, ◌+◌, Bool, true, false, List, [], ◌∷◌, ◌++◌, map, Option, none, some, if◌then◌else◌,
  length,
}
use kc_utils.Text.{Text, codes, text_eq, is_empty}
use kc_utils.Disks.{DiskInfo}

-- `Target`
unfoldable pub target_firmware : Text → Text
target_firmware firmware = if is_empty firmware then codes "bios" else firmware

pub record BusSlot : Type 0 where
  pub index : ℕ
  pub source_disk : ℕ

pub record TargetBuses : Type 0 where
  pub virtio_blk : List BusSlot
  pub scsi : List BusSlot
  pub ide : List BusSlot

-- A slot for each disk, from the index `i` on.
unfoldable pub slots_from : ℕ → List DiskInfo → List BusSlot
slots_from i [] = []
slots_from i (d ∷ ds) = record { index = i; source_disk = i } ∷ slots_from (i + 1) ds

-- `Buses`: the type of the bus is the same in each round of its loop.
unfoldable pub buses : List DiskInfo → Text → TargetBuses
unfolding slots_from text_eq
buses disks bus_type =
    let slots = slots_from 0 disks in
    if text_eq bus_type (codes "virtio")
    then record { virtio_blk = slots; scsi = []; ide = [] }
    else if text_eq bus_type (codes "scsi")
    then record { virtio_blk = []; scsi = slots; ide = [] }
    else record { virtio_blk = []; scsi = []; ide = slots }

pub record NicSpec : Type 0 where
  pub mac : Text
  pub network : Text

pub record TargetNic : Type 0 where
  pub mac : Text
  pub model : Text
  pub network : Text

abbrev pub target_nic : Text → NicSpec → TargetNic
target_nic net_bus src = record { mac = src.mac; model = net_bus; network = src.network }

-- `NICs`
unfoldable pub nics : List NicSpec → Text → List TargetNic
nics [] net_bus = record { mac = codes "00:00:00:00:00:00"; model = net_bus; network = [] } ∷ []
nics (n ∷ ns) net_bus = map (target_nic net_bus) (n ∷ ns)

pub record BlockError : Type 0 where
  pub block : Text
  pub message : Text

-- Of `ConverterOutput`, the fields that finalize reads.
pub record Converted : Type 0 where
  pub block_bus : Text
  pub net_bus : Text
  pub warnings : List Text
  pub errors : List BlockError
  pub selinux_relabeled : Bool

-- Of `PrepareOutput` with its options and source, the fields that finalize reads.
pub record Prepared : Type 0 where
  pub disks : List DiskInfo
  pub root_device : Text
  pub os_type : Text
  pub firmware : Text
  pub source_nics : List NicSpec
  pub hostname : Text
  pub timezone : Text
  pub dynamic_scripts_dir : Text

pub record TargetMeta : Type 0 where
  pub target_buses : TargetBuses
  pub target_nics : List TargetNic
  pub target_firmware : Text
  pub disks : List DiskInfo
  pub warnings : List Text

abbrev pub option_if : Text → Text → List (Text × Text)
option_if key [] = []
option_if key (c ∷ v) = (key, c ∷ v) ∷ []

-- `CustomizerOpts`, as pairs of different keys.
unfoldable pub customizer_opts : Prepared → Converted → List (Text × Text)
customizer_opts p c =
    (codes "os_type", p.os_type)
    ∷ (option_if (codes "hostname") p.hostname
        ++ (option_if (codes "timezone") p.timezone
            ++ (
              codes "scripts_dir",
              if is_empty p.dynamic_scripts_dir
                  then codes "/mnt/dynamic_scripts"
                  else p.dynamic_scripts_dir,
            )
              ∷ (if c.selinux_relabeled
                  then (codes "selinux_relabeled", codes "true") ∷ []
                  else [])))

abbrev pub block_warning : BlockError → Text
block_warning e = codes "[" ++ (e.block ++ (codes "] " ++ e.message))

-- The warnings that `WriteTargetMeta` adds.
unfoldable pub merge_warnings : Converted → List Text → List Text
merge_warnings c warnings = (warnings ++ c.warnings) ++ map block_warning c.errors
