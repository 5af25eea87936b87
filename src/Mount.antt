-- ===== src/Mount.antt =====
-- pkg/prepare/mount and its planners, and pkg/prepare/guest/resolve: which guest filesystems are
-- mounted where, and what the disks record of it.
--
-- `Probe` holds the answers of the guest wrapper and the host: the type of a filesystem (nothing for an
-- error), the attributes of a device (empty if it has none), and whether a path exists. Of
-- `PlanContext`, the fields that the planners read; `root_fs_type` and `root_device` are those of its
-- root candidate.
pub mod Expand
pub mod Apply
use kc_utils.Base.{
  ℕ, ◌+◌, Bool, true, false, not, ◌||◌, ◌&&◌, List, [], ◌∷◌, ◌++◌, map, Option, none, some,
  if◌then◌else◌, length, get_elem?,
}
use kc_utils.Text.{Text, codes, text_eq, is_empty, has_prefix, trim_prefix, trim_space, to_lower}
use kc_utils.FilePath.{slash}
use kc_utils.Sort.{sort, by_key}
use kc_utils.ConfigEdit.Fstab.{Entry, device_entries}
use kc_utils.Disks.{PartitionInfo, DiskInfo, append_partition, synthetic, no_disks}

pub record MountSpec : Type 0 where
  pub device_path : Text
  pub guest_mp : Text
  pub fs_type : Text
  pub read_only : Bool

pub record Probe : Type 0 where
  pub fs_type : Text → Option Text
  pub uuid : Text → Text
  pub label : Text → Text
  pub exists : Text → Bool

pub record PlanContext : Type 0 where
  pub root_device : Text
  pub root_fs_type : Text
  pub root_disk : ℕ
  pub esp_devices : List Text
  pub disks : List DiskInfo
  pub all_devices : List Text

-- The newest binding of a key.
unfoldable pub find : List (Text × Text) → Text → Option Text
unfolding text_eq
find [] key = none
find (b ∷ m) key = if text_eq b.0 key then some b.1 else find m key

pub record Catalog : Type 0 where
  pub by_path : List (Text × Text)
  pub by_uuid : List (Text × Text)
  pub by_label : List (Text × Text)

abbrev pub bind : Text → Text → List (Text × Text) → List (Text × Text)
bind [] dev m = m
bind (c ∷ key) dev m = (c ∷ key, dev) ∷ m

-- `NewCatalog`; the bindings so far are the last argument.
unfoldable pub new_catalog : Probe → List Text → Catalog → Catalog
unfolding to_lower
new_catalog probe [] c = c
new_catalog probe (dev ∷ devices) c = new_catalog probe devices (record {
  by_path = (dev, dev) ∷ c.by_path;
  by_uuid = bind (to_lower (probe.uuid dev)) dev c.by_uuid;
  by_label = bind (probe.label dev) dev c.by_label;
})

abbrev pub empty_catalog : Catalog
empty_catalog = record { by_path = []; by_uuid = []; by_label = [] }

abbrev pub or_exists : Probe → Text → Option Text → Option Text
or_exists probe spec (some dev) = some dev
or_exists probe spec none = if probe.exists spec then some spec else none

-- `Resolve`
unfoldable pub resolve : Probe → Catalog → Text → Option Text
unfolding trim_space has_prefix find trim_prefix to_lower
resolve probe c text =
    let spec = trim_space text in
    if is_empty spec
    then none
    else if has_prefix spec (codes "UUID=")
    then find c.by_uuid (to_lower (trim_prefix spec (codes "UUID=")))
    else if has_prefix spec (codes "LABEL=")
    then find c.by_label (trim_prefix spec (codes "LABEL="))
    else if has_prefix spec (codes "/dev/")
    then or_exists probe spec (find c.by_path spec)
    else none

unfoldable pub member : Text → List Text → Bool
unfolding text_eq
member t [] = false
member t (x ∷ xs) = text_eq x t || member t xs

abbrev pub pseudo_types : List Text
pseudo_types =
    codes "swap"
    ∷ codes "proc"
    ∷ codes "sysfs"
    ∷ codes "devpts"
    ∷ codes "devtmpfs"
    ∷ codes "tmpfs"
    ∷ codes "cgroup"
    ∷ codes "pstore"
    ∷ codes "bpf"
    ∷ codes "tracefs"
    ∷ codes "debugfs"
    ∷ codes "securityfs"
    ∷ codes "configfs"
    ∷ codes "fusectl"
    ∷ codes "mqueue"
    ∷ codes "hugetlbfs"
    ∷ []

-- `skipMountPoint`
unfoldable pub skip_mount_point : Text → Text → Bool
unfolding text_eq member has_prefix
skip_mount_point mp fs_type =
    is_empty mp
    || text_eq mp (codes "none")
    || text_eq mp (codes "swap")
    || member fs_type pseudo_types
    || has_prefix mp (codes "/proc")
    || has_prefix mp (codes "/sys")
    || has_prefix mp (codes "/dev")

abbrev pub path_length : MountSpec → ℕ
path_length s = length s.guest_mp

-- `SortSpecs`
unfoldable pub sort_specs : List MountSpec → List MountSpec
unfolding sort
sort_specs = sort (by_key path_length)

abbrev pub spec_of : Text → Text → Text → MountSpec
spec_of dev mp ft = record { device_path = dev; guest_mp = mp; fs_type = ft; read_only = false }

-- `DetectFS` where the given type is not known.
abbrev pub type_or : Probe → Text → Text → Bool → Option Text
type_or probe dev ft known = if known then some ft else probe.fs_type dev

abbrev pub root_spec : PlanContext → Option Text → Option (List MountSpec)
root_spec ctx none = none
root_spec ctx (some ft) = some (spec_of ctx.root_device slash ft ∷ [])

-- `LinuxPlanner.Plan`
unfoldable pub plan_linux : Probe → PlanContext → Option (List MountSpec)
plan_linux probe ctx =
    root_spec ctx (type_or probe ctx.root_device ctx.root_fs_type (not (is_empty ctx.root_fs_type)))

-- The mount points that were dealt with, and the specs.
abbrev pub Expansion : Type 0
Expansion = List Text × List MountSpec

abbrev pub add_spec : Text → Text → Option Text → Expansion → Expansion
add_spec dev mp none x = x
add_spec dev mp (some ft) x = (mp ∷ x.0, x.1 ++ spec_of dev mp ft ∷ [])

-- An entry whose device is resolved.
unfoldable pub expand_device : Probe → Text → Entry → Option Text → Expansion → Expansion
unfolding text_eq
expand_device probe root_dev e none x = x
expand_device probe root_dev e (some dev) x =
    if text_eq dev root_dev
    then (e.mount_point ∷ x.0, x.1)
    else add_spec dev e.mount_point
        (type_or probe dev e.fs_type (not (is_empty e.fs_type || text_eq e.fs_type (codes "auto"))))
        x

-- One entry of the loop of `Expand`.
unfoldable pub expand_entry : Probe → Catalog → Text → Entry → Expansion → Expansion
unfolding skip_mount_point member resolve expand_device
expand_entry probe c root_dev e x =
    if skip_mount_point e.mount_point e.fs_type
    then x
    else if member e.mount_point x.0
    then x
    else expand_device probe root_dev e (resolve probe c e.device) x

unfoldable pub expand_entries : Probe → Catalog → Text → List Entry → Expansion → Expansion
unfolding expand_entry
expand_entries probe c root_dev [] x = x
expand_entries probe c root_dev (e ∷ es) x =
    expand_entries probe c root_dev es (expand_entry probe c root_dev e x)

-- `LinuxPlanner.Expand` of the entries of the guest's /etc/fstab.
unfoldable pub expand_linux : Probe → PlanContext → List Entry → List MountSpec
unfolding new_catalog expand_entries device_entries sort_specs
expand_linux probe ctx file =
    sort_specs
      (expand_entries probe (new_catalog probe ctx.all_devices empty_catalog) ctx.root_device
        (device_entries file) (slash ∷ [], [])).1

-- The loop of `findESP` over the partitions.
unfoldable pub find_vfat : Text → List PartitionInfo → Text
unfolding text_eq
find_vfat root_dev [] = []
find_vfat root_dev (p ∷ ps) =
    if text_eq p.fs_type (codes "vfat") && not (text_eq p.device_path root_dev)
    then p.device_path
    else find_vfat root_dev ps

unfoldable pub vfat_of : Text → Option DiskInfo → Text
unfolding find_vfat
vfat_of root_dev none = []
vfat_of root_dev (some d) = find_vfat root_dev d.partitions

-- `findESP`
abbrev pub esp_or : List Text → Text → Text
esp_or [] other = other
esp_or (dev ∷ devs) other = dev

unfoldable pub find_esp : PlanContext → Text
unfolding vfat_of
find_esp ctx = esp_or ctx.esp_devices (vfat_of ctx.root_device (get_elem? ctx.disks ctx.root_disk))

unfoldable pub esp_specs : Text → Option Text → List MountSpec
unfolding text_eq
esp_specs esp none = []
esp_specs esp (some ft) =
    if text_eq ft (codes "vfat") then spec_of esp (codes "/boot/efi") ft ∷ [] else []

unfoldable pub with_esp : Probe → Text → Option (List MountSpec) → Option (List MountSpec)
unfolding esp_specs
with_esp probe esp none = none
with_esp probe esp (some specs) =
    some (if is_empty esp then specs else specs ++ esp_specs esp (probe.fs_type esp))

-- `Planner.Plan` of the Windows planner.
unfoldable pub plan_windows : Probe → PlanContext → Option (List MountSpec)
unfolding plan_linux find_esp with_esp
plan_windows probe ctx = with_esp probe (find_esp ctx) (plan_linux probe ctx)

abbrev pub cons_some : PartitionInfo → Option (List PartitionInfo) → Option (List PartitionInfo)
cons_some p none = none
cons_some p (some ps) = some (p ∷ ps)

-- The first partition with the device, its mount point and perhaps its type set.
unfoldable pub update_part : Text → Text → Text → List PartitionInfo → Option (List PartitionInfo)
unfolding text_eq
update_part dev mp ft [] = none
update_part dev mp ft (p ∷ ps) =
    if text_eq p.device_path dev
    then some (
        record p {
          mount_point = mp;
          fs_type = if not (is_empty ft) && is_empty p.fs_type then ft else p.fs_type;
        }
        ∷ ps)
    else cons_some p (update_part dev mp ft ps)

abbrev pub or_next :
    DiskInfo
    → Option (List PartitionInfo)
    → List DiskInfo
    → Option (List DiskInfo)
    → Option (List DiskInfo)
or_next d (some ps) ds r = some (record d { partitions = ps } ∷ ds)
or_next d none ds none = none
or_next d none ds (some es) = some (d ∷ es)

unfoldable pub update_disks : Text → Text → Text → List DiskInfo → Option (List DiskInfo)
unfolding update_part
update_disks dev mp ft [] = none
update_disks dev mp ft (d ∷ ds) =
    or_next d (update_part dev mp ft d.partitions) ds (update_disks dev mp ft ds)

unfoldable pub or_synthetic :
    Text → Text → Text → List DiskInfo → Option (List DiskInfo) → List DiskInfo
unfolding append_partition
or_synthetic dev mp ft disks (some es) = es
or_synthetic dev mp ft disks none =
    if is_empty dev || is_empty mp then disks else append_partition (synthetic dev mp ft) disks

-- `updateMountPoint`
unfoldable pub update_mount_point : List DiskInfo → Text → Text → Text → List DiskInfo
unfolding update_disks or_synthetic
update_mount_point disks dev mp ft = or_synthetic dev mp ft disks (update_disks dev mp ft disks)

-- The mounts that were made, and the disks.
pub record Mounts : Type 0 where
  pub mounted : List MountSpec
  pub disks : List DiskInfo

-- `fails` are the mounts that `MountPartition` refuses; `false` is an error.
unfoldable pub apply_list : (MountSpec → Bool) → List MountSpec → Mounts → Bool × Mounts
unfolding update_mount_point
apply_list fails [] m = (true, m)
apply_list fails (s ∷ specs) m =
    let rest = apply_list fails specs (record {
      mounted = m.mounted ++ s ∷ [];
      disks = update_mount_point m.disks s.device_path s.guest_mp s.fs_type;
    }) in
    if fails s then (false, m) else rest

-- `Apply`
unfoldable pub apply : (MountSpec → Bool) → List MountSpec → List DiskInfo → Bool × Mounts
unfolding apply_list sort_specs
apply fails specs disks =
    apply_list fails (sort_specs specs) (record { mounted = []; disks = disks })
