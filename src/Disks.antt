-- ===== src/Disks.antt =====
-- The disks and partitions of pkg/common/types/types.go, and pkg/guest/mount_table.go: the mount of
-- the root among them. Of `RootCandidate` and `InspectData`, the fields that these stages read.
pub mod RootMount
use kc_utils.Base.{
  ℕ, zero, suc, ◌+◌, Bool, true, false, not, ◌||◌, ◌&&◌, List, [], ◌∷◌, ◌++◌, map, Option, none,
  some, if◌then◌else◌,
}
use kc_utils.Text.{Text, codes, text_eq, is_empty, has_prefix}
use kc_utils.FilePath.{clean, slash}

pub record PartitionInfo : Type 0 where
  pub index : ℕ
  pub size_bytes : ℕ
  pub fs_type : Text
  pub mount_point : Text
  pub device_path : Text

pub record DiskInfo : Type 0 where
  pub path : Text
  pub size_bytes : ℕ
  pub format : Text
  pub partitions : List PartitionInfo

abbrev pub or_slash : Text → Text
or_slash p = if text_eq p (codes ".") then slash else p

-- `normalizeGuestPath`
unfoldable pub normalize_guest_path : Text → Text
unfolding clean has_prefix
normalize_guest_path p =
    if is_empty p
    then slash
    else if has_prefix p slash
    then or_slash (clean p)
    else or_slash (clean (b'/' ∷ p))

-- The device is mounted at the root.
abbrev pub is_root : Text → PartitionInfo → Bool
is_root root p = text_eq p.device_path root && text_eq p.mount_point slash

unfoldable pub any_part : (PartitionInfo → Bool) → List PartitionInfo → Bool
any_part f [] = false
any_part f (p ∷ ps) = f p || any_part f ps

-- Does some partition pass the test?
unfoldable pub any_partition : (PartitionInfo → Bool) → List DiskInfo → Bool
unfolding any_part
any_partition f [] = false
any_partition f (d ∷ ds) = any_part f d.partitions || any_partition f ds

abbrev pub clear_root : PartitionInfo → PartitionInfo
clear_root p = if text_eq p.mount_point slash then record p { mount_point = [] } else p

abbrev pub clear_disk : DiskInfo → DiskInfo
clear_disk d = record d { partitions = map clear_root d.partitions }

abbrev pub mount_root : PartitionInfo → PartitionInfo
mount_root p = record p {
  mount_point = slash;
  fs_type = if is_empty p.fs_type then codes "auto" else p.fs_type;
}

unfoldable pub or_this :
    Text
    → PartitionInfo
    → List PartitionInfo
    → Option (List PartitionInfo)
    → Option (List PartitionInfo)
unfolding text_eq
or_this root p ps (some qs) = some (p ∷ qs)
or_this root p ps none = if text_eq p.device_path root then some (mount_root p ∷ ps) else none

-- The last partition with the device, mounted at the root: or nothing, if no partition has it.
unfoldable pub mount_last_part : Text → List PartitionInfo → Option (List PartitionInfo)
unfolding or_this
mount_last_part root [] = none
mount_last_part root (p ∷ ps) = or_this root p ps (mount_last_part root ps)

abbrev pub with_parts :
    DiskInfo → Option (List PartitionInfo) → List DiskInfo → Option (List DiskInfo)
with_parts d none ds = none
with_parts d (some ps) ds = some (record d { partitions = ps } ∷ ds)

unfoldable pub or_disk :
    Text → DiskInfo → List DiskInfo → Option (List DiskInfo) → Option (List DiskInfo)
unfolding mount_last_part
or_disk root d ds (some es) = some (d ∷ es)
or_disk root d ds none = with_parts d (mount_last_part root d.partitions) ds

unfoldable pub mount_last : Text → List DiskInfo → Option (List DiskInfo)
unfolding or_disk
mount_last root [] = none
mount_last root (d ∷ ds) = or_disk root d ds (mount_last root ds)

-- A partition of its own for a device that is none, on the first disk.
unfoldable pub append_partition : PartitionInfo → List DiskInfo → List DiskInfo
append_partition p [] = []
append_partition p (d ∷ ds) = record d { partitions = d.partitions ++ p ∷ [] } ∷ ds

abbrev pub synthetic : Text → Text → Text → PartitionInfo
synthetic device mp fs = record {
  index = 0;
  size_bytes = 0;
  fs_type = fs;
  mount_point = mp;
  device_path = device;
}

unfoldable pub or_append : Text → Option (List DiskInfo) → List DiskInfo → List DiskInfo
unfolding append_partition
or_append root none ds = append_partition (synthetic root slash (codes "auto")) ds
or_append root (some es) ds = es

-- `WithRootMount` for a path that is normal already.
unfoldable pub remount_root : Text → List DiskInfo → List DiskInfo
unfolding any_partition mount_last or_append
remount_root root disks =
    let cleared = map clear_disk disks in
    if any_partition (is_root root) disks
    then disks
    else or_append root (mount_last root cleared) cleared

abbrev pub no_disks : List DiskInfo → Bool
no_disks [] = true
no_disks (d ∷ ds) = false

-- `WithRootMount`
unfoldable pub with_root_mount : List DiskInfo → Text → List DiskInfo
unfolding remount_root normalize_guest_path
with_root_mount disks root_device =
    if is_empty root_device || no_disks disks
    then disks
    else remount_root (normalize_guest_path root_device) disks
