-- ===== src/Examples/Mounts.antt =====
-- The disks, the mounts and the root of a guest.
use kc_utils.Base.{◌≡◌, ◌≢◌, refl, Bool, true, false, List, [], ◌∷◌, none, some, All, if◌then◌else◌}
use kc_utils.Text.{Text, codes, text_eq, trim_space}
use kc_utils.FilePath.{slash}
use kc_utils.Sort.{Pairwise, Ascending}
use kc_utils.ConfigEdit.Fstab.{Entry, fields_entry}
use kc_utils.Disks.{
  PartitionInfo, DiskInfo, normalize_guest_path, is_root, any_partition, with_root_mount,
}
use kc_utils.Disks.RootMount.{with_root_mount-mounted}
use kc_utils.Mount.{
  MountSpec, Probe, PlanContext, expand_linux, apply, sort_specs, path_length, update_mount_point,
  spec_of,
}
use kc_utils.Mount.Expand.{expand_linux-Pairwise}
use kc_utils.Mount.Apply.{is_mount, apply-mounted, update_mount_point-recorded}
use kc_utils.Root.{
  RootCandidate, selected, select, selectors, select_single, or_first, Scan, discover,
}
use kc_utils.Root.Selected.{IsChosen, select-IsChosen}
use kc_utils.Root.Found.{IsHit, discover-IsHit}

abbrev partition : Text → Text → PartitionInfo
partition device mp = record {
  index = 1;
  size_bytes = 0;
  fs_type = codes "ext4";
  mount_point = mp;
  device_path = device;
}

abbrev disks : List DiskInfo
disks =
    record {
      path = codes "/d.img";
      size_bytes = 0;
      format = codes "raw";
      partitions = partition (codes "/dev/sda1") slash ∷ partition (codes "/dev/sda2") [] ∷ [];
    }
    ∷ []

disks-ne-nil : disks ≢ []
disks-ne-nil e = cc

root-ne-nil : codes "/dev/sda2" ≢ []
root-ne-nil e = cc

not_mounted : any_partition (is_root (normalize_guest_path (codes "/dev/sda2"))) disks ≡ false
unfolding any_partition normalize_guest_path
not_mounted = refl

with_root_mount-mounted_example :
    any_partition
      (is_root (normalize_guest_path (codes "/dev/sda2")))
      (with_root_mount disks (codes "/dev/sda2"))
    ≡ true
with_root_mount-mounted_example =
    with_root_mount-mounted disks (codes "/dev/sda2") root-ne-nil disks-ne-nil

abbrev probe : Probe
probe = record {
  fs_type = λ d. some (codes "ext4");
  uuid = λ d. [];
  label = λ d. [];
  exists = λ p. false;
}

abbrev context : PlanContext
context = record {
  root_device = codes "/dev/sda2";
  root_fs_type = [];
  root_disk = 0;
  esp_devices = [];
  disks = disks;
  all_devices = codes "/dev/sda1" ∷ codes "/dev/sda2" ∷ [];
}

abbrev file : List Entry
file =
    fields_entry (codes "/dev/sda2" ∷ codes "/" ∷ codes "ext4" ∷ [])
    ∷ fields_entry (codes "/dev/sda1" ∷ codes "/boot" ∷ codes "auto" ∷ [])
    ∷ []

expand_linux-Pairwise_example :
    Pairwise (λ s t. s.guest_mp ≢ t.guest_mp) (expand_linux probe context file)
expand_linux-Pairwise_example = expand_linux-Pairwise probe context file

-- The entry of /etc/fstab that adds a mount.
expanded :
    expand_linux probe context file
    ≡ spec_of (codes "/dev/sda1") (codes "/boot") (codes "ext4") ∷ []
unfolding expand_linux
expanded = refl

abbrev specs : List MountSpec
specs =
    spec_of (codes "/dev/sda1") (codes "/boot") (codes "ext4")
    ∷ spec_of (codes "/dev/sda2") slash (codes "ext4")
    ∷ []

all_mounted : (apply (λ s. false) specs disks).0 ≡ true
unfolding apply
all_mounted = refl

apply-mounted_example :
    ((apply (λ s. false) specs disks).1.mounted ≡ sort_specs specs)
    × Ascending path_length (apply (λ s. false) specs disks).1.mounted
apply-mounted_example = apply-mounted (λ s. false) specs disks all_mounted

abbrev boot_fails : MountSpec → Bool
boot_fails s = text_eq s.guest_mp (codes "/boot")

stopped : (apply boot_fails specs disks).0 ≡ false
unfolding apply text_eq
stopped = refl

update_mount_point-recorded_example :
    any_partition
      (is_mount (codes "/dev/vg/lv") (codes "/home"))
      (update_mount_point disks (codes "/dev/vg/lv") (codes "/home") (codes "xfs"))
    ≡ true
update_mount_point-recorded_example =
    update_mount_point-recorded disks (codes "/dev/vg/lv") (codes "/home") (codes "xfs")
      disks-ne-nil refl

abbrev linux : RootCandidate
linux = record {
  device_path = codes "/dev/sda2";
  disk_index = 0;
  part_index = 1;
  fs_type = codes "ext4";
  os_type = codes "linux";
  product_name = codes "Fedora";
}

only : select selectors (linux ∷ []) (codes " single ") ≡ selected linux
unfolding select selectors select_single
only = refl

select-IsChosen_example : IsChosen (or_first (trim_space (codes " single "))) linux (linux ∷ [])
select-IsChosen_example = select-IsChosen (linux ∷ []) (codes " single ") linux only

abbrev scan : Scan
scan = record {
  fs_type = λ d. none;
  probe = λ d t.
      if text_eq d (codes "/dev/sda2")
      then some (some (record { os_type = codes "linux"; product_name = codes "Fedora" }))
      else some none;
}

one_found : discover scan disks [] ≡ some (linux ∷ [])
unfolding discover text_eq
one_found = refl

discover-IsHit_example : (linux ∷ [] ≢ []) × All (IsHit scan) (linux ∷ [])
discover-IsHit_example = discover-IsHit scan disks [] (linux ∷ []) one_found
