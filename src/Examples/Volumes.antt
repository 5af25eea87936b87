-- ===== src/Examples/Volumes.antt =====
-- A scan of a Windows guest with a dynamic disk and an encrypted partition.
use kc_utils.Base.{◌≡◌, refl, [], ◌∷◌, none, some, if◌then◌else◌}
use kc_utils.Text.{Text, codes, text_eq, contains, to_lower, trim_space}
use kc_utils.Sort.{Pairwise}
use kc_utils.Disks.{PartitionInfo, DiskInfo}
use kc_utils.WindowsVol.{Probe, ldm, bitlocker, scan_disk_infos, first_unsupported}
use kc_utils.WindowsVol.Scan.{AreApart, scan_disk_infos-Pairwise}

abbrev part_at : Text → Text → PartitionInfo
part_at device fs_type = record {
  index = 1;
  size_bytes = 1;
  fs_type = fs_type;
  mount_point = [];
  device_path = device;
}

abbrev dynamic_disk : DiskInfo
dynamic_disk = record {
  path = codes "/disk0.img";
  size_bytes = 1;
  format = codes "raw";
  partitions =
      part_at (codes "/dev/sda1") []
      ∷ part_at (codes "/dev/sda2") (codes "BitLocker")
      ∷ part_at (codes "/dev/sda1") []
      ∷ [];
}

abbrev lsblk : Probe
lsblk = some (λ d. if text_eq d (codes "/dev/sda1") then (codes "0x42", []) else ([], codes "ntfs"))

scanned :
    scan_disk_infos (dynamic_disk ∷ []) lsblk
    ≡ record { kind = ldm; device = codes "/dev/sda1" }
      ∷ record { kind = bitlocker; device = codes "/dev/sda2" }
      ∷ []
unfolding scan_disk_infos text_eq contains to_lower trim_space
scanned = refl

stopped :
    first_unsupported (scan_disk_infos (dynamic_disk ∷ []) lsblk) (codes "direct")
    ≡ some (record { kind = ldm; device = codes "/dev/sda1" })
unfolding scan_disk_infos first_unsupported text_eq contains to_lower trim_space
stopped = refl

handled : first_unsupported (scan_disk_infos (dynamic_disk ∷ []) lsblk) (codes "qemu") ≡ none
unfolding scan_disk_infos first_unsupported text_eq contains to_lower trim_space
handled = refl

scan_disk_infos-Pairwise_example : Pairwise AreApart (scan_disk_infos (dynamic_disk ∷ []) lsblk)
scan_disk_infos-Pairwise_example = scan_disk_infos-Pairwise (dynamic_disk ∷ []) lsblk
