-- ===== src/Prepare/Unlock.antt =====
-- The encrypted volumes of the guest, in pkg/cmd/prepare/pipeline.go.
--
-- `Volumes` has the guest's answers. Those on its layout go with the number of scans so far, and those on
-- an encrypted device with what is unlocked already. The key files come in the order in which Go walks
-- the map.
use kc_utils.Base.{
  ℕ, ◌+◌, Bool, false, ◌&&◌, ◌||◌, List, [], ◌∷◌, ◌++◌, map, Option, none, some, if◌then◌else◌, leb,
  ◌==◌,
}
use kc_utils.Text.{Text, codes, text_eq, is_empty, has_prefix, to_lower}
use kc_utils.FilePath.{base}
use kc_utils.Disks.{PartitionInfo, DiskInfo}
use kc_utils.Mount.{member}

pub record Volumes : Type 0 where
  pub disk_infos : ℕ → List DiskInfo
  pub lv_paths : ℕ → List Text
  pub ldm_paths : ℕ → List Text
  pub fs_type : Text → Option Text
  pub decrypt : List Text → Text → Text → Text → Option Text
  pub unlock_clevis : List Text → Text → Text → Option Text
  pub decrypt_bitlocker : List Text → Text → Text → Text → Option Text

pub record Luks : Type 0 where
  pub key_files : List (Text × Text)
  pub clevis : Bool

abbrev pub mapper_byte : ℕ → ℕ
mapper_byte c =
    if leb b'a' c && leb c b'z'
      || leb b'A' c && leb c b'Z'
      || leb b'0' c && leb c b'9'
      || c == b'-'
      || c == b'_'
    then c
    else b'-'

abbrev pub or_vol : Text → Text
or_vol [] = codes "vol"
or_vol (c ∷ s) = c ∷ s

-- `sanitizeMapper`
unfoldable pub sanitize_mapper : Text → Text
unfolding base
sanitize_mapper device = or_vol (map mapper_byte (base device))

abbrev pub add_unlocked : List Text → Option Text → List Text
add_unlocked unlocked none = unlocked
add_unlocked unlocked (some mapped) = unlocked ++ mapped ∷ []

-- A key for whichever device it opens.
abbrev pub is_for_all : Text → Bool
is_for_all device =
    is_empty device || text_eq device (codes "all") || has_prefix device (codes "all-")

module _ (g : Volumes) where
  unfoldable pub decrypt_each : Text → List Text → List Text → List Text
  unfolding sanitize_mapper
  decrypt_each key [] unlocked = unlocked
  decrypt_each key (d ∷ devices) unlocked = decrypt_each key devices (
      add_unlocked unlocked
        (g.decrypt unlocked d key (codes "v2v-luks-keyfile-" ++ sanitize_mapper d)))

  unfoldable pub decrypt_keys : List Text → List (Text × Text) → List Text → List Text
  unfolding decrypt_each text_eq has_prefix
  decrypt_keys candidates [] unlocked = unlocked
  decrypt_keys candidates ((device, key) ∷ keys) unlocked = decrypt_keys candidates keys (
      if is_for_all device
      then decrypt_each key candidates unlocked
      else decrypt_each key (device ∷ []) unlocked)

  unfoldable pub clevis_each : List Text → List Text → List Text
  unfolding sanitize_mapper
  clevis_each [] unlocked = unlocked
  clevis_each (d ∷ devices) unlocked = clevis_each devices (
      add_unlocked unlocked
        (g.unlock_clevis unlocked d (codes "v2v-luks-clevis-" ++ sanitize_mapper d)))

  -- `decryptDisks`
  unfoldable pub decrypt_disks : Option Luks → List Text → List Text
  unfolding decrypt_keys clevis_each
  decrypt_disks none candidates = []
  decrypt_disks (some luks) candidates =
      let opened = decrypt_keys candidates luks.key_files [] in
      if luks.clevis then clevis_each candidates opened else opened

  -- `strings.EqualFold` with a name in ASCII.
  abbrev pub is_bitlocker : Option Text → Bool
  is_bitlocker none = false
  is_bitlocker (some ft) = text_eq (to_lower ft) (codes "bitlocker")

  unfoldable pub bitlocker_device : Text → Text → List Text → List Text
  unfolding sanitize_mapper
  bitlocker_device key d unlocked =
      add_unlocked unlocked
        (g.decrypt_bitlocker unlocked d key (codes "v2v-bitlk-" ++ sanitize_mapper d))

  unfoldable pub bitlocker_each : Text → List Text → List Text → List Text
  unfolding bitlocker_device text_eq to_lower
  bitlocker_each key [] unlocked = unlocked
  bitlocker_each key (d ∷ devices) unlocked =
      bitlocker_each key devices
        (if is_bitlocker (g.fs_type d) then bitlocker_device key d unlocked else unlocked)

  unfoldable pub bitlocker_keys : List Text → List (Text × Text) → List Text → List Text
  unfolding bitlocker_each bitlocker_device text_eq has_prefix
  bitlocker_keys candidates [] unlocked = unlocked
  bitlocker_keys candidates ((device, key) ∷ keys) unlocked = bitlocker_keys candidates keys (
      if is_for_all device
      then bitlocker_each key candidates unlocked
      else bitlocker_device key device unlocked)

abbrev pub part_devices : List PartitionInfo → List Text
part_devices [] = []
part_devices (p ∷ ps) = p.device_path ∷ part_devices ps

abbrev pub disk_devices : List DiskInfo → List Text
disk_devices [] = []
disk_devices (d ∷ ds) = part_devices d.partitions ++ disk_devices ds

-- The devices that are not there yet, each added behind.
unfoldable pub add_missing : List Text → List Text → List Text
unfolding member
add_missing [] devices = devices
add_missing (d ∷ ds) devices =
    add_missing ds (if member d devices then devices else devices ++ d ∷ [])

-- A scan by its number, with the paths and disks that were read after it.
pub record Scanned : Type 0 where
  pub number : ℕ
  pub lvs : List Text
  pub disks : List DiskInfo

-- `rescanAfterDecrypt`
unfoldable pub rescan_after_decrypt : Volumes → List Text → Scanned → Scanned
rescan_after_decrypt g [] s = s
rescan_after_decrypt g (u ∷ us) s = record {
  number = s.number + 1;
  lvs = g.lv_paths (s.number + 1);
  disks = g.disk_infos (s.number + 1);
}

pub record Layout : Type 0 where
  pub disks : List DiskInfo
  pub lv_paths : List Text
  pub ldm_paths : List Text
  pub unlocked : List Text
  pub all_part_devices : List Text

abbrev pub first_scan : Volumes → List DiskInfo → Scanned
first_scan g disks = record { number = 0; lvs = g.lv_paths 0; disks = disks }

-- `unlockGuestVolumes`
unfoldable pub unlock_guest_volumes :
    Volumes → Option Luks → List (Text × Text) → List DiskInfo → Layout
unfolding decrypt_disks rescan_after_decrypt add_missing bitlocker_keys
unlock_guest_volumes g luks bitlocker_key_files disks =
    let parts = disk_devices disks in
    let opened = decrypt_disks g luks (parts ++ (g.lv_paths 0 ++ g.ldm_paths 0)) in
    let s = rescan_after_decrypt g opened (first_scan g disks) in
    let candidates =
      add_missing (disk_devices s.disks) (parts ++ (s.lvs ++ g.ldm_paths s.number)) ++ opened in
    let unlocked = bitlocker_keys g candidates bitlocker_key_files [] in
    let t = rescan_after_decrypt g unlocked s in
    record {
      disks = t.disks;
      lv_paths = t.lvs;
      ldm_paths = g.ldm_paths t.number;
      unlocked = opened ++ unlocked;
      all_part_devices = parts;
    }
