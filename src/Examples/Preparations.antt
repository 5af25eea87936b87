-- ===== src/Examples/Preparations.antt =====
-- A run of kc-prepare on a guest with one partition.
use kc_utils.Base.{arith, ◌≡◌, refl, true, false, [], ◌∷◌, none, some}
use kc_utils.Text.{codes, text_eq}
use kc_utils.Disks.{PartitionInfo, DiskInfo}
use kc_utils.Mount.{Probe, spec_of}
use kc_utils.Root.{Scan, selectors, select_single}
use kc_utils.Copy.Plan.{image_file_name}
use kc_utils.Prepare.Images.{image_number-image_file_name}
use kc_utils.Prepare.{image_number}
use kc_utils.Prepare.Unlock.{Volumes, sanitize_mapper}
use kc_utils.Prepare.Pipeline.{
  PrepareInput, Host, missing, open_guest, fs_check, mount, write_output, clear_active, release,
  set_network, restore_network, run_prepare,
}
use kc_utils.Prepare.Written.{IsReported, run_prepare-IsReported}
use kc_utils.Prepare.Released.{IsSession, run_prepare-IsSession}

abbrev only_part : PartitionInfo
only_part = record {
  index = 1;
  size_bytes = 1;
  fs_type = codes "ext4";
  mount_point = [];
  device_path = codes "/dev/sda1";
}

abbrev only_disk : DiskInfo
only_disk = record {
  path = codes "/disk0.img";
  size_bytes = 1;
  format = codes "raw";
  partitions = only_part ∷ [];
}

abbrev plain_volumes : Volumes
plain_volumes = record {
  disk_infos = λ n. only_disk ∷ [];
  lv_paths = λ n. [];
  ldm_paths = λ n. [];
  fs_type = λ d. none;
  decrypt = λ u d k m. none;
  unlock_clevis = λ u d m. none;
  decrypt_bitlocker = λ u d k m. none;
}

abbrev one_root : Scan
one_root = record {
  fs_type = λ d. some (codes "ext4");
  probe = λ d ft. some (some (record { os_type = codes "linux"; product_name = codes "Linux" }));
}

abbrev bare_probe : Probe
bare_probe = record {
  fs_type = λ d. some (codes "ext4");
  uuid = λ d. [];
  label = λ d. [];
  exists = λ d. true;
}

abbrev clevis_input : PrepareInput
clevis_input = record {
  disks = [];
  disk_dir = codes "/in";
  root = codes "single";
  luks = some (record { key_files = []; clevis = true });
  bitlocker_keys = [];
  mount_root = codes "/mnt";
  is_guestfs = true;
}

abbrev good_host : Host
good_host = record {
  read_dir = λ d. some ((codes "disk0.img", true) ∷ (codes "notes", true) ∷ []);
  mkdir_ok = true;
  setenv_ok = true;
  open_ok = true;
  volumes = plain_volumes;
  scan = one_root;
  probe = bare_probe;
  mount_fails = λ s. false;
  read_fstab = missing;
  inspected = none;
  write_ok = true;
}

good_run : (run_prepare clevis_input good_host).ok ≡ true
unfolding run_prepare text_eq selectors select_single
good_run = refl

good_events :
    (run_prepare clevis_input good_host).events
    ≡ set_network
      ∷ open_guest
      ∷ fs_check only_part
      ∷ mount (spec_of (codes "/dev/sda1") (codes "/") (codes "ext4"))
      ∷ write_output (codes "complete")
      ∷ clear_active
      ∷ release
      ∷ restore_network
      ∷ []
unfolding run_prepare text_eq selectors select_single
good_events = refl

run_prepare-IsReported_example : IsReported clevis_input.root (run_prepare clevis_input good_host)
run_prepare-IsReported_example = run_prepare-IsReported clevis_input good_host

run_prepare-IsSession_example : IsSession (run_prepare clevis_input good_host).events
run_prepare-IsSession_example = run_prepare-IsSession clevis_input good_host

image_twelve : image_number (codes "disk12.img") ≡ some 12
unfolding image_number
image_twelve = refl

-- Volumes of one name in two groups get the same mapper.
same_mapper : sanitize_mapper (codes "/dev/vg0/root") ≡ sanitize_mapper (codes "/dev/vg1/root")
unfolding sanitize_mapper
same_mapper = refl

image_number-image_file_name_example : image_number (image_file_name 12) ≡ some 12
image_number-image_file_name_example = image_number-image_file_name 12 (omega arith)
