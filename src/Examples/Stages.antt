-- ===== src/Examples/Stages.antt =====
-- Runs of kc-finalize and kc-v2v.
use kc_utils.Base.{◌≡◌, ◌+◌, refl, Bool, true, false, List, [], ◌∷◌, none, some, length}
use kc_utils.Text.{Text, codes}
use kc_utils.Sort.{Ascending}
use kc_utils.Disks.{PartitionInfo, DiskInfo}
use kc_utils.Finalize
use kc_utils.Finalize.{Converted, TargetMeta, customizer_opts, buses, nics}
use kc_utils.Finalize.Paths.{mounted_guest_paths}
use kc_utils.Finalize.Pipeline.{
  run_finalize, final_meta, use_guest, attached, teardown_only, teardown_mount_root,
}
use kc_utils.Finalize.Pipeline
use kc_utils.Finalize.Order.{place, is_release, is_teardown, number, run_finalize-IsOrdered}
use kc_utils.Finalize.Warned.{one_if, failures, disk_failures, run_finalize-warnings}
use kc_utils.Overlay.{QemuImg}
use kc_utils.V2v
use kc_utils.V2v.{
  PrepareInput, PipelineData, Config, start_listener, close_listener, cleanup, Event,
}
use kc_utils.V2v.Stages.{setup_shared_listener, run_pipeline_once_body}
use kc_utils.V2v.Listener.{is_start, is_close, run_pipeline_once_body-AllClosed}
use kc_utils.V2v.Listener
use kc_utils.V2v.Cleanup.{IsCleaned, run_pipeline_once_body-IsCleaned}
use kc_utils.V2v.Images.{Sources, run_pipeline_once, run_pipeline, run_pipeline-commits_nothing}

abbrev boot_part : PartitionInfo
boot_part = record {
  index = 1;
  size_bytes = 1;
  fs_type = codes "ext4";
  mount_point = codes "/boot";
  device_path = codes "/dev/sda1";
}

abbrev boot_disk : DiskInfo
boot_disk = record {
  path = codes "/disk0";
  size_bytes = 2;
  format = codes "raw";
  partitions = boot_part ∷ [];
}

abbrev prepared_guest : Finalize.Prepared
prepared_guest = record {
  disks = boot_disk ∷ [];
  root_device = codes "/dev/sda1";
  os_type = codes "linux";
  firmware = [];
  source_nics = [];
  hostname = codes "h";
  timezone = [];
  dynamic_scripts_dir = [];
}

abbrev converted_guest : Converted
converted_guest = record {
  block_bus = codes "virtio";
  net_bus = codes "virtio";
  warnings = [];
  errors = record { block = codes "initramfs"; message = codes "no" } ∷ [];
  selinux_relabeled = false;
}

-- The customizer fails, and so does the check of the partition.
abbrev failing_host : Pipeline.Host
failing_host = record {
  attach_ok = true;
  customizers = codes "hostname" ∷ [];
  apply_error = λ name opts. some (codes "bad");
  sync_error = none;
  check_error = λ p. some (codes "dirty");
  write_ok = true;
}

run_finalize-IsOrdered_example :
    Ascending place (run_finalize failing_host prepared_guest converted_guest (codes "/mnt")).calls
    × (number is_release
          (run_finalize failing_host prepared_guest converted_guest (codes "/mnt")).calls
        ≡ 1)
    × (number is_teardown
          (run_finalize failing_host prepared_guest converted_guest (codes "/mnt")).calls
        ≡ 0)
run_finalize-IsOrdered_example =
    run_finalize-IsOrdered failing_host prepared_guest converted_guest (codes "/mnt") refl

abbrev failing_meta : TargetMeta
failing_meta =
    final_meta prepared_guest converted_guest
      (use_guest failing_host prepared_guest converted_guest (codes "/mnt") attached)

failing_meta_written :
    (run_finalize failing_host prepared_guest converted_guest (codes "/mnt")).meta
    ≡ some failing_meta
unfolding run_finalize
failing_meta_written = refl

run_finalize-warnings_example :
    length failing_meta.warnings
    ≡ failures
        (λ name. failing_host.apply_error name (customizer_opts prepared_guest converted_guest))
        failing_host.customizers
      + one_if failing_host.sync_error
      + disk_failures failing_host.check_error prepared_guest.disks
      + length converted_guest.warnings
      + length converted_guest.errors
run_finalize-warnings_example =
    run_finalize-warnings failing_host prepared_guest converted_guest (codes "/mnt") failing_meta
      failing_meta_written

two_paths :
    mounted_guest_paths (codes "/mnt") (boot_disk ∷ boot_disk ∷ [])
    ≡ codes "/mnt" ∷ codes "/mnt/boot" ∷ []
unfolding mounted_guest_paths
two_paths = refl

nothing_prepared : teardown_only true true true none ≡ (true, teardown_mount_root ∷ [])
unfolding teardown_only
nothing_prepared = refl

abbrev v2v_config : Config
v2v_config = record {
  root_disk = [];
  nbde_clevis = true;
  offline = false;
  overlay_enabled = true;
  workdir = codes "/work";
}

abbrev linux_data : PipelineData
linux_data = record {
  prepared = some (record {
    status = codes "ok";
    has_candidates = false;
    converter = [];
    os_type = codes "linux";
  });
  warnings = [];
}

-- The listener dies in prepare, and the conversion fails.
abbrev bad_conversion : V2v.Stage → Bool
bad_conversion V2v.conversion = false
bad_conversion _ = true

abbrev dying_host : V2v.Host
dying_host = record {
  supports_listener = true;
  setenv_ok = true;
  start_ok = λ s. true;
  listener_env = λ n. codes "SOCK=1" ∷ [];
  alive = λ s. false;
  stage_ok = bad_conversion;
  write_ok = true;
  read_prepare = some linux_data;
  read_retry = none;
  read_final = some linux_data;
  pipeline_exists = true;
}

abbrev one_input : PrepareInput
one_input = record { disks = codes "/disk0" ∷ []; root = [] }

dying_events :
    (run_pipeline_once_body v2v_config dying_host one_input).1.events
    ≡ start_listener 0
      ∷ V2v.run_stage V2v.prepare
          (codes "kc-prepare")
          false
          (codes "SOCK=1" ∷ codes "KC_GUESTFS_NETWORK=1" ∷ [])
      ∷ start_listener 1
      ∷ close_listener 0
      ∷ V2v.run_stage V2v.conversion
          (codes "kc-convert-linux")
          false
          (codes "SOCK=1" ∷ codes "KC_GUESTFS_NETWORK=1" ∷ [])
      ∷ cleanup true (codes "SOCK=1" ∷ codes "KC_GUESTFS_NETWORK=1" ∷ [])
      ∷ close_listener 1
      ∷ []
unfolding run_pipeline_once_body
dying_events = refl

run_pipeline_once_body-AllClosed_example :
    Listener.number (is_start 1) (run_pipeline_once_body v2v_config dying_host one_input).1.events
    ≡ Listener.number (is_close 1) (run_pipeline_once_body v2v_config dying_host one_input).1.events
run_pipeline_once_body-AllClosed_example =
    run_pipeline_once_body-AllClosed v2v_config dying_host one_input 1

listening_first : (setup_shared_listener v2v_config dying_host).0 ≡ true
unfolding setup_shared_listener
listening_first = refl

run_pipeline_once_body-IsCleaned_example :
    IsCleaned v2v_config dying_host (run_pipeline_once_body v2v_config dying_host one_input)
run_pipeline_once_body-IsCleaned_example =
    run_pipeline_once_body-IsCleaned v2v_config dying_host one_input listening_first

abbrev given_input : Sources
given_input = record {
  build_input = λ ps. some (record { disks = ps; root = [] });
  write_input_ok = true;
}

abbrev calm_qemu : QemuImg
calm_qemu = record {
  create_fails = λ i. false;
  create_leaves = λ i. true;
  commit_fails = λ p. false;
}

never_converted : (ps : List Text) → run_pipeline_once v2v_config dying_host given_input ps ≡ none
unfolding run_pipeline_once
never_converted ps = refl

run_pipeline-commits_nothing_example :
    ((run_pipeline v2v_config dying_host given_input calm_qemu [] (codes "/disk0" ∷ [])).0 ≡ none)
    × ((run_pipeline v2v_config dying_host given_input calm_qemu [] (codes "/disk0" ∷ [])).1.commits
        ≡ [])
run_pipeline-commits_nothing_example =
    run_pipeline-commits_nothing v2v_config dying_host given_input calm_qemu []
      (codes "/disk0" ∷ []) refl never_converted
