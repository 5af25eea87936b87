-- ===== src/Prepare/Pipeline.antt =====
-- `Run` of pkg/cmd/prepare/pipeline.go: from the disks to the mounted guest.
--
-- `Host` has what the calls outside answer. The registry has both planners of `Mount` and the selector of
-- the converter, as the program registers them. Free space, boot device and the registry's metadata only
-- fill fields of the output, and are left out.
use kc_utils.Base.{
  Bool, true, false, not, ◌&&◌, List, [], ◌∷◌, ◌++◌, map, Option, none, some, if◌then◌else◌,
}
use kc_utils.Text.{Text, codes, text_eq, is_empty}
use kc_utils.Disks.{PartitionInfo, DiskInfo}
use kc_utils.ConfigEdit.Fstab.{Entry}
use kc_utils.Mount.{
  MountSpec, Probe, PlanContext, plan_linux, plan_windows, expand_linux, Mounts, apply,
}
use kc_utils.Root.{
  RootCandidate, Selection, selected, no_candidates, multi_boot, not_found, invalid_choice,
  not_registered, selectors, select, Scan, discover,
}
use kc_utils.Prepare.{DiskSpec, DirEntry, resolve_input_disks, detect_firmware}
use kc_utils.Prepare.Unlock.{Volumes, Luks, Layout, unlock_guest_volumes}

pub record PrepareInput : Type 0 where
  pub disks : List DiskSpec
  pub disk_dir : Text
  pub root : Text
  pub luks : Option Luks
  pub bitlocker_keys : List (Text × Text)
  pub mount_root : Text
  pub is_guestfs : Bool

-- What the read of /etc/fstab answers.
pub data FstabRead : Type 0 where
  missing failed : FstabRead
  entries : List Entry → FstabRead

pub record Host : Type 0 where
  pub read_dir : Text → Option (List DirEntry)
  pub mkdir_ok : Bool
  pub setenv_ok : Bool
  pub open_ok : Bool
  pub volumes : Volumes
  pub scan : Scan
  pub probe : Probe
  pub mount_fails : MountSpec → Bool
  pub read_fstab : FstabRead
  pub inspected : Option Text
  pub write_ok : Bool

pub record PrepareOutput : Type 0 where
  pub status : Text
  pub root_device : Text
  pub root_candidates : List RootCandidate
  pub disks : List DiskInfo
  pub firmware : Text × List Text
  pub os_type : Text
  pub converter : Text

pub data Event : Type 0 where
  set_network restore_network open_guest clear_active release : Event
  fs_check : PartitionInfo → Event
  mount : MountSpec → Event
  write_output : Text → Event

pub record Outcome : Type 0 where
  pub ok : Bool
  pub events : List Event
  pub written : Option PrepareOutput

abbrev pub failed_with : List Event → Outcome
failed_with events = record { ok = false; events = events; written = none }

abbrev pub check_events : List PartitionInfo → List Event
check_events [] = []
check_events (p ∷ ps) = fs_check p ∷ check_events ps

unfoldable pub check_all : List DiskInfo → List Event
check_all [] = []
check_all (d ∷ ds) = check_events d.partitions ++ check_all ds

abbrev pub mount_events : List MountSpec → List Event
mount_events = map mount

pub data Planner : Type 0 where
  linux windows : Planner

-- The planner that matches.
abbrev pub planner_of : Text → Option Planner
planner_of os_type =
    if text_eq os_type (codes "linux")
    then some linux
    else if text_eq os_type (codes "windows")
    then some windows
    else none

-- `Select` of the converter; an error is `none`.
abbrev pub converter_of : Text → Option Text
converter_of os_type =
    if text_eq os_type (codes "linux")
    then some (codes "kc-convert-linux")
    else if text_eq os_type (codes "windows")
    then some (codes "kc-convert-windows")
    else none

abbrev pub expand_read : Probe → PlanContext → FstabRead → Option (List MountSpec)
expand_read probe ctx missing = some []
expand_read probe ctx failed = none
expand_read probe ctx (entries file) = some (expand_linux probe ctx file)

abbrev pub plan_with : Planner → Probe → PlanContext → Option (List MountSpec)
plan_with linux probe ctx = plan_linux probe ctx
plan_with windows probe ctx = plan_windows probe ctx

abbrev pub expand_with : Planner → Host → PlanContext → Option (List MountSpec)
expand_with linux host ctx = expand_read host.probe ctx host.read_fstab
expand_with windows host ctx = some []

abbrev pub or_type : Option Text → Text → Text
or_type none os_type = os_type
or_type (some t) os_type = t

module _ (input : PrepareInput) (host : Host) where
  abbrev pub write_complete : PrepareOutput → List Event → Outcome
  write_complete out events = record {
    ok = host.write_ok;
    events = events ++ write_output out.status ∷ [];
    written = if host.write_ok then some out else none;
  }

  abbrev pub with_converter : Option Text → (Text → PrepareOutput) → List Event → Outcome
  with_converter none out events = failed_with events
  with_converter (some c) out events = write_complete (out c) events

  -- From the mounted guest to the output.
  unfoldable pub complete :
      List RootCandidate → RootCandidate → List DiskInfo → List Event → Outcome
  unfolding detect_firmware text_eq
  complete cs c disks events =
      let os_type = or_type host.inspected c.os_type in
      with_converter (converter_of os_type)
        (λ conv. record {
          status = codes "complete";
          root_device = c.device_path;
          root_candidates = cs;
          disks = disks;
          firmware = detect_firmware disks;
          os_type = os_type;
          converter = conv;
        })
        events

  abbrev pub after_extra : List RootCandidate → RootCandidate → List Event → Bool × Mounts → Outcome
  after_extra cs c events (false, m) = failed_with (events ++ mount_events m.mounted)
  after_extra cs c events (true, m) = complete cs c m.disks (events ++ mount_events m.mounted)

  abbrev pub after_expand :
      List RootCandidate
      → RootCandidate
      → List Event
      → List DiskInfo
      → Option (List MountSpec)
      → Outcome
  after_expand cs c events disks none = failed_with events
  after_expand cs c events disks (some []) = complete cs c disks events
  after_expand cs c events disks (some (s ∷ specs)) =
      after_extra cs c events (apply host.mount_fails (s ∷ specs) disks)

  abbrev pub after_initial :
      List RootCandidate
      → RootCandidate
      → Planner
      → PlanContext
      → List Event
      → Bool × Mounts
      → Outcome
  after_initial cs c planner ctx events (false, m) = failed_with (events ++ mount_events m.mounted)
  after_initial cs c planner ctx events (true, m) =
      after_expand cs c (events ++ mount_events m.mounted) m.disks (expand_with planner host ctx)

  abbrev pub after_plan :
      List RootCandidate
      → RootCandidate
      → Planner
      → PlanContext
      → List Event
      → Option (List MountSpec)
      → Outcome
  after_plan cs c planner ctx events none = failed_with events
  after_plan cs c planner ctx events (some specs) =
      after_initial cs c planner ctx events (apply host.mount_fails specs ctx.disks)

  abbrev pub after_planner :
      List RootCandidate → RootCandidate → PlanContext → List Event → Option Planner → Outcome
  after_planner cs c ctx events none = failed_with events
  after_planner cs c ctx events (some planner) =
      after_plan cs c planner ctx events (plan_with planner host.probe ctx)

  abbrev pub plan_context : RootCandidate → Layout → PlanContext
  plan_context c l = record {
    root_device = c.device_path;
    root_fs_type = c.fs_type;
    root_disk = c.disk_index;
    esp_devices = (detect_firmware l.disks).1;
    disks = l.disks;
    all_devices = l.all_part_devices ++ ((l.lv_paths ++ l.ldm_paths) ++ l.unlocked);
  }

  -- `planAndMount`, and what follows it.
  unfoldable pub plan_and_mount : List RootCandidate → RootCandidate → Layout → List Event → Outcome
  unfolding complete apply plan_linux plan_windows expand_linux detect_firmware text_eq
  plan_and_mount cs c l events = after_planner cs c (plan_context c l) events (planner_of c.os_type)

  abbrev pub multi_boot_output : List RootCandidate → Layout → PrepareOutput
  multi_boot_output mb l = record {
    status = codes "error";
    root_device = [];
    root_candidates = mb;
    disks = l.disks;
    firmware = detect_firmware l.disks;
    os_type = [];
    converter = [];
  }

  -- `writeMultibootError`, whose failure is passed over.
  abbrev pub write_multiboot_error : List RootCandidate → Layout → List Event → Outcome
  write_multiboot_error mb l events = record {
    ok = false;
    events = events ++ write_output (codes "error") ∷ [];
    written = if host.write_ok then some (multi_boot_output mb l) else none;
  }

  unfoldable pub after_select : List RootCandidate → Layout → List Event → Selection → Outcome
  unfolding plan_and_mount
  after_select cs l events (selected c) = plan_and_mount cs c l events
  after_select cs l events (multi_boot mb) = write_multiboot_error mb l events
  after_select cs l events no_candidates = failed_with events
  after_select cs l events (not_found device) = failed_with events
  after_select cs l events (invalid_choice choice) = failed_with events
  after_select cs l events (not_registered name) = failed_with events

  abbrev pub after_discover : Layout → List Event → Option (List RootCandidate) → Outcome
  after_discover l events none = failed_with events
  after_discover l events (some cs) = after_select cs l events (select selectors cs input.root)

  unfoldable pub guest_layout : Layout
  unfolding unlock_guest_volumes
  guest_layout =
      unlock_guest_volumes host.volumes input.luks input.bitlocker_keys (host.volumes.disk_infos 0)

  -- The volumes besides the partitions.
  abbrev pub volume_paths : Layout → List Text
  volume_paths l = (l.lv_paths ++ l.ldm_paths) ++ l.unlocked

  -- From the open guest on.
  unfoldable pub prepare_guest : Outcome
  unfolding guest_layout check_all discover select after_select
  prepare_guest =
      after_discover guest_layout (check_all guest_layout.disks)
        (discover host.scan guest_layout.disks (volume_paths guest_layout))

  -- The deferred calls behind what was done.
  abbrev pub between : List Event → Outcome → List Event → Outcome
  between before o behind = record o { events = before ++ (o.events ++ behind) }

  unfoldable pub open_run : Outcome
  unfolding prepare_guest
  open_run =
      if host.open_ok
      then between (open_guest ∷ []) prepare_guest (clear_active ∷ release ∷ [])
      else failed_with (open_guest ∷ [])

  abbrev pub has_clevis : Option Luks → Bool
  has_clevis none = false
  has_clevis (some luks) = luks.clevis

  -- The network of the appliance, for Clevis.
  unfoldable pub with_network : Outcome
  unfolding open_run
  with_network =
      if not (input.is_guestfs && has_clevis input.luks)
      then open_run
      else if host.setenv_ok
      then between (set_network ∷ []) open_run (restore_network ∷ [])
      else failed_with []

  -- `validate.Input`, and the run behind it.
  abbrev pub after_resolve : Option (List DiskSpec) → Outcome
  after_resolve none = failed_with []
  after_resolve (some []) = failed_with []
  after_resolve (some (d ∷ ds)) =
      if is_empty input.mount_root
      then failed_with []
      else if host.mkdir_ok
      then with_network
      else failed_with []

  -- `Run`
  unfoldable pub run_prepare : Outcome
  unfolding with_network resolve_input_disks
  run_prepare = after_resolve (resolve_input_disks host.read_dir input.disk_dir input.disks)
