-- ===== src/Finalize/Pipeline.antt =====
-- `Run` and `TeardownOnly` of pkg/cmd/finalize/pipeline.go, as the calls that they make in their order.
--
-- `Host` has what the calls answer: an error text, or none. Where the code only logs a failure (trim,
-- unmount, release, teardown) the answer makes no difference, and is left out.
use kc_utils.Base.{Bool, true, false, List, [], ◌∷◌, ◌++◌, Option, none, some, if◌then◌else◌}
use kc_utils.Text.{Text, codes}
use kc_utils.Disks.{PartitionInfo, DiskInfo, no_disks, with_root_mount}
use kc_utils.Finalize.{
  target_firmware, buses, nics, Converted, Prepared, TargetMeta, customizer_opts, merge_warnings,
}
use kc_utils.Finalize.Paths.{mounted_guest_paths}

pub record Host : Type 0 where
  pub attach_ok : Bool
  pub customizers : List Text
  pub apply_error : Text → List (Text × Text) → Option Text
  pub sync_error : Option Text
  pub check_error : PartitionInfo → Option Text
  pub write_ok : Bool

pub data Call : Type 0 where
  attach sync unmount release write_meta teardown clear_active : Call
  customize fs_trim : Text → Call
  fs_check : PartitionInfo → Call

-- `torn_down` and the warnings of `meta`, with the calls so far.
pub record State : Type 0 where
  pub calls : List Call
  pub warnings : List Text
  pub torn_down : Bool

unfoldable pub do_call : Call → State → State
do_call c s = record s { calls = s.calls ++ c ∷ [] }

abbrev pub warn : Text → Option Text → State → State
warn prefix none s = s
warn prefix (some e) s = record s { warnings = s.warnings ++ (prefix ++ e) ∷ [] }

unfoldable pub trim_paths : List Text → State → State
unfolding do_call
trim_paths [] s = s
trim_paths (p ∷ ps) s = trim_paths ps (do_call (fs_trim p) s)

unfoldable pub release_guest : State → State
unfolding do_call
release_guest s = record (do_call release s) { torn_down = true }

-- The deferred calls, the last one first.
unfoldable pub deferred : State → State
unfolding do_call
deferred s = do_call clear_active (if s.torn_down then s else do_call teardown s)

module _ (host : Host) where
  unfoldable pub run_customizer : List (Text × Text) → Text → State → State
  unfolding do_call
  run_customizer opts name s =
      warn (codes "customization " ++ (name ++ codes " failed: ")) (host.apply_error name opts)
        (do_call (customize name) s)

  unfoldable pub run_customizers : List (Text × Text) → List Text → State → State
  unfolding run_customizer
  run_customizers opts [] s = s
  run_customizers opts (name ∷ names) s = run_customizers opts names (run_customizer opts name s)

  unfoldable pub sync_guest : State → State
  unfolding do_call
  sync_guest s = warn (codes "guest sync failed: ") host.sync_error (do_call sync s)

  unfoldable pub check_part : PartitionInfo → State → State
  unfolding do_call
  check_part p s =
      warn (codes "filesystem check failed on " ++ (p.device_path ++ codes ": "))
        (host.check_error p) (do_call (fs_check p) s)

  unfoldable pub check_parts : List PartitionInfo → State → State
  unfolding check_part
  check_parts [] s = s
  check_parts (p ∷ ps) s = check_parts ps (check_part p s)

  unfoldable pub check_disks : List DiskInfo → State → State
  unfolding check_parts
  check_disks [] s = s
  check_disks (d ∷ ds) s = check_disks ds (check_parts d.partitions s)

  -- The customizers, sync, trim, unmount, check and release.
  unfoldable pub use_guest : Prepared → Converted → Text → State → State
  unfolding run_customizers sync_guest trim_paths check_disks release_guest do_call
  use_guest p c mount_root s =
      let customized = run_customizers (customizer_opts p c) host.customizers s in
      let trimmed = trim_paths (mounted_guest_paths mount_root p.disks) (sync_guest customized) in
      release_guest (check_disks p.disks (do_call unmount trimmed))

-- `meta`, when it is written.
unfoldable pub final_meta : Prepared → Converted → State → TargetMeta
unfolding target_firmware buses nics merge_warnings
final_meta p c s = record {
  target_buses = buses p.disks c.block_bus;
  target_nics = nics p.source_nics c.net_bus;
  target_firmware = target_firmware p.firmware;
  disks = p.disks;
  warnings = merge_warnings c s.warnings;
}

pub record Finalized : Type 0 where
  pub ok : Bool
  pub calls : List Call
  pub meta : Option TargetMeta

abbrev pub attached : State
attached = record { calls = attach ∷ []; warnings = []; torn_down = false }

-- `Run`
unfoldable pub run_finalize : Host → Prepared → Converted → Text → Finalized
unfolding use_guest deferred final_meta do_call
run_finalize host p c mount_root =
    let s = use_guest host p c mount_root attached in
    if host.attach_ok
    then record {
      ok = host.write_ok;
      calls = (deferred (do_call write_meta s)).calls;
      meta = some (final_meta p c s);
    }
    else record { ok = false; calls = attach ∷ []; meta = none }

pub data Reclaim : Type 0 where
  attach_mounted : List DiskInfo → Reclaim
  teardown_discard teardown_mount_root : Reclaim

-- `TeardownOnly`, for the output of prepare, if there is one; the answers are whether the attachment,
-- the discarding teardown and the clean-up of the mount root succeed.
unfoldable pub teardown_only : Bool → Bool → Bool → Option Prepared → Bool × List Reclaim
unfolding with_root_mount
teardown_only attach_ok discard_ok root_ok none = (root_ok, teardown_mount_root ∷ [])
teardown_only attach_ok discard_ok root_ok (some p) =
    let mounted = attach_mounted (with_root_mount p.disks p.root_device) in
    if no_disks p.disks
    then (root_ok, teardown_mount_root ∷ [])
    else if attach_ok
    then (discard_ok, mounted ∷ teardown_discard ∷ [])
    else (root_ok, mounted ∷ teardown_mount_root ∷ [])
