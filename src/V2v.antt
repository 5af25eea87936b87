-- ===== src/V2v.antt =====
-- pkg/cmd/v2v/pipeline.go: the stages of a conversion, the listener that they share, and the clean-up.
--
-- `Host` has what the calls outside answer, by the stage: each stage runs at most once. The events are
-- what the pipeline does outside, in their order. An error is `none` or `false`.
pub mod Stages
pub mod Frame
pub mod Listener
pub mod Cleanup
pub mod Images
use kc_utils.Base.{
  ℕ, zero, suc, ◌+◌, Bool, true, false, not, ◌&&◌, ◌||◌, List, [], ◌∷◌, ◌++◌, Option, none, some,
  if◌then◌else◌,
}
use kc_utils.Text.{Text, codes, text_eq, is_empty, has_prefix}

pub data Stage : Type 0 where
  prepare prepare_retry conversion finalize : Stage

-- Of `PrepareOutput`, the fields that the pipeline reads.
pub record Prepared : Type 0 where
  pub status : Text
  pub has_candidates : Bool
  pub converter : Text
  pub os_type : Text

-- `pipelineResult`: the output of prepare, if there is one, and the warnings of the target.
pub record PipelineData : Type 0 where
  pub prepared : Option Prepared
  pub warnings : List Text

-- Of `PrepareInput`: the disks' paths, and the selector of the root.
pub record PrepareInput : Type 0 where
  pub disks : List Text
  pub root : Text

pub record Config : Type 0 where
  pub root_disk : Text
  pub nbde_clevis : Bool
  pub offline : Bool
  pub overlay_enabled : Bool
  pub workdir : Text

-- What a start of the listener is for: the run, or a stage after which it was found dead.
pub data Start : Type 0 where
  at_first : Start
  after : Stage → Start

-- `read_retry` is the output of prepare in the file that the retry leaves, which kc-prepare writes.
pub record Host : Type 0 where
  pub supports_listener : Bool
  pub setenv_ok : Bool
  pub start_ok : Start → Bool
  pub listener_env : ℕ → List Text
  pub alive : Stage → Bool
  pub stage_ok : Stage → Bool
  pub write_ok : Bool
  pub read_prepare : Option PipelineData
  pub read_retry : Option PipelineData
  pub read_final : Option PipelineData
  pub pipeline_exists : Bool

-- A listener has a number. The environment of a subprocess and what it is told go with its event.
pub data Event : Type 0 where
  start_listener close_listener : ℕ → Event
  write_input : PrepareInput → Event
  run_stage : Stage → Text → Bool → List Text → Event
  cleanup : Bool → List Text → Event

pub record State : Type 0 where
  pub events : List Event
  pub listener : Option ℕ
  pub stage_env : List Text

unfoldable pub emit : Event → State → State
emit e s = record s { events = s.events ++ e ∷ [] }

abbrev pub network : Text
network = codes "KC_GUESTFS_NETWORK"

abbrev pub network_on : List Text
network_on = (network ++ codes "=1") ∷ []

unfoldable pub keeps_network : List Text → Bool
unfolding has_prefix
keeps_network [] = false
keeps_network (e ∷ es) = has_prefix e (network ++ codes "=") || keeps_network es
