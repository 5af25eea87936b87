-- ===== src/V2v/Images.antt =====
-- `runPipelineOnce` and `runPipeline`: the stages over the overlays of the disks, and what becomes of
-- the images.
use kc_utils.Base.{
  ℕ, ◌+◌, ◌≡◌, ◌≢◌, All, refl, ap, Bool, true, false, List, [], ◌∷◌, Option, none, some,
  if◌then◌else◌, get_or,
}
use kc_utils.Text.{Text}
use kc_utils.Overlay.{Disk, World, QemuImg, create_overlays, run_with_overlay}
use kc_utils.Overlay.Commit.{
  image_of, image_commits, run_with_overlay-commits_nothing, run_with_overlay-commits,
}
use kc_utils.V2v.{PipelineData, PrepareInput, Config, Host}
use kc_utils.V2v.Stages.{run_pipeline_once_body}

-- What the calls before the stages answer: `FetchSourceMeta` with `BuildPrepareInput`, which puts the
-- paths into the input, and the write of it.
pub record Sources : Type 0 where
  pub build_input : List Text → Option PrepareInput
  pub write_input_ok : Bool

abbrev pub from_input : Config → Host → Bool → Option PrepareInput → Option PipelineData
from_input cfg host written none = none
from_input cfg host written (some input) =
    let result = (run_pipeline_once_body cfg host input).0 in if written then result else none

-- `runPipelineOnce`
unfoldable pub run_pipeline_once : Config → Host → Sources → List Text → Option PipelineData
unfolding run_pipeline_once_body
run_pipeline_once cfg host sources disks =
    from_input cfg host sources.write_input_ok (sources.build_input disks)

-- `env.ToOverlayDisks`: a disk for each path, behind the pointers from 0 on.
unfoldable pub to_overlay_disks : List Text → ℕ → Disk
to_overlay_disks paths i = record {
  backing_path = get_or paths i [];
  path = get_or paths i [];
  overlay_path = [];
}

unfoldable pub pointers_from : ℕ → List Text → List ℕ
pointers_from i [] = []
pointers_from i (p ∷ ps) = i ∷ pointers_from (i + 1) ps

-- `env.ActiveDiskPaths`
unfoldable pub active_disk_paths : World → List ℕ → List Text
active_disk_paths w [] = []
active_disk_paths w (p ∷ ps) = (w.disks p).path ∷ active_disk_paths w ps

abbrev pub is_some : Option PipelineData → Bool
is_some none = false
is_some (some pl) = true

abbrev pub disks_of : List Text → List Text → World
disks_of files paths = record { disks = to_overlay_disks paths; files = files; commits = [] }

abbrev pub kept_result : Bool → Option PipelineData → Option PipelineData
kept_result true result = result
kept_result false result = none

module _ (cfg : Config) (host : Host) (sources : Sources) (qemu : QemuImg) where
  abbrev pub once_on : List ℕ → World → Option PipelineData
  once_on pointers w = run_pipeline_once cfg host sources (active_disk_paths w pointers)

  -- The function that `runPipeline` gives to `RunWithOverlay`; the result is kept beside it.
  unfoldable pub on_overlays : List ℕ → World → Bool × World
  unfolding run_pipeline_once active_disk_paths
  on_overlays pointers w = (is_some (once_on pointers w), w)

  -- `runPipeline` with overlays, for the files of the work directory at the start.
  unfoldable pub run_over : List Text → List Text → Option PipelineData × World
  unfolding on_overlays run_with_overlay to_overlay_disks pointers_from create_overlays
      run_pipeline_once active_disk_paths
  run_over files paths =
      let pointers = pointers_from 0 paths in
      let w = disks_of files paths in
      let ran = run_with_overlay qemu cfg.workdir pointers (on_overlays pointers) w in
      (kept_result ran.0 (once_on pointers (create_overlays qemu cfg.workdir pointers w).1), ran.1)

  -- `runPipeline`
  unfoldable pub run_pipeline : List Text → List Text → Option PipelineData × World
  unfolding run_over run_pipeline_once to_overlay_disks
  run_pipeline files paths =
      if cfg.overlay_enabled
      then run_over files paths
      else (run_pipeline_once cfg host sources paths, disks_of files paths)

kept_result-some :
    (b : Bool) (r : Option PipelineData) (pl : PipelineData) → kept_result b r ≡ some pl → b ≡ true
kept_result-some true r pl e = refl
kept_result-some false r pl e = absurd cc

-- With overlays, a conversion that has a result has committed the overlay of each disk into its image, in
-- their order, if the paths of the disks are not empty.
pub run_pipeline-commits :
    (cfg : Config) (host : Host) (sources : Sources) (qemu : QemuImg) (files paths : List Text)
    (pl : PipelineData)
    → cfg.overlay_enabled ≡ true
    → All (λ p. image_of (to_overlay_disks paths p) ≢ []) (pointers_from 0 paths)
    → (run_pipeline cfg host sources qemu files paths).0 ≡ some pl
    → (run_pipeline cfg host sources qemu files paths).1.commits
      ≡ image_commits cfg.workdir
          (λ p. image_of (to_overlay_disks paths p))
          0
          (pointers_from 0 paths)
unfolding run_pipeline run_over on_overlays
run_pipeline-commits cfg host sources qemu files paths pl over named = rw over λ e.
    let pointers = pointers_from 0 paths in
    run_with_overlay-commits qemu cfg.workdir pointers (on_overlays cfg host sources qemu pointers)
      (disks_of files paths) (λ v. refl) named (kept_result-some _ _ pl e)

-- With overlays, a conversion whose stages fail on all paths has no result, and commits nothing to the
-- images.
pub run_pipeline-commits_nothing :
    (cfg : Config) (host : Host) (sources : Sources) (qemu : QemuImg) (files paths : List Text)
    → cfg.overlay_enabled ≡ true
    → ((ps : List Text) → run_pipeline_once cfg host sources ps ≡ none)
    → ((run_pipeline cfg host sources qemu files paths).0 ≡ none)
      × ((run_pipeline cfg host sources qemu files paths).1.commits ≡ [])
unfolding run_pipeline run_over on_overlays
run_pipeline-commits_nothing cfg host sources qemu files paths over fails = rw over (
    let pointers = pointers_from 0 paths in
    let done =
      run_with_overlay-commits_nothing qemu cfg.workdir pointers
        (on_overlays cfg host sources qemu pointers) (disks_of files paths) (λ v. refl)
        (λ v. ap is_some (fails (active_disk_paths v pointers))) in
    (rw done.0 refl, done.1))
