-- ===== src/Prepare/Written.antt =====
-- The output of kc-prepare, against the way in which the run ends.
use kc_utils.Base.{
  ◌≡◌, refl, Bool, true, false, not, ◌&&◌, List, [], ◌∷◌, ◌++◌, Option, none, some, if◌then◌else◌,
  if-holds,
}
use kc_utils.Text.{Text, codes, is_empty, trim_space}
use kc_utils.Disks.{DiskInfo}
use kc_utils.Mount.{MountSpec, PlanContext, Mounts, apply}
use kc_utils.Root.{
  RootCandidate, Selection, selected, no_candidates, multi_boot, not_found, invalid_choice,
  not_registered, or_first, selectors, select,
}
use kc_utils.Root.Selected.{IsChosen, select-IsChosen}
use kc_utils.Prepare.{DiskSpec, resolve_input_disks}
use kc_utils.Prepare.Unlock.{Layout}
use kc_utils.Prepare.Pipeline.{
  PrepareInput, Host, PrepareOutput, Event, Outcome, mount_events, Planner, planner_of, plan_with,
  expand_with, converter_of, or_type, with_converter, complete, after_extra, after_expand,
  after_initial, after_plan, after_planner, plan_context, plan_and_mount, multi_boot_output,
  after_select, after_discover, guest_layout, prepare_guest, open_run, has_clevis, with_network,
  after_resolve, run_prepare,
}

-- The output of a run that is complete: the root is what the choice stands for among the candidates, and
-- the converter is that of the operating system.
abbrev pub IsComplete : Text → PrepareOutput → Type 0
IsComplete root out =
    (out.status ≡ codes "complete")
    × ((c : RootCandidate) × IsChosen (or_first (trim_space root)) c out.root_candidates
        × (out.root_device ≡ c.device_path))
    × (converter_of out.os_type ≡ some out.converter)

-- A run that succeeds has written such an output, and one that fails has written none or that of an error.
abbrev pub Reports : Text → Bool → Option PrepareOutput → Type 0
Reports root true none = true ≡ false
Reports root true (some out) = IsComplete root out
Reports root false none = Unit
Reports root false (some out) = out.status ≡ codes "error"

abbrev pub IsReported : Text → Outcome → Type 0
IsReported root o = Reports root o.ok o.written

Reports-written :
    (root : Text) (b : Bool) (out : PrepareOutput)
    → IsComplete root out
    → Reports root b (if b then some out else none)
Reports-written root true out h = h
Reports-written root false out h = tt

Reports-error :
    (root : Text) (b : Bool) (out : PrepareOutput)
    → out.status ≡ codes "error"
    → Reports root false (if b then some out else none)
Reports-error root true out h = h
Reports-error root false out h = tt

module _ (input : PrepareInput) (host : Host) where
  abbrev Ok : Outcome → Type 0
  Ok = IsReported input.root

  module _ (cs : List RootCandidate) (c : RootCandidate)
      (chosen : IsChosen (or_first (trim_space input.root)) c cs) where
    with_converter-IsReported :
        (o : Option Text) (os_type : Text) (out : Text → PrepareOutput) (events : List Event)
        → converter_of os_type ≡ o
        → ((conv : Text) → converter_of os_type ≡ some conv → IsComplete input.root (out conv))
        → Ok (with_converter input host o out events)
    with_converter-IsReported none os_type out events e h = tt
    with_converter-IsReported (some conv) os_type out events e h =
        Reports-written input.root host.write_ok (out conv) (h conv e)

    complete-IsReported :
        (disks : List DiskInfo) (events : List Event) → Ok (complete input host cs c disks events)
    unfolding complete
    complete-IsReported disks events =
        with_converter-IsReported _ (or_type host.inspected c.os_type) _ events refl
          (λ conv e. (refl, (c, chosen, refl), e))

    after_extra-IsReported :
        (events : List Event) (r : Bool × Mounts) → Ok (after_extra input host cs c events r)
    after_extra-IsReported events (false, m) = tt
    after_extra-IsReported events (true, m) =
        complete-IsReported m.disks (events ++ mount_events m.mounted)

    after_expand-IsReported :
        (events : List Event) (disks : List DiskInfo) (o : Option (List MountSpec))
        → Ok (after_expand input host cs c events disks o)
    after_expand-IsReported events disks none = tt
    after_expand-IsReported events disks (some []) = complete-IsReported disks events
    after_expand-IsReported events disks (some (s ∷ specs)) =
        after_extra-IsReported events (apply host.mount_fails (s ∷ specs) disks)

    after_initial-IsReported :
        (planner : Planner) (ctx : PlanContext) (events : List Event) (r : Bool × Mounts)
        → Ok (after_initial input host cs c planner ctx events r)
    after_initial-IsReported planner ctx events (false, m) = tt
    after_initial-IsReported planner ctx events (true, m) =
        after_expand-IsReported (events ++ mount_events m.mounted) m.disks
          (expand_with planner host ctx)

    after_plan-IsReported :
        (planner : Planner) (ctx : PlanContext) (events : List Event) (o : Option (List MountSpec))
        → Ok (after_plan input host cs c planner ctx events o)
    after_plan-IsReported planner ctx events none = tt
    after_plan-IsReported planner ctx events (some specs) =
        after_initial-IsReported planner ctx events (apply host.mount_fails specs ctx.disks)

    after_planner-IsReported :
        (ctx : PlanContext) (events : List Event) (o : Option Planner)
        → Ok (after_planner input host cs c ctx events o)
    after_planner-IsReported ctx events none = tt
    after_planner-IsReported ctx events (some planner) =
        after_plan-IsReported planner ctx events (plan_with planner host.probe ctx)

  after_select-IsReported :
      (cs : List RootCandidate) (l : Layout) (events : List Event) (s : Selection)
      → select selectors cs input.root ≡ s
      → Ok (after_select input host cs l events s)
  unfolding after_select plan_and_mount
  after_select-IsReported cs l events (selected c) e =
      after_planner-IsReported cs c (select-IsChosen cs input.root c e)
        (plan_context input host c l) events (planner_of c.os_type)
  after_select-IsReported cs l events (multi_boot mb) e =
      Reports-error input.root host.write_ok (multi_boot_output input host mb l) refl
  after_select-IsReported cs l events no_candidates e = tt
  after_select-IsReported cs l events (not_found device) e = tt
  after_select-IsReported cs l events (invalid_choice choice) e = tt
  after_select-IsReported cs l events (not_registered name) e = tt

  after_discover-IsReported :
      (l : Layout) (events : List Event) (o : Option (List RootCandidate))
      → Ok (after_discover input host l events o)
  after_discover-IsReported l events none = tt
  after_discover-IsReported l events (some cs) =
      after_select-IsReported cs l events (select selectors cs input.root) refl

  open_run-IsReported : Ok (open_run input host)
  unfolding open_run prepare_guest
  open_run-IsReported =
      if-holds Ok host.open_ok _ _ (λ e. after_discover-IsReported (guest_layout input host) _ _)
        (λ e. tt)

  with_network-IsReported : Ok (with_network input host)
  unfolding with_network
  with_network-IsReported =
      if-holds Ok (not (input.is_guestfs && has_clevis input host input.luks)) _ _
        (λ e. open_run-IsReported)
        (λ e. if-holds Ok host.setenv_ok _ _ (λ f. open_run-IsReported) (λ f. tt))

  after_resolve-IsReported : (o : Option (List DiskSpec)) → Ok (after_resolve input host o)
  after_resolve-IsReported none = tt
  after_resolve-IsReported (some []) = tt
  after_resolve-IsReported (some (d ∷ ds)) =
      if-holds Ok (is_empty input.mount_root) _ _ (λ e. tt)
        (λ e. if-holds Ok host.mkdir_ok _ _ (λ f. with_network-IsReported) (λ f. tt))

-- A run of kc-prepare that succeeds has written an output with the status "complete", whose root is what
-- the choice stands for among the candidates, and whose converter is that of the operating system. A run
-- that fails has written no output, or one with the status "error".
pub run_prepare-IsReported :
    (input : PrepareInput) (host : Host) → IsReported input.root (run_prepare input host)
unfolding run_prepare
run_prepare-IsReported input host =
    after_resolve-IsReported input host
      (resolve_input_disks host.read_dir input.disk_dir input.disks)
