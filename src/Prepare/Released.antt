-- ===== src/Prepare/Released.antt =====
-- The session with the guest, from its opening to its release.
use kc_utils.Base.{
  ◌≡◌, refl, Bool, true, false, not, ◌&&◌, List, [], ◌∷◌, ◌++◌, Option, none, some, arith, if-holds,
}
use kc_utils.Text.{Text, codes, is_empty}
use kc_utils.Disks.{PartitionInfo, DiskInfo}
use kc_utils.Mount.{MountSpec, PlanContext, Mounts, apply}
use kc_utils.Root.{
  RootCandidate, Selection, selected, no_candidates, multi_boot, not_found, invalid_choice,
  not_registered, selectors, select, discover,
}
use kc_utils.Prepare.{DiskSpec, resolve_input_disks}
use kc_utils.Prepare.Unlock.{Layout}
use kc_utils.Prepare.Pipeline.{
  PrepareInput, Host, PrepareOutput, Event, set_network, restore_network, open_guest, clear_active,
  release, write_output, fs_check, mount, Outcome, check_events, check_all, mount_events, Planner,
  planner_of, plan_with, expand_with, converter_of, or_type, with_converter, complete, after_extra,
  after_expand, after_initial, after_plan, after_planner, plan_context, plan_and_mount,
  after_select, after_discover, guest_layout, volume_paths, prepare_guest, open_run, has_clevis,
  with_network, after_resolve, run_prepare,
}

-- The event belongs to the work on the open guest.
abbrev pub is_work : Event → Bool
is_work (fs_check p) = true
is_work (mount s) = true
is_work (write_output status) = true
is_work _ = false

-- All events pass the test.
abbrev pub all_events : (Event → Bool) → List Event → Bool
all_events f [] = true
all_events f (e ∷ es) = f e && all_events f es

all_events-append :
    (f : Event → Bool) (es gs : List Event)
    → all_events f es ≡ true
    → all_events f gs ≡ true
    → all_events f (es ++ gs) ≡ true
all_events-append f [] gs h k = k
all_events-append f (e ∷ es) gs h k = ground (arith, h, all_events-append f es gs)

check_events-work : (ps : List PartitionInfo) → all_events is_work (check_events ps) ≡ true
check_events-work [] = refl
check_events-work (p ∷ ps) = check_events-work ps

check_all-work : (ds : List DiskInfo) → all_events is_work (check_all ds) ≡ true
unfolding check_all
check_all-work [] = refl
check_all-work (d ∷ ds) =
    all_events-append is_work (check_events d.partitions) (check_all ds)
      (check_events-work d.partitions) (check_all-work ds)

mount_events-work : (specs : List MountSpec) → all_events is_work (mount_events specs) ≡ true
mount_events-work [] = refl
mount_events-work (s ∷ specs) = mount_events-work specs

-- Only work on the guest.
abbrev Work : List Event → Type 0
Work es = all_events is_work es ≡ true

mounts-Work : (es : List Event) (m : Mounts) → Work es → Work (es ++ mount_events m.mounted)
mounts-Work es m h =
    all_events-append is_work es (mount_events m.mounted) h (mount_events-work m.mounted)

module _ (input : PrepareInput) (host : Host) where
  module _ (cs : List RootCandidate) (c : RootCandidate) where
    with_converter-Work :
        (o : Option Text) (out : Text → PrepareOutput) (es : List Event)
        → Work es
        → Work (with_converter input host o out es).events
    with_converter-Work none out es h = h
    with_converter-Work (some conv) out es h =
        all_events-append is_work es (write_output (out conv).status ∷ []) h refl

    complete-Work :
        (disks : List DiskInfo) (es : List Event)
        → Work es
        → Work (complete input host cs c disks es).events
    unfolding complete
    complete-Work disks es h =
        with_converter-Work (converter_of (or_type host.inspected c.os_type)) _ es h

    after_extra-Work :
        (es : List Event) (r : Bool × Mounts)
        → Work es
        → Work (after_extra input host cs c es r).events
    after_extra-Work es (false, m) h = mounts-Work es m h
    after_extra-Work es (true, m) h = complete-Work m.disks _ (mounts-Work es m h)

    after_expand-Work :
        (es : List Event) (disks : List DiskInfo) (o : Option (List MountSpec))
        → Work es
        → Work (after_expand input host cs c es disks o).events
    after_expand-Work es disks none h = h
    after_expand-Work es disks (some []) h = complete-Work disks es h
    after_expand-Work es disks (some (s ∷ specs)) h =
        after_extra-Work es (apply host.mount_fails (s ∷ specs) disks) h

    after_initial-Work :
        (planner : Planner) (ctx : PlanContext) (es : List Event) (r : Bool × Mounts)
        → Work es
        → Work (after_initial input host cs c planner ctx es r).events
    after_initial-Work planner ctx es (false, m) h = mounts-Work es m h
    after_initial-Work planner ctx es (true, m) h =
        after_expand-Work _ m.disks (expand_with planner host ctx) (mounts-Work es m h)

    after_plan-Work :
        (planner : Planner) (ctx : PlanContext) (es : List Event) (o : Option (List MountSpec))
        → Work es
        → Work (after_plan input host cs c planner ctx es o).events
    after_plan-Work planner ctx es none h = h
    after_plan-Work planner ctx es (some specs) h =
        after_initial-Work planner ctx es (apply host.mount_fails specs ctx.disks) h

    after_planner-Work :
        (ctx : PlanContext) (es : List Event) (o : Option Planner)
        → Work es
        → Work (after_planner input host cs c ctx es o).events
    after_planner-Work ctx es none h = h
    after_planner-Work ctx es (some planner) h =
        after_plan-Work planner ctx es (plan_with planner host.probe ctx) h

  after_select-Work :
      (cs : List RootCandidate) (l : Layout) (es : List Event) (s : Selection)
      → Work es
      → Work (after_select input host cs l es s).events
  unfolding after_select plan_and_mount
  after_select-Work cs l es (selected c) h =
      after_planner-Work cs c (plan_context input host c l) es (planner_of c.os_type) h
  after_select-Work cs l es (multi_boot mb) h =
      all_events-append is_work es (write_output (codes "error") ∷ []) h refl
  after_select-Work cs l es no_candidates h = h
  after_select-Work cs l es (not_found device) h = h
  after_select-Work cs l es (invalid_choice choice) h = h
  after_select-Work cs l es (not_registered name) h = h

  after_discover-Work :
      (l : Layout) (es : List Event) (o : Option (List RootCandidate))
      → Work es
      → Work (after_discover input host l es o).events
  after_discover-Work l es none h = h
  after_discover-Work l es (some cs) h =
      after_select-Work cs l es (select selectors cs input.root) h

  prepare_guest-Work : Work (prepare_guest input host).events
  unfolding prepare_guest
  prepare_guest-Work =
      after_discover-Work (guest_layout input host) (check_all (guest_layout input host).disks)
        (discover host.scan (guest_layout input host).disks
          (volume_paths input host (guest_layout input host)))
        (check_all-work (guest_layout input host).disks)

-- A guest that is opened is given back behind all work on it, and the network, where it is switched on for
-- the appliance, is set back behind that.
pub data IsSession : List Event → Type 0 where
  unopened : IsSession []
  refused : IsSession (open_guest ∷ [])
  opened :
      (es : List Event)
      → all_events is_work es ≡ true
      → IsSession (open_guest ∷ (es ++ clear_active ∷ release ∷ []))
  networked :
      {es : List Event} → IsSession es → IsSession (set_network ∷ (es ++ restore_network ∷ []))

module _ (input : PrepareInput) (host : Host) where
  abbrev Ended : Outcome → Type 0
  Ended o = IsSession o.events

  open_run-IsSession : Ended (open_run input host)
  unfolding open_run
  open_run-IsSession =
      if-holds Ended host.open_ok _ _
        (λ e. opened (prepare_guest input host).events (prepare_guest-Work input host))
        (λ e. refused)

  with_network-IsSession : Ended (with_network input host)
  unfolding with_network
  with_network-IsSession =
      if-holds Ended (not (input.is_guestfs && has_clevis input host input.luks)) _ _
        (λ e. open_run-IsSession)
        (λ e. if-holds Ended host.setenv_ok _ _ (λ f. networked open_run-IsSession) (λ f. unopened))

  after_resolve-IsSession : (o : Option (List DiskSpec)) → Ended (after_resolve input host o)
  after_resolve-IsSession none = unopened
  after_resolve-IsSession (some []) = unopened
  after_resolve-IsSession (some (d ∷ ds)) =
      if-holds Ended (is_empty input.mount_root) _ _ (λ e. unopened)
        (λ e. if-holds Ended host.mkdir_ok _ _ (λ f. with_network-IsSession) (λ f. unopened))

-- However a run of kc-prepare ends, a guest that was opened is released behind the checks, mounts and
-- writes, and the network setting of the environment is set back at last where it was changed.
pub run_prepare-IsSession :
    (input : PrepareInput) (host : Host) → IsSession (run_prepare input host).events
unfolding run_prepare
run_prepare-IsSession input host =
    after_resolve-IsSession input host
      (resolve_input_disks host.read_dir input.disk_dir input.disks)
