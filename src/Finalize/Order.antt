-- ===== src/Finalize/Order.antt =====
-- The order of the calls, and the one release.
use kc_utils.Base.{
  ℕ, ◌+◌, ◌≡◌, ◌≤◌, refl, Bool, true, false, List, [], ◌∷◌, ◌++◌, Option, none, some, arith, All,
  All-append, if◌then◌else◌,
}
use kc_utils.Text.{Text, codes}
use kc_utils.Sort.{Ascending}
use kc_utils.Disks.{PartitionInfo, DiskInfo}
use kc_utils.Finalize.{Prepared, Converted, customizer_opts}
use kc_utils.Finalize.Paths.{mounted_guest_paths}
use kc_utils.Finalize.Pipeline.{
  Host, Call, attach, sync, unmount, release, write_meta, teardown, clear_active, customize,
  fs_trim, fs_check, State, do_call, warn, run_customizer, run_customizers, sync_guest, trim_paths,
  check_part, check_parts, check_disks, release_guest, use_guest, deferred, attached, run_finalize,
}

-- The place of a call in a run.
abbrev pub place : Call → ℕ
place attach = 0
place (customize name) = 1
place sync = 2
place (fs_trim p) = 3
place unmount = 4
place (fs_check p) = 5
place release = 6
place write_meta = 7
place clear_active = 8
place teardown = 9

abbrev pub is_release : Call → Bool
is_release release = true
is_release _ = false

abbrev pub is_teardown : Call → Bool
is_teardown teardown = true
is_teardown _ = false

-- How many calls pass a test.
abbrev pub number : (Call → Bool) → List Call → ℕ
number f [] = 0
number f (c ∷ cs) = (if f c then 1 else 0) + number f cs

number-last :
    (f : Call → Bool) (cs : List Call) (c : Call)
    → number f (cs ++ c ∷ []) ≡ number f cs + (if f c then 1 else 0)
number-last f [] c = ground arith
number-last f (d ∷ cs) c = omega (arith, number-last f cs c)

Ascending-last :
    (cs : List Call) (c : Call) (n : ℕ)
    → Ascending place cs
    → All (λ d. place d ≤ n) cs
    → n ≤ place c
    → Ascending place (cs ++ c ∷ [])
Ascending-last [] c n a h le = (tt, tt)
Ascending-last (d ∷ cs) c n a h le = (
  All-append (λ e. place d ≤ place e) cs (c ∷ []) a.0 (omega (arith, h.0, le), tt),
  Ascending-last cs c n a.1 h.1 le,
)

All-weaken :
    (cs : List Call) (m n : ℕ) → m ≤ n → All (λ d. place d ≤ m) cs → All (λ d. place d ≤ n) cs
All-weaken [] m n le h = tt
All-weaken (c ∷ cs) m n le h = (omega (arith, h.0, le), All-weaken cs m n le h.1)

-- The run has come to the place `n`, with `k` releases and no teardown.
record IsAt (n k : ℕ) (s : State) : Type 0 where
  ordered : Ascending place s.calls
  below : All (λ d. place d ≤ n) s.calls
  released : number is_release s.calls ≡ k
  kept : number is_teardown s.calls ≡ 0

-- A call at its place or a later one.
do_call-IsAt :
    (c : Call) (n k : ℕ) (s : State)
    → IsAt n k s
    → n ≤ place c
    → is_teardown c ≡ false
    → IsAt (place c) (k + (if is_release c then 1 else 0)) (do_call c s)
unfolding do_call
do_call-IsAt c n k s h le t = record {
  ordered = Ascending-last s.calls c n h.ordered h.below le;
  below =
      All-append (λ d. place d ≤ place c) s.calls (c ∷ [])
        (All-weaken s.calls n (place c) le h.below) (omega arith, tt);
  released = omega (arith, number-last is_release s.calls c, h.released);
  kept = ground (arith, number-last is_teardown s.calls c, h.kept, t);
}

warn-IsAt :
    (prefix : Text) (o : Option Text) (n k : ℕ) (s : State)
    → IsAt n k s
    → IsAt n k (warn prefix o s)
warn-IsAt prefix none n k s h = h
warn-IsAt prefix (some e) n k s h = record {
  ordered = h.ordered;
  below = h.below;
  released = h.released;
  kept = h.kept;
}

IsAt-weaken : (n m k : ℕ) (s : State) → n ≤ m → IsAt n k s → IsAt m k s
IsAt-weaken n m k s le h = record {
  ordered = h.ordered;
  below = All-weaken s.calls n m le h.below;
  released = h.released;
  kept = h.kept;
}

trim_paths-IsAt : (ps : List Text) (s : State) → IsAt 3 0 s → IsAt 3 0 (trim_paths ps s)
unfolding trim_paths
trim_paths-IsAt [] s h = h
trim_paths-IsAt (p ∷ ps) s h =
    trim_paths-IsAt ps (do_call (fs_trim p) s) (do_call-IsAt (fs_trim p) 3 0 s h (omega arith) refl)

module _ (host : Host) where
  run_customizers-IsAt :
      (opts : List (Text × Text)) (names : List Text) (s : State)
      → IsAt 1 0 s
      → IsAt 1 0 (run_customizers host opts names s)
  unfolding run_customizers run_customizer
  run_customizers-IsAt opts [] s h = h
  run_customizers-IsAt opts (name ∷ names) s h =
      run_customizers-IsAt opts names (run_customizer host opts name s) (
        warn-IsAt (codes "customization " ++ (name ++ codes " failed: "))
          (host.apply_error name opts) 1 0 (do_call (customize name) s)
          (do_call-IsAt (customize name) 1 0 s h (omega arith) refl))

  sync_guest-IsAt : (s : State) → IsAt 1 0 s → IsAt 2 0 (sync_guest host s)
  unfolding sync_guest
  sync_guest-IsAt s h =
      warn-IsAt (codes "guest sync failed: ") host.sync_error 2 0 (do_call sync s)
        (do_call-IsAt sync 1 0 s h (omega arith) refl)

  check_parts-IsAt :
      (ps : List PartitionInfo) (s : State) → IsAt 5 0 s → IsAt 5 0 (check_parts host ps s)
  unfolding check_parts check_part
  check_parts-IsAt [] s h = h
  check_parts-IsAt (p ∷ ps) s h = check_parts-IsAt ps (check_part host p s) (
      warn-IsAt (codes "filesystem check failed on " ++ (p.device_path ++ codes ": "))
        (host.check_error p) 5 0 (do_call (fs_check p) s)
        (do_call-IsAt (fs_check p) 5 0 s h (omega arith) refl))

  check_disks-IsAt :
      (ds : List DiskInfo) (s : State) → IsAt 5 0 s → IsAt 5 0 (check_disks host ds s)
  unfolding check_disks
  check_disks-IsAt [] s h = h
  check_disks-IsAt (d ∷ ds) s h =
      check_disks-IsAt ds (check_parts host d.partitions s) (check_parts-IsAt d.partitions s h)

  release_guest-IsAt : (s : State) → IsAt 5 0 s → IsAt 6 1 (release_guest s)
  unfolding release_guest
  release_guest-IsAt s h =
      let done = do_call-IsAt release 5 0 s h (omega arith) refl in
      record {
        ordered = done.ordered;
        below = done.below;
        released = done.released;
        kept = done.kept;
      }

  use_guest-IsAt :
      (p : Prepared) (c : Converted) (mount_root : Text) (s : State)
      → IsAt 0 0 s
      → IsAt 6 1 (use_guest host p c mount_root s)
  unfolding use_guest
  use_guest-IsAt p c mount_root s h =
      let synced = sync_guest-IsAt _ (
        run_customizers-IsAt (customizer_opts p c) host.customizers s
          (IsAt-weaken 0 1 0 s (omega arith) h)) in
      let trimmed =
        trim_paths-IsAt (mounted_guest_paths mount_root p.disks) _
          (IsAt-weaken 2 3 0 _ (omega arith) synced) in
      let unmounted = do_call-IsAt unmount 3 0 _ trimmed (omega arith) refl in
      release_guest-IsAt _
        (check_disks-IsAt p.disks _ (IsAt-weaken 4 5 0 _ (omega arith) unmounted))

  use_guest-torn_down :
      (p : Prepared) (c : Converted) (mount_root : Text) (s : State)
      → (use_guest host p c mount_root s).torn_down ≡ true
  unfolding use_guest release_guest
  use_guest-torn_down p c mount_root s = refl

-- A run on a guest that is attached makes its calls in the order attach, customizers, sync, trims,
-- unmount, checks, release, the metadata, and the end of the attachment: whatever they answer. The guest
-- is released exactly once, and the deferred teardown does not come on top.
pub run_finalize-IsOrdered :
    (host : Host) (p : Prepared) (c : Converted) (mount_root : Text)
    → host.attach_ok ≡ true
    → Ascending place (run_finalize host p c mount_root).calls
      × (number is_release (run_finalize host p c mount_root).calls ≡ 1)
      × (number is_teardown (run_finalize host p c mount_root).calls ≡ 0)
unfolding run_finalize deferred do_call
run_finalize-IsOrdered host p c mount_root e =
    let used =
      use_guest-IsAt host p c mount_root attached
        (record { ordered = (tt, tt); below = (omega arith, tt); released = refl; kept = refl }) in
    let written =
      do_call-IsAt write_meta 6 1 (use_guest host p c mount_root attached) used (omega arith)
        refl in
    let cleared = do_call-IsAt clear_active 7 1 _ written (omega arith) refl in
    rw (e, use_guest-torn_down host p c mount_root attached)
      (cleared.ordered, cleared.released, cleared.kept)
