-- ===== src/Examples/Copies.antt =====
-- Copies: a lease with a snapshot's disk, and one worker from its start to its end.
use kc_utils.Base.{◌≡◌, ◌≤◌, ◌⊎◌, ◌*◌, refl, true, List, [], ◌∷◌, none, some, arith}
use kc_utils.Text.{Text, codes}
use kc_utils.Copy.Select.{DiskUrl, normalize_disk_path, filter_disk_urls, split_disk_path}
use kc_utils.Copy.Select.Lookup.{source_disks, filter_disk_urls-first}
use kc_utils.Copy.Plan.{CopyInput, Environment, plan, run_copy, disk_index, done, live, complete}
use kc_utils.Copy.Plan.Laws.{IsPaired, plan-IsPaired, run_copy-lease_calls, has_lease, lease_calls}
use kc_utils.Copy.Pool.{
  copied, copying, finished, Pool, move, acquire, release, record_disk, all_waiting, Reach,
  at_start, next, acquires, begins, succeeds, records, releases,
}
use kc_utils.Copy.Pool.Sum.{total}
use kc_utils.Copy.Pool.Invariant.{copies, has_error, times, Reach-copies, Reach-recorded}
use kc_utils.Copy.Pool.Ends.{steps, AllFinished, CanGo, Reach-ends}

abbrev vmdk_disk : Text → DiskUrl
vmdk_disk p = record { url = codes "https://esx/nfc"; disk_path = p; size = 1 }

abbrev nfc_lease : List DiskUrl
nfc_lease =
    vmdk_disk (codes "[ds] vm/a-000002.vmdk")
    ∷ vmdk_disk (codes "[ds] vm/b.vmdk")
    ∷ vmdk_disk (codes "[ds] vm/a.vmdk")
    ∷ []

filter_disk_urls-first_example :
    filter_disk_urls nfc_lease (codes "[ds] vm/b.vmdk" ∷ codes " [ds] vm/a.vmdk" ∷ [])
    ≡ source_disks nfc_lease (codes "[ds] vm/b.vmdk" ∷ codes " [ds] vm/a.vmdk" ∷ [])
filter_disk_urls-first_example =
    filter_disk_urls-first nfc_lease (codes "[ds] vm/b.vmdk") (codes " [ds] vm/a.vmdk" ∷ [])

both_disks :
    filter_disk_urls nfc_lease (codes "[ds] vm/b.vmdk" ∷ codes " [ds] vm/a.vmdk" ∷ [])
    ≡ some (vmdk_disk (codes "[ds] vm/b.vmdk") ∷ vmdk_disk (codes "[ds] vm/a-000002.vmdk") ∷ [])
unfolding filter_disk_urls
both_disks = refl

snapshot_path : normalize_disk_path (codes "[ds] vm/a-000002.vmdk") ≡ codes "[ds] vm/a.vmdk"
unfolding normalize_disk_path
snapshot_path = refl

abbrev to_dir : CopyInput
to_dir = record {
  host = codes "vcenter";
  vm_name = codes "vm";
  fingerprint = codes "AA";
  source_disks = [];
  target_dir = codes "/out";
  copy_concurrency = 8;
}

abbrev calm_host : Environment
calm_host = record {
  block_glob = some [];
  fs_glob = some [];
  tls_ok = true;
  exported = some nfc_lease;
  mkdir_ok = true;
}

plan-IsPaired_example : IsPaired (plan to_dir calm_host)
plan-IsPaired_example = plan-IsPaired to_dir calm_host

run_copy-lease_calls_example :
    (run_copy (λ targets selected n. true) to_dir calm_host).1
    ≡ lease_calls
        (has_lease to_dir calm_host)
        (run_copy (λ targets selected n. true) to_dir calm_host).0
run_copy-lease_calls_example = run_copy-lease_calls (λ targets selected n. true) to_dir calm_host

copied_all : run_copy (λ targets selected n. true) to_dir calm_host ≡ (done, complete live ∷ [])
unfolding run_copy
copied_all = refl

disk_index12 : disk_index (codes "/mnt/disks/disk12") ≡ 12
unfolding disk_index
disk_index12 = refl

split_two : split_disk_path (codes " a, ,b") ≡ codes "a" ∷ codes "b" ∷ []
unfolding split_disk_path
split_two = refl

-- The states of one worker.
abbrev with_slot : Pool
with_slot = acquire all_waiting 0

abbrev in_copy : Pool
in_copy = move with_slot 0 copying

abbrev recorded_one : Pool
recorded_one = record_disk (move in_copy 0 copied) 0

one_worker : Reach 1 1 (release recorded_one 0)
unfolding acquire record_disk
one_worker =
    next
      (next
        (next
          (next (next at_start (acquires 0 (omega arith) refl (omega arith)))
            (begins 0 (omega arith) refl refl))
          (succeeds 0 (omega arith) refl))
        (records 0 (omega arith) refl))
      (releases 0 (omega arith) refl)

Reach-copies_example :
    (total copies 1 (release recorded_one 0).phases ≤ 1)
    × ((release recorded_one 0).cancelled ≡ has_error (release recorded_one 0).first_err)
Reach-copies_example = Reach-copies 1 1 (release recorded_one 0) one_worker

no_error : (release recorded_one 0).first_err ≡ none
unfolding acquire record_disk release
no_error = refl

has_finished : (release recorded_one 0).phases 0 ≡ finished
unfolding acquire record_disk release
has_finished = refl

Reach-recorded_example : times 0 (release recorded_one 0).recorded ≡ 1
Reach-recorded_example =
    Reach-recorded 1 1 (release recorded_one 0) one_worker no_error 0 has_finished

Reach-ends_example :
    (steps one_worker ≤ 5 * 1)
    × (AllFinished 1 (release recorded_one 0).phases ⊎ CanGo 1 1 (release recorded_one 0))
Reach-ends_example = Reach-ends 1 1 (release recorded_one 0) one_worker (omega arith)
