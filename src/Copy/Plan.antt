-- ===== src/Copy/Plan.antt =====
-- pkg/copy/target.go, and `Run` of pkg/copy/copy.go around the workers: its checks, the pairing of
-- disks and targets, the number of workers, and the calls on the lease.
--
-- `Environment` has the answers of the calls outside: the two globs, the TLS policy, the export with
-- its disks, and `os.MkdirAll`.
pub mod Laws
use kc_utils.Base.{
  ℕ, zero, suc, ◌+◌, ◌-◌, ◌*◌, ◌^◌, min, Bool, true, false, not, List, [], ◌∷◌, ◌++◌, map, Option,
  none, some, ◌==◌, ltb, if◌then◌else◌, length,
}
use kc_utils.Text.{Text, codes, is_empty}
use kc_utils.FilePath.{join_path}
use kc_utils.Sort.{sort, by_key}
use kc_utils.Overlay.{decimal}
use kc_utils.Copy.Select.{DiskUrl, is_digit, filter_disk_urls}

pub record Target : Type 0 where
  pub path : Text
  pub is_block_dev : Bool
  pub index : ℕ

-- `types.ImageFileName`
unfoldable pub image_file_name : ℕ → Text
unfolding decimal
image_file_name i = codes "disk" ++ (decimal i ++ codes ".img")

-- The targets from the index `i` on.
unfoldable pub targets_from : Text → ℕ → ℕ → List Target
unfolding image_file_name join_path
targets_from dir i zero = []
targets_from dir i (suc n) =
    record { path = join_path (dir ∷ image_file_name i ∷ []); is_block_dev = false; index = i }
    ∷ targets_from dir (i + 1) n

-- `TargetsFromDir`
unfoldable pub targets_from_dir : Text → ℕ → List Target
unfolding targets_from
targets_from_dir dir n = targets_from dir 0 n

-- The first digits of a path, as `diskNumRE` finds them.
unfoldable pub leading_digits : Text → Text
leading_digits [] = []
leading_digits (c ∷ s) = let rest = leading_digits s in if is_digit c then c ∷ rest else []

unfoldable pub first_digits : Text → Text
unfolding leading_digits
first_digits [] = []
first_digits (c ∷ s) =
    let rest = first_digits s in if is_digit c then c ∷ leading_digits s else rest

unfoldable pub value_from : ℕ → Text → ℕ
value_from n [] = n
value_from n (c ∷ s) = value_from (10 * n + (c - b'0')) s

-- `diskIndex`: `Atoi` answers the greatest `int` for a number beyond it.
unfoldable pub disk_index : Text → ℕ
unfolding first_digits value_from
disk_index path = min (value_from 0 (first_digits path)) (2 ^ 63 - 1)

abbrev pub block_target : Text → Target
block_target p = record { path = p; is_block_dev = true; index = disk_index p }

abbrev pub file_target : Text → Target
file_target dir = record {
  path = join_path (dir ∷ codes "disk.img" ∷ []);
  is_block_dev = false;
  index = disk_index dir;
}

abbrev pub target_index : Target → ℕ
target_index t = t.index

abbrev pub targets_of : Option (List Text) → Option (List Text) → Option (List Target)
targets_of none fs = none
targets_of (some block) none = none
targets_of (some block) (some fs) =
    some (sort (by_key target_index) (map block_target block ++ map file_target fs))

-- `ClampConcurrency`; a number below 0 acts as 0 does.
unfoldable pub clamp_concurrency : ℕ → ℕ → ℕ
clamp_concurrency n disks =
    let workers = if n == 0 then 4 else n in
    if disks == 0 then 1 else if ltb disks workers then disks else workers

pub record CopyInput : Type 0 where
  pub host : Text
  pub vm_name : Text
  pub fingerprint : Text
  pub source_disks : List Text
  pub target_dir : Text
  pub copy_concurrency : ℕ

pub record Environment : Type 0 where
  pub block_glob : Option (List Text)
  pub fs_glob : Option (List Text)
  pub tls_ok : Bool
  pub exported : Option (List DiskUrl)
  pub mkdir_ok : Bool

pub data CopyError : Type 0 where
  no_host no_vm_name no_fingerprint glob_failed no_targets : CopyError
  tls_failed export_failed filter_failed no_disks mkdir_failed count_mismatch : CopyError

-- `refused` before there is a lease, and `rejected` with one.
pub data Plan : Type 0 where
  refused rejected : CopyError → Plan
  ready : List Target → List DiskUrl → ℕ → Plan

module _ (input : CopyInput) (env : Environment) where
  -- `DiscoverTargets`
  unfoldable pub discover_targets : Option (List Target)
  unfolding disk_index join_path sort
  discover_targets = targets_of env.block_glob env.fs_glob

  unfoldable pub ready_with : List Target → List DiskUrl → Plan
  unfolding clamp_concurrency
  ready_with targets selected =
      ready targets selected (clamp_concurrency input.copy_concurrency (length targets))

  unfoldable pub place_in_dir : List DiskUrl → Plan
  unfolding ready_with targets_from_dir
  place_in_dir [] = rejected no_disks
  place_in_dir (d ∷ ds) =
      if env.mkdir_ok
      then ready_with (targets_from_dir input.target_dir (length (d ∷ ds))) (d ∷ ds)
      else rejected mkdir_failed

  unfoldable pub place_discovered : List Target → List DiskUrl → Plan
  unfolding ready_with
  place_discovered targets selected =
      if length selected == length targets
      then ready_with targets selected
      else rejected count_mismatch

  unfoldable pub place : List Target → Option (List DiskUrl) → Plan
  unfolding place_in_dir place_discovered
  place targets none = rejected filter_failed
  place targets (some selected) =
      if is_empty input.target_dir then place_discovered targets selected else place_in_dir selected

  unfoldable pub after_export : List Target → Option (List DiskUrl) → Plan
  unfolding place filter_disk_urls
  after_export targets none = refused export_failed
  after_export targets (some lease) = place targets (filter_disk_urls lease input.source_disks)

  unfoldable pub export_vm : List Target → Plan
  unfolding after_export
  export_vm targets = if env.tls_ok then after_export targets env.exported else refused tls_failed

  unfoldable pub after_discover : Option (List Target) → Plan
  unfolding export_vm
  after_discover none = refused glob_failed
  after_discover (some []) = refused no_targets
  after_discover (some (t ∷ ts)) = export_vm (t ∷ ts)

  -- `Run` up to the workers.
  unfoldable pub plan : Plan
  unfolding after_discover discover_targets export_vm
  plan =
      if is_empty input.host
      then refused no_host
      else if is_empty input.vm_name
      then refused no_vm_name
      else if is_empty input.fingerprint
      then refused no_fingerprint
      else if is_empty input.target_dir
      then after_discover discover_targets
      else export_vm []

-- The state of the context of a run, which the first error of a worker cancels. A call outside fails at
-- once on a cancelled context.
pub data Context : Type 0 where
  live cancelled : Context

-- What is asked of the lease, with the context that is passed on.
pub data LeaseCall : Type 0 where
  abort complete : Context → LeaseCall

-- The workers' first error, if there is one, is behind `false`.
pub data Outcome : Type 0 where
  done copy_failed : Outcome
  not_started : CopyError → Outcome

abbrev pub finish : Bool → Outcome × List LeaseCall
finish true = (done, complete live ∷ [])
finish false = (copy_failed, abort cancelled ∷ [])

unfoldable pub run_plan : (List Target → List DiskUrl → ℕ → Bool) → Plan → Outcome × List LeaseCall
run_plan copy_all (refused e) = (not_started e, [])
run_plan copy_all (rejected e) = (not_started e, abort live ∷ [])
run_plan copy_all (ready targets selected n) = finish (copy_all targets selected n)

-- `Run`; `copy_all` are the workers.
unfoldable pub run_copy :
    (List Target → List DiskUrl → ℕ → Bool) → CopyInput → Environment → Outcome × List LeaseCall
unfolding run_plan plan
run_copy copy_all input env = run_plan copy_all (plan input env)
