-- ===== src/Copy/Plan/Laws.antt =====
-- The pairing of disks and targets, and the calls on the lease.
use kc_utils.Base.{
  ℕ, zero, suc, ◌+◌, ◌≡◌, ◌≤◌, refl, ap, inl, inr, Bool, true, false, not, List, [], ◌∷◌, Option,
  none, some, arith, Bool-cases, length, ◌==◌, ==_iff, sym, if-holds, ◌||◌, ◌&&◌,
}
use kc_utils.Text.{Text, is_empty}
use kc_utils.Copy.Select.{DiskUrl, filter_disk_urls}
use kc_utils.Copy.Plan.{
  Target, targets_from, targets_from_dir, clamp_concurrency, CopyInput, Environment, Plan, refused,
  rejected, ready, discover_targets, ready_with, place_in_dir, place_discovered, place,
  after_export, export_vm, after_discover, plan, LeaseCall, live, cancelled, abort, complete,
  Outcome, done, copy_failed, not_started, run_plan, run_copy,
}

pub length-targets_from : (dir : Text) (i n : ℕ) → length (targets_from dir i n) ≡ n
unfolding targets_from
length-targets_from dir i zero = refl
length-targets_from dir i (suc n) = ap suc (length-targets_from dir (i + 1) n)

-- As many disks as targets, one at least, and workers for one at least and for all at most.
abbrev pub IsPaired : Plan → Type 0
IsPaired (refused e) = Unit
IsPaired (rejected e) = Unit
IsPaired (ready targets selected n) =
    (length selected ≡ length targets) × (1 ≤ n) × (n ≤ length targets)

abbrev has_targets : Option (List Target) → Bool
has_targets none = false
has_targets (some []) = false
has_targets (some (t ∷ ts)) = true

abbrev has_disks : Option (List DiskUrl) → Bool
has_disks none = false
has_disks (some ds) = true

abbrev holds_lease : Plan → Bool
holds_lease (refused e) = false
holds_lease (rejected e) = true
holds_lease (ready targets selected n) = true

-- The calls on a lease, if there is one.
abbrev pub lease_calls : Bool → Outcome → List LeaseCall
lease_calls false o = []
lease_calls true done = complete live ∷ []
lease_calls true copy_failed = abort cancelled ∷ []
lease_calls true (not_started e) = abort live ∷ []

module _ (input : CopyInput) (env : Environment) where
  ready_with-IsPaired :
      (targets : List Target) (selected : List DiskUrl)
      → length selected ≡ length targets
      → 1 ≤ length targets
      → IsPaired (ready_with input env targets selected)
  unfolding ready_with clamp_concurrency
  ready_with-IsPaired targets selected e h = ground (arith, e, h)

  place_in_dir-IsPaired : (selected : List DiskUrl) → IsPaired (place_in_dir input env selected)
  unfolding place_in_dir targets_from_dir
  place_in_dir-IsPaired [] = tt
  place_in_dir-IsPaired (d ∷ ds) =
      let n = length-targets_from input.target_dir 0 (length (d ∷ ds)) in
      if-holds IsPaired env.mkdir_ok _ _
        (λ e.
          ready_with-IsPaired (targets_from input.target_dir 0 (length (d ∷ ds))) (d ∷ ds) (sym n)
            (rw n (omega arith)))
        (λ e. tt)

  place-IsPaired :
      (targets : List Target) (o : Option (List DiskUrl))
      → (is_empty input.target_dir ≡ true → 1 ≤ length targets)
      → IsPaired (place input env targets o)
  unfolding place place_discovered
  place-IsPaired targets none h = tt
  place-IsPaired targets (some selected) h =
      if-holds IsPaired (is_empty input.target_dir) _ _
        (λ e.
          if-holds IsPaired (length selected == length targets) _ _
            (λ f.
              ready_with-IsPaired targets selected ((==_iff (length selected) (length targets)).0 f)
                (h e))
            (λ f. tt))
        (λ e. place_in_dir-IsPaired selected)

  after_export-IsPaired :
      (targets : List Target) (o : Option (List DiskUrl))
      → (is_empty input.target_dir ≡ true → 1 ≤ length targets)
      → IsPaired (after_export input env targets o)
  unfolding after_export
  after_export-IsPaired targets none h = tt
  after_export-IsPaired targets (some lease) h =
      place-IsPaired targets (filter_disk_urls lease input.source_disks) h

  export_vm-IsPaired :
      (targets : List Target)
      → (is_empty input.target_dir ≡ true → 1 ≤ length targets)
      → IsPaired (export_vm input env targets)
  unfolding export_vm
  export_vm-IsPaired targets h =
      if-holds IsPaired env.tls_ok _ _ (λ e. after_export-IsPaired targets env.exported h) (λ e. tt)

  after_discover-IsPaired : (o : Option (List Target)) → IsPaired (after_discover input env o)
  unfolding after_discover
  after_discover-IsPaired none = tt
  after_discover-IsPaired (some []) = tt
  after_discover-IsPaired (some (t ∷ ts)) = export_vm-IsPaired (t ∷ ts) (λ e. omega arith)

  -- The checks of `Run` are passed, up to a lease.
  abbrev pub has_lease : Bool
  has_lease =
      not (is_empty input.host || is_empty input.vm_name || is_empty input.fingerprint)
      && (not (is_empty input.target_dir) || has_targets (discover_targets input env))
      && env.tls_ok
      && has_disks env.exported

  place_in_dir-holds :
      (selected : List DiskUrl) → holds_lease (place_in_dir input env selected) ≡ true
  unfolding place_in_dir ready_with
  place_in_dir-holds [] = refl
  place_in_dir-holds (d ∷ ds) =
      if-holds (λ p. holds_lease p ≡ true) env.mkdir_ok _ _ (λ e. refl) (λ e. refl)

  place-holds :
      (targets : List Target) (o : Option (List DiskUrl))
      → holds_lease (place input env targets o) ≡ true
  unfolding place place_discovered ready_with
  place-holds targets none = refl
  place-holds targets (some selected) =
      if-holds (λ p. holds_lease p ≡ true) (is_empty input.target_dir) _ _
        (λ e.
          if-holds (λ p. holds_lease p ≡ true) (length selected == length targets) _ _ (λ f. refl)
            (λ f. refl))
        (λ e. place_in_dir-holds selected)

  after_export-holds :
      (targets : List Target) (o : Option (List DiskUrl))
      → holds_lease (after_export input env targets o) ≡ has_disks o
  unfolding after_export
  after_export-holds targets none = refl
  after_export-holds targets (some lease) =
      place-holds targets (filter_disk_urls lease input.source_disks)

  abbrev exports : Bool
  exports = env.tls_ok && has_disks env.exported

  export_vm-holds : (targets : List Target) → holds_lease (export_vm input env targets) ≡ exports
  unfolding export_vm
  export_vm-holds targets =
      if-holds (λ p. holds_lease p ≡ exports) env.tls_ok _ _
        (λ e. ground (arith, e, after_export-holds targets env.exported)) (λ e. ground (arith, e))

  after_discover-holds :
      (o : Option (List Target))
      → holds_lease (after_discover input env o) ≡ (has_targets o && exports)
  unfolding after_discover
  after_discover-holds none = refl
  after_discover-holds (some []) = refl
  after_discover-holds (some (t ∷ ts)) = export_vm-holds (t ∷ ts)

  plan-has_lease : holds_lease (plan input env) ≡ has_lease
  unfolding plan
  plan-has_lease =
      if-holds (λ p. holds_lease p ≡ has_lease) (is_empty input.host) _ _ (λ e. ground (arith, e))
        (λ e.
          if-holds (λ p. holds_lease p ≡ has_lease) (is_empty input.vm_name) _ _
            (λ f. ground (arith, f))
            (λ f.
              if-holds (λ p. holds_lease p ≡ has_lease) (is_empty input.fingerprint) _ _
                (λ g. ground (arith, g))
                (λ g.
                  if-holds (λ p. holds_lease p ≡ has_lease) (is_empty input.target_dir) _ _
                    (λ h.
                      ground (arith, e, f, g, h, after_discover-holds (discover_targets input env)))
                    (λ h. ground (arith, e, f, g, h, export_vm-holds [])))))

run_plan-lease_calls :
    (copy_all : List Target → List DiskUrl → ℕ → Bool) (p : Plan)
    → (run_plan copy_all p).1 ≡ lease_calls (holds_lease p) (run_plan copy_all p).0
unfolding run_plan
run_plan-lease_calls copy_all (refused e) = refl
run_plan-lease_calls copy_all (rejected e) = refl
run_plan-lease_calls copy_all (ready targets selected n) =
    elim (Bool-cases (copy_all targets selected n)) [ inl e ↦ rw e refl | inr e ↦ rw e refl ]

-- With a lease, one call is made on it, and without one there is none: `Complete` on a live context if
-- the answer is no error, `Abort` on a live context after an error of the checks, and `Abort` on the
-- cancelled context after an error of a worker. There is a lease exactly if the checks before the export
-- are passed and the export answers one.
pub run_copy-lease_calls :
    (copy_all : List Target → List DiskUrl → ℕ → Bool) (input : CopyInput) (env : Environment)
    → (run_copy copy_all input env).1
      ≡ lease_calls (has_lease input env) (run_copy copy_all input env).0
unfolding run_copy
run_copy-lease_calls copy_all input env =
    rw (← plan-has_lease input env) (run_plan-lease_calls copy_all (plan input env))

-- When the workers of `Run` start, there are as many disks as targets, so that each target has its
-- disk, one target at least, and a number of workers from one to the number of targets.
pub plan-IsPaired : (input : CopyInput) (env : Environment) → IsPaired (plan input env)
unfolding plan
plan-IsPaired input env =
    if-holds IsPaired (is_empty input.host) _ _ (λ e. tt)
      (λ e.
        if-holds IsPaired (is_empty input.vm_name) _ _ (λ e. tt)
          (λ e.
            if-holds IsPaired (is_empty input.fingerprint) _ _ (λ e. tt)
              (λ e.
                if-holds IsPaired (is_empty input.target_dir) _ _
                  (λ e. after_discover-IsPaired input env (discover_targets input env))
                  (λ e. export_vm-IsPaired input env [] (λ f. absurd cc)))))
