-- ===== src/WindowsVol/Scan.antt =====
-- The issues that a scan finds, and the one that a backend is stopped by.
use kc_utils.Base.{
  ◌≡◌, ◌≢◌, refl, ap, Bool, true, false, ◌||◌, List, [], ◌∷◌, ◌++◌, Option, none, some, arith, All,
  All-append, if-holds,
}
use kc_utils.Text.{Text, codes, text_eq, is_empty}
use kc_utils.Text.Laws.{text_eq_iff}
use kc_utils.Sort.{Pairwise, Pairwise-last}
use kc_utils.Disks.{PartitionInfo, DiskInfo}
use kc_utils.Finalize.Paths.{is_among}
use kc_utils.WindowsVol.{
  Kind, Issue, Probe, kind_of, Scanned, add_issue, scan_partition, scan_partitions, scan_disks,
  scan_disk_infos, unhandled, first_issue, first_unsupported,
}

abbrev IsSeen : List Text → Issue → Type 0
IsSeen seen i = is_among i.device seen ≡ true

abbrev pub AreApart : Issue → Issue → Type 0
AreApart i j = i.device ≢ j.device

record IsScanned (s : Scanned) : Type 0 where
  listed : All (IsSeen s.seen) s.issues
  apart : Pairwise AreApart s.issues

All-seen :
    (d : Text) (seen : List Text) (is : List Issue)
    → All (IsSeen seen) is
    → All (IsSeen (d ∷ seen)) is
unfolding is_among
All-seen d seen [] h = tt
All-seen d seen (i ∷ is) h = (ground (arith, h.0), All-seen d seen is h.1)

All-apart :
    (k : Kind) (d : Text) (seen : List Text) (is : List Issue)
    → is_among d seen ≡ false
    → All (IsSeen seen) is
    → All (λ i. AreApart i (record { kind = k; device = d })) is
All-apart k d seen [] e h = tt
All-apart k d seen (i ∷ is) e h = (
  λ f.
      let g : is_among i.device seen ≡ is_among d seen = ap (λ t. is_among t seen) f in
      ground (arith, g, e, h.0),
  All-apart k d seen is e h.1,
)

add_issue-IsScanned :
    (k : Option Kind) (d : Text) (s : Scanned)
    → is_among d s.seen ≡ false
    → IsScanned s
    → IsScanned (add_issue k d s)
unfolding add_issue is_among
add_issue-IsScanned none d s e h = record {
  listed = All-seen d s.seen s.issues h.listed;
  apart = h.apart;
}
add_issue-IsScanned (some k) d s e h = record {
  listed =
      All-append (IsSeen (d ∷ s.seen)) s.issues (record { kind = k; device = d } ∷ [])
        (All-seen d s.seen s.issues h.listed) (ground (arith, (text_eq_iff d d).1 refl), tt);
  apart =
      Pairwise-last AreApart s.issues (record { kind = k; device = d }) h.apart
        (All-apart k d s.seen s.issues e h.listed);
}

scan_partition-IsScanned :
    (probe : Probe) (p : PartitionInfo) (s : Scanned)
    → IsScanned s
    → IsScanned (scan_partition probe p s)
unfolding scan_partition
scan_partition-IsScanned probe p s h =
    if-holds IsScanned (is_empty p.device_path || is_among p.device_path s.seen) _ _ (λ e. h)
      (λ e. add_issue-IsScanned (kind_of probe p) p.device_path s (ground (arith, e)) h)

scan_partitions-IsScanned :
    (probe : Probe) (ps : List PartitionInfo) (s : Scanned)
    → IsScanned s
    → IsScanned (scan_partitions probe ps s)
unfolding scan_partitions
scan_partitions-IsScanned probe [] s h = h
scan_partitions-IsScanned probe (p ∷ ps) s h =
    scan_partitions-IsScanned probe ps (scan_partition probe p s)
      (scan_partition-IsScanned probe p s h)

scan_disks-IsScanned :
    (probe : Probe) (ds : List DiskInfo) (s : Scanned)
    → IsScanned s
    → IsScanned (scan_disks probe ds s)
unfolding scan_disks
scan_disks-IsScanned probe [] s h = h
scan_disks-IsScanned probe (d ∷ ds) s h =
    scan_disks-IsScanned probe ds (scan_partitions probe d.partitions s)
      (scan_partitions-IsScanned probe d.partitions s h)

-- The scan reports at most one issue for a device, in whatever partitions and disks it is listed.
pub scan_disk_infos-Pairwise :
    (disks : List DiskInfo) (probe : Probe) → Pairwise AreApart (scan_disk_infos disks probe)
unfolding scan_disk_infos
scan_disk_infos-Pairwise disks probe =
    (scan_disks-IsScanned probe disks (record { seen = []; issues = [] })
      (record { listed = tt; apart = tt })).apart

-- The answer is the first issue of the list that the backend does not handle, or none if it handles all.
unfoldable pub IsFirstIssue : Bool → List Issue → Option Issue → Type 0
IsFirstIssue is_qemu is none = All (λ i. unhandled is_qemu i.kind ≡ false) is
IsFirstIssue is_qemu is (some i) =
    (before : List Issue) × (after : List Issue) × (is ≡ before ++ i ∷ after)
    × All (λ j. unhandled is_qemu j.kind ≡ false) before
    × (unhandled is_qemu i.kind ≡ true)

IsFirstIssue-later :
    (is_qemu : Bool) (i : Issue) (is : List Issue) (r : Option Issue)
    → unhandled is_qemu i.kind ≡ false
    → IsFirstIssue is_qemu is r
    → IsFirstIssue is_qemu (i ∷ is) r
unfolding IsFirstIssue
IsFirstIssue-later is_qemu i is none e h = (e, h)
IsFirstIssue-later is_qemu i is (some j) e (before, after, f, h, u) =
    (i ∷ before, after, ap (λ l. i ∷ l) f, (e, h), u)

first_issue-IsFirstIssue :
    (is_qemu : Bool) (is : List Issue) → IsFirstIssue is_qemu is (first_issue is_qemu is)
unfolding first_issue IsFirstIssue
first_issue-IsFirstIssue is_qemu [] = tt
first_issue-IsFirstIssue is_qemu (i ∷ is) =
    if-holds (IsFirstIssue is_qemu (i ∷ is)) (unhandled is_qemu i.kind) _ _
      (λ e. ([], is, refl, tt, e))
      (λ e.
        IsFirstIssue-later is_qemu i is (first_issue is_qemu is) e
          (first_issue-IsFirstIssue is_qemu is))

-- A backend is stopped by the first issue of a scan that it does not handle: for qemu a volume of
-- Storage Spaces, for another backend any issue. It is stopped by none only if it handles all.
pub first_unsupported-IsFirstIssue :
    (issues : List Issue) (backend_name : Text)
    → IsFirstIssue
        (text_eq backend_name (codes "qemu"))
        issues
        (first_unsupported issues backend_name)
unfolding first_unsupported
first_unsupported-IsFirstIssue issues backend_name =
    first_issue-IsFirstIssue (text_eq backend_name (codes "qemu")) issues
