-- ===== src/Finalize/Paths.antt =====
-- `mountedGuestPaths` of pkg/cmd/finalize/pipeline.go: the host's paths of the guest's mounts.
use kc_utils.Base.{
  ◌≡◌, ◌≢◌, sym, inl, inr, Bool, false, ◌||◌, List, [], ◌∷◌, ◌++◌, arith, All, Bool-cases,
  if◌then◌else◌,
}
use kc_utils.Text.{Text, text_eq, is_empty, trim_space, trim_prefix}
use kc_utils.Text.Laws.{text_eq_iff}
use kc_utils.FilePath.{join_path, slash}
use kc_utils.Sort.{sort, text_less, Pairwise, Pairwise-last, sort-Pairwise}
use kc_utils.Disks.{PartitionInfo, DiskInfo}

unfoldable pub is_among : Text → List Text → Bool
unfolding text_eq
is_among p [] = false
is_among p (q ∷ qs) = text_eq q p || is_among p qs

-- A path that has been seen is not added again.
unfoldable pub add_path : Text → List Text → List Text
unfolding is_among
add_path p paths = if is_among p paths then paths else paths ++ p ∷ []

unfoldable pub host_path : Text → Text → Text
unfolding join_path trim_prefix
host_path mount_root mp = join_path (mount_root ∷ trim_prefix mp slash ∷ [])

unfoldable pub add_partition : Text → PartitionInfo → List Text → List Text
unfolding trim_space text_eq add_path host_path
add_partition mount_root p paths =
    let mp = trim_space p.mount_point in
    if is_empty mp || text_eq mp slash then paths else add_path (host_path mount_root mp) paths

unfoldable pub add_partitions : Text → List PartitionInfo → List Text → List Text
unfolding add_partition
add_partitions mount_root [] paths = paths
add_partitions mount_root (p ∷ ps) paths =
    add_partitions mount_root ps (add_partition mount_root p paths)

unfoldable pub add_disks : Text → List DiskInfo → List Text → List Text
unfolding add_partitions
add_disks mount_root [] paths = paths
add_disks mount_root (d ∷ ds) paths =
    add_disks mount_root ds (add_partitions mount_root d.partitions paths)

-- `mountedGuestPaths`
unfoldable pub mounted_guest_paths : Text → List DiskInfo → List Text
unfolding sort text_less add_disks
mounted_guest_paths mount_root disks = sort text_less (add_disks mount_root disks (mount_root ∷ []))

is_among-All : (p : Text) (qs : List Text) → is_among p qs ≡ false → All (λ q. q ≢ p) qs
unfolding is_among
is_among-All p [] h = tt
is_among-All p (q ∷ qs) h =
    (λ e. ground (arith, h, (text_eq_iff q p).1 e), is_among-All p qs (ground (arith, h)))

add_path-Pairwise : (p : Text) (qs : List Text) → Pairwise ◌≢◌ qs → Pairwise ◌≢◌ (add_path p qs)
unfolding add_path
add_path-Pairwise p qs h = elim (Bool-cases (is_among p qs)) [
  | inl e ↦ rw e h
  | inr e ↦ rw e (Pairwise-last ◌≢◌ qs p h (is_among-All p qs e))
]

add_partition-Pairwise :
    (mount_root : Text) (p : PartitionInfo) (qs : List Text)
    → Pairwise ◌≢◌ qs
    → Pairwise ◌≢◌ (add_partition mount_root p qs)
unfolding add_partition
add_partition-Pairwise mount_root p qs h =
    elim (Bool-cases
      (is_empty (trim_space p.mount_point) || text_eq (trim_space p.mount_point) slash)) [
        | inl e ↦ rw e h
        | inr e ↦ rw e (add_path-Pairwise (host_path mount_root (trim_space p.mount_point)) qs h)
      ]

add_partitions-Pairwise :
    (mount_root : Text) (ps : List PartitionInfo) (qs : List Text)
    → Pairwise ◌≢◌ qs
    → Pairwise ◌≢◌ (add_partitions mount_root ps qs)
unfolding add_partitions
add_partitions-Pairwise mount_root [] qs h = h
add_partitions-Pairwise mount_root (p ∷ ps) qs h =
    add_partitions-Pairwise mount_root ps (add_partition mount_root p qs)
      (add_partition-Pairwise mount_root p qs h)

add_disks-Pairwise :
    (mount_root : Text) (ds : List DiskInfo) (qs : List Text)
    → Pairwise ◌≢◌ qs
    → Pairwise ◌≢◌ (add_disks mount_root ds qs)
unfolding add_disks
add_disks-Pairwise mount_root [] qs h = h
add_disks-Pairwise mount_root (d ∷ ds) qs h =
    add_disks-Pairwise mount_root ds (add_partitions mount_root d.partitions qs)
      (add_partitions-Pairwise mount_root d.partitions qs h)

-- No path is trimmed twice.
pub mounted_guest_paths-Pairwise :
    (mount_root : Text) (disks : List DiskInfo)
    → Pairwise ◌≢◌ (mounted_guest_paths mount_root disks)
unfolding mounted_guest_paths
mounted_guest_paths-Pairwise mount_root disks =
    sort-Pairwise text_less ◌≢◌ (λ x y n e. n (sym e))
      (add_disks mount_root disks (mount_root ∷ []))
      (add_disks-Pairwise mount_root disks (mount_root ∷ []) (tt, tt))
