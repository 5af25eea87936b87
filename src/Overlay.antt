-- ===== src/Overlay.antt =====
-- pkg/prepare/guest/overlay: qcow2 overlays over the disks of an in-place conversion.
--
-- The disks are structs behind pointers, which several overlays may share: `World` holds a store of
-- them. It also holds the files that stand in the work directory, and the commits that were made.
-- `QemuImg` says which calls of `qemu-img` fail, and whether a failed `create` leaves its file.
pub mod Restore
pub mod Commit
use kc_utils.Base.{
  ℕ, zero, suc, ◌+◌, ◌/◌, ◌%◌, Bool, true, false, not, ◌||◌, List, [], ◌∷◌, ◌++◌, map, Option, none,
  some, ◌==◌, if◌then◌else◌,
}
use kc_utils.FilePath.{join_path, base}
use kc_utils.Text.{Text, codes, text_eq, is_empty}

pub record Disk : Type 0 where
  pub backing_path : Text
  pub path : Text
  pub overlay_path : Text

-- `disk` is the pointer, or nil.
pub record Overlay : Type 0 where
  pub path : Text
  pub backing_path : Text
  pub disk : Option ℕ

pub record World : Type 0 where
  pub disks : ℕ → Disk
  pub files : List Text
  pub commits : List (Text × Text)

pub record QemuImg : Type 0 where
  pub create_fails : ℕ → Bool
  pub create_leaves : ℕ → Bool
  pub commit_fails : Text → Bool

abbrev pub update : (ℕ → Disk) → ℕ → Disk → ℕ → Disk
update disks p d q = if q == p then d else disks q

-- `os.Remove`
unfoldable pub remove_file : Text → List Text → List Text
remove_file p [] = []
remove_file p (f ∷ fs) = let rest = remove_file p fs in if text_eq f p then rest else f ∷ rest

abbrev pub add_file : Text → List Text → List Text
add_file p fs = p ∷ fs

-- `%d`, with fuel for the digits.
unfoldable pub digits : ℕ → ℕ → Text → Text
digits zero n acc = acc
digits (suc fuel) n acc =
    let d = (b'0' + n % 10) ∷ acc in
    let rest = digits fuel (n / 10) d in if n / 10 == 0 then d else rest

unfoldable pub decimal : ℕ → Text
unfolding digits
decimal n = digits (n + 1) n []

abbrev pub underscore : ℕ → ℕ
underscore c = if c == b'/' || c == b':' then b'_' else c

abbrev pub or_disk : Text → Text
or_disk [] = codes "disk"
or_disk (c ∷ s) = c ∷ s

-- `overlayFilename`
unfoldable pub overlay_filename : Text → ℕ → Text
overlay_filename backing index =
    codes "overlay-" ++ (decimal index ++ (codes "-" ++ or_disk (map underscore (base backing))))

abbrev pub restore_disk : Overlay → Disk → Disk
restore_disk o d = record d { path = o.backing_path; overlay_path = [] }

abbrev pub restore_path : Overlay → (ℕ → Disk) → ℕ → Disk
restore_path o disks = elim o.disk [
  | none ↦ disks
  | some p ↦ update disks p (restore_disk o (disks p))
]

-- `restorePaths`
unfoldable pub restore_paths : List Overlay → (ℕ → Disk) → ℕ → Disk
restore_paths [] disks = disks
restore_paths (o ∷ os) disks = restore_paths os (restore_path o disks)

unfoldable pub remove_files : List Overlay → List Text → List Text
unfolding remove_file
remove_files [] fs = fs
remove_files (o ∷ os) fs = remove_files os (remove_file o.path fs)

-- `DiscardOverlays`
unfoldable pub discard_overlays : List Overlay → World → World
discard_overlays [] w = w
discard_overlays (o ∷ os) w = record w {
  files = remove_files (o ∷ os) w.files;
  disks = restore_paths (o ∷ os) w.disks;
}

-- The disk with its `BackingPath` set.
abbrev pub with_backing : Disk → Disk
with_backing d = if is_empty d.backing_path then record d { backing_path = d.path } else d

abbrev pub overlay_of : Text → ℕ → ℕ → Disk → Overlay
overlay_of workdir i p d = record {
  path = join_path (workdir ∷ (overlay_filename d.backing_path i ++ codes ".qcow2") ∷ []);
  backing_path = d.backing_path;
  disk = some p;
}

module _ (qemu : QemuImg) where
  -- `CreateOverlays` from the disk with the index `i` on, behind the overlays that there are.
  unfoldable pub create_from :
      Text → List ℕ → ℕ → List Overlay → World → Option (List Overlay) × World
  create_from workdir [] i overlays w = (some overlays, w)
  create_from workdir (p ∷ ps) i overlays w =
      let d = with_backing (w.disks p) in
      let o = overlay_of workdir i p d in
      let failed = discard_overlays overlays (record w {
        disks = update w.disks p d;
        files =
            remove_file o.path (if qemu.create_leaves i then add_file o.path w.files else w.files);
      }) in
      let rest = create_from workdir ps (i + 1) (overlays ++ o ∷ []) (record w {
        disks = update w.disks p (record d { path = o.path; overlay_path = o.path });
        files = add_file o.path w.files;
      }) in
      if qemu.create_fails i then (none, failed) else rest

  -- `CreateOverlays`
  unfoldable pub create_overlays : Text → List ℕ → World → Option (List Overlay) × World
  create_overlays workdir disks w = create_from workdir disks 0 [] w

  -- The loop of `CommitOverlays` over the overlays that are left; `all` are all of them.
  unfoldable pub commit_from : List Overlay → List Overlay → World → Bool × World
  commit_from all [] w = (true, record w { disks = restore_paths all w.disks })
  commit_from all (o ∷ os) w =
      let rest = commit_from all os (record w {
        commits = w.commits ++ (o.path, o.backing_path) ∷ [];
        files = remove_file o.path w.files;
      }) in
      if qemu.commit_fails o.path then (false, discard_overlays all w) else rest

  -- `CommitOverlays`; `false` is an error.
  unfoldable pub commit_overlays : List Overlay → World → Bool × World
  commit_overlays overlays = commit_from overlays overlays

  abbrev pub after_commit : List Overlay → Bool × World → Bool × World
  after_commit overlays (true, w) = (true, w)
  after_commit overlays (false, w) = (false, discard_overlays overlays w)

  abbrev pub after_fn : List Overlay → Bool × World → Bool × World
  after_fn overlays (true, w) = after_commit overlays (commit_overlays overlays w)
  after_fn overlays (false, w) = (false, discard_overlays overlays w)

  abbrev pub after_create : (World → Bool × World) → Option (List Overlay) × World → Bool × World
  after_create fn (none, w) = (false, w)
  after_create fn (some overlays, w) = after_fn overlays (fn w)

  -- `RunWithOverlay`. The deferred call discards the overlays once more after a failed commit.
  unfoldable pub run_with_overlay : Text → List ℕ → (World → Bool × World) → World → Bool × World
  run_with_overlay workdir disks fn w = after_create fn (create_overlays workdir disks w)
