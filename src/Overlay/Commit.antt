-- ===== src/Overlay/Commit.antt =====
-- The commits of `RunWithOverlay`.
use mathlib.Core.List.{map-append}
use kc_utils.Base.{
  ℕ, ◌+◌, ◌≡◌, ◌≢◌, refl, sym, map, All, ◌==◌, ==_iff, if-holds, append-nil, append_assoc,
  if◌then◌else◌, ap, ◌∙◌, inl, inr, Bool, true, false, List, [], ◌∷◌, ◌++◌, Option, none, some,
  arith, Bool-cases,
}
use kc_utils.Text.{Text, codes, is_empty}
use kc_utils.FilePath.{join_path}
use kc_utils.Overlay.{
  Disk, Overlay, World, QemuImg, update, add_file, overlay_filename, discard_overlays, with_backing,
  overlay_of, create_from, create_overlays, commit_from, commit_overlays, after_commit, after_fn,
  after_create, run_with_overlay,
}

discard_overlays-commits :
    (os : List Overlay) (w : World) → (discard_overlays os w).commits ≡ w.commits
unfolding discard_overlays
discard_overlays-commits [] w = refl
discard_overlays-commits (o ∷ os) w = refl

-- The image that a disk is on before an overlay is put over it.
abbrev pub image_of : Disk → Text
image_of d = if is_empty d.backing_path then d.path else d.backing_path

-- The commits that the disks behind the pointers call for, in their order: for each an overlay in the work
-- directory, named after the disk's image and its place, into that image.
unfoldable pub image_commits : Text → (ℕ → Text) → ℕ → List ℕ → List (Text × Text)
image_commits workdir image i [] = []
image_commits workdir image i (p ∷ ps) =
    (join_path (workdir ∷ (overlay_filename (image p) i ++ codes ".qcow2") ∷ []), image p)
    ∷ image_commits workdir image (i + 1) ps

abbrev pair_of : Overlay → Text × Text
pair_of o = (o.path, o.backing_path)

-- Creating commits nothing.
abbrev IsUncommitted : World → Option (List Overlay) × World → Type 0
IsUncommitted w0 (o, w) = w.commits ≡ w0.commits

-- An overlay is made for each disk over its image.
abbrev Covers : List (Text × Text) → Option (List Overlay) → Type 0
Covers cs none = Unit
Covers cs (some os) = map pair_of os ≡ cs

create_from-IsUncommitted :
    (qemu : QemuImg) (workdir : Text) (refs : List ℕ) (i : ℕ) (os : List Overlay) (w w0 : World)
    → w.commits ≡ w0.commits
    → IsUncommitted w0 (create_from qemu workdir refs i os w)
unfolding create_from
create_from-IsUncommitted qemu workdir [] i os w w0 e = e
create_from-IsUncommitted qemu workdir (p ∷ refs) i os w w0 e =
    if-holds (IsUncommitted w0) (qemu.create_fails i) _ _ (λ f. discard_overlays-commits os _ ∙ e)
      (λ f. create_from-IsUncommitted qemu workdir refs (i + 1) _ _ w0 e)

with_backing-image_of : (d : Disk) → (with_backing d).backing_path ≡ image_of d
with_backing-image_of d = ground arith

image_of-backing : (d : Disk) (t : Text) → d.backing_path ≡ t → t ≢ [] → image_of d ≡ t
image_of-backing d t e n = ground (arith, e, n)

module _ (qemu : QemuImg) (workdir : Text) (image : ℕ → Text) where
  update-image_of :
      (disks : ℕ → Disk) (p q : ℕ) (d : Disk)
      → image_of d ≡ image p
      → image_of (disks p) ≡ image p
      → image_of (disks q) ≡ image q
      → image_of (update disks p d q) ≡ image q
  update-image_of disks p q d e f g = elim (Bool-cases (q == p)) [
    | inl k ↦ rw k (e ∙ ap image (sym ((==_iff q p).0 k)))
    | inr k ↦ rw k g
  ]

  create_from-Covers :
      (refs : List ℕ) (i : ℕ) (os : List Overlay) (w : World) (cs : List (Text × Text))
      → ((p : ℕ) → image_of (w.disks p) ≡ image p)
      → All (λ p. image p ≢ []) refs
      → map pair_of os ++ image_commits workdir image i refs ≡ cs
      → Covers cs (create_from qemu workdir refs i os w).0
  unfolding create_from image_commits
  create_from-Covers [] i os w cs h named e = sym (append-nil (map pair_of os)) ∙ e
  create_from-Covers (p ∷ refs) i os w cs h named e =
      let d = with_backing (w.disks p) in
      let o = overlay_of workdir i p d in
      let known : d.backing_path ≡ image p = with_backing-image_of (w.disks p) ∙ h p in
      let over : Disk = record d { path = o.path; overlay_path = o.path } in
      if-holds (λ (r : Option (List Overlay) × World). Covers cs r.0) (qemu.create_fails i) _ _
        (λ f. tt)
        (λ f.
          create_from-Covers refs (i + 1) (os ++ o ∷ [])
            (record w { disks = update w.disks p over; files = add_file o.path w.files }) cs
            (λ q.
              update-image_of w.disks p q over (image_of-backing over (image p) known named.0) (h p)
                (h q))
            named.1
            (ap (λ l. l ++ image_commits workdir image (i + 1) refs)
                (map-append pair_of os (o ∷ []))
              ∙ append_assoc (map pair_of os) (pair_of o ∷ [])
                  (image_commits workdir image (i + 1) refs)
              ∙ ap
                  (λ t.
                    map pair_of os
                    ++ (join_path (workdir ∷ (overlay_filename t i ++ codes ".qcow2") ∷ []), t)
                      ∷ image_commits workdir image (i + 1) refs)
                  known
              ∙ e))

commit_from-commits :
    (qemu : QemuImg) (all os : List Overlay) (w : World)
    → (commit_from qemu all os w).0 ≡ true
    → (commit_from qemu all os w).1.commits ≡ w.commits ++ map pair_of os
unfolding commit_from
commit_from-commits qemu all [] w = λ e. sym (append-nil w.commits)
commit_from-commits qemu all (o ∷ os) w = elim (Bool-cases (qemu.commit_fails o.path)) [
  | inl f ↦ rw (f, commit_from) λ e. ground (arith, e)
  | inr f ↦
      rw (f, commit_from)
        λ e.
          commit_from-commits qemu all os _ e
          ∙ append_assoc w.commits (pair_of o ∷ []) (map pair_of os)
]

module _ (qemu : QemuImg) (fn : World → Bool × World)
    (calm : (v : World) → (fn v).1.commits ≡ v.commits) where
  after_commit-true :
      (os : List Overlay) (r : Bool × World)
      → (after_commit qemu os r).0 ≡ true
      → (r.0 ≡ true) × ((after_commit qemu os r).1.commits ≡ r.1.commits)
  after_commit-true os (true, w) e = (refl, refl)
  after_commit-true os (false, w) e = ground (arith, e)

  after_fn-commits :
      (os : List Overlay) (r : Bool × World)
      → (after_fn qemu os r).0 ≡ true
      → (after_fn qemu os r).1.commits ≡ r.1.commits ++ map pair_of os
  unfolding commit_overlays
  after_fn-commits os (true, w) e =
      let known = after_commit-true os (commit_overlays qemu os w) e in
      known.1 ∙ commit_from-commits qemu os os w known.0
  after_fn-commits os (false, w) e = ground (arith, e)

  after_fn-fails :
      (os : List Overlay) (r : Bool × World)
      → r.0 ≡ false
      → ((after_fn qemu os r).0 ≡ false) × ((after_fn qemu os r).1.commits ≡ r.1.commits)
  after_fn-fails os (true, w) e = ground (arith, e)
  after_fn-fails os (false, w) e = (refl, discard_overlays-commits os w)

  after_create-commits :
      (cs : List (Text × Text)) (w0 : World) (r : Option (List Overlay) × World)
      → IsUncommitted w0 r
      → Covers cs r.0
      → (after_create qemu fn r).0 ≡ true
      → (after_create qemu fn r).1.commits ≡ w0.commits ++ cs
  after_create-commits cs w0 (none, w) h k e = ground (arith, e)
  after_create-commits cs w0 (some os, w) h k e =
      after_fn-commits os (fn w) e ∙ rw (calm w, h, k) refl

  after_create-commits_nothing :
      ((v : World) → (fn v).0 ≡ false)
      → (w0 : World) (r : Option (List Overlay) × World) → IsUncommitted w0 r
      → ((after_create qemu fn r).0 ≡ false) × ((after_create qemu fn r).1.commits ≡ w0.commits)
  after_create-commits_nothing fails w0 (none, w) h = (refl, h)
  after_create-commits_nothing fails w0 (some os, w) h =
      let known = after_fn-fails os (fn w) (fails w) in (known.0, known.1 ∙ calm w ∙ h)

-- A run that answers no error has made one commit for each given disk, in their order: of the overlay that
-- is named after the disk's image and its place, into that image. The image is the disk's backing path,
-- or its path where it has none; the disks have one, and the given function makes no commit.
pub run_with_overlay-commits :
    (qemu : QemuImg) (workdir : Text) (refs : List ℕ) (fn : World → Bool × World) (w : World)
    → ((v : World) → (fn v).1.commits ≡ v.commits)
    → All (λ p. image_of (w.disks p) ≢ []) refs
    → (run_with_overlay qemu workdir refs fn w).0 ≡ true
    → (run_with_overlay qemu workdir refs fn w).1.commits
      ≡ w.commits ++ image_commits workdir (λ p. image_of (w.disks p)) 0 refs
unfolding run_with_overlay create_overlays
run_with_overlay-commits qemu workdir refs fn w calm named e =
    let image : ℕ → Text = λ p. image_of (w.disks p) in
    after_create-commits qemu fn calm (image_commits workdir image 0 refs) w _
      (create_from-IsUncommitted qemu workdir refs 0 [] w w refl)
      (create_from-Covers qemu workdir image refs 0 [] w _ (λ p. refl) named refl) e

-- When the given function answers an error and commits nothing itself, the run answers an error and
-- commits nothing.
pub run_with_overlay-commits_nothing :
    (qemu : QemuImg) (workdir : Text) (refs : List ℕ) (fn : World → Bool × World) (w : World)
    → ((v : World) → (fn v).1.commits ≡ v.commits)
    → ((v : World) → (fn v).0 ≡ false)
    → ((run_with_overlay qemu workdir refs fn w).0 ≡ false)
      × ((run_with_overlay qemu workdir refs fn w).1.commits ≡ w.commits)
unfolding run_with_overlay create_overlays
run_with_overlay-commits_nothing qemu workdir refs fn w calm fails =
    after_create-commits_nothing qemu fn calm fails w _
      (create_from-IsUncommitted qemu workdir refs 0 [] w w refl)
