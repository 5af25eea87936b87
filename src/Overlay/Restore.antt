-- ===== src/Overlay/Restore.antt =====
-- The paths of the disks after `RunWithOverlay`.
use kc_utils.Base.{
  ℕ, ◌+◌, ◌≡◌, ◌≢◌, refl, ◌⊎◌, inl, inr, Bool, true, false, ◌||◌, List, [], ◌∷◌, ◌++◌, Option, none,
  some, arith, ◌==◌, All, All-append, Bool-cases,
}
use kc_utils.Text.{Text}
use kc_utils.Overlay.{
  Disk, Overlay, World, QemuImg, update, restore_path, restore_paths, discard_overlays,
  with_backing, overlay_of, create_from, create_overlays, commit_from, commit_overlays,
  after_commit, after_fn, after_create, run_with_overlay, remove_file,
}

-- The overlay belongs to the disk behind this pointer.
abbrev is_over : ℕ → Overlay → Bool
is_over p o = elim o.disk [ none ↦ false | some q ↦ p == q ]

abbrev covered : ℕ → List Overlay → Bool
covered p [] = false
covered p (o ∷ os) = is_over p o || covered p os

covered-append :
    (p : ℕ) (os : List Overlay) (o : Overlay)
    → covered p (os ++ o ∷ []) ≡ (covered p os || is_over p o)
covered-append p [] o = ground arith
covered-append p (x ∷ os) o = ground (arith, covered-append p os o)

module _ (path0 : ℕ → Text) where
  -- The overlay lies over the image that its disk had at first.
  abbrev IsOver : Overlay → Type 0
  IsOver o = (p : ℕ) → o.disk ≡ some p → o.backing_path ≡ path0 p

  -- A disk that no overlay covers has its own path, and a backing path is never another one.
  record IsTracked (os : List Overlay) (disks : ℕ → Disk) : Type 0 where
    own : (p : ℕ) → covered p os ≡ false → (disks p).path ≡ path0 p
    backing :
        (p : ℕ)
        → ((disks p).backing_path ≡ []) × (covered p os ≡ false)
          ⊎ ((disks p).backing_path ≡ path0 p)
    over : All IsOver os

  restore_paths-path :
      (os : List Overlay) (disks : ℕ → Disk) (p : ℕ)
      → All IsOver os
      → (covered p os ≡ false → (disks p).path ≡ path0 p)
      → (restore_paths os disks p).path ≡ path0 p
  unfolding restore_paths
  restore_paths-path [] disks p h k = k refl
  restore_paths-path (o ∷ os) disks p h k =
      restore_paths-path os (restore_path o disks) p h.1 (λ e. ground (arith, h.0 p, k))

  discard_overlays-path :
      (os : List Overlay) (w : World) (p : ℕ)
      → IsTracked os w.disks
      → ((discard_overlays os w).disks p).path ≡ path0 p
  unfolding discard_overlays
  discard_overlays-path [] w p t = t.own p refl
  discard_overlays-path (o ∷ os) w p t = restore_paths-path (o ∷ os) w.disks p t.over (t.own p)

  module _ (named : (p : ℕ) → path0 p ≢ []) where
    with_backing-path0 :
        (os : List Overlay) (disks : ℕ → Disk) (p : ℕ)
        → IsTracked os disks
        → (with_backing (disks p)).backing_path ≡ path0 p
    with_backing-path0 os disks p t = ground (arith, t.backing p, t.own p, named p)

    -- Setting the backing path keeps track.
    track_backing :
        (os : List Overlay) (disks : ℕ → Disk) (p : ℕ)
        → IsTracked os disks
        → IsTracked os (update disks p (with_backing (disks p)))
    track_backing os disks p t =
        let known = with_backing-path0 os disks p t in
        record {
          own = λ q e. ground (arith, t.own q e, t.own p);
          backing = λ q. ground (arith, t.backing q, known);
          over = t.over;
        }

    overlay_of-IsOver :
        (workdir : Text) (i p : ℕ) (d : Disk)
        → d.backing_path ≡ path0 p
        → IsOver (overlay_of workdir i p d)
    overlay_of-IsOver workdir i p d h q e = ground arith

    track_overlay :
        (workdir : Text) (i p : ℕ) (os : List Overlay) (disks : ℕ → Disk)
        → IsTracked os disks
        → let d = with_backing (disks p) in
          let o = overlay_of workdir i p d in
          IsTracked
            (os ++ o ∷ [])
            (update disks p (record d { path = o.path; overlay_path = o.path }))
    track_overlay workdir i p os disks t =
        let d = with_backing (disks p) in
        let o = overlay_of workdir i p d in
        let known = with_backing-path0 os disks p t in
        record {
          own = λ q e. ground (arith, covered-append q os o, t.own q);
          backing = λ q. ground (arith, covered-append q os o, t.backing q, known);
          over = All-append IsOver os (o ∷ []) t.over (overlay_of-IsOver workdir i p d known, tt);
        }

    abbrev Tracked : Option (List Overlay) × World → Type 0
    Tracked (none, w) = (p : ℕ) → (w.disks p).path ≡ path0 p
    Tracked (some os, w) = IsTracked os w.disks

    create_from-Tracked :
        (qemu : QemuImg) (workdir : Text) (refs : List ℕ) (i : ℕ) (os : List Overlay) (w : World)
        → IsTracked os w.disks
        → Tracked (create_from qemu workdir refs i os w)
    unfolding create_from
    create_from-Tracked qemu workdir [] i os w t = t
    create_from-Tracked qemu workdir (p ∷ refs) i os w t = elim (Bool-cases (qemu.create_fails i)) [
      | inl e ↦ rw (e, create_from) λ q. discard_overlays-path os _ q (track_backing os w.disks p t)
      | inr e ↦
          rw (e, create_from)
            (create_from-Tracked qemu workdir refs (i + 1) _ _
              (track_overlay workdir i p os w.disks t))
    ]

    commit_from-path :
        (qemu : QemuImg) (all os : List Overlay) (w : World) (p : ℕ)
        → IsTracked all w.disks
        → ((commit_from qemu all os w).1.disks p).path ≡ path0 p
    unfolding commit_from
    commit_from-path qemu all [] w p t = restore_paths-path all w.disks p t.over (t.own p)
    commit_from-path qemu all (o ∷ os) w p t = ground (
      arith,
      discard_overlays-path all w p t,
      commit_from-path qemu all os
          (record w {
            commits = w.commits ++ (o.path, o.backing_path) ∷ [];
            files = remove_file o.path w.files;
          })
          p t,
    )

    -- Discarding keeps what already points to its own image.
    discard_overlays-again :
        (os : List Overlay) (w : World) (p : ℕ)
        → All IsOver os
        → (w.disks p).path ≡ path0 p
        → ((discard_overlays os w).disks p).path ≡ path0 p
    unfolding discard_overlays
    discard_overlays-again [] w p h e = e
    discard_overlays-again (o ∷ os) w p h e = restore_paths-path (o ∷ os) w.disks p h (λ _. e)

    after_commit-path :
        (qemu : QemuImg) (os : List Overlay) (r : Bool × World) (p : ℕ)
        → All IsOver os
        → (r.1.disks p).path ≡ path0 p
        → ((after_commit qemu os r).1.disks p).path ≡ path0 p
    after_commit-path qemu os (true, w) p h e = e
    after_commit-path qemu os (false, w) p h e = discard_overlays-again os w p h e

    after_fn-path :
        (qemu : QemuImg) (os : List Overlay) (r : Bool × World) (p : ℕ)
        → IsTracked os r.1.disks
        → ((after_fn qemu os r).1.disks p).path ≡ path0 p
    unfolding commit_overlays
    after_fn-path qemu os (true, w) p t =
        after_commit-path qemu os (commit_overlays qemu os w) p t.over
          (commit_from-path qemu os os w p t)
    after_fn-path qemu os (false, w) p t = discard_overlays-path os w p t

    after_create-path :
        (qemu : QemuImg) (fn : World → Bool × World)
        → ((w : World) → (fn w).1.disks ≡ w.disks)
        → (r : Option (List Overlay) × World) (p : ℕ) → Tracked r
        → ((after_create qemu fn r).1.disks p).path ≡ path0 p
    after_create-path qemu fn calm (none, w) p t = t p
    after_create-path qemu fn calm (some os, w) p t = after_fn-path qemu os (fn w) p (rw (calm w) t)

-- Every disk points to its own image when `RunWithOverlay` is done: whatever the calls of `qemu-img`
-- and the given function answer, if that function leaves the disks alone, and at the start each disk
-- has a path and no backing path but its own.
pub run_with_overlay-restores :
    (qemu : QemuImg) (workdir : Text) (refs : List ℕ) (fn : World → Bool × World) (w : World)
    → ((v : World) → (fn v).1.disks ≡ v.disks)
    → ((p : ℕ) → (w.disks p).path ≢ [])
    → ((p : ℕ) → ((w.disks p).backing_path ≡ []) ⊎ ((w.disks p).backing_path ≡ (w.disks p).path))
    → (p : ℕ) → ((run_with_overlay qemu workdir refs fn w).1.disks p).path ≡ (w.disks p).path
unfolding run_with_overlay create_overlays
run_with_overlay-restores qemu workdir refs fn w calm named backed p =
    let path0 : ℕ → Text = λ q. (w.disks q).path in
    after_create-path path0 named qemu fn calm _ p (
      create_from-Tracked path0 named qemu workdir refs 0 [] w (record {
        own = λ q e. refl;
        backing = λ q. elim (backed q) [ inl e ↦ inl (e, refl) | inr e ↦ inr e ];
        over = tt;
      }))
