-- ===== src/Examples/Overlays.antt =====
-- pkg/prepare/guest/overlay with one disk.
use kc_utils.Base.{ℕ, ◌≡◌, ◌≢◌, refl, inl, Bool, true, false, [], ◌∷◌}
use kc_utils.Text.{codes}
use kc_utils.FilePath.{join_path, base}
use kc_utils.Overlay.{
  Disk, World, QemuImg, overlay_filename, decimal, run_with_overlay, create_overlays, create_from,
  commit_overlays, commit_from,
}
use kc_utils.Overlay.Restore.{run_with_overlay-restores}
use kc_utils.Overlay.Commit.{
  image_commits, run_with_overlay-commits, run_with_overlay-commits_nothing,
}

abbrev qemu : QemuImg
qemu = record { create_fails = λ i. false; create_leaves = λ i. false; commit_fails = λ p. false }

abbrev disk : Disk
disk = record { backing_path = []; path = codes "/d.img"; overlay_path = [] }

abbrev world : World
world = record { disks = λ p. disk; files = []; commits = [] }

abbrev succeed : World → Bool × World
succeed w = (true, w)

abbrev fail : World → Bool × World
fail w = (false, w)

named : (p : ℕ) → (world.disks p).path ≢ []
named p = λ e. cc

run_with_overlay-restores_example :
    ((run_with_overlay qemu (codes "/w") (0 ∷ []) succeed world).1.disks 0).path ≡ codes "/d.img"
run_with_overlay-restores_example =
    run_with_overlay-restores qemu (codes "/w") (0 ∷ []) succeed world (λ v. refl) named
      (λ p. inl refl) 0

succeeds : (run_with_overlay qemu (codes "/w") (0 ∷ []) succeed world).0 ≡ true
unfolding run_with_overlay create_overlays create_from commit_overlays commit_from
succeeds = refl

run_with_overlay-commits_example :
    (run_with_overlay qemu (codes "/w") (0 ∷ []) succeed world).1.commits
    ≡ (codes "/w/overlay-0-d.img.qcow2", codes "/d.img") ∷ []
unfolding image_commits overlay_filename join_path base decimal
run_with_overlay-commits_example =
    run_with_overlay-commits qemu (codes "/w") (0 ∷ []) succeed world (λ v. refl) (named 0, tt)
      succeeds

run_with_overlay-commits_nothing_example :
    ((run_with_overlay qemu (codes "/w") (0 ∷ []) fail world).0 ≡ false)
    × ((run_with_overlay qemu (codes "/w") (0 ∷ []) fail world).1.commits ≡ [])
run_with_overlay-commits_nothing_example =
    run_with_overlay-commits_nothing qemu (codes "/w") (0 ∷ []) fail world (λ v. refl) (λ v. refl)
