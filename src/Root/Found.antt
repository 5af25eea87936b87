-- ===== src/Root/Found.antt =====
-- What discovery finds, against the answers of the probe.
use kc_utils.Base.{
  ℕ, ◌+◌, ◌≡◌, ◌≢◌, refl, sym, inl, inr, false, List, [], ◌∷◌, Option, none, some, arith,
  Bool-cases, All, All-append,
}
use kc_utils.Text.{Text}
use kc_utils.Disks.{PartitionInfo, DiskInfo}
use kc_utils.Root.{
  RootCandidate, Inspected, Scan, skip_fs_type, hit_or_miss, probe_device, discover_parts,
  discover_disks, discover_volume, discover_volumes, some_found, discover,
}

module _ (scan : Scan) where
  -- The probe of the device hit, as the candidate says, and its filesystem is not passed over.
  abbrev pub IsHit : RootCandidate → Type 0
  IsHit c =
      (skip_fs_type c.fs_type ≡ false)
      × ((found : Inspected) × (scan.probe c.device_path c.fs_type ≡ some (some found))
          × (c.os_type ≡ found.os_type)
          × (c.product_name ≡ found.product_name))

  hit_or_miss-IsHit :
      (device : Text) (di pi : ℕ) (ft : Text) (r : Option (Option Inspected))
      → scan.probe device ft ≡ r
      → skip_fs_type ft ≡ false
      → All IsHit (hit_or_miss device di pi ft r)
  hit_or_miss-IsHit device di pi ft none e s = tt
  hit_or_miss-IsHit device di pi ft (some none) e s = tt
  hit_or_miss-IsHit device di pi ft (some (some found)) e s = ((s, (found, e, refl, refl)), tt)

  probe_device-IsHit :
      (device : Text) (di pi : ℕ) (ft : Text)
      → skip_fs_type ft ≡ false
      → All IsHit (probe_device scan device di pi ft)
  unfolding probe_device
  probe_device-IsHit device di pi ft s =
      hit_or_miss-IsHit device di pi ft (scan.probe device ft) refl s

  discover_parts-IsHit : (di : ℕ) (ps : List PartitionInfo) → All IsHit (discover_parts scan di ps)
  unfolding discover_parts
  discover_parts-IsHit di [] = tt
  discover_parts-IsHit di (p ∷ ps) = elim (Bool-cases (skip_fs_type p.fs_type)) [
    | inl e ↦ rw (e, discover_parts) (discover_parts-IsHit di ps)
    | inr e ↦
        rw (e, discover_parts)
          (All-append IsHit _ _ (probe_device-IsHit p.device_path di p.index p.fs_type e)
            (discover_parts-IsHit di ps))
  ]

  discover_disks-IsHit : (di : ℕ) (ds : List DiskInfo) → All IsHit (discover_disks scan di ds)
  unfolding discover_disks
  discover_disks-IsHit di [] = tt
  discover_disks-IsHit di (d ∷ ds) =
      All-append IsHit _ _ (discover_parts-IsHit di d.partitions) (discover_disks-IsHit (di + 1) ds)

  discover_volume-IsHit : (lv : Text) (o : Option Text) → All IsHit (discover_volume scan lv o)
  unfolding discover_volume
  discover_volume-IsHit lv none = tt
  discover_volume-IsHit lv (some ft) = elim (Bool-cases (skip_fs_type ft)) [
    | inl e ↦ rw (e, discover_volume) tt
    | inr e ↦ rw (e, discover_volume) (probe_device-IsHit lv 0 0 ft e)
  ]

  discover_volumes-IsHit : (lvs : List Text) → All IsHit (discover_volumes scan lvs)
  unfolding discover_volumes
  discover_volumes-IsHit [] = tt
  discover_volumes-IsHit (lv ∷ lvs) =
      All-append IsHit _ _ (discover_volume-IsHit lv (scan.fs_type lv)) (discover_volumes-IsHit lvs)

some_found-All :
    (P : RootCandidate → Type 0) (xs cs : List RootCandidate)
    → some_found xs ≡ some cs
    → All P xs
    → (cs ≢ []) × All P cs
some_found-All P [] cs e h = absurd (ground (arith, e))
some_found-All P (x ∷ xs) cs e h = let same : x ∷ xs ≡ cs = cc in rw (sym same) ((λ n. cc), h)

-- If `Discover` answers candidates, there is one at least, and each has a filesystem that is not
-- passed over, on a device where the probe hit, with the operating system that the probe found.
pub discover-IsHit :
    (scan : Scan) (disks : List DiskInfo) (lvs : List Text) (cs : List RootCandidate)
    → discover scan disks lvs ≡ some cs
    → (cs ≢ []) × All (IsHit scan) cs
unfolding discover
discover-IsHit scan disks lvs cs e = some_found-All (IsHit scan) _ cs e (
    All-append (IsHit scan) _ _ (discover_disks-IsHit scan 0 disks)
      (discover_volumes-IsHit scan lvs))
