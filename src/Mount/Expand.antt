-- ===== src/Mount/Expand.antt =====
-- The mounts that a guest's /etc/fstab adds.
use kc_utils.Base.{
  ◌≡◌, ◌≢◌, refl, ap, sym, inl, inr, true, false, List, [], ◌∷◌, Option, none, some, arith,
  Bool-cases, All, All-append,
}
use kc_utils.Text.{Text, text_eq}
use kc_utils.Text.Laws.{text_eq_refl, text_eq_iff}
use kc_utils.FilePath.{slash}
use kc_utils.Sort.{by_key, Pairwise, Pairwise-last, sort-All, sort-Pairwise}
use kc_utils.ConfigEdit.Fstab.{Entry, device_entries}
use kc_utils.Mount.{
  MountSpec, Probe, PlanContext, Catalog, resolve, member, skip_mount_point, path_length,
  sort_specs, spec_of, Expansion, add_spec, expand_device, expand_entry, expand_entries,
  expand_linux,
}

abbrev Apart : MountSpec → MountSpec → Type 0
Apart s t = s.guest_mp ≢ t.guest_mp

member-ne : (t u : Text) (seen : List Text) → member t seen ≡ true → member u seen ≡ false → t ≢ u
member-ne t u seen h k e = absurd (ground (arith, h, k, ap (λ v. member v seen) e))

member-head : (t : Text) (seen : List Text) → member t (t ∷ seen) ≡ true
unfolding member
member-head t seen = rw (text_eq_refl t) refl

All-map-imp :
    (P Q : MountSpec → Type 0) (ss : List MountSpec)
    → ((s : MountSpec) → P s → Q s)
    → All P ss
    → All Q ss
All-map-imp P Q [] f h = tt
All-map-imp P Q (s ∷ ss) f h = (f s h.0, All-map-imp P Q ss f h.1)

module _ (root_dev : Text) where
  abbrev IsAway : MountSpec → Type 0
  IsAway s = (s.guest_mp ≢ slash) × (s.device_path ≢ root_dev)

  abbrev IsSeen : List Text → MountSpec → Type 0
  IsSeen seen s = member s.guest_mp seen ≡ true

  -- What the loop of `Expand` keeps.
  record IsExpansion (x : Expansion) : Type 0 where
    root_seen : member slash x.0 ≡ true
    listed : All (IsSeen x.0) x.1
    apart : Pairwise Apart x.1
    away : All IsAway x.1

  see : (mp : Text) (x : Expansion) → IsExpansion x → IsExpansion (mp ∷ x.0, x.1)
  unfolding member
  see mp x h = record {
    root_seen = ground (arith, h.root_seen);
    listed = All-map-imp (IsSeen x.0) (IsSeen (mp ∷ x.0)) x.1 (λ s k. ground (arith, k)) h.listed;
    apart = h.apart;
    away = h.away;
  }

  add_spec-IsExpansion :
      (dev mp : Text) (o : Option Text) (x : Expansion)
      → member mp x.0 ≡ false
      → dev ≢ root_dev
      → IsExpansion x
      → IsExpansion (add_spec dev mp o x)
  add_spec-IsExpansion dev mp none x e ne h = h
  add_spec-IsExpansion dev mp (some ft) x e ne h =
      let s = spec_of dev mp ft in
      let k = see mp x h in
      record {
        root_seen = k.root_seen;
        listed = All-append (IsSeen (mp ∷ x.0)) x.1 (s ∷ []) k.listed (member-head mp x.0, tt);
        apart = Pairwise-last Apart x.1 s h.apart (
            All-map-imp (IsSeen x.0) (λ t. Apart t s) x.1 (λ t g. member-ne t.guest_mp mp x.0 g e)
              h.listed);
        away =
            All-append IsAway x.1 (s ∷ []) h.away
              ((λ q. member-ne slash mp x.0 h.root_seen e (sym q), ne), tt);
      }

  expand_device-IsExpansion :
      (probe : Probe) (e : Entry) (o : Option Text) (x : Expansion)
      → member e.mount_point x.0 ≡ false
      → IsExpansion x
      → IsExpansion (expand_device probe root_dev e o x)
  unfolding expand_device
  expand_device-IsExpansion probe e none x f h = h
  expand_device-IsExpansion probe e (some dev) x f h = elim (Bool-cases (text_eq dev root_dev)) [
    | inl g ↦ rw g (see e.mount_point x h)
    | inr g ↦ rw g (
        add_spec-IsExpansion dev e.mount_point _ x f
          (λ same. absurd (ground (arith, g, (text_eq_iff dev root_dev).1 same))) h)
  ]

  expand_entry-IsExpansion :
      (probe : Probe) (c : Catalog) (e : Entry) (x : Expansion)
      → IsExpansion x
      → IsExpansion (expand_entry probe c root_dev e x)
  unfolding expand_entry
  expand_entry-IsExpansion probe c e x h =
      elim (Bool-cases (skip_mount_point e.mount_point e.fs_type)) [
        | inl f ↦ rw f h
        | inr f ↦ rw f (elim (Bool-cases (member e.mount_point x.0)) [
          | inl g ↦ rw g h
          | inr g ↦ rw g (expand_device-IsExpansion probe e (resolve probe c e.device) x g h)
        ])
      ]

  expand_entries-IsExpansion :
      (probe : Probe) (c : Catalog) (es : List Entry) (x : Expansion)
      → IsExpansion x
      → IsExpansion (expand_entries probe c root_dev es x)
  unfolding expand_entries
  expand_entries-IsExpansion probe c [] x h = h
  expand_entries-IsExpansion probe c (e ∷ es) x h =
      expand_entries-IsExpansion probe c es (expand_entry probe c root_dev e x)
        (expand_entry-IsExpansion probe c e x h)

  start-IsExpansion : IsExpansion (slash ∷ [], [])
  unfolding member text_eq
  start-IsExpansion = record { root_seen = refl; listed = tt; apart = tt; away = tt }

-- No two of the mounts that the entries of /etc/fstab add have the same mount point.
pub expand_linux-Pairwise :
    (probe : Probe) (ctx : PlanContext) (file : List Entry)
    → Pairwise (λ s t. s.guest_mp ≢ t.guest_mp) (expand_linux probe ctx file)
unfolding expand_linux sort_specs
expand_linux-Pairwise probe ctx file =
    sort-Pairwise (by_key path_length) Apart (λ s t h e. h (sym e)) _
      (expand_entries-IsExpansion ctx.root_device probe _ (device_entries file) _
        (start-IsExpansion ctx.root_device)).apart

-- None of the mounts that the entries of /etc/fstab add is at the root or of the root device.
pub expand_linux-All :
    (probe : Probe) (ctx : PlanContext) (file : List Entry)
    → All
        (λ s. (s.guest_mp ≢ slash) × (s.device_path ≢ ctx.root_device))
        (expand_linux probe ctx file)
unfolding expand_linux sort_specs
expand_linux-All probe ctx file =
    sort-All (by_key path_length) (IsAway ctx.root_device) _
      (expand_entries-IsExpansion ctx.root_device probe _ (device_entries file) _
        (start-IsExpansion ctx.root_device)).away
