-- ===== src/MountSpecs/Merged.antt =====
-- The merge of mounts, seen as a table from mount points to devices.
use kc_utils.Base.{
  ◌≡◌, refl, sym, ap, ◌∙◌, inl, inr, true, List, [], ◌∷◌, ◌++◌, Option, none, some, arith,
  if◌then◌else◌, Bool-cases,
}
use kc_utils.Text.{Text, text_eq}
use kc_utils.Text.Laws.{text_eq_iff}
use kc_utils.MountSpecs.{GfsMountSpec}
use kc_utils.MountSpecs.Effective.{is_mounted, merge_onto, merge_mount_specs}

-- The device that is mounted there: the first one.
abbrev pub device_at : Text → List GfsMountSpec → Option Text
device_at mp [] = none
device_at mp (s ∷ specs) = if text_eq s.guest_mount mp then some s.device else device_at mp specs

-- The table of the first, and that of the second where the first has nothing.
abbrev pub over : Option Text → Option Text → Option Text
over none other = other
over (some d) other = some d

over_assoc : (a b c : Option Text) → over (over a b) c ≡ over a (over b c)
over_assoc none b c = refl
over_assoc (some a) b c = refl

over_none : (a : Option Text) → over a none ≡ a
over_none none = refl
over_none (some a) = refl

device_at-append :
    (mp : Text) (xs ys : List GfsMountSpec)
    → device_at mp (xs ++ ys) ≡ over (device_at mp xs) (device_at mp ys)
device_at-append mp [] ys = refl
device_at-append mp (s ∷ xs) ys = elim (Bool-cases (text_eq s.guest_mount mp)) [
  | inl e ↦ rw e refl
  | inr e ↦ rw e (device_at-append mp xs ys)
]

-- Where something is mounted, the table has a device.
over-mounted :
    (mp : Text) (xs : List GfsMountSpec) (other : Option Text)
    → is_mounted mp xs ≡ true
    → over (device_at mp xs) other ≡ device_at mp xs
unfolding is_mounted
over-mounted mp [] other h = absurd cc
over-mounted mp (s ∷ xs) other h = elim (Bool-cases (text_eq s.guest_mount mp)) [
  | inl e ↦ rw e refl
  | inr e ↦ rw e (over-mounted mp xs other (ground (arith, h, e)))
]

-- One more mount point, which is passed over if there is one already.
device_at-add :
    (mp : Text) (s : GfsMountSpec) (merged : List GfsMountSpec)
    → device_at mp (if is_mounted s.guest_mount merged then merged else merged ++ s ∷ [])
      ≡ over (device_at mp merged) (device_at mp (s ∷ []))
device_at-add mp s merged = elim (Bool-cases (is_mounted s.guest_mount merged)) [
  | inl e ↦ rw e (elim (Bool-cases (text_eq s.guest_mount mp)) [
    | inl f ↦ sym (
        over-mounted mp merged _
          (ap (λ m. is_mounted m merged) (sym ((text_eq_iff s.guest_mount mp).0 f)) ∙ e))
    | inr f ↦ rw f (sym (over_none (device_at mp merged)))
  ])
  | inr e ↦ rw e (device_at-append mp merged (s ∷ []))
]

device_at-merge_onto :
    (mp : Text) (merged extra : List GfsMountSpec)
    → device_at mp (merge_onto merged extra) ≡ over (device_at mp merged) (device_at mp extra)
unfolding merge_onto
device_at-merge_onto mp merged [] = sym (over_none (device_at mp merged))
device_at-merge_onto mp merged (s ∷ extra) =
    device_at-merge_onto mp (if is_mounted s.guest_mount merged then merged else merged ++ s ∷ [])
      extra
    ∙ ap (λ o. over o (device_at mp extra)) (device_at-add mp s merged)
    ∙ over_assoc (device_at mp merged) (device_at mp (s ∷ [])) (device_at mp extra)
    ∙ ap (over (device_at mp merged)) (sym (device_at-append mp (s ∷ []) extra))

-- The merge is that of two tables: at each mount point it has the device of the mounts of prepare, and
-- that of the inspection only where prepare mounts nothing.
pub device_at-merge_mount_specs :
    (mp : Text) (known extra : List GfsMountSpec)
    → device_at mp (merge_mount_specs known extra) ≡ over (device_at mp known) (device_at mp extra)
unfolding merge_mount_specs
device_at-merge_mount_specs mp known extra = device_at-merge_onto mp known extra
