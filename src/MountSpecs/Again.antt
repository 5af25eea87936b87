-- ===== src/MountSpecs/Again.antt =====
-- Asking for the specs of a session once more.
use kc_utils.Base.{
  ◌≡◌, refl, inl, inr, false, List, [], ◌∷◌, ◌++◌, Option, none, some, if-holds, Bool-cases,
}
use kc_utils.MountSpecs.{GfsMountSpec, preferred_root}
use kc_utils.MountSpecs.Effective.{
  is_mounted, merge_onto, merge_mount_specs, Session, Backend, discover_mountpoints, known_specs,
  with_extra, after_discovery, inspect_with, effective_mount_specs,
}

-- A merge keeps the first item.
merge_onto-cons :
    (s : GfsMountSpec) (merged extra : List GfsMountSpec)
    → (specs : List GfsMountSpec) × (merge_onto (s ∷ merged) extra ≡ s ∷ specs)
unfolding merge_onto
merge_onto-cons s merged [] = (merged, refl)
merge_onto-cons s merged (e ∷ extra) = elim (Bool-cases (is_mounted e.guest_mount (s ∷ merged))) [
  | inl f ↦ rw f (merge_onto-cons s merged extra)
  | inr f ↦ rw f (merge_onto-cons s (merged ++ e ∷ []) extra)
]

merge_mount_specs-ne :
    (specs : List GfsMountSpec) (e : GfsMountSpec) (extra : List GfsMountSpec)
    → (s : GfsMountSpec) × (rest : List GfsMountSpec) × (merge_mount_specs specs (e ∷ extra)
        ≡ s ∷ rest)
unfolding merge_mount_specs merge_onto is_mounted
merge_mount_specs-ne [] e extra = let r = merge_onto-cons e [] extra in (e, r.0, r.1)
merge_mount_specs-ne (s ∷ specs) e extra =
    let r = merge_onto-cons s specs (e ∷ extra) in (s, r.0, r.1)

-- An answer that is given again, from the state that it leaves.
abbrev IsStable : Option (List GfsMountSpec) × Backend → Type 0
IsStable (none, b) = Unit
IsStable (some specs, b) = effective_mount_specs b ≡ (some specs, b)

with_extra-IsStable :
    (b : Backend) (extra : List GfsMountSpec) → IsStable (with_extra b (known_specs b) extra)
unfolding effective_mount_specs
with_extra-IsStable b [] = refl
with_extra-IsStable b (e ∷ extra) =
    let (s, rest, f) = merge_mount_specs-ne (known_specs b) e extra in rw f refl

after_discovery-IsStable :
    (b : Backend) (o : Option (List GfsMountSpec)) → IsStable (after_discovery b (known_specs b) o)
after_discovery-IsStable b none = tt
after_discovery-IsStable b (some extra) = with_extra-IsStable b extra

inspect_with-IsStable :
    (o : Option Session) (b : Backend)
    → b.session ≡ o
    → b.inspect_done ≡ false
    → IsStable (inspect_with o b (known_specs b))
unfolding inspect_with effective_mount_specs
inspect_with-IsStable none b e f = simp (f, e) refl
inspect_with-IsStable (some session) b e f =
    after_discovery-IsStable b (discover_mountpoints session (preferred_root (known_specs b)))

effective_mount_specs-IsStable : (b : Backend) → IsStable (effective_mount_specs b)
unfolding effective_mount_specs
effective_mount_specs-IsStable b =
    if-holds IsStable b.inspect_done _ _ (λ e. simp e refl)
      (λ e. inspect_with-IsStable b.session b refl e)

-- Once a backend has answered its mounts, it answers the same again, from the state that it was left in,
-- and leaves that as it is: whether there was an inspection, and whatever it added.
pub effective_mount_specs-again :
    (b c : Backend) (specs : List GfsMountSpec)
    → effective_mount_specs b ≡ (some specs, c)
    → effective_mount_specs c ≡ (some specs, c)
effective_mount_specs-again b c specs e = rw e at (effective_mount_specs-IsStable b)
