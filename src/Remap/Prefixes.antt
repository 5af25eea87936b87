-- ===== src/Remap/Prefixes.antt =====
-- The calls of `RemapDevice` in turn against the first prefix that fits.
use kc_utils.Base.{
  ◌≡◌, refl, ap, ap₂, ◌∙◌, inl, inr, false, List, [], ◌∷◌, ◌++◌, map, arith, if◌then◌else◌, All,
  Bool-cases,
}
use kc_utils.Text.{Text, has_prefix}
use kc_utils.ConfigEdit.Fstab.{Entry, is_skipped, remap_field, remap_entry_device, remap_device}
use kc_utils.Remap.{Prefixes, standard_prefixes, replace_first, or_device, remap_devices}

-- No prefix of the list fits the value.
abbrev pub IsSettled : Prefixes → Text → Type 0
IsSettled ps value = All (λ q. has_prefix value q.0 ≡ false) ps

-- What a prefix is replaced by fits no later one.
abbrev IsOrdered : Prefixes → Type 0
IsOrdered [] = Unit
IsOrdered (p ∷ ps) = ((s : Text) → IsSettled ps (p.1 ++ s)) × IsOrdered ps

standard_prefixes-IsOrdered : IsOrdered standard_prefixes
unfolding has_prefix
standard_prefixes-IsOrdered = (
  (λ s. (refl, (refl, (refl, (refl, tt))))),
  (
    (λ s. (refl, (refl, (refl, tt)))),
    ((λ s. (refl, (refl, tt))), ((λ s. (refl, tt)), ((λ s. tt), tt))),
  ),
)

-- One entry under `RemapDevice` for each prefix in turn.
abbrev remap_in_turn : Prefixes → Entry → Entry
remap_in_turn [] e = e
remap_in_turn (p ∷ ps) e = remap_in_turn ps (remap_entry_device p.0 p.1 e)

map-map :
    (p : Text × Text) (ps : Prefixes) (es : List Entry)
    → map (remap_in_turn ps) (map (remap_entry_device p.0 p.1) es) ≡ map (remap_in_turn (p ∷ ps)) es
map-map p ps [] = refl
map-map p ps (e ∷ es) = ap (◌∷◌ (remap_in_turn (p ∷ ps) e)) (map-map p ps es)

map-in_turn-nil : (es : List Entry) → es ≡ map (remap_in_turn []) es
map-in_turn-nil [] = refl
map-in_turn-nil (e ∷ es) = ap (◌∷◌ e) (map-in_turn-nil es)

remap_devices-map :
    (ps : Prefixes) (es : List Entry) → remap_devices ps es ≡ map (remap_in_turn ps) es
unfolding remap_devices remap_device
remap_devices-map [] es = map-in_turn-nil es
remap_devices-map (p ∷ ps) es =
    remap_devices-map ps (map (remap_entry_device p.0 p.1) es) ∙ map-map p ps es

remap_entry_device-settled :
    (e : Entry) (old new : Text)
    → has_prefix e.device old ≡ false
    → remap_entry_device old new e ≡ e
unfolding remap_field remap_entry_device
remap_entry_device-settled e old new h = ground arith

remap_in_turn-settled : (ps : Prefixes) (e : Entry) → IsSettled ps e.device → remap_in_turn ps e ≡ e
remap_in_turn-settled [] e h = refl
remap_in_turn-settled (p ∷ ps) e h =
    ap (remap_in_turn ps) (remap_entry_device-settled e p.0 p.1 h.0)
    ∙ remap_in_turn-settled ps e h.1

-- One entry under the first prefix that fits.
abbrev pub remap_once : Prefixes → Entry → Entry
remap_once ps e =
    if is_skipped e then e else record e { device = or_device (replace_first ps e.device) e.device }

remap_in_turn-once :
    (ps : Prefixes) (e : Entry) → IsOrdered ps → remap_in_turn ps e ≡ remap_once ps e
unfolding replace_first remap_entry_device remap_field
remap_in_turn-once [] e h = ground arith
remap_in_turn-once (p ∷ ps) e h = elim (Bool-cases (is_skipped e)) [
  | inl k ↦ rw k (remap_in_turn-once ps e h.1 ∙ ground (arith, k))
  | inr k ↦ elim (Bool-cases (has_prefix e.device p.0)) [
    | inl f ↦ rw (k, f) (remap_in_turn-settled ps _ (h.0 _))
    | inr f ↦ rw (k, f) (remap_in_turn-once ps e h.1 ∙ rw k refl)
  ]
]

map-once :
    (ps : Prefixes) (es : List Entry)
    → IsOrdered ps
    → map (remap_in_turn ps) es ≡ map (remap_once ps) es
map-once ps [] h = refl
map-once ps (e ∷ es) h = ap₂ (◌∷◌) (remap_in_turn-once ps e h) (map-once ps es h)

-- The calls of `RemapDevice` for the remapper's prefixes, one after the other, do to each entry what
-- the first prefix that fits its device does: no device is renamed twice.
pub remap_devices-first :
    (es : List Entry) → remap_devices standard_prefixes es ≡ map (remap_once standard_prefixes) es
remap_devices-first es =
    remap_devices-map standard_prefixes es
    ∙ map-once standard_prefixes es standard_prefixes-IsOrdered
