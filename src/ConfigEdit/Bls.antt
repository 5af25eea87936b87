-- ===== src/ConfigEdit/Bls.antt =====
-- pkg/common/configedit/bls: the entries of the Boot Loader Specification.
use kc_utils.Base.{
  ◌||◌, List, [], ◌∷◌, ◌++◌, map, Option, none, some, if◌then◌else◌, ◌≡◌, ◌≢◌, arith, ◌∙◌, ap, sym,
  Bool-cases, inl, inr,
}
use kc_utils.Text.{Text, codes, text_eq, is_empty, has_prefix, split, trim_space, join}
use kc_utils.Text.Laws.{text_eq_iff, text_eq_refl}
use kc_utils.ConfigEdit.Fstab.{line_feed}
use kc_utils.ConfigEdit.Grub.{cut}

pub record Field : Type 0 where
  pub key : Text
  pub value : Text

-- `strings.SplitN(trimmed, " ", 2)`
abbrev pub field_of : Option (Text × Text) → Text → Field
field_of none line = record { key = line; value = [] }
field_of (some (k, v)) line = record { key = k; value = v }

unfoldable pub parse_lines : List Text → List Field
unfolding trim_space has_prefix cut
parse_lines [] = []
parse_lines (line ∷ lines) =
    let trimmed = trim_space line in
    let rest = parse_lines lines in
    if is_empty trimmed || has_prefix trimmed (codes "#")
    then rest
    else field_of (cut b' ' trimmed) trimmed ∷ rest

-- `Parse`
unfoldable pub parse : Text → List Field
unfolding parse_lines split
parse content = parse_lines (split line_feed content)

-- `Get`
unfoldable pub get : List Field → Text → Text
unfolding text_eq
get [] key = []
get (f ∷ fs) key = if text_eq f.key key then f.value else get fs key

-- `Set`
unfoldable pub set_value : List Field → Text → Text → List Field
unfolding text_eq
set_value [] key value = record { key = key; value = value } ∷ []
set_value (f ∷ fs) key value =
    let rest = set_value fs key value in
    if text_eq f.key key then record f { value = value } ∷ fs else f ∷ rest

abbrev pub print_field : Field → Text
print_field f = f.key ++ b' ' ∷ f.value

-- `String`
unfoldable pub to_string : List Field → Text
unfolding join
to_string fs = join (line_feed ∷ []) (map print_field fs) ++ line_feed ∷ []

get-set_self : (fs : List Field) (key value : Text) → get (set_value fs key value) key ≡ value
unfolding get set_value
get-set_self [] key value = ground (arith, text_eq_refl key)
get-set_self (f ∷ fs) key value = ground (arith, get-set_self fs key value)

get-set_other :
    (fs : List Field) (key other value : Text)
    → key ≢ other
    → get (set_value fs key value) other ≡ get fs other
unfolding get set_value
get-set_other [] key other value ne = ground (arith, text_eq_iff key other)
get-set_other (f ∷ fs) key other value ne =
    ground
      (arith, get-set_other fs key other value ne, text_eq_iff f.key key, text_eq_iff f.key other)

-- After `Set`, `Get` answers the value at the key, and at every other key what it answered before.
pub get-set_value :
    (fs : List Field) (key other value : Text)
    → get (set_value fs key value) other ≡ (if text_eq key other then value else get fs other)
get-set_value fs key other value = elim (Bool-cases (text_eq key other)) [
  | inl e ↦
      (let same = (text_eq_iff key other).0 e in
        rw e (ap (get (set_value fs key value)) (sym same) ∙ get-set_self fs key value))
  | inr e ↦ rw e (
      get-set_other fs key other value
        λ same. absurd (ground (arith, e, (text_eq_iff key other).1 same)))
]
