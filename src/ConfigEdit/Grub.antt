-- ===== src/ConfigEdit/Grub.antt =====
-- pkg/common/configedit/grub: the settings of /etc/default/grub.
--
-- The map `kv` is a list of pairs, the newest first, and answers the empty string for a missing key.
pub mod KernelArgs
use kc_utils.Base.{
  ℕ, zero, suc, ◌+◌, Bool, true, false, not, ◌||◌, ◌&&◌, List, [], ◌∷◌, ◌++◌, Option, none, some,
  ◌==◌, if◌then◌else◌,
}
use kc_utils.Text.{
  Text, codes, text_eq, is_empty, has_prefix, split, trim_space, fields, join, cons_head,
}
use kc_utils.ConfigEdit.Fstab.{line_feed}

pub record Config : Type 0 where
  pub lines : List Text
  pub kv : List (Text × Text)

-- `kv[key]`
unfoldable pub lookup : List (Text × Text) → Text → Text
unfolding text_eq
lookup [] key = []
lookup (b ∷ kv) key = if text_eq b.0 key then b.1 else lookup kv key

abbrev pub is_quote : ℕ → Bool
is_quote c = c == b'"' || c == 39

unfoldable pub trim_quotes_left : Text → Text
trim_quotes_left [] = []
trim_quotes_left (c ∷ s) = let rest = trim_quotes_left s in if is_quote c then rest else c ∷ s

unfoldable pub trim_quotes_right : Text → Text
trim_quotes_right [] = []
trim_quotes_right (c ∷ s) =
    let rest = trim_quotes_right s in if is_quote c && is_empty rest then [] else c ∷ rest

-- `strings.Trim(s, "\"'")`
unfoldable pub trim_quotes : Text → Text
unfolding trim_quotes_left trim_quotes_right
trim_quotes s = trim_quotes_right (trim_quotes_left s)

abbrev pub cons_fst : ℕ → Option (Text × Text) → Option (Text × Text)
cons_fst c none = none
cons_fst c (some (a, b)) = some (c ∷ a, b)

-- The text before the first such byte, and the text behind it.
unfoldable pub cut : ℕ → Text → Option (Text × Text)
cut b [] = none
cut b (c ∷ s) = let rest = cut b s in if c == b then some ([], s) else cons_fst c rest

-- The setting of a line: nothing if there is no `=`, or no key before it.
abbrev pub setting : Option (Text × Text) → List (Text × Text) → List (Text × Text)
unfolding trim_quotes
setting none kv = kv
setting (some ([], v)) kv = kv
setting (some (c ∷ k, v)) kv = (c ∷ k, trim_quotes v) ∷ kv

unfoldable pub parse_lines : List Text → List (Text × Text) → List (Text × Text)
unfolding trim_space has_prefix cut
parse_lines [] kv = kv
parse_lines (line ∷ lines) kv =
    let trimmed = trim_space line in
    parse_lines lines (
      if is_empty trimmed || has_prefix trimmed (codes "#")
      then kv
      else setting (cut b'=' trimmed) kv)

-- `Parse`
unfoldable pub parse : Text → Config
unfolding parse_lines split
parse content = let ls = split line_feed content in record { lines = ls; kv = parse_lines ls [] }

-- `Get`
unfoldable pub get : Config → Text → Text
unfolding lookup
get c key = lookup c.kv key

abbrev pub quoted : Text → Text → Text
quoted key value = key ++ (codes "=\"" ++ (value ++ codes "\""))

-- The first line that sets the key is replaced; without one, a line is added at the end.
unfoldable pub set_line : Text → Text → List Text → List Text
unfolding trim_space has_prefix
set_line key value [] = quoted key value ∷ []
set_line key value (l ∷ ls) =
    let rest = set_line key value ls in
    if has_prefix (trim_space l) (key ++ codes "=") then quoted key value ∷ ls else l ∷ rest

-- `Set`
unfoldable pub set_value : Config → Text → Text → Config
unfolding set_line
set_value c key value = record { lines = set_line key value c.lines; kv = (key, value) ∷ c.kv }

abbrev pub cmdline : Text
cmdline = codes "GRUB_CMDLINE_LINUX"

-- `GetKernelArgs`
unfoldable pub get_kernel_args : Config → List Text
unfolding get fields
get_kernel_args c = fields (get c cmdline)

-- `strings.SplitN(arg, "=", 2)[0]`
abbrev pub before : Option (Text × Text) → Text → Text
before none arg = arg
before (some (k, v)) arg = k

abbrev pub arg_name : Text → Text
unfolding cut
arg_name arg = before (cut b'=' arg) arg

-- An argument that is `arg` or sets the same name.
unfoldable pub is_present : Text → List Text → Bool
unfolding text_eq has_prefix
is_present arg [] = false
is_present arg (a ∷ args) =
    text_eq a arg || has_prefix a (arg_name arg ++ codes "=") || is_present arg args

-- `AddKernelArg`
unfoldable pub add_kernel_arg : Config → Text → Config
unfolding get_kernel_args is_present set_value join
add_kernel_arg c arg =
    let args = get_kernel_args c in
    if is_present arg args then c else set_value c cmdline (join (b' ' ∷ []) (args ++ arg ∷ []))

-- Is the argument the name, or a setting of it?
abbrev pub names_arg : Text → Text → Bool
unfolding text_eq has_prefix
names_arg prefix a = text_eq a prefix || has_prefix a (prefix ++ codes "=")

unfoldable pub without_arg : Text → List Text → List Text
without_arg prefix [] = []
without_arg prefix (a ∷ args) =
    let rest = without_arg prefix args in if names_arg prefix a then rest else a ∷ rest

-- `RemoveKernelArg`
unfoldable pub remove_kernel_arg : Config → Text → Config
unfolding get_kernel_args without_arg set_value join
remove_kernel_arg c prefix =
    set_value c cmdline (join (b' ' ∷ []) (without_arg prefix (get_kernel_args c)))

-- `String`
unfoldable pub to_string : Config → Text
unfolding join
to_string c = join (line_feed ∷ []) c.lines
