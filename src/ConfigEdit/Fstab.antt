-- ===== src/ConfigEdit/Fstab.antt =====
-- pkg/common/configedit/fstab: /etc/fstab and the files of its form.
pub mod RoundTrip
use kc_utils.Base.{
  ℕ, ◌+◌, Bool, true, false, not, ◌||◌, ◌&&◌, List, [], ◌∷◌, ◌++◌, map, if◌then◌else◌, get_or,
  length, drop,
}
use kc_utils.Text.{Text, codes, is_empty, has_prefix, split, trim_space, fields, join}

pub record Entry : Type 0 where
  pub device : Text
  pub mount_point : Text
  pub fs_type : Text
  pub options : Text
  pub dump : Text
  pub pass : Text
  pub comment : Text

abbrev pub line_feed : ℕ
line_feed = 10

abbrev pub tab : Text
tab = 9 ∷ []

abbrev pub comment_entry : Text → Entry
comment_entry c = record {
  device = [];
  mount_point = [];
  fs_type = [];
  options = [];
  dump = [];
  pass = [];
  comment = c;
}

abbrev pub fields_entry : List Text → Entry
fields_entry fs = record {
  device = get_or fs 0 [];
  mount_point = get_or fs 1 [];
  fs_type = get_or fs 2 [];
  options = get_or fs 3 [];
  dump = get_or fs 4 [];
  pass = get_or fs 5 [];
  comment = [];
}

-- One line of `Parse`.
unfoldable pub parse_line : Text → Entry
unfolding trim_space has_prefix fields
parse_line line =
    let trimmed = trim_space line in
    if is_empty trimmed
    then comment_entry []
    else if has_prefix trimmed (codes "#")
    then comment_entry line
    else fields_entry (fields trimmed)

-- `Parse`
unfoldable pub parse : Text → List Entry
unfolding split parse_line
parse content = map parse_line (split line_feed content)

-- `remapField`
unfoldable pub remap_field : Text → Text → Text → Text
unfolding has_prefix
remap_field field old new = if has_prefix field old then new ++ drop (length old) field else field

-- An entry that the remapping passes over.
abbrev pub is_skipped : Entry → Bool
is_skipped e = not (is_empty e.comment) || is_empty e.device

unfoldable pub remap_entry_device : Text → Text → Entry → Entry
unfolding remap_field
remap_entry_device old new e =
    if is_skipped e then e else record e { device = remap_field e.device old new }

-- `RemapDevice`
unfoldable pub remap_device : Text → Text → List Entry → List Entry
remap_device old new = map (remap_entry_device old new)

unfoldable pub remap_entry_fields : Text → Text → Entry → Entry
unfolding remap_field
remap_entry_fields old new e = if is_skipped e then e else record e {
  device = remap_field e.device old new;
  mount_point = remap_field e.mount_point old new;
  fs_type = remap_field e.fs_type old new;
  options = remap_field e.options old new;
}

-- `RemapAllFields`
unfoldable pub remap_all_fields : Text → Text → List Entry → List Entry
remap_all_fields old new = map (remap_entry_fields old new)

-- `DeviceEntries`
unfoldable pub device_entries : List Entry → List Entry
device_entries [] = []
device_entries (e ∷ es) =
    let rest = device_entries es in
    if not (is_empty e.device) && is_empty e.comment then e ∷ rest else rest

abbrev pub or_default : Text → Text → Text
or_default [] d = d
or_default (c ∷ s) d = c ∷ s

-- One line of `String`.
unfoldable pub print_entry : Entry → Text
unfolding join
print_entry e =
    if not (is_empty e.comment)
    then e.comment
    else if is_empty e.device
    then []
    else join tab (
        e.device
        ∷ e.mount_point
        ∷ e.fs_type
        ∷ or_default e.options (codes "defaults")
        ∷ or_default e.dump (codes "0")
        ∷ or_default e.pass (codes "0")
        ∷ [])

-- `String`
unfoldable pub to_string : List Entry → Text
unfolding join print_entry
to_string es = join (line_feed ∷ []) (map print_entry es) ++ line_feed ∷ []
