-- ===== src/Copy/Select.antt =====
-- pkg/copy/filter.go: which disks of the lease are copied, in the order of the sources.
--
-- The Go map from paths to disks is a list of pairs. An error is `none`.
pub mod Lookup
use kc_utils.Base.{
  ℕ, ◌-◌, Bool, true, false, ◌&&◌, List, [], ◌∷◌, ◌++◌, map, Option, none, some, ◌==◌, leb,
  if◌then◌else◌, length, take, drop, get_or,
}
use kc_utils.Text.{Text, codes, text_eq, is_empty, has_suffix, trim_space, split}

pub record DiskUrl : Type 0 where
  pub url : Text
  pub disk_path : Text
  pub size : ℕ

abbrev pub is_digit : ℕ → Bool
is_digit c = leb b'0' c && leb c b'9'

unfoldable pub all_digits : Text → Bool
all_digits [] = true
all_digits (c ∷ s) = is_digit c && all_digits s

-- `isSixDigits`
unfoldable pub is_six_digits : Text → Bool
unfolding all_digits
is_six_digits s = length s == 6 && all_digits s

abbrev pub vmdk_suffix : Text
vmdk_suffix = codes ".vmdk"

-- The name before `.vmdk` ends in a snapshot's number.
unfoldable pub is_delta : Text → Bool
unfolding is_six_digits
is_delta prefix =
    leb 7 (length prefix)
    && (get_or prefix (length prefix - 7) 0 == b'-'
        && is_six_digits (drop (length prefix - 6) prefix))

-- `normalizeDiskPath`
unfoldable pub normalize_disk_path : Text → Text
unfolding has_suffix is_delta
normalize_disk_path path =
    let prefix = take (length path - length vmdk_suffix) path in
    if has_suffix path vmdk_suffix && is_delta prefix
    then take (length prefix - 7) prefix ++ vmdk_suffix
    else path

-- `map[string]DiskURL`
abbrev pub DiskMap : Type 0
DiskMap = List (Text × DiskUrl)

unfoldable pub lookup : Text → DiskMap → Option DiskUrl
unfolding text_eq
lookup key [] = none
lookup key ((k, d) ∷ m) = if text_eq k key then some d else lookup key m

-- The first disk with a path keeps it.
unfoldable pub put_unless : Option DiskUrl → Text → DiskUrl → DiskMap → DiskMap
put_unless none key d m = (key, d) ∷ m
put_unless (some e) key d m = m

unfoldable pub add_first : Text → DiskUrl → DiskMap → DiskMap
unfolding lookup put_unless
add_first key d m = put_unless (lookup key m) key d m

-- The disks of the lease by their normal paths, behind those that are there.
unfoldable pub by_path : List DiskUrl → DiskMap → DiskMap
unfolding normalize_disk_path add_first
by_path [] m = m
by_path (d ∷ ds) m =
    let key = normalize_disk_path d.disk_path in
    by_path ds (if is_empty key then m else add_first key d m)

abbrev pub cons_disk : Option DiskUrl → Option (List DiskUrl) → Option (List DiskUrl)
cons_disk none rest = none
cons_disk (some d) none = none
cons_disk (some d) (some ds) = some (d ∷ ds)

-- The path of a source that the map is asked for.
unfoldable pub source_key : Text → Text
unfolding trim_space normalize_disk_path
source_key src = normalize_disk_path (trim_space src)

unfoldable pub select_source : DiskMap → Text → Option DiskUrl
unfolding lookup source_key
select_source m src = if is_empty (source_key src) then none else lookup (source_key src) m

unfoldable pub select_sources : DiskMap → List Text → Option (List DiskUrl)
unfolding select_source
select_sources m [] = some []
select_sources m (src ∷ srcs) = cons_disk (select_source m src) (select_sources m srcs)

-- `FilterDiskURLs`
unfoldable pub filter_disk_urls : List DiskUrl → List Text → Option (List DiskUrl)
unfolding by_path select_sources
filter_disk_urls lease [] = some lease
filter_disk_urls lease (src ∷ srcs) = select_sources (by_path lease []) (src ∷ srcs)

unfoldable pub trim_parts : List Text → List Text
unfolding trim_space
trim_parts [] = []
trim_parts (part ∷ parts) =
    let rest = trim_parts parts in
    if is_empty (trim_space part) then rest else trim_space part ∷ rest

-- `SplitDiskPath`
unfoldable pub split_disk_path : Text → List Text
unfolding trim_space trim_parts split
split_disk_path raw = if is_empty (trim_space raw) then [] else trim_parts (split b',' raw)
