-- ===== src/Windows/DriverDir.antt =====
-- pkg/convert-windows/driversource: which virtio-win directory belongs to a guest. The host's
-- directory listing, or its failure, and the test for a directory are arguments.
pub mod Match
use kc_utils.Base.{Bool, true, false, ◌||◌, List, [], ◌∷◌, ◌++◌, Option, none, some, if◌then◌else◌}
use kc_utils.FilePath.{join_path}
use kc_utils.Sort.{sort, text_less}
use kc_utils.Text.{Text, codes, text_eq, is_empty, contains, trim_space, to_lower}
use kc_utils.Windows.Version.{normalize_product_name, listed}

-- The closure `add` of `CanonicalOSVersions`, for one value.
unfoldable pub add_alias : Text → List Text → List Text
add_alias value aliases =
    let v = to_lower (trim_space value) in
    if is_empty v || listed v aliases then aliases else aliases ++ v ∷ []

-- The `switch`: the directory of the first case that the name contains.
unfoldable pub directory_token : List (Text × Text) → Text → Option Text
directory_token [] normalized = none
directory_token ((part, token) ∷ cases) normalized =
    let rest = directory_token cases normalized in
    if contains normalized part then some token else rest

abbrev pub token_cases : List (Text × Text)
token_cases =
    (codes "server 2025", codes "2k25")
    ∷ (codes "server 2022", codes "2k22")
    ∷ (codes "server 2019", codes "2k19")
    ∷ (codes "server 2016", codes "2k16")
    ∷ (codes "server 2012 r2", codes "2k12r2")
    ∷ (codes "server 2012", codes "2k12")
    ∷ (codes "server 2008 r2", codes "2k8r2")
    ∷ (codes "server 2008", codes "2k8")
    ∷ (codes "server 2003", codes "2k3")
    ∷ (codes "windows 11", codes "w11")
    ∷ (codes "windows 10", codes "w10")
    ∷ (codes "windows 8.1", codes "w8.1")
    ∷ (codes "windows 8", codes "w8")
    ∷ (codes "windows 7", codes "w7")
    ∷ (codes "vista", codes "vista")
    ∷ (codes "xp", codes "xp")
    ∷ []

abbrev pub add_token : Option Text → List Text → List Text
add_token none aliases = aliases
add_token (some token) aliases = add_alias token aliases

-- `CanonicalOSVersions`
unfoldable pub canonical_os_versions : Text → List Text
canonical_os_versions requested =
    let normalized = normalize_product_name requested in
    if is_empty normalized
    then []
    else add_token (directory_token token_cases normalized) (normalized ∷ [])

unfoldable pub share : List Text → List Text → Bool
share [] ys = false
share (x ∷ xs) ys = listed x ys || share xs ys

-- `MatchOSVersion`
unfoldable pub match_os_version : Text → Text → Bool
match_os_version dir_ver requested =
    share (canonical_os_versions dir_ver) (canonical_os_versions requested)

-- `strings.EqualFold` on ASCII.
unfoldable pub equal_fold : Text → Text → Bool
equal_fold a b = text_eq (to_lower a) (to_lower b)

unfoldable pub find_fold : Text → List Text → Option Text
find_fold pref [] = none
find_fold pref (m ∷ ms) = let rest = find_fold pref ms in if equal_fold m pref then some m else rest

-- `pickPreferredDir`. The set of lower-case names that it builds holds a preference exactly if the
-- search behind the test finds it, so the search stands for both.
unfoldable pub pick_preferred_dir : List Text → List Text → Option Text
pick_preferred_dir matches [] = none
pick_preferred_dir matches (pref ∷ prefs) =
    let rest = pick_preferred_dir matches prefs in
    elim (find_fold pref matches) [ some m ↦ some m | none ↦ rest ]

-- The names of the directories that match.
unfoldable pub matching_dirs : List (Text × Bool) → Text → List Text
matching_dirs [] os_version = []
matching_dirs ((name, is_dir) ∷ entries) os_version =
    let rest = matching_dirs entries os_version in
    if is_dir then (if match_os_version name os_version then name ∷ rest else rest) else rest

unfoldable pub dir_names : List (Text × Bool) → List Text
dir_names [] = []
dir_names ((name, is_dir) ∷ entries) =
    let rest = dir_names entries in if is_dir then name ∷ rest else rest

unfoldable pub first_existing : (Text → Bool) → Text → List Text → Option Text
first_existing is_dir arch_dir [] = none
first_existing is_dir arch_dir (d ∷ ds) =
    let rest = first_existing is_dir arch_dir ds in
    let dir = join_path (arch_dir ∷ d ∷ []) in if is_dir dir then some dir else rest

-- The error of `FindBestOSDirWithPrefs` names the directories that there are.
pub data OsDir : Type 0 where
  found : Text → OsDir
  unreadable : OsDir
  no_directory : List Text → OsDir

unfoldable pub best_match : Text → List Text → List Text → OsDir
best_match arch_dir matches prefs = elim (pick_preferred_dir matches prefs) [
  | some preferred ↦ found (join_path (arch_dir ∷ preferred ∷ []))
  | none ↦ elim (sort text_less matches) [
    | [] ↦ no_directory []
    | m ∷ ms ↦ found (join_path (arch_dir ∷ m ∷ []))
  ]
]

unfoldable pub fallback_dir : (Text → Bool) → Text → List Text → List (Text × Bool) → OsDir
fallback_dir is_dir arch_dir dirs entries = elim (first_existing is_dir arch_dir dirs) [
  | some dir ↦ found dir
  | none ↦ no_directory (sort text_less (dir_names entries))
]

-- `FindBestOSDirWithPrefs`
unfoldable pub find_best_os_dir_with_prefs :
    (Text → Bool) → Text → Option (List (Text × Bool)) → Text → List Text → List Text → OsDir
find_best_os_dir_with_prefs is_dir arch_dir none os_version prefs fallbacks = unreadable
find_best_os_dir_with_prefs is_dir arch_dir (some entries) os_version prefs fallbacks =
    elim (matching_dirs entries os_version) [
      | [] ↦ fallback_dir is_dir arch_dir (prefs ++ fallbacks) entries
      | m ∷ ms ↦ best_match arch_dir (m ∷ ms) prefs
    ]
