-- ===== src/Examples/Versions.antt =====
-- pkg/convert-windows: a few guests.
use kc_utils.Base.{arith, ◌≡◌, refl, Bool, true, false, List, [], ◌∷◌, some}
use kc_utils.FilePath.{join_path}
use kc_utils.Text.{Text, codes, text_eq, contains, join, fields, remove_all, to_lower, trim_space}
use kc_utils.Windows.Version.{InspectData, listed, normalize_product_name}
use kc_utils.Windows.Classify.{AreClassified, classify-versions}
use kc_utils.Windows.DriverDir.{
  share, canonical_os_versions, directory_token, add_alias, match_os_version, matching_dirs, found,
  find_best_os_dir_with_prefs,
}
use kc_utils.Windows.DriverDir.Match.{find_best_os_dir-matches}

abbrev windows_10 : InspectData
windows_10 = record { major_version = 10; minor_version = 0; product_name = codes "Windows 10 Pro" }

abbrev windows_81 : InspectData
windows_81 = record { major_version = 6; minor_version = 3; product_name = codes "Windows 8.1" }

classify-versions_example : AreClassified 10 0 (codes "Windows 10 Pro")
classify-versions_example = classify-versions 10 0 (codes "Windows 10 Pro") (omega arith)

abbrev entries : List (Text × Bool)
entries = (codes "2k19", true) ∷ (codes "w10", true) ∷ []

one_match : matching_dirs entries (codes "Windows 10") ≡ codes "w10" ∷ []
unfolding matching_dirs match_os_version share canonical_os_versions normalize_product_name join
    fields remove_all to_lower trim_space directory_token contains listed add_alias text_eq
one_match = refl

find_best_os_dir-matches_example :
    (n : Text) × (listed n (matching_dirs entries (codes "Windows 10")) ≡ true)
    × (match_os_version n (codes "Windows 10") ≡ true)
    × (find_best_os_dir_with_prefs
          (λ d. false)
          (codes "/amd64")
          (some entries)
          (codes "Windows 10")
          []
          []
        ≡ found (join_path (codes "/amd64" ∷ n ∷ [])))
find_best_os_dir-matches_example =
    find_best_os_dir-matches (λ d. false) (codes "/amd64") entries (codes "Windows 10") [] []
      one_match
