-- ===== src/Windows/DriverDir/Match.antt =====
-- Matching versions, and the choice of a directory.
use kc_utils.Base.{
  ◌≡◌, ◌≢◌, refl, sym, ◌∙◌, ◌⊎◌, inl, inr, Bool, true, false, ◌||◌, List, [], ◌∷◌, some, arith,
  Option-cases,
}
use kc_utils.FilePath.{join_path}
use kc_utils.Sort.{sort, insert, text_less}
use kc_utils.Text.{Text, text_eq}
use kc_utils.Text.Laws.{text_eq_iff, text_eq_refl}
use kc_utils.Windows.Version.{listed}
use kc_utils.Windows.DriverDir.{
  share, match_os_version, find_fold, pick_preferred_dir, matching_dirs, found, best_match,
  find_best_os_dir_with_prefs,
}

List-cases {ℓ} : {A : Type ℓ} (xs : List A) → (xs ≡ []) ⊎ ((h : A) × (t : List A) × (xs ≡ h ∷ t))
List-cases [] = inl refl
List-cases (x ∷ xs) = inr (x, xs, refl)

matching_dirs-match :
    (entries : List (Text × Bool)) (os_version n : Text)
    → listed n (matching_dirs entries os_version) ≡ true
    → match_os_version n os_version ≡ true
unfolding matching_dirs listed
matching_dirs-match [] os_version n h = cc
matching_dirs-match ((name, is_dir) ∷ entries) os_version n h =
    ground (arith, matching_dirs-match entries os_version n, text_eq_iff n name)

share-nil : (xs : List Text) → share xs [] ≡ false
unfolding share listed
share-nil [] = refl
share-nil (x ∷ xs) = share-nil xs

text_eq_sym : (a b : Text) → text_eq a b ≡ text_eq b a
text_eq_sym a b = ground (arith, text_eq_iff a b, text_eq_iff b a)

share-cons :
    (xs : List Text) (y : Text) (ys : List Text) → share xs (y ∷ ys) ≡ (listed y xs || share xs ys)
unfolding share listed
share-cons [] y ys = refl
share-cons (x ∷ xs) y ys = ground (arith, share-cons xs y ys, text_eq_sym x y)

share_comm : (xs ys : List Text) → share xs ys ≡ share ys xs
unfolding share
share_comm xs [] = share-nil xs
share_comm xs (y ∷ ys) = share-cons xs y ys ∙ rw (share_comm xs ys)

-- A directory matches a guest exactly if the guest, read as a directory, matches it.
pub match_os_version_comm :
    (dir_ver requested : Text)
    → match_os_version dir_ver requested ≡ match_os_version requested dir_ver
unfolding match_os_version
match_os_version_comm dir_ver requested = share_comm _ _

listed-insert : (n x : Text) (ys : List Text) → listed n (insert text_less x ys) ≡ listed n (x ∷ ys)
unfolding listed insert
listed-insert n x [] = refl
listed-insert n x (y ∷ ys) = ground (arith, listed-insert n x ys)

listed-sort : (n : Text) (xs : List Text) → listed n (sort text_less xs) ≡ listed n xs
unfolding listed sort
listed-sort n [] = refl
listed-sort n (x ∷ xs) = listed-insert n x (sort text_less xs) ∙ rw (listed-sort n xs)

insert-ne-nil : (x : Text) (ys : List Text) → insert text_less x ys ≢ []
unfolding insert
insert-ne-nil x [] = λ e. cc
insert-ne-nil x (y ∷ ys) = ground arith

sort-ne-nil : (x : Text) (xs : List Text) → sort text_less (x ∷ xs) ≢ []
unfolding sort
sort-ne-nil x xs = insert-ne-nil x (sort text_less xs)

find_fold-listed :
    (pref : Text) (ms : List Text) (m : Text) → find_fold pref ms ≡ some m → listed m ms ≡ true
unfolding find_fold listed
find_fold-listed pref [] m e = cc
find_fold-listed pref (x ∷ ms) m e = ground (arith, find_fold-listed pref ms m, text_eq_iff m x)

pick_preferred_dir-listed :
    (ms prefs : List Text) (m : Text) → pick_preferred_dir ms prefs ≡ some m → listed m ms ≡ true
unfolding pick_preferred_dir
pick_preferred_dir-listed ms [] m e = cc
pick_preferred_dir-listed ms (pref ∷ prefs) m e =
    ground (arith, pick_preferred_dir-listed ms prefs m, find_fold-listed pref ms m)

best_match-listed :
    (arch_dir m : Text) (ms prefs : List Text)
    → (n : Text) × (listed n (m ∷ ms) ≡ true)
      × (best_match arch_dir (m ∷ ms) prefs ≡ found (join_path (arch_dir ∷ n ∷ [])))
unfolding best_match
best_match-listed arch_dir m ms prefs = elim (Option-cases (pick_preferred_dir (m ∷ ms) prefs)) [
  | inl e ↦ elim (List-cases (sort text_less (m ∷ ms))) [
    | inl nothing ↦ absurd (sort-ne-nil m ms nothing)
    | inr (h, t, es) ↦ (
      h,
      sym (listed-sort h (m ∷ ms)) ∙ rw es (unfold listed in rw text_eq_refl),
      rw (best_match, e, es),
    )
  ]
  | inr (n, e) ↦ (n, pick_preferred_dir-listed (m ∷ ms) prefs n e, rw (best_match, e))
]

-- Where a directory of the host matches the guest, the result is such a directory: one of those
-- that match, and not one that a preference or a fallback merely names.
pub find_best_os_dir-matches :
    (is_dir : Text → Bool) (arch_dir : Text) (entries : List (Text × Bool)) (os_version : Text)
    (prefs fallbacks : List Text) {m : Text} {ms : List Text}
    → matching_dirs entries os_version ≡ m ∷ ms
    → (n : Text) × (listed n (matching_dirs entries os_version) ≡ true)
      × (match_os_version n os_version ≡ true)
      × (find_best_os_dir_with_prefs is_dir arch_dir (some entries) os_version prefs fallbacks
          ≡ found (join_path (arch_dir ∷ n ∷ [])))
unfolding find_best_os_dir_with_prefs
find_best_os_dir-matches is_dir arch_dir entries os_version prefs fallbacks {m} {ms} e =
    let (n, inside, result) = best_match-listed arch_dir m ms prefs in
    (
      n,
      rw e inside,
      matching_dirs-match entries os_version n (rw e inside),
      rw (e, find_best_os_dir_with_prefs) result,
    )
