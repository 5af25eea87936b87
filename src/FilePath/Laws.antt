-- ===== src/FilePath/Laws.antt =====
-- Paths that begin at the root.
use kc_utils.Base.{ℕ, ◌≡◌, ◌≢◌, refl, ◌∙◌, List, [], ◌∷◌, ◌++◌}
use kc_utils.Text.{Text, has_prefix, join}
use kc_utils.FilePath.{slash, clean, clean_some, not_empty, join_path}

-- The path begins at the root.
abbrev pub IsRooted : Text → Type 0
IsRooted p = (t : Text) × (p ≡ b'/' ∷ t)

clean-IsRooted : (s : Text) → IsRooted (clean (b'/' ∷ s))
unfolding clean has_prefix
clean-IsRooted s = (_, refl)

clean_some-IsRooted : (s : Text) (parts : List Text) → IsRooted (clean_some ((b'/' ∷ s) ∷ parts))
unfolding join
clean_some-IsRooted s [] = clean-IsRooted s
clean_some-IsRooted s (p ∷ ps) = clean-IsRooted (s ++ (slash ++ join slash (p ∷ ps)))

-- `filepath.Join` keeps the root of the first part.
pub join_path-IsRooted :
    (p : Text) (parts : List Text) → IsRooted p → IsRooted (join_path (p ∷ parts))
unfolding join_path
join_path-IsRooted p parts (s, e) = rw e (clean_some-IsRooted s (not_empty parts))

pub IsRooted-ne : (p q : Text) (c : ℕ) → IsRooted p → c ≢ b'/' → c ∷ q ≢ p
IsRooted-ne p q c (t, e) ne h = let same : c ∷ q ≡ b'/' ∷ t = h ∙ e in absurd (ne cc)
