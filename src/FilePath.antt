-- ===== src/FilePath.antt =====
-- Go's `path/filepath` on Unix: `Clean`, `Join` and `Base`.
pub mod Laws
use kc_utils.Base.{Bool, ◌||◌, List, [], ◌∷◌, if◌then◌else◌}
use kc_utils.Text.{Text, codes, text_eq, is_empty, has_prefix, split, join}

abbrev pub slash : Text
slash = b'/' ∷ []

-- `..` takes the last name away; at the root it is dropped, and it stays where no name is left.
unfoldable pub go_up : Bool → List Text → List Text
unfolding text_eq
go_up rooted [] = if rooted then [] else codes ".." ∷ []
go_up rooted (x ∷ done) = if text_eq x (codes "..") then codes ".." ∷ x ∷ done else done

-- The names that stay, the last first.
unfoldable pub clean_parts : Bool → List Text → List Text → List Text
unfolding text_eq go_up
clean_parts rooted done [] = done
clean_parts rooted done (p ∷ ps) =
    clean_parts rooted
      (if is_empty p || text_eq p (codes ".")
        then done
        else if text_eq p (codes "..")
        then go_up rooted done
        else p ∷ done)
      ps

unfoldable pub reverse_onto : List Text → List Text → List Text
reverse_onto [] acc = acc
reverse_onto (x ∷ xs) acc = reverse_onto xs (x ∷ acc)

abbrev pub or_dot : Text → Text
or_dot [] = codes "."
or_dot (c ∷ s) = c ∷ s

-- `filepath.Clean`
unfoldable pub clean : Text → Text
unfolding clean_parts reverse_onto split join has_prefix
clean p =
    let rooted = has_prefix p slash in
    let names = join slash (reverse_onto (clean_parts rooted [] (split b'/' p)) []) in
    if rooted then b'/' ∷ names else or_dot names

abbrev pub not_empty : List Text → List Text
not_empty [] = []
not_empty (x ∷ xs) = let rest = not_empty xs in if is_empty x then rest else x ∷ rest

abbrev pub clean_some : List Text → Text
clean_some [] = []
clean_some (x ∷ xs) = clean (join slash (x ∷ xs))

-- `filepath.Join`
unfoldable pub join_path : List Text → Text
unfolding clean
join_path parts = clean_some (not_empty parts)

unfoldable pub last_or : Text → List Text → Text
last_or t [] = t
last_or t (x ∷ xs) = last_or x xs

-- The last name that is not empty.
unfoldable pub last_name : List Text → Text
unfolding last_or
last_name parts = last_or (codes "/") (not_empty parts)

-- `filepath.Base`
unfoldable pub base : Text → Text
unfolding last_name split
base [] = codes "."
base (c ∷ s) = last_name (split b'/' (c ∷ s))
