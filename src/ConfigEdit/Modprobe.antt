-- ===== src/ConfigEdit/Modprobe.antt =====
-- pkg/common/configedit/modprobe: the files of modprobe.d, as their lines.
--
-- The map that `Aliases` answers is a list of pairs, the newest first.
use kc_utils.Base.{List, [], ◌∷◌, ◌++◌, if◌then◌else◌, leb, length, get_or}
use kc_utils.Text.{Text, codes, has_prefix, split, trim_space, fields, join}
use kc_utils.ConfigEdit.Fstab.{line_feed}

-- `Parse`
unfoldable pub parse : Text → List Text
unfolding split
parse content = split line_feed content

-- `Aliases`
unfoldable pub aliases_from : List Text → List (Text × Text) → List (Text × Text)
unfolding trim_space has_prefix fields
aliases_from [] known = known
aliases_from (line ∷ lines) known =
    let trimmed = trim_space line in
    let parts = fields trimmed in
    aliases_from lines (
      if has_prefix trimmed (codes "alias ")
      then if leb 3 (length parts) then (get_or parts 1 [], get_or parts 2 []) ∷ known else known
      else known)

unfoldable pub aliases : List Text → List (Text × Text)
unfolding aliases_from
aliases lines = aliases_from lines []

abbrev pub alias_head : Text → Text
alias_head pattern = codes "alias " ++ (pattern ++ codes " ")

-- `AddAlias`
unfoldable pub add_alias : Text → Text → List Text → List Text
unfolding trim_space has_prefix
add_alias pattern module_name [] = (alias_head pattern ++ module_name) ∷ []
add_alias pattern module_name (l ∷ ls) =
    let rest = add_alias pattern module_name ls in
    if has_prefix (trim_space l) (alias_head pattern)
    then (alias_head pattern ++ module_name) ∷ ls
    else l ∷ rest

-- `AddOption`
unfoldable pub add_option : Text → Text → List Text → List Text
add_option module_name options lines =
    lines ++ (codes "options " ++ (module_name ++ (codes " " ++ options))) ∷ []

-- `AddBlacklist`
unfoldable pub add_blacklist : Text → List Text → List Text
add_blacklist module_name lines = lines ++ (codes "blacklist " ++ module_name) ∷ []

-- `String`
unfoldable pub to_string : List Text → Text
unfolding join
to_string lines = join (line_feed ∷ []) lines
