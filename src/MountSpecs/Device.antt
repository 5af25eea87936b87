-- ===== src/MountSpecs/Device.antt =====
-- Devices under several names: `deviceEqual` with the aliases of LVM.
use kc_utils.Base.{
  Bool, true, false, not, ◌&&◌, ◌||◌, List, [], ◌∷◌, ◌++◌, Option, none, some, ◌==◌, if◌then◌else◌,
}
use kc_utils.Text.{
  Text, codes, text_eq, is_empty, has_prefix, trim_prefix, trim_space, split, contains,
}
use kc_utils.FilePath.{clean, base, slash}

abbrev pub dev_dir : Text
dev_dir = codes "/dev/"

abbrev pub mapper_dir : Text
mapper_dir = codes "/dev/mapper/"

-- `escapeLVMComponent`
unfoldable pub escape_lvm_component : Text → Text
escape_lvm_component [] = []
escape_lvm_component (c ∷ s) =
    let rest = escape_lvm_component s in if c == b'-' then b'-' ∷ b'-' ∷ rest else c ∷ rest

-- The mapper's name for a volume group and a volume.
abbrev pub alias_of : List Text → Option Text
alias_of (vg ∷ lv ∷ []) =
    if is_empty vg || is_empty lv
    then none
    else some (mapper_dir ++ (escape_lvm_component vg ++ (codes "-" ++ escape_lvm_component lv)))
alias_of _ = none

-- `mapperAlias`; `none` is a path that is not LVM's.
unfoldable pub mapper_alias : Text → Option Text
unfolding clean has_prefix trim_prefix text_eq split escape_lvm_component
mapper_alias dev0 =
    let dev = clean dev0 in
    let rest = trim_prefix dev dev_dir in
    if has_prefix dev mapper_dir
    then some dev
    else if text_eq rest dev || is_empty rest
    then none
    else alias_of (split b'/' rest)

abbrev pub aliases_equal : Option Text → Option Text → Text → Text → Bool
aliases_equal none none a b = false
aliases_equal (some m) none a b = text_eq m b || text_eq m (base b)
aliases_equal none (some m) a b = text_eq m a || text_eq m (base a)
aliases_equal (some m) (some n) a b = text_eq m n

-- `lvmAliasesEqual`
unfoldable pub lvm_aliases_equal : Text → Text → Bool
unfolding mapper_alias text_eq base
lvm_aliases_equal a b = aliases_equal (mapper_alias a) (mapper_alias b) a b

-- One name behind the directory.
abbrev pub is_leaf : Text → Bool
is_leaf rest = not (is_empty rest) && not (contains rest slash)

-- `isDevLeaf`
unfoldable pub is_dev_leaf : Text → Bool
unfolding has_prefix trim_prefix contains
is_dev_leaf dev =
    if has_prefix dev mapper_dir
    then is_leaf (trim_prefix dev mapper_dir)
    else if has_prefix dev dev_dir
    then is_leaf (trim_prefix dev dev_dir)
    else false

-- `deviceEqual`
unfoldable pub device_equal : Text → Text → Bool
unfolding clean trim_space text_eq lvm_aliases_equal is_dev_leaf base
device_equal a0 b0 =
    let a = clean (trim_space a0) in
    let b = clean (trim_space b0) in
    if is_empty a || is_empty b
    then false
    else if text_eq a b
    then true
    else if lvm_aliases_equal a b
    then true
    else if is_dev_leaf a && is_dev_leaf b
    then text_eq (base a) (base b)
    else false
