-- ===== src/Text.antt =====
-- Go's strings as the lists of their bytes, with the functions of `strings` that the program calls.
-- White space and letters are those of ASCII: in a string with Unicode white space or letters
-- outside ASCII, `TrimSpace`, `Fields` and `ToLower` of Go may see more.
pub mod Laws
pub mod Words
use Prim.Native.Char.{code}
use Prim.Native.String.{String}
use kc_utils.Base.{
  ℕ, zero, suc, ◌+◌, ◌-◌, Bool, true, false, not, ◌&&◌, ◌||◌, List, [], ◌∷◌, ◌++◌, map, ◌==◌, leb,
  length, drop, take, if◌then◌else◌,
}

abbrev pub Text : Type 0
Text = List ℕ

-- The bytes of an ASCII literal.
abbrev pub codes : String → Text
codes String.[] = []
codes (String.◌∷◌ c s) = code c ∷ codes s

-- `a == b` on strings.
unfoldable pub text_eq : Text → Text → Bool
text_eq [] [] = true
text_eq (x ∷ xs) (y ∷ ys) = x == y && text_eq xs ys
text_eq _ _ = false

-- `s == ""`
abbrev pub is_empty : Text → Bool
is_empty [] = true
is_empty (_ ∷ _) = false

-- `strings.HasPrefix(s, p)`
unfoldable pub has_prefix : Text → Text → Bool
has_prefix s [] = true
has_prefix [] (_ ∷ _) = false
has_prefix (c ∷ s) (d ∷ p) = c == d && has_prefix s p

-- `strings.HasSuffix(s, p)`
unfoldable pub has_suffix : Text → Text → Bool
unfolding text_eq
has_suffix s p = leb (length p) (length s) && text_eq (drop (length s - length p) s) p

-- `strings.TrimPrefix(s, p)`
unfoldable pub trim_prefix : Text → Text → Text
unfolding has_prefix
trim_prefix s p = if has_prefix s p then drop (length p) s else s

-- `strings.Contains(s, p)`
unfoldable pub contains : Text → Text → Bool
unfolding has_prefix
contains [] p = has_prefix [] p
contains (c ∷ s) p = has_prefix (c ∷ s) p || contains s p

-- `strings.ReplaceAll(s, old, "")` for an `old` that is not empty; the number counts the bytes of an
-- occurrence that are still to be left out.
unfoldable pub remove_from : ℕ → Text → Text → Text
unfolding has_prefix
remove_from k old [] = []
remove_from (suc k) old (c ∷ s) = remove_from k old s
remove_from zero old (c ∷ s) =
    let without = remove_from (length old - 1) old s in
    let rest = remove_from zero old s in if has_prefix (c ∷ s) old then without else c ∷ rest

unfoldable pub remove_all : Text → Text → Text
unfolding remove_from
remove_all s old = remove_from 0 old s

unfoldable pub is_space : ℕ → Bool
is_space c = leb 9 c && leb c 13 || c == b' '

unfoldable pub trim_left : Text → Text
unfolding is_space
trim_left [] = []
trim_left (c ∷ s) = let rest = trim_left s in if is_space c then rest else c ∷ s

unfoldable pub trim_right : Text → Text
unfolding is_space
trim_right [] = []
trim_right (c ∷ s) = let rest = trim_right s in if is_space c && is_empty rest then [] else c ∷ rest

-- `strings.TrimSpace`
unfoldable pub trim_space : Text → Text
unfolding trim_left trim_right
trim_space s = trim_right (trim_left s)

-- `strings.ToLower`
unfoldable pub to_lower_byte : ℕ → ℕ
to_lower_byte c = if leb b'A' c && leb c b'Z' then c + 32 else c

unfoldable pub to_lower : Text → Text
unfolding to_lower_byte
to_lower = map to_lower_byte

-- Puts a byte in front of the first piece.
abbrev pub cons_head : ℕ → List Text → List Text
cons_head c [] = (c ∷ []) ∷ []
cons_head c (p ∷ ps) = (c ∷ p) ∷ ps

-- `strings.Split(s, sep)` for a separator of one byte.
unfoldable pub split : ℕ → Text → List Text
split b [] = [] ∷ []
split b (c ∷ s) = let rest = split b s in if c == b then [] ∷ rest else cons_head c rest

-- Does a word go on here?
unfoldable pub in_word : Text → Bool
unfolding is_space
in_word [] = false
in_word (c ∷ s) = not (is_space c)

-- `strings.Fields`
unfoldable pub fields : Text → List Text
unfolding is_space in_word
fields [] = []
fields (c ∷ s) =
    let rest = fields s in
    if is_space c then rest else if in_word s then cons_head c rest else (c ∷ []) ∷ rest

-- `strings.Join`
unfoldable pub join : Text → List Text → Text
join sep [] = []
join sep (x ∷ []) = x
join sep (x ∷ y ∷ r) = x ++ (sep ++ join sep (y ∷ r))
