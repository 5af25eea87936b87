-- ===== src/ConfigEdit/Fstab/RoundTrip.antt =====
-- Printed files, parsed again.
use kc_utils.Base.{
  ◌≡◌, ◌≢◌, refl, ap, ap₂, sym, ◌∙◌, ◌⊎◌, inl, inr, true, false, List, [], ◌∷◌, ◌++◌, map, All,
}
use kc_utils.Text.{
  Text, codes, is_empty, is_space, has_prefix, split, trim_space, trim_left, trim_right, join,
}
use kc_utils.Text.Laws.{Lacks, split-join}
use kc_utils.Text.Words.{IsWord, fields-join, trim_space-join, NoSpace-Lacks, All-join, join-last}
use kc_utils.ConfigEdit.Fstab.{
  Entry, line_feed, tab, comment_entry, parse_line, parse, or_default, print_entry, to_string,
}

-- An entry with six words, whose device is no comment.
pub record IsFull (e : Entry) : Type 0 where
  pub device : IsWord e.device
  pub mount_point : IsWord e.mount_point
  pub fs_type : IsWord e.fs_type
  pub options : IsWord e.options
  pub dump : IsWord e.dump
  pub pass : IsWord e.pass
  pub no_hash : has_prefix e.device (codes "#") ≡ false
  pub no_comment : e.comment ≡ []

-- A comment line as `Parse` reads it.
pub record IsComment (e : Entry) : Type 0 where
  pub shape : e ≡ comment_entry e.comment
  pub hash : has_prefix (trim_space e.comment) (codes "#") ≡ true
  pub one_line : Lacks line_feed e.comment

abbrev IsPrinted : Entry → Type 0
IsPrinted e = IsFull e ⊎ IsComment e

abbrev words : Entry → List Text
words e = e.device ∷ e.mount_point ∷ e.fs_type ∷ e.options ∷ e.dump ∷ e.pass ∷ []

words-All : (e : Entry) → IsFull e → All IsWord (words e)
words-All e h = (h.device, (h.mount_point, (h.fs_type, (h.options, (h.dump, (h.pass, tt))))))

or_default-word : (w d : Text) → w ≢ [] → or_default w d ≡ w
or_default-word [] d h = absurd (h refl)
or_default-word (c ∷ w) d h = refl

is_empty-word : (w : Text) → w ≢ [] → is_empty w ≡ false
is_empty-word [] h = absurd (h refl)
is_empty-word (c ∷ w) h = refl

print_entry-IsFull : (e : Entry) → IsFull e → print_entry e ≡ join tab (words e)
unfolding print_entry
print_entry-IsFull e h =
    rw
      (
        h.no_comment,
        is_empty-word e.device h.device.1,
        or_default-word e.options (codes "defaults") h.options.1,
        or_default-word e.dump (codes "0") h.dump.1,
        or_default-word e.pass (codes "0") h.pass.1,
      )
      refl

is_empty-front : (w t : Text) → w ≢ [] → is_empty (w ++ t) ≡ false
is_empty-front [] t h = absurd (h refl)
is_empty-front (c ∷ w) t h = refl

is_empty-join : (e : Entry) → IsFull e → is_empty (join tab (words e)) ≡ false
unfolding join
is_empty-join e h = is_empty-front e.device _ h.device.1

has_prefix-hash :
    (w t : Text)
    → w ≢ []
    → has_prefix w (codes "#") ≡ false
    → has_prefix (w ++ t) (codes "#") ≡ false
unfolding has_prefix
has_prefix-hash [] t h e = absurd (h refl)
has_prefix-hash (c ∷ w) t h e = e

has_prefix-join : (e : Entry) → IsFull e → has_prefix (join tab (words e)) (codes "#") ≡ false
unfolding join
has_prefix-join e h = has_prefix-hash e.device _ h.device.1 h.no_hash

parse_line-IsFull : (e : Entry) → IsFull e → parse_line (join tab (words e)) ≡ e
unfolding parse_line
parse_line-IsFull e h =
    rw
      (
        trim_space-join tab e.device _ (words-All e h),
        is_empty-join e h,
        has_prefix-join e h,
        fields-join 9 (words e) refl (words-All e h),
      )
      (ap (λ c. record e { comment = c }) (sym h.no_comment))

hash-not_empty : (t : Text) → has_prefix t (codes "#") ≡ true → is_empty t ≡ false
unfolding has_prefix
hash-not_empty [] e = cc
hash-not_empty (c ∷ t) e = refl

trim_space-not_empty : (t : Text) → is_empty (trim_space t) ≡ false → is_empty t ≡ false
unfolding trim_space trim_left trim_right
trim_space-not_empty [] e = e
trim_space-not_empty (c ∷ t) e = refl

print_entry-IsComment : (e : Entry) → IsComment e → print_entry e ≡ e.comment
unfolding print_entry
print_entry-IsComment e h =
    rw (trim_space-not_empty e.comment (hash-not_empty (trim_space e.comment) h.hash)) refl

parse_line-IsComment : (e : Entry) → IsComment e → parse_line e.comment ≡ e
unfolding parse_line
parse_line-IsComment e h = rw (hash-not_empty (trim_space e.comment) h.hash, h.hash) (sym h.shape)

parse_line-print_entry : (e : Entry) → IsPrinted e → parse_line (print_entry e) ≡ e
parse_line-print_entry e (inl h) = ap parse_line (print_entry-IsFull e h) ∙ parse_line-IsFull e h
parse_line-print_entry e (inr h) =
    ap parse_line (print_entry-IsComment e h) ∙ parse_line-IsComment e h

NoSpace-All : (ws : List Text) → All IsWord ws → All (Lacks line_feed) ws
unfolding is_space
NoSpace-All [] h = tt
NoSpace-All (w ∷ ws) h = (NoSpace-Lacks line_feed w refl h.0.0, NoSpace-All ws h.1)

-- A printed entry is one line.
print_entry-Lacks : (e : Entry) → IsPrinted e → Lacks line_feed (print_entry e)
print_entry-Lacks e (inl h) =
    rw (print_entry-IsFull e h)
      (All-join _ tab (words e) (refl, tt) (NoSpace-All (words e) (words-All e h)))
print_entry-Lacks e (inr h) = rw (print_entry-IsComment e h) h.one_line

lines-Lacks :
    (es : List Entry) → All IsPrinted es → All (Lacks line_feed) (map print_entry es ++ [] ∷ [])
lines-Lacks [] h = (tt, tt)
lines-Lacks (e ∷ es) h = (print_entry-Lacks e h.0, lines-Lacks es h.1)

parse_line-nil : parse_line [] ≡ comment_entry []
unfolding parse_line trim_space trim_left trim_right
parse_line-nil = refl

map-parse_line :
    (es : List Entry)
    → All IsPrinted es
    → map parse_line (map print_entry es ++ [] ∷ []) ≡ es ++ comment_entry [] ∷ []
map-parse_line [] h = ap (λ e. e ∷ []) parse_line-nil
map-parse_line (e ∷ es) h = ap₂ (◌∷◌) (parse_line-print_entry e h.0) (map-parse_line es h.1)

-- `Parse` of what `String` answers is the entries again, with one blank entry behind them: for a file
-- with an entry, whose entries are comments or six words each, the first of which is no comment.
pub parse-to_string :
    (e : Entry) (es : List Entry)
    → All IsPrinted (e ∷ es)
    → parse (to_string (e ∷ es)) ≡ (e ∷ es) ++ comment_entry [] ∷ []
unfolding parse to_string
parse-to_string e es h =
    ap (λ t. map parse_line (split line_feed t))
      (join-last (line_feed ∷ []) (print_entry e) (map print_entry es))
    ∙ ap (map parse_line) (
        split-join line_feed (print_entry e) (map print_entry es ++ [] ∷ [])
          (lines-Lacks (e ∷ es) h))
    ∙ map-parse_line (e ∷ es) h
