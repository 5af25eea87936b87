-- ===== src/Text/Words.antt =====
-- White space: trimming, and the words of a line.
use kc_utils.Base.{
  ℕ, ◌≡◌, ◌≢◌, refl, ap, sym, ◌∙◌, true, false, List, [], ◌∷◌, ◌++◌, arith, ◌==◌, All, All-append,
  append_assoc, append-nil, ==_iff, Bool-cases, inl, inr,
}
use kc_utils.Text.{
  Text, is_empty, is_space, trim_left, trim_right, trim_space, in_word, fields, cons_head, join,
}
use kc_utils.Text.Laws.{Lacks}

-- No white space.
abbrev pub NoSpace : Text → Type 0
NoSpace = All (λ c. is_space c ≡ false)

abbrev pub IsWord : Text → Type 0
IsWord w = NoSpace w × (w ≢ [])

trim_left-NoSpace : (s : Text) → NoSpace s → trim_left s ≡ s
unfolding trim_left
trim_left-NoSpace [] h = refl
trim_left-NoSpace (c ∷ s) h = rw h.0

trim_right-NoSpace : (s : Text) → NoSpace s → trim_right s ≡ s
unfolding trim_right
trim_right-NoSpace [] h = refl
trim_right-NoSpace (c ∷ s) h = rw (trim_right, h.0) (ap (◌∷◌ c) (trim_right-NoSpace s h.1))

fields-word :
    (c : ℕ) (w rest : Text)
    → NoSpace (c ∷ w)
    → in_word rest ≡ false
    → fields (c ∷ (w ++ rest)) ≡ (c ∷ w) ∷ fields rest
unfolding fields in_word
fields-word c [] rest h e = ground arith
fields-word c (d ∷ w) rest h e = ground (arith, fields-word d w rest h.1 e)

pub fields-IsWord :
    (w rest : Text) → IsWord w → in_word rest ≡ false → fields (w ++ rest) ≡ w ∷ fields rest
fields-IsWord [] rest h e = absurd (h.1 refl)
fields-IsWord (c ∷ w) rest h e = fields-word c w rest h.0 e

-- The words of words that single white-space bytes join.
pub fields-join :
    (sep : ℕ) (ws : List Text)
    → is_space sep ≡ true
    → All IsWord ws
    → fields (join (sep ∷ []) ws) ≡ ws
unfolding join fields in_word
fields-join sep [] e h = refl
fields-join sep (w ∷ []) e h = ap fields (sym (append-nil w)) ∙ fields-IsWord w [] h.0 refl
fields-join sep (w ∷ v ∷ ws) e h =
    fields-IsWord w (sep ∷ join (sep ∷ []) (v ∷ ws)) h.0 (rw e refl)
    ∙ ap (◌∷◌ w) (rw e (fields-join sep (v ∷ ws) e h.1))

cons_head-IsWord :
    (c : ℕ) (ws : List Text) → is_space c ≡ false → All IsWord ws → All IsWord (cons_head c ws)
cons_head-IsWord c [] e h = (((e, tt), λ x. cc), tt)
cons_head-IsWord c (w ∷ ws) e h = (((e, h.0.0), λ x. cc), h.1)

-- What `Fields` answers are words.
pub fields-All : (s : Text) → All IsWord (fields s)
unfolding fields
fields-All [] = tt
fields-All (c ∷ s) = elim (Bool-cases (is_space c)) [
  | inl e ↦ rw e (fields-All s)
  | inr e ↦ rw e (elim (Bool-cases (in_word s)) [
    | inl f ↦ rw f (cons_head-IsWord c (fields s) e (fields-All s))
    | inr f ↦ rw f (((e, tt), λ x. cc), fields-All s)
  ])
]

trim_left-head : (c : ℕ) (s : Text) → is_space c ≡ false → trim_left (c ∷ s) ≡ c ∷ s
unfolding trim_left
trim_left-head c s e = rw e refl

is_empty-append : (a w : Text) → w ≢ [] → is_empty (a ++ w) ≡ false
is_empty-append [] [] h = absurd (h refl)
is_empty-append [] (c ∷ w) h = refl
is_empty-append (c ∷ a) w h = refl

-- Only the end of a text decides what is trimmed there.
trim_right-append : (a b : Text) → trim_right b ≡ b → b ≢ [] → trim_right (a ++ b) ≡ a ++ b
unfolding trim_right
trim_right-append [] b e h = e
trim_right-append (c ∷ a) b e h = ground (arith, trim_right-append a b e h, is_empty-append a b h)

join-not_empty : (sep w : Text) (ws : List Text) → w ≢ [] → join sep (w ∷ ws) ≢ []
unfolding join
join-not_empty sep [] ws h = absurd (h refl)
join-not_empty sep (c ∷ w) [] h = λ e. cc
join-not_empty sep (c ∷ w) (v ∷ ws) h = λ e. cc

append-not_empty : (a b : Text) → b ≢ [] → a ++ b ≢ []
append-not_empty [] b h = h
append-not_empty (c ∷ a) b h = λ e. cc

trim_right-join :
    (sep w : Text) (ws : List Text)
    → All IsWord (w ∷ ws)
    → trim_right (join sep (w ∷ ws)) ≡ join sep (w ∷ ws)
unfolding join
trim_right-join sep w [] h = trim_right-NoSpace w h.0.0
trim_right-join sep w (v ∷ ws) h =
    let rest = join-not_empty sep v ws h.1.0.1 in
    trim_right-append w (sep ++ join sep (v ∷ ws))
      (trim_right-append sep (join sep (v ∷ ws)) (trim_right-join sep v ws h.1) rest)
      (append-not_empty sep (join sep (v ∷ ws)) rest)

trim_left-join :
    (sep w : Text) (ws : List Text) → IsWord w → trim_left (join sep (w ∷ ws)) ≡ join sep (w ∷ ws)
unfolding join
trim_left-join sep [] ws h = absurd (h.1 refl)
trim_left-join sep (c ∷ w) [] h = trim_left-head c w h.0.0
trim_left-join sep (c ∷ w) (v ∷ ws) h = trim_left-head c (w ++ (sep ++ join sep (v ∷ ws))) h.0.0

-- Joined words have nothing to trim.
pub trim_space-join :
    (sep w : Text) (ws : List Text)
    → All IsWord (w ∷ ws)
    → trim_space (join sep (w ∷ ws)) ≡ join sep (w ∷ ws)
unfolding trim_space
trim_space-join sep w ws h = rw (trim_left-join sep w ws h.0) (trim_right-join sep w ws h)

pub NoSpace-Lacks : (b : ℕ) (w : Text) → is_space b ≡ true → NoSpace w → Lacks b w
NoSpace-Lacks b [] e h = tt
NoSpace-Lacks b (c ∷ w) e h = (
  elim (Bool-cases (c == b)) [ inl x ↦ (let same = (==_iff c b).0 x in cc) | inr x ↦ x ],
  NoSpace-Lacks b w e h.1,
)

pub All-join :
    (P : ℕ → Type 0) (sep : Text) (ws : List Text)
    → All P sep
    → All (All P) ws
    → All P (join sep ws)
unfolding join
All-join P sep [] h hs = tt
All-join P sep (w ∷ []) h hs = hs.0
All-join P sep (w ∷ v ∷ ws) h hs =
    All-append P w _ hs.0 (All-append P sep _ h (All-join P sep (v ∷ ws) h hs.1))

-- A separator at the end is one before an empty last piece.
pub join-last :
    (sep x : Text) (xs : List Text) → join sep (x ∷ xs) ++ sep ≡ join sep (x ∷ (xs ++ [] ∷ []))
unfolding join
join-last sep x [] = ap (λ t. x ++ t) (sym (append-nil sep))
join-last sep x (y ∷ xs) =
    append_assoc x (sep ++ join sep (y ∷ xs)) sep
    ∙ ap (λ t. x ++ t) (append_assoc sep (join sep (y ∷ xs)) sep)
    ∙ ap (λ t. x ++ (sep ++ t)) (join-last sep y xs)
