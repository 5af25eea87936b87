-- ===== src/ConfigEdit/Grub/KernelArgs/ArgNames.antt =====
-- The name of a kernel argument, and the arguments that have it.
use kc_utils.Base.{
  ℕ, ◌≡◌, refl, ◌↔◌, ◌⊎◌, inl, inr, Bool, true, false, ◌||◌, List, [], ◌∷◌, ◌++◌, none, some, arith,
  All, Bool-cases, length, drop, append_assoc,
}
use kc_utils.Text.{Text, codes, text_eq, has_prefix}
use kc_utils.Text.Laws.{text_eq_iff, has_prefix-append, has_prefix-drop, Lacks}
use kc_utils.ConfigEdit.Grub.{cut, arg_name, is_present, names_arg}

-- The text begins so.
abbrev pub Begins : Text → Text → Type 0
Begins p a = (v : Text) × (a ≡ p ++ v)

-- The argument is the name, or the name with an `=` and a value.
abbrev pub Names : Text → Text → Type 0
Names name a = (a ≡ name) ⊎ Begins (name ++ codes "=") a

-- The argument is the one to add, or gives its name a value.
abbrev pub IsSetBefore : Text → Text → Text → Type 0
IsSetBefore arg name a = (a ≡ arg) ⊎ Begins (name ++ codes "=") a

unfoldable pub AnyArg : (Text → Type 0) → List Text → Type 0
AnyArg P [] = ⊥
AnyArg P (a ∷ args) = P a ⊎ AnyArg P args

-- The second list is the first without exactly the arguments that have the name.
unfoldable pub IsRemoval : Text → List Text → List Text → Type 0
IsRemoval name [] after = after ≡ []
IsRemoval name (a ∷ args) after =
    (Names name a × IsRemoval name args after)
    ⊎ ((¬ Names name a) × ((rest : List Text) × (after ≡ a ∷ rest) × IsRemoval name args rest))

has_prefix_iff : (a p : Text) → (has_prefix a p ≡ true) ↔ Begins p a
has_prefix_iff a p =
    (λ h. (drop (length p) a, has_prefix-drop a p h), λ (v, e). rw e (has_prefix-append p v))

or_iff : {P Q : Type 0} (a b : Bool) → (a ≡ true) ↔ P → (b ≡ true) ↔ Q → ((a || b) ≡ true) ↔ (P ⊎ Q)
or_iff true b h k = (λ e. inl (h.0 refl), λ e. refl)
or_iff false b h k = (λ e. inr (k.0 e), λ e. elim e [ inl p ↦ absurd (cc (h.1 p)) | inr q ↦ k.1 q ])

pub names_arg_iff : (name a : Text) → (names_arg name a ≡ true) ↔ Names name a
unfolding names_arg text_eq
names_arg_iff name a =
    or_iff (text_eq a name) (has_prefix a (name ++ codes "=")) (text_eq_iff a name)
      (has_prefix_iff a (name ++ codes "="))

cut-none : (b : ℕ) (s : Text) → Lacks b s → cut b s ≡ none
unfolding cut
cut-none b [] h = refl
cut-none b (c ∷ s) h = rw (h.0, cut-none b s h.1) refl

cut-some : (b : ℕ) (s v : Text) → Lacks b s → cut b (s ++ b ∷ v) ≡ some (s, v)
unfolding cut
cut-some b [] v h = ground arith
cut-some b (c ∷ s) v h = rw (h.0, cut-some b s v h.1) refl

pub arg_name-Names : (name arg : Text) → Lacks b'=' name → Names name arg → arg_name arg ≡ name
unfolding arg_name
arg_name-Names name arg l (inl e) = rw (e, cut-none b'=' name l) refl
arg_name-Names name arg l (inr (v, e)) =
    rw (e, append_assoc name (codes "=") v, cut-some b'=' name v l) refl

module _ (arg name : Text) (named : arg_name arg ≡ name) where
  abbrev is_set : Text → Bool
  is_set a = text_eq a arg || has_prefix a (arg_name arg ++ codes "=")

  is_set_iff : (a : Text) → (is_set a ≡ true) ↔ IsSetBefore arg name a
  is_set_iff a = rw named (
      or_iff (text_eq a arg) (has_prefix a (name ++ codes "=")) (text_eq_iff a arg)
        (has_prefix_iff a (name ++ codes "=")))

  pub is_present-true :
      (args : List Text) → is_present arg args ≡ true → AnyArg (IsSetBefore arg name) args
  unfolding is_present AnyArg
  is_present-true [] e = absurd (cc (e))
  is_present-true (a ∷ args) e = elim (Bool-cases (is_set a)) [
    | inl f ↦ inl ((is_set_iff a).0 f)
    | inr f ↦ inr (is_present-true args (ground (arith, f, e)))
  ]

  pub is_present-false :
      (args : List Text) → is_present arg args ≡ false → All (λ a. ¬ IsSetBefore arg name a) args
  unfolding is_present
  is_present-false [] e = tt
  is_present-false (a ∷ args) e =
      let f : is_set a ≡ false = ground (arith, e) in
      (λ h. absurd (cc (f, (is_set_iff a).1 h)), is_present-false args (ground (arith, f, e)))
