-- ===== src/ConfigEdit/Grub/KernelArgs.antt =====
-- The kernel arguments of GRUB_CMDLINE_LINUX after an edit.
pub mod ArgNames
use kc_utils.Base.{
  ◌≡◌, refl, true, ◌⊎◌, ap, ◌∙◌, false, List, [], ◌∷◌, ◌++◌, if◌then◌else◌, All, All-append,
  Bool-cases, inl, inr,
}
use kc_utils.Text.{Text, fields, join}
use kc_utils.Text.Laws.{text_eq_refl, Lacks}
use kc_utils.ConfigEdit.Grub.KernelArgs.ArgNames.{
  Names, AnyArg, IsSetBefore, IsRemoval, names_arg_iff, arg_name-Names, is_present-true,
  is_present-false,
}
use kc_utils.Text.Words.{IsWord, fields-join, fields-All}
use kc_utils.ConfigEdit.Grub.{
  Config, get, lookup, set_value, cmdline, get_kernel_args, is_present, add_kernel_arg, names_arg,
  without_arg, remove_kernel_arg,
}

get-set_self : (c : Config) (key value : Text) → get (set_value c key value) key ≡ value
unfolding get lookup set_value
get-set_self c key value = rw (text_eq_refl key) refl

get_kernel_args-set :
    (c : Config) (args : List Text)
    → All IsWord args
    → get_kernel_args (set_value c cmdline (join (b' ' ∷ []) args)) ≡ args
unfolding get_kernel_args
get_kernel_args-set c args h =
    ap fields (get-set_self c cmdline (join (b' ' ∷ []) args)) ∙ fields-join b' ' args refl h

get_kernel_args-All : (c : Config) → All IsWord (get_kernel_args c)
unfolding get_kernel_args
get_kernel_args-All c = fields-All (get c cmdline)

get_kernel_args-appended :
    (c : Config) (arg : Text)
    → IsWord arg
    → is_present arg (get_kernel_args c) ≡ false
    → get_kernel_args (add_kernel_arg c arg) ≡ get_kernel_args c ++ arg ∷ []
unfolding add_kernel_arg
get_kernel_args-appended c arg h e = rw e (
    get_kernel_args-set c (get_kernel_args c ++ arg ∷ [])
      (All-append IsWord (get_kernel_args c) (arg ∷ []) (get_kernel_args-All c) (h, tt)))

get_kernel_args-present :
    (c : Config) (arg : Text)
    → is_present arg (get_kernel_args c) ≡ true
    → get_kernel_args (add_kernel_arg c arg) ≡ get_kernel_args c
unfolding add_kernel_arg
get_kernel_args-present c arg e = rw e refl

-- Adding an argument that is a word, whose name is the text before its first `=` or all of it: if one of
-- the arguments is the argument, or the name with an `=` and a value, the arguments stay as they are;
-- if none is, the argument is put behind them.
pub get_kernel_args-add :
    (c : Config) (arg name : Text)
    → IsWord arg
    → Lacks b'=' name
    → Names name arg
    → (AnyArg (IsSetBefore arg name) (get_kernel_args c)
        × (get_kernel_args (add_kernel_arg c arg) ≡ get_kernel_args c))
      ⊎ (All (λ a. ¬ IsSetBefore arg name a) (get_kernel_args c)
          × (get_kernel_args (add_kernel_arg c arg) ≡ get_kernel_args c ++ arg ∷ []))
get_kernel_args-add c arg name h l n = elim (Bool-cases (is_present arg (get_kernel_args c))) [
  | inl e ↦ inl (
    is_present-true arg name (arg_name-Names name arg l n) (get_kernel_args c) e,
    get_kernel_args-present c arg e,
  )
  | inr e ↦ inr (
    is_present-false arg name (arg_name-Names name arg l n) (get_kernel_args c) e,
    get_kernel_args-appended c arg h e,
  )
]

without_arg-All :
    (P : Text → Type 0) (prefix : Text) (args : List Text)
    → All P args
    → All P (without_arg prefix args)
unfolding without_arg
without_arg-All P prefix [] h = tt
without_arg-All P prefix (a ∷ args) h = elim (Bool-cases (names_arg prefix a)) [
  | inl e ↦ rw e (without_arg-All P prefix args h.1)
  | inr e ↦ rw e (h.0, without_arg-All P prefix args h.1)
]

without_arg-IsRemoval :
    (prefix : Text) (args : List Text) → IsRemoval prefix args (without_arg prefix args)
unfolding without_arg IsRemoval
without_arg-IsRemoval prefix [] = refl
without_arg-IsRemoval prefix (a ∷ args) = elim (Bool-cases (names_arg prefix a)) [
  | inl e ↦ rw e (inl ((names_arg_iff prefix a).0 e, without_arg-IsRemoval prefix args))
  | inr e ↦ rw e (
      inr (
        λ n. absurd (cc (e, (names_arg_iff prefix a).1 n)),
        (without_arg prefix args, refl, without_arg-IsRemoval prefix args),
      ))
]

-- After the removal of an argument, the arguments are those of before, in their order, without exactly
-- the ones that are the name, or the name with an `=` and a value.
pub get_kernel_args-remove :
    (c : Config) (prefix : Text)
    → IsRemoval prefix (get_kernel_args c) (get_kernel_args (remove_kernel_arg c prefix))
unfolding remove_kernel_arg
get_kernel_args-remove c prefix =
    let args = without_arg prefix (get_kernel_args c) in
    let same =
      get_kernel_args-set c args
        (without_arg-All IsWord prefix (get_kernel_args c) (get_kernel_args-All c)) in
    rw same (without_arg-IsRemoval prefix (get_kernel_args c))
