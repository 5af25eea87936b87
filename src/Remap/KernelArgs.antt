-- ===== src/Remap/KernelArgs.antt =====
-- The renamed kernel arguments.
use kc_utils.Base.{
  ◌≡◌, refl, ap, sym, ◌∙◌, ◌↔◌, ◌⊎◌, inl, inr, true, false, List, [], ◌∷◌, ◌++◌, map, none, some,
  arith, All, Bool-cases, Option-cases, length, drop,
}
use kc_utils.Text.{Text, codes, has_prefix, trim_prefix}
use kc_utils.Text.Laws.{text_eq_iff, text_eq_refl, has_prefix-append, drop-append}
use kc_utils.Remap.Prefixes.{IsSettled}
use kc_utils.Remap.{
  Prefixes, standard_prefixes, replace_first, remap_arg_value, remap_kernel_arg, remap_kernel_args,
}

-- The new arguments are the old ones, each renamed, and the flag tells whether any differs.
pub remap_kernel_args-changed :
    (args : List Text) (ps : Prefixes)
    → ((remap_kernel_args args ps).0 ≡ map (λ a. remap_kernel_arg a ps) args)
      × (((remap_kernel_args args ps).1 ≡ false) ↔ ((remap_kernel_args args ps).0 ≡ args))
unfolding remap_kernel_args
remap_kernel_args-changed [] ps = (refl, ((λ e. refl), (λ e. refl)))
remap_kernel_args-changed (a ∷ args) ps =
    let rest = remap_kernel_args-changed args ps in
    (
      ap (◌∷◌ (remap_kernel_arg a ps)) rest.0,
      ground (arith, text_eq_iff (remap_kernel_arg a ps) a, rest.1),
    )

replace_first-settled : (ps : Prefixes) (v : Text) → IsSettled ps v → replace_first ps v ≡ none
unfolding replace_first
replace_first-settled [] v h = refl
replace_first-settled (p ∷ ps) v h = rw h.0 (replace_first-settled ps v h.1)

-- The new device begins like one of the replacements.
replace_first-shape :
    (P : Text → Type 0) (ps : Prefixes) (v w : Text)
    → All (λ p. (s : Text) → P (p.1 ++ s)) ps
    → replace_first ps v ≡ some w
    → P w
unfolding replace_first
replace_first-shape P [] v w h = λ e. cc
replace_first-shape P (p ∷ ps) v w h = elim (Bool-cases (has_prefix v p.0)) [
  | inl f ↦ rw (f, replace_first) λ e. ground (arith, h.0 (drop (length p.0) v), e)
  | inr f ↦ rw (f, replace_first) (replace_first-shape P ps v w h.1)
]

standard_prefixes-IsSettled :
    All (λ p. (s : Text) → IsSettled standard_prefixes (p.1 ++ s)) standard_prefixes
unfolding has_prefix
standard_prefixes-IsSettled = (
  (λ s. (refl, (refl, (refl, (refl, (refl, tt)))))),
  (
    (λ s. (refl, (refl, (refl, (refl, (refl, tt)))))),
    (
      (λ s. (refl, (refl, (refl, (refl, (refl, tt)))))),
      (
        (λ s. (refl, (refl, (refl, (refl, (refl, tt)))))),
        ((λ s. (refl, (refl, (refl, (refl, (refl, tt)))))), tt),
      ),
    ),
  ),
)

remap_arg_value-settled :
    (prefix v : Text)
    → IsSettled standard_prefixes v
    → remap_arg_value (prefix ++ v) prefix standard_prefixes ≡ prefix ++ v
unfolding remap_arg_value trim_prefix
remap_arg_value-settled prefix v h =
    rw
      (
        has_prefix-append prefix v,
        drop-append prefix v,
        replace_first-settled standard_prefixes v h,
      )
      refl

-- A value stays, or is renamed to one that no prefix fits.
remap_arg_value-cases :
    (a prefix : Text)
    → (remap_arg_value a prefix standard_prefixes ≡ a)
      ⊎ ((v : Text) × IsSettled standard_prefixes v
          × (remap_arg_value a prefix standard_prefixes ≡ prefix ++ v))
unfolding remap_arg_value
remap_arg_value-cases a prefix =
    elim (Option-cases (replace_first standard_prefixes (trim_prefix a prefix))) [
      | inl e ↦ rw e (inl refl)
      | inr (v, e) ↦ rw e (
          inr (
            v,
            replace_first-shape (IsSettled standard_prefixes) standard_prefixes
                (trim_prefix a prefix) v standard_prefixes-IsSettled e,
            refl,
          ))
    ]

module _ (prefix : Text)
    (chosen : (a : Text)
      → has_prefix a prefix ≡ true
      → remap_kernel_arg a standard_prefixes ≡ remap_arg_value a prefix standard_prefixes) where
  remap_chosen-again :
      (a : Text)
      → has_prefix a prefix ≡ true
      → remap_kernel_arg (remap_kernel_arg a standard_prefixes) standard_prefixes
        ≡ remap_kernel_arg a standard_prefixes
  remap_chosen-again a f = elim (remap_arg_value-cases a prefix) [
    | inl e ↦ ap (λ t. remap_kernel_arg t standard_prefixes) (chosen a f ∙ e)
    | inr (v, h, e) ↦
        ap (λ t. remap_kernel_arg t standard_prefixes) (chosen a f ∙ e)
        ∙ chosen (prefix ++ v) (has_prefix-append prefix v)
        ∙ remap_arg_value-settled prefix v h
        ∙ sym (chosen a f ∙ e)
  ]

remap_kernel_arg-resume :
    (a : Text)
    → has_prefix a (codes "resume=") ≡ true
    → remap_kernel_arg a standard_prefixes ≡ remap_arg_value a (codes "resume=") standard_prefixes
unfolding remap_kernel_arg
remap_kernel_arg-resume a e = rw e refl

root-not_resume :
    (a : Text) → has_prefix a (codes "root=") ≡ true → has_prefix a (codes "resume=") ≡ false
unfolding has_prefix
root-not_resume [] h = cc
root-not_resume (c ∷ []) h = ground (arith, h)
root-not_resume (c ∷ d ∷ a) h = ground (arith, h)

remap_kernel_arg-root :
    (a : Text)
    → has_prefix a (codes "root=") ≡ true
    → remap_kernel_arg a standard_prefixes ≡ remap_arg_value a (codes "root=") standard_prefixes
unfolding remap_kernel_arg
remap_kernel_arg-root a e = rw (root-not_resume a e, e) refl

remap_kernel_arg-other :
    (a : Text)
    → has_prefix a (codes "resume=") ≡ false
    → has_prefix a (codes "root=") ≡ false
    → remap_kernel_arg a standard_prefixes ≡ a
unfolding remap_kernel_arg
remap_kernel_arg-other a e f = rw (e, f) refl

remap_kernel_arg-again :
    (a : Text)
    → remap_kernel_arg (remap_kernel_arg a standard_prefixes) standard_prefixes
      ≡ remap_kernel_arg a standard_prefixes
remap_kernel_arg-again a = elim (Bool-cases (has_prefix a (codes "resume="))) [
  | inl e ↦ remap_chosen-again (codes "resume=") remap_kernel_arg-resume a e
  | inr e ↦ elim (Bool-cases (has_prefix a (codes "root="))) [
    | inl f ↦ remap_chosen-again (codes "root=") remap_kernel_arg-root a f
    | inr f ↦ ap (λ t. remap_kernel_arg t standard_prefixes) (remap_kernel_arg-other a e f)
  ]
]

-- Renaming the kernel arguments again, by the remapper's prefixes, changes none and says so.
pub remap_kernel_args-again :
    (args : List Text)
    → remap_kernel_args (remap_kernel_args args standard_prefixes).0 standard_prefixes
      ≡ ((remap_kernel_args args standard_prefixes).0, false)
unfolding remap_kernel_args
remap_kernel_args-again [] = refl
remap_kernel_args-again (a ∷ args) =
    rw
      (
        remap_kernel_args-again args,
        remap_kernel_arg-again a,
        text_eq_refl (remap_kernel_arg a standard_prefixes),
      )
      refl
