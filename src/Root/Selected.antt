-- ===== src/Root/Selected.antt =====
-- The candidate that each form of a choice stands for.
use kc_utils.Base.{
  ◌≡◌, ◌≢◌, refl, ap, sym, ◌∙◌, ◌⊎◌, inl, inr, true, false, List, [], ◌∷◌, ◌++◌, arith, Bool-cases,
  All,
}
use kc_utils.Text.{Text, text_eq, has_prefix, trim_space, codes}
use kc_utils.Text.Laws.{text_eq_iff}
use kc_utils.Root.{
  RootCandidate, selected, select_first, select_single, select_device, selectors, or_first,
  select_choice, select,
}

-- The candidate is the first of the list that the device names.
abbrev IsFirstAt : Text → RootCandidate → List RootCandidate → Type 0
IsFirstAt device c cs =
    (before : List RootCandidate) × (after : List RootCandidate) × (cs ≡ before ++ c ∷ after)
    × (c.device_path ≡ device)
    × All (λ d. d.device_path ≢ device) before

text_eq-ne : (a b : Text) → text_eq a b ≡ false → a ≢ b
text_eq-ne a b h e = absurd (ground (arith, h, (text_eq_iff a b).1 e))

cons-IsFirstAt :
    (device : Text) (c d : RootCandidate) (cs : List RootCandidate)
    → d.device_path ≢ device
    → IsFirstAt device c cs
    → IsFirstAt device c (d ∷ cs)
cons-IsFirstAt device c d cs ne (before, after, e, same, others) =
    (d ∷ before, after, ap (◌∷◌ d) e, same, (ne, others))

select_device-IsFirstAt :
    (cs : List RootCandidate) (device : Text) (c : RootCandidate)
    → select_device cs device ≡ selected c
    → IsFirstAt device c cs
unfolding select_device
select_device-IsFirstAt [] device c = λ e. cc
select_device-IsFirstAt (d ∷ cs) device c = elim (Bool-cases (text_eq d.device_path device)) [
  | inl f ↦
      rw (f, select_device)
        λ e.
          (let same : d ≡ c = cc in
            (
              [],
              cs,
              ap (λ x. x ∷ cs) same,
              ap (λ x. x.device_path) (sym same) ∙ (text_eq_iff d.device_path device).0 f,
              tt,
            ))
  | inr f ↦
      rw (f, select_device)
        λ e.
          cons-IsFirstAt device c d cs (text_eq-ne d.device_path device f)
            (select_device-IsFirstAt cs device c e)
]

select_first-head :
    (cs : List RootCandidate) (choice : Text) (c : RootCandidate)
    → select_first cs choice ≡ selected c
    → (rest : List RootCandidate) × (cs ≡ c ∷ rest)
unfolding select_first
select_first-head [] choice c e = cc
select_first-head (d ∷ cs) choice c e = let same : d ≡ c = cc in (cs, ap (λ x. x ∷ cs) same)

select_single-only :
    (cs : List RootCandidate) (choice : Text) (c : RootCandidate)
    → select_single cs choice ≡ selected c
    → cs ≡ c ∷ []
unfolding select_single
select_single-only [] choice c e = cc
select_single-only (d ∷ []) choice c e = let same : d ≡ c = cc in ap (λ x. x ∷ []) same
select_single-only (d ∷ x ∷ cs) choice c e = cc

-- What a choice stands for.
abbrev pub IsChosen : Text → RootCandidate → List RootCandidate → Type 0
IsChosen choice c cs =
    (choice ≡ codes "single") × (cs ≡ c ∷ [])
    ⊎ ((choice ≡ codes "first") × ((rest : List RootCandidate) × (cs ≡ c ∷ rest))
        ⊎ ((has_prefix choice (codes "/dev/") ≡ true) × IsFirstAt choice c cs))

select_choice-IsChosen :
    (cs : List RootCandidate) (choice : Text) (c : RootCandidate)
    → select_choice selectors cs choice ≡ selected c
    → IsChosen choice c cs
unfolding select_choice selectors
select_choice-IsChosen cs choice c = elim (Bool-cases (text_eq choice (codes "single"))) [
  | inl s ↦
      rw (s, select_choice)
        λ e. inl ((text_eq_iff choice (codes "single")).0 s, select_single-only cs choice c e)
  | inr s ↦ elim (Bool-cases (text_eq choice (codes "first"))) [
    | inl f ↦
        rw (s, f, select_choice)
          λ e. inr (inl ((text_eq_iff choice (codes "first")).0 f, select_first-head cs choice c e))
    | inr f ↦ elim (Bool-cases (has_prefix choice (codes "/dev/"))) [
      | inl d ↦
          rw (s, f, d, select_choice) λ e. inr (inr (refl, select_device-IsFirstAt cs choice c e))
      | inr d ↦ rw (s, f, d, select_choice) λ e. cc
    ]
  ]
]

-- A candidate that `Select` answers is what the choice stands for, which is the trimmed text, or
-- "first" if that is empty: with "single" the only candidate, with "first" the first one, and with a
-- device path the first one at that device.
pub select-IsChosen :
    (cs : List RootCandidate) (text : Text) (c : RootCandidate)
    → select selectors cs text ≡ selected c
    → IsChosen (or_first (trim_space text)) c cs
unfolding select
select-IsChosen cs text c e = select_choice-IsChosen cs (or_first (trim_space text)) c e
