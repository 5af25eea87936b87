-- ===== src/Sort.antt =====
-- `sort.Slice`, `sort.SliceStable` and `sort.Strings` as insertion sort: items that compare alike
-- keep their order, as Go's `sort.Slice` keeps it for up to twelve items.
use mathlib.Core.List.{Perm}
use mathlib.Core.List.Perm
use kc_utils.Base.{
  ℕ, ◌≤◌, ◌≡◌, Bool, true, false, List, [], ◌∷◌, arith, ltb, ◌==◌, ◌||◌, ◌&&◌, if◌then◌else◌, inl,
  inr, Bool-cases, All, All-append, ◌++◌,
}
use kc_utils.Text.{Text}

module _ {ℓ} {A : Type ℓ} (less : A → A → Bool) where
  unfoldable pub insert : A → List A → List A
  insert x [] = x ∷ []
  insert x (y ∷ ys) = if less y x then y ∷ insert x ys else x ∷ y ∷ ys

  unfoldable pub sort : List A → List A
  unfolding insert
  sort [] = []
  sort (x ∷ xs) = insert x (sort xs)

  pub insert-Perm : (x : A) (ys : List A) → Perm (insert x ys) (x ∷ ys)
  unfolding insert
  insert-Perm x [] = Perm.refl (x ∷ [])
  insert-Perm x (y ∷ ys) = elim (Bool-cases (less y x)) [
    | inl e ↦ rw e (Perm.trans (Perm.cons y (insert-Perm x ys)) (Perm.swap x y ys))
    | inr e ↦ rw e (Perm.refl (x ∷ y ∷ ys))
  ]

  -- A sort keeps the items.
  pub sort-Perm : (xs : List A) → Perm (sort xs) xs
  unfolding sort
  sort-Perm [] = Perm.refl []
  sort-Perm (x ∷ xs) = Perm.trans (insert-Perm x (sort xs)) (Perm.cons x (sort-Perm xs))

-- `<` on strings.
unfoldable pub text_less : Text → Text → Bool
text_less [] [] = false
text_less [] (y ∷ ys) = true
text_less (x ∷ xs) [] = false
text_less (x ∷ xs) (y ∷ ys) = ltb x y || x == y && text_less xs ys

module _ {ℓ} {A : Type ℓ} (key : A → ℕ) where
  abbrev pub by_key : A → A → Bool
  by_key a b = ltb (key a) (key b)

  -- The keys do not fall.
  abbrev pub Ascending : List A → Type 0
  Ascending [] = Unit
  Ascending (x ∷ xs) = All (λ y. key x ≤ key y) xs × Ascending xs

  All-insert :
      (n : ℕ) (x : A) (ys : List A)
      → n ≤ key x
      → All (λ y. n ≤ key y) ys
      → All (λ y. n ≤ key y) (insert by_key x ys)
  unfolding insert
  All-insert n x [] h a = (h, tt)
  All-insert n x (y ∷ ys) h a = ground (arith, All-insert n x ys h a.1)

  All-le : (m n : ℕ) (ys : List A) → m ≤ n → All (λ y. n ≤ key y) ys → All (λ y. m ≤ key y) ys
  All-le m n [] h a = tt
  All-le m n (y ∷ ys) h a = (omega (arith, a.0), All-le m n ys h a.1)

  insert-Ascending : (x : A) (ys : List A) → Ascending ys → Ascending (insert by_key x ys)
  unfolding insert
  insert-Ascending x [] a = (tt, tt)
  insert-Ascending x (y ∷ ys) a = elim (Bool-cases (by_key y x)) [
    | inl e ↦ rw e (All-insert (key y) x ys (ground arith) a.0, insert-Ascending x ys a.1)
    | inr e ↦ rw e ((ground arith, All-le (key x) (key y) ys (ground arith) a.0), a)
  ]

  pub sort-Ascending : (xs : List A) → Ascending (sort by_key xs)
  unfolding sort
  sort-Ascending [] = tt
  sort-Ascending (x ∷ xs) = insert-Ascending x (sort by_key xs) (sort-Ascending xs)

-- Each item stands in the relation to each later one.
abbrev pub Pairwise {ℓ κ} : {A : Type ℓ} → (A → A → Type κ) → List A → Type κ
Pairwise R [] = Unit
Pairwise R (x ∷ xs) = All (R x) xs × Pairwise R xs

module _ {ℓ κ} {A : Type ℓ} (less : A → A → Bool) (P : A → Type κ) where
  insert-All : (x : A) (ys : List A) → P x → All P ys → All P (insert less x ys)
  unfolding insert
  insert-All x [] p h = (p, tt)
  insert-All x (y ∷ ys) p h = elim (Bool-cases (less y x)) [
    | inl e ↦ rw e (h.0, insert-All x ys p h.1)
    | inr e ↦ rw e (p, h)
  ]

  pub sort-All : (xs : List A) → All P xs → All P (sort less xs)
  unfolding sort
  sort-All [] h = tt
  sort-All (x ∷ xs) h = insert-All x (sort less xs) h.0 (sort-All xs h.1)

module _ {ℓ κ} {A : Type ℓ} (less : A → A → Bool) (R : A → A → Type κ)
    (symmetric : (x y : A) → R x y → R y x) where
  insert-Pairwise :
      (x : A) (ys : List A) → All (R x) ys → Pairwise R ys → Pairwise R (insert less x ys)
  unfolding insert
  insert-Pairwise x [] a h = (tt, tt)
  insert-Pairwise x (y ∷ ys) a h = elim (Bool-cases (less y x)) [
    | inl e ↦
        rw e (insert-All less (R y) x ys (symmetric x y a.0) h.0, insert-Pairwise x ys a.1 h.1)
    | inr e ↦ rw e (a, h)
  ]

  -- A relation that is symmetric holds between the items of a sorted list as before.
  pub sort-Pairwise : (xs : List A) → Pairwise R xs → Pairwise R (sort less xs)
  unfolding sort
  sort-Pairwise [] h = tt
  sort-Pairwise (x ∷ xs) h =
      insert-Pairwise x (sort less xs) (sort-All less (R x) xs h.0) (sort-Pairwise xs h.1)

pub Pairwise-last {ℓ κ} :
    {A : Type ℓ} (R : A → A → Type κ) (xs : List A) (y : A)
    → Pairwise R xs
    → All (λ x. R x y) xs
    → Pairwise R (xs ++ y ∷ [])
Pairwise-last R [] y h a = (tt, tt)
Pairwise-last R (x ∷ xs) y h a =
    (All-append (R x) xs (y ∷ []) h.0 (a.0, tt), Pairwise-last R xs y h.1 a.1)

-- The second may stand behind the first.
abbrev pub MayFollow {ℓ} : {A : Type ℓ} → (A → A → Bool) → A → A → Type 0
MayFollow less x y = less y x ≡ false

-- A sort by a total preorder: `less` and its negation are transitive.
module _ {ℓ} {A : Type ℓ} (less : A → A → Bool)
    (asymmetric : (x y : A) → less x y ≡ true → less y x ≡ false)
    (transitive : (x y z : A) → less y x ≡ false → less z y ≡ false → less z x ≡ false) where
  All-MayFollow :
      (x y : A) (zs : List A)
      → MayFollow less x y
      → All (MayFollow less y) zs
      → All (MayFollow less x) zs
  All-MayFollow x y [] h a = tt
  All-MayFollow x y (z ∷ zs) h a = (transitive x y z h a.0, All-MayFollow x y zs h a.1)

  insert-MayFollow :
      (x : A) (ys : List A)
      → Pairwise (MayFollow less) ys
      → Pairwise (MayFollow less) (insert less x ys)
  unfolding insert
  insert-MayFollow x [] h = (tt, tt)
  insert-MayFollow x (y ∷ ys) h = elim (Bool-cases (less y x)) [
    | inl e ↦
        rw e (
          insert-All less (MayFollow less y) x ys (asymmetric y x e) h.0,
          insert-MayFollow x ys h.1,
        )
    | inr e ↦ rw e ((e, All-MayFollow x y ys e h.0), h)
  ]

  -- No item of a sorted list is less than one before it.
  pub sort-MayFollow : (xs : List A) → Pairwise (MayFollow less) (sort less xs)
  unfolding sort
  sort-MayFollow [] = tt
  sort-MayFollow (x ∷ xs) = insert-MayFollow x (sort less xs) (sort-MayFollow xs)
