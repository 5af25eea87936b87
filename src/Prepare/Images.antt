-- ===== src/Prepare/Images.antt =====
-- The names of the images, as kc-copy writes them and kc-prepare reads them.
use kc_utils.Base.{
  ℕ, zero, suc, ◌+◌, ◌-◌, ◌/◌, ◌%◌, ◌^◌, ◌≤◌, ◌<◌, ◌≡◌, refl, ap, ◌∙◌, inl, inr, true, [], ◌∷◌,
  ◌++◌, some, arith, ◌==◌, ltb, Bool-cases, length, take, length-append,
}
use kc_utils.Text.{Text, codes, has_prefix}
use kc_utils.Overlay.{digits, decimal}
use kc_utils.Copy.Select.{all_digits}
use kc_utils.Copy.Select.Lookup.{has_suffix-append, take-append}
use kc_utils.Copy.Plan.{image_file_name, value_from}
use kc_utils.Prepare.{image_number}

value_from-digits :
    (fuel n : ℕ) (acc : Text) → n < fuel → value_from 0 (digits fuel n acc) ≡ value_from n acc
unfolding digits value_from
value_from-digits zero n acc h = absurd (omega (arith, h))
value_from-digits (suc fuel) n acc h = elim (Bool-cases (n / 10 == 0)) [
  | inl e ↦ rw e (ap (λ k. value_from k acc) (ground (arith, e)))
  | inr e ↦ rw e (
      value_from-digits fuel (n / 10) ((b'0' + n % 10) ∷ acc) (ground (arith, h, e))
      ∙ ap (λ k. value_from k acc) (omega arith))
]

all_digits-digits :
    (fuel n : ℕ) (acc : Text) → all_digits acc ≡ true → all_digits (digits fuel n acc) ≡ true
unfolding digits all_digits
all_digits-digits zero n acc h = h
all_digits-digits (suc fuel) n acc h =
    let one : all_digits ((b'0' + n % 10) ∷ acc) ≡ true = ground (arith, h) in
    elim (Bool-cases (n / 10 == 0)) [
      | inl e ↦ rw e one
      | inr e ↦ rw e (all_digits-digits fuel (n / 10) ((b'0' + n % 10) ∷ acc) one)
    ]

length-digits : (fuel n : ℕ) (acc : Text) → length acc ≤ length (digits fuel n acc)
unfolding digits
length-digits zero n acc = omega arith
length-digits (suc fuel) n acc = elim (Bool-cases (n / 10 == 0)) [
  | inl e ↦ rw e (omega arith)
  | inr e ↦ rw e (omega (arith, length-digits fuel (n / 10) ((b'0' + n % 10) ∷ acc)))
]

length-digits_pos : (fuel n : ℕ) → 1 ≤ fuel → 1 ≤ length (digits fuel n [])
unfolding digits
length-digits_pos zero n h = absurd (omega (arith, h))
length-digits_pos (suc fuel) n h = elim (Bool-cases (n / 10 == 0)) [
  | inl e ↦ rw e (omega arith)
  | inr e ↦ rw e (length-digits fuel (n / 10) ((b'0' + n % 10) ∷ []))
]

-- The digits of a name, and their number.
middle_of :
    (ds : Text) → take (length (codes "disk" ++ (ds ++ codes ".img")) - 8) (ds ++ codes ".img") ≡ ds
middle_of ds =
    ap (λ k. take k (ds ++ codes ".img")) (omega (arith, length-append ds (codes ".img")))
    ∙ take-append ds (codes ".img")

image_number-digits :
    (ds : Text)
    → 1 ≤ length ds
    → all_digits ds ≡ true
    → value_from 0 ds < 2 ^ 63
    → image_number (codes "disk" ++ (ds ++ codes ".img")) ≡ some (value_from 0 ds)
unfolding image_number has_prefix
image_number-digits ds one digital small =
    let long : ltb 8 (length (codes "disk" ++ (ds ++ codes ".img"))) ≡ true =
      ground (arith, length-append ds (codes ".img"), one) in
    let below : ltb (value_from 0 ds) (2 ^ 63) ≡ true = ground (arith, small) in
    rw (middle_of ds, has_suffix-append (codes "disk" ++ ds) (codes ".img"), long, digital, below)
      refl

-- The name that kc-copy gives to an image is read back by kc-prepare as its number, for the numbers of an
-- `int`.
pub image_number-image_file_name : (n : ℕ) → n < 2 ^ 63 → image_number (image_file_name n) ≡ some n
unfolding image_file_name decimal value_from all_digits
image_number-image_file_name n h =
    let value : value_from 0 (digits (n + 1) n []) ≡ n =
      value_from-digits (n + 1) n [] (omega arith) in
    image_number-digits (digits (n + 1) n []) (length-digits_pos (n + 1) n (omega arith))
      (all_digits-digits (n + 1) n [] refl) (rw value h)
    ∙ ap some value
