-- ===== src/Copy/Pool/Sum.antt =====
-- Sums over the first `n` workers.
use kc_utils.Base.{ℕ, zero, suc, ◌+◌, ◌≡◌, ◌≤◌, ◌<◌, inl, inr, refl, arith, ◌==◌, Bool-cases}
use kc_utils.Copy.Pool.{Phase, set_phase}

module _ (w : Phase → ℕ) where
  unfoldable pub total : ℕ → (ℕ → Phase) → ℕ
  total zero f = 0
  total (suc n) f = total n f + w (f n)

  total-set_of_le :
      (n : ℕ) (f : ℕ → Phase) (i : ℕ) (a : Phase) → n ≤ i → total n (set_phase f i a) ≡ total n f
  unfolding total
  total-set_of_le zero f i a h = refl
  total-set_of_le (suc n) f i a h = ground (arith, total-set_of_le n f i a)

  pub total-set :
      (n : ℕ) (f : ℕ → Phase) (i : ℕ) (a : Phase)
      → i < n
      → total n (set_phase f i a) + w (f i) ≡ total n f + w a
  unfolding total
  total-set zero f i a h = absurd (omega arith)
  total-set (suc n) f i a h = elim (Bool-cases (n == i)) [
    | inl e ↦ ground (arith, total-set_of_le n f i a)
    | inr e ↦ ground (arith, total-set n f i a)
  ]

pub total-le_of :
    (w v : Phase → ℕ) (n : ℕ) (f : ℕ → Phase)
    → ((a : Phase) → w a ≤ v a)
    → total w n f ≤ total v n f
unfolding total
total-le_of w v zero f h = omega arith
total-le_of w v (suc n) f h = omega (arith, total-le_of w v n f h, h (f n))
