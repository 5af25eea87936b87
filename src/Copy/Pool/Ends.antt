-- ===== src/Copy/Pool/Ends.antt =====
-- How the steps of the workers end.
use kc_utils.Base.{
  ℕ, zero, suc, ◌+◌, ◌*◌, ◌≡◌, ◌≤◌, ◌<◌, ◌⊎◌, refl, inl, inr, arith, ap, Bool-cases,
}
use kc_utils.Copy.Pool.Sum.{total, total-set}
use kc_utils.Copy.Pool.Invariant.{holds, Reach-IsSound}
use kc_utils.Copy.Pool.{
  Phase, waiting, admitted, copying, copied, releasing, finished, Pool, move, acquire, fail,
  record_disk, release, Step, quits, acquires, turns_back, begins, fails, succeeds, records,
  releases, Reach, at_start, next,
}

-- How many steps a worker has still to go, at most.
abbrev to_go : Phase → ℕ
to_go waiting = 5
to_go admitted = 4
to_go copying = 3
to_go copied = 2
to_go releasing = 1
to_go finished = 0

abbrev pub steps : {n slots : ℕ} {p : Pool} → Reach n slots p → ℕ
steps at_start = 0
steps (next r st) = steps r + 1

Step-to_go :
    {n slots : ℕ} {p q : Pool} → Step n slots p q → total to_go n q.phases < total to_go n p.phases
unfolding acquire fail record_disk release
Step-to_go {n} {p} (quits i lt e c) =
    let sum = rw e at (total-set to_go n p.phases i finished lt) in omega (arith, sum)
Step-to_go {n} {p} (acquires i lt e c) =
    let sum = rw e at (total-set to_go n p.phases i admitted lt) in omega (arith, sum)
Step-to_go {n} {p} (turns_back i lt e c) =
    let sum = rw e at (total-set to_go n p.phases i releasing lt) in omega (arith, sum)
Step-to_go {n} {p} (begins i lt e c) =
    let sum = rw e at (total-set to_go n p.phases i copying lt) in omega (arith, sum)
Step-to_go {n} {p} (fails i d lt e) =
    let sum = rw e at (total-set to_go n p.phases i releasing lt) in omega (arith, sum)
Step-to_go {n} {p} (succeeds i lt e) =
    let sum = rw e at (total-set to_go n p.phases i copied lt) in omega (arith, sum)
Step-to_go {n} {p} (records i lt e) =
    let sum = rw e at (total-set to_go n p.phases i releasing lt) in omega (arith, sum)
Step-to_go {n} {p} (releases i lt e) =
    let sum = rw e at (total-set to_go n p.phases i finished lt) in omega (arith, sum)

total-to_go : (n : ℕ) → total to_go n (λ i. waiting) ≡ 5 * n
unfolding total
total-to_go zero = refl
total-to_go (suc n) = omega (arith, total-to_go n)

steps-to_go :
    {n slots : ℕ} {p : Pool} (r : Reach n slots p) → steps r + total to_go n p.phases ≤ 5 * n
steps-to_go {n} at_start = omega (arith, total-to_go n)
steps-to_go (next r st) = omega (arith, steps-to_go r, Step-to_go st)

-- Some step is possible.
abbrev pub CanGo : ℕ → ℕ → Pool → Type 0
CanGo n slots p = (q : Pool) × Step n slots p q

-- A worker with a slot is never held up.
holder-CanGo :
    {n slots : ℕ} {p : Pool} (i : ℕ) (a : Phase)
    → i < n
    → p.phases i ≡ a
    → holds a ≡ 1
    → CanGo n slots p
holder-CanGo i waiting lt e h = absurd (omega (arith, h))
holder-CanGo {p} i admitted lt e h = elim (Bool-cases p.cancelled) [
  | inl c ↦ (move p i releasing, turns_back i lt e c)
  | inr c ↦ (move p i copying, begins i lt e c)
]
holder-CanGo {p} i copying lt e h = (move p i copied, succeeds i lt e)
holder-CanGo {p} i copied lt e h = (record_disk p i, records i lt e)
holder-CanGo {p} i releasing lt e h = (release p i, releases i lt e)
holder-CanGo i finished lt e h = absurd (omega (arith, h))

phase_cases : (a : Phase) → (a ≡ finished) ⊎ (a ≡ waiting) ⊎ (holds a ≡ 1)
phase_cases waiting = inr (inl refl)
phase_cases admitted = inr (inr refl)
phase_cases copying = inr (inr refl)
phase_cases copied = inr (inr refl)
phase_cases releasing = inr (inr refl)
phase_cases finished = inl refl

-- One of the workers has a slot, or none has.
find_holder :
    (n : ℕ) (f : ℕ → Phase) → (total holds n f ≡ 0) ⊎ ((i : ℕ) × (i < n) × (holds (f i) ≡ 1))
unfolding total
find_holder zero f = inl refl
find_holder (suc n) f = elim (find_holder n f) [
  | inl e ↦ elim (phase_cases (f n)) [
    | inl h ↦ inl (omega (arith, e, ap holds h))
    | inr (inl h) ↦ inl (omega (arith, e, ap holds h))
    | inr (inr h) ↦ inr (n, omega arith, h)
  ]
  | inr (i, lt, h) ↦ inr (i, omega (arith, lt), h)
]

-- The first workers have all finished.
abbrev pub AllFinished : ℕ → (ℕ → Phase) → Type 0
AllFinished zero f = Unit
AllFinished (suc n) f = AllFinished n f × (f n ≡ finished)

-- All of the first workers have finished, or one of them has not.
find_unfinished :
    (n : ℕ) (f : ℕ → Phase)
    → AllFinished n f ⊎ ((i : ℕ) × (i < n) × ((f i ≡ waiting) ⊎ (holds (f i) ≡ 1)))
find_unfinished zero f = inl tt
find_unfinished (suc n) f = elim (find_unfinished n f) [
  | inl all ↦ elim (phase_cases (f n)) [ inl h ↦ inl (all, h) | inr h ↦ inr (n, omega arith, h) ]
  | inr (i, lt, h) ↦ inr (i, omega (arith, lt), h)
]

module _ {n slots : ℕ} {p : Pool} (r : Reach n slots p) (room : 1 ≤ slots) where
  waiting-CanGo : (i : ℕ) → i < n → p.phases i ≡ waiting → CanGo n slots p
  waiting-CanGo i lt e = elim (find_holder n p.phases) [
    | inl none ↦
        (acquire p i, acquires i lt e (omega (arith, none, (Reach-IsSound r).holding, room)))
    | inr (j, k, h) ↦ holder-CanGo j (p.phases j) k refl h
  ]

  CanGo-or-finished : AllFinished n p.phases ⊎ CanGo n slots p
  CanGo-or-finished = elim (find_unfinished n p.phases) [
    | inl all ↦ inl all
    | inr (i, lt, inl e) ↦ inr (waiting-CanGo i lt e)
    | inr (i, lt, inr h) ↦ inr (holder-CanGo i (p.phases i) lt refl h)
  ]

-- The workers end in every order, given one slot at least: they have made five steps each at most, and
-- until all have finished one of them can go on, so that none waits for ever.
pub Reach-ends :
    (n slots : ℕ) (p : Pool) (r : Reach n slots p)
    → 1 ≤ slots
    → (steps r ≤ 5 * n) × (AllFinished n p.phases ⊎ CanGo n slots p)
Reach-ends n slots p r room = (omega (arith, steps-to_go r), CanGo-or-finished r room)
