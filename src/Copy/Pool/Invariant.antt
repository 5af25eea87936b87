-- ===== src/Copy/Pool/Invariant.antt =====
-- The invariant of the workers: the slots, the error and the record.
use kc_utils.Base.{
  ℕ, zero, suc, ◌+◌, ◌≡◌, ◌≤◌, ◌<◌, refl, sym, ap, ◌∙◌, inl, inr, Bool, true, false, List, [], ◌∷◌,
  ◌++◌, Option, none, some, arith, ◌==◌, ==_iff, if◌then◌else◌, Bool-cases,
}
use kc_utils.Copy.Pool.Sum.{total, total-set, total-le_of}
use kc_utils.Copy.Pool.{
  Phase, waiting, admitted, copying, copied, releasing, finished, Pool, set_phase, move, or_first,
  acquire, fail, record_disk, release, Step, quits, acquires, turns_back, begins, fails, succeeds,
  records, releases, all_waiting, Reach, at_start, next,
}

-- The worker has a slot.
abbrev pub holds : Phase → ℕ
holds waiting = 0
holds finished = 0
holds _ = 1

abbrev pub copies : Phase → ℕ
copies copying = 1
copies _ = 0

abbrev pub has_error : Option ℕ → Bool
has_error none = false
has_error (some e) = true

-- How often a worker is in the record.
abbrev pub times : ℕ → List ℕ → ℕ
times i [] = 0
times i (j ∷ js) = (if j == i then 1 else 0) + times i js

-- How often a disk may be in the record: not before its worker is done with it, and then at most once,
-- and once if nothing has failed.
abbrev pub IsCounted : Bool → Phase → ℕ → Type 0
IsCounted cancelled releasing k = (k ≤ 1) × (cancelled ≡ false → k ≡ 1)
IsCounted cancelled finished k = (k ≤ 1) × (cancelled ≡ false → k ≡ 1)
IsCounted cancelled _ k = k ≡ 0

pub record IsSound (n slots : ℕ) (p : Pool) : Type 0 where
  pub within : p.held ≤ slots
  pub holding : total holds n p.phases ≡ p.held
  pub known : p.cancelled ≡ has_error p.first_err
  pub counted : (i : ℕ) → IsCounted p.cancelled (p.phases i) (times i p.recorded)

times-last :
    (i j : ℕ) (js : List ℕ) → times i (js ++ j ∷ []) ≡ times i js + (if j == i then 1 else 0)
times-last i j [] = ground arith
times-last i j (k ∷ js) = omega (arith, times-last i j js)

total-waiting : (n : ℕ) → total holds n (λ i. waiting) ≡ 0
unfolding total
total-waiting zero = refl
total-waiting (suc n) = omega (arith, total-waiting n)

all_waiting-IsSound : (n slots : ℕ) → IsSound n slots all_waiting
all_waiting-IsSound n slots = record {
  within = omega arith;
  holding = total-waiting n;
  known = refl;
  counted = λ i. refl;
}

-- The other workers are counted as before, when one goes on.
set_phase-IsCounted :
    (c : Bool) (f : ℕ → Phase) (i : ℕ) (a : Phase) (k : ℕ → ℕ)
    → IsCounted c a (k i)
    → ((j : ℕ) → (j == i) ≡ false → IsCounted c (f j) (k j))
    → (j : ℕ) → IsCounted c (set_phase f i a j) (k j)
set_phase-IsCounted c f i a k h others j = elim (Bool-cases (j == i)) [
  | inl e ↦ let same : j ≡ i = (==_iff j i).0 e in rw (e, same) h
  | inr e ↦ rw e (others j e)
]

-- A cancellation asks for no more.
cancelled-IsCounted : (c : Bool) (a : Phase) (k : ℕ) → IsCounted c a k → IsCounted true a k
cancelled-IsCounted c waiting k h = h
cancelled-IsCounted c admitted k h = h
cancelled-IsCounted c copying k h = h
cancelled-IsCounted c copied k h = h
cancelled-IsCounted c releasing k h = (h.0, λ e. absurd cc)
cancelled-IsCounted c finished k h = (h.0, λ e. absurd cc)

has_error-or_first : (o : Option ℕ) (e : ℕ) → has_error (or_first o e) ≡ true
has_error-or_first none e = refl
has_error-or_first (some d) e = refl

module _ {n slots : ℕ} {p : Pool} (s : IsSound n slots p) (i : ℕ) (lt : i < n) where
  open s use {within, holding, known, counted}

  -- A worker goes on with its slot or without one, and nothing else changes.
  move-IsSound :
      (a b : Phase)
      → p.phases i ≡ a
      → holds b ≡ holds a
      → IsCounted p.cancelled b (times i p.recorded)
      → IsSound n slots (move p i b)
  move-IsSound a b e h k = record {
    within = within;
    holding =
        let sum = rw e at (total-set holds n p.phases i b lt) in omega (arith, sum, h, holding);
    known = known;
    counted =
        set_phase-IsCounted p.cancelled p.phases i b (λ j. times j p.recorded) k (λ j o. counted j);
  }

  acquire-IsSound : p.phases i ≡ waiting → p.held < slots → IsSound n slots (acquire p i)
  unfolding acquire
  acquire-IsSound e free = record {
    within = omega (arith, free);
    holding =
        let sum = rw e at (total-set holds n p.phases i admitted lt) in omega (arith, sum, holding);
    known = known;
    counted =
        set_phase-IsCounted p.cancelled p.phases i admitted (λ j. times j p.recorded)
          (rw e at (counted i)) (λ j o. counted j);
  }

  release-IsSound : p.phases i ≡ releasing → IsSound n slots (release p i)
  unfolding release
  release-IsSound e = record {
    within = omega (arith, within);
    holding =
        let sum = rw e at (total-set holds n p.phases i finished lt) in omega (arith, sum, holding);
    known = known;
    counted =
        set_phase-IsCounted p.cancelled p.phases i finished (λ j. times j p.recorded)
          (rw e at (counted i)) (λ j o. counted j);
  }

  fail-IsSound : (e : ℕ) → p.phases i ≡ copying → IsSound n slots (fail p i e)
  unfolding fail
  fail-IsSound d e = record {
    within = within;
    holding =
        let sum = rw e at (total-set holds n p.phases i releasing lt) in
        omega (arith, sum, holding);
    known = sym (has_error-or_first p.first_err d);
    counted =
        let none_yet : times i p.recorded ≡ 0 = rw e at (counted i) in
        set_phase-IsCounted true p.phases i releasing (λ j. times j p.recorded)
          (omega (arith, none_yet), λ e. absurd cc)
          (λ j o. cancelled-IsCounted p.cancelled (p.phases j) (times j p.recorded) (counted j));
  }

  record_disk-IsSound : p.phases i ≡ copied → IsSound n slots (record_disk p i)
  unfolding record_disk
  record_disk-IsSound e = record {
    within = within;
    holding =
        let sum = rw e at (total-set holds n p.phases i releasing lt) in
        omega (arith, sum, holding);
    known = known;
    counted =
        let none_yet : times i p.recorded ≡ 0 = rw e at (counted i) in
        set_phase-IsCounted p.cancelled p.phases i releasing (λ j. times j (p.recorded ++ i ∷ []))
          (
            ground (arith, times-last i i p.recorded, none_yet),
            λ f. ground (arith, times-last i i p.recorded, none_yet),
          )
          (λ j o.
            (let same : times j (p.recorded ++ i ∷ []) ≡ times j p.recorded =
                ground (arith, times-last j i p.recorded, o) in
              rw same (counted j)));
  }

Step-IsSound : {n slots : ℕ} {p q : Pool} → Step n slots p q → IsSound n slots p → IsSound n slots q
Step-IsSound {p} (quits i lt e c) s =
    let none_yet : times i p.recorded ≡ 0 = rw e at (s.counted i) in
    move-IsSound s i lt waiting finished e refl (omega (arith, none_yet), λ f. absurd cc)
Step-IsSound (acquires i lt e c) s = acquire-IsSound s i lt e c
Step-IsSound {p} (turns_back i lt e c) s =
    let none_yet : times i p.recorded ≡ 0 = rw e at (s.counted i) in
    move-IsSound s i lt admitted releasing e refl (omega (arith, none_yet), λ f. absurd cc)
Step-IsSound (begins i lt e c) s =
    move-IsSound s i lt admitted copying e refl (rw e at (s.counted i))
Step-IsSound (fails i d lt e) s = fail-IsSound s i lt d e
Step-IsSound (succeeds i lt e) s = move-IsSound s i lt copying copied e refl (rw e at (s.counted i))
Step-IsSound (records i lt e) s = record_disk-IsSound s i lt e
Step-IsSound (releases i lt e) s = release-IsSound s i lt e

pub Reach-IsSound : {n slots : ℕ} {p : Pool} → Reach n slots p → IsSound n slots p
Reach-IsSound {n} {slots} at_start = all_waiting-IsSound n slots
Reach-IsSound (next r st) = Step-IsSound st (Reach-IsSound r)

copies-le-holds : (a : Phase) → copies a ≤ holds a
copies-le-holds waiting = omega arith
copies-le-holds admitted = omega arith
copies-le-holds copying = omega arith
copies-le-holds copied = omega arith
copies-le-holds releasing = omega arith
copies-le-holds finished = omega arith

-- Whatever the order in which the workers run, there are never more disks in copy than slots, and a
-- context is cancelled exactly if an error is kept.
pub Reach-copies :
    (n slots : ℕ) (p : Pool)
    → Reach n slots p
    → (total copies n p.phases ≤ slots) × (p.cancelled ≡ has_error p.first_err)
Reach-copies n slots p r =
    let s = Reach-IsSound r in
    (
      omega (arith, total-le_of copies holds n p.phases copies-le-holds, s.holding, s.within),
      s.known,
    )

-- If no error is kept, a worker that has finished has recorded its disk, and exactly once.
pub Reach-recorded :
    (n slots : ℕ) (p : Pool)
    → Reach n slots p
    → p.first_err ≡ none
    → (i : ℕ) → p.phases i ≡ finished
    → times i p.recorded ≡ 1
Reach-recorded n slots p r e i f =
    let s = Reach-IsSound r in
    let calm : p.cancelled ≡ false = s.known ∙ ap has_error e in
    let ended : (times i p.recorded ≤ 1) × (p.cancelled ≡ false → times i p.recorded ≡ 1) =
      rw f at (s.counted i) in
    ended.1 calm
