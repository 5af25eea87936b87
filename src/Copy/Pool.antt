-- ===== src/Copy/Pool.antt =====
-- The workers of `Run` in pkg/copy/copy.go, one for each disk, in every order in which they may run.
--
-- A worker waits for a slot of the channel `sem`, or for the cancellation; with a slot it looks at the
-- context again, copies its disk, and records it under the mutex; the deferred receive gives the slot
-- back. The first failure keeps its error and cancels the context for all. What `CopyDisk` answers is
-- free, and so is the choice of `select` where both of its cases are ready.
pub mod Sum
pub mod Invariant
pub mod Ends
use kc_utils.Base.{
  ℕ, zero, suc, ◌+◌, ◌-◌, ◌≡◌, ◌<◌, Bool, true, false, List, [], ◌∷◌, ◌++◌, Option, none, some,
  ◌==◌, if◌then◌else◌,
}

pub data Phase : Type 0 where
  waiting admitted copying copied releasing finished : Phase

-- `held` is the number of slots taken, and `recorded` the disks of `progress`, by their workers.
pub record Pool : Type 0 where
  pub phases : ℕ → Phase
  pub held : ℕ
  pub cancelled : Bool
  pub first_err : Option ℕ
  pub recorded : List ℕ

abbrev pub set_phase : (ℕ → Phase) → ℕ → Phase → ℕ → Phase
set_phase phases i a j = if j == i then a else phases j

abbrev pub move : Pool → ℕ → Phase → Pool
move p i a = record p { phases = set_phase p.phases i a }

abbrev pub or_first : Option ℕ → ℕ → Option ℕ
or_first none e = some e
or_first (some d) e = some d

unfoldable pub acquire : Pool → ℕ → Pool
acquire p i = record (move p i admitted) { held = p.held + 1 }

-- `errOnce.Do`, and the return.
unfoldable pub fail : Pool → ℕ → ℕ → Pool
fail p i e = record (move p i releasing) { cancelled = true; first_err = or_first p.first_err e }

unfoldable pub record_disk : Pool → ℕ → Pool
record_disk p i = record (move p i releasing) { recorded = p.recorded ++ i ∷ [] }

unfoldable pub release : Pool → ℕ → Pool
release p i = record (move p i finished) { held = p.held - 1 }

-- One step of worker `i`, of `n` workers and with `slots` slots.
pub data Step (n slots : ℕ) (p : Pool) : Pool → Type 0 where
  quits :
      (i : ℕ)
      → i < n
      → p.phases i ≡ waiting
      → p.cancelled ≡ true
      → Step n slots p (move p i finished)
  acquires : (i : ℕ) → i < n → p.phases i ≡ waiting → p.held < slots → Step n slots p (acquire p i)
  turns_back :
      (i : ℕ)
      → i < n
      → p.phases i ≡ admitted
      → p.cancelled ≡ true
      → Step n slots p (move p i releasing)
  begins :
      (i : ℕ)
      → i < n
      → p.phases i ≡ admitted
      → p.cancelled ≡ false
      → Step n slots p (move p i copying)
  fails : (i e : ℕ) → i < n → p.phases i ≡ copying → Step n slots p (fail p i e)
  succeeds : (i : ℕ) → i < n → p.phases i ≡ copying → Step n slots p (move p i copied)
  records : (i : ℕ) → i < n → p.phases i ≡ copied → Step n slots p (record_disk p i)
  releases : (i : ℕ) → i < n → p.phases i ≡ releasing → Step n slots p (release p i)

abbrev pub all_waiting : Pool
all_waiting = record {
  phases = λ i. waiting;
  held = 0;
  cancelled = false;
  first_err = none;
  recorded = [];
}

-- What the workers may come to.
pub data Reach (n slots : ℕ) : Pool → Type 0 where
  at_start : Reach n slots all_waiting
  next : {p q : Pool} → Reach n slots p → Step n slots p q → Reach n slots q
