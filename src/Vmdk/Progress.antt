-- ===== src/Vmdk/Progress.antt =====
-- The loop of `StreamToRaw` and its fuel.
use native.Mathlib.Nat.{le_refl}
use kc_utils.Base.{
  ℕ, zero, suc, ◌+◌, ◌≤◌, ◌<◌, ◌≡◌, refl, ◌≢◌, ◌⊎◌, inl, inr, Bool-cases, ◌==◌, Bool, true, false,
  Option, none, some, arith, length,
}
use kc_utils.ByteStream.{
  Bytes, Stream, ReadError, ReadResult, full, short, read_full, u32_at, u64_at,
}
use kc_utils.ByteStream.Laws.{read_full-shrinks, read_full-full, copy_n-shrinks}
use kc_utils.Vmdk.Decoder.{
  Env, Error, read_header, read_grain, claims_too_much, skip_marker_padding, skip_metadata, context,
  out_of_fuel, Decoder, Outcome, ok, err, fail_if, ◌>>=◌, Ensures, >>=-Ensures,
}
use kc_utils.Vmdk.Grain.{
  read, discard, expect, grow, pad_bytes, read_pad, skip_marker, write_inflated, write_grain,
  after_marker_type, process_compressed_grain, process_metadata_marker,
}
use kc_utils.Vmdk.Image.{
  Header, after_marker, round, loop, check_header, skip_over_head, start, run, stream_to_raw,
}

abbrev pub failure {ℓ} : {A : Type ℓ} → Outcome A → Option Error
failure (ok a d) = none
failure (err e d) = some e

abbrev left : Decoder → ℕ
left d = length d.stream.rest

abbrev AtMost {ℓ} : {A : Type ℓ} → ℕ → A → Decoder → Type 0
AtMost n a d = left d ≤ n

abbrev NotFuel : Error → Decoder → Type 0
NotFuel e d = e ≢ out_of_fuel

-- A call that succeeds gives no bytes back, and one that fails has not run out of fuel.
abbrev Advances {ℓ} : {A : Type ℓ} → ℕ → Outcome A → Type 0
Advances n = Ensures (AtMost n) NotFuel

then_Advances {ℓ κ} :
    {A : Type ℓ} {B : Type κ} (n : ℕ) (m : Outcome A) (f : A × Decoder → Outcome B)
    → Advances n m
    → ((a : A) (d : Decoder) → left d ≤ n → Advances n (f (a, d)))
    → Advances n (m >>= f)
then_Advances n = >>=-Ensures (AtMost n) (AtMost n) NotFuel

ReadResult-cases :
    (r : ReadResult) → ((b : Bytes) × (r ≡ full b)) ⊎ ((e : ReadError) × (r ≡ short e))
ReadResult-cases (full b) = inl (b, refl)
ReadResult-cases (short e) = inr (e, refl)

module _ (n : ℕ) where
  read-Advances : (k : ℕ) (d : Decoder) → left d ≤ n → Advances n (read k d)
  unfolding Ensures ◌>>=◌ read
  read-Advances k d h = omega (arith, read_full-shrinks k d.stream)

  discard-Advances : (k : ℕ) (d : Decoder) → left d ≤ n → Advances n (discard k d)
  unfolding Ensures ◌>>=◌ discard
  discard-Advances k d h = omega (arith, copy_n-shrinks k d.stream)

  fail_if-Advances :
      (b : Bool) (e : Error) (d : Decoder)
      → e ≢ out_of_fuel
      → left d ≤ n
      → Advances n (fail_if b e d)
  unfolding Ensures
  fail_if-Advances true e d ne h = ne
  fail_if-Advances false e d ne h = h

  ok-Advances {ℓ} : {A : Type ℓ} (a : A) (d : Decoder) → left d ≤ n → Advances n (ok a d)
  unfolding Ensures
  ok-Advances a d h = h

  write_grain-Advances :
      (env : Env) (lba : ℕ) (b : Bytes) (d : Decoder)
      → left d ≤ n
      → Advances n (write_grain env lba b d)
  unfolding Ensures ◌>>=◌ write_grain
  write_grain-Advances env lba b d h = ground arith

  write_inflated-Advances :
      (env : Env) (lba : ℕ) (comp : Bytes) (d : Decoder)
      → left d ≤ n
      → Advances n (write_inflated env lba comp d)
  unfolding Ensures ◌>>=◌ write_inflated
  write_inflated-Advances env lba comp d h =
      grind (arith, λ (b : Bytes). write_grain-Advances env lba b d h)

  read_pad-Advances : (size : ℕ) (d : Decoder) → left d ≤ n → Advances n (read_pad size d)
  unfolding Ensures ◌>>=◌ read_pad read
  read_pad-Advances size d h = ground (arith, read_full-shrinks (pad_bytes size) d.stream)

  expect-Advances : (r : ReadResult) (d : Decoder) → left d ≤ n → Advances n (expect read_grain r d)
  unfolding Ensures
  expect-Advances (full b) d h = h
  expect-Advances (short e) d h = cc

  process_compressed_grain-Advances :
      (env : Env) (lba size : ℕ) (d : Decoder)
      → left d ≤ n
      → Advances n (process_compressed_grain env lba size d)
  unfolding process_compressed_grain
  process_compressed_grain-Advances env lba size d h =
      then_Advances n _ _ (fail_if-Advances _ (claims_too_much lba size) d (λ e. cc) h) λ _ d h.
        then_Advances n _ _ (read-Advances size (grow size d) h) λ r d h.
          then_Advances n _ _ (expect-Advances r d h) λ comp d h.
            then_Advances n _ _ (read_pad-Advances size d h)
              λ _ d h. write_inflated-Advances env lba comp d h

  skip_marker-Advances :
      (kind lba : ℕ) (d : Decoder) → left d ≤ n → Advances n (skip_marker kind lba d)
  unfolding skip_marker
  skip_marker-Advances kind lba d h = then_Advances n _ _ (discard-Advances _ d h) λ padded d h.
      then_Advances n _ _ (fail_if-Advances _ (skip_marker_padding kind) d (λ e. cc) h) λ _ d h.
        then_Advances n _ _ (discard-Advances _ d h) λ skipped d h.
          then_Advances n _ _ (fail_if-Advances _ (skip_metadata kind) d (λ e. cc) h)
            λ _ d h. ok-Advances false d h

  after_marker_type-Advances :
      (lba : ℕ) (r : ReadResult) (d : Decoder) → left d ≤ n → Advances n (after_marker_type lba r d)
  unfolding Ensures ◌>>=◌ after_marker_type
  after_marker_type-Advances lba (full b) d h =
      ground (arith, skip_marker-Advances (u32_at 0 b) lba d h)
  after_marker_type-Advances lba (short e) d h = ground arith

  process_metadata_marker-Advances :
      (lba : ℕ) (d : Decoder) → left d ≤ n → Advances n (process_metadata_marker lba d)
  unfolding process_metadata_marker
  process_metadata_marker-Advances lba d h =
      then_Advances n _ _ (read-Advances 4 d h) (after_marker_type-Advances lba)

  -- A round that goes on leaves fewer than `n` bytes.
  abbrev Falls : Bool → Decoder → Type 0
  Falls finished d = finished ≡ false → left d < n

  abbrev Room : ReadResult → Decoder → Type 0
  Room (full b) d = left d < n
  Room (short e) d = Unit

  read-Room : (k : ℕ) (d : Decoder) → left d ≤ n → Ensures Room NotFuel (read (suc k) d)
  unfolding Ensures ◌>>=◌ read
  read-Room k d h = elim (ReadResult-cases (read_full (suc k) d.stream).0) [
    | inl (b, e) ↦ rw e (omega (arith, read_full-full (suc k) d.stream b e))
    | inr (why, e) ↦ rw e tt
  ]

weaken :
    (n m : ℕ) (o : Outcome Bool)
    → Ensures (AtMost m) NotFuel o
    → m < n
    → Ensures (Falls n) NotFuel o
unfolding Ensures
weaken n m (ok a d) h lt = λ _. omega arith
weaken n m (err e d) h lt = h

ok-Falls : (n : ℕ) (d : Decoder) → left d < n → Ensures (Falls n) NotFuel (ok false d)
unfolding Ensures
ok-Falls n d h = λ _. h

abbrev Anything {ℓ} : {A : Type ℓ} → A → Decoder → Type 0
Anything a d = Unit {0}

abbrev Safe {ℓ} : {A : Type ℓ} → Outcome A → Type 0
Safe = Ensures Anything NotFuel

then_Safe {ℓ κ} :
    {A : Type ℓ} {B : Type κ} (m : Outcome A) (f : A × Decoder → Outcome B)
    → Safe m
    → ((a : A) (d : Decoder) → Safe (f (a, d)))
    → Safe (m >>= f)
then_Safe m f h k = >>=-Ensures Anything Anything NotFuel m f h (λ a d _. k a d)

Safe-failure : (o : Outcome (Unit {0})) → Safe o → failure o ≢ some out_of_fuel
unfolding Ensures
Safe-failure (ok a d) h = λ e. cc
Safe-failure (err e d) h = λ p. h (cc)

read-Safe : (k : ℕ) (d : Decoder) → Safe (read k d)
unfolding Ensures read
read-Safe k d = tt

expect-Safe : (r : ReadResult) (d : Decoder) → Safe (expect read_header r d)
unfolding Ensures
expect-Safe (full b) d = tt
expect-Safe (short e) d = λ p. cc

check_header-Safe : (b : Bytes) (d : Decoder) → Safe (check_header b d)
unfolding Ensures check_header
check_header-Safe b d = ground arith

skip_over_head-Safe : (n : ℕ) (d : Decoder) → Safe (skip_over_head n d)
unfolding Ensures ◌>>=◌ skip_over_head discard
skip_over_head-Safe n d = ground arith

start-left : (h : Header) (d : Decoder) → left (start h d) < left d + 1
unfolding start
start-left h d = omega arith

module _ (env : Env) where
  after_marker-Falls :
      (n : ℕ) (r : ReadResult) (d : Decoder)
      → Room n r d
      → Ensures (Falls n) NotFuel (after_marker env r d)
  unfolding Ensures ◌>>=◌ after_marker
  after_marker-Falls n (full b) d h = elim (Bool-cases (u32_at 8 b == 0)) [
    | inl e ↦ rw e (weaken n _ _ (process_metadata_marker-Advances _ (u64_at 0 b) d (le_refl _)) h)
    | inr e ↦ rw e (
        >>=-Ensures (AtMost (left d)) (Falls n) NotFuel _ _
          (process_compressed_grain-Advances _ env (u64_at 0 b) (u32_at 8 b) d (le_refl _))
          λ _ d' h'. ok-Falls n d' (omega arith))
  ]
  after_marker-Falls n (short e) d h = ground arith

  round-Falls : (n k : ℕ) (d : Decoder) → left d ≤ n → Ensures (Falls n) NotFuel (round env k d)
  unfolding round
  round-Falls n k d h =
      >>=-Ensures (AtMost n) (Falls n) NotFuel _ _ (fail_if-Advances n _ context d (λ e. cc) h)
        λ _ d h.
          >>=-Ensures (Room n) (Falls n) NotFuel _ _ (read-Room n 11 d h) (after_marker-Falls n)

  pub loop-Safe : (fuel k : ℕ) (d : Decoder) → left d < fuel → Safe (loop env fuel k d)
  unfolding loop Ensures
  loop-Safe zero k d h = absurd (omega arith)
  loop-Safe (suc fuel) k d h =
      >>=-Ensures (Falls (left d)) Anything NotFuel _ _ (round-Falls (left d) k d (omega arith))
        (elim [
          | true ↦ λ d' g. tt
          | false ↦ λ d' g. loop-Safe fuel (k + 1) d' (omega (arith, g refl))
        ])

  run-Safe : (d : Decoder) → Safe (run env d)
  unfolding run
  run-Safe d = then_Safe _ _ (read-Safe 512 d) λ r d. then_Safe _ _ (expect-Safe r d) λ b d.
      then_Safe _ _ (check_header-Safe b d) λ h d.
        then_Safe _ _ (skip_over_head-Safe h.over_head d)
          λ _ d. loop-Safe (left d + 1) 0 (start h d) (start-left h d)

-- The loop of `StreamToRaw` ends on every input: whatever zlib, the writer and the context do, a
-- run does not stop for lack of the fuel that it is given.
pub stream_to_raw-terminates :
    (env : Env) (s : Stream) → failure (stream_to_raw env s) ≢ some out_of_fuel
unfolding stream_to_raw
stream_to_raw-terminates env s = Safe-failure _ (run-Safe env _)
