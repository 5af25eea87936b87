-- ===== src/Vmdk/Bounds.antt =====
-- Where `StreamToRaw` writes.
use kc_utils.Base.{
  ℕ, zero, suc, ◌+◌, ◌*◌, ◌%◌, ◌≤◌, ◌<◌, ◌≡◌, refl, ◌∙◌, inl, inr, Bool, true, false, some, arith,
  length, length-take, take, All, Option-cases, Bool-cases, ◌==◌,
}
use kc_utils.ByteStream.{
  Bytes, Stream, ReadError, ReadResult, full, short, read_full, two63, u32_at, u64_at,
}
use kc_utils.Vmdk.Decoder.{
  sector_size, max_grain_bytes, Ending, clean, truncated, corrupt, Inflated, bad_header, yields,
  Env, Error, Decoder, Outcome, ok, err, fail_if, ◌>>=◌, Ensures, >>=-Ensures,
}
use kc_utils.Vmdk.Grain.{
  read, discard, expect, grow, fill, decompress, read_pad, write_grain, write_inflated, skip_marker,
  after_marker_type, process_compressed_grain, process_metadata_marker,
}
use kc_utils.Vmdk.Image.{
  Header, after_marker, round, loop, check_header, skip_over_head, start, run, stream_to_raw,
}

-- A write that a disk of `total` bytes has room for.
pub record InRange (total : ℕ) (w : ℕ × Bytes) : Type 0 where
  pub aligned : w.0 % sector_size ≡ 0
  pub within : w.0 + length w.1 ≤ total
  pub no_overflow : w.0 + length w.1 < two63
  pub one_grain : length w.1 ≤ max_grain_bytes

abbrev Fits : ℕ → Decoder → Type 0
Fits t d = (d.total ≤ t) × (d.grain_len ≤ max_grain_bytes) × All (InRange t) d.writes

pub decoder {ℓ} : {A : Type ℓ} → Outcome A → Decoder
decoder (ok a d) = d
decoder (err e d) = d

fill-le : (n : ℕ) (b : Bytes) (e : Ending) {r : Bytes} → fill n b e ≡ some r → length r ≤ n
unfolding fill
fill-le n b clean h = ground (arith, length-take {0} n b)
fill-le n b truncated h = ground (arith, length-take {0} n b)
fill-le n b corrupt h = ground (arith, length-take {0} n b)

decompress-le : (i : Inflated) (n : ℕ) (r : Bytes) → decompress i n ≡ some r → length r ≤ n
unfolding decompress
decompress-le bad_header n r h = cc
decompress-le (yields b e) n r h = fill-le n b e h

module _ (t : ℕ) where
  abbrev Keeps {ℓ} : {A : Type ℓ} → Outcome A → Type 0
  Keeps = Ensures (λ _. Fits t) (λ _. Fits t)

  then_Keeps {ℓ κ} :
      {A : Type ℓ} {B : Type κ} (m : Outcome A) (f : A × Decoder → Outcome B)
      → Keeps m
      → ((a : A) (d : Decoder) → Fits t d → Keeps (f (a, d)))
      → Keeps (m >>= f)
  then_Keeps = >>=-Ensures (λ _. Fits t) (λ _. Fits t) (λ _. Fits t)

  ok-Keeps {ℓ} : {A : Type ℓ} (a : A) (d : Decoder) → Fits t d → Keeps (ok a d)
  unfolding Ensures
  ok-Keeps a d h = h

  err-Keeps : (e : Error) (d : Decoder) → Fits t d → Keeps {A = Unit {0}} (err e d)
  unfolding Ensures
  err-Keeps e d h = h

  read-Keeps : (k : ℕ) (d : Decoder) → Fits t d → Keeps (read k d)
  unfolding Ensures read
  read-Keeps k d h = h

  discard-Keeps : (k : ℕ) (d : Decoder) → Fits t d → Keeps (discard k d)
  unfolding Ensures discard
  discard-Keeps k d h = h

  fail_if-Keeps : (b : Bool) (e : Error) (d : Decoder) → Fits t d → Keeps (fail_if b e d)
  unfolding Ensures
  fail_if-Keeps true e d h = h
  fail_if-Keeps false e d h = h

  expect-Keeps :
      (e : ReadError → Error) (r : ReadResult) (d : Decoder) → Fits t d → Keeps (expect e r d)
  unfolding Ensures
  expect-Keeps e (full b) d h = h
  expect-Keeps e (short why) d h = h

  skip_over_head-Keeps : (n : ℕ) (d : Decoder) → Fits t d → Keeps (skip_over_head n d)
  unfolding Ensures ◌>>=◌ skip_over_head discard
  skip_over_head-Keeps n d h = ground arith

  read_pad-Keeps : (size : ℕ) (d : Decoder) → Fits t d → Keeps (read_pad size d)
  unfolding Ensures ◌>>=◌ read_pad read
  read_pad-Keeps size d h = ground arith

  write_grain-Keeps :
      (env : Env) (lba : ℕ) (b : Bytes) (d : Decoder)
      → length b ≤ max_grain_bytes
      → Fits t d
      → Keeps (write_grain env lba b d)
  unfolding Ensures ◌>>=◌ write_grain
  write_grain-Keeps env lba b d le h = elim (Option-cases (env.write_fails (lba * 512) b)) [
    | inl e ↦ ground arith
    | inr (k, e) ↦ ground (arith, length-take {0} k b)
  ]

  write_inflated-Keeps :
      (env : Env) (lba : ℕ) (comp : Bytes) (d : Decoder)
      → Fits t d
      → Keeps (write_inflated env lba comp d)
  unfolding write_inflated
  write_inflated-Keeps env lba comp d h =
      elim (Option-cases (decompress (env.inflate comp) d.grain_len)) [
        | inl e ↦ rw (e, write_inflated) (err-Keeps _ d h)
        | inr (b, e) ↦
            let le = decompress-le (env.inflate comp) d.grain_len b e in
            rw (e, write_inflated) (write_grain-Keeps env lba b d (omega (arith, le)) h)
      ]

  process_compressed_grain-Keeps :
      (env : Env) (lba size : ℕ) (d : Decoder)
      → Fits t d
      → Keeps (process_compressed_grain env lba size d)
  unfolding process_compressed_grain
  process_compressed_grain-Keeps env lba size d h = then_Keeps _ _ (fail_if-Keeps _ _ d h) λ _ d h.
      then_Keeps _ _ (read-Keeps size (grow size d) h) λ r d h.
        then_Keeps _ _ (expect-Keeps _ r d h) λ comp d h.
          then_Keeps _ _ (read_pad-Keeps size d h) λ _ d h. write_inflated-Keeps env lba comp d h

  skip_marker-Keeps : (kind lba : ℕ) (d : Decoder) → Fits t d → Keeps (skip_marker kind lba d)
  unfolding skip_marker
  skip_marker-Keeps kind lba d h = then_Keeps _ _ (discard-Keeps _ d h) λ padded d h.
      then_Keeps _ _ (fail_if-Keeps _ _ d h) λ _ d h.
        then_Keeps _ _ (discard-Keeps _ d h)
          λ skipped d h. then_Keeps _ _ (fail_if-Keeps _ _ d h) λ _ d h. ok-Keeps false d h

  after_marker_type-Keeps :
      (lba : ℕ) (r : ReadResult) (d : Decoder) → Fits t d → Keeps (after_marker_type lba r d)
  unfolding after_marker_type Ensures
  after_marker_type-Keeps lba (full b) d h = ground (arith, skip_marker-Keeps (u32_at 0 b) lba d h)
  after_marker_type-Keeps lba (short e) d h = ground arith

  process_metadata_marker-Keeps :
      (lba : ℕ) (d : Decoder) → Fits t d → Keeps (process_metadata_marker lba d)
  unfolding process_metadata_marker
  process_metadata_marker-Keeps lba d h =
      then_Keeps _ _ (read-Keeps 4 d h) (after_marker_type-Keeps lba)

  module _ (env : Env) where
    after_marker-Keeps : (r : ReadResult) (d : Decoder) → Fits t d → Keeps (after_marker env r d)
    unfolding after_marker Ensures
    after_marker-Keeps (full b) d h = elim (Bool-cases (u32_at 8 b == 0)) [
      | inl e ↦ rw e (process_metadata_marker-Keeps (u64_at 0 b) d h)
      | inr e ↦ rw e (
          then_Keeps _ _ (process_compressed_grain-Keeps env (u64_at 0 b) (u32_at 8 b) d h)
            λ _ d h. ok-Keeps false d h)
    ]
    after_marker-Keeps (short e) d h = ground arith

    loop-Keeps : (fuel k : ℕ) (d : Decoder) → Fits t d → Keeps (loop env fuel k d)
    unfolding loop round Ensures
    loop-Keeps zero k d h = h
    loop-Keeps (suc fuel) k d h =
        then_Keeps _ _
          (then_Keeps _ _ (fail_if-Keeps _ _ d h)
            λ _ d h. then_Keeps _ _ (read-Keeps 12 d h) after_marker-Keeps)
          (elim [ true ↦ λ d h. h | false ↦ λ d h. loop-Keeps fuel (k + 1) d h ])

-- What the checks of the header leave of it.
record IsHeader (b : Bytes) (h : Header) : Type 0 where
  capacity_is : h.capacity ≡ u64_at 12 b
  grain_fits : h.grain * sector_size ≤ max_grain_bytes

check_header-IsHeader :
    (t : ℕ) (b : Bytes) (d : Decoder)
    → Fits t d
    → Ensures (λ h d. IsHeader b h × Fits t d) (λ _. Fits t) (check_header b d)
unfolding Ensures check_header
check_header-IsHeader t b d h = ground arith

abbrev Starts : Bytes → ReadResult → Type 0
Starts rest (full b) = b ≡ take 512 rest
Starts rest (short e) = Unit

read-Starts :
    (t : ℕ) (d : Decoder)
    → Fits t d
    → Ensures (λ r d'. Starts d.stream.rest r × Fits t d') (λ _. Fits t) (read 512 d)
unfolding Ensures read read_full
read-Starts t d h = ground arith

module _ (b : Bytes) (t : ℕ) (total : t ≡ u64_at 12 b * sector_size) where
  start-Fits : (h : Header) (d : Decoder) → IsHeader b h → Fits t d → Fits t (start h d)
  unfolding start
  start-Fits h d i f = ground arith

  -- `StreamToRaw` behind the read of the header.
  run_header-Keeps :
      (env : Env) (d : Decoder)
      → Fits t d
      → Keeps t (
          check_header b d >>= (λ (h, d).
            skip_over_head h.over_head d
            >>= (λ (_, d). loop env (length d.stream.rest + 1) 0 (start h d))))
  run_header-Keeps env d f =
      >>=-Ensures (λ h d. IsHeader b h × Fits t d) (λ _. Fits t) (λ _. Fits t) _ _
        (check_header-IsHeader t b d f)
        λ h d g.
          then_Keeps t _ _ (skip_over_head-Keeps t h.over_head d g.1)
            λ _ d k. loop-Keeps t env _ 0 (start h d) (start-Fits h d g.0 k)

decoder-Keeps : (t : ℕ) (o : Outcome (Unit {0})) → Keeps t o → All (InRange t) (decoder o).writes
unfolding Ensures decoder
decoder-Keeps t (ok a d) h = h.2
decoder-Keeps t (err e d) h = h.2

run-Keeps :
    (env : Env) (d : Decoder) (t : ℕ)
    → t ≡ u64_at 12 (take 512 d.stream.rest) * sector_size
    → Fits t d
    → Keeps t (run env d)
unfolding run Ensures ◌>>=◌
run-Keeps env d t e f =
    >>=-Ensures (λ r d'. Starts d.stream.rest r × Fits t d') (λ _. Fits t) (λ _. Fits t) _ _
      (read-Starts t d f)
      (elim [
        | full b ↦ λ d' g. run_header-Keeps b t (e ∙ rw g.0) env d' g.1
        | short why ↦ λ d' g. g.1
      ])

-- Every write of a run, failed runs included, starts at a multiple of the sector size, ends within
-- the capacity that the header gives and below 2^63, and is at most 64 MiB long.
pub stream_to_raw-InRange :
    (env : Env) (s : Stream)
    → All
        (InRange (u64_at 12 (take sector_size s.rest) * sector_size))
        (decoder (stream_to_raw env s)).writes
unfolding stream_to_raw
stream_to_raw-InRange env s = decoder-Keeps _ _ (run-Keeps env _ _ refl (omega arith))
