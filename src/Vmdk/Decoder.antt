-- ===== src/Vmdk/Decoder.antt =====
-- pkg/copy/vmdk.go: the constants, what the code calls, and the `vmdkStreamReader` with the errors
-- of its methods.
use kc_utils.Base.{ℕ, ◌-◌, ◌*◌, ◌/◌, ◌^◌, Bool, true, false, List, Option}
use kc_utils.ByteStream.{Bytes, Stream, ReadError, two63}

abbrev pub vmdk_magic : ℕ
vmdk_magic = 0x564d444b

abbrev pub sector_size : ℕ
sector_size = 512

abbrev pub grain_marker_size : ℕ
grain_marker_size = 12

abbrev pub grain_marker_eos : ℕ
grain_marker_eos = 0

-- 64 MiB
abbrev pub max_grain_bytes : ℕ
max_grain_bytes = 64 * 2 ^ 20

-- `math.MaxInt64 / sectorSize`
abbrev pub max_sectors : ℕ
max_sectors = (two63 - 1) / sector_size

-- How a zlib stream ends behind the bytes that it yields: at its checksum, at the end of the
-- compressed data (`io.ErrUnexpectedEOF`), or with an error of its own.
pub data Ending : Type 0 where
  clean truncated corrupt : Ending

-- What `zlib.NewReader` or its `Reset` makes of compressed bytes.
pub data Inflated : Type 0 where
  bad_header : Inflated
  yields : Bytes → Ending → Inflated

pub record Env : Type 0 where
  pub inflate : Bytes → Inflated
  pub seek_fails : ℕ → Bool
  -- At an offset: `some k` if the write fails behind its first `k` bytes.
  pub write_fails : ℕ → Bytes → Option ℕ
  -- `ctx.Err()` is not nil in this round.
  pub cancelled : ℕ → Bool
  -- `onProgress` is not nil.
  pub reports : Bool

pub data Error : Type 0 where
  read_header read_marker read_marker_type read_grain read_padding : ReadError → Error
  bad_magic bad_version capacity_overflow grain_overflow grain_limit : ℕ → Error
  grain_zero grain_non_positive skip_overhead context : Error
  skip_marker_padding skip_metadata : ℕ → Error
  claims_too_much : ℕ → ℕ → Error
  decompress_failed lba_overflow range_overflow seek_failed write_failed : ℕ → Error
  beyond_capacity : ℕ → ℕ → ℕ → Error
  out_of_fuel : Error

-- `writes` holds what the writer was handed, the latest first: the offset and the bytes.
pub record Decoder : Type 0 where
  pub stream : Stream
  pub writes : List (ℕ × Bytes)
  pub comp_len : ℕ
  pub grain_len : ℕ
  pub comp_limit : ℕ
  pub written : ℕ
  pub total : ℕ
  pub progress : List (ℕ × ℕ)

-- How a call ends, with the decoder that it leaves.
pub data Outcome {ℓ} (A : Type ℓ) : Type ℓ where
  ok : A → Decoder → Outcome A
  err : Error → Decoder → Outcome A

infixl 5 ◌>>=◌
unfoldable pub ◌>>=◌ {ℓ κ} :
    {A : Type ℓ} {B : Type κ} → Outcome A → (A × Decoder → Outcome B) → Outcome B
ok a d >>= f = f (a, d)
err e d >>= f = err e d

-- `if b { return e }`
abbrev pub fail_if : Bool → Error → Decoder → Outcome (Unit {0})
fail_if true e d = err e d
fail_if false e d = ok tt d

-- A condition on each way to end, and the rule for a sequence of calls.
unfoldable pub Ensures {ℓ} :
    {A : Type ℓ} → (A → Decoder → Type 0) → (Error → Decoder → Type 0) → Outcome A → Type 0
Ensures Q E (ok a d) = Q a d
Ensures Q E (err e d) = E e d

pub >>=-Ensures {ℓ κ} :
    {A : Type ℓ} {B : Type κ} (Q : A → Decoder → Type 0) (R : B → Decoder → Type 0)
    (E : Error → Decoder → Type 0) (m : Outcome A) (f : A × Decoder → Outcome B)
    → Ensures Q E m
    → ((a : A) (d : Decoder) → Q a d → Ensures R E (f (a, d)))
    → Ensures R E (m >>= f)
unfolding Ensures ◌>>=◌
>>=-Ensures Q R E (ok a d) f h k = k a d h
>>=-Ensures Q R E (err e d) f h k = h
