-- ===== src/ByteStream.antt =====
-- `io.Reader` as the bytes that it will still deliver, with `io.ReadFull` and `io.CopyN` into
-- `io.Discard`, and the fixed-size integers of `encoding/binary`.
pub mod Laws
use kc_utils.Base.{
  ℕ, zero, suc, ◌+◌, ◌*◌, ◌/◌, ◌%◌, ◌^◌, Bool, true, false, ◌&&◌, List, [], ◌∷◌, ltb, leb, ◌==◌,
  if◌then◌else◌, length, take, drop,
}

abbrev pub Bytes : Type 0
Bytes = List ℕ

-- `rest` comes first. What follows it is an I/O error if `broken`, and the end of file if not.
pub record Stream : Type 0 where
  pub rest : Bytes
  pub broken : Bool

pub data ReadError : Type 0 where
  eof unexpected_eof failed : ReadError

pub data ReadResult : Type 0 where
  full : Bytes → ReadResult
  short : ReadError → ReadResult

-- Why a reader gave fewer bytes than `io.ReadFull` wants.
unfoldable pub short_read : Stream → ReadError
short_read s = if s.broken then failed else if length s.rest == 0 then eof else unexpected_eof

-- `io.ReadFull` into a buffer of `n` bytes.
unfoldable pub read_full : ℕ → Stream → ReadResult × Stream
unfolding short_read
read_full n s =
    if leb n (length s.rest)
    then (full (take n s.rest), record s { rest = drop n s.rest })
    else (short (short_read s), record s { rest = [] })

abbrev pub two63 : ℕ
two63 = 2 ^ 63

abbrev pub two64 : ℕ
two64 = 2 ^ 64

-- Is the `int64` with this bit pattern positive?
abbrev pub is_positive : ℕ → Bool
is_positive n = ltb 0 n && ltb n two63

-- `io.CopyN(io.Discard, r, n)` for the `int64` with the bit pattern `n`: one that is not positive
-- copies nothing and is no error. The result tells whether all of it was there.
unfoldable pub copy_n : ℕ → Stream → Bool × Stream
copy_n n s =
    if is_positive n then (leb n (length s.rest), record s { rest = drop n s.rest }) else (true, s)

-- The number whose digits to the base 256 are these, the lowest first.
unfoldable pub le : Bytes → ℕ
le [] = 0
le (b ∷ bs) = b + 256 * le bs

-- `binary.LittleEndian.Uint32(b[i:])` and `Uint64`
unfoldable pub u32_at : ℕ → Bytes → ℕ
u32_at i b = le (take 4 (drop i b))

unfoldable pub u64_at : ℕ → Bytes → ℕ
u64_at i b = le (take 8 (drop i b))

-- The `k` bytes of a number, the lowest first.
unfoldable pub put_le : ℕ → ℕ → Bytes
put_le zero v = []
put_le (suc k) v = (v % 256) ∷ put_le k (v / 256)
