-- ===== src/Wire.antt =====
-- pkg/qemuagent: the frames of pkg/qemuagent/proto/protocol.go, and `Serve` of
-- pkg/qemuagent/server/server.go over them.
--
-- `encoding/json` is a pair of functions, and the handlers of the requests are a function. A writer says
-- which writes it takes, and what stands behind one that it does not.
pub mod RoundTrip
use kc_utils.Base.{
  ℕ, zero, suc, ◌+◌, ◌*◌, ◌/◌, ◌%◌, ◌^◌, Bool, true, false, List, [], ◌∷◌, ◌++◌, Option, none, some,
  ltb, if◌then◌else◌, length,
}
use kc_utils.ByteStream.{
  Bytes, Stream, ReadError, eof, unexpected_eof, failed, ReadResult, full, short, read_full,
}

-- 512 << 20
abbrev pub max_message_size : ℕ
max_message_size = 512 * 2 ^ 20

-- `binary.BigEndian.PutUint32`
unfoldable pub put_be32 : ℕ → Bytes
put_be32 v = (v / 2 ^ 24 % 256) ∷ (v / 2 ^ 16 % 256) ∷ (v / 2 ^ 8 % 256) ∷ (v % 256) ∷ []

-- `binary.BigEndian.Uint32`, of four bytes.
unfoldable pub be_from : ℕ → Bytes → ℕ
be_from n [] = n
be_from n (b ∷ bs) = be_from (256 * n + b) bs

pub record Writer : Type 0 where
  pub accepts : Bytes → Bytes → Bool
  pub left_by_failure : Bytes → Bytes → Bytes

module _ (writer : Writer) where
  -- `w.Write` behind what is written already.
  unfoldable pub write : Bytes → Bytes → Bool × Bytes
  write bs out =
      if writer.accepts out bs then (true, out ++ bs) else (false, writer.left_by_failure out bs)

  abbrev pub and_write : Bytes → Bool × Bytes → Bool × Bytes
  and_write bs (true, out) = write bs out
  and_write bs (false, out) = (false, out)

  unfoldable pub write_payload : Option Bytes → Bytes → Bool × Bytes
  unfolding write put_be32
  write_payload none out = (false, out)
  write_payload (some payload) out =
      let framed = and_write payload (write (put_be32 (length payload % 2 ^ 32)) out) in
      if ltb max_message_size (length payload) then (false, out) else framed

-- `WriteMsg`
unfoldable pub write_msg {ℓ} : {A : Type ℓ} → Writer → (A → Option Bytes) → A → Bytes → Bool × Bytes
unfolding write_payload
write_msg writer marshal v out = write_payload writer (marshal v) out

-- `stopped` is a read that is short, of the header or of the payload.
pub data Message {ℓ} (A : Type ℓ) : Type ℓ where
  message : A → Message A
  stopped : ReadError → Message A
  too_large garbled : Message A

module _ {ℓ} {A : Type ℓ} (unmarshal : Bytes → Option A) where
  abbrev pub decoded : Option A → Message A
  decoded none = garbled
  decoded (some v) = message v

  abbrev pub after_payload : ReadResult × Stream → Message A × Stream
  after_payload (full payload, s) = (decoded (unmarshal payload), s)
  after_payload (short e, s) = (stopped e, s)

  unfoldable pub after_header : ReadResult × Stream → Message A × Stream
  unfolding be_from read_full
  after_header (short e, s) = (stopped e, s)
  after_header (full hdr, s) =
      let n = be_from 0 hdr in
      if ltb max_message_size n then (too_large, s) else after_payload (read_full n s)

  -- `ReadMsg`
  unfoldable pub read_msg : Stream → Message A × Stream
  unfolding after_header read_full
  read_msg s = after_header (read_full 4 s)

-- How `Serve` ends. `out_of_fuel` is the model's.
pub data Ended : Type 0 where
  closed transport_error out_of_fuel : Ended

module _ {ℓ κ} {A : Type ℓ} {B : Type κ} (unmarshal : Bytes → Option A) (marshal : B → Option Bytes)
    (writer : Writer) (handle : A → B) where
  -- The error of a read: the end of the connection is none.
  abbrev pub ended_by : ReadError → Ended
  ended_by eof = closed
  ended_by unexpected_eof = closed
  ended_by failed = transport_error

  abbrev pub after_answer : (Bytes → Ended × Bytes) → Bool × Bytes → Ended × Bytes
  after_answer rounds (false, out) = (transport_error, out)
  after_answer rounds (true, out) = rounds out

  unfoldable pub answer :
      (Stream → Bytes → Ended × Bytes) → Bytes → Message A × Stream → Ended × Bytes
  unfolding write_msg
  answer rounds out (stopped e, s) = (ended_by e, out)
  answer rounds out (too_large, s) = (transport_error, out)
  answer rounds out (garbled, s) = (transport_error, out)
  answer rounds out (message req, s) =
      after_answer (rounds s) (write_msg writer marshal (handle req) out)

  -- `Serve`, with fuel for its rounds.
  unfoldable pub serve_on : ℕ → Stream → Bytes → Ended × Bytes
  unfolding read_msg answer
  serve_on zero s out = (out_of_fuel, out)
  serve_on (suc fuel) s out = answer (serve_on fuel) out (read_msg unmarshal s)

  unfoldable pub serve : Stream → Ended × Bytes
  unfolding serve_on
  serve s = serve_on (length s.rest + 1) s []
