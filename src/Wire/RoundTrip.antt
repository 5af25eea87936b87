-- ===== src/Wire/RoundTrip.antt =====
-- Frames that are written and read, and the loop over them.
use kc_utils.Base.{
  ℕ, zero, suc, ◌%◌, ◌^◌, ◌≤◌, ◌<◌, ◌≡◌, refl, ap, ◌∙◌, Bool, true, false, List, [], ◌∷◌, ◌++◌,
  Option, some, arith, ltb, length, length-append, length-map, map, append_assoc, append-nil, All,
}
use kc_utils.ByteStream.{Bytes, Stream, eof, short_read, read_full}
use kc_utils.ByteStream.Laws.{read_full-append}
use kc_utils.Wire.{
  max_message_size, put_be32, be_from, Writer, write, write_payload, write_msg, message, stopped,
  decoded, after_header, read_msg, Ended, closed, answer, after_answer, serve_on, serve,
}

be_from-put_be32 : (v : ℕ) → v < 2 ^ 32 → be_from 0 (put_be32 v) ≡ v
unfolding be_from put_be32
be_from-put_be32 v h = omega arith

length-put_be32 : (v : ℕ) → length (put_be32 v) ≡ 4
unfolding put_be32
length-put_be32 v = refl

within : {n : ℕ} → n ≤ max_message_size → ltb max_message_size n ≡ false
within h = ground (arith, h)

-- The frame of a payload.
abbrev pub frame : Bytes → Bytes
frame payload = put_be32 (length payload) ++ payload

module _ {ℓ} {A : Type ℓ} (unmarshal : Bytes → Option A) where
  read_msg-frame :
      (payload rest : Bytes) (broken : Bool)
      → length payload ≤ max_message_size
      → read_msg unmarshal (record { rest = frame payload ++ rest; broken = broken })
        ≡ (decoded unmarshal (unmarshal payload), record { rest = rest; broken = broken })
  unfolding read_msg after_header
  read_msg-frame payload rest broken h =
      rw
        (read_full-append 4 (put_be32 (length payload)) (payload ++ rest)
          (record { rest = frame payload ++ rest; broken = broken })
          (append_assoc (put_be32 (length payload)) payload rest)
          (length-put_be32 (length payload)))
        (rw (be_from-put_be32 (length payload) (omega (arith, h))) (
          rw
            (
              within h,
              read_full-append (length payload) payload rest
                  (record { rest = payload ++ rest; broken = broken }) refl refl,
            )
            refl))

  read_msg-end :
      read_msg unmarshal (record { rest = []; broken = false })
      ≡ (stopped eof, record { rest = []; broken = false })
  unfolding read_msg after_header read_full short_read
  read_msg-end = refl

-- The frames of some payloads, one behind the other.
abbrev pub frames : List Bytes → Bytes
frames [] = []
frames (p ∷ ps) = frame p ++ frames ps

-- The fuel that is given is enough for the frames.
length-le-frames : (ps : List Bytes) → length ps ≤ length (frames ps)
length-le-frames [] = omega arith
length-le-frames (p ∷ ps) = omega (
  arith,
  length-append (frame p) (frames ps),
  length-append (put_be32 (length p)) p,
  length-put_be32 (length p),
  length-le-frames ps,
)

write_payload-frame :
    (writer : Writer) (p out : Bytes)
    → ((o b : Bytes) → writer.accepts o b ≡ true)
    → length p ≤ max_message_size
    → write_payload writer (some p) out ≡ (true, out ++ frame p)
unfolding write_payload write
write_payload-frame writer p out open_to_all h =
    let size : length p % 2 ^ 32 ≡ length p = omega (arith, h) in
    rw (within h, size)
      (rw (open_to_all out (put_be32 (length p))) (
        rw (open_to_all (out ++ put_be32 (length p)) p)
          (rw (append_assoc out (put_be32 (length p)) p) refl)))

-- The request and its answer fit into frames.
abbrev pub Fits {ℓ κ} : {A : Type ℓ} {B : Type κ} → (A → B) → (A → Bytes) → (B → Bytes) → A → Type 0
Fits handle encode reply r =
    (length (encode r) ≤ max_message_size) × (length (reply (handle r)) ≤ max_message_size)

module _ {ℓ κ} {A : Type ℓ} {B : Type κ} (unmarshal : Bytes → Option A) (marshal : B → Option Bytes)
    (writer : Writer) (handle : A → B) (encode : A → Bytes) (reply : B → Bytes) where
  module _ (decodes : (r : A) → unmarshal (encode r) ≡ some r)
      (encodes : (b : B) → marshal b ≡ some (reply b))
      (open_to_all : (o b : Bytes) → writer.accepts o b ≡ true) where
    abbrev rounds : ℕ → Stream → Bytes → Ended × Bytes
    rounds = serve_on unmarshal marshal writer handle

    write_msg-frame :
        (b : B) (out : Bytes)
        → length (reply b) ≤ max_message_size
        → write_msg writer marshal b out ≡ (true, out ++ frame (reply b))
    unfolding write_msg
    write_msg-frame b out h =
        rw (encodes b) (write_payload-frame writer (reply b) out open_to_all h)

    read_msg-request :
        (r : A) (rest : Bytes)
        → length (encode r) ≤ max_message_size
        → read_msg unmarshal (record { rest = frame (encode r) ++ rest; broken = false })
          ≡ (message r, record { rest = rest; broken = false })
    read_msg-request r rest h =
        read_msg-frame unmarshal (encode r) rest false h ∙ rw (decodes r) refl

    serve_on-answers :
        (fuel : ℕ) (rs : List A) (out : Bytes)
        → length rs < fuel
        → All (Fits handle encode reply) rs
        → serve_on unmarshal marshal writer handle fuel
            (record { rest = frames (map encode rs); broken = false })
            out
          ≡ (closed, out ++ frames (map reply (map handle rs)))
    unfolding serve_on answer
    serve_on-answers zero rs out h f = absurd (omega (arith, h))
    serve_on-answers (suc fuel) [] out h f =
        ap (answer unmarshal marshal writer handle (rounds fuel) out) (read_msg-end unmarshal)
        ∙ rw (append-nil out) refl
    serve_on-answers (suc fuel) (r ∷ rs) out h f =
        ap (answer unmarshal marshal writer handle (rounds fuel) out)
          (read_msg-request r (frames (map encode rs)) f.0.0)
        ∙ ap (after_answer unmarshal marshal writer handle (rounds fuel _))
            (write_msg-frame (handle r) out f.0.1)
        ∙ serve_on-answers fuel rs (out ++ frame (reply (handle r))) (omega (arith, h)) f.1
        ∙ rw (append_assoc out (frame (reply (handle r))) (frames (map reply (map handle rs)))) refl

-- `Serve` answers every request, in the order in which they come, and ends without an error when the
-- connection is closed behind the last one: if JSON is read as what was written, the writer takes all,
-- and requests and answers are not larger than a frame may be.
pub serve-answers {ℓ κ} :
    {A : Type ℓ} {B : Type κ} (unmarshal : Bytes → Option A) (marshal : B → Option Bytes)
    (writer : Writer) (handle : A → B) (encode : A → Bytes) (reply : B → Bytes) (rs : List A)
    → ((r : A) → unmarshal (encode r) ≡ some r)
    → ((b : B) → marshal b ≡ some (reply b))
    → ((o b : Bytes) → writer.accepts o b ≡ true)
    → All (Fits handle encode reply) rs
    → serve unmarshal marshal writer handle
        (record { rest = frames (map encode rs); broken = false })
      ≡ (closed, frames (map reply (map handle rs)))
unfolding serve
serve-answers unmarshal marshal writer handle encode reply rs decodes encodes open_to_all fit =
    let same : length (map encode rs) ≡ length rs = length-map rs encode in
    serve_on-answers unmarshal marshal writer handle encode reply decodes encodes open_to_all _ rs
      [] (omega (arith, length-le-frames (map encode rs))) fit
