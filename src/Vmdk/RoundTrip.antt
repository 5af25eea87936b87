-- ===== src/Vmdk/RoundTrip.antt =====
-- `StreamToRaw` on an image of the described layout.
use kc_utils.Base.{
  ℕ, zero, suc, ◌+◌, ◌*◌, ◌^◌, ◌≤◌, ◌<◌, ◌≡◌, refl, ◌∙◌, Bool, true, false, List, [], ◌∷◌, ◌++◌,
  arith, length, length-append, ◌==◌, All,
}
use kc_utils.ByteStream.{Bytes, full, le, put_le}
use kc_utils.ByteStream.Laws.{length-put_le}
use kc_utils.Vmdk.Decoder.{sector_size, max_sectors, Env, Decoder, ok, ◌>>=◌}
use kc_utils.Vmdk.Grain.{
  skip_marker, after_marker_type, process_compressed_grain, process_metadata_marker,
}
use kc_utils.Vmdk.Image.{after_marker, round, loop, start, run, stream_to_raw}
use kc_utils.Vmdk.Encode.{
  zeros, padding, Item, grain, metadata, marker, item_bytes, body_bytes, IsItem, is_grain,
  is_metadata, Layout, IsLayout, IsCalm, item_writes, header_bytes, image_bytes,
}
use kc_utils.Vmdk.HeaderFields.{
  header_of, check_header-layout, skip_over_head-layout, length-header_bytes,
}
use kc_utils.Vmdk.Pieces.{
  with_rest, step, fail_if-passes, read-append, discard-append, u64_at-marker, u32_at-marker,
  length-marker, u32_at-put_le, grained, process_compressed_grain-calm,
}

skip_marker-append :
    (kind sectors : ℕ) (body rest : Bytes) (d : Decoder)
    → d.stream.rest ≡ zeros 496 ++ (body ++ rest)
    → length body ≡ sectors * sector_size
    → sectors ≤ max_sectors
    → skip_marker kind sectors d ≡ ok false (with_rest d rest)
unfolding skip_marker
skip_marker-append kind sectors body rest d e len le =
    step _ _ (discard-append 496 (zeros 496) _ d e refl (omega arith))
    ∙ step _ _ {a = tt} refl
    ∙ step _ _ (discard-append _ body rest _ refl (omega arith) (omega arith))
    ∙ step _ _ {a = tt} refl

process_metadata_marker-skips :
    (kind sectors : ℕ) (body rest : Bytes) (d : Decoder)
    → d.stream.rest ≡ put_le 4 kind ++ (zeros 496 ++ (body ++ rest))
    → 1 ≤ kind
    → kind < 2 ^ 32
    → length body ≡ sectors * sector_size
    → sectors ≤ max_sectors
    → process_metadata_marker sectors d ≡ ok false (with_rest d rest)
unfolding process_metadata_marker after_marker_type
process_metadata_marker-skips kind sectors body rest d e pos lt len le =
    step _ _ (read-append 4 (put_le 4 kind) _ d e (length-put_le 4 kind))
    ∙ ground (
      arith,
      u32_at-put_le kind lt,
      skip_marker-append kind sectors body rest (with_rest d (zeros 496 ++ (body ++ rest))) refl len
          le,
    )

process_metadata_marker-ends :
    (rest : Bytes) (d : Decoder)
    → d.stream.rest ≡ put_le 4 0 ++ rest
    → process_metadata_marker 0 d ≡ ok true (with_rest d rest)
unfolding process_metadata_marker after_marker_type
process_metadata_marker-ends rest d e =
    step _ _ (read-append 4 (put_le 4 0) _ d e (length-put_le 4 0))
    ∙ ground (arith, u32_at-put_le 0 (omega arith))

item_writes-cons :
    (i : Item) (items : List Item) (ws ws' : List (ℕ × Bytes))
    → item_writes (i ∷ []) ws ≡ ws'
    → item_writes items ws' ≡ item_writes (i ∷ items) ws
unfolding item_writes
item_writes-cons (grain lba comp raw) items ws ws' h = rw (← h)
item_writes-cons (metadata kind sectors body) items ws ws' h = rw (← h)

item_bytes-longer : (i : Item) (rest : Bytes) → length rest < length (item_bytes i rest)
unfolding item_bytes put_le
item_bytes-longer (grain lba comp raw) rest = simp (length-append, length-marker) (omega arith)
item_bytes-longer (metadata kind sectors body) rest =
    simp (length-append, length-marker) (omega arith)

body_bytes-longer :
    (items : List Item) (rest : Bytes) → length items ≤ length (body_bytes items rest)
unfolding body_bytes
body_bytes-longer [] rest = omega arith
body_bytes-longer (i ∷ items) rest =
    omega (arith, body_bytes-longer items rest, item_bytes-longer i (body_bytes items rest))

module _ (env : Env) (calm : IsCalm env) where
  after_marker-grain :
      (lba size : ℕ) (d : Decoder)
      → 1 ≤ size
      → lba < 2 ^ 64
      → size < 2 ^ 32
      → after_marker env (full (marker lba size)) d
        ≡ (process_compressed_grain env lba size d >>= (λ (_, d'). ok false d'))
  unfolding after_marker
  after_marker-grain lba size d pos h k =
      let e : (size == 0) ≡ false = ground arith in
      rw (after_marker, u64_at-marker lba size h, u32_at-marker lba size k, e)

  after_marker-metadata :
      (lba : ℕ) (d : Decoder)
      → lba < 2 ^ 64
      → after_marker env (full (marker lba 0)) d ≡ process_metadata_marker lba d
  unfolding after_marker
  after_marker-metadata lba d h =
      rw (after_marker, u64_at-marker lba 0 h, u32_at-marker lba 0 (omega arith))

  round-marker :
      (k lba size : ℕ) (rest : Bytes) (d : Decoder)
      → d.stream.rest ≡ marker lba size ++ rest
      → round env k d ≡ after_marker env (full (marker lba size)) (with_rest d rest)
  unfolding round
  round-marker k lba size rest d e =
      step _ _ (fail_if-passes (env.cancelled k) _ d (calm.runs k))
      ∙ step _ _ (read-append 12 (marker lba size) rest d e (length-marker lba size))

  module _ (l : Layout) (valid : IsLayout l) where
    -- The decoder is set up for the layout.
    record IsReady (d : Decoder) : Type 0 where
      grain_is : d.grain_len ≡ l.grain_size * sector_size
      limit_is : d.comp_limit ≡ l.grain_size * sector_size * 2
      total_is : d.total ≡ l.capacity * sector_size

    -- One round takes one item, and leaves its writes.
    round-item :
        (k : ℕ) (i : Item) (rest : Bytes) (d : Decoder)
        → IsItem env l i
        → IsReady d
        → d.stream.rest ≡ item_bytes i rest
        → (d' : Decoder) × (round env k d ≡ ok false d')
          × IsReady d'
          × (d'.stream.rest ≡ rest)
          × (item_writes (i ∷ []) d.writes ≡ d'.writes)
    unfolding item_bytes item_writes grained ◌>>=◌
    round-item k (grain lba comp raw) rest d (is_grain pos le inf full_raw fits) r e =
        let d0 = with_rest d (comp ++ (zeros (padding (length comp)) ++ rest)) in
        let inf' = rw (← r.grain_is) at inf in
        let run =
          process_compressed_grain-calm env calm lba comp raw rest d0 refl
            (omega (arith, r.limit_is)) inf' full_raw (omega (arith, r.total_is))
            (omega (arith, r.total_is, valid.capacity_fits)) in
        (
          with_rest (grained env lba comp raw d0) rest,
          round-marker k lba (length comp) _ d e
              ∙ after_marker-grain lba (length comp) d0 pos (omega (arith, valid.capacity_fits))
                  (omega (arith, valid.grain_fits))
              ∙ rw run,
          ground arith,
          refl,
          refl,
        )
    round-item k (metadata kind sectors body) rest d (is_metadata pos lt le len) r e =
        let d0 = with_rest d (put_le 4 kind ++ (zeros 496 ++ (body ++ rest))) in
        (
          with_rest d0 rest,
          round-marker k sectors 0 _ d e
              ∙ after_marker-metadata sectors d0 (omega arith)
              ∙ process_metadata_marker-skips kind sectors body rest d0 refl pos lt len le,
          ground arith,
          refl,
          refl,
        )

    loop-items :
        (items : List Item) (fuel k : ℕ) (rest : Bytes) (d : Decoder)
        → All (IsItem env l) items
        → IsReady d
        → d.stream.rest ≡ body_bytes items rest
        → length items < fuel
        → (d' : Decoder) × (loop env fuel k d ≡ ok tt d') × (d'.writes ≡ item_writes items d.writes)
    unfolding body_bytes item_writes loop
    loop-items items zero k rest d h r e lt = absurd (omega arith)
    loop-items [] (suc fuel) k rest d h r e lt =
        let d0 = with_rest d (put_le 4 0 ++ rest) in
        (
          with_rest d0 rest,
          step _ _ (
              round-marker k 0 0 _ d e
              ∙ after_marker-metadata 0 d0 (omega arith)
              ∙ process_metadata_marker-ends rest d0 refl),
          refl,
        )
    loop-items (i ∷ items) (suc fuel) k rest d (hi, hs) r e lt =
        let (d1, ran, r1, e1, w1) = round-item k i _ d hi r e in
        let (d2, looped, w2) = loop-items items fuel (k + 1) rest d1 hs r1 e1 (omega arith) in
        (d2, step _ _ ran ∙ looped, w2 ∙ item_writes-cons i items d.writes d1.writes w1)

    start-IsReady : (d : Decoder) → IsReady (start (header_of l valid) d)
    unfolding start
    start-IsReady d = ground arith

    run-image :
        (items : List Item) (rest : Bytes) (d : Decoder)
        → All (IsItem env l) items
        → d.stream.rest ≡ image_bytes l items rest
        → (d' : Decoder) × (run env d ≡ ok tt d') × (d'.writes ≡ item_writes items d.writes)
    unfolding run image_bytes start
    run-image items rest d h e =
        let b1 = l.descriptor ++ body_bytes items rest in
        let b2 = body_bytes items rest in
        let d1 = with_rest d b1 in
        let d2 = start (header_of l valid) (with_rest d1 b2) in
        let (d', looped, w) =
          loop-items items (length b2 + 1) 0 rest d2 h (start-IsReady (with_rest d1 b2)) refl
            (omega (arith, body_bytes-longer items rest)) in
        (
          d',
          step _ _ (read-append 512 (header_bytes l) b1 d e (length-header_bytes l valid))
              ∙ step _ _ {a = header_bytes l} {d = d1} refl
              ∙ step _ _ (check_header-layout l valid d1)
              ∙ step _ _ (skip_over_head-layout l valid b2 d1 refl)
              ∙ looped,
          w,
        )

-- An image of the described layout is read to its end without an error, and the writes are those of
-- its grains: each at its own offset, with the bytes that it inflates to, and no other.
pub stream_to_raw-image :
    (env : Env) (l : Layout) (items : List Item) (rest : Bytes) (broken : Bool)
    → IsCalm env
    → IsLayout l
    → All (IsItem env l) items
    → (d : Decoder) × (stream_to_raw env
          (record { rest = image_bytes l items rest; broken = broken })
        ≡ ok tt d)
      × (d.writes ≡ item_writes items [])
unfolding stream_to_raw
stream_to_raw-image env l items rest broken calm valid h =
    run-image env calm l valid items rest _ h refl
