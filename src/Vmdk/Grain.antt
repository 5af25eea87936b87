-- ===== src/Vmdk/Grain.antt =====
-- pkg/copy/vmdk.go: `decompress`, `processMetadataMarker` and `processCompressedGrain`.
use kc_utils.Base.{
  ℕ, ◌+◌, ◌-◌, ◌*◌, ◌%◌, Bool, true, false, not, ◌||◌, ◌∷◌, Option, none, some, ltb, leb, ◌==◌,
  if◌then◌else◌, length, take,
}
use kc_utils.ByteStream.{
  Bytes, ReadError, failed, ReadResult, full, short, read_full, copy_n, u32_at, two63, two64,
}
use kc_utils.Vmdk.Decoder.{
  sector_size, grain_marker_size, grain_marker_eos, max_sectors, Ending, clean, truncated, corrupt,
  Inflated, bad_header, yields, Env, Error, read_marker_type, read_grain, read_padding,
  skip_marker_padding, skip_metadata, claims_too_much, decompress_failed, lba_overflow,
  range_overflow, seek_failed, write_failed, beyond_capacity, Decoder, Outcome, ok, err, ◌>>=◌,
  fail_if,
}

unfoldable pub read : ℕ → Decoder → Outcome ReadResult
read n d = let (r, s) = read_full n d.stream in ok r (record d { stream = s })

unfoldable pub discard : ℕ → Decoder → Outcome Bool
discard n d = let (b, s) = copy_n n d.stream in ok b (record d { stream = s })

-- A read that must be full.
abbrev pub expect : (ReadError → Error) → ReadResult → Decoder → Outcome Bytes
expect e (full b) d = ok b d
expect e (short why) d = err (e why) d

-- `decompress`: `io.ReadFull` on the inflated stream, into a buffer of `n` bytes. A stream that
-- ends within the buffer is accepted, unless it is empty and ends well (`io.EOF`).
unfoldable pub fill : ℕ → Bytes → Ending → Option Bytes
fill n b clean =
    if leb n (length b) then some (take n b) else if length b == 0 then none else some b
fill n b truncated = if leb n (length b) then some (take n b) else some b
fill n b corrupt = if leb n (length b) then some (take n b) else none

unfoldable pub decompress : Inflated → ℕ → Option Bytes
unfolding fill
decompress bad_header n = none
decompress (yields b ending) n = fill n b ending

unfoldable pub pad_bytes : ℕ → ℕ
pad_bytes size = (sector_size - (grain_marker_size + size) % sector_size) % sector_size

-- `if len(sr.compBuf) < dataSize` the buffer is made anew.
abbrev pub grow : ℕ → Decoder → Decoder
grow n d = record d { comp_len = if ltb d.comp_len n then n else d.comp_len }

-- Of what a read of the padding returns only an I/O error counts.
abbrev pub ignore_end : ReadResult → Decoder → Outcome (Unit {0})
ignore_end (short failed) d = err (read_padding failed) d
ignore_end _ d = ok tt d

unfoldable pub read_pad : ℕ → Decoder → Outcome (Unit {0})
read_pad size d =
    let pad = pad_bytes size in
    if ltb 0 pad then read pad d >>= (λ (r, d'). ignore_end r d') else ok tt d

module _ (env : Env) where
  -- Seek and write at an offset.
  unfoldable pub store : ℕ → ℕ → Bytes → Decoder → Outcome (Unit {0})
  store lba offset b d =
      if env.seek_fails offset
      then err (seek_failed offset) d
      else elim (env.write_fails offset b) [
        | some k ↦ err (write_failed lba) (record d { writes = (offset, take k b) ∷ d.writes })
        | none ↦ ok tt (record d { writes = (offset, b) ∷ d.writes })
      ]

  -- The `int64` counter, and the call of `onProgress`.
  unfoldable pub count_written : ℕ → Decoder → Outcome (Unit {0})
  count_written n d =
      let sum = (d.written + n) % two64 in
      ok tt (record d {
        written = sum;
        progress = if env.reports then (sum, d.total) ∷ d.progress else d.progress;
      })

  -- The checks of the range that a grain is written to. `end < offset` is the overflow of the
  -- `int64` sum.
  unfoldable pub write_grain : ℕ → Bytes → Decoder → Outcome (Unit {0})
  unfolding store count_written
  write_grain lba b d =
      let offset = lba * sector_size in
      let end = offset + length b in
      if ltb max_sectors lba
      then err (lba_overflow lba) d
      else if leb two63 end
      then err (range_overflow lba) d
      else if leb d.total offset || ltb d.total end
      then err (beyond_capacity lba offset end) d
      else store lba offset b d >>= (λ (_, d'). count_written (length b) d')

  -- A grain that was read whole.
  unfoldable pub write_inflated : ℕ → Bytes → Decoder → Outcome (Unit {0})
  write_inflated lba comp d = elim (decompress (env.inflate comp) d.grain_len) [
    | none ↦ err (decompress_failed lba) d
    | some b ↦ write_grain lba b d
  ]

  unfoldable pub process_compressed_grain : ℕ → ℕ → Decoder → Outcome (Unit {0})
  process_compressed_grain lba size d = do
    (_, d) ← fail_if (ltb d.comp_limit size) (claims_too_much lba size) d
    (r, d) ← read size (grow size d)
    (comp, d) ← expect read_grain r d
    (_, d) ← read_pad size d
    write_inflated lba comp d

-- Behind the type of a marker: the padding of its sector, and the metadata.
unfoldable pub skip_marker : ℕ → ℕ → Decoder → Outcome Bool
skip_marker kind lba d = do
  (padded, d) ← discard (sector_size - (grain_marker_size + 4)) d
  (_, d) ← fail_if (not padded) (skip_marker_padding kind) d
  (skipped, d) ← discard ((lba * sector_size) % two64) d
  (_, d) ← fail_if (not skipped) (skip_metadata kind) d
  ok false d

unfoldable pub after_marker_type : ℕ → ReadResult → Decoder → Outcome Bool
after_marker_type lba (full b) d =
    if u32_at 0 b == grain_marker_eos then ok true d else skip_marker (u32_at 0 b) lba d
after_marker_type lba (short failed) d = err (read_marker_type failed) d
after_marker_type lba (short _) d = ok true d

-- `true` at an end-of-stream marker, and where the file ends within the marker's type.
unfoldable pub process_metadata_marker : ℕ → Decoder → Outcome Bool
process_metadata_marker lba d = read 4 d >>= (λ (r, d'). after_marker_type lba r d')
