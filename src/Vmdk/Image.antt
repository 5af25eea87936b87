-- ===== src/Vmdk/Image.antt =====
-- pkg/copy/vmdk.go: `StreamToRaw`.
use kc_utils.Base.{
  ℕ, zero, suc, ◌+◌, ◌-◌, ◌*◌, ◌%◌, Bool, true, false, not, ◌||◌, [], ltb, ◌==◌, if◌then◌else◌,
  length,
}
use kc_utils.ByteStream.{
  Bytes, Stream, failed, ReadResult, full, short, u32_at, u64_at, two64, is_positive,
}
use kc_utils.Vmdk.Decoder.{
  vmdk_magic, sector_size, grain_marker_size, max_grain_bytes, max_sectors, Env, read_header,
  read_marker, bad_magic, bad_version, capacity_overflow, grain_overflow, grain_limit, grain_zero,
  grain_non_positive, skip_overhead, context, out_of_fuel, Decoder, Outcome, ok, err, ◌>>=◌,
  fail_if,
}
use kc_utils.Vmdk.Grain.{read, discard, expect, process_compressed_grain, process_metadata_marker}

-- The fields of the header that the code reads, in sectors.
pub record Header : Type 0 where
  pub capacity : ℕ
  pub grain : ℕ
  pub over_head : ℕ

-- The checks of the header, in their order.
unfoldable pub check_header : Bytes → Decoder → Outcome Header
check_header b d =
    let magic = u32_at 0 b in
    let version = u32_at 4 b in
    let capacity = u64_at 12 b in
    let grain = u64_at 20 b in
    let over_head = u64_at 64 b in
    if not (magic == vmdk_magic)
    then err (bad_magic magic) d
    else if ltb version 1 || ltb 3 version
    then err (bad_version version) d
    else if ltb max_sectors capacity
    then err (capacity_overflow capacity) d
    else if grain == 0
    then err grain_zero d
    else if ltb max_sectors grain
    then err (grain_overflow grain) d
    else if grain * sector_size == 0
    then err grain_non_positive d
    else if ltb max_grain_bytes (grain * sector_size)
    then err (grain_limit (grain * sector_size)) d
    else ok (record { capacity = capacity; grain = grain; over_head = over_head }) d

-- The `int64` number of sectors between the header and the first grain.
unfoldable pub skip_sectors : ℕ → ℕ
skip_sectors over_head = (over_head + two64 - 1) % two64

unfoldable pub skip_over_head : ℕ → Decoder → Outcome (Unit {0})
skip_over_head over_head d =
    let skip = skip_sectors over_head in
    if is_positive skip
    then discard ((skip * sector_size) % two64) d
      >>= (λ (skipped, d'). fail_if (not skipped) skip_overhead d')
    else ok tt d

-- The fields that `StreamToRaw` gives the new `vmdkStreamReader`.
unfoldable pub start : Header → Decoder → Decoder
start h d = record d {
  comp_len = h.grain * sector_size;
  grain_len = h.grain * sector_size;
  comp_limit = h.grain * sector_size * 2;
  total = h.capacity * sector_size;
}

module _ (env : Env) where
  -- A round of the loop, on the marker that it read. `true` ends the loop.
  unfoldable pub after_marker : ReadResult → Decoder → Outcome Bool
  after_marker (full b) d =
      let lba = u64_at 0 b in
      let size = u32_at 8 b in
      if size == 0
      then process_metadata_marker lba d
      else process_compressed_grain env lba size d >>= (λ (_, d'). ok false d')
  after_marker (short failed) d = err (read_marker failed) d
  after_marker (short _) d = ok true d

  unfoldable pub round : ℕ → Decoder → Outcome Bool
  round k d = do
    (_, d) ← fail_if (env.cancelled k) context d
    (r, d) ← read grain_marker_size d
    after_marker r d

  unfoldable pub loop : ℕ → ℕ → Decoder → Outcome (Unit {0})
  loop zero k d = err out_of_fuel d
  loop (suc fuel) k d =
      round k d
      >>= (λ (finished, d'). elim finished [ true ↦ ok tt d' | false ↦ loop fuel (k + 1) d' ])

  unfoldable pub run : Decoder → Outcome (Unit {0})
  run d = do
    (r, d) ← read sector_size d
    (b, d) ← expect read_header r d
    (h, d) ← check_header b d
    (_, d) ← skip_over_head h.over_head d
    loop (length d.stream.rest + 1) 0 (start h d)

  unfoldable pub stream_to_raw : Stream → Outcome (Unit {0})
  stream_to_raw s = run (record {
    stream = s;
    writes = [];
    comp_len = 0;
    grain_len = 0;
    comp_limit = 0;
    written = 0;
    total = 0;
    progress = [];
  })
