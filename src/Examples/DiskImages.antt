-- ===== src/Examples/DiskImages.antt =====
-- pkg/copy/vmdk.go on a small image.
use kc_utils.Base.{◌*◌, ◌≡◌, ◌≢◌, refl, false, List, [], ◌∷◌, some, none, arith, All, take}
use kc_utils.ByteStream.{Bytes, Stream, u64_at}
use kc_utils.Vmdk.Decoder.{Env, yields, clean, Decoder, ok, out_of_fuel, sector_size}
use kc_utils.Vmdk.Grain.{decompress}
use kc_utils.Vmdk.Image.{stream_to_raw}
use kc_utils.Vmdk.Encode.{
  zeros, Item, grain, metadata, Layout, image_bytes, IsLayout, IsItem, is_grain, is_metadata,
  item_writes, IsCalm,
}
use kc_utils.Vmdk.Progress.{failure, stream_to_raw-terminates}
use kc_utils.Vmdk.Bounds.{InRange, decoder, stream_to_raw-InRange}
use kc_utils.Vmdk.RoundTrip.{stream_to_raw-image}

-- Stored bytes stand for compressed ones.
abbrev calm : Env
calm = record {
  inflate = λ b. yields b clean;
  seek_fails = λ o. false;
  write_fails = λ o b. none;
  cancelled = λ k. false;
  reports = false;
}

calm-IsCalm : IsCalm calm
calm-IsCalm = record { seeks = λ o. refl; writes = λ o b. refl; runs = λ k. refl }

abbrev small : Layout
small = record {
  version = 1;
  capacity = 4;
  grain_size = 2;
  over_head = 1;
  flags = zeros 4;
  middle = zeros 36;
  tail = zeros 440;
  descriptor = [];
}

small-IsLayout : IsLayout small
small-IsLayout = record {
  version_low = omega arith;
  version_high = omega arith;
  capacity_fits = omega arith;
  grain_pos = omega arith;
  grain_fits = omega arith;
  over_head_pos = omega arith;
  over_head_fits = omega arith;
  flags_length = refl;
  middle_length = refl;
  tail_length = refl;
  descriptor_length = refl;
}

abbrev bytes : Bytes
bytes = 7 ∷ 8 ∷ 9 ∷ []

abbrev items : List Item
items = grain 1 bytes bytes ∷ metadata 1 1 (zeros 512) ∷ []

items-All : All (IsItem calm small) items
unfolding decompress
items-All = (
  is_grain (omega arith) (omega arith) refl (omega arith) (omega arith),
  (is_metadata (omega arith) (omega arith) (omega arith) refl, tt),
)

abbrev stream : Stream
stream = record { rest = image_bytes small items (5 ∷ []); broken = false }

stream_to_raw-image_example :
    (d : Decoder) × (stream_to_raw calm stream ≡ ok tt d) × (d.writes ≡ item_writes items [])
stream_to_raw-image_example =
    stream_to_raw-image calm small items (5 ∷ []) false calm-IsCalm small-IsLayout items-All

stream_to_raw-InRange_example :
    All
      (InRange (u64_at 12 (take sector_size stream.rest) * sector_size))
      (decoder (stream_to_raw calm stream)).writes
stream_to_raw-InRange_example = stream_to_raw-InRange calm stream

stream_to_raw-terminates_example : failure (stream_to_raw calm stream) ≢ some out_of_fuel
stream_to_raw-terminates_example = stream_to_raw-terminates calm stream

-- The grain is written at its sector.
written : item_writes items [] ≡ (512, bytes) ∷ []
unfolding item_writes
written = refl
