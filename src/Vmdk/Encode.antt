-- ===== src/Vmdk/Encode.antt =====
-- The layout of a stream-optimized VMDK, as the format describes it: the header with the sectors
-- that follow it, compressed grains, metadata behind their markers, and the end-of-stream marker.
-- It is the independent description that `StreamToRaw` is held against.
use kc_utils.Base.{
  ℕ, ◌+◌, ◌-◌, ◌*◌, ◌/◌, ◌^◌, ◌≤◌, ◌<◌, ◌≡◌, false, List, [], ◌∷◌, ◌++◌, none, some, length,
  replicate,
}
use kc_utils.ByteStream.{Bytes, put_le}
use kc_utils.Vmdk.Decoder.{vmdk_magic, sector_size, max_grain_bytes, max_sectors, Env}
use kc_utils.Vmdk.Grain.{decompress}

abbrev pub zeros : ℕ → Bytes
zeros n = replicate n 0

-- The bytes up to the end of the sector that holds the last byte of a grain and its marker.
unfoldable pub padding : ℕ → ℕ
padding n = (n + 12 + 511) / 512 * 512 - (n + 12)

-- `raw` is what the grain's bytes `comp` inflate to.
pub data Item : Type 0 where
  grain : ℕ → Bytes → Bytes → Item
  -- The type of the marker, the number of its sectors, and their bytes.
  metadata : ℕ → ℕ → Bytes → Item

abbrev pub marker : ℕ → ℕ → Bytes
marker lba size = put_le 8 lba ++ put_le 4 size

unfoldable pub item_bytes : Item → Bytes → Bytes
item_bytes (grain lba comp raw) rest =
    marker lba (length comp) ++ (comp ++ (zeros (padding (length comp)) ++ rest))
item_bytes (metadata kind sectors body) rest =
    marker sectors 0 ++ (put_le 4 kind ++ (zeros 496 ++ (body ++ rest)))

-- The items, the end-of-stream marker, and whatever follows it.
unfoldable pub body_bytes : List Item → Bytes → Bytes
body_bytes [] rest = marker 0 0 ++ (put_le 4 0 ++ rest)
body_bytes (i ∷ items) rest = item_bytes i (body_bytes items rest)

pub record Layout : Type 0 where
  pub version : ℕ
  pub capacity : ℕ
  pub grain_size : ℕ
  pub over_head : ℕ
  -- The flags, the fields between the grain size and the overhead, and the rest of the sector.
  pub flags : Bytes
  pub middle : Bytes
  pub tail : Bytes
  -- The descriptor and the grain tables in front of the first grain.
  pub descriptor : Bytes

unfoldable pub header_bytes : Layout → Bytes
header_bytes l =
    put_le 4 vmdk_magic
    ++ (put_le 4 l.version
        ++ (l.flags
            ++ (put_le 8 l.capacity
                ++ (put_le 8 l.grain_size ++ (l.middle ++ (put_le 8 l.over_head ++ l.tail))))))

unfoldable pub image_bytes : Layout → List Item → Bytes → Bytes
image_bytes l items rest = header_bytes l ++ (l.descriptor ++ body_bytes items rest)

pub record IsLayout (l : Layout) : Type 0 where
  pub version_low : 1 ≤ l.version
  pub version_high : l.version ≤ 3
  pub capacity_fits : l.capacity ≤ max_sectors
  pub grain_pos : 1 ≤ l.grain_size
  pub grain_fits : l.grain_size * sector_size ≤ max_grain_bytes
  pub over_head_pos : 1 ≤ l.over_head
  pub over_head_fits : l.over_head ≤ max_sectors
  pub flags_length : length l.flags ≡ 4
  pub middle_length : length l.middle ≡ 36
  pub tail_length : length l.tail ≡ 440
  pub descriptor_length : length l.descriptor ≡ (l.over_head - 1) * sector_size

-- A grain inflates to its bytes, lies within the disk, and is not compressed to more than the
-- buffer may grow to. Metadata has a type other than that of the end.
pub data IsItem (env : Env) (l : Layout) : Item → Type 0 where
  is_grain :
      {lba : ℕ} {comp raw : Bytes}
      → 1 ≤ length comp
      → length comp ≤ l.grain_size * sector_size * 2
      → decompress (env.inflate comp) (l.grain_size * sector_size) ≡ some raw
      → 1 ≤ length raw
      → lba * sector_size + length raw ≤ l.capacity * sector_size
      → IsItem env l (grain lba comp raw)
  is_metadata :
      {kind sectors : ℕ} {body : Bytes}
      → 1 ≤ kind
      → kind < 2 ^ 32
      → sectors ≤ max_sectors
      → length body ≡ sectors * sector_size
      → IsItem env l (metadata kind sectors body)

-- What the items write, the latest first, in front of what was written before.
unfoldable pub item_writes : List Item → List (ℕ × Bytes) → List (ℕ × Bytes)
item_writes [] ws = ws
item_writes (grain lba comp raw ∷ items) ws = item_writes items ((lba * sector_size, raw) ∷ ws)
item_writes (metadata kind sectors body ∷ items) ws = item_writes items ws

-- Nothing outside the program fails.
pub record IsCalm (env : Env) : Type 0 where
  pub seeks : (o : ℕ) → env.seek_fails o ≡ false
  pub writes : (o : ℕ) (b : Bytes) → env.write_fails o b ≡ none
  pub runs : (k : ℕ) → env.cancelled k ≡ false
