-- ===== src/Vmdk/Pieces.antt =====
-- The calls of `StreamToRaw` on a piece of an image whose bytes are known, with any bytes behind it.
use kc_utils.Base.{
  ℕ, ◌+◌, ◌*◌, ◌%◌, ◌^◌, ◌≤◌, ◌<◌, ◌≡◌, refl, ap, sym, ◌∙◌, Bool, true, false, [], ◌∷◌, ◌++◌, some,
  arith, length, length-append, length-replicate, if◌then◌else◌, ltb,
}
use kc_utils.ByteStream.{Bytes, full, u32_at, u64_at, le, put_le, two63, two64}
use kc_utils.ByteStream.Laws.{
  read_full-append, copy_n-append, take_append, take_self, drop_append, le-put_le, length-put_le,
}
use kc_utils.Vmdk.Decoder.{sector_size, Env, Error, fail_if, Decoder, Outcome, ok, ◌>>=◌}
use kc_utils.Vmdk.Grain.{
  read, discard, grow, pad_bytes, read_pad, write_grain, write_inflated, decompress,
  process_compressed_grain,
}
use kc_utils.Vmdk.Encode.{zeros, padding, marker, IsCalm}

abbrev pub with_rest : Decoder → Bytes → Decoder
with_rest d b = record d { stream = record { rest = b; broken = d.stream.broken } }

-- A step that is known.
pub step {ℓ κ} :
    {A : Type ℓ} {B : Type κ} (m : Outcome A) (f : A × Decoder → Outcome B) {a : A} {d : Decoder}
    → m ≡ ok a d
    → (m >>= f) ≡ f (a, d)
unfolding ◌>>=◌
step m f h = rw h

pub fail_if-passes : (b : Bool) (e : Error) (d : Decoder) → b ≡ false → fail_if b e d ≡ ok tt d
fail_if-passes b e d h = rw h

pub read-append :
    (n : ℕ) (a b : Bytes) (d : Decoder)
    → d.stream.rest ≡ a ++ b
    → length a ≡ n
    → read n d ≡ ok (full a) (with_rest d b)
unfolding read
read-append n a b d e h = rw (read_full-append n a b d.stream e h)

pub discard-append :
    (n : ℕ) (a b : Bytes) (d : Decoder)
    → d.stream.rest ≡ a ++ b
    → length a ≡ n
    → n < two63
    → discard n d ≡ ok true (with_rest d b)
unfolding discard
discard-append n a b d e h lt = rw (copy_n-append n a b d.stream e h lt)

pub u64_at-marker : (lba size : ℕ) → lba < 2 ^ 64 → u64_at 0 (marker lba size) ≡ lba
unfolding u64_at
u64_at-marker lba size h =
    rw (take_append 8 (put_le 8 lba) _ (length-put_le 8 lba)) (le-put_le 8 lba h)

pub u32_at-marker : (lba size : ℕ) → size < 2 ^ 32 → u32_at 8 (marker lba size) ≡ size
unfolding u32_at
u32_at-marker lba size h =
    rw (drop_append 8 (put_le 8 lba) _ (length-put_le 8 lba))
      (rw (take_self 4 (put_le 4 size) (length-put_le 4 size)) (le-put_le 4 size h))

pub length-marker : (lba size : ℕ) → length (marker lba size) ≡ 12
length-marker lba size =
    length-append (put_le 8 lba) (put_le 4 size) ∙ rw (length-put_le 8 lba, length-put_le 4 size)

pub u32_at-put_le : (v : ℕ) → v < 2 ^ 32 → u32_at 0 (put_le 4 v) ≡ v
unfolding u32_at
u32_at-put_le v h = rw (take_self 4 (put_le 4 v) (length-put_le 4 v)) (le-put_le 4 v h)

-- What a grain leaves behind.
unfoldable pub grained : Env → ℕ → Bytes → Bytes → Decoder → Decoder
grained env lba comp raw d =
    let sum = (d.written + length raw) % two64 in
    record d {
      writes = (lba * sector_size, raw) ∷ d.writes;
      comp_len = if ltb d.comp_len (length comp) then length comp else d.comp_len;
      written = sum;
      progress = if env.reports then (sum, d.total) ∷ d.progress else d.progress;
    }

-- The code's padding is that of the format.
pad_bytes-padding : (n : ℕ) → pad_bytes n ≡ padding n
unfolding pad_bytes padding
pad_bytes-padding n = omega arith

read_pad-zeros :
    (size : ℕ) (b : Bytes) (d : Decoder)
    → d.stream.rest ≡ zeros (padding size) ++ b
    → read_pad size d ≡ ok tt (with_rest d b)
unfolding read_pad ◌>>=◌
read_pad-zeros size b d e =
    let known = e ∙ ap (λ n. zeros n ++ b) (sym (pad_bytes-padding size)) in
    ground (
      arith,
      read-append (pad_bytes size) (zeros (pad_bytes size)) b d known (length-replicate _ _),
    )

module _ (env : Env) (calm : IsCalm env) where
  write_grain-calm :
      (lba : ℕ) (raw : Bytes) (d : Decoder)
      → 1 ≤ length raw
      → lba * sector_size + length raw ≤ d.total
      → d.total < two63
      → write_grain env lba raw d
        ≡ ok tt (record (grained env lba [] raw d) { comp_len = d.comp_len })
  unfolding write_grain ◌>>=◌ grained
  write_grain-calm lba raw d pos h fits =
      ground (arith, calm.seeks (lba * 512), calm.writes (lba * 512) raw)

  write_inflated-calm :
      (lba : ℕ) (comp raw : Bytes) (d : Decoder)
      → decompress (env.inflate comp) d.grain_len ≡ some raw
      → 1 ≤ length raw
      → lba * sector_size + length raw ≤ d.total
      → d.total < two63
      → write_inflated env lba comp d
        ≡ ok tt (record (grained env lba [] raw d) { comp_len = d.comp_len })
  unfolding write_inflated
  write_inflated-calm lba comp raw d e pos h fits =
      rw (e, write_inflated) (write_grain-calm lba raw d pos h fits)

  pub process_compressed_grain-calm :
      (lba : ℕ) (comp raw rest : Bytes) (d : Decoder)
      → d.stream.rest ≡ comp ++ (zeros (padding (length comp)) ++ rest)
      → length comp ≤ d.comp_limit
      → decompress (env.inflate comp) d.grain_len ≡ some raw
      → 1 ≤ length raw
      → lba * sector_size + length raw ≤ d.total
      → d.total < two63
      → process_compressed_grain env lba (length comp) d
        ≡ ok tt (with_rest (grained env lba comp raw d) rest)
  unfolding process_compressed_grain grained
  process_compressed_grain-calm lba comp raw rest d e le inf pos h fits =
      step _ _ (fail_if-passes (ltb d.comp_limit (length comp)) _ d (ground arith))
      ∙ step _ _ (read-append (length comp) comp _ (grow (length comp) d) e refl)
      ∙ step _ _ {a = comp} refl
      ∙ step _ _ (read_pad-zeros (length comp) rest _ refl)
      ∙ write_inflated-calm lba comp raw _ inf pos h fits
