-- ===== src/Vmdk/HeaderFields.antt =====
-- The header of the described layout, and the bytes in front of the first grain.
use native.Mathlib.Nat.{zero-add, suc-add}
use kc_utils.Base.{
  ℕ, zero, suc, ◌+◌, ◌-◌, ◌*◌, ◌%◌, ◌^◌, ◌<◌, ◌≡◌, refl, ap, ◌∙◌, false, List, [], ◌∷◌, ◌++◌, arith,
  length, length-append, drop, Bool-cases, inl, inr,
}
use kc_utils.ByteStream.{Bytes, u32_at, u64_at, put_le, two64, is_positive}
use kc_utils.ByteStream.Laws.{take_append, le-put_le, length-put_le}
use kc_utils.Vmdk.Decoder.{vmdk_magic, sector_size, Decoder, ok}
use kc_utils.Vmdk.Image.{Header, check_header, skip_over_head, skip_sectors}
use kc_utils.Vmdk.Encode.{Layout, IsLayout, header_bytes}
use kc_utils.Vmdk.Pieces.{with_rest, step, discard-append}

drop_behind {ℓ} :
    {A : Type ℓ} (n i : ℕ) (xs ys : List A) → length xs ≡ n → drop (n + i) (xs ++ ys) ≡ drop i ys
drop_behind zero i [] ys h = rw zero-add
drop_behind zero i (x ∷ xs) ys h = absurd (omega arith)
drop_behind (suc n) i [] ys h = absurd (omega arith)
drop_behind (suc n) i (x ∷ xs) ys h = rw suc-add (drop_behind n i xs ys (omega arith))

u32_behind : (n i : ℕ) (a b : Bytes) → length a ≡ n → u32_at (n + i) (a ++ b) ≡ u32_at i b
unfolding u32_at
u32_behind n i a b h = rw (drop_behind n i a b h)

u64_behind : (n i : ℕ) (a b : Bytes) → length a ≡ n → u64_at (n + i) (a ++ b) ≡ u64_at i b
unfolding u64_at
u64_behind n i a b h = rw (drop_behind n i a b h)

u32_front : (v : ℕ) (b : Bytes) → v < 2 ^ 32 → u32_at 0 (put_le 4 v ++ b) ≡ v
unfolding u32_at
u32_front v b h = rw (take_append 4 (put_le 4 v) b (length-put_le 4 v)) (le-put_le 4 v h)

u64_front : (v : ℕ) (b : Bytes) → v < 2 ^ 64 → u64_at 0 (put_le 8 v ++ b) ≡ v
unfolding u64_at
u64_front v b h = rw (take_append 8 (put_le 8 v) b (length-put_le 8 v)) (le-put_le 8 v h)

empty {ℓ} : {A : Type ℓ} (xs : List A) → length xs ≡ 0 → xs ≡ []
empty [] h = refl
empty (x ∷ xs) h = absurd (omega arith)

module _ (l : Layout) (valid : IsLayout l) where
  magic-header : u32_at 0 (header_bytes l) ≡ vmdk_magic
  unfolding header_bytes
  magic-header = u32_front vmdk_magic _ (omega arith)

  version-header : u32_at 4 (header_bytes l) ≡ l.version
  unfolding header_bytes
  version-header =
      u32_behind 4 0 (put_le 4 vmdk_magic) _ (length-put_le 4 vmdk_magic)
      ∙ u32_front l.version _ (omega (arith, valid.version_high))

  flags-header :
      (i : ℕ)
      → u64_at (4 + (4 + (4 + i))) (header_bytes l)
        ≡ u64_at i (
            put_le 8 l.capacity
            ++ (put_le 8 l.grain_size ++ (l.middle ++ (put_le 8 l.over_head ++ l.tail))))
  unfolding header_bytes
  flags-header i =
      u64_behind 4 _ (put_le 4 vmdk_magic) _ (length-put_le 4 vmdk_magic)
      ∙ u64_behind 4 _ (put_le 4 l.version) _ (length-put_le 4 l.version)
      ∙ u64_behind 4 _ l.flags _ valid.flags_length

  capacity-header : u64_at 12 (header_bytes l) ≡ l.capacity
  capacity-header = flags-header 0 ∙ u64_front l.capacity _ (omega (arith, valid.capacity_fits))

  grain-header : u64_at 20 (header_bytes l) ≡ l.grain_size
  grain-header =
      flags-header 8
      ∙ u64_behind 8 0 (put_le 8 l.capacity) _ (length-put_le 8 l.capacity)
      ∙ u64_front l.grain_size _ (omega (arith, valid.grain_fits))

  over_head-header : u64_at 64 (header_bytes l) ≡ l.over_head
  over_head-header =
      flags-header 52
      ∙ u64_behind 8 44 (put_le 8 l.capacity) _ (length-put_le 8 l.capacity)
      ∙ u64_behind 8 36 (put_le 8 l.grain_size) _ (length-put_le 8 l.grain_size)
      ∙ u64_behind 36 0 l.middle _ valid.middle_length
      ∙ u64_front l.over_head _ (omega (arith, valid.over_head_fits))

  pub length-header_bytes : length (header_bytes l) ≡ 512
  unfolding header_bytes
  length-header_bytes =
      simp
        (length-append, length-put_le, valid.flags_length, valid.middle_length, valid.tail_length)

  abbrev pub header_of : Header
  header_of = record { capacity = l.capacity; grain = l.grain_size; over_head = l.over_head }

  pub check_header-layout : (d : Decoder) → check_header (header_bytes l) d ≡ ok header_of d
  unfolding check_header
  check_header-layout d =
      rw
        (
          check_header, magic-header, version-header, capacity-header, grain-header,
          over_head-header,
        )
        (ground (
          arith, valid.version_low, valid.version_high, valid.capacity_fits, valid.grain_pos,
          valid.grain_fits,
        ))

  skip_sectors-layout : skip_sectors l.over_head ≡ l.over_head - 1
  unfolding skip_sectors
  skip_sectors-layout = omega (arith, valid.over_head_pos, valid.over_head_fits)

  skipped_bytes : ((l.over_head - 1) * sector_size) % two64 ≡ (l.over_head - 1) * sector_size
  skipped_bytes = omega (arith, valid.over_head_fits)

  no_descriptor : is_positive (l.over_head - 1) ≡ false → length l.descriptor ≡ 0
  no_descriptor h =
      ground (arith, valid.descriptor_length, valid.over_head_pos, valid.over_head_fits)

  pub skip_over_head-layout :
      (rest : Bytes) (d : Decoder)
      → d.stream.rest ≡ l.descriptor ++ rest
      → skip_over_head l.over_head d ≡ ok tt (with_rest d rest)
  unfolding skip_over_head
  skip_over_head-layout rest d e = elim (Bool-cases (is_positive (l.over_head - 1))) [
    | inl positive ↦
        rw (skip_over_head, skip_sectors-layout, positive, skipped_bytes)
          (step _ _ (
            discard-append _ l.descriptor rest d e valid.descriptor_length
              (omega (arith, valid.over_head_fits))))
    | inr none_left ↦
        rw (skip_over_head, skip_sectors-layout, none_left)
          (ap (λ r. ok tt (with_rest d r))
            (e ∙ ap (λ a. a ++ rest) (empty l.descriptor (no_descriptor none_left))))
  ]
