-- ===== src/Glz/Reference.antt =====
-- crates/oxide-spice-codecs/src/glz.rs: `decode_reference` and `copy_reference`.
pub mod Size
use oxide_spice.Common.{
  ℕ, zero, suc, ◌+◌, ◌-◌, ◌*◌, ◌/◌, ◌%◌, ◌^◌, Bool, true, false, not, ◌&&◌, ◌||◌, Option, none,
  some, List, [], ◌∷◌, ◌==◌, ltb, leb, if◌then◌else◌, bit_or, length, take, drop,
}
use oxide_spice.Errors.{Result, ok, err, ok_or}
use oxide_spice.Errors
use oxide_spice.Bytes.{Bytes, checked_add}
use oxide_spice.Lz.Output.{put, byte_at}
use oxide_spice.Glz.{
  GlzError, glz_error, missing, truncated, invalid_back_reference, output_overflow, Decoder, u8,
  pure, or_fail, ◌>>=◌, ◌>>◌,
}

abbrev pub extended_length_marker : ℕ
extended_length_marker = 7

pub record Reference : Type 0 where
  pub length : ℕ
  pub pixel_offset : ℕ
  pub image_distance : ℕ

unfoldable pub extend_length : ℕ → Decoder ℕ
extend_length length [] = err (glz_error truncated "match length extension")
extend_length length (extension ∷ input) =
    let more = extend_length (length + extension) input in
    elim (checked_add length extension) [
      | none ↦ err (glz_error output_overflow "match length")
      | some total ↦ if extension == 255 then more else ok (total, input)
    ]

unfoldable pub read_length : ℕ → Decoder ℕ
read_length control =
    if control / 32 == extended_length_marker
    then extend_length (control / 32)
    else pure (control / 32)

-- The bytes of an image distance, from the lowest, on top of what the descriptor gave.
unfoldable pub read_distance : ℕ → ℕ → ℕ → Decoder ℕ
read_distance zero shift distance = pure distance
read_distance (suc n) shift distance = do
  byte ← u8 "image distance"
  read_distance n (shift + 8) (bit_or distance (byte * 2 ^ shift))

abbrev pub add_offset : ℕ → ℕ → Decoder ℕ
add_offset pixel_offset more =
    or_fail (checked_add pixel_offset more) (glz_error invalid_back_reference "pixel offset")

-- The long form has 5 more bits of the pixel offset, and 8 more when a bit of the descriptor is set.
unfoldable pub read_long : ℕ → ℕ → Decoder (ℕ × ℕ)
unfolding read_distance
read_long pixel_offset descriptor = do
  middle ← add_offset pixel_offset (descriptor % 32 * 2 ^ 12)
  distance ← read_distance (descriptor / 64) 0 0
  if descriptor / 32 % 2 == 1
      then (do
        high ← u8 "long pixel offset"
        far ← add_offset middle (high * 2 ^ 17)
        pure (far, distance))
      else pure (middle, distance)

unfoldable pub read_short : ℕ → ℕ → Decoder (ℕ × ℕ)
unfolding read_distance
read_short pixel_offset descriptor = do
  distance ← read_distance (descriptor / 64) 6 (descriptor % 64)
  pure (pixel_offset, distance)

unfoldable pub read_place : Bool → ℕ → ℕ → Decoder (ℕ × ℕ)
unfolding read_long read_short
read_place true pixel_offset descriptor = read_long pixel_offset descriptor
read_place false pixel_offset descriptor = read_short pixel_offset descriptor

unfoldable pub decode_reference : ℕ → ℕ → Decoder Reference
unfolding read_length read_place
decode_reference control match_bias = do
  length ← read_length control
  low ← u8 "pixel offset"
  pixel_offset ← add_offset (control % 16) (low * 2 ^ 4)
  descriptor ← u8 "reference descriptor"
  place ← read_place (control / 16 % 2 == 1) pixel_offset descriptor
  match_length ← or_fail (checked_add length match_bias) (glz_error output_overflow "match length")
  offset ← (if place.1 == 0 then add_offset place.0 1 else pure place.0)
  pure (record { length = match_length; pixel_offset = offset; image_distance = place.1 })

-- One pixel of an image, or only its alpha byte.
unfoldable pub copy_pixel_from : Bytes → ℕ → ℕ → Bool → Bytes → Bytes
copy_pixel_from source from to alpha_only output =
    if alpha_only
    then put (to * 4 + 3) (byte_at source (from * 4 + 3) ∷ []) output
    else put (to * 4) (take 4 (drop (from * 4) source)) output

-- `copy_pixel`, within the output.
unfoldable pub copy_pixel : ℕ → ℕ → Bool → Bytes → Bytes
unfolding copy_pixel_from
copy_pixel from to alpha_only output = copy_pixel_from output from to alpha_only output

unfoldable pub copy_local : ℕ → ℕ → ℕ → Bool → Bytes → Bytes
unfolding copy_pixel
copy_local zero offset to alpha_only output = output
copy_local (suc n) offset to alpha_only output =
    copy_local n offset (to + 1) alpha_only (copy_pixel (to - offset) to alpha_only output)

unfoldable pub copy_image : ℕ → Bytes → ℕ → ℕ → Bool → Bytes → Bytes
unfolding copy_pixel_from
copy_image zero source from to alpha_only output = output
copy_image (suc n) source from to alpha_only output =
    copy_image n source (from + 1) (to + 1) alpha_only
      (copy_pixel_from source from to alpha_only output)

-- Whether `offset` and `units` stay among the pixels of an image.
unfoldable pub in_image : ℕ → ℕ → Bytes → Bool
in_image offset units source =
    length source % 4 == 0
    && (elim (checked_add offset units) [ none ↦ false | some end ↦ leb end (length source / 4) ])

unfoldable pub copy_resolved :
    Option Bytes → ℕ → ℕ → Reference → Bool → Bytes → Result GlzError Bytes
unfolding in_image copy_image
copy_resolved none reference_id produced reference alpha_only output = err (missing reference_id)
copy_resolved (some source) reference_id produced reference alpha_only output =
    if in_image reference.pixel_offset reference.length source
    then ok (copy_image reference.length source reference.pixel_offset produced alpha_only output)
    else err (glz_error invalid_back_reference "dictionary pixel range")

module _ (image_id : ℕ) (resolve_image : ℕ → Option Bytes) where
  unfoldable pub copy_dictionary : ℕ → Reference → Bool → Bytes → Result GlzError Bytes
  unfolding copy_resolved
  copy_dictionary produced reference alpha_only output =
      if ltb image_id reference.image_distance
      then err (glz_error invalid_back_reference "image distance")
      else copy_resolved (resolve_image (image_id - reference.image_distance))
          (image_id - reference.image_distance) produced reference alpha_only output

  unfoldable pub copy_reference : ℕ → Reference → Bool → Bytes → Result GlzError Bytes
  unfolding copy_local copy_dictionary
  copy_reference produced reference alpha_only output =
      if reference.length == 0
      then err (glz_error invalid_back_reference "zero match length")
      else if reference.image_distance == 0
      then if ltb produced reference.pixel_offset
        then err (glz_error invalid_back_reference "local pixel offset")
        else ok (copy_local reference.length reference.pixel_offset produced alpha_only output)
      else copy_dictionary produced reference alpha_only output
