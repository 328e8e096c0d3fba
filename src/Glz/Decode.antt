-- ===== src/Glz/Decode.antt =====
-- crates/oxide-spice-codecs/src/glz.rs: the two streams, and `decode_glz_with_cancel`.
pub mod Size
pub mod Window
pub mod Bounds
mod Runs
use oxide_spice.Common.{
  ℕ, zero, suc, ◌+◌, ◌-◌, ◌*◌, ◌/◌, ◌%◌, ◌^◌, Bool, true, false, not, ◌||◌, Option, none, some, [],
  ◌∷◌, ◌++◌, ◌==◌, ltb, leb, if◌then◌else◌, length, replicate, take,
}
use oxide_spice.Errors
use oxide_spice.Errors.{Result, ok, err}
use oxide_spice.Bytes.{Bytes, checked_add, checked_mul}
use oxide_spice.Lz.{
  DecodeLimits, LzImageType, palette1_le, palette1_be, palette4_le, palette4_be, palette8, rgb16,
  rgb24, rgb32, rgba, xxx_alpha, alpha8, LzError,
}
use oxide_spice.Lz
use oxide_spice.Lz.Output.{put, byte_at, expand_five_bits}
use oxide_spice.Glz.{
  GlzError, glz_error, truncated, invalid_header, output_overflow, resource_limit, unsupported_type,
  trailing_data, Decoder, u8, u32, u64, bytes, pure, require, or_fail, lift, ◌>>=◌, ◌>>◌,
}
use oxide_spice.Glz.Reference.{Reference, decode_reference, copy_reference}

abbrev pub header_bytes : ℕ
header_bytes = 33

abbrev pub lz_magic : ℕ
lz_magic = 538991180

abbrev pub lz_version : ℕ
lz_version = 65537

abbrev pub literal_control_limit : ℕ
literal_control_limit = 32

pub record DecodedGlzImage : Type 0 where
  pub image_id : ℕ
  pub oldest_retained_image_id : ℕ
  pub width : ℕ
  pub height : ℕ
  pub top_down : Bool
  pub pixels : Bytes

-- `is_none_or(|total| total > expected)` on `produced.checked_add(additional)`.
unfoldable pub has_room : ℕ → ℕ → ℕ → Bool
has_room produced additional expected = elim (checked_add produced additional) [
  | none ↦ false
  | some total ↦ leb total expected
]

abbrev pub ensure_output_room : ℕ → ℕ → ℕ → Decoder (Unit {0})
ensure_output_room produced additional expected =
    require (has_room produced additional expected) (glz_error output_overflow "stream pixels")

-- `Vec::resize` with zeros.
unfoldable pub resize : ℕ → Bytes → Bytes
resize n output = take n output ++ replicate (n - length output) 0

abbrev pub is_rgb16 : LzImageType → Bool
is_rgb16 rgb16 = true
is_rgb16 _ = false

abbrev pub is_rgba : LzImageType → Bool
is_rgba rgba = true
is_rgba _ = false

-- The four types that GLZ has.
abbrev pub is_glz_type : LzImageType → Bool
is_glz_type rgb16 = true
is_glz_type rgb24 = true
is_glz_type rgb32 = true
is_glz_type rgba = true
is_glz_type _ = false

abbrev rgb16_literal : ℕ → Bytes
rgb16_literal value =
    expand_five_bits (value / 2 ^ 10 % 32)
    ∷ expand_five_bits (value / 2 ^ 5 % 32)
    ∷ expand_five_bits (value % 32)
    ∷ 255
    ∷ []

unfoldable pub literal_pixel : Bool → Bytes → Bytes
literal_pixel sixteen_bits encoded =
    if sixteen_bits
    then rgb16_literal (byte_at encoded 0 * 256 + byte_at encoded 1)
    else byte_at encoded 2 ∷ byte_at encoded 1 ∷ byte_at encoded 0 ∷ 255 ∷ []

-- That many literal pixels after the output.
unfoldable pub read_literals : ℕ → Bool → Bytes → Decoder Bytes
unfolding literal_pixel
read_literals zero sixteen_bits output = pure output
read_literals (suc n) sixteen_bits output = do
  encoded ← bytes (if sixteen_bits then 2 else 3) "literal pixel"
  read_literals n sixteen_bits (output ++ literal_pixel sixteen_bits encoded)

-- That many literal alpha bytes, from a pixel on.
unfoldable pub read_alphas : ℕ → ℕ → Bytes → Decoder Bytes
read_alphas zero pixel output = pure output
read_alphas (suc n) pixel output = do
  alpha ← u8 "literal alpha"
  read_alphas n (pixel + 1) (put (pixel * 4 + 3) (alpha ∷ []) output)

pub record Progress : Type 0 where
  pub produced : ℕ
  pub output : Bytes

abbrev pub progress : ℕ → Bytes → Progress
progress produced output = record { produced = produced; output = output }

module _ (image_id : ℕ) (resolve_image : ℕ → Option Bytes) (expected_pixels : ℕ) where
  module _ (sixteen_bits : Bool) where
    unfoldable pub color_literal : ℕ → Progress → Decoder Progress
    unfolding read_literals has_room
    color_literal control p = do
      ensure_output_room p.produced (control + 1) expected_pixels
      output ← read_literals (control + 1) sixteen_bits p.output
      pure (progress (p.produced + (control + 1)) output)

    unfoldable pub color_reference : ℕ → Progress → Decoder Progress
    unfolding resize has_room
    color_reference control p = do
      reference ← decode_reference control (if sixteen_bits then 1 else 0)
      ensure_output_room p.produced reference.length expected_pixels
      output ← lift (
          copy_reference image_id resolve_image p.produced reference false
            (resize ((p.produced + reference.length) * 4) p.output))
      pure (progress (p.produced + reference.length) output)

    unfoldable pub color_round : Progress → Decoder Progress
    unfolding color_literal color_reference
    color_round p = do
      control ← u8 "control byte"
      if ltb control literal_control_limit
          then color_literal control p
          else color_reference control p

    -- The loop of `decode_color_stream`, with fuel for its rounds. Each produces a pixel, so the
    -- expected pixels are enough.
    unfoldable pub color_loop : ℕ → Progress → Decoder Bytes
    color_loop zero p = pure p.output
    color_loop (suc fuel) p =
        if ltb p.produced expected_pixels
        then (do p' ← color_round p; color_loop fuel p')
        else pure p.output

    unfoldable pub decode_color_stream : Decoder Bytes
    decode_color_stream = color_loop expected_pixels (progress 0 [])

  unfoldable pub alpha_literal : ℕ → Progress → Decoder Progress
  unfolding read_alphas has_room
  alpha_literal control p = do
    ensure_output_room p.produced (control + 1) expected_pixels
    output ← read_alphas (control + 1) p.produced p.output
    pure (progress (p.produced + (control + 1)) output)

  unfoldable pub alpha_reference : ℕ → Progress → Decoder Progress
  unfolding has_room
  alpha_reference control p = do
    reference ← decode_reference control 2
    ensure_output_room p.produced reference.length expected_pixels
    output ← lift (copy_reference image_id resolve_image p.produced reference true p.output)
    pure (progress (p.produced + reference.length) output)

  unfoldable pub alpha_round : Progress → Decoder Progress
  unfolding alpha_literal alpha_reference
  alpha_round p = do
    control ← u8 "alpha control byte"
    if ltb control literal_control_limit then alpha_literal control p else alpha_reference control p

  -- The loop of `decode_alpha_stream`.
  unfoldable pub alpha_loop : ℕ → Progress → Decoder Bytes
  alpha_loop zero p = pure p.output
  alpha_loop (suc fuel) p =
      if ltb p.produced expected_pixels
      then (do p' ← alpha_round p; alpha_loop fuel p')
      else pure p.output

  unfoldable pub decode_alpha_stream : Bytes → Decoder Bytes
  decode_alpha_stream output = alpha_loop expected_pixels (progress 0 output)

  -- Both streams, the second one for an RGBA image only.
  unfoldable pub decode_streams : LzImageType → Decoder Bytes
  unfolding decode_color_stream decode_alpha_stream
  decode_streams image_type = do
    colors ← decode_color_stream (is_rgb16 image_type)
    if is_rgba image_type then decode_alpha_stream colors else pure colors

-- `checked_sub`.
unfoldable pub checked_sub : ℕ → ℕ → Option ℕ
checked_sub a b = if ltb a b then none else some (a - b)

-- The other types have been rejected by then.
abbrev pub stride_bytes : LzImageType → ℕ
stride_bytes rgb16 = 2
stride_bytes rgb24 = 3
stride_bytes _ = 4

-- From the header to the last pixel.
unfoldable pub read_image : DecodeLimits → (ℕ → Option Bytes) → Decoder DecodedGlzImage
unfolding decode_streams checked_sub
read_image limits resolve_image = do
  magic ← u32 "magic"
  require (magic == lz_magic) (glz_error invalid_header "magic or version")
  version ← u32 "version"
  require (version == lz_version) (glz_error invalid_header "magic or version")
  type_and_orientation ← u8 "image type"
  require (type_and_orientation / 32 == 0) (glz_error invalid_header "image type flags")
  image_type ← lift (
      Errors.map_err (λ (e : LzError). glz_error unsupported_type "image type")
        (Lz.try_from (type_and_orientation % 16)))
  require (is_glz_type image_type) (glz_error unsupported_type "GLZ_RGB image type")
  width ← u32 "width"
  height ← u32 "height"
  stride ← u32 "stride"
  image_id ← u64 "image id"
  window_head_distance ← u32 "window head distance"
  oldest ←
      or_fail (checked_sub image_id window_head_distance)
        (glz_error invalid_header "window head distance")
  require
      (not (
        width == 0
        || height == 0
        || ltb limits.maximum_width width
        || ltb limits.maximum_height height))
      (glz_error resource_limit "dimensions")
  expected_stride ←
      or_fail (checked_mul width (stride_bytes image_type)) (glz_error resource_limit "stride")
  require (stride == expected_stride) (glz_error invalid_header "stride")
  pixel_count ← or_fail (checked_mul width height) (glz_error resource_limit "pixel count")
  output_bytes ← or_fail (checked_mul pixel_count 4) (glz_error resource_limit "output size")
  require (leb output_bytes limits.maximum_output_bytes) (glz_error resource_limit "output size")
  pixels ← decode_streams image_id resolve_image pixel_count image_type
  pure (record {
    image_id = image_id;
    oldest_retained_image_id = oldest;
    width = width;
    height = height;
    top_down = type_and_orientation / 16 % 2 == 1;
    pixels = pixels;
  })

-- Nothing may follow the image.
unfoldable pub finish : Result GlzError (DecodedGlzImage × Bytes) → Result GlzError DecodedGlzImage
finish (ok (image, rest)) =
    if length rest == 0 then ok image else err (glz_error trailing_data "compressed data")
finish (err e) = err e

-- `decode_glz_with_cancel`.
unfoldable pub decode_glz :
    Bytes → DecodeLimits → (ℕ → Option Bytes) → Result GlzError DecodedGlzImage
unfolding read_image finish
decode_glz input limits resolve_image =
    if ltb (length input) header_bytes
    then err (glz_error truncated "header")
    else finish (read_image limits resolve_image input)
