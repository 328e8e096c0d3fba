-- ===== src/Lz/Decode.antt =====
-- crates/oxide-spice-codecs/src/lz.rs: `decode_lz`, from the header to the checked end of the input.
pub mod Bounds
mod Runs
use oxide_spice.Common.{
  ℕ, ◌+◌, ◌*◌, ◌^◌, Bool, true, false, not, ◌&&◌, ◌||◌, Option, none, some, List, [], ◌∷◌, ◌==◌,
  ltb, leb, if◌then◌else◌, length,
}
use oxide_spice.Errors
use oxide_spice.Errors.{Result, ok, err}
use oxide_spice.Bytes.{Bytes, checked_mul}
use oxide_spice.Lz.{
  DecodeLimits, LzError, lz_error, truncated, invalid_header, resource_limit, missing_palette,
  unexpected_palette, trailing_data, LzImageType, palette1_le, palette1_be, palette4_le,
  palette4_be, palette8, rgb16, rgb24, rgb32, rgba, xxx_alpha, alpha8, try_from, expected_stride,
  match_length_bias, compressed_unit_bytes, is_palette, Decoder, pure, require, lift, or_fail, u32,
  ◌>>=◌, ◌>>◌,
}
use oxide_spice.Lz.Stream.{decompress_units}
use oxide_spice.Lz.Output.{
  ImageGeometry, expand_direct_color, expand_rgba, expand_palette, orient_rows,
}

abbrev pub header_bytes : ℕ
header_bytes = 7 * 4

abbrev pub lz_magic : ℕ
lz_magic = 538991180

abbrev pub lz_version : ℕ
lz_version = 65537

pub data DecodedPixels : Type 0 where
  rgba_pixels : Bytes → DecodedPixels
  alpha8_pixels : Bytes → DecodedPixels

pub record DecodedImage : Type 0 where
  pub width : ℕ
  pub height : ℕ
  pub top_down : Bool
  pub image_type : LzImageType
  pub pixels : DecodedPixels

unfoldable pub orientation : ℕ → Result LzError Bool
orientation v =
    if v == 0
    then ok false
    else if v == 1
    then ok true
    else err (lz_error invalid_header "row orientation")

unfoldable pub is_stride : Option ℕ → ℕ → Bool
is_stride none stride = false
is_stride (some expected) stride = expected == stride

abbrev pub output_bytes_per_pixel : LzImageType → ℕ
output_bytes_per_pixel xxx_alpha = 1
output_bytes_per_pixel alpha8 = 1
output_bytes_per_pixel palette1_le = 4
output_bytes_per_pixel palette1_be = 4
output_bytes_per_pixel palette4_le = 4
output_bytes_per_pixel palette4_be = 4
output_bytes_per_pixel palette8 = 4
output_bytes_per_pixel rgb16 = 4
output_bytes_per_pixel rgb24 = 4
output_bytes_per_pixel rgb32 = 4
output_bytes_per_pixel rgba = 4

-- The palette that is there exactly when the type wants one.
abbrev pub has_palette : Option (List Bytes) → Bool
has_palette none = false
has_palette (some palette) = true

abbrev pub colors_of : Option (List Bytes) → List Bytes
colors_of none = []
colors_of (some palette) = palette

palette_pixels : LzImageType → List Bytes → ImageGeometry → ℕ → Decoder DecodedPixels
palette_pixels image_type palette g stride = do
  unit_count ← or_fail (checked_mul stride g.height) (lz_error resource_limit "palette units")
  indices ←
      decompress_units unit_count (compressed_unit_bytes image_type) (match_length_bias image_type)
  expanded ← lift (expand_palette indices palette image_type g stride)
  pure (rgba_pixels expanded)

direct_pixels : LzImageType → ImageGeometry → ℕ → Decoder DecodedPixels
direct_pixels image_type g pixel_count = do
  colors ←
      decompress_units pixel_count (compressed_unit_bytes image_type) (match_length_bias image_type)
  expanded ← lift (expand_direct_color colors image_type g)
  pure (rgba_pixels expanded)

alpha_pixels : LzImageType → ImageGeometry → ℕ → Decoder DecodedPixels
alpha_pixels image_type g pixel_count = do
  alpha ← decompress_units pixel_count 1 (match_length_bias image_type)
  pure (alpha8_pixels (orient_rows alpha g))

read_pixels : LzImageType → Option (List Bytes) → ImageGeometry → ℕ → ℕ → Decoder DecodedPixels
unfolding palette_pixels direct_pixels alpha_pixels
read_pixels palette1_le palette g stride n = palette_pixels palette1_le (colors_of palette) g stride
read_pixels palette1_be palette g stride n = palette_pixels palette1_be (colors_of palette) g stride
read_pixels palette4_le palette g stride n = palette_pixels palette4_le (colors_of palette) g stride
read_pixels palette4_be palette g stride n = palette_pixels palette4_be (colors_of palette) g stride
read_pixels palette8 palette g stride n = palette_pixels palette8 (colors_of palette) g stride
read_pixels rgb16 palette g stride n = direct_pixels rgb16 g n
read_pixels rgb24 palette g stride n = direct_pixels rgb24 g n
read_pixels rgb32 palette g stride n = direct_pixels rgb32 g n
read_pixels rgba palette g stride n = do
  colors ← decompress_units n (compressed_unit_bytes rgba) (match_length_bias rgba)
  alpha ← decompress_units n 1 (match_length_bias xxx_alpha)
  expanded ← lift (expand_rgba colors alpha g)
  pure (rgba_pixels expanded)
read_pixels xxx_alpha palette g stride n = alpha_pixels xxx_alpha g n
read_pixels alpha8 palette g stride n = alpha_pixels alpha8 g n

-- From the header to the last pixel.
read_image : Option (List Bytes) → DecodeLimits → Decoder DecodedImage
unfolding read_pixels
read_image palette limits = do
  magic ← u32 "magic"
  require (magic == lz_magic) (lz_error invalid_header "magic or version")
  version ← u32 "version"
  require (version == lz_version) (lz_error invalid_header "magic or version")
  type_code ← u32 "image type"
  image_type ← lift (try_from type_code)
  width ← u32 "width"
  height ← u32 "height"
  stride ← u32 "stride"
  orientation_code ← u32 "row orientation"
  top_down ← lift (orientation orientation_code)
  require
      (not (
        width == 0
        || height == 0
        || ltb limits.maximum_width width
        || ltb limits.maximum_height height))
      (lz_error resource_limit "dimensions")
  require (is_stride (expected_stride image_type width) stride) (lz_error invalid_header "stride")
  pixel_count ← or_fail (checked_mul width height) (lz_error resource_limit "pixel count")
  output_bytes ←
      or_fail (checked_mul pixel_count (output_bytes_per_pixel image_type))
        (lz_error resource_limit "output size")
  require (leb output_bytes limits.maximum_output_bytes) (lz_error resource_limit "output size")
  require (not (is_palette image_type && not (has_palette palette)))
      (lz_error missing_palette "palette")
  require (not (not (is_palette image_type) && has_palette palette))
      (lz_error unexpected_palette "palette")
  pixels ←
      read_pixels image_type palette
        (record { width = width; height = height; top_down = top_down }) stride pixel_count
  pure (record {
    width = width;
    height = height;
    top_down = top_down;
    image_type = image_type;
    pixels = pixels;
  })

-- Nothing may follow the image.
finish : Result LzError (DecodedImage × Bytes) → Result LzError DecodedImage
finish (ok (image, rest)) =
    if length rest == 0 then ok image else err (lz_error trailing_data "compressed data")
finish (err e) = err e

-- `decode_lz`.
pub decode_lz : Bytes → Option (List Bytes) → DecodeLimits → Result LzError DecodedImage
unfolding read_image finish
decode_lz input palette limits =
    if ltb (length input) header_bytes
    then err (lz_error truncated "header")
    else finish (read_image palette limits input)
