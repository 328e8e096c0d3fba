-- ===== src/Lz/Decode/Runs.antt =====
-- Two pixels of an image stored from the bottom up, and the errors around them.
use oxide_spice.Common.{
  ℕ, ◌+◌, ◌*◌, ◌≡◌, refl, sym, ap, arith, inr, true, false, none, some, [], ◌∷◌, ◌++◌, length,
}
use oxide_spice.Errors.{Result, ok, err, ok-injective}
use oxide_spice.Bytes.{Bytes}
use oxide_spice.Lz.{
  display_limits, LzError, lz_error, trailing_data, missing_palette, rgb32, rgb16, alpha8,
  palette1_be, rgba, try_from, expected_stride, bytes, u32,
}
use oxide_spice.Lz.Stream.{
  has_room, extend_length, read_match_units, read_distance, read_far_distance, copy_units,
  read_literal, read_match, read_units, decompress_loop, decompress_units,
}
use oxide_spice.Lz.Stream.Copy.{unit_at}
use oxide_spice.Lz.Output.{
  overwrite, put, byte_at, oriented_y, expand_five_bits, ImageGeometry, expand_columns, expand_rows,
  expand_pixels, direct_pixel, expand_direct_color, expand_rgba, palette_index, expand_palette,
  orient_rows, orient_loop,
}
use oxide_spice.Lz.Output.Position.{expand_pixels-unit_at}
use oxide_spice.Lz.Decode.{
  rgba_pixels, alpha8_pixels, DecodedImage, orientation, is_stride, palette_pixels, direct_pixels,
  alpha_pixels, read_pixels, read_image, finish, decode_lz,
}
use oxide_spice.Lz.Decode.Bounds.{IsWithin, decode_lz-IsWithin}

-- A header: type, width, height, stride and orientation, each below 256.
abbrev header : ℕ → ℕ → ℕ → ℕ → ℕ → Bytes
header type_code width height stride top_down =
    32 ∷ 32 ∷ 90 ∷ 76 ∷ 0 ∷ 1 ∷ 0 ∷ 1 ∷ 0 ∷ 0 ∷ 0 ∷ type_code ∷ 0 ∷ 0 ∷ 0 ∷ width ∷ 0 ∷ 0 ∷ 0
    ∷ height ∷ 0 ∷ 0 ∷ 0 ∷ stride ∷ 0 ∷ 0 ∷ 0 ∷ top_down ∷ []

abbrev flipped : DecodedImage
flipped = record {
  width = 1;
  height = 2;
  top_down = false;
  image_type = rgb32;
  pixels = rgba_pixels (6 ∷ 5 ∷ 4 ∷ 255 ∷ 3 ∷ 2 ∷ 1 ∷ 255 ∷ []);
}

rgb32_run :
    decode_lz (header 8 1 2 4 0 ++ (1 ∷ 1 ∷ 2 ∷ 3 ∷ 4 ∷ 5 ∷ 6 ∷ [])) none display_limits
    ≡ ok flipped
unfolding decode_lz finish read_image read_pixels palette_pixels direct_pixels alpha_pixels
    orientation is_stride try_from expected_stride bytes u32 decompress_units decompress_loop
    read_units read_literal read_match read_match_units read_distance read_far_distance
    extend_length copy_units has_room expand_pixels expand_rows expand_columns put overwrite
    oriented_y byte_at expand_five_bits direct_pixel expand_direct_color expand_rgba palette_index
    expand_palette orient_rows orient_loop
rgb32_run = refl

rgb16_run :
    decode_lz (header 6 1 1 2 1 ++ (0 ∷ 124 ∷ 31 ∷ [])) none display_limits
    ≡ ok (record {
      width = 1;
      height = 1;
      top_down = true;
      image_type = rgb16;
      pixels = rgba_pixels (255 ∷ 0 ∷ 255 ∷ 255 ∷ []);
    })
unfolding decode_lz finish read_image read_pixels palette_pixels direct_pixels alpha_pixels
    orientation is_stride try_from expected_stride bytes u32 decompress_units decompress_loop
    read_units read_literal read_match read_match_units read_distance read_far_distance
    extend_length copy_units has_room expand_pixels expand_rows expand_columns put overwrite
    oriented_y byte_at expand_five_bits direct_pixel expand_direct_color expand_rgba palette_index
    expand_palette orient_rows orient_loop
rgb16_run = refl

palette_run :
    decode_lz
      (header 2 2 1 1 1 ++ (0 ∷ 64 ∷ []))
      (some ((1 ∷ 2 ∷ 3 ∷ 4 ∷ []) ∷ (5 ∷ 6 ∷ 7 ∷ 8 ∷ []) ∷ []))
      display_limits
    ≡ ok (record {
      width = 2;
      height = 1;
      top_down = true;
      image_type = palette1_be;
      pixels = rgba_pixels (1 ∷ 2 ∷ 3 ∷ 4 ∷ 5 ∷ 6 ∷ 7 ∷ 8 ∷ []);
    })
unfolding decode_lz finish read_image read_pixels palette_pixels direct_pixels alpha_pixels
    orientation is_stride try_from expected_stride bytes u32 decompress_units decompress_loop
    read_units read_literal read_match read_match_units read_distance read_far_distance
    extend_length copy_units has_room expand_pixels expand_rows expand_columns put overwrite
    oriented_y byte_at expand_five_bits direct_pixel expand_direct_color expand_rgba palette_index
    expand_palette orient_rows orient_loop
palette_run = refl

rgba_run :
    decode_lz (header 9 1 1 4 1 ++ (0 ∷ 1 ∷ 2 ∷ 3 ∷ 0 ∷ 9 ∷ [])) none display_limits
    ≡ ok (record {
      width = 1;
      height = 1;
      top_down = true;
      image_type = rgba;
      pixels = rgba_pixels (3 ∷ 2 ∷ 1 ∷ 9 ∷ []);
    })
unfolding decode_lz finish read_image read_pixels palette_pixels direct_pixels alpha_pixels
    orientation is_stride try_from expected_stride bytes u32 decompress_units decompress_loop
    read_units read_literal read_match read_match_units read_distance read_far_distance
    extend_length copy_units has_room expand_pixels expand_rows expand_columns put overwrite
    oriented_y byte_at expand_five_bits direct_pixel expand_direct_color expand_rgba palette_index
    expand_palette orient_rows orient_loop
rgba_run = refl

alpha8_run :
    decode_lz (header 11 2 2 2 0 ++ (3 ∷ 1 ∷ 2 ∷ 3 ∷ 4 ∷ [])) none display_limits
    ≡ ok (record {
      width = 2;
      height = 2;
      top_down = false;
      image_type = alpha8;
      pixels = alpha8_pixels (3 ∷ 4 ∷ 1 ∷ 2 ∷ []);
    })
unfolding decode_lz finish read_image read_pixels palette_pixels direct_pixels alpha_pixels
    orientation is_stride try_from expected_stride bytes u32 decompress_units decompress_loop
    read_units read_literal read_match read_match_units read_distance read_far_distance
    extend_length copy_units has_room expand_pixels expand_rows expand_columns put overwrite
    oriented_y byte_at expand_five_bits direct_pixel expand_direct_color expand_rgba palette_index
    expand_palette orient_rows orient_loop
alpha8_run = refl

trailing_run :
    decode_lz (header 8 1 1 4 1 ++ (0 ∷ 1 ∷ 2 ∷ 3 ∷ 9 ∷ [])) none display_limits
    ≡ err (lz_error trailing_data "compressed data")
unfolding decode_lz finish read_image read_pixels palette_pixels direct_pixels alpha_pixels
    orientation is_stride try_from expected_stride bytes u32 decompress_units decompress_loop
    read_units read_literal read_match read_match_units read_distance read_far_distance
    extend_length copy_units has_room expand_pixels expand_rows expand_columns put overwrite
    oriented_y byte_at expand_five_bits direct_pixel expand_direct_color expand_rgba palette_index
    expand_palette orient_rows orient_loop
trailing_run = refl

missing_palette_run :
    decode_lz (header 5 1 1 1 1 ++ (0 ∷ 1 ∷ [])) none display_limits
    ≡ err (lz_error missing_palette "palette")
unfolding decode_lz finish read_image read_pixels palette_pixels direct_pixels alpha_pixels
    orientation is_stride try_from expected_stride bytes u32 decompress_units decompress_loop
    read_units read_literal read_match read_match_units read_distance read_far_distance
    extend_length copy_units has_room expand_pixels expand_rows expand_columns put overwrite
    oriented_y byte_at expand_five_bits direct_pixel expand_direct_color expand_rgba palette_index
    expand_palette orient_rows orient_loop
missing_palette_run = refl

decode_lz-IsWithin_example : IsWithin display_limits flipped
decode_lz-IsWithin_example =
    decode_lz-IsWithin (header 8 1 2 4 0 ++ (1 ∷ 1 ∷ 2 ∷ 3 ∷ 4 ∷ 5 ∷ 6 ∷ [])) none display_limits
      flipped rgb32_run

abbrev two_rows : ImageGeometry
two_rows = record { width = 1; height = 2; top_down = false }

abbrev gray : ℕ → ℕ → Result LzError Bytes
gray y x = ok (y ∷ y ∷ y ∷ 255 ∷ [])

abbrev gray_rows : Bytes
gray_rows = 1 ∷ 1 ∷ 1 ∷ 255 ∷ 0 ∷ 0 ∷ 0 ∷ 255 ∷ []

gray_run : expand_pixels two_rows gray ≡ ok gray_rows
unfolding expand_pixels expand_rows expand_columns put overwrite oriented_y
gray_run = refl

gray_bytes : (y x : ℕ) (color : Bytes) → gray y x ≡ ok color → length color ≡ 4
gray_bytes y x color e = ap length (sym (ok-injective e))

expand_pixels-unit_at_example : unit_at 4 (0 * 1 + 0) gray_rows ≡ 1 ∷ 1 ∷ 1 ∷ 255 ∷ []
expand_pixels-unit_at_example =
    expand_pixels-unit_at two_rows gray gray_bytes gray_rows 1 0 0 (1 ∷ 1 ∷ 1 ∷ 255 ∷ []) gray_run
      (omega arith) (omega arith) refl (inr (refl, refl))
