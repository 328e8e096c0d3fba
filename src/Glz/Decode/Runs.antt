-- ===== src/Glz/Decode/Runs.antt =====
-- The images of the source's tests: a literal, a reference to an earlier image, a missing one, and an
-- RGBA image.
use oxide_spice.Common.{
  ℕ, zero, suc, ◌<◌, ◌≡◌, refl, arith, true, Option, none, some, [], ◌∷◌, ◌++◌,
}
use oxide_spice.Errors.{ok, err}
use oxide_spice.Bytes.{Bytes}
use oxide_spice.Lz
use oxide_spice.Lz.{display_limits, rgb32}
use oxide_spice.Lz.Output.{overwrite, put, byte_at, expand_five_bits}
use oxide_spice.Glz.{glz_error, missing, invalid_back_reference, bytes, u32, u64}
use oxide_spice.Glz.Reference.{
  extend_length, read_length, read_distance, read_long, read_short, read_place, decode_reference,
  copy_pixel_from, copy_pixel, copy_local, copy_image, in_image, copy_resolved, copy_dictionary,
  copy_reference,
}
use oxide_spice.Glz.Decode.{
  DecodedGlzImage, has_room, resize, literal_pixel, read_literals, read_alphas, color_literal,
  color_reference, color_round, color_loop, decode_color_stream, alpha_literal, alpha_reference,
  alpha_round, alpha_loop, decode_alpha_stream, decode_streams, checked_sub, read_image, finish,
  decode_glz,
}
use oxide_spice.Glz.Decode.Bounds.{IsWithin, decode_glz-IsWithin}
use oxide_spice.Glz.Decode.Window.{decode_streams-resolve_image}

-- A header from the top down: type, width, stride, image and window distance, one row.
abbrev header : ℕ → ℕ → ℕ → ℕ → ℕ → Bytes
header type_code width stride image_id distance =
    32 ∷ 32 ∷ 90 ∷ 76 ∷ 0 ∷ 1 ∷ 0 ∷ 1 ∷ type_code ∷ 0 ∷ 0 ∷ 0 ∷ width ∷ 0 ∷ 0 ∷ 0 ∷ 1 ∷ 0 ∷ 0 ∷ 0
    ∷ stride ∷ 0 ∷ 0 ∷ 0 ∷ 0 ∷ 0 ∷ 0 ∷ 0 ∷ image_id ∷ 0 ∷ 0 ∷ 0 ∷ distance ∷ []

abbrev no_images : ℕ → Option Bytes
no_images id = none

abbrev first_image : ℕ → Option Bytes
first_image zero = some (3 ∷ 2 ∷ 1 ∷ 255 ∷ [])
first_image (suc id) = none

abbrev one_pixel : ℕ → ℕ → Bytes → DecodedGlzImage
one_pixel image_id oldest pixels = record {
  image_id = image_id;
  oldest_retained_image_id = oldest;
  width = 1;
  height = 1;
  top_down = true;
  pixels = pixels;
}

literal_run :
    decode_glz (header 24 1 4 0 0 ++ (0 ∷ 1 ∷ 2 ∷ 3 ∷ [])) display_limits no_images
    ≡ ok (one_pixel 0 0 (3 ∷ 2 ∷ 1 ∷ 255 ∷ []))
unfolding decode_glz finish read_image checked_sub Lz.try_from bytes u32 u64 decode_streams
    decode_color_stream color_loop color_round color_literal color_reference decode_alpha_stream
    alpha_loop alpha_round alpha_literal alpha_reference has_room resize literal_pixel read_literals
    read_alphas decode_reference read_length extend_length read_place read_long read_short
    read_distance copy_reference copy_dictionary copy_resolved in_image copy_image copy_local
    copy_pixel copy_pixel_from overwrite put byte_at expand_five_bits
literal_run = refl

earlier_image_run :
    decode_glz (header 24 1 4 1 1 ++ (32 ∷ 0 ∷ 1 ∷ [])) display_limits first_image
    ≡ ok (one_pixel 1 0 (3 ∷ 2 ∷ 1 ∷ 255 ∷ []))
unfolding decode_glz finish read_image checked_sub Lz.try_from bytes u32 u64 decode_streams
    decode_color_stream color_loop color_round color_literal color_reference decode_alpha_stream
    alpha_loop alpha_round alpha_literal alpha_reference has_room resize literal_pixel read_literals
    read_alphas decode_reference read_length extend_length read_place read_long read_short
    read_distance copy_reference copy_dictionary copy_resolved in_image copy_image copy_local
    copy_pixel copy_pixel_from overwrite put byte_at expand_five_bits
earlier_image_run = refl

missing_run :
    decode_glz (header 24 1 4 1 1 ++ (32 ∷ 0 ∷ 1 ∷ [])) display_limits no_images ≡ err (missing 0)
unfolding decode_glz finish read_image checked_sub Lz.try_from bytes u32 u64 decode_streams
    decode_color_stream color_loop color_round color_literal color_reference decode_alpha_stream
    alpha_loop alpha_round alpha_literal alpha_reference has_room resize literal_pixel read_literals
    read_alphas decode_reference read_length extend_length read_place read_long read_short
    read_distance copy_reference copy_dictionary copy_resolved in_image copy_image copy_local
    copy_pixel copy_pixel_from overwrite put byte_at expand_five_bits
missing_run = refl

underflow_run :
    decode_glz (header 24 1 4 0 0 ++ (32 ∷ 0 ∷ 1 ∷ [])) display_limits no_images
    ≡ err (glz_error invalid_back_reference "image distance")
unfolding decode_glz finish read_image checked_sub Lz.try_from bytes u32 u64 decode_streams
    decode_color_stream color_loop color_round color_literal color_reference decode_alpha_stream
    alpha_loop alpha_round alpha_literal alpha_reference has_room resize literal_pixel read_literals
    read_alphas decode_reference read_length extend_length read_place read_long read_short
    read_distance copy_reference copy_dictionary copy_resolved in_image copy_image copy_local
    copy_pixel copy_pixel_from overwrite put byte_at expand_five_bits
underflow_run = refl

alpha_run :
    decode_glz (header 25 1 4 4 0 ++ (0 ∷ 1 ∷ 2 ∷ 3 ∷ 0 ∷ 128 ∷ [])) display_limits no_images
    ≡ ok (one_pixel 4 4 (3 ∷ 2 ∷ 1 ∷ 128 ∷ []))
unfolding decode_glz finish read_image checked_sub Lz.try_from bytes u32 u64 decode_streams
    decode_color_stream color_loop color_round color_literal color_reference decode_alpha_stream
    alpha_loop alpha_round alpha_literal alpha_reference has_room resize literal_pixel read_literals
    read_alphas decode_reference read_length extend_length read_place read_long read_short
    read_distance copy_reference copy_dictionary copy_resolved in_image copy_image copy_local
    copy_pixel copy_pixel_from overwrite put byte_at expand_five_bits
alpha_run = refl

-- A literal, and a local reference of length 2 to the pixel before.
local_run :
    decode_streams 0 no_images 3 rgb32 (0 ∷ 1 ∷ 2 ∷ 3 ∷ 64 ∷ 0 ∷ 0 ∷ [])
    ≡ ok (3 ∷ 2 ∷ 1 ∷ 255 ∷ 3 ∷ 2 ∷ 1 ∷ 255 ∷ 3 ∷ 2 ∷ 1 ∷ 255 ∷ [], [])
unfolding decode_glz finish read_image checked_sub Lz.try_from bytes u32 u64 decode_streams
    decode_color_stream color_loop color_round color_literal color_reference decode_alpha_stream
    alpha_loop alpha_round alpha_literal alpha_reference has_room resize literal_pixel read_literals
    read_alphas decode_reference read_length extend_length read_place read_long read_short
    read_distance copy_reference copy_dictionary copy_resolved in_image copy_image copy_local
    copy_pixel copy_pixel_from overwrite put byte_at expand_five_bits
local_run = refl

decode_glz-IsWithin_example : IsWithin display_limits (one_pixel 1 0 (3 ∷ 2 ∷ 1 ∷ 255 ∷ []))
decode_glz-IsWithin_example =
    decode_glz-IsWithin (header 24 1 4 1 1 ++ (32 ∷ 0 ∷ 1 ∷ [])) display_limits first_image
      (one_pixel 1 0 (3 ∷ 2 ∷ 1 ∷ 255 ∷ [])) earlier_image_run

abbrev two_images : ℕ → Option Bytes
two_images zero = some (3 ∷ 2 ∷ 1 ∷ 255 ∷ [])
two_images (suc id) = some (9 ∷ 9 ∷ 9 ∷ 9 ∷ [])

same_before : (id : ℕ) → id < 1 → first_image id ≡ two_images id
same_before zero h = refl
same_before (suc id) h = absurd (omega arith)

decode_streams-resolve_image_example :
    decode_streams 1 first_image 1 rgb32 (32 ∷ 0 ∷ 1 ∷ [])
    ≡ decode_streams 1 two_images 1 rgb32 (32 ∷ 0 ∷ 1 ∷ [])
decode_streams-resolve_image_example =
    decode_streams-resolve_image 1 first_image two_images same_before 1 rgb32 (32 ∷ 0 ∷ 1 ∷ [])
