-- ===== src/Lz/Output.antt =====
-- crates/oxide-spice-codecs/src/lz.rs: from expanded units to pixels in top-down order. A write of the
-- source is `put`, a read `byte_at`; out of range the source would panic.
pub mod Size
pub mod Writes
pub mod Position
use oxide_spice.Common.{
  ℕ, zero, suc, ◌+◌, ◌-◌, ◌*◌, ◌/◌, ◌%◌, ◌^◌, Bool, Option, none, some, List, [], ◌∷◌, ◌++◌, ◌==◌,
  if◌then◌else◌, bit_or, length, replicate, get_elem?, take, drop,
}
use oxide_spice.Errors.{Result, ok, err, ok_or, ◌>>=◌}
use oxide_spice.Bytes.{Bytes}
use oxide_spice.Lz.{
  LzError, lz_error, invalid_palette_index, LzImageType, palette1_le, palette1_be, palette4_le,
  palette4_be, palette8, rgb16, rgb24, rgb32, rgba, xxx_alpha, alpha8, compressed_unit_bytes,
}

unfoldable pub overwrite : Bytes → Bytes → Bytes
overwrite [] output = output
overwrite (x ∷ xs) [] = []
overwrite (x ∷ xs) (o ∷ output) = x ∷ overwrite xs output

-- `output[start..start + xs.len()].copy_from_slice(xs)`.
unfoldable pub put : ℕ → Bytes → Bytes → Bytes
unfolding overwrite
put zero xs output = overwrite xs output
put (suc start) xs [] = []
put (suc start) xs (o ∷ output) = o ∷ put start xs output

or_zero : Option ℕ → ℕ
or_zero none = 0
or_zero (some b) = b

unfoldable pub byte_at : Bytes → ℕ → ℕ
unfolding or_zero
byte_at bs i = or_zero (get_elem? bs i)

unfoldable pub oriented_y : ℕ → ℕ → Bool → ℕ
oriented_y storage_y height top_down = if top_down then storage_y else height - storage_y - 1

unfoldable pub expand_five_bits : ℕ → ℕ
expand_five_bits value = bit_or (value * 8 % 256) (value / 4)

pub record ImageGeometry : Type 0 where
  pub width : ℕ
  pub height : ℕ
  pub top_down : Bool

-- The two loops over an image, which the three expansions share: each pixel goes to the row that the
-- orientation gives it.
module _ (g : ImageGeometry) (pixel : ℕ → ℕ → Result LzError Bytes) where
  unfoldable pub expand_columns : ℕ → ℕ → ℕ → Bytes → Result LzError Bytes
  unfolding put oriented_y
  expand_columns zero storage_y x output = ok output
  expand_columns (suc n) storage_y x output = do
    color ← pixel storage_y x
    expand_columns n storage_y (x + 1)
        (put ((oriented_y storage_y g.height g.top_down * g.width + x) * 4) color output)

  unfoldable pub expand_rows : ℕ → ℕ → Bytes → Result LzError Bytes
  expand_rows zero storage_y output = ok output
  expand_rows (suc n) storage_y output = do
    output' ← expand_columns g.width storage_y 0 output
    expand_rows n (storage_y + 1) output'

  unfoldable pub expand_pixels : Result LzError Bytes
  expand_pixels = expand_rows g.height 0 (replicate (g.width * g.height * 4) 0)

abbrev rgb16_pixel : ℕ → Bytes
rgb16_pixel value =
    expand_five_bits (value / 2 ^ 10 % 32)
    ∷ expand_five_bits (value / 2 ^ 5 % 32)
    ∷ expand_five_bits (value % 32)
    ∷ 255
    ∷ []

-- The other types are unreachable in the source.
unfoldable pub direct_pixel : LzImageType → Bytes → ℕ → Bytes
unfolding byte_at expand_five_bits
direct_pixel rgb16 source start =
    rgb16_pixel (byte_at source start * 256 + byte_at source (start + 1))
direct_pixel _ source start =
    byte_at source (start + 2) ∷ byte_at source (start + 1) ∷ byte_at source start ∷ 255 ∷ []

unfoldable pub expand_direct_color : Bytes → LzImageType → ImageGeometry → Result LzError Bytes
unfolding direct_pixel
expand_direct_color source image_type g = expand_pixels g (λ storage_y x.
    ok (
      direct_pixel image_type source
        ((storage_y * g.width + x) * compressed_unit_bytes image_type)))

unfoldable pub expand_rgba : Bytes → Bytes → ImageGeometry → Result LzError Bytes
unfolding byte_at
expand_rgba colors alpha g = expand_pixels g (λ storage_y x.
    let source_pixel = storage_y * g.width + x in
    let color_start = source_pixel * 3 in
    ok (
      byte_at colors (color_start + 2)
      ∷ byte_at colors (color_start + 1)
      ∷ byte_at colors color_start
      ∷ byte_at alpha source_pixel
      ∷ []))

-- The other types are unreachable in the source.
unfoldable pub palette_index : LzImageType → Bytes → ℕ → ℕ
unfolding byte_at
palette_index palette1_le row x = byte_at row (x / 8) / 2 ^ (x % 8) % 2
palette_index palette1_be row x = byte_at row (x / 8) / 2 ^ (7 - x % 8) % 2
palette_index palette4_le row x =
    if x % 2 == 0 then byte_at row (x / 2) % 16 else byte_at row (x / 2) / 16
palette_index palette4_be row x =
    if x % 2 == 0 then byte_at row (x / 2) / 16 else byte_at row (x / 2) % 16
palette_index _ row x = byte_at row x

unfoldable pub expand_palette :
    Bytes → List Bytes → LzImageType → ImageGeometry → ℕ → Result LzError Bytes
unfolding palette_index
expand_palette indices palette image_type g stride = expand_pixels g (λ storage_y x.
    let row = take stride (drop (storage_y * stride) indices) in
    ok_or (get_elem? palette (palette_index image_type row x))
      (lz_error invalid_palette_index "palette index"))

unfoldable pub orient_loop : ℕ → ℕ → ℕ → ℕ → Bytes → Bytes → Bytes
unfolding put oriented_y
orient_loop zero storage_y width height source output = output
orient_loop (suc n) storage_y width height source output =
    orient_loop n (storage_y + 1) width height source (
      put (oriented_y storage_y height Bool.false * width)
        (take width (drop (storage_y * width) source)) output)

unfoldable pub orient_rows : Bytes → ImageGeometry → Bytes
unfolding orient_loop
orient_rows source g =
    if g.top_down
    then source
    else orient_loop g.height 0 g.width g.height source (replicate (length source) 0)
