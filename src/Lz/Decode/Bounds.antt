-- ===== src/Lz/Decode/Bounds.antt =====
-- What a decoded image is known to be.
use oxide_spice.Common.{
  ℕ, ◌*◌, ◌≤◌, ◌<◌, ◌≡◌, refl, sym, ap, ◌∙◌, subst, arith, Bool, true, Bool-cases, not, ◌&&◌, ◌||◌,
  inl, inr, Option, some, List, ◌==◌, ltb, leb, length,
}
use oxide_spice.Errors.{Result, ok, err, ok-injective}
use oxide_spice.Bytes.{Bytes, checked_mul}
use oxide_spice.Lz.{
  DecodeLimits, LzError, LzImageType, palette1_le, palette1_be, palette4_le, palette4_be, palette8,
  rgb16, rgb24, rgb32, rgba, xxx_alpha, alpha8, try_from, expected_stride, match_length_bias,
  compressed_unit_bytes, is_palette, u32,
}
use oxide_spice.BigEndian.Inverse.{lift_ok, step_ok, or_fail_ok, require_ok}
use oxide_spice.Lz.Stream.{decompress_units}
use oxide_spice.Lz.Stream.Size.{length-decompress_units}
use oxide_spice.Lz.Output.{
  ImageGeometry, expand_direct_color, expand_rgba, expand_palette, orient_rows,
}
use oxide_spice.Lz.Output.Size.{length-expand_pixels, length-orient_rows}
use oxide_spice.Lz.Decode.{
  DecodedPixels, rgba_pixels, alpha8_pixels, DecodedImage, orientation, is_stride,
  output_bytes_per_pixel, has_palette, colors_of, palette_pixels, direct_pixels, alpha_pixels,
  read_pixels, read_image, finish, decode_lz, lz_magic, lz_version,
}

abbrev pub pixel_bytes : DecodedPixels → Bytes
pixel_bytes (rgba_pixels bs) = bs
pixel_bytes (alpha8_pixels bs) = bs

result_pixels :
    (make : Bytes → DecodedPixels) (bs input rest : Bytes) (p : DecodedPixels)
    → ◌≡◌ {A = Result LzError (DecodedPixels × Bytes)} (ok (make bs, input)) (ok (p, rest))
    → p ≡ make bs
result_pixels make bs input rest p h =
    ap (λ (q : DecodedPixels × Bytes). q.0) (sym (ok-injective h))

module _ (g : ImageGeometry) (stride : ℕ) (input rest : Bytes) (p : DecodedPixels) where
  palette_size :
      (t : LzImageType) (palette : List Bytes)
      → palette_pixels t palette g stride input ≡ ok (p, rest)
      → length (pixel_bytes p) ≡ g.width * g.height * 4
  unfolding palette_pixels expand_palette
  palette_size t palette h = or_fail_ok (checked_mul stride g.height) _ _ input h λ n product h1.
      step_ok (decompress_units n (compressed_unit_bytes t) (match_length_bias t)) _ input h1
        λ indices i1 e1 h2. lift_ok (expand_palette indices palette t g stride) _ i1 h2 λ out e2 h3.
          ap (λ q. length (pixel_bytes q)) (result_pixels rgba_pixels out i1 rest p h3)
          ∙ length-expand_pixels g _ out e2

  direct_size :
      (t : LzImageType) (n : ℕ)
      → direct_pixels t g n input ≡ ok (p, rest)
      → length (pixel_bytes p) ≡ g.width * g.height * 4
  unfolding direct_pixels expand_direct_color
  direct_size t n h =
      step_ok (decompress_units n (compressed_unit_bytes t) (match_length_bias t)) _ input h
        λ colors i1 e1 h1. lift_ok (expand_direct_color colors t g) _ i1 h1 λ out e2 h2.
          ap (λ q. length (pixel_bytes q)) (result_pixels rgba_pixels out i1 rest p h2)
          ∙ length-expand_pixels g _ out e2

  alpha_size :
      (t : LzImageType) (n : ℕ)
      → 0 < match_length_bias t
      → alpha_pixels t g n input ≡ ok (p, rest)
      → length (pixel_bytes p) ≡ n
  unfolding alpha_pixels
  alpha_size t n bias h =
      step_ok (decompress_units n 1 (match_length_bias t)) _ input h λ alpha i1 e1 h1.
        let size : length alpha ≡ n * 1 =
          length-decompress_units n 1 (match_length_bias t) input alpha i1 bias e1 in
        ap (λ q. length (pixel_bytes q))
          (result_pixels alpha8_pixels (orient_rows alpha g) i1 rest p h1)
        ∙ length-orient_rows alpha g
        ∙ size
        ∙ omega arith

  rgba_size :
      (palette : Option (List Bytes)) (n : ℕ)
      → read_pixels rgba palette g stride n input ≡ ok (p, rest)
      → length (pixel_bytes p) ≡ g.width * g.height * 4
  unfolding read_pixels expand_rgba
  rgba_size palette n h = step_ok (decompress_units n 3 1) _ input h λ colors i1 e1 h1.
      step_ok (decompress_units n 1 3) _ i1 h1 λ alpha i2 e2 h2.
        lift_ok (expand_rgba colors alpha g) _ i2 h2 λ out e3 h3.
          ap (λ q. length (pixel_bytes q)) (result_pixels rgba_pixels out i2 rest p h3)
          ∙ length-expand_pixels g _ out e3

  -- An image has its pixels, whatever its type.
  read_pixels-size :
      (t : LzImageType) (palette : Option (List Bytes)) (n : ℕ)
      → n ≡ g.width * g.height
      → read_pixels t palette g stride n input ≡ ok (p, rest)
      → length (pixel_bytes p) ≡ g.width * g.height * output_bytes_per_pixel t
  unfolding read_pixels
  read_pixels-size palette1_le palette n e h = palette_size palette1_le (colors_of palette) h
  read_pixels-size palette1_be palette n e h = palette_size palette1_be (colors_of palette) h
  read_pixels-size palette4_le palette n e h = palette_size palette4_le (colors_of palette) h
  read_pixels-size palette4_be palette n e h = palette_size palette4_be (colors_of palette) h
  read_pixels-size palette8 palette n e h = palette_size palette8 (colors_of palette) h
  read_pixels-size rgb16 palette n e h = direct_size rgb16 n h
  read_pixels-size rgb24 palette n e h = direct_size rgb24 n h
  read_pixels-size rgb32 palette n e h = direct_size rgb32 n h
  read_pixels-size rgba palette n e h = rgba_size palette n h
  read_pixels-size xxx_alpha palette n e h = alpha_size xxx_alpha n (omega arith) h ∙ omega arith
  read_pixels-size alpha8 palette n e h = alpha_size alpha8 n (omega arith) h ∙ omega arith

-- An image inside the limits, with as many bytes as its size and type say.
pub record IsWithin (limits : DecodeLimits) (image : DecodedImage) : Type 0 where
  pub wide : 0 < image.width
  pub high : 0 < image.height
  pub width_limit : image.width ≤ limits.maximum_width
  pub height_limit : image.height ≤ limits.maximum_height
  pub size :
      length (pixel_bytes image.pixels)
      ≡ image.width * image.height * output_bytes_per_pixel image.image_type
  pub size_limit : length (pixel_bytes image.pixels) ≤ limits.maximum_output_bytes

module _ (palette : Option (List Bytes)) (limits : DecodeLimits) where
  -- The facts that the checks of the header leave.
  image-IsWithin :
      (t : LzImageType) (width height stride n size : ℕ) (top_down : Bool) (p : DecodedPixels)
      (input rest : Bytes)
      → not (
          width == 0
          || height == 0
          || ltb limits.maximum_width width
          || ltb limits.maximum_height height)
        ≡ true
      → checked_mul width height ≡ some n
      → checked_mul n (output_bytes_per_pixel t) ≡ some size
      → leb size limits.maximum_output_bytes ≡ true
      → read_pixels t palette
          (record { width = width; height = height; top_down = top_down })
          stride
          n
          input
        ≡ ok (p, rest)
      → IsWithin limits (record {
        width = width;
        height = height;
        top_down = top_down;
        image_type = t;
        pixels = p;
      })
  image-IsWithin t width height stride n size top_down p input rest valid product bytes small read =
      let g : ImageGeometry = record { width = width; height = height; top_down = top_down } in
      let count : n ≡ width * height = ground arith in
      let total : size ≡ n * output_bytes_per_pixel t = ground arith in
      let exact : length (pixel_bytes p) ≡ width * height * output_bytes_per_pixel t =
        read_pixels-size g stride input rest p t palette n count read in
      let same : length (pixel_bytes p) ≡ size =
        exact ∙ ap (λ k. k * output_bytes_per_pixel t) (sym count) ∙ sym total in
      record {
        wide = ground arith;
        high = ground arith;
        width_limit = ground arith;
        height_limit = ground arith;
        size = exact;
        size_limit = ground arith;
      }

  read_image-IsWithin :
      (input rest : Bytes) (image : DecodedImage)
      → read_image palette limits input ≡ ok (image, rest)
      → IsWithin limits image
  unfolding read_image
  read_image-IsWithin input rest image h = step_ok (u32 "magic") _ input h λ magic i1 e1 h1.
      require_ok (magic == lz_magic) _ _ i1 h1 λ is_magic h2.
        step_ok (u32 "version") _ i1 h2 λ version i3 e3 h3.
          require_ok (version == lz_version) _ _ i3 h3 λ is_version h4.
            step_ok (u32 "image type") _ i3 h4 λ type_code i5 e5 h5.
              lift_ok (try_from type_code) _ i5 h5 λ t e6 h6.
                step_ok (u32 "width") _ i5 h6 λ width i7 e7 h7.
                  step_ok (u32 "height") _ i7 h7 λ height i8 e8 h8.
                    step_ok (u32 "stride") _ i8 h8 λ stride i9 e9 h9.
                      step_ok (u32 "row orientation") _ i9 h9 λ code i10 e10 h10.
                        lift_ok (orientation code) _ i10 h10 λ top_down e11 h11.
                          require_ok
                            (not (
                              width == 0
                              || height == 0
                              || ltb limits.maximum_width width
                              || ltb limits.maximum_height height))
                            _ _ i10 h11
                            λ valid h12.
                              require_ok (is_stride (expected_stride t width) stride) _ _ i10 h12
                                λ same_stride h13.
                                  or_fail_ok (checked_mul width height) _ _ i10 h13 λ n product h14.
                                    or_fail_ok (checked_mul n (output_bytes_per_pixel t)) _ _ i10
                                      h14
                                      λ size total h15.
                                        require_ok (leb size limits.maximum_output_bytes) _ _ i10
                                          h15
                                          λ small h16.
                                            require_ok
                                              (not (is_palette t && not (has_palette palette))) _ _
                                              i10 h16
                                              λ given h17.
                                                require_ok
                                                  (not (not (is_palette t) && has_palette palette))
                                                  _ _ i10 h17
                                                  λ wanted h18.
                                                    step_ok
                                                      (read_pixels t palette
                                                        (record {
                                                          width = width;
                                                          height = height;
                                                          top_down = top_down;
                                                        })
                                                        stride n)
                                                      _ i10 h18
                                                      λ p i19 e19 h19.
                                                        subst (IsWithin limits)
                                                          (ap (λ (q : DecodedImage × Bytes). q.0)
                                                            (ok-injective h19))
                                                          (image-IsWithin t width height stride n
                                                            size top_down p i10 i19 valid product
                                                            total small e19)

-- An image that decodes has a width and a height of at least 1 inside the caller's limits, exactly as
-- many pixel bytes as its size and its type say, and no more than the caller's limit on them.
pub decode_lz-IsWithin :
    (input : Bytes) (palette : Option (List Bytes)) (limits : DecodeLimits) (image : DecodedImage)
    → decode_lz input palette limits ≡ ok image
    → IsWithin limits image
unfolding decode_lz finish
decode_lz-IsWithin input palette limits image h = elim (Bool-cases (ltb (length input) 28)) [
  | inl short ↦ absurd (failed (rw short at h))
  | inr long ↦ finished (read_image palette limits input) refl (rw long at h)
]
  where
    failed : {e : LzError} → ◌≡◌ {A = Result LzError DecodedImage} (err e) (ok image) → ⊥
    failed e = cc

    finished :
        (o : Result LzError (DecodedImage × Bytes))
        → read_image palette limits input ≡ o
        → finish o ≡ ok image
        → IsWithin limits image
    finished (err x) e h' = absurd (cc)
    finished (ok (found, rest)) e h' = elim (Bool-cases (length rest == 0)) [
      | inl all_read ↦
          let same : found ≡ image = ok-injective (rw all_read at h') in
          subst (IsWithin limits) same (read_image-IsWithin palette limits input rest found e)
      | inr trailing ↦ absurd (failed (rw trailing at h'))
    ]
