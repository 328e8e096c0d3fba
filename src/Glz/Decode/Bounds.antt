-- ===== src/Glz/Decode/Bounds.antt =====
-- The header of a decoded image against its pixels.
use oxide_spice.Common.{
  ℕ, ◌*◌, ◌/◌, ◌%◌, ◌≤◌, ◌<◌, ◌≡◌, refl, ap, ◌∙◌, subst, arith, Bool, true, Bool-cases, not, ◌||◌,
  inl, inr, Option, some, ◌==◌, ltb, leb, length,
}
use oxide_spice.Errors
use oxide_spice.Errors.{Result, ok, err, ok-injective}
use oxide_spice.Bytes.{Bytes, checked_mul}
use oxide_spice.Lz
use oxide_spice.Lz.{DecodeLimits, LzImageType, LzError}
use oxide_spice.BigEndian.Inverse.{lift_ok, step_ok, or_fail_ok, require_ok}
use oxide_spice.Glz.{GlzError, glz_error, unsupported_type, u8, u32, u64}
use oxide_spice.Glz.Decode.{
  decode_streams, DecodedGlzImage, is_glz_type, read_image, finish, decode_glz, stride_bytes,
  checked_sub, lz_magic, lz_version,
}
use oxide_spice.Glz.Decode.Size.{length-decode_streams}

-- An image inside the limits, with four bytes for each pixel, whose window does not start after it.
pub record IsWithin (limits : DecodeLimits) (image : DecodedGlzImage) : Type 0 where
  pub wide : 0 < image.width
  pub high : 0 < image.height
  pub width_limit : image.width ≤ limits.maximum_width
  pub height_limit : image.height ≤ limits.maximum_height
  pub size : length image.pixels ≡ image.width * image.height * 4
  pub size_limit : length image.pixels ≤ limits.maximum_output_bytes
  pub window : image.oldest_retained_image_id ≤ image.image_id

module _ (limits : DecodeLimits) (resolve_image : ℕ → Option Bytes) where
  -- The facts that the checks of the header leave.
  image-IsWithin :
      (t : LzImageType) (width height image_id distance oldest n size : ℕ) (top_down : Bool)
      (pixels input rest : Bytes)
      → checked_sub image_id distance ≡ some oldest
      → not (
          width == 0
          || height == 0
          || ltb limits.maximum_width width
          || ltb limits.maximum_height height)
        ≡ true
      → checked_mul width height ≡ some n
      → checked_mul n 4 ≡ some size
      → leb size limits.maximum_output_bytes ≡ true
      → decode_streams image_id resolve_image n t input ≡ ok (pixels, rest)
      → IsWithin limits (record {
        image_id = image_id;
        oldest_retained_image_id = oldest;
        width = width;
        height = height;
        top_down = top_down;
        pixels = pixels;
      })
  unfolding checked_sub
  image-IsWithin t width height image_id distance oldest n size top_down pixels input rest earlier
        valid product bytes small read =
      let count : n ≡ width * height = ground arith in
      let total : size ≡ n * 4 = ground arith in
      let exact : length pixels ≡ n * 4 =
        length-decode_streams image_id resolve_image n t input pixels rest read in
      record {
        wide = ground arith;
        high = ground arith;
        width_limit = ground arith;
        height_limit = ground arith;
        size = exact ∙ ap (λ k. k * 4) count;
        size_limit = ground arith;
        window = ground arith;
      }

  read_image-IsWithin :
      (input rest : Bytes) (image : DecodedGlzImage)
      → read_image limits resolve_image input ≡ ok (image, rest)
      → IsWithin limits image
  unfolding read_image
  read_image-IsWithin input rest image h = step_ok (u32 "magic") _ input h λ magic i1 e1 h1.
      require_ok (magic == lz_magic) _ _ i1 h1 λ is_magic h2.
        step_ok (u32 "version") _ i1 h2 λ version i3 e3 h3.
          require_ok (version == lz_version) _ _ i3 h3 λ is_version h4.
            step_ok (u8 "image type") _ i3 h4 λ code i5 e5 h5.
              require_ok (code / 32 == 0) _ _ i5 h5 λ no_flags h6.
                lift_ok
                  (Errors.map_err (λ (e : LzError). glz_error unsupported_type "image type")
                    (Lz.try_from (code % 16)))
                  _ i5 h6
                  λ t e6 h7. require_ok (is_glz_type t) _ _ i5 h7 λ is_type h8.
                    step_ok (u32 "width") _ i5 h8 λ width i8 e8 h9.
                      step_ok (u32 "height") _ i8 h9 λ height i9 e9 h10.
                        step_ok (u32 "stride") _ i9 h10 λ stride i10 e10 h11.
                          step_ok (u64 "image id") _ i10 h11 λ image_id i11 e11 h12.
                            step_ok (u32 "window head distance") _ i11 h12 λ distance i12 e12 h13.
                              or_fail_ok (checked_sub image_id distance) _ _ i12 h13
                                λ oldest earlier h14.
                                  require_ok
                                    (not (
                                      width == 0
                                      || height == 0
                                      || ltb limits.maximum_width width
                                      || ltb limits.maximum_height height))
                                    _ _ i12 h14
                                    λ valid h15.
                                      or_fail_ok (checked_mul width (stride_bytes t)) _ _ i12 h15
                                        λ expected row h16.
                                          require_ok (stride == expected) _ _ i12 h16
                                            λ same_stride h17.
                                              or_fail_ok (checked_mul width height) _ _ i12 h17
                                                λ n product h18.
                                                  or_fail_ok (checked_mul n 4) _ _ i12 h18
                                                    λ size total h19.
                                                      require_ok
                                                        (leb size limits.maximum_output_bytes) _ _
                                                        i12 h19
                                                        λ small h20.
                                                          step_ok
                                                            (decode_streams image_id resolve_image n
                                                            t)
                                                            _ i12 h20
                                                            λ pixels i21 e21 h21.
                                                            subst (IsWithin limits)
                                                            (ap
                                                            (λ (q : DecodedGlzImage × Bytes). q.0)
                                                            (ok-injective h21))
                                                            (image-IsWithin t width height image_id
                                                            distance oldest n size _ pixels i12 i21
                                                            earlier valid product total small e21)

  finish-IsWithin :
      (o : Result GlzError (DecodedGlzImage × Bytes)) (input : Bytes) (image : DecodedGlzImage)
      → read_image limits resolve_image input ≡ o
      → finish o ≡ ok image
      → IsWithin limits image
  unfolding finish
  finish-IsWithin (err x) input image e h = absurd (cc)
  finish-IsWithin (ok (found, rest)) input image e h = elim (Bool-cases (length rest == 0)) [
    | inl all_read ↦
        subst (IsWithin limits) (ok-injective (rw all_read at h))
          (read_image-IsWithin input rest found e)
    | inr trailing ↦ absurd (impossible (rw trailing at h))
  ]
    where
      impossible : {x : GlzError} → ◌≡◌ {A = Result GlzError DecodedGlzImage} (err x) (ok image) → ⊥
      impossible same = cc

-- An image that decodes has a width and a height of at least 1 inside the caller's limits, four bytes
-- for each of its pixels and no more than the caller's limit on them, and its window starts at the
-- latest with itself. This holds whatever images the dictionary has.
pub decode_glz-IsWithin :
    (input : Bytes) (limits : DecodeLimits) (resolve_image : ℕ → Option Bytes)
    (image : DecodedGlzImage)
    → decode_glz input limits resolve_image ≡ ok image
    → IsWithin limits image
unfolding decode_glz
decode_glz-IsWithin input limits resolve_image image h = elim (Bool-cases (ltb (length input) 33)) [
  | inl short ↦ absurd (impossible (rw short at h))
  | inr long ↦
      finish-IsWithin limits resolve_image (read_image limits resolve_image input) input image refl
        (rw long at h)
]
  where
    impossible : {x : GlzError} → ◌≡◌ {A = Result GlzError DecodedGlzImage} (err x) (ok image) → ⊥
    impossible same = cc
