-- ===== src/Glz/Reference/Size.antt =====
-- What copying does to the size of an output.
use oxide_spice.Common.{
  ℕ, zero, suc, ◌+◌, ◌-◌, ◌*◌, ◌<◌, ◌≡◌, refl, sym, ap, ◌∙◌, arith, Bool, true, false, Bool-cases,
  inl, inr, Option, none, some, [], ◌∷◌, ◌==◌, ltb, length, take, drop,
}
use oxide_spice.Errors.{Result, ok, err, ok-injective}
use oxide_spice.Bytes.{Bytes}
use oxide_spice.Lz.Output.{byte_at}
use oxide_spice.Lz.Output.Size.{length-put}
use oxide_spice.Glz.{GlzError}
use oxide_spice.Glz.Reference.{
  Reference, copy_pixel_from, copy_pixel, copy_local, copy_image, in_image, copy_resolved,
  copy_dictionary, copy_reference,
}

length-copy_pixel_from :
    (source : Bytes) (from to : ℕ) (alpha_only : Bool) (output : Bytes)
    → length (copy_pixel_from source from to alpha_only output) ≡ length output
unfolding copy_pixel_from
length-copy_pixel_from source from to true output =
    length-put (to * 4 + 3) (byte_at source (from * 4 + 3) ∷ []) output
length-copy_pixel_from source from to false output =
    length-put (to * 4) (take 4 (drop (from * 4) source)) output

length-copy_local :
    (n offset to : ℕ) (alpha_only : Bool) (output : Bytes)
    → length (copy_local n offset to alpha_only output) ≡ length output
unfolding copy_local copy_pixel
length-copy_local zero offset to alpha_only output = refl
length-copy_local (suc n) offset to alpha_only output =
    length-copy_local n offset (to + 1) alpha_only
      (copy_pixel_from output (to - offset) to alpha_only output)
    ∙ length-copy_pixel_from output (to - offset) to alpha_only output

length-copy_image :
    (n : ℕ) (source : Bytes) (from to : ℕ) (alpha_only : Bool) (output : Bytes)
    → length (copy_image n source from to alpha_only output) ≡ length output
unfolding copy_image
length-copy_image zero source from to alpha_only output = refl
length-copy_image (suc n) source from to alpha_only output =
    length-copy_image n source (from + 1) (to + 1) alpha_only
      (copy_pixel_from source from to alpha_only output)
    ∙ length-copy_pixel_from source from to alpha_only output

-- A reference that is copied has a length, and leaves the size as it is.
pub record IsCopied (reference : Reference) (output output' : Bytes) : Type 0 where
  pub some_length : 0 < reference.length
  pub same_size : length output' ≡ length output

module _ (image_id : ℕ) (resolve_image : ℕ → Option Bytes) where
  resolved_size :
      (source : Option Bytes) (id produced : ℕ) (reference : Reference) (alpha_only : Bool)
      (output output' : Bytes)
      → copy_resolved source id produced reference alpha_only output ≡ ok output'
      → length output' ≡ length output
  unfolding copy_resolved
  resolved_size none id produced reference alpha_only output output' h = absurd (cc)
  resolved_size (some source) id produced reference alpha_only output output' h =
      elim (Bool-cases (in_image reference.pixel_offset reference.length source)) [
        | inl inside ↦
            ap length (sym (ok-injective (rw inside at h)))
            ∙ length-copy_image reference.length source reference.pixel_offset produced alpha_only
                output
        | inr outside ↦ absurd (impossible (rw outside at h))
      ]
    where
      impossible : {e : GlzError} → ◌≡◌ {A = Result GlzError Bytes} (err e) (ok output') → ⊥
      impossible e = cc

  pub copy_reference-IsCopied :
      (produced : ℕ) (reference : Reference) (alpha_only : Bool) (output output' : Bytes)
      → copy_reference image_id resolve_image produced reference alpha_only output ≡ ok output'
      → IsCopied reference output output'
  unfolding copy_reference copy_dictionary
  copy_reference-IsCopied produced reference alpha_only output output' h =
      elim (Bool-cases (reference.length == 0)) [
        | inl empty ↦ absurd (impossible (rw empty at h))
        | inr long ↦ record {
          some_length = ground arith;
          same_size = (elim (Bool-cases (reference.image_distance == 0)) [
            | inl here ↦ (elim (Bool-cases (ltb produced reference.pixel_offset)) [
              | inl early ↦ absurd (impossible (rw (long, here, early) at h))
              | inr fine ↦
                  ap length (sym (ok-injective (rw (long, here, fine) at h)))
                  ∙ length-copy_local reference.length reference.pixel_offset produced alpha_only
                      output
            ])
            | inr earlier ↦ (elim (Bool-cases (ltb image_id reference.image_distance)) [
              | inl early ↦ absurd (impossible (rw (long, earlier, early) at h))
              | inr fine ↦
                  resolved_size (resolve_image (image_id - reference.image_distance))
                    (image_id - reference.image_distance) produced reference alpha_only output
                    output' (rw (long, earlier, fine) at h)
            ])
          ]);
        }
      ]
    where
      impossible : {e : GlzError} → ◌≡◌ {A = Result GlzError Bytes} (err e) (ok output') → ⊥
      impossible e = cc
