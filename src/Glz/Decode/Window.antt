-- ===== src/Glz/Decode/Window.antt =====
-- What an image can refer to.
use oxide_spice.Common.{
  ℕ, zero, suc, ◌+◌, ◌-◌, ◌*◌, ◌<◌, ◌≡◌, refl, arith, Bool, true, false, Bool-cases, inl, inr,
  Option, [], ◌==◌, ltb, if◌then◌else◌,
}
use oxide_spice.Errors.{Result, ok, err}
use oxide_spice.Bytes.{Bytes}
use oxide_spice.Lz.{LzImageType}
use oxide_spice.Glz.{GlzError, Decoder, u8}
use oxide_spice.BigEndian.{and_then}
use oxide_spice.Glz.Reference.{Reference, copy_dictionary, copy_reference, decode_reference}
use oxide_spice.Glz.Decode.{
  Progress, progress, resize, color_literal, color_reference, color_round, color_loop,
  decode_color_stream, alpha_literal, alpha_reference, alpha_round, alpha_loop, decode_alpha_stream,
  decode_streams, is_rgb16, is_rgba, ensure_output_room, literal_control_limit,
}

-- A step that goes on in the same way goes on to the same result.
same_next :
    {A B : Type 0} (k k' : A → Decoder B) (o : Result GlzError (A × Bytes))
    → ((a : A) (input : Bytes) → k a input ≡ k' a input)
    → and_then k o ≡ and_then k' o
same_next k k' (ok (a, input)) h = h a input
same_next k k' (err e) h = refl

module _ (image_id : ℕ) (first second : ℕ → Option Bytes)
    (agree : (id : ℕ) → id < image_id → first id ≡ second id) where
  dictionary_agrees :
      (produced : ℕ) (reference : Reference) (alpha_only : Bool) (output : Bytes)
      → 0 < reference.image_distance
      → copy_dictionary image_id first produced reference alpha_only output
        ≡ copy_dictionary image_id second produced reference alpha_only output
  unfolding copy_dictionary
  dictionary_agrees produced reference alpha_only output earlier =
      elim (Bool-cases (ltb image_id reference.image_distance)) [
        | inl before_all ↦ rw before_all refl
        | inr inside ↦ rw (inside, agree (image_id - reference.image_distance) (ground arith)) refl
      ]

  reference_agrees :
      (produced : ℕ) (reference : Reference) (alpha_only : Bool) (output : Bytes)
      → copy_reference image_id first produced reference alpha_only output
        ≡ copy_reference image_id second produced reference alpha_only output
  unfolding copy_reference
  reference_agrees produced reference alpha_only output =
      elim (Bool-cases (reference.image_distance == 0)) [
        | inl here ↦ rw here refl
        | inr earlier ↦
            rw (dictionary_agrees produced reference alpha_only output (ground arith)) refl
      ]

  module _ (expected : ℕ) where
    color_agrees :
        (sixteen_bits : Bool) (p : Progress) (input : Bytes)
        → color_round image_id first expected sixteen_bits p input
          ≡ color_round image_id second expected sixteen_bits p input
    unfolding color_round color_literal color_reference
    color_agrees sixteen_bits p input = same_next _ _ (u8 "control byte" input) λ control i1.
        elim (Bool-cases (ltb control literal_control_limit)) [
          | inl literal ↦ rw literal refl
          | inr reference ↦ rw reference (
              same_next _ _ (decode_reference control (if sixteen_bits then 1 else 0) i1)
                λ found i2.
                  same_next _ _ (ensure_output_room p.produced found.length expected i2) λ done i3.
                    rw
                      (reference_agrees p.produced found false
                        (resize ((p.produced + found.length) * 4) p.output))
                      refl)
        ]

    color_loop_agrees :
        (sixteen_bits : Bool) (fuel : ℕ) (p : Progress) (input : Bytes)
        → color_loop image_id first expected sixteen_bits fuel p input
          ≡ color_loop image_id second expected sixteen_bits fuel p input
    unfolding color_loop
    color_loop_agrees sixteen_bits zero p input = refl
    color_loop_agrees sixteen_bits (suc fuel) p input =
        elim (Bool-cases (ltb p.produced expected)) [
          | inr complete ↦ rw complete refl
          | inl going ↦
              rw (going, color_agrees sixteen_bits p input)
                (same_next _ _ (color_round image_id second expected sixteen_bits p input)
                  (λ p' i1. color_loop_agrees sixteen_bits fuel p' i1))
        ]

    alpha_agrees :
        (p : Progress) (input : Bytes)
        → alpha_round image_id first expected p input ≡ alpha_round image_id second expected p input
    unfolding alpha_round alpha_literal alpha_reference
    alpha_agrees p input = same_next _ _ (u8 "alpha control byte" input) λ control i1.
        elim (Bool-cases (ltb control literal_control_limit)) [
          | inl literal ↦ rw literal refl
          | inr reference ↦ rw reference (
              same_next _ _ (decode_reference control 2 i1) λ found i2.
                same_next _ _ (ensure_output_room p.produced found.length expected i2)
                  λ done i3. rw (reference_agrees p.produced found true p.output) refl)
        ]

    alpha_loop_agrees :
        (fuel : ℕ) (p : Progress) (input : Bytes)
        → alpha_loop image_id first expected fuel p input
          ≡ alpha_loop image_id second expected fuel p input
    unfolding alpha_loop
    alpha_loop_agrees zero p input = refl
    alpha_loop_agrees (suc fuel) p input = elim (Bool-cases (ltb p.produced expected)) [
      | inr complete ↦ rw complete refl
      | inl going ↦
          rw (going, alpha_agrees p input)
            (same_next _ _ (alpha_round image_id second expected p input)
              (λ p' i1. alpha_loop_agrees fuel p' i1))
    ]

    -- The pixels of an image depend on the dictionary only through the images before it: with two
    -- dictionaries that agree on these, both streams give the same pixels, or the same error.
    pub decode_streams-resolve_image :
        (image_type : LzImageType) (input : Bytes)
        → decode_streams image_id first expected image_type input
          ≡ decode_streams image_id second expected image_type input
    unfolding decode_streams decode_color_stream decode_alpha_stream
    decode_streams-resolve_image image_type input =
        rw (color_loop_agrees (is_rgb16 image_type) expected (progress 0 []) input) (
          same_next _ _
            (color_loop image_id second expected (is_rgb16 image_type) expected (progress 0 [])
              input)
            λ colors i1. elim (Bool-cases (is_rgba image_type)) [
              | inl both ↦ rw both (alpha_loop_agrees expected (progress 0 colors) i1)
              | inr one ↦ rw one refl
            ])
