-- ===== src/Glz/Decode/Size.antt =====
-- What a decoded image is known to be.
use oxide_spice.Common.{
  ℕ, zero, suc, ◌+◌, ◌-◌, ◌*◌, ◌≤◌, ◌<◌, ◌≡◌, refl, sym, ap, ◌∙◌, subst, arith, Bool, true, false,
  Bool-cases, inl, inr, Option, [], ◌∷◌, ◌++◌, ltb, if◌then◌else◌, length, length-append,
  length-replicate, replicate, take-of_le,
}
use oxide_spice.Errors.{Result, ok, err, ok-injective}
use oxide_spice.Bytes.{Bytes}
use oxide_spice.Lz.{LzImageType}
use oxide_spice.Lz.Output.{put}
use oxide_spice.Lz.Output.Size.{length-put}
use oxide_spice.BigEndian.{and_then}
use oxide_spice.BigEndian.Inverse.{lift_ok, step_ok, require_ok}
use oxide_spice.Glz.{GlzError, Decoder, u8, bytes}
use oxide_spice.Glz.Reference.{copy_reference, decode_reference}
use oxide_spice.Glz.Decode.{
  Progress, progress, resize, has_room, literal_pixel, read_literals, read_alphas, color_literal,
  color_reference, color_round, color_loop, decode_color_stream, alpha_literal, alpha_reference,
  alpha_round, alpha_loop, decode_alpha_stream, decode_streams, is_rgb16, is_rgba,
}
use oxide_spice.Glz.Reference.Size.{IsCopied, copy_reference-IsCopied}

pub length-resize : (n : ℕ) (output : Bytes) → length output ≤ n → length (resize n output) ≡ n
unfolding resize
length-resize n output h =
    let zeros : Bytes = replicate (n - length output) 0 in
    let count : length zeros ≡ n - length output = length-replicate (n - length output) 0 in
    rw (take-of_le n output h) (omega (arith, length-append output zeros))

length-literal_pixel :
    (sixteen_bits : Bool) (encoded : Bytes) → length (literal_pixel sixteen_bits encoded) ≡ 4
unfolding literal_pixel
length-literal_pixel true encoded = refl
length-literal_pixel false encoded = refl

literals_size :
    (n : ℕ) (sixteen_bits : Bool) (output output' input rest : Bytes)
    → read_literals n sixteen_bits output input ≡ ok (output', rest)
    → length output' ≡ length output + n * 4
unfolding read_literals
literals_size zero sixteen_bits output output' input rest h =
    ap (λ (q : Bytes × Bytes). length q.0) (sym (ok-injective h)) ∙ omega arith
literals_size (suc n) sixteen_bits output output' input rest h =
    step_ok (bytes (if sixteen_bits then 2 else 3) "literal pixel") _ input h λ encoded i1 e1 h1.
      let four : length (literal_pixel sixteen_bits encoded) ≡ 4 =
        length-literal_pixel sixteen_bits encoded in
      literals_size n sixteen_bits (output ++ literal_pixel sixteen_bits encoded) output' i1 rest h1
      ∙ omega (arith, length-append output (literal_pixel sixteen_bits encoded))

alphas_size :
    (n pixel : ℕ) (output output' input rest : Bytes)
    → read_alphas n pixel output input ≡ ok (output', rest)
    → length output' ≡ length output
unfolding read_alphas
alphas_size zero pixel output output' input rest h =
    ap (λ (q : Bytes × Bytes). length q.0) (sym (ok-injective h))
alphas_size (suc n) pixel output output' input rest h =
    step_ok (u8 "literal alpha") _ input h λ alpha i1 e1 h1.
      alphas_size n (pixel + 1) (put (pixel * 4 + 3) (alpha ∷ []) output) output' i1 rest h1
      ∙ length-put (pixel * 4 + 3) (alpha ∷ []) output

has_room_bound :
    (produced additional expected : ℕ)
    → has_room produced additional expected ≡ true
    → produced + additional ≤ expected
unfolding has_room
has_room_bound produced additional expected h = ground arith

same_next :
    {A B : Type 0} (o : Result GlzError (A × Bytes)) (k k' : A → Decoder B)
    → ((a : A) (input : Bytes) → o ≡ ok (a, input) → k a input ≡ k' a input)
    → and_then k o ≡ and_then k' o
same_next (ok (a, input)) k k' h = h a input refl
same_next (err e) k k' h = refl

-- A round that ends has new pixels, not too many, and the output's size follows them.
pub record Advances (expected : ℕ) (grows : ℕ → ℕ) (p p' : Progress) : Type 0 where
  pub more : p.produced < p'.produced
  pub bound : p'.produced ≤ expected
  pub size : length p'.output ≡ grows p'.produced

new_progress :
    {p p' : Progress} {input rest : Bytes}
    → ◌≡◌ {A = Result GlzError (Progress × Bytes)} (ok (p, input)) (ok (p', rest))
    → p ≡ p'
new_progress h = ap (λ (q : Progress × Bytes). q.0) (ok-injective h)

module _ (image_id : ℕ) (resolve_image : ℕ → Option Bytes) (expected : ℕ) where
  module _ (sixteen_bits : Bool) where
    color_round-Advances :
        (p p' : Progress) (input rest : Bytes)
        → length p.output ≡ p.produced * 4
        → color_round image_id resolve_image expected sixteen_bits p input ≡ ok (p', rest)
        → Advances expected (λ n. n * 4) p p'
    unfolding color_round color_literal color_reference
    color_round-Advances p p' input rest size h =
        step_ok (u8 "control byte") _ input h λ control i1 e1 h1.
          elim (Bool-cases (ltb control 32)) [
            | inl literal ↦
                require_ok (has_room p.produced (control + 1) expected) _ _ i1 (rw literal at h1)
                  λ room h2.
                    step_ok (read_literals (control + 1) sixteen_bits p.output) _ i1 h2
                      λ output i2 e2 h3.
                        subst (Advances expected (λ n. n * 4) p) (new_progress h3) (record {
                          more = omega arith;
                          bound = has_room_bound p.produced (control + 1) expected room;
                          size =
                              literals_size (control + 1) sixteen_bits p.output output i1 i2 e2
                              ∙ omega arith;
                        })
            | inr reference ↦
                step_ok (decode_reference control (if sixteen_bits then 1 else 0)) _ i1
                  (rw reference at h1)
                  λ found i2 e2 h2.
                    require_ok (has_room p.produced found.length expected) _ _ i2 h2 λ room h3.
                      lift_ok
                        (copy_reference image_id resolve_image p.produced found false
                          (resize ((p.produced + found.length) * 4) p.output))
                        _ i2 h3
                        λ output e3 h4.
                          let c : IsCopied found (resize ((p.produced + found.length) * 4) p.output)
                              output =
                            copy_reference-IsCopied image_id resolve_image p.produced found false _
                              output e3 in
                          let some_length : 0 < found.length = c.some_length in
                          subst (Advances expected (λ n. n * 4) p) (new_progress h4) (record {
                            more = omega arith;
                            bound = has_room_bound p.produced found.length expected room;
                            size =
                                c.same_size
                                ∙ length-resize ((p.produced + found.length) * 4) p.output
                                    (omega arith);
                          })
          ]

    color_loop-size :
        (fuel : ℕ) (p : Progress) (input output rest : Bytes)
        → length p.output ≡ p.produced * 4
        → p.produced ≤ expected
        → expected ≤ p.produced + fuel
        → color_loop image_id resolve_image expected sixteen_bits fuel p input ≡ ok (output, rest)
        → length output ≡ expected * 4
    unfolding color_loop
    color_loop-size zero p input output rest size bound enough h =
        ap (λ (q : Bytes × Bytes). length q.0) (sym (ok-injective h)) ∙ omega arith
    color_loop-size (suc fuel) p input output rest size bound enough h =
        elim (Bool-cases (ltb p.produced expected)) [
          | inr all_done ↦
              let same : p.produced ≡ expected = ground arith in
              let h' : ok (p.output, input) ≡ ok (output, rest) = rw all_done at h in
              ap (λ (q : Bytes × Bytes). length q.0) (sym (ok-injective h')) ∙ omega arith
          | inl going ↦
              step_ok (color_round image_id resolve_image expected sixteen_bits p) _ input
                (rw going at h)
                λ p' i1 e1 h1.
                  let a = color_round-Advances p p' input i1 size e1 in
                  let more : p.produced < p'.produced = a.more in
                  color_loop-size fuel p' i1 output rest a.size a.bound (omega arith) h1
        ]

  alpha_round-Advances :
      (p p' : Progress) (input rest : Bytes)
      → length p.output ≡ expected * 4
      → alpha_round image_id resolve_image expected p input ≡ ok (p', rest)
      → Advances expected (λ n. expected * 4) p p'
  unfolding alpha_round alpha_literal alpha_reference
  alpha_round-Advances p p' input rest size h =
      step_ok (u8 "alpha control byte") _ input h λ control i1 e1 h1.
        elim (Bool-cases (ltb control 32)) [
          | inl literal ↦
              require_ok (has_room p.produced (control + 1) expected) _ _ i1 (rw literal at h1)
                λ room h2.
                  step_ok (read_alphas (control + 1) p.produced p.output) _ i1 h2 λ output i2 e2 h3.
                    subst (Advances expected (λ n. expected * 4) p) (new_progress h3) (record {
                      more = omega arith;
                      bound = has_room_bound p.produced (control + 1) expected room;
                      size = alphas_size (control + 1) p.produced p.output output i1 i2 e2 ∙ size;
                    })
          | inr reference ↦
              step_ok (decode_reference control 2) _ i1 (rw reference at h1) λ found i2 e2 h2.
                require_ok (has_room p.produced found.length expected) _ _ i2 h2 λ room h3.
                  lift_ok (copy_reference image_id resolve_image p.produced found true p.output) _
                    i2 h3
                    λ output e3 h4.
                      let c : IsCopied found p.output output =
                        copy_reference-IsCopied image_id resolve_image p.produced found true
                          p.output output e3 in
                      let some_length : 0 < found.length = c.some_length in
                      subst (Advances expected (λ n. expected * 4) p) (new_progress h4) (record {
                        more = omega arith;
                        bound = has_room_bound p.produced found.length expected room;
                        size = c.same_size ∙ size;
                      })
        ]

  alpha_loop-size :
      (fuel : ℕ) (p : Progress) (input output rest : Bytes)
      → length p.output ≡ expected * 4
      → alpha_loop image_id resolve_image expected fuel p input ≡ ok (output, rest)
      → length output ≡ expected * 4
  unfolding alpha_loop
  alpha_loop-size zero p input output rest size h =
      ap (λ (q : Bytes × Bytes). length q.0) (sym (ok-injective h)) ∙ size
  alpha_loop-size (suc fuel) p input output rest size h =
      elim (Bool-cases (ltb p.produced expected)) [
        | inr all_done ↦
            let h' : ok (p.output, input) ≡ ok (output, rest) = rw all_done at h in
            ap (λ (q : Bytes × Bytes). length q.0) (sym (ok-injective h')) ∙ size
        | inl going ↦
            step_ok (alpha_round image_id resolve_image expected p) _ input (rw going at h)
              λ p' i1 e1 h1.
                let a = alpha_round-Advances p p' input i1 size e1 in
                alpha_loop-size fuel p' i1 output rest a.size h1
      ]

  -- Fuel for each expected pixel is enough: one more round changes nothing.
  alpha_loop_enough :
      (fuel : ℕ) (p : Progress) (input : Bytes)
      → length p.output ≡ expected * 4
      → expected ≤ p.produced + fuel
      → alpha_loop image_id resolve_image expected (suc fuel) p input
        ≡ alpha_loop image_id resolve_image expected fuel p input
  unfolding alpha_loop
  alpha_loop_enough zero p input size enough =
      let finished : ltb p.produced expected ≡ false = ground arith in rw finished refl
  alpha_loop_enough (suc fuel) p input size enough = elim (Bool-cases (ltb p.produced expected)) [
    | inr all_done ↦ rw all_done refl
    | inl going ↦ rw going (
        same_next (alpha_round image_id resolve_image expected p input) _ _ λ p' i1 e1.
          let a = alpha_round-Advances p p' input i1 size e1 in
          let more : p.produced < p'.produced = a.more in
          alpha_loop_enough fuel p' i1 a.size (omega arith))
  ]

  pub length-decode_streams :
      (image_type : LzImageType) (input output rest : Bytes)
      → decode_streams image_id resolve_image expected image_type input ≡ ok (output, rest)
      → length output ≡ expected * 4
  unfolding decode_streams decode_color_stream decode_alpha_stream
  length-decode_streams image_type input output rest h =
      step_ok (decode_color_stream image_id resolve_image expected (is_rgb16 image_type)) _ input h
        λ colors i1 e1 h1.
          let size : length colors ≡ expected * 4 =
            color_loop-size (is_rgb16 image_type) expected (progress 0 []) input colors i1
              (omega arith) (omega arith) (omega arith) e1 in
          elim (Bool-cases (is_rgba image_type)) [
            | inl both ↦
                alpha_loop-size expected (progress 0 colors) i1 output rest size (rw both at h1)
            | inr one ↦
                let h' : ok (colors, i1) ≡ ok (output, rest) = rw one at h1 in
                ap (λ (q : Bytes × Bytes). length q.0) (sym (ok-injective h')) ∙ size
          ]
