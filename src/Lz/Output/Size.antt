-- ===== src/Lz/Output/Size.antt =====
-- The sizes of expanded images.
use oxide_spice.Common.{
  ℕ, zero, suc, ◌+◌, ◌*◌, ◌≡◌, refl, sym, ap, ◌∙◌, Bool, true, false, [], ◌∷◌, if◌then◌else◌,
  length, length-replicate, replicate, take, drop,
}
use oxide_spice.Errors.{Result, ok, ok-injective, bind_ok}
use oxide_spice.Bytes.{Bytes}
use oxide_spice.Lz.{LzError}
use oxide_spice.Lz.Output.{
  overwrite, put, ImageGeometry, oriented_y, expand_columns, expand_rows, expand_pixels,
  orient_loop, orient_rows,
}

length-overwrite : (xs output : Bytes) → length (overwrite xs output) ≡ length output
unfolding overwrite
length-overwrite [] output = refl
length-overwrite (x ∷ xs) [] = refl
length-overwrite (x ∷ xs) (o ∷ output) = ap suc (length-overwrite xs output)

pub length-put : (start : ℕ) (xs output : Bytes) → length (put start xs output) ≡ length output
unfolding put
length-put zero xs output = length-overwrite xs output
length-put (suc start) xs [] = refl
length-put (suc start) xs (o ∷ output) = ap suc (length-put start xs output)

module _ (g : ImageGeometry) (pixel : ℕ → ℕ → Result LzError Bytes) where
  pub length-expand_columns :
      (n storage_y x : ℕ) (output output' : Bytes)
      → expand_columns g pixel n storage_y x output ≡ ok output'
      → length output' ≡ length output
  unfolding expand_columns
  length-expand_columns zero storage_y x output output' h = ap length (sym (ok-injective h))
  length-expand_columns (suc n) storage_y x output output' h =
      bind_ok (pixel storage_y x) _ h λ color e h1.
        length-expand_columns n storage_y (x + 1)
          (put ((oriented_y storage_y g.height g.top_down * g.width + x) * 4) color output) output'
          h1
        ∙ length-put ((oriented_y storage_y g.height g.top_down * g.width + x) * 4) color output

  length-expand_rows :
      (n storage_y : ℕ) (output output' : Bytes)
      → expand_rows g pixel n storage_y output ≡ ok output'
      → length output' ≡ length output
  unfolding expand_rows
  length-expand_rows zero storage_y output output' h = ap length (sym (ok-injective h))
  length-expand_rows (suc n) storage_y output output' h =
      bind_ok (expand_columns g pixel g.width storage_y 0 output) _ h λ row e h1.
        length-expand_rows n (storage_y + 1) row output' h1
        ∙ length-expand_columns g.width storage_y 0 output row e

  pub length-expand_pixels :
      (output : Bytes) → expand_pixels g pixel ≡ ok output → length output ≡ g.width * g.height * 4
  unfolding expand_pixels
  length-expand_pixels output h =
      length-expand_rows g.height 0 (replicate (g.width * g.height * 4) 0) output h
      ∙ length-replicate (g.width * g.height * 4) 0

length-orient_loop :
    (n storage_y width height : ℕ) (source output : Bytes)
    → length (orient_loop n storage_y width height source output) ≡ length output
unfolding orient_loop
length-orient_loop zero storage_y width height source output = refl
length-orient_loop (suc n) storage_y width height source output =
    let row : Bytes = take width (drop (storage_y * width) source) in
    let start : ℕ = oriented_y storage_y height false * width in
    length-orient_loop n (storage_y + 1) width height source (put start row output)
    ∙ length-put start row output

pub length-orient_rows :
    (source : Bytes) (g : ImageGeometry) → length (orient_rows source g) ≡ length source
unfolding orient_rows
length-orient_rows source g = by_direction g.top_down
  where
    by_direction :
        (top_down : Bool)
        → length (
            if top_down
            then source
            else orient_loop g.height 0 g.width g.height source (replicate (length source) 0))
          ≡ length source
    by_direction true = refl
    by_direction false =
        length-orient_loop g.height 0 g.width g.height source (replicate (length source) 0)
        ∙ length-replicate (length source) 0
