-- ===== src/Lz/Output/Position.antt =====
-- Where the pixels of an expanded image stand.
use oxide_spice.Common.{
  ℕ, zero, suc, ◌+◌, ◌*◌, ◌≤◌, ◌<◌, ◌≡◌, ◌≢◌, sym, ap, ◌∙◌, arith, inl, inr, true, false,
  Bool-cases, ◌⊎◌, ◌==◌, ltb, length, replicate, length-replicate,
}
use oxide_spice.Errors.{Result, ok, ok-injective, bind_ok}
use oxide_spice.Bytes.{Bytes}
use oxide_spice.Lz.{LzError}
use oxide_spice.Lz.Stream.Size.{mul_le}
use oxide_spice.Lz.Stream.Copy.{unit_at}
use oxide_spice.Lz.Output.{
  put, oriented_y, ImageGeometry, expand_columns, expand_rows, expand_pixels,
}
use oxide_spice.Lz.Output.Size.{length-put, length-expand_columns}
use oxide_spice.Lz.Output.Writes.{put-unit_at, put-other, oriented_y-bound, oriented_y-apart}

-- Two cells of different rows are different.
rows_apart :
    (width r r' x x' : ℕ) → r ≢ r' → x < width → x' < width → r * width + x ≢ r' * width + x'
rows_apart width r r' x x' apart inside inside' = elim (Bool-cases (ltb r r')) [
  | inl below ↦
      let le : (r + 1) * width ≤ r' * width = mul_le (r + 1) r' width (ground arith) in
      λ e. omega arith
  | inr above ↦
      let le : (r' + 1) * width ≤ r * width = mul_le (r' + 1) r width (ground arith) in
      λ e. omega arith
]

module _ (g : ImageGeometry) (pixel : ℕ → ℕ → Result LzError Bytes)
    (four : (y x : ℕ) (color : Bytes) → pixel y x ≡ ok color → length color ≡ 4) where
  abbrev cell : ℕ → ℕ → ℕ
  cell y x = oriented_y y g.height g.top_down * g.width + x

  -- A cell of the image is inside the output.
  cell_fits :
      (y x : ℕ) (output : Bytes)
      → y < g.height
      → x < g.width
      → length output ≡ g.width * g.height * 4
      → (cell y x + 1) * 4 ≤ length output
  cell_fits y x output row column size =
      let below : oriented_y y g.height g.top_down < g.height =
        oriented_y-bound y g.height g.top_down row in
      let le : (oriented_y y g.height g.top_down + 1) * g.width ≤ g.height * g.width =
        mul_le (oriented_y y g.height g.top_down + 1) g.height g.width (omega arith) in
      omega arith

  columns-other :
      (n y x : ℕ) (output output' : Bytes) (i : ℕ)
      → expand_columns g pixel n y x output ≡ ok output'
      → ((x' : ℕ) → x ≤ x' → x' < x + n → i ≢ cell y x')
      → unit_at 4 i output' ≡ unit_at 4 i output
  unfolding expand_columns
  columns-other zero y x output output' i h apart = ap (unit_at 4 i) (sym (ok-injective h))
  columns-other (suc n) y x output output' i h apart = bind_ok (pixel y x) _ h λ color e h1.
      columns-other n y (x + 1) (put (cell y x * 4) color output) output' i h1
        (λ x' from to. apart x' (omega arith) (omega arith))
      ∙ put-other 4 color (four y x color e) i (cell y x) output
          (apart x (omega arith) (omega arith))

  columns-there :
      (n y x : ℕ) (output output' : Bytes) (x' : ℕ) (color : Bytes)
      → y < g.height
      → x + n ≤ g.width
      → length output ≡ g.width * g.height * 4
      → expand_columns g pixel n y x output ≡ ok output'
      → x ≤ x'
      → x' < x + n
      → pixel y x' ≡ ok color
      → unit_at 4 (cell y x') output' ≡ color
  unfolding expand_columns
  columns-there zero y x output output' x' color row fits size h from to read = absurd (omega arith)
  columns-there (suc n) y x output output' x' color row fits size h from to read =
      bind_ok (pixel y x) _ h λ first e h1.
        let written : Bytes = put (cell y x * 4) first output in
        elim (Bool-cases (x' == x)) [
          | inl here ↦
              let same : x' ≡ x = ground arith in
              let color_same : first ≡ color =
                ok-injective (sym e ∙ ap (pixel y) (sym same) ∙ read) in
              rw same (
                columns-other n y (x + 1) written output' (cell y x) h1
                  (λ x'' lo hi same'. omega arith)
                ∙ put-unit_at 4 first (four y x first e) (cell y x) output
                    (cell_fits y x output row (omega arith) size)
                ∙ color_same)
          | inr later ↦
              columns-there n y (x + 1) written output' x' color row (omega arith)
                (length-put (cell y x * 4) first output ∙ size) h1 (ground arith) (omega arith) read
        ]

  rows-other :
      (n y : ℕ) (output output' : Bytes) (i : ℕ)
      → expand_rows g pixel n y output ≡ ok output'
      → ((y' x : ℕ) → y ≤ y' → y' < y + n → x < g.width → i ≢ cell y' x)
      → unit_at 4 i output' ≡ unit_at 4 i output
  unfolding expand_rows
  rows-other zero y output output' i h apart = ap (unit_at 4 i) (sym (ok-injective h))
  rows-other (suc n) y output output' i h apart =
      bind_ok (expand_columns g pixel g.width y 0 output) _ h λ row e h1.
        rows-other n (y + 1) row output' i h1
          (λ y' x lo hi column. apart y' x (omega arith) (omega arith) column)
        ∙ columns-other g.width y 0 output row i e
            (λ x lo hi. apart y x (omega arith) (omega arith) (omega arith))

  rows-there :
      (n y : ℕ) (output output' : Bytes) (y' x : ℕ) (color : Bytes)
      → y + n ≤ g.height
      → length output ≡ g.width * g.height * 4
      → expand_rows g pixel n y output ≡ ok output'
      → y ≤ y'
      → y' < y + n
      → x < g.width
      → pixel y' x ≡ ok color
      → unit_at 4 (cell y' x) output' ≡ color
  unfolding expand_rows
  rows-there zero y output output' y' x color fits size h from to column read = absurd (omega arith)
  rows-there (suc n) y output output' y' x color fits size h from to column read =
      bind_ok (expand_columns g pixel g.width y 0 output) _ h λ row e h1.
        elim (Bool-cases (y' == y)) [
          | inl here ↦
              let same : y' ≡ y = ground arith in
              rw same (
                rows-other n (y + 1) row output' (cell y x) h1 (λ y'' x'' lo hi inside.
                  rows_apart g.width _ _ x x''
                    (oriented_y-apart y y'' g.height g.top_down (omega arith) (omega arith)
                      (λ e'. omega arith))
                    column inside)
                ∙ columns-there g.width y 0 output row x color (omega arith) (omega arith) size e
                    (omega arith) (omega arith) (ap (λ k. pixel k x) (sym same) ∙ read))
          | inr later ↦
              rows-there n (y + 1) row output' y' x color (omega arith)
                (length-expand_columns g pixel g.width y 0 output row e ∙ size) h1 (ground arith)
                (omega arith) column read
        ]

  pixels-there :
      (output : Bytes) (y x : ℕ) (color : Bytes)
      → expand_pixels g pixel ≡ ok output
      → y < g.height
      → x < g.width
      → pixel y x ≡ ok color
      → unit_at 4 (cell y x) output ≡ color
  unfolding expand_pixels
  pixels-there output y x color h row column read =
      rows-there g.height 0 (replicate (g.width * g.height * 4) 0) output y x color (omega arith)
        (length-replicate (g.width * g.height * 4) 0) h (omega arith) (omega arith) column read

  row_eq :
      (y r : ℕ)
      → ((g.top_down ≡ true) × (r ≡ y)) ⊎ ((g.top_down ≡ false) × (r + y + 1 ≡ g.height))
      → oriented_y y g.height g.top_down ≡ r
  unfolding oriented_y
  row_eq y r (inl (down, same)) = rw down (sym same)
  row_eq y r (inr (up, same)) = rw up (omega arith)

  -- When every color that can be read has four bytes, each pixel of an expanded image is the
  -- color that was read for it, in its column of the row `r` that the orientation gives it: the
  -- row that was read when the image is stored from the top down, and otherwise the row with as
  -- many rows below it as the row that was read has above it.
  pub expand_pixels-unit_at :
      (output : Bytes) (y x r : ℕ) (color : Bytes)
      → expand_pixels g pixel ≡ ok output
      → y < g.height
      → x < g.width
      → pixel y x ≡ ok color
      → ((g.top_down ≡ true) × (r ≡ y)) ⊎ ((g.top_down ≡ false) × (r + y + 1 ≡ g.height))
      → unit_at 4 (r * g.width + x) output ≡ color
  expand_pixels-unit_at output y x r color h row column read place =
      ap (λ (k : ℕ). unit_at 4 (k * g.width + x) output) (sym (row_eq y r place))
      ∙ pixels-there output y x color h row column read
