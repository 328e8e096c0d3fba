-- ===== src/Lz/Output/Writes.antt =====
-- One write into an image, and the place of a row.
use oxide_spice.Common.{
  ℕ, zero, suc, ◌+◌, ◌*◌, ◌≤◌, ◌<◌, ◌≡◌, ◌≢◌, refl, ap, subst, arith, Bool, true, false, inl, inr,
  Bool-cases, [], ◌∷◌, ltb, length, take, drop,
}
use oxide_spice.Bytes.{Bytes}
use oxide_spice.Lz.Stream.Size.{mul_le}
use oxide_spice.Lz.Stream.Copy.{unit_at}
use oxide_spice.Lz.Output.{overwrite, put, oriented_y}

overwrite-there :
    (xs output : Bytes) → length xs ≤ length output → take (length xs) (overwrite xs output) ≡ xs
unfolding overwrite
overwrite-there [] output h = refl
overwrite-there (x ∷ xs) [] h = absurd (omega arith)
overwrite-there (x ∷ xs) (o ∷ output) h = ap (λ q. x ∷ q) (overwrite-there xs output (omega arith))

overwrite-after :
    (m : ℕ) (xs output : Bytes) → length xs ≤ m → drop m (overwrite xs output) ≡ drop m output
unfolding overwrite
overwrite-after m [] output h = refl
overwrite-after zero (x ∷ xs) output h = absurd (omega arith)
overwrite-after (suc m) (x ∷ xs) [] h = refl
overwrite-after (suc m) (x ∷ xs) (o ∷ output) h = overwrite-after m xs output (omega arith)

put-there :
    (start : ℕ) (xs output : Bytes)
    → start + length xs ≤ length output
    → take (length xs) (drop start (put start xs output)) ≡ xs
unfolding put
put-there zero xs output h = overwrite-there xs output (omega arith)
put-there (suc start) xs [] h = absurd (omega arith)
put-there (suc start) xs (o ∷ output) h = put-there start xs output (omega arith)

put-before :
    (start m n : ℕ) (xs output : Bytes)
    → m + n ≤ start
    → take n (drop m (put start xs output)) ≡ take n (drop m output)
unfolding put
put-before start m zero xs output h = refl
put-before zero m (suc n) xs output h = absurd (omega arith)
put-before (suc start) m (suc n) xs [] h = refl
put-before (suc start) zero (suc n) xs (o ∷ output) h =
    ap (λ q. o ∷ q) (put-before start zero n xs output (omega arith))
put-before (suc start) (suc m) (suc n) xs (o ∷ output) h =
    put-before start m (suc n) xs output (omega arith)

put-after :
    (start m : ℕ) (xs output : Bytes)
    → start + length xs ≤ m
    → drop m (put start xs output) ≡ drop m output
unfolding put
put-after zero m xs output h = overwrite-after m xs output (omega arith)
put-after (suc start) m xs [] h = refl
put-after (suc start) zero xs (o ∷ output) h = absurd (omega arith)
put-after (suc start) (suc m) xs (o ∷ output) h = put-after start m xs output (omega arith)

module _ (width : ℕ) (xs : Bytes) (exact : length xs ≡ width) where
  -- A unit that is written is there.
  pub put-unit_at :
      (j : ℕ) (output : Bytes)
      → (j + 1) * width ≤ length output
      → unit_at width j (put (j * width) xs output) ≡ xs
  put-unit_at j output fits =
      subst (λ w. take w (drop (j * width) (put (j * width) xs output)) ≡ xs) exact
        (put-there (j * width) xs output (omega arith))

  -- The other units stay.
  pub put-other :
      (i j : ℕ) (output : Bytes)
      → i ≢ j
      → unit_at width i (put (j * width) xs output) ≡ unit_at width i output
  put-other i j output apart = elim (Bool-cases (ltb i j)) [
    | inl below ↦
        let le : (i + 1) * width ≤ j * width = mul_le (i + 1) j width (ground arith) in
        put-before (j * width) (i * width) width xs output (omega arith)
    | inr above ↦
        let le : (j + 1) * width ≤ i * width = mul_le (j + 1) i width (ground arith) in
        ap (take width) (put-after (j * width) (i * width) xs output (omega arith))
  ]

pub oriented_y-bound :
    (y height : ℕ) (top_down : Bool) → y < height → oriented_y y height top_down < height
unfolding oriented_y
oriented_y-bound y height true h = h
oriented_y-bound y height false h = omega arith

pub oriented_y-apart :
    (y y' height : ℕ) (top_down : Bool)
    → y < height
    → y' < height
    → y ≢ y'
    → oriented_y y height top_down ≢ oriented_y y' height top_down
unfolding oriented_y
oriented_y-apart y y' height true h h' apart = apart
oriented_y-apart y y' height false h h' apart = λ e. apart (omega arith)
