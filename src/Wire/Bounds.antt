-- ===== src/Wire/Bounds.antt =====
-- The checked cursor and the range checks at their bounds.
use oxide_spice.Common.{
  ℕ, zero, suc, ◌+◌, ◌-◌, ◌≤◌, ◌<◌, ◌≡◌, ◌⊎◌, inl, inr, refl, arith, some, List, [], ◌∷◌, String,
  length, drop, take_exact, get_range, get_range-drop, get_range-none, length-drop,
}
use native.Mathlib.Decide.{dec_le, dec_lt}
use mathlib.Core.Path.{◌∙◌}
use oxide_spice.Errors.{DecodeErrorKind, truncated, overflow, invalid_offset, decode_error, ok, err}
use oxide_spice.Bytes.{Bytes, usize_mod}
use oxide_spice.Wire.{Reader, take, slice, resolve_range}
use oxide_spice.Wire.Cursor.{advance}

-- The cursor has not passed the end of an input that fits the address space.
pub record IsValid (r : Reader) : Type 0 where
  pub within : r.offset ≤ length r.input
  pub fits : length r.input < usize_mod

take_exact_long {ℓ} :
    {A : Type ℓ} (n : ℕ) (xs : List A)
    → n ≤ length xs
    → (ys : List A) × (take_exact n xs ≡ some ys) × (length ys ≡ n)
take_exact_long zero xs h = ([], refl, refl)
take_exact_long (suc n) [] h = absurd (omega arith)
take_exact_long (suc n) (x ∷ xs) h =
    let (ys, e, l) = take_exact_long n xs (omega arith) in (x ∷ ys, ground arith, omega (arith, l))

pub get_range_long {ℓ} :
    {A : Type ℓ} (s n : ℕ) (xs : List A)
    → s + n ≤ length xs
    → (ys : List A) × (get_range s n xs ≡ some ys) × (length ys ≡ n)
get_range_long s n xs h =
    let (ys, e, l) = take_exact_long n (drop s xs) (omega (arith, length-drop s xs)) in
    (ys, get_range-drop s n xs (omega arith) ∙ e, l)

past :
    (r : Reader) (n : ℕ) (context : String)
    → length r.input < r.offset + n
    → (k : DecodeErrorKind) × (take n context r ≡ err (decode_error k r.offset context))
      × ((k ≡ truncated) ⊎ (k ≡ overflow))
unfolding take
past r n context h = elim (dec_lt (r.offset + n) usize_mod) [
  | yes fits ↦ (truncated, ground (arith, get_range-none r.offset n r.input h), inl refl)
  | no wide ↦ (overflow, ground arith, inr refl)
]

-- On a valid reader `take` succeeds exactly when that many bytes are left. It then returns the bytes
-- from the offset on, moves the offset by their number and stays valid; else it fails at the offset.
pub take_bounds :
    (r : Reader) (n : ℕ) (context : String)
    → IsValid r
    → ((r.offset + n ≤ length r.input)
        × ((xs : Bytes) × (take n context r ≡ ok (xs, advance n r))
            × (get_range r.offset n r.input ≡ some xs)
            × (length xs ≡ n)
            × IsValid (advance n r)))
      ⊎ ((length r.input < r.offset + n)
          × ((k : DecodeErrorKind) × (take n context r ≡ err (decode_error k r.offset context))
              × ((k ≡ truncated) ⊎ (k ≡ overflow))))
unfolding take advance
take_bounds r n context v = elim (dec_le (r.offset + n) (length r.input)) [
  | yes h ↦
      let (ys, e, l) = get_range_long r.offset n r.input h in
      inl (h, (ys, ground (arith, v.fits), e, l, omega (arith, v.fits)))
  | no h ↦ inr (omega arith, past r n context (omega arith))
]

pub slice-get_range :
    (start n : ℕ) (body : Bytes) {xs : Bytes}
    → get_range start n body ≡ some xs
    → slice body (record { start = start; end = start + n }) ≡ xs
unfolding slice
slice-get_range start n body e =
    let same : start + n - start ≡ n = omega arith in rw (same, slice) (rw (e, slice) refl)

outside :
    (body : Bytes) (start n : ℕ) (context : String)
    → length body < start + n
    → (k : DecodeErrorKind) × (resolve_range body start n context
        ≡ err (decode_error k start context))
      × ((k ≡ invalid_offset) ⊎ (k ≡ overflow))
unfolding resolve_range
outside body start n context h = elim (dec_lt (start + n) usize_mod) [
  | yes fits ↦ (invalid_offset, ground arith, inl refl)
  | no wide ↦ (overflow, ground arith, inr refl)
]

-- `resolve_range` accepts a range exactly when it ends in the body, and what it accepts can be cut.
pub resolve_range_bounds :
    (body : Bytes) (start n : ℕ) (context : String)
    → length body < usize_mod
    → ((start + n ≤ length body)
        × (resolve_range body start n context ≡ ok (record { start = start; end = start + n }))
        × (get_range start n body ≡ some (slice body (record { start = start; end = start + n })))
        × (length (slice body (record { start = start; end = start + n })) ≡ n))
      ⊎ ((length body < start + n)
          × ((k : DecodeErrorKind) × (resolve_range body start n context
                ≡ err (decode_error k start context))
              × ((k ≡ invalid_offset) ⊎ (k ≡ overflow))))
unfolding resolve_range
resolve_range_bounds body start n context fits = elim (dec_le (start + n) (length body)) [
  | yes h ↦
      let (ys, e, l) = get_range_long start n body h in
      let cut = slice-get_range start n body e in inl (h, ground arith, rw cut e, rw cut l)
  | no h ↦ inr (omega arith, outside body start n context (omega arith))
]
