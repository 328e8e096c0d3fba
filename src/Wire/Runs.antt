-- ===== src/Wire/Runs.antt =====
-- Reads from three bytes.
use oxide_spice.Common.{◌+◌, ◌≤◌, ◌<◌, ◌≡◌, ◌⊎◌, arith, some, [], ◌∷◌, length, get_range}
use oxide_spice.Errors.{DecodeErrorKind, truncated, overflow, invalid_offset, ok, err, decode_error}
use oxide_spice.Bytes.{Bytes}
use oxide_spice.Wire.{take, new, slice, resolve_range}
use oxide_spice.Wire.Cursor.{advance}
use oxide_spice.Wire.Bounds.{IsValid, take_bounds, resolve_range_bounds}

abbrev three_bytes : Bytes
three_bytes = 1 ∷ 2 ∷ 3 ∷ []

take_bounds_example :
    ((0 + 2 ≤ 3)
      × ((xs : Bytes) × (take 2 "pair" (new three_bytes) ≡ ok (xs, advance 2 (new three_bytes)))
          × (get_range 0 2 three_bytes ≡ some xs)
          × (length xs ≡ 2)
          × IsValid (advance 2 (new three_bytes))))
    ⊎ ((3 < 0 + 2)
        × ((k : DecodeErrorKind) × (take 2 "pair" (new three_bytes) ≡ err (decode_error k 0 "pair"))
            × ((k ≡ truncated) ⊎ (k ≡ overflow))))
take_bounds_example =
    take_bounds (new three_bytes) 2 "pair" (record { within = omega arith; fits = omega arith })

resolve_range_bounds_example :
    ((1 + 2 ≤ 3)
      × (resolve_range three_bytes 1 2 "tail" ≡ ok (record { start = 1; end = 1 + 2 }))
      × (get_range 1 2 three_bytes ≡ some (slice three_bytes (record { start = 1; end = 1 + 2 })))
      × (length (slice three_bytes (record { start = 1; end = 1 + 2 })) ≡ 2))
    ⊎ ((3 < 1 + 2)
        × ((k : DecodeErrorKind) × (resolve_range three_bytes 1 2 "tail"
              ≡ err (decode_error k 1 "tail"))
            × ((k ≡ invalid_offset) ⊎ (k ≡ overflow))))
resolve_range_bounds_example = resolve_range_bounds three_bytes 1 2 "tail" (omega arith)
