-- ===== src/Lz/Stream/Runs.antt =====
-- The payload of the source's first test, a far reference, and its errors.
use oxide_spice.Common.{ℕ, ◌-◌, ◌*◌, ◌≤◌, ◌<◌, ◌≡◌, refl, arith, List, [], ◌∷◌, ◌++◌, length}
use oxide_spice.Errors.{ok, err}
use oxide_spice.Bytes.{Bytes}
use oxide_spice.Lz.{lz_error, bytes, invalid_back_reference, output_overflow}
use oxide_spice.Lz.Stream.{
  has_room, extend_length, read_match_units, read_distance, read_far_distance, copy_units,
  read_literal, read_match, read_units, decompress_loop, decompress_units,
}
use oxide_spice.Lz.Stream.Size.{length-decompress_units}
use oxide_spice.Lz.Stream.Tokens.{Token, literal, reference, encode_all, expand_all}
use oxide_spice.Lz.Stream.RoundTrip.{decompress_units-encode_all}
use oxide_spice.Lz.Stream.Copy.{unit_at, copy_units-unit_at}

overlap_run :
    decompress_units 4 3 1 (0 ∷ 1 ∷ 2 ∷ 3 ∷ 96 ∷ 0 ∷ [])
    ≡ ok (1 ∷ 2 ∷ 3 ∷ 1 ∷ 2 ∷ 3 ∷ 1 ∷ 2 ∷ 3 ∷ 1 ∷ 2 ∷ 3 ∷ [], [])
unfolding decompress_units decompress_loop read_units read_literal read_match read_match_units
    read_distance read_far_distance extend_length copy_units has_room bytes
overlap_run = refl

before_start_run :
    decompress_units 4 1 1 (0 ∷ 7 ∷ 96 ∷ 1 ∷ []) ≡ err (lz_error invalid_back_reference "distance")
unfolding decompress_units decompress_loop read_units read_literal read_match read_match_units
    read_distance read_far_distance extend_length copy_units has_room bytes
before_start_run = refl

too_long_run :
    decompress_units 2 1 1 (0 ∷ 7 ∷ 96 ∷ 0 ∷ []) ≡ err (lz_error output_overflow "stream units")
unfolding decompress_units decompress_loop read_units read_literal read_match read_match_units
    read_distance read_far_distance extend_length copy_units has_room bytes
too_long_run = refl

abbrev four_units : Bytes
four_units = 1 ∷ 2 ∷ 3 ∷ 1 ∷ 2 ∷ 3 ∷ 1 ∷ 2 ∷ 3 ∷ 1 ∷ 2 ∷ 3 ∷ []

length-decompress_units_example : length four_units ≡ 4 * 3
length-decompress_units_example =
    length-decompress_units 4 3 1 (0 ∷ 1 ∷ 2 ∷ 3 ∷ 96 ∷ 0 ∷ []) four_units [] (omega arith)
      overlap_run

abbrev tokens : List Token
tokens = literal 1 (1 ∷ 2 ∷ 3 ∷ []) ∷ reference 1 9 ∷ []

decompress_units-encode_all_example :
    decompress_units 10 3 1 (encode_all 1 tokens ++ (77 ∷ []))
    ≡ ok (expand_all 3 tokens [], 77 ∷ [])
decompress_units-encode_all_example =
    decompress_units-encode_all 10 3 1 tokens (77 ∷ []) (omega arith) (omega arith) (
      (omega arith, omega arith, refl),
      ((omega arith, omega arith, omega arith, omega arith, omega arith), refl),
    )

copy_units-unit_at_example :
    ((i : ℕ) → i < 1 → unit_at 2 i (copy_units 3 1 2 1 (5 ∷ 6 ∷ [])) ≡ unit_at 2 i (5 ∷ 6 ∷ []))
    × ((i : ℕ)
        → 1 ≤ i
        → i < 4
        → unit_at 2 i (copy_units 3 1 2 1 (5 ∷ 6 ∷ []))
          ≡ unit_at 2 (i - 1) (copy_units 3 1 2 1 (5 ∷ 6 ∷ [])))
copy_units-unit_at_example =
    copy_units-unit_at 3 1 2 1 (5 ∷ 6 ∷ []) (omega arith) (omega arith) refl
