-- ===== src/Lz/Stream.antt =====
-- crates/oxide-spice-codecs/src/lz.rs: `decompress_units`, which expands one compressed stream of
-- literals and back-references.
pub mod Size
pub mod Tokens
pub mod RoundTrip
pub mod Copy
mod Runs
use oxide_spice.Common.{
  ℕ, zero, suc, ◌+◌, ◌-◌, ◌*◌, ◌/◌, ◌%◌, ◌^◌, Bool, not, ◌&&◌, ◌||◌, Option, none, some, List, [],
  ◌∷◌, ◌++◌, ◌==◌, ltb, leb, if◌then◌else◌, length, take, drop,
}
use oxide_spice.Errors.{Result, ok, err}
use oxide_spice.Bytes.{Bytes, checked_add, checked_mul}
use oxide_spice.Lz.{
  LzError, lz_error, truncated, invalid_back_reference, output_overflow, resource_limit, Decoder,
  pure, require, or_fail, u8, bytes, ◌>>=◌, ◌>>◌,
}

abbrev pub literal_control_limit : ℕ
literal_control_limit = 32

abbrev pub extended_length_marker : ℕ
extended_length_marker = 6

abbrev pub near_distance_prefix : ℕ
near_distance_prefix = 31 * 256

abbrev pub near_distance_max : ℕ
near_distance_max = 8191

abbrev pub max_window_units : ℕ
max_window_units = 2 ^ 25

-- `is_none_or(|total| total > expected)` on `produced.checked_add(additional)`.
unfoldable pub has_room : ℕ → ℕ → ℕ → Bool
has_room produced additional expected = elim (checked_add produced additional) [
  | none ↦ Bool.false
  | some total ↦ leb total expected
]

abbrev pub ensure_output_room : ℕ → ℕ → ℕ → Decoder (Unit {0})
ensure_output_room produced additional expected =
    require (has_room produced additional expected) (lz_error output_overflow "stream units")

-- The loop over the extension bytes of a match length, which ends at the first byte that is not 255.
unfoldable pub extend_length : ℕ → Decoder ℕ
extend_length match_units [] = err (lz_error truncated "match length extension")
extend_length match_units (extension ∷ input) =
    let more = extend_length (match_units + extension) input in
    elim (checked_add match_units extension) [
      | none ↦ err (lz_error output_overflow "match length")
      | some total ↦ if extension == 255 then more else ok (total, input)
    ]

unfoldable pub read_match_units : ℕ → Decoder ℕ
read_match_units control =
    if control / 32 - 1 == extended_length_marker
    then extend_length (control / 32 - 1)
    else pure (control / 32 - 1)

unfoldable pub read_far_distance : Decoder ℕ
read_far_distance = do
  far_high ← u8 "far match distance"
  far_low ← u8 "far match distance"
  value ←
      or_fail (checked_add (far_high * 256) far_low) (lz_error invalid_back_reference "distance")
  or_fail (checked_add value near_distance_max) (lz_error invalid_back_reference "distance")

-- The distance, less one.
unfoldable pub read_distance : ℕ → Decoder ℕ
unfolding read_far_distance
read_distance distance_prefix = do
  distance_low ← u8 "match distance"
  if distance_low == 255 && distance_prefix == near_distance_prefix
      then read_far_distance
      else pure (distance_prefix + distance_low)

-- The copying loop: each unit is taken from the output as it is by then.
unfoldable pub copy_units : ℕ → ℕ → ℕ → ℕ → Bytes → Bytes
copy_units zero distance unit_bytes produced output = output
copy_units (suc n) distance unit_bytes produced output =
    let source_start = (produced - distance) * unit_bytes in
    copy_units n distance unit_bytes (produced + 1)
      (output ++ take unit_bytes (drop source_start output))

pub record Progress : Type 0 where
  pub produced_units : ℕ
  pub output : Bytes

abbrev pub progress : ℕ → Bytes → Progress
progress produced_units output = record { produced_units = produced_units; output = output }

module _ (expected_units unit_bytes match_bias : ℕ) where
  unfoldable pub read_literal : ℕ → Progress → Decoder Progress
  unfolding bytes
  read_literal control p = do
    ensure_output_room p.produced_units (control + 1) expected_units
    literal_bytes ←
        or_fail (checked_mul (control + 1) unit_bytes) (lz_error output_overflow "literal bytes")
    read ← bytes literal_bytes "literal bytes"
    pure (progress (p.produced_units + (control + 1)) (p.output ++ read))

  unfoldable pub read_match : ℕ → Progress → Decoder Progress
  unfolding read_match_units read_distance
  read_match control p = do
    encoded_units ← read_match_units control
    encoded_distance ← read_distance (control % 32 * 256)
    distance ← or_fail (checked_add encoded_distance 1) (lz_error invalid_back_reference "distance")
    match_units ←
        or_fail (checked_add encoded_units match_bias) (lz_error output_overflow "match length")
    require (not (distance == 0 || ltb p.produced_units distance || ltb max_window_units distance))
        (lz_error invalid_back_reference "distance")
    ensure_output_room p.produced_units match_units expected_units
    pure (
        progress (p.produced_units + match_units)
          (copy_units match_units distance unit_bytes p.produced_units p.output))

  -- One round of the loop.
  unfoldable pub read_units : Progress → Decoder Progress
  unfolding read_literal read_match
  read_units p = do
    control ← u8 "control byte"
    if ltb control literal_control_limit then read_literal control p else read_match control p

  -- The loop, with fuel for its rounds. Each round reads a byte and fails at the end of the input, so
  -- more rounds than the input has bytes are enough; and those that produce a unit need no more than
  -- the units expected.
  unfoldable pub decompress_loop : ℕ → Progress → Decoder Bytes
  decompress_loop zero p = pure p.output
  decompress_loop (suc fuel) p =
      if ltb p.produced_units expected_units
      then (do p' ← read_units p; decompress_loop fuel p')
      else pure p.output

  unfoldable pub decompress_units : Decoder Bytes
  decompress_units input =
      (or_fail (checked_mul expected_units unit_bytes) (lz_error resource_limit "stream output")
          >>= λ _. decompress_loop (expected_units + length input) (progress 0 []))
        input
