-- ===== src/Client/Inputs/Keys.antt =====
-- The bytes of a key press or release.
use oxide_spice.Common.{
  ℕ, ◌+◌, ◌*◌, ◌/◌, ◌%◌, ◌<◌, ◌≡◌, arith, Bool, true, false, bit_and, bit_or, [], ◌∷◌, ◌==◌,
  if◌then◌else◌,
}
use oxide_spice.Common.Bits.{bit, bit_or-zero, bit_or-pow_sum, bit_and-ones, bit_and-shifted}
use oxide_spice.Client.Inputs.{encode_key_edge}

-- The make code with the release bit, when it is to be set and is clear.
bit-seven : (high low : ℕ) → low < 128 → bit 7 (high * 256 + low) ≡ 0
unfolding bit
bit-seven high low h = omega arith

set_release : (high low : ℕ) → low < 128 → bit_or (high * 256 + low) 128 ≡ high * 256 + (low + 128)
set_release high low h = omega (arith, bit_or-pow_sum 7 (high * 256 + low), bit-seven high low h)

high_byte : (code : ℕ) → bit_and code 65280 ≡ code / 256 % 256 * 256
high_byte code = omega (arith, bit_and-shifted 8 255 code, bit_and-ones 8 (code / 256))

-- For a make code below 2 ^ 16 whose bit seven is clear, an extended code goes out as its prefix and
-- then the key byte, any other as the number itself, least significant byte first. A release adds
-- 128 to the key byte.
pub encode_key_edge_lem :
    (high low : ℕ) (released : Bool)
    → high < 256
    → low < 128
    → encode_key_edge (high * 256 + low) released ≡ (
        if high == 224
        then 224 ∷ (low + (if released then 128 else 0)) ∷ 0 ∷ 0 ∷ []
        else (low + (if released then 128 else 0)) ∷ high ∷ 0 ∷ 0 ∷ [])
unfolding encode_key_edge
encode_key_edge_lem high low true hh hl =
    rw (set_release high low hl, high_byte (high * 256 + (low + 128))) (ground arith)
encode_key_edge_lem high low false hh hl =
    rw (bit_or-zero (high * 256 + low), high_byte (high * 256 + low)) (ground arith)
