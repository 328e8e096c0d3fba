-- ===== src/Inputs/Flags.antt =====
-- The flag sets that are accepted.
use oxide_spice.Common.{ℕ, ◌-◌, ◌*◌, ◌/◌, ◌^◌, ◌<◌, ◌≤◌, ◌≡◌, ◌↔◌, arith, bit_and, some}
use oxide_spice.Common.Bits.{bit_and-ones, bit_and-shifted}
use oxide_spice.Errors.{ok, err, invalid_value, decode_error}
use oxide_spice.Bytes.{IsU16, to_le, from_le-to_le_16}
use oxide_spice.Wire.{u16, take, parse}
use oxide_spice.MouseMode.{not_u16}
use oxide_spice.Inputs.{
  known_modifiers, known_buttons, modifiers_from_bits, decode_modifiers, buttons_from_bits,
}

modifier_mask : (bits : ℕ) → IsU16 bits → bit_and bits (not_u16 known_modifiers) ≡ bits / 8 * 8
modifier_mask bits h =
    omega (arith, bit_and-shifted 3 (2 ^ 13 - 1) bits, bit_and-ones 13 (bits / 8))

button_mask : (bits : ℕ) → IsU16 bits → bit_and bits (not_u16 known_buttons) ≡ bits / 128 * 128
button_mask bits h = omega (arith, bit_and-shifted 7 (2 ^ 9 - 1) bits, bit_and-ones 9 (bits / 128))

read_back : (bits : ℕ) → IsU16 bits → parse (u16 "keyboard modifiers") (to_le 2 bits) ≡ ok bits
unfolding u16 take
read_back bits h = ground (arith, from_le-to_le_16 bits h)

-- A two-byte body is accepted as lock flags exactly when no bit but the three lowest is set, and the
-- flags are what was sent.
pub decode_modifiers_lem :
    (bits : ℕ)
    → IsU16 bits
    → ((bits < 8) → decode_modifiers (to_le 2 bits) ≡ ok (record { bits = bits }))
      × ((8 ≤ bits)
          → decode_modifiers (to_le 2 bits)
            ≡ err (decode_error invalid_value 0 "keyboard modifier flags"))
unfolding decode_modifiers modifiers_from_bits
decode_modifiers_lem bits h =
    let mask = modifier_mask bits h in
    (
      λ small. rw (read_back bits h) (ground (arith, mask)),
      λ large. rw (read_back bits h) (ground (arith, mask)),
    )

-- A button state is valid exactly when its bits are below bit seven.
pub buttons_from_bits_iff :
    (bits : ℕ)
    → IsU16 bits
    → (buttons_from_bits bits ≡ some (record { bits = bits })) ↔ (bits < 128)
unfolding buttons_from_bits
buttons_from_bits_iff bits h =
    let mask = button_mask bits h in (λ e. ground (arith, mask), λ small. ground (arith, mask))
