-- ===== src/Inputs.antt =====
-- crates/oxide-spice-protocol/src/inputs.rs: lock flags, button flags and the bodies of the input
-- messages.
pub mod Flags
mod Runs
use oxide_spice.Common.{
  ℕ, ◌-◌, ◌^◌, Bool, not, bit_and, bit_or, Option, none, some, List, [], ◌∷◌, ◌++◌, ◌==◌, ltb,
  if◌then◌else◌, length,
}
use oxide_spice.Errors.{truncated, invalid_value, DecodeError, decode_error, Result, ok, err, ◌>>=◌}
use oxide_spice.Bytes.{Bytes, to_le, ℤ, pattern_of}
use oxide_spice.Wire.{u16, parse}
use oxide_spice.MouseMode.{not_u16}

abbrev pub input_motion_ack_bunch : ℕ
input_motion_ack_bunch = 4

-- The set of lock flags, in its wire form.
pub record KeyboardModifiers : Type 0 where
  pub bits : ℕ

abbrev pub no_modifiers : KeyboardModifiers
no_modifiers = record { bits = 0 }

-- `SCROLL_LOCK | NUM_LOCK | CAPS_LOCK`.
abbrev pub known_modifiers : ℕ
known_modifiers = bit_or (bit_or (2 ^ 0) (2 ^ 1)) (2 ^ 2)

pub modifiers_from_bits : ℕ → Result DecodeError KeyboardModifiers
modifiers_from_bits bits =
    if not (bit_and bits (not_u16 known_modifiers) == 0)
    then err (decode_error invalid_value 0 "keyboard modifier flags")
    else ok (record { bits = bits })

fixed_size_error : ℕ → ℕ → DecodeError
fixed_size_error actual expected =
    decode_error (if ltb actual expected then truncated else invalid_value) actual
      "keyboard modifiers"

-- `KeyboardModifiers::decode`.
pub decode_modifiers : Bytes → Result DecodeError KeyboardModifiers
unfolding fixed_size_error
decode_modifiers body =
    if not (length body == 2)
    then err (fixed_size_error (length body) 2)
    else (do bits ← parse (u16 "keyboard modifiers") body; modifiers_from_bits bits)

-- The set of pressed buttons, in its wire form.
pub record MouseButtons : Type 0 where
  pub bits : ℕ

abbrev pub known_buttons : ℕ
known_buttons = 2 ^ 7 - 1

pub buttons_from_bits : ℕ → Option MouseButtons
buttons_from_bits bits =
    if bit_and bits (not_u16 known_buttons) == 0 then some (record { bits = bits }) else none

pub data MouseButton : Type 0 where
  left middle right wheel_up wheel_down side extra : MouseButton

abbrev pub button_code : MouseButton → ℕ
button_code left = 1
button_code middle = 2
button_code right = 3
button_code wheel_up = 4
button_code wheel_down = 5
button_code side = 6
button_code extra = 7

abbrev pub encode_key_code : ℕ → Bytes
encode_key_code code = to_le 4 code

unfoldable pub encode_mouse_position : ℕ → ℕ → MouseButtons → ℕ → Bytes
encode_mouse_position x y buttons display_id =
    to_le 4 x ++ (to_le 4 y ++ (to_le 2 buttons.bits ++ (display_id ∷ [])))

unfoldable pub encode_mouse_motion : ℤ → ℤ → MouseButtons → Bytes
encode_mouse_motion dx dy buttons =
    to_le 4 (pattern_of 32 dx) ++ (to_le 4 (pattern_of 32 dy) ++ to_le 2 buttons.bits)

unfoldable pub encode_mouse_button : MouseButton → MouseButtons → Bytes
encode_mouse_button button buttons = button_code button ∷ to_le 2 buttons.bits
