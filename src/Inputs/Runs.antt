-- ===== src/Inputs/Runs.antt =====
-- Lock flags, buttons, and a mode message.
use oxide_spice.Common.{◌≤◌, ◌<◌, ◌≡◌, ◌↔◌, refl, arith, some, [], ◌∷◌}
use oxide_spice.Errors.{ok, err, invalid_value, decode_error}
use oxide_spice.Bytes.{to_le}
use oxide_spice.Wire.{take, u16}
use oxide_spice.MouseMode
use oxide_spice.MouseMode.{client}
use oxide_spice.Inputs.{decode_modifiers, buttons_from_bits}
use oxide_spice.Inputs.Flags.{decode_modifiers_lem, buttons_from_bits_iff}

decode_modifiers_lem_example :
    ((6 < 8) → decode_modifiers (to_le 2 6) ≡ ok (record { bits = 6 }))
    × ((8 ≤ 6)
        → decode_modifiers (to_le 2 6)
          ≡ err (decode_error invalid_value 0 "keyboard modifier flags"))
decode_modifiers_lem_example = decode_modifiers_lem 6 (omega arith)

buttons_from_bits_iff_example : (buttons_from_bits 5 ≡ some (record { bits = 5 })) ↔ (5 < 128)
buttons_from_bits_iff_example = buttons_from_bits_iff 5 (omega arith)

client_mode :
    MouseMode.decode (3 ∷ 0 ∷ 2 ∷ 0 ∷ [])
    ≡ ok (record { supported_modes = 3; current_mode = client })
unfolding MouseMode.decode MouseMode.fields MouseMode.try_from take u16
client_mode = refl
