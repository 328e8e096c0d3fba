-- ===== src/Messages/InputsClient.antt =====
-- crates/oxide-spice-protocol/src/inputs.rs: `inputs_client`.
use oxide_spice.Common.{ℕ}

abbrev pub key_down : ℕ
key_down = 101

abbrev pub key_up : ℕ
key_up = 102

abbrev pub key_modifiers : ℕ
key_modifiers = 103

abbrev pub key_scancode : ℕ
key_scancode = 104

abbrev pub mouse_motion : ℕ
mouse_motion = 111

abbrev pub mouse_position : ℕ
mouse_position = 112

abbrev pub mouse_press : ℕ
mouse_press = 113

abbrev pub mouse_release : ℕ
mouse_release = 114
