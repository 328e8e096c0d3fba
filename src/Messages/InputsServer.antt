-- ===== src/Messages/InputsServer.antt =====
-- crates/oxide-spice-protocol/src/inputs.rs: `inputs_server`.
use oxide_spice.Common.{ℕ}

abbrev pub init : ℕ
init = 101

abbrev pub key_modifiers : ℕ
key_modifiers = 102

abbrev pub mouse_motion_ack : ℕ
mouse_motion_ack = 111
