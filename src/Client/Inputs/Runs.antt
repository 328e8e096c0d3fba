-- ===== src/Client/Inputs/Runs.antt =====
-- A mouse that moves and a key that is released.
use oxide_spice.Common.{
  ℕ, ◌+◌, ◌*◌, ◌≡◌, refl, arith, true, false, ◌==◌, some, List, [], ◌∷◌, ◌++◌, if◌then◌else◌,
}
use oxide_spice.Errors.{ok, err}
use oxide_spice.Bytes.{Bytes, ℤ, pos, negsuc}
use oxide_spice.MouseMode.{server}
use oxide_spice.Inputs.{MouseButtons, left}
use oxide_spice.Channel.Header
use oxide_spice.Channel.Header.{mini}
use oxide_spice.Client.Transport.{Channel, WriteAll}
use oxide_spice.Client.Inputs.{
  InputPaths, button_press, input_paths, coalesce, store_motion, accumulate, move_pointer, is_zero,
  relative_motion_overflow, encode_key_edge,
}
use oxide_spice.Client.Inputs.Task.{InputsTask}
use oxide_spice.Client.Inputs.Coalesce.{Move, Moved, rest, move, sum_x, sum_y, pending-sum}
use oxide_spice.Client.Inputs.Keys.{encode_key_edge_lem}

abbrev no_buttons : MouseButtons
no_buttons = record { bits = 0 }

abbrev server_paths : InputPaths
server_paths = input_paths false server

abbrev moving : ℤ → ℤ → InputPaths
moving dx dy = record server_paths {
  relative_motion = some (record { dx = dx; dy = dy; buttons = no_buttons });
  notified = true;
}

abbrev two_moves : List Move
two_moves =
    record { dx = pos 4; dy = negsuc 1; buttons = no_buttons }
    ∷ record { dx = pos 3; dy = pos 5; buttons = no_buttons }
    ∷ []

Moved-two_moves : Moved server_paths two_moves (moving (pos 7) (pos 3))
unfolding move_pointer is_zero accumulate coalesce store_motion
Moved-two_moves = move _ _ refl (move _ _ refl rest)

pending-sum_example : (pos 7 ≡ sum_x (pos 0) two_moves) × (pos 3 ≡ sum_y (pos 0) two_moves)
pending-sum_example = pending-sum Moved-two_moves

-- The second coordinate overflows and the call is refused, after the first has been added.
partial_run :
    move_pointer (pos 5) (pos 1) no_buttons (moving (pos 1) (pos 2147483647))
    ≡ (moving (pos 6) (pos 2147483647), err relative_motion_overflow)
unfolding move_pointer is_zero accumulate coalesce store_motion
partial_run = refl

encode_key_edge_lem_example : encode_key_edge (224 * 256 + 28) true ≡ (
    if 224 == 224
    then 224 ∷ (28 + (if true then 128 else 0)) ∷ 0 ∷ 0 ∷ []
    else (28 + (if true then 128 else 0)) ∷ 224 ∷ 0 ∷ 0 ∷ [])
encode_key_edge_lem_example = encode_key_edge_lem 224 28 true (omega arith) (omega arith)

abbrev record_bytes : WriteAll Bytes
record_bytes written bytes = ok (written ++ bytes)

abbrev opened : Channel Bytes
opened = record {
  stream = [];
  framing = mini;
  next_serial = 1;
  last_received_serial = 0;
  received_serial_base = 0;
  maximum_message_body = 1024;
  migration_path = true;
  migration_activation_count = 0;
}

abbrev at_work : ℕ → InputsTask Bytes
at_work n = record {
  channel = opened;
  paths = record server_paths { edges = button_press left no_buttons ∷ [] };
  in_flight = n;
  received_init = true;
}

abbrev pressed : InputsTask Bytes
pressed = record {
  channel = record opened { stream = 113 ∷ 0 ∷ 3 ∷ 0 ∷ 0 ∷ 0 ∷ 1 ∷ 0 ∷ 0 ∷ []; next_serial = 2 };
  paths = server_paths;
  in_flight = 8;
  received_init = true;
}
