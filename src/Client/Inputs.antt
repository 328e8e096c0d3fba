-- ===== src/Client/Inputs.antt =====
-- crates/oxide-spice-client/src/inputs.rs: what a host submits through `InputsHandle`. The bounded
-- edge queue, the pointer slot and the slot of pending relative motion are the fields of `InputPaths`.
pub mod Task
pub mod Window
pub mod Coalesce
pub mod Keys
mod Runs
use oxide_spice.Common.{
  ℕ, ◌+◌, ◌-◌, ◌^◌, Bool, true, false, not, ◌&&◌, ◌||◌, bit_and, bit_or, Option, none, some, List,
  [], ◌∷◌, ◌++◌, ◌==◌, ltb, leb, if◌then◌else◌, length, ◌%◌,
}
use oxide_spice.Errors.{Result, ok, err, ok_or, ensure, ◌>>=◌, ◌>>◌}
use oxide_spice.Bytes.{Bytes, ℤ, pos, negsuc, checked_add_i32}
use oxide_spice.MouseMode.{MouseMode, server, client}
use oxide_spice.Inputs.{
  KeyboardModifiers, MouseButtons, MouseButton, no_modifiers, encode_key_code,
  input_motion_ack_bunch,
}
use oxide_spice.Client.Error.{ClientError, protocol_value_error}

abbrev pub input_edge_queue_capacity : ℕ
input_edge_queue_capacity = 128

abbrev pub max_scancode_sequence_bytes : ℕ
max_scancode_sequence_bytes = 32

abbrev pub max_in_flight_pointer_messages : ℕ
max_in_flight_pointer_messages = 8

pub record PointerPosition : Type 0 where
  pub x : ℕ
  pub y : ℕ
  pub buttons : MouseButtons
  pub display_id : ℕ

pub data InputSendError : Type 0 where
  queue_full channel_closed scancode_sequence_too_long raw_scancodes_unsupported wrong_mouse_mode
        relative_motion_overflow :
      InputSendError

pub data InputEdge : Type 0 where
  key_down : ℕ → InputEdge
  key_up : ℕ → InputEdge
  scancodes : Bytes → InputEdge
  modifiers : KeyboardModifiers → InputEdge
  button_press : MouseButton → MouseButtons → InputEdge
  button_release : MouseButton → MouseButtons → InputEdge

pub requires_pointer_flush : InputEdge → Bool
requires_pointer_flush (key_down code) = false
requires_pointer_flush (key_up code) = false
requires_pointer_flush (scancodes bytes) = false
requires_pointer_flush (modifiers m) = false
requires_pointer_flush (button_press button buttons) = true
requires_pointer_flush (button_release button buttons) = true

pub record RelativeMotion : Type 0 where
  pub dx : ℤ
  pub dy : ℤ
  pub buttons : MouseButtons

-- What the handle and the task share. `pointer_changed` says that the pointer slot holds a value the
-- task has not seen, `notified` that a notification is stored.
pub record InputPaths : Type 0 where
  pub edges : List InputEdge
  pub closed : Bool
  pub pointer : Option PointerPosition
  pub pointer_changed : Bool
  pub modifiers : KeyboardModifiers
  pub raw_scancodes_supported : Bool
  pub mouse_mode : MouseMode
  pub relative_motion : Option RelativeMotion
  pub notified : Bool

-- `input_paths`.
abbrev pub input_paths : Bool → MouseMode → InputPaths
input_paths raw_scancodes_supported mouse_mode = record {
  edges = [];
  closed = false;
  pointer = none;
  pointer_changed = false;
  modifiers = no_modifiers;
  raw_scancodes_supported = raw_scancodes_supported;
  mouse_mode = mouse_mode;
  relative_motion = none;
  notified = false;
}

abbrev pub is_client : MouseMode → Bool
is_client server = false
is_client client = true

abbrev pub is_server : MouseMode → Bool
is_server server = true
is_server client = false

-- `try_edge`: the queue is bounded and does not wait.
unfoldable pub try_edge : InputEdge → InputPaths → Result InputSendError InputPaths
try_edge edge p =
    if p.closed
    then err channel_closed
    else if leb input_edge_queue_capacity (length p.edges)
    then err queue_full
    else ok (record p { edges = p.edges ++ (edge ∷ []) })

unfoldable pub validate_scancodes : Bytes → InputPaths → Result InputSendError (Unit {0})
validate_scancodes bytes p = do
  ensure p.raw_scancodes_supported raw_scancodes_unsupported
  ensure (not (length bytes == 0 || ltb max_scancode_sequence_bytes (length bytes)))
      scancode_sequence_too_long

unfoldable pub try_scancodes : Bytes → InputPaths → Result InputSendError InputPaths
try_scancodes bytes p = do validate_scancodes bytes p; try_edge (scancodes bytes) p

-- A position that was not sent is replaced.
unfoldable pub set_pointer_position :
    PointerPosition → InputPaths → Result InputSendError InputPaths
set_pointer_position position p = do
  ensure (is_client p.mouse_mode) wrong_mouse_mode
  ensure (not p.closed) channel_closed
  ok (record p { pointer = some position; pointer_changed = true })

unfoldable pub is_zero : ℤ → Bool
is_zero (pos n) = n == 0
is_zero (negsuc n) = false

-- Adds a movement to the pending one. When the second coordinate overflows, the first has already
-- been added, as in the source.
unfoldable pub coalesce :
    ℤ → ℤ → MouseButtons → RelativeMotion → RelativeMotion × Result InputSendError (Unit {0})
coalesce dx dy buttons motion = elim (checked_add_i32 motion.dx dx) [
  | none ↦ (motion, err relative_motion_overflow)
  | some sum_x ↦ elim (checked_add_i32 motion.dy dy) [
    | none ↦ (record motion { dx = sum_x }, err relative_motion_overflow)
    | some sum_y ↦ (record { dx = sum_x; dy = sum_y; buttons = buttons }, ok tt)
  ]
]

-- The notification is stored unless an error returns first.
store_motion :
    InputPaths
    → RelativeMotion × Result InputSendError (Unit {0})
    → InputPaths × Result InputSendError (Unit {0})
store_motion p (motion, ok done) =
    (record p { relative_motion = some motion; notified = true }, ok tt)
store_motion p (motion, err e) = (record p { relative_motion = some motion }, err e)

accumulate :
    ℤ
    → ℤ
    → MouseButtons
    → InputPaths
    → Option RelativeMotion
    → InputPaths × Result InputSendError (Unit {0})
unfolding store_motion
accumulate dx dy buttons p none =
    store_motion p (record { dx = dx; dy = dy; buttons = buttons }, ok tt)
accumulate dx dy buttons p (some motion) = store_motion p (coalesce dx dy buttons motion)

-- The state that is left, on an error too, and what the caller gets.
unfoldable pub move_pointer :
    ℤ → ℤ → MouseButtons → InputPaths → InputPaths × Result InputSendError (Unit {0})
unfolding is_zero accumulate
move_pointer dx dy buttons p =
    if not (is_server p.mouse_mode)
    then (p, err wrong_mouse_mode)
    else if is_zero dx && is_zero dy
    then (p, ok tt)
    else accumulate dx dy buttons p p.relative_motion

-- `MotionWindow`, which is its counter.
abbrev pub can_send_regular_motion : ℕ → Bool
can_send_regular_motion in_flight = ltb in_flight max_in_flight_pointer_messages

-- `checked_add(1)` on a u32.
unfoldable pub record_sent : ℕ → Result ClientError ℕ
record_sent in_flight =
    if ltb (in_flight + 1) (2 ^ 32)
    then ok (in_flight + 1)
    else err (protocol_value_error "pointer in-flight counter")

unfoldable pub acknowledge_bunch : ℕ → Result ClientError ℕ
acknowledge_bunch in_flight =
    if leb input_motion_ack_bunch in_flight
    then ok (in_flight - input_motion_ack_bunch)
    else err (protocol_value_error "unexpected mouse motion ACK")

-- A release sets bit seven, and an extended code goes out prefix first.
unfoldable pub encode_key_edge : ℕ → Bool → Bytes
encode_key_edge code released =
    let edge = bit_or code (if released then 128 else 0) in
    if bit_and edge 65280 == 57344 then 224 ∷ edge % 256 ∷ 0 ∷ 0 ∷ [] else encode_key_code edge
