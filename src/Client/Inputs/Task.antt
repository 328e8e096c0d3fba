-- ===== src/Client/Inputs/Task.antt =====
-- crates/oxide-spice-client/src/inputs.rs: `run_inputs`, one function for each branch of its
-- `select!` and a step relation that orders them freely.
use oxide_spice.Common.{
  ℕ, ◌+◌, ◌≡◌, Bool, true, false, not, ◌&&◌, Option, none, some, List, ◌∷◌, ◌==◌, if◌then◌else◌,
  length,
}
use oxide_spice.Errors.{Result, ok, err, ensure, ◌>>=◌, ◌>>◌}
use oxide_spice.Bytes.{Bytes, ℤ, to_le}
use oxide_spice.MouseMode.{MouseMode, server, client}
use oxide_spice.Inputs.{
  MouseButtons, no_modifiers, decode_modifiers, encode_mouse_position, encode_mouse_motion,
  encode_mouse_button,
}
use oxide_spice.Messages.InputsServer
use oxide_spice.Messages.InputsClient
use oxide_spice.Client.Error.{ClientError, from_decode, protocol_value_error, unsupported_message}
use oxide_spice.Client.Transport.{Channel, WriteAll, write_message}
use oxide_spice.Client.Control.{Message}
use oxide_spice.Client.Inputs.{
  InputEdge, key_down, key_up, scancodes, modifiers, button_press, button_release, InputPaths,
  PointerPosition, requires_pointer_flush, is_client, is_server, can_send_regular_motion,
  record_sent, acknowledge_bunch, encode_key_edge, try_edge, try_scancodes, set_pointer_position,
  move_pointer,
}

pub record InputsTask (S : Type 0) : Type 0 where
  pub channel : Channel S
  pub paths : InputPaths
  pub in_flight : ℕ
  pub received_init : Bool

-- What the host's handle does to the shared slots.
pub data Submission : InputPaths → InputPaths → Type 0 where
  edge_queued : (edge : InputEdge) {p q : InputPaths} → try_edge edge p ≡ ok q → Submission p q
  scancodes_queued :
      (bytes : Bytes) {p q : InputPaths} → try_scancodes bytes p ≡ ok q → Submission p q
  position_set :
      (position : PointerPosition) {p q : InputPaths}
      → set_pointer_position position p ≡ ok q
      → Submission p q
  pointer_moved :
      (dx dy : ℤ) (buttons : MouseButtons) {p : InputPaths}
      → Submission p ((move_pointer dx dy buttons p).0)

module _ {S : Type 0} where
  -- A migration that is not seamless makes the server start over.
  unfoldable pub observe_activation : Option Bool → InputsTask S → InputsTask S
  observe_activation none t = t
  observe_activation (some true) t = t
  observe_activation (some false) t = record t {
    received_init = false;
    in_flight = 0;
    paths = record t.paths { relative_motion = none; modifiers = no_modifiers };
  }

  unfoldable pub handle_init : Bytes → InputsTask S → Result ClientError (InputsTask S)
  handle_init body t = do
    ensure (not t.received_init) (protocol_value_error "repeated Inputs Init")
    state ← from_decode (decode_modifiers body)
    ok (record t { received_init = true; paths = record t.paths { modifiers = state } })

  unfoldable pub handle_key_modifiers : Bytes → InputsTask S → Result ClientError (InputsTask S)
  handle_key_modifiers body t = do
    ensure t.received_init (protocol_value_error "Inputs message before Init")
    state ← from_decode (decode_modifiers body)
    ok (record t { paths = record t.paths { modifiers = state } })

  unfoldable pub handle_motion_ack : Bytes → InputsTask S → Result ClientError (InputsTask S)
  handle_motion_ack body t = do
    ensure t.received_init (protocol_value_error "Inputs message before Init")
    ensure (length body == 0) (protocol_value_error "mouse motion ACK body")
    in_flight ← acknowledge_bunch t.in_flight
    ok (record t { in_flight = in_flight })

  -- A message that neither the control handler nor the wait handler has consumed.
  unfoldable pub handle_message : Message → InputsTask S → Result ClientError (InputsTask S)
  unfolding handle_init handle_key_modifiers handle_motion_ack
  handle_message m t =
      if m.message_type == InputsServer.init
      then handle_init m.body t
      else if m.message_type == InputsServer.key_modifiers
      then handle_key_modifiers m.body t
      else if m.message_type == InputsServer.mouse_motion_ack
      then handle_motion_ack m.body t
      else err (unsupported_message "inputs" m.message_type)

  -- What the task does once it sees that the mode has changed: the slot of the mode that was left is
  -- discarded.
  unfoldable pub discard_motion : MouseMode → InputsTask S → InputsTask S
  discard_motion client t = record t { paths = record t.paths { relative_motion = none } }
  discard_motion server t = record t { paths = record t.paths { pointer_changed = false } }

  unfoldable pub change_mode : InputsTask S → InputsTask S
  unfolding discard_motion
  change_mode t = discard_motion t.paths.mouse_mode t

  module _ (write_all : WriteAll S) where
    -- The pending motion is taken before it is written.
    unfoldable pub send_relative_motion : InputsTask S → Result ClientError (InputsTask S)
    send_relative_motion t = elim t.paths.relative_motion [
      | none ↦ ok t
      | some motion ↦
          write_message write_all t.channel InputsClient.mouse_motion
            (encode_mouse_motion motion.dx motion.dy motion.buttons)
          >>= λ channel. record_sent t.in_flight >>= λ in_flight. ok (record t {
            channel = channel;
            in_flight = in_flight;
            paths = record t.paths { relative_motion = none };
          })
    ]

    unfoldable pub send_latest_pointer : InputsTask S → Result ClientError (InputsTask S)
    send_latest_pointer t = elim t.paths.pointer [
      | none ↦ ok (record t { paths = record t.paths { pointer_changed = false } })
      | some position ↦
          write_message write_all t.channel InputsClient.mouse_position
            (encode_mouse_position position.x position.y position.buttons position.display_id)
          >>= λ channel. record_sent t.in_flight >>= λ in_flight. ok (record t {
            channel = channel;
            in_flight = in_flight;
            paths = record t.paths { pointer_changed = false };
          })
    ]

    unfoldable pub write_edge : InputEdge → Channel S → Result ClientError (Channel S)
    write_edge (key_down code) c =
        write_message write_all c InputsClient.key_down (encode_key_edge code false)
    write_edge (key_up code) c =
        write_message write_all c InputsClient.key_up (encode_key_edge code true)
    write_edge (scancodes bytes) c = write_message write_all c InputsClient.key_scancode bytes
    write_edge (modifiers m) c =
        write_message write_all c InputsClient.key_modifiers (to_le 2 m.bits)
    write_edge (button_press button buttons) c =
        write_message write_all c InputsClient.mouse_press (encode_mouse_button button buttons)
    write_edge (button_release button buttons) c =
        write_message write_all c InputsClient.mouse_release (encode_mouse_button button buttons)

    -- What a button edge sends first: the motion of the confirmed mode, window or no window.
    unfoldable pub flush_pointer : InputEdge → InputsTask S → Result ClientError (InputsTask S)
    flush_pointer edge t =
        if not (requires_pointer_flush edge)
        then ok t
        else if is_server t.paths.mouse_mode
        then send_relative_motion t
        else if t.paths.pointer_changed
        then send_latest_pointer t
        else ok t

    -- An edge that was received from the queue.
    unfoldable pub handle_edge : InputEdge → InputsTask S → Result ClientError (InputsTask S)
    handle_edge edge t = do
      t' ← flush_pointer edge t
      channel ← write_edge edge t'.channel
      ok (record t' { channel = channel })

    -- One turn of the task, or one submission by the host. The index counts the button edges.
    pub data Step : InputsTask S → ℕ → InputsTask S → Type 0 where
      activated :
          (seamless : Option Bool) {t : InputsTask S} → Step t 0 (observe_activation seamless t)
      received : (m : Message) {t t' : InputsTask S} → handle_message m t ≡ ok t' → Step t 0 t'
      replied : (c : Channel S) {t : InputsTask S} → Step t 0 (record t { channel = c })
      -- The session publishes a mode; the task sees it in a later step, or not at all.
      mode_set :
          (mode : MouseMode) {t : InputsTask S}
          → Step t 0 (record t { paths = record t.paths { mouse_mode = mode } })
      mode_changed : {t : InputsTask S} → Step t 0 (change_mode t)
      edge_received :
          (edge : InputEdge) (rest : List InputEdge) {t t' : InputsTask S}
          → t.received_init ≡ true
          → t.paths.edges ≡ edge ∷ rest
          → handle_edge edge (record t { paths = record t.paths { edges = rest } }) ≡ ok t'
          → Step t (if requires_pointer_flush edge then 1 else 0) t'
      pointer_sent :
          {t t' : InputsTask S}
          → t.received_init && (is_client t.paths.mouse_mode && can_send_regular_motion t.in_flight)
            ≡ true
          → t.paths.pointer_changed ≡ true
          → send_latest_pointer t ≡ ok t'
          → Step t 0 t'
      motion_sent :
          {t t' : InputsTask S}
          → t.received_init && (is_server t.paths.mouse_mode && can_send_regular_motion t.in_flight)
            ≡ true
          → t.paths.notified ≡ true
          → send_relative_motion (record t { paths = record t.paths { notified = false } }) ≡ ok t'
          → Step t 0 t'
      submitted :
          (p : InputPaths) {t : InputsTask S}
          → Submission t.paths p
          → Step t 0 (record t { paths = p })

    -- Any sequence of steps, with the number of button edges in it.
    pub data Run : InputsTask S → ℕ → InputsTask S → Type 0 where
      stop : {t : InputsTask S} → Run t 0 t
      step : {t u v : InputsTask S} {a b : ℕ} → Step t a u → Run u b v → Run t (a + b) v
