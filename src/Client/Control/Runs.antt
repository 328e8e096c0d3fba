-- ===== src/Client/Control/Runs.antt =====
-- An ACK window of two over a transport that records what is written.
use oxide_spice.Common.{ℕ, ◌+◌, ◌*◌, ◌<◌, ◌≡◌, ◌≢◌, ◌⊎◌, refl, arith, true, [], ◌∷◌, ◌++◌, All}
use oxide_spice.Errors.{ok, err}
use oxide_spice.Bytes.{Bytes, IsByte}
use oxide_spice.Channel.Header
use oxide_spice.Channel.Header.{mini}
use oxide_spice.Messages.CommonServer
use oxide_spice.Client.Error.{io}
use oxide_spice.Client.Transport.{Channel, WriteAll, write_message}
use oxide_spice.Client.Control.{
  ControlState, Message, consumed, new, read_u32, acknowledge_envelope, send_ack, saturating_suc,
  handle_inner, dispatch_control, handle_set_ack, handle_migrate, count_message, observe_migration,
  restart,
}
use oxide_spice.Client.Transport.Migration.{
  Incoming, received_serial, activate_replacement, flush, receive_data, forward_data,
  migrate_to_replacement,
}
use oxide_spice.Client.Control.Settled.{IsInstalled, IsReset, IsKept}
use oxide_spice.Client.Control.Frames.{send_acks, advanced}
use oxide_spice.Client.Control.Window.{
  IsValid, new-IsValid, acknowledge_all, acknowledge_all_window,
}
use oxide_spice.Client.Control.Handled.{handle_inner-IsValid}

abbrev record_bytes : WriteAll Bytes
record_bytes written bytes = ok (written ++ bytes)

abbrev opened : Channel Bytes
opened = record {
  stream = [];
  framing = mini;
  next_serial = 5;
  last_received_serial = 0;
  received_serial_base = 0;
  maximum_message_body = 1024;
  migration_path = true;
  migration_activation_count = 0;
}

abbrev window_of_two : ℕ → ControlState
window_of_two n = record {
  generation = 1;
  window = 2;
  consumed_since_ack = n;
  migration_activation_count = 0;
}

window_of_two-IsValid : IsValid (window_of_two 1)
window_of_two-IsValid = record {
  narrow = omega arith;
  off = λ h. absurd (omega arith);
  below = λ h. omega arith;
}

abbrev acknowledged : Channel Bytes
acknowledged = record opened {
  stream = 2 ∷ 0 ∷ 0 ∷ 0 ∷ 0 ∷ 0 ∷ 2 ∷ 0 ∷ 0 ∷ 0 ∷ 0 ∷ 0 ∷ [];
  next_serial = 7;
}

three_more :
    acknowledge_all record_bytes 3 (window_of_two 1) opened ≡ ok (window_of_two 0, acknowledged)
unfolding acknowledge_all acknowledge_envelope saturating_suc send_ack write_message Header.encode
three_more = refl

acknowledge_all_window_example :
    (acks : ℕ) × (send_acks record_bytes acks mini 5 [] ≡ ok acknowledged.stream)
    × (acknowledged ≡ advanced record_bytes opened acknowledged.stream acks)
    × (0 + acks * 2 ≡ 1 + 3)
    × (0 < 2)
    × ((window_of_two 0).window ≡ (window_of_two 1).window)
acknowledge_all_window_example =
    acknowledge_all_window record_bytes 3 (window_of_two 1) opened window_of_two-IsValid
      (omega arith) three_more

-- A server that sends nothing, and whose replacement is the channel as it was opened.
abbrev silent : Incoming Bytes
silent = record {
  read_header = λ c. err io;
  read_exact = λ stream n. err io;
  await_replacement = λ c. ok opened;
}

abbrev set_ack_message : Message
set_ack_message = record { message_type = 3; body = 1 ∷ 0 ∷ 0 ∷ 0 ∷ 2 ∷ 0 ∷ 0 ∷ 0 ∷ [] }

set_ack-bytes : All IsByte set_ack_message.body
set_ack-bytes = (
  omega arith,
  (
    omega arith,
    (omega arith, (omega arith, (omega arith, (omega arith, (omega arith, (omega arith, tt)))))),
  ),
)

abbrev synchronized : Channel Bytes
synchronized = record opened {
  stream = 1 ∷ 0 ∷ 4 ∷ 0 ∷ 0 ∷ 0 ∷ 1 ∷ 0 ∷ 0 ∷ 0 ∷ [];
  next_serial = 6;
}

set_ack-handled :
    handle_inner record_bytes silent new opened set_ack_message true
    ≡ ok (consumed, window_of_two 0, synchronized)
unfolding handle_inner dispatch_control handle_set_ack count_message observe_migration restart
    read_u32 write_message Header.encode
set_ack-handled = refl

handle_inner-IsValid_example :
    IsValid (window_of_two 0)
    × ((window_of_two 0).migration_activation_count ≡ synchronized.migration_activation_count)
    × (IsInstalled set_ack_message (window_of_two 0)
        ⊎ ((set_ack_message.message_type ≢ CommonServer.set_ack)
            × ((((new.migration_activation_count ≢ opened.migration_activation_count)
                    ⊎ (set_ack_message.message_type ≡ CommonServer.migrate))
                  × IsReset (window_of_two 0))
                ⊎ ((new.migration_activation_count ≡ opened.migration_activation_count)
                    × (set_ack_message.message_type ≢ CommonServer.migrate)
                    × IsKept new (window_of_two 0)))))
handle_inner-IsValid_example =
    handle_inner-IsValid record_bytes silent new opened set_ack_message true new-IsValid
      set_ack-bytes set_ack-handled

abbrev migrate_message : Message
migrate_message = record { message_type = 1; body = 1 ∷ 0 ∷ 0 ∷ 0 ∷ [] }

-- The flush mark goes to the old transport, and the new one starts with an empty window.
migrate-handled :
    handle_inner record_bytes silent (window_of_two 1) opened migrate_message true
    ≡ ok (consumed, restart 1 (window_of_two 1), record opened { migration_activation_count = 1 })
unfolding handle_inner dispatch_control handle_migrate count_message acknowledge_envelope
    observe_migration restart write_message Header.encode migrate_to_replacement flush receive_data
    forward_data activate_replacement received_serial
migrate-handled = refl
