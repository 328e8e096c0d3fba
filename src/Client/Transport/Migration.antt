-- ===== src/Client/Transport/Migration.antt =====
-- crates/oxide-spice-client/src/channel.rs: `read_message` and the move of a channel to a replacement.
-- The reads and the wait for a replacement depend on what other tasks do meanwhile; they are arguments.
use oxide_spice.Common.{
  ℕ, ◌+◌, ◌-◌, ◌/◌, ◌%◌, ◌^◌, min, true, Option, none, some, [], ◌==◌, ltb, leb, if◌then◌else◌,
  length,
}
use oxide_spice.Errors.{Result, ok, err, ok_or, ensure, ◌>>=◌, ◌>>◌}
use oxide_spice.Bytes.{Bytes, from_le}
use oxide_spice.Channel.Header
use oxide_spice.Channel.Header.{DataHeader}
use oxide_spice.Messages.CommonServer
use oxide_spice.Messages.CommonClient
use oxide_spice.Client.Error.{
  ClientError, message_too_large, protocol_size_error, protocol_value_error,
  unsupported_protocol_value, from_decode,
}
use oxide_spice.Client.Transport.{Channel, WriteAll, write_message, next_u64}

-- What the channel receives: the bytes of a header, where a replacement may have been activated
-- meanwhile and cancellation is an error; so many bytes of the stream; and the next replacement of
-- the active generation.
pub record Incoming (S : Type 0) : Type 0 where
  pub read_header : Channel S → Result ClientError (Bytes × Channel S)
  pub read_exact : S → ℕ → Result ClientError (Bytes × S)
  pub await_replacement : Channel S → Result ClientError (Channel S)

-- `saturating_add` of two u64.
unfoldable pub received_serial : {S : Type 0} → Channel S → ℕ
received_serial c = min (c.received_serial_base + c.last_received_serial) (2 ^ 64 - 1)

next_received : ℕ → Option ℕ → Result ClientError ℕ
next_received last none =
    ok_or (next_u64 last) (protocol_value_error "server message serial overflow")
next_received last (some serial) =
    if ltb last serial
    then ok serial
    else err (protocol_value_error "server message serial regression")

module _ {S : Type 0} (write_all : WriteAll S) (incoming : Incoming S) where
  -- Exactly one header and one bounded body.
  pub read_message : Channel S → Result ClientError (DataHeader × Bytes × Channel S)
  unfolding next_received
  read_message c = do
    (header_bytes, c1) ← incoming.read_header c
    header ← from_decode (Header.decode c1.framing header_bytes)
    ensure (leb header.body_size c1.maximum_message_body)
        (message_too_large header.body_size c1.maximum_message_body)
    (body, stream) ← incoming.read_exact c1.stream header.body_size
    serial ← next_received c1.last_received_serial header.serial
    ensure (ltb (c1.received_serial_base + serial) (2 ^ 64))
        (protocol_value_error "effective message serial overflow")
    ok (header, body, record c1 { stream = stream; last_received_serial = serial })

  unfoldable pub activate_replacement : Channel S → ℕ → Result ClientError (Channel S)
  activate_replacement c serial_base = do
    ensure c.migration_path (unsupported_protocol_value "uncoordinated channel migration")
    replacement ← incoming.await_replacement c
    activations ←
        ok_or (next_u64 c.migration_activation_count)
          (protocol_value_error "migration activation count overflow")
    ok (record replacement {
      received_serial_base = serial_base;
      migration_activation_count = activations;
      migration_path = true;
    })

  pub activate_migration_target : Channel S → Result ClientError (Channel S)
  unfolding received_serial activate_replacement
  activate_migration_target c = activate_replacement c (received_serial c)

  -- Bit 0 of the flags asks for a flush mark, and bit 1 for the transfer of the server's data.
  unfoldable pub flush : ℕ → Channel S → Result ClientError (Channel S)
  flush flags c =
      if flags % 2 == 1 then write_message write_all c CommonClient.migrate_flush_mark [] else ok c

  unfoldable pub receive_data : ℕ → Channel S → Result ClientError (Option Bytes × Channel S)
  unfolding read_message
  receive_data flags c =
      if flags / 2 % 2 == 1
      then (do
        (header, body, c') ← read_message c
        ensure (header.message_type == CommonServer.migrate_data)
            (protocol_value_error "expected channel migration data")
        ok (some body, c'))
      else ok (none, c)

  unfoldable pub forward_data : Option Bytes → Channel S → Result ClientError (Channel S)
  forward_data none c = ok c
  forward_data (some body) c = write_message write_all c CommonClient.migrate_data body

  unfoldable pub migrate_to_replacement : Channel S → Bytes → Result ClientError (Channel S)
  unfolding received_serial flush receive_data activate_replacement forward_data
  migrate_to_replacement c body = do
    ensure (length body == 4) (protocol_size_error "channel migrate flags")
    let flags = from_le body
    ensure (flags / 4 == 0) (unsupported_protocol_value "channel migrate flags")
    ensure c.migration_path (unsupported_protocol_value "uncoordinated channel migration")
    flushed ← flush flags c
    (migration_data, c') ← receive_data flags flushed
    replacement ← activate_replacement c' (received_serial c)
    forward_data migration_data replacement
