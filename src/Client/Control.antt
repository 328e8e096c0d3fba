-- ===== src/Client/Control.antt =====
-- crates/oxide-spice-client/src/channel.rs: `ControlState`, the ACK window and the messages that
-- every channel handles itself. What the transport writes and what it receives are arguments.
pub mod Frames
pub mod Window
pub mod Settled
pub mod Handled
mod Runs
use oxide_spice.Common.{
  ℕ, ◌+◌, ◌-◌, ◌^◌, Bool, true, false, not, ◌&&◌, Option, none, some, List, [], ◌∷◌, ◌==◌, ltb, leb,
  if◌then◌else◌, length, get_range, min,
}
use oxide_spice.Errors.{Result, ok, err, ensure, ◌>>=◌, ◌>>◌}
use oxide_spice.Bytes.{Bytes, to_le, from_le}
use oxide_spice.Messages.CommonServer
use oxide_spice.Messages.CommonClient
use oxide_spice.Client.Error.{
  ClientError, remote_disconnect, protocol_size_error, protocol_value_error,
}
use oxide_spice.Client.Transport.{Channel, WriteAll, write_message}
use oxide_spice.Client.Transport.Migration.{Incoming, migrate_to_replacement}

pub record ControlState : Type 0 where
  pub generation : ℕ
  pub window : ℕ
  pub consumed_since_ack : ℕ
  pub migration_activation_count : ℕ

abbrev pub new : ControlState
new = record { generation = 0; window = 0; consumed_since_ack = 0; migration_activation_count = 0 }

pub data ControlDisposition : Type 0 where
  consumed dispatch : ControlDisposition

-- A received message: its type and body.
pub record Message : Type 0 where
  pub message_type : ℕ
  pub body : Bytes

-- `bytes[offset..offset + 4]`, after the caller has validated the size.
unfoldable pub read_u32 : Bytes → ℕ → ℕ
read_u32 bytes offset = elim (get_range offset 4 bytes) [ none ↦ 0 | some word ↦ from_le word ]

first_12 : Bytes → Bytes
first_12 bytes = elim (get_range 0 12 bytes) [ none ↦ [] | some front ↦ front ]

ends_with_zero : Bytes → Bool
ends_with_zero [] = false
ends_with_zero (b ∷ []) = b == 0
ends_with_zero (a ∷ b ∷ bs) = ends_with_zero (b ∷ bs)

saturating_suc : ℕ → ℕ
saturating_suc n = min (n + 1) (2 ^ 32 - 1)

-- The window restarts when the channel has moved to another transport.
pub restart : ℕ → ControlState → ControlState
restart activations s = record {
  generation = 0;
  window = 0;
  consumed_since_ack = 0;
  migration_activation_count = activations;
}

pub observe_migration : ℕ → ControlState → ControlState
unfolding restart
observe_migration activations s =
    if s.migration_activation_count == activations then s else restart activations s

-- Keeps the ACK state across a replaced transport.
abbrev synchronize_migration_activation : {S : Type 0} → Channel S → ControlState → ControlState
synchronize_migration_activation c s = record s {
  migration_activation_count = c.migration_activation_count;
}

module _ {S : Type 0} (write_all : WriteAll S) where
  -- The ACK goes out first, and the count restarts once it is written.
  send_ack : ControlState → Channel S → Result ClientError (ControlState × Channel S)
  send_ack s c = do
    c' ← write_message write_all c CommonClient.ack []
    ok (record s { consumed_since_ack = 0 }, c')

  -- Accounts for one processed envelope.
  unfoldable pub acknowledge_envelope :
      ControlState → Channel S → Result ClientError (ControlState × Channel S)
  unfolding saturating_suc send_ack
  acknowledge_envelope s c =
      if s.window == 0
      then ok (s, c)
      else if leb s.window (saturating_suc s.consumed_since_ack)
      then send_ack s c
      else ok (record s { consumed_since_ack = saturating_suc s.consumed_since_ack }, c)

  abbrev pub Handled : Type 0
  Handled = ControlDisposition × ControlState × Channel S

  handle_set_ack : ControlState → Channel S → Bytes → Result ClientError Handled
  handle_set_ack s c body = do
    ensure (length body == 8) (protocol_size_error "set ack body")
    let s' = record s {
      generation = read_u32 body 0;
      window = read_u32 body 4;
      consumed_since_ack = 0;
    }
    c' ← write_message write_all c CommonClient.ack_sync (to_le 4 (read_u32 body 0))
    ok (consumed, s', c')

  handle_ping : ControlState → Channel S → Bytes → Result ClientError Handled
  unfolding first_12
  handle_ping s c body = do
    ensure (leb 12 (length body)) (protocol_size_error "ping body")
    c' ← write_message write_all c CommonClient.pong (first_12 body)
    ok (consumed, s, c')

  handle_disconnecting : Bytes → Result ClientError Handled
  handle_disconnecting body = do
    ensure (length body == 12) (protocol_size_error "disconnect body")
    err (remote_disconnect (read_u32 body 8))

  handle_notify : ControlState → Channel S → Bytes → Result ClientError Handled
  unfolding ends_with_zero
  handle_notify s c body = do
    ensure (leb 25 (length body)) (protocol_size_error "notify body")
    ensure (read_u32 body 20 == length body - 25) (protocol_size_error "notify message length")
    ensure (ends_with_zero body) (protocol_value_error "notify message terminator")
    ok (consumed, s, c)

  module _ (incoming : Incoming S) where
    handle_migrate : ControlState → Channel S → Bytes → Result ClientError Handled
    unfolding restart
    handle_migrate s c body = do
      c' ← migrate_to_replacement write_all incoming c body
      ok (consumed, restart c'.migration_activation_count s, c')

    dispatch_control : ControlState → Channel S → Message → Result ClientError Handled
    unfolding handle_set_ack handle_ping handle_disconnecting handle_notify handle_migrate
    dispatch_control s c m =
        if m.message_type == CommonServer.set_ack
        then handle_set_ack s c m.body
        else if m.message_type == CommonServer.ping
        then handle_ping s c m.body
        else if m.message_type == CommonServer.disconnecting
        then handle_disconnecting m.body
        else if m.message_type == CommonServer.notify
        then handle_notify s c m.body
        else if m.message_type == CommonServer.migrate
        then handle_migrate s c m.body
        else ok (dispatch, s, c)

    count_message : Bool → Message → Handled → Result ClientError Handled
    count_message count_for_ack m (d, s, c) =
        if count_for_ack && not (m.message_type == CommonServer.set_ack)
        then (do (s', c') ← acknowledge_envelope s c; ok (d, s', c'))
        else ok (d, s, c)

    -- `handle_inner`; `handle_without_ack` is the call with false.
    pub handle_inner : ControlState → Channel S → Message → Bool → Result ClientError Handled
    handle_inner s c m count_for_ack = do
      handled ← dispatch_control (observe_migration c.migration_activation_count s) c m
      count_message count_for_ack m handled
