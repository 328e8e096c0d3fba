-- ===== src/Client/Transport.antt =====
-- crates/oxide-spice-client/src/channel.rs: the serial numbers of a `Channel` and `write_message`,
-- for a channel with no SASL security layer. The byte stream and its `write_all` are arguments.
pub mod Migration
use oxide_spice.Common.{
  ℕ, ◌+◌, ◌-◌, ◌^◌, Bool, Option, none, some, [], ◌++◌, ltb, leb, if◌then◌else◌, length,
}
use oxide_spice.Errors.{Result, ok, ok_or, ensure, ◌>>=◌, ◌>>◌}
use oxide_spice.Bytes.{Bytes, try_u32}
use oxide_spice.Channel.Header
use oxide_spice.Channel.Header.{Framing}
use oxide_spice.Client.Error.{ClientError, message_too_large, protocol_value_error}

pub record Channel (S : Type 0) : Type 0 where
  pub stream : S
  pub framing : Framing
  pub next_serial : ℕ
  pub last_received_serial : ℕ
  pub received_serial_base : ℕ
  pub maximum_message_body : ℕ
  -- The receiver of replacements, its cancellation and its generation, which are installed together.
  pub migration_path : Bool
  pub migration_activation_count : ℕ

-- `checked_add(1)` on a u64.
abbrev pub next_u64 : ℕ → Option ℕ
next_u64 n = if ltb (n + 1) (2 ^ 64) then some (n + 1) else none

-- What the client assumes of its transport: a write that may fail.
abbrev pub WriteAll : Type 0 → Type 0
WriteAll S = S → Bytes → Result ClientError S

module _ {S : Type 0} (write_all : WriteAll S) where
  unfoldable pub write_message : Channel S → ℕ → Bytes → Result ClientError (Channel S)
  write_message c message_type body = do
    body_size ←
        ok_or (try_u32 (length body)) (message_too_large (2 ^ 32 - 1) c.maximum_message_body)
    ensure (leb (length body) c.maximum_message_body)
        (message_too_large body_size c.maximum_message_body)
    stream ←
        write_all c.stream (Header.encode c.framing c.next_serial message_type body_size [] ++ body)
    serial ← ok_or (next_u64 c.next_serial) (protocol_value_error "client message serial overflow")
    ok (record c { stream = stream; next_serial = serial })
