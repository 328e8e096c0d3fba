-- ===== src/Channel/Waits.antt =====
-- crates/oxide-spice-protocol/src/channel.rs: the serial barriers of a Wait For Channels message.
pub mod Exact
use oxide_spice.Common.{
  ℕ, zero, suc, ◌-◌, Bool, Option, List, [], ◌∷◌, ◌==◌, ltb, leb, if◌then◌else◌, length,
}
use oxide_spice.Errors.{
  truncated, invalid_value, overflow, resource_limit, DecodeErrorKind, DecodeError, decode_error,
  Result, ok_or,
}
use oxide_spice.Bytes.{Bytes, checked_mul}
use oxide_spice.Wire.{Parser, u8, u64, pure, lift, require, offset, remaining, parse, ◌>>=◌, ◌>>◌}
use oxide_spice.ChannelType
use oxide_spice.ChannelType.{ChannelType}

abbrev pub max_channel_waits : ℕ
max_channel_waits = 64

pub record ChannelWait : Type 0 where
  pub channel_type : ChannelType
  pub channel_id : ℕ
  pub message_serial : ℕ

pub read_wait : Parser ChannelWait
read_wait = do
  type_code ← u8 "wait channel type"
  channel_type ← lift (ChannelType.try_from type_code)
  channel_id ← u8 "wait channel id"
  message_serial ← u64 "wait message serial"
  pure (record {
    channel_type = channel_type;
    channel_id = channel_id;
    message_serial = message_serial;
  })

pub read_waits : ℕ → Parser (List ChannelWait)
read_waits zero = pure []
read_waits (suc n) = do wait ← read_wait; waits ← read_waits n; pure (wait ∷ waits)

pub wait_list : Parser (List ChannelWait)
wait_list = do
  count ← u8 "channel wait count"
  require (leb count max_channel_waits) (decode_error resource_limit 0 "channel wait count")
  at ← offset
  expected_bytes ← lift (ok_or (checked_mul count 10) (decode_error overflow at "channel waits"))
  left ← remaining
  require (left == expected_bytes) (
      decode_error (if ltb left expected_bytes then truncated else invalid_value) at
        "channel waits")
  read_waits count

-- `WaitForChannels::decode`; the struct holds the list alone.
unfoldable pub decode : Bytes → Result DecodeError (List ChannelWait)
decode body = parse wait_list body
