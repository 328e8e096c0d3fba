-- ===== src/Channel/Header/RoundTrip.antt =====
-- The header codec of channel.rs of the protocol crate, encoded and read back.
use oxide_spice.Common.{ℕ, ◌≡◌, arith, none, some, []}
use oxide_spice.Errors.{ok}
use oxide_spice.Bytes.{IsU16, IsU32, IsU64, from_le-to_le_16, from_le-to_le_32, from_le-to_le_64}
use oxide_spice.Channel.Header.{Framing, mini, full, DataHeader, decode, encode}

-- The header that the decoder should report for an encoded message.
abbrev pub sent_header : Framing → ℕ → ℕ → ℕ → DataHeader
sent_header mini serial message_type body_size = record {
  serial = none;
  message_type = message_type;
  body_size = body_size;
  sub_list_offset = none;
}
sent_header full serial message_type body_size = record {
  serial = some serial;
  message_type = message_type;
  body_size = body_size;
  sub_list_offset = some 0;
}

-- What the client encodes is decoded to the same fields, in both framings.
pub decode-encode_framed :
    (framing : Framing) (serial message_type body_size : ℕ)
    → IsU64 serial
    → IsU16 message_type
    → IsU32 body_size
    → decode framing (encode framing serial message_type body_size [])
      ≡ ok (sent_header framing serial message_type body_size)
unfolding decode encode
decode-encode_framed mini serial ty size hs ht hz =
    ground (arith, from_le-to_le_16 ty ht, from_le-to_le_32 size hz)
decode-encode_framed full serial ty size hs ht hz =
    ground (arith, from_le-to_le_64 serial hs, from_le-to_le_16 ty ht, from_le-to_le_32 size hz)
