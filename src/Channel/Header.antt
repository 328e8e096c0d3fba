-- ===== src/Channel/Header.antt =====
-- crates/oxide-spice-protocol/src/channel.rs: the header of a normal channel message.
pub mod RoundTrip
use oxide_spice.Common.{
  ℕ, zero, suc, ◌+◌, ◌≡◌, refl, Bool, true, false, not, Option, none, some, List, [], ◌∷◌, ◌++◌,
  ◌==◌, if◌then◌else◌, length,
}
use oxide_spice.Errors.{truncated, DecodeError, decode_error, Result, ok, err}
use oxide_spice.Bytes.{Bytes, to_le}
use oxide_spice.Wire.{Parser, u16, u32, u64, pure, parse, ◌>>=◌}

pub data Framing : Type 0 where
  mini full : Framing

unfoldable pub header_len : Framing → ℕ
header_len mini = 6
header_len full = 18

pub record DataHeader : Type 0 where
  pub serial : Option ℕ
  pub message_type : ℕ
  pub body_size : ℕ
  pub sub_list_offset : Option ℕ

fields : Framing → Parser DataHeader
unfolding u16 u32 u64
fields mini = do
  message_type ← u16 "mini header message type"
  body_size ← u32 "mini header body size"
  pure (record {
    serial = none;
    message_type = message_type;
    body_size = body_size;
    sub_list_offset = none;
  })
fields full = do
  serial ← u64 "data header serial"
  message_type ← u16 "data header message type"
  body_size ← u32 "data header body size"
  sub_list_offset ← u32 "data header sub-list offset"
  pure (record {
    serial = some serial;
    message_type = message_type;
    body_size = body_size;
    sub_list_offset = some sub_list_offset;
  })

pub decode : Framing → Bytes → Result DecodeError DataHeader
unfolding fields header_len
decode framing input =
    if not (length input == header_len framing)
    then err (decode_error truncated (length input) "data header")
    else parse (fields framing) input

abbrev when_full : Framing → Bytes → Bytes
when_full mini bytes = []
when_full full bytes = bytes

-- The header is appended to the output buffer.
unfoldable pub encode : Framing → ℕ → ℕ → ℕ → Bytes → Bytes
encode framing serial message_type body_size output =
    output
    ++ (when_full framing (to_le 8 serial)
        ++ (to_le 2 message_type ++ (to_le 4 body_size ++ when_full framing (to_le 4 0))))
