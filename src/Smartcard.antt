-- ===== src/Smartcard.antt =====
-- crates/oxide-spice-protocol/src/smartcard.rs: VSC messages of the Smartcard channel.
pub mod RoundTrip
mod Runs
use oxide_spice.Common.{
  ℕ, ◌*◌, ◌^◌, Option, none, some, List, [], ◌∷◌, ◌++◌, ◌==◌, ltb, leb, if◌then◌else◌, length,
}
use oxide_spice.Errors.{
  truncated, invalid_value, overflow, resource_limit, DecodeError, decode_error, Result, ok, err,
}
use oxide_spice.Bytes.{Bytes, to_le, try_u32}
use oxide_spice.Wire.{Parser, take, u32, pure, lift, require, parse, remaining, ◌>>=◌, ◌>>◌}

abbrev pub max_smartcard_data_bytes : ℕ
max_smartcard_data_bytes = 64 * 1024

abbrev pub smartcard_header_bytes : ℕ
smartcard_header_bytes = 12

pub data SmartcardMessageType : Type 0 where
  init error reader_add reader_remove atr card_remove apdu flush flush_complete :
      SmartcardMessageType

abbrev pub code : SmartcardMessageType → ℕ
code init = 1
code error = 2
code reader_add = 3
code reader_remove = 4
code atr = 5
code card_remove = 6
code apdu = 7
code flush = 8
code flush_complete = 9

-- `TryFrom<u32>`.
pub try_from : ℕ → Result DecodeError SmartcardMessageType
try_from v =
    if v == 1
    then ok init
    else if v == 2
    then ok error
    else if v == 3
    then ok reader_add
    else if v == 4
    then ok reader_remove
    else if v == 5
    then ok atr
    else if v == 6
    then ok card_remove
    else if v == 7
    then ok apdu
    else if v == 8
    then ok flush
    else if v == 9
    then ok flush_complete
    else err (decode_error invalid_value 0 "smartcard message type")

pub record SmartcardMessage : Type 0 where
  pub message_type : SmartcardMessageType
  pub reader_id : ℕ
  pub data_bytes : Bytes

-- The length field has to name exactly the bytes that are left.
fields : Parser SmartcardMessage
fields = do
  type_code ← u32 "smartcard message type"
  message_type ← lift (try_from type_code)
  reader_id ← u32 "smartcard reader id"
  data_length ← u32 "smartcard data length"
  require (leb data_length max_smartcard_data_bytes)
      (decode_error resource_limit 8 "smartcard data length")
  left ← remaining
  require (left == data_length) (
      decode_error (if ltb left data_length then truncated else invalid_value)
        smartcard_header_bytes "smartcard data length")
  data_bytes ← take data_length "smartcard data"
  pure (record { message_type = message_type; reader_id = reader_id; data_bytes = data_bytes })

pub decode : Bytes → Result DecodeError SmartcardMessage
decode body = parse fields body

-- `encode_smartcard_message`.
pub encode : SmartcardMessage → Result DecodeError Bytes
encode m =
    if ltb max_smartcard_data_bytes (length m.data_bytes)
    then err (decode_error resource_limit smartcard_header_bytes "smartcard data length")
    else elim (try_u32 (length m.data_bytes)) [
      | none ↦ err (decode_error overflow 8 "smartcard data length")
      | some data_length ↦ ok (
          to_le 4 (code m.message_type)
          ++ (to_le 4 m.reader_id ++ (to_le 4 data_length ++ m.data_bytes)))
    ]
