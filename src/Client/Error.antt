-- ===== src/Client/Error.antt =====
-- crates/oxide-spice-client/src/error.rs: the cases of `ClientError` that the modelled code builds,
-- and the three helpers of channel.rs that build protocol errors.
use oxide_spice.Common.{ℕ, String}
use oxide_spice.Errors.{invalid_value, unsupported, DecodeError, decode_error, Result, map_err}

pub data ClientError : Type 0 where
  io : ClientError
  decode : DecodeError → ClientError
  message_too_large : ℕ → ℕ → ClientError
  unsupported_message : String → ℕ → ClientError
  remote_disconnect : ℕ → ClientError
  cancelled : ClientError
  task_terminated : ClientError
  internal : String → ClientError

abbrev pub protocol_size_error : String → ClientError
protocol_size_error context = decode (decode_error invalid_value 0 context)

abbrev pub protocol_value_error : String → ClientError
protocol_value_error context = decode (decode_error invalid_value 0 context)

abbrev pub unsupported_protocol_value : String → ClientError
unsupported_protocol_value context = decode (decode_error unsupported 0 context)

-- `?` on a wire decode inside client code.
abbrev pub from_decode {ℓ} : {A : Type ℓ} → Result DecodeError A → Result ClientError A
from_decode = map_err decode
