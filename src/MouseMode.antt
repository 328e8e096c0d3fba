-- ===== src/MouseMode.antt =====
-- crates/oxide-spice-protocol/src/main_channel.rs: the pointer mode that the server confirms.
use oxide_spice.Common.{ℕ, ◌-◌, ◌^◌, not, ◌||◌, bit_and, bit_or, ◌==◌, ltb, if◌then◌else◌, length}
use oxide_spice.Errors.{truncated, invalid_value, DecodeError, decode_error, Result, ok, err}
use oxide_spice.Bytes.{Bytes}
use oxide_spice.Wire.{Parser, u16, pure, lift, require, parse, ◌>>=◌, ◌>>◌}

pub data MouseMode : Type 0 where
  server client : MouseMode

abbrev pub code : MouseMode → ℕ
code server = 1
code client = 2

-- `TryFrom<u16>`.
unfoldable pub try_from : ℕ → Result DecodeError MouseMode
try_from v =
    if v == 1
    then ok server
    else if v == 2
    then ok client
    else err (decode_error invalid_value 0 "current mouse mode")

pub record MouseModeState : Type 0 where
  pub supported_modes : ℕ
  pub current_mode : MouseMode

-- The u16 whose bits are those that `known` has not.
abbrev pub not_u16 : ℕ → ℕ
not_u16 known = 2 ^ 16 - 1 - known

unfoldable pub fields : Parser MouseModeState
fields = do
  supported_modes ← u16 "supported mouse modes"
  mode_code ← u16 "current mouse mode"
  current_mode ← lift (try_from mode_code)
  require
      (not (
        not (bit_and supported_modes (not_u16 (bit_or (code server) (code client))) == 0)
        || bit_and supported_modes (code current_mode) == 0))
      (decode_error invalid_value 0 "supported mouse modes")
  pure (record { supported_modes = supported_modes; current_mode = current_mode })

-- `MouseModeState::decode`.
unfoldable pub decode : Bytes → Result DecodeError MouseModeState
unfolding fields
decode body =
    if not (length body == 4)
    then err (
        decode_error (if ltb (length body) 4 then truncated else invalid_value) (length body)
          "main mouse mode")
    else parse fields body
