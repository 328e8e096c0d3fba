-- ===== src/ChannelType.antt =====
-- crates/oxide-spice-protocol/src/channel.rs: channel types.
use oxide_spice.Common.{ℕ, ◌≡◌, refl, arith, ◌==◌, if◌then◌else◌}
use oxide_spice.Errors.{invalid_value, DecodeError, decode_error, Result, ok, err}

pub data ChannelType : Type 0 where
  main display inputs cursor playback record_audio tunnel smartcard usb_redirection port web_dav :
      ChannelType

-- The wire value, `self as u8`.
abbrev pub code : ChannelType → ℕ
code main = 1
code display = 2
code inputs = 3
code cursor = 4
code playback = 5
code record_audio = 6
code tunnel = 7
code smartcard = 8
code usb_redirection = 9
code port = 10
code web_dav = 11

-- `TryFrom<u8>`.
unfoldable pub try_from : ℕ → Result DecodeError ChannelType
try_from v =
    if v == 1
    then ok main
    else if v == 2
    then ok display
    else if v == 3
    then ok inputs
    else if v == 4
    then ok cursor
    else if v == 5
    then ok playback
    else if v == 6
    then ok record_audio
    else if v == 7
    then ok tunnel
    else if v == 8
    then ok smartcard
    else if v == 9
    then ok usb_redirection
    else if v == 10
    then ok port
    else if v == 11
    then ok web_dav
    else err (decode_error invalid_value 0 "channel type")

pub ChannelType-discrete : Discrete ChannelType
ChannelType-discrete = hlevel

-- The conversion is the inverse of `as u8`.
pub try_from-code : (t : ChannelType) → try_from (code t) ≡ ok t
unfolding try_from
try_from-code main = refl
try_from-code t = refl

pub code-try_from : (v : ℕ) (t : ChannelType) → try_from v ≡ ok t → code t ≡ v
unfolding try_from
code-try_from v t e = ground arith
