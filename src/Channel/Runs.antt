-- ===== src/Channel/Runs.antt =====
-- A full header and a list of one barrier.
use oxide_spice.Common.{◌≡◌, arith, [], ◌∷◌}
use oxide_spice.Errors.{ok}
use oxide_spice.ChannelType
use oxide_spice.Channel.Header
use oxide_spice.Channel.Header.{full}
use oxide_spice.Channel.Header.RoundTrip.{sent_header, decode-encode_framed}
use oxide_spice.Channel.Waits
use oxide_spice.Channel.Waits.{ChannelWait}
use oxide_spice.Channel.Waits.Exact.{waits_bytes, decode-waits_bytes}

decode-encode_framed_example :
    Header.decode full (Header.encode full 7 101 3 []) ≡ ok (sent_header full 7 101 3)
decode-encode_framed_example =
    decode-encode_framed full 7 101 3 (omega arith) (omega arith) (omega arith)

abbrev display_wait : ChannelWait
display_wait = record { channel_type = ChannelType.display; channel_id = 0; message_serial = 9 }

decode-waits_bytes_example :
    Waits.decode (1 ∷ waits_bytes (display_wait ∷ [])) ≡ ok (display_wait ∷ [])
decode-waits_bytes_example =
    decode-waits_bytes (display_wait ∷ []) (omega arith) ((omega arith, omega arith), tt)
