-- ===== src/Channel/SubMessages/Runs.antt =====
-- A list of one message, decoded and iterated.
use oxide_spice.Common.{◌≡◌, refl, arith, [], ◌∷◌}
use oxide_spice.Errors.{ok}
use oxide_spice.Bytes.{Bytes}
use oxide_spice.Wire.{take, u16, u32, slice, resolve_range}
use oxide_spice.Channel.SubMessages.{
  SubMessageList, read_submessage_offset, ranges_overlap, check_distinct, read_type, check_size,
  check_header, check_message, check_messages, decode,
}
use oxide_spice.Channel.SubMessages.Total.{ValidList, decode-ValidList}

abbrev one_ping : Bytes
one_ping = 1 ∷ 0 ∷ 6 ∷ 0 ∷ 0 ∷ 0 ∷ 4 ∷ 0 ∷ 2 ∷ 0 ∷ 0 ∷ 0 ∷ 7 ∷ 8 ∷ []

abbrev one_ping_list : SubMessageList
one_ping_list = record { body = one_ping; offsets_start = 2; count = 1 }

one_ping-accepted : decode one_ping 0 ≡ ok one_ping_list
unfolding decode check_messages check_message check_distinct check_header check_size read_type
    read_submessage_offset ranges_overlap resolve_range slice take u16 u32
one_ping-accepted = refl

decode-ValidList_example : ValidList one_ping 0 one_ping_list
decode-ValidList_example = decode-ValidList one_ping 0 (omega arith) one_ping-accepted
