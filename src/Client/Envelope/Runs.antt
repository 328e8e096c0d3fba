-- ===== src/Client/Envelope/Runs.antt =====
-- A main body of two bytes in front of a list of one message.
use oxide_spice.Common.{◌≡◌, refl, some, [], ◌∷◌}
use oxide_spice.Bytes.{Bytes}
use oxide_spice.Channel.Header.{DataHeader}
use oxide_spice.Channel.SubMessages
use oxide_spice.Channel.SubMessages.{SubMessageList}
use oxide_spice.Client.Envelope.{IncomingEnvelope, counts_for_ack}
use oxide_spice.Common.{true}

abbrev two_and_one : Bytes
two_and_one = 9 ∷ 9 ∷ 1 ∷ 0 ∷ 8 ∷ 0 ∷ 0 ∷ 0 ∷ 4 ∷ 0 ∷ 2 ∷ 0 ∷ 0 ∷ 0 ∷ 7 ∷ 8 ∷ []

abbrev two_and_one_header : DataHeader
two_and_one_header = record {
  serial = some 1;
  message_type = 103;
  body_size = 16;
  sub_list_offset = some 2;
}

abbrev two_and_one_envelope : IncomingEnvelope
two_and_one_envelope = record {
  header = two_and_one_header;
  main_body = some (9 ∷ 9 ∷ []);
  submessages = some (record { body = two_and_one; offsets_start = 4; count = 1 });
}

two_and_one-counted : counts_for_ack two_and_one_envelope ≡ true
unfolding counts_for_ack
two_and_one-counted = refl
