-- ===== src/Client/Envelope.antt =====
-- crates/oxide-spice-client/src/channel.rs: `IncomingEnvelope`, one received body taken apart into
-- logical messages.
pub mod Order
mod Runs
use oxide_spice.Common.{
  ℕ, ◌+◌, ◌^◌, Bool, true, false, not, ◌&&◌, ◌||◌, Option, none, some, List, [], ◌∷◌, ◌++◌, ◌==◌,
  if◌then◌else◌, length, get_range,
}
use oxide_spice.Errors.{DecodeError, Result, ok, err, ok_or, ◌>>=◌, ◌>>◌}
use oxide_spice.Bytes.{Bytes, try_u32}
use oxide_spice.Channel.Header.{DataHeader}
use oxide_spice.Channel.SubMessages
use oxide_spice.Channel.SubMessages.{SubMessage, SubMessageList}
use oxide_spice.Messages.CommonServer
use oxide_spice.Client.Error.{
  ClientError, from_decode, protocol_value_error, unsupported_protocol_value,
}

pub record IncomingMessage : Type 0 where
  pub header : DataHeader
  pub body : Bytes

pub record IncomingEnvelope : Type 0 where
  pub header : DataHeader
  pub main_body : Option Bytes
  pub submessages : Option SubMessageList

-- `header.sub_list_offset.filter(|offset| *offset != 0)`.
abbrev pub list_offset : Option ℕ → Option ℕ
list_offset none = none
list_offset (some offset) = if offset == 0 then none else some offset

abbrev is_some {ℓ} : {A : Type ℓ} → Option A → Bool
is_some none = false
is_some (some a) = true

decode_list : DataHeader → Bytes → Result ClientError IncomingEnvelope
decode_list header body =
    if is_some (list_offset header.sub_list_offset)
    then err (unsupported_protocol_value "nested sub-message envelope")
    else (do
      list ← from_decode (SubMessages.decode body 0)
      ok (record { header = header; main_body = none; submessages = some list }))

decode_main : DataHeader → Bytes → Option ℕ → Result ClientError IncomingEnvelope
decode_main header body none =
    ok (record { header = header; main_body = some body; submessages = none })
decode_main header body (some offset) = do
  main_body ← ok_or (get_range 0 offset body) (protocol_value_error "sub-message list offset")
  list ← from_decode (SubMessages.decode body offset)
  ok (record { header = header; main_body = some main_body; submessages = some list })

pub decode : DataHeader → Bytes → Result ClientError IncomingEnvelope
unfolding decode_list decode_main
decode header body =
    if header.message_type == CommonServer.list
    then decode_list header body
    else decode_main header body (list_offset header.sub_list_offset)

-- The iterator's state: what it has still to hand out. `index` counts the logical messages.
pub record IncomingMessages : Type 0 where
  pub envelope_header : DataHeader
  pub submessages : Option SubMessageList
  pub index : ℕ
  pub main_body : Option Bytes

abbrev pub start : IncomingEnvelope → IncomingMessages
start e = record {
  envelope_header = e.header;
  submessages = e.submessages;
  index = 0;
  main_body = e.main_body;
}

-- The message's header. `expect` panics on a body that does not fit a u32, which is none here.
sub_message : DataHeader → SubMessage → Option IncomingMessage
sub_message h m = elim (try_u32 (length m.body)) [
  | none ↦ none
  | some body_size ↦ some (record {
    header = record {
      serial = h.serial;
      message_type = m.message_type;
      body_size = body_size;
      sub_list_offset = none;
    };
    body = m.body;
  })
]

main_message : DataHeader → Bytes → Option IncomingMessage
main_message h body = elim (try_u32 (length body)) [
  | none ↦ none
  | some body_size ↦
      some (record {
        header = record h { body_size = body_size; sub_list_offset = none };
        body = body;
      })
]

-- What one call of `next` gives: a message, the end, or a panic of one of the `expect`s.
pub data Yield : Type 0 where
  yielded : IncomingMessage → IncomingMessages → Yield
  finished : Yield
  panicked : Yield

or_panic : Option IncomingMessage → IncomingMessages → Yield
or_panic none it = panicked
or_panic (some m) it = yielded m it

next_main : IncomingMessages → Option Bytes → Yield
unfolding or_panic main_message
next_main it none = finished
next_main it (some body) =
    or_panic (main_message it.envelope_header body)
      (record it { submessages = none; main_body = none })

next_sub : IncomingMessages → Option (Result DecodeError (SubMessage × ℕ)) → Yield
unfolding or_panic sub_message next_main
next_sub it none = next_main it it.main_body
next_sub it (some (err e)) = panicked
next_sub it (some (ok taken)) =
    or_panic (sub_message it.envelope_header taken.0) (record it { index = taken.1 })

-- `Iterator::next`.
pub next : IncomingMessages → Yield
unfolding next_main next_sub
next it = elim it.submessages [
  | none ↦ next_main it it.main_body
  | some list ↦ next_sub it (SubMessages.next list it.index)
]

-- `counts_for_ack`.
pub counts_for_ack : IncomingEnvelope → Bool
counts_for_ack e =
    not (e.header.message_type == CommonServer.set_ack)
    || elim e.submessages [ none ↦ false | some list ↦ not (list.count == 0) ]
