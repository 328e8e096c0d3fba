-- ===== src/Channel/SubMessages.antt =====
-- crates/oxide-spice-protocol/src/channel.rs: the list of logical messages in one envelope. The
-- whole list is validated before any message is handed out.
pub mod Valid
pub mod Total
mod Runs
use oxide_spice.Common.{
  ℕ, zero, suc, ◌+◌, ◌*◌, ◌^◌, ◌≡◌, Bool, true, false, not, ◌&&◌, Option, none, some, List, [], ◌∷◌,
  String, ltb, leb, ◌==◌, if◌then◌else◌, length, drop,
}
use oxide_spice.Errors.{
  DecodeErrorKind, overflow, resource_limit, unsupported, invalid_offset, DecodeError, decode_error,
  Result, ok, err, ok_or, ensure, ◌>>=◌, ◌>>◌,
}
use oxide_spice.Bytes.{Bytes, try_u32, checked_add, checked_mul}
use oxide_spice.Wire.{Reader, Range, take, u16, u32, new, parse, slice, resolve_range}
use oxide_spice.Messages.CommonServer

abbrev pub max_submessages : ℕ
max_submessages = 64

pub record SubMessage : Type 0 where
  pub message_type : ℕ
  pub body : Bytes

pub record SubMessageList : Type 0 where
  pub body : Bytes
  pub offsets_start : ℕ
  pub count : ℕ

unfoldable pub read_submessage_offset : Bytes → ℕ → ℕ → Result DecodeError ℕ
read_submessage_offset body offsets_start index = do
  step ← ok_or (checked_mul index 4) (decode_error overflow offsets_start "sub-message offset")
  start ←
      ok_or (checked_add offsets_start step)
        (decode_error overflow offsets_start "sub-message offset")
  wire_start ← ok_or (try_u32 start) (decode_error overflow start "sub-message offset")
  range ← resolve_range body wire_start 4 "sub-message offset"
  parse (u32 "sub-message offset") (slice body range)

unfoldable pub ranges_overlap : ℕ → ℕ → ℕ → ℕ → Bool
ranges_overlap first_start first_end second_start second_end =
    ltb first_start second_end && ltb second_start first_end

-- The inner loop: `rounds` earlier entries from `earlier` on are not `offset`.
unfoldable pub check_distinct : Bytes → ℕ → ℕ → ℕ → ℕ → ℕ → Result DecodeError (Unit {0})
check_distinct body offsets_start index offset zero earlier = ok tt
check_distinct body offsets_start index offset (suc rounds) earlier = do
  other ← read_submessage_offset body offsets_start earlier
  ensure (not (other == offset))
      (decode_error invalid_offset (offsets_start + index * 4) "duplicate sub-message offset")
  check_distinct body offsets_start index offset rounds (earlier + 1)

-- The header at `header`: type and body size, read from its six bytes.
unfoldable pub read_type : Bytes → Range → Result DecodeError (ℕ × Reader)
read_type body header = u16 "sub-message type" (new (slice body header))

unfoldable pub check_size : Bytes → ℕ → ℕ → Range → Reader → Result DecodeError (Unit {0})
check_size body list_start table_end header message_reader = do
  (message_size, _) ← u32 "sub-message size" message_reader
  message_end ←
      ok_or (checked_add header.end message_size)
        (decode_error overflow header.end "sub-message body")
  ensure (leb message_end (length body)) (decode_error invalid_offset header.end "sub-message body")
  ensure (not (ranges_overlap header.start message_end list_start table_end))
      (decode_error invalid_offset header.start "sub-message overlaps list")

unfoldable pub check_header : Bytes → ℕ → ℕ → Range → Result DecodeError (Unit {0})
check_header body list_start table_end header = do
  (message_type, message_reader) ← read_type body header
  ensure (not (message_type == CommonServer.list))
      (decode_error unsupported header.start "nested sub-message list")
  check_size body list_start table_end header message_reader

-- One round of the outer loop.
unfoldable pub check_message : Bytes → ℕ → ℕ → ℕ → ℕ → Result DecodeError (Unit {0})
check_message body list_start table_end offsets_start index = do
  offset ← read_submessage_offset body offsets_start index
  check_distinct body offsets_start index offset index 0
  header ← resolve_range body offset 6 "sub-message header"
  check_header body list_start table_end header

unfoldable pub check_messages : Bytes → ℕ → ℕ → ℕ → ℕ → ℕ → Result DecodeError (Unit {0})
check_messages body list_start table_end offsets_start zero index = ok tt
check_messages body list_start table_end offsets_start (suc rounds) index = do
  check_message body list_start table_end offsets_start index
  check_messages body list_start table_end offsets_start rounds (index + 1)

unfoldable pub decode : Bytes → ℕ → Result DecodeError SubMessageList
decode body list_offset = do
  list ← resolve_range body list_offset 2 "sub-message list"
  count ← parse (u16 "sub-message count") (drop list.start body)
  ensure (leb count max_submessages) (decode_error resource_limit list.start "sub-message count")
  offsets_start ←
      ok_or (checked_add list.start 2) (decode_error overflow list.start "sub-message offsets")
  offsets_bytes ←
      ok_or (checked_mul count 4) (decode_error overflow offsets_start "sub-message offsets")
  wire_start ←
      ok_or (try_u32 offsets_start) (decode_error overflow offsets_start "sub-message offsets")
  table ← resolve_range body wire_start offsets_bytes "sub-message offsets"
  check_messages body list.start table.end offsets_start count 0
  ok (record { body = body; offsets_start = offsets_start; count = count })

-- Type, size and body, read from the bytes that start at the message.
read_message : Bytes → Result DecodeError SubMessage
read_message bytes = do
  (message_type, reader) ← u16 "sub-message type" (new bytes)
  (size, reader') ← u32 "sub-message size" reader
  (body, _) ← take size "sub-message body" reader'
  ok (record { message_type = message_type; body = body })

-- The message of an entry of the table. Each `expect` of the source panics on an error, which is an
-- error here.
pub message_at : SubMessageList → ℕ → Result DecodeError SubMessage
message_at l index = do
  start ← read_submessage_offset l.body l.offsets_start index
  read_message (drop start l.body)

-- `SubMessages::next` on the list and the index of the next message: none at the end, and otherwise
-- the message and the new index.
unfoldable pub next : SubMessageList → ℕ → Option (Result DecodeError (SubMessage × ℕ))
next l index =
    if index == l.count
    then none
    else some (do message ← message_at l index; ok (message, index + 1))

prepend :
    SubMessage
    → Option (Result DecodeError (List SubMessage))
    → Option (Result DecodeError (List SubMessage))
prepend message none = none
prepend message (some (err e)) = some (err e)
prepend message (some (ok messages)) = some (ok (message ∷ messages))

-- Iterating from an index on, as `for message in list.iter()` does from 0: `next` is called until it
-- returns none. None here when so many calls do not come to that end.
unfoldable pub collect : ℕ → SubMessageList → ℕ → Option (Result DecodeError (List SubMessage))
unfolding prepend
collect zero l index = none
collect (suc calls) l index = elim (next l index) [
  | none ↦ some (ok [])
  | some step ↦ elim step [
    | err e ↦ some (err e)
    | ok taken ↦ prepend taken.0 (collect calls l taken.1)
  ]
]
