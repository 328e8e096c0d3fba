-- ===== src/Agent/Outbound.antt =====
-- crates/oxide-spice-protocol/src/agent.rs: `OutboundAgentMessage`, which cuts one agent message into
-- token-sized bodies. A slice of the source is a `take` of a `drop`.
pub mod Window
pub mod Drain
pub mod RoundTrip
mod Runs
use oxide_spice.Common.{
  ℕ, zero, suc, ◌+◌, ◌-◌, Bool, not, ◌&&◌, none, some, List, [], ◌∷◌, ◌++◌, ◌==◌, ltb, min,
  if◌then◌else◌, length, take, drop,
}
use oxide_spice.Errors.{
  invalid_value, overflow, resource_limit, DecodeError, decode_error, Result, ok, err,
}
use oxide_spice.Bytes.{Bytes, to_le, try_u32}
use oxide_spice.Agent.Stream.{agent_message_header_bytes, max_agent_fragment_bytes}

abbrev pub agent_protocol : ℕ
agent_protocol = 1

pub record OutboundAgentMessage : Type 0 where
  pub header : Bytes
  pub payload : Bytes
  pub stream_offset : ℕ

abbrev pub header_of : ℕ → ℕ → ℕ → Bytes
header_of message_type opaque payload_size =
    to_le 4 agent_protocol ++ (to_le 4 message_type ++ (to_le 8 opaque ++ to_le 4 payload_size))

pub new : ℕ → ℕ → Bytes → ℕ → Result DecodeError OutboundAgentMessage
new message_type opaque payload maximum_message_bytes =
    if ltb maximum_message_bytes (length payload)
    then err (decode_error resource_limit (length payload) "outbound agent payload")
    else elim (try_u32 (length payload)) [
      | none ↦ err (decode_error overflow (length payload) "outbound agent payload")
      | some payload_size ↦ ok (record {
        header = header_of message_type opaque payload_size;
        payload = payload;
        stream_offset = 0;
      })
    ]

pub is_complete : OutboundAgentMessage → Bool
is_complete m = m.stream_offset == agent_message_header_bytes + length m.payload

-- What one round of the loop appends to `output`: the rest of the header, or of the payload, as far as
-- there is room.
pub chunk : OutboundAgentMessage → ℕ → Bytes
chunk m written =
    let room = max_agent_fragment_bytes - written in
    let payload_offset = m.stream_offset - agent_message_header_bytes in
    if ltb m.stream_offset agent_message_header_bytes
    then take (min (agent_message_header_bytes - m.stream_offset) room)
        (drop m.stream_offset m.header)
    else take (min (length m.payload - payload_offset) room) (drop payload_offset m.payload)

pub copied : OutboundAgentMessage → ℕ → ℕ
copied m written =
    let room = max_agent_fragment_bytes - written in
    if ltb m.stream_offset agent_message_header_bytes
    then min (agent_message_header_bytes - m.stream_offset) room
    else min (length m.payload - (m.stream_offset - agent_message_header_bytes)) room

abbrev pub moved : ℕ → OutboundAgentMessage → OutboundAgentMessage
moved n m = record m { stream_offset = m.stream_offset + n }

-- The loop of `next_fragment`, with fuel for its rounds. Each round adds a byte to an output of at most
-- `max_agent_fragment_bytes`.
pub fill : ℕ → OutboundAgentMessage → Bytes → OutboundAgentMessage × Bytes
fill zero m output = (m, output)
fill (suc fuel) m output =
    let rest = fill fuel (moved (copied m (length output)) m) (output ++ chunk m (length output)) in
    if ltb (length output) max_agent_fragment_bytes && not (is_complete m)
    then rest
    else (m, output)

-- The error leaves the message and the output buffer as they were.
pub next_fragment : OutboundAgentMessage → Result DecodeError (OutboundAgentMessage × Bytes)
next_fragment m =
    if is_complete m
    then err (decode_error invalid_value m.stream_offset "completed outbound agent message")
    else ok (fill max_agent_fragment_bytes m [])
