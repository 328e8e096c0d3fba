-- ===== src/Agent/Stream.antt =====
-- crates/oxide-spice-protocol/src/agent.rs: `AgentStreamDecoder`, which puts agent messages together
-- again from the token-sized bodies that carry them. The filled part of the header buffer is a list,
-- so `header_bytes` is its length.
pub mod Feed
pub mod FeedRuns
pub mod Refine
pub mod Fragments
pub mod Stuck
mod Runs
use oxide_spice.Common.{
  ℕ, zero, suc, ◌-◌, ◌*◌, Bool, not, ◌||◌, Option, none, some, List, [], ◌∷◌, ◌++◌, ◌==◌, ltb, leb,
  min, if◌then◌else◌, length, take, drop,
}
use oxide_spice.Errors.{resource_limit, DecodeError, decode_error, Result, ok, err}
use oxide_spice.Bytes.{Bytes}
use oxide_spice.Wire
use oxide_spice.Wire.{Parser, u32, u64, pure, require, parse, ◌>>=◌, ◌>>◌}

abbrev pub agent_message_header_bytes : ℕ
agent_message_header_bytes = 20

abbrev pub max_agent_fragment_bytes : ℕ
max_agent_fragment_bytes = 2048

pub record AgentMessage : Type 0 where
  pub protocol : ℕ
  pub message_type : ℕ
  pub opaque : ℕ
  pub payload : Bytes

pub record PartialAgentMessage : Type 0 where
  pub protocol : ℕ
  pub message_type : ℕ
  pub opaque : ℕ
  pub declared_size : ℕ
  pub payload : Bytes

pub record AgentStreamDecoder : Type 0 where
  pub maximum_message_bytes : ℕ
  pub header : Bytes
  pub current : Option PartialAgentMessage

abbrev pub empty_decoder : ℕ → AgentStreamDecoder
empty_decoder maximum_message_bytes = record {
  maximum_message_bytes = maximum_message_bytes;
  header = [];
  current = none;
}

pub new : ℕ → Result DecodeError AgentStreamDecoder
new maximum_message_bytes =
    if maximum_message_bytes == 0
    then err (decode_error resource_limit 0 "agent message bound")
    else ok (empty_decoder maximum_message_bytes)

abbrev pub reset : AgentStreamDecoder → AgentStreamDecoder
reset d = record d { header = []; current = none }

-- The fields of a complete header, and the bound on the payload.
unfoldable pub read_header : ℕ → Parser PartialAgentMessage
read_header maximum_message_bytes = do
  protocol ← u32 "agent protocol"
  message_type ← u32 "agent message type"
  opaque ← u64 "agent opaque"
  declared_size ← u32 "agent payload size"
  require (leb declared_size maximum_message_bytes)
      (decode_error resource_limit 16 "agent payload size")
  pure (record {
    protocol = protocol;
    message_type = message_type;
    opaque = opaque;
    declared_size = declared_size;
    payload = [];
  })

abbrev pub finished : PartialAgentMessage → AgentMessage
finished m = record {
  protocol = m.protocol;
  message_type = m.message_type;
  opaque = m.opaque;
  payload = m.payload;
}

-- After one round of the loop: what is left of the fragment, and the messages so far; or an error.
pub data Round : Type 0 where
  next : AgentStreamDecoder → Bytes → List AgentMessage → Round
  failed : AgentStreamDecoder → List AgentMessage → DecodeError → Round

-- The second half of a round, with the extended message in place.
unfoldable pub store_payload :
    AgentStreamDecoder → PartialAgentMessage → Bytes → List AgentMessage → Round
store_payload d m fragment output =
    if length m.payload == m.declared_size
    then next (record d { current = none }) fragment (output ++ (finished m ∷ []))
    else next (record d { current = some m }) fragment output

pub take_payload : AgentStreamDecoder → PartialAgentMessage → Bytes → List AgentMessage → Round
take_payload d m fragment output =
    let copied = min (m.declared_size - length m.payload) (length fragment) in
    store_payload d (record m { payload = m.payload ++ take copied fragment })
      (drop copied fragment) output

pub begin_payload :
    AgentStreamDecoder → Result DecodeError PartialAgentMessage → Bytes → List AgentMessage → Round
begin_payload d (ok m) fragment output = take_payload (record d { header = [] }) m fragment output
begin_payload d (err e) fragment output = failed d output e

-- The first half, with the extended header in place.
pub store_header : AgentStreamDecoder → Bytes → List AgentMessage → Round
store_header d fragment output =
    if not (length d.header == agent_message_header_bytes)
    then next d fragment output
    else begin_payload d (parse (read_header d.maximum_message_bytes) d.header) fragment output

pub round : AgentStreamDecoder → Bytes → List AgentMessage → Round
round d fragment output = elim d.current [
  | some m ↦ take_payload d m fragment output
  | none ↦
      let copied = min (agent_message_header_bytes - length d.header) (length fragment) in
      store_header (record d { header = d.header ++ take copied fragment }) (drop copied fragment)
        output
]

-- What a push leaves behind: the decoder, all messages, and how it ended.
pub record Pushed : Type 0 where
  pub decoder : AgentStreamDecoder
  pub output : List AgentMessage
  pub result : Result DecodeError (Unit {0})

abbrev pub pushed : AgentStreamDecoder → List AgentMessage → Result DecodeError (Unit {0}) → Pushed
pushed d output result = record { decoder = d; output = output; result = result }

-- The loop, with fuel for its rounds. Each round takes at least one byte, so the fragment's length is
-- enough.
pub rounds : ℕ → AgentStreamDecoder → Bytes → List AgentMessage → Pushed
rounds fuel d [] output = pushed d output (ok tt)
rounds zero d (b ∷ bs) output = pushed d output (ok tt)
rounds (suc fuel) d (b ∷ bs) output = elim (round d (b ∷ bs) output) [
  | next d' fragment output' ↦ rounds fuel d' fragment output'
  | failed d' output' e ↦ pushed d' output' (err e)
]

-- `push_fragment_into`.
unfoldable pub push_fragment_into : Bytes → AgentStreamDecoder → List AgentMessage → Pushed
push_fragment_into fragment d output =
    if length fragment == 0 || ltb max_agent_fragment_bytes (length fragment)
    then pushed d output
        (err (decode_error resource_limit (length fragment) "agent fragment bytes"))
    else rounds (length fragment) d fragment output

-- Fragments one after the other, until one fails.
pub push_all : List Bytes → AgentStreamDecoder → List AgentMessage → Pushed
push_all [] d output = pushed d output (ok tt)
push_all (fragment ∷ fragments) d output =
    let p = push_fragment_into fragment d output in
    elim p.result [ ok done ↦ push_all fragments p.decoder p.output | err e ↦ p ]
