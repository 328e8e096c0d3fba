-- ===== src/Agent/Stream/Feed.antt =====
-- What the stream means: each byte by itself, whatever fragment carried it.
use oxide_spice.Common.{ℕ, none, some, List, [], ◌∷◌, ◌++◌, ◌==◌, if◌then◌else◌, length}
use oxide_spice.Errors.{DecodeError, Result, ok, err}
use oxide_spice.Bytes.{Bytes}
use oxide_spice.Wire.{parse}
use oxide_spice.Agent.Stream.{
  AgentMessage, PartialAgentMessage, AgentStreamDecoder, Round, next, failed, Pushed, pushed,
  read_header, store_payload,
}

-- A complete header starts a message, which is complete at once when it has no payload.
unfoldable pub begin :
    AgentStreamDecoder → Result DecodeError PartialAgentMessage → List AgentMessage → Round
unfolding store_payload
begin d (ok m) output = store_payload (record d { header = [] }) m [] output
begin d (err e) output = failed d output e

unfoldable pub feed_header : AgentStreamDecoder → List AgentMessage → Round
unfolding begin
feed_header d output =
    if length d.header == 20
    then begin d (parse (read_header d.maximum_message_bytes) d.header) output
    else next d [] output

unfoldable pub feed : AgentStreamDecoder → ℕ → List AgentMessage → Round
unfolding store_payload feed_header
feed d b output = elim d.current [
  | some m ↦ store_payload d (record m { payload = m.payload ++ (b ∷ []) }) [] output
  | none ↦ feed_header (record d { header = d.header ++ (b ∷ []) }) output
]

unfoldable pub feed_all : Bytes → AgentStreamDecoder → List AgentMessage → Pushed
feed_all [] d output = pushed d output (ok tt)
feed_all (b ∷ bs) d output = elim (feed d b output) [
  | next d' rest output' ↦ feed_all bs d' output'
  | failed d' output' e ↦ pushed d' output' (err e)
]
