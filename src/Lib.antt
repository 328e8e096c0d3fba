-- ===== src/Lib.antt =====
-- OxideSpice: the client's wire protocol and the channel logic above it.
--
-- Parts. The protocol crate (crates/oxide-spice-protocol) decodes and encodes bodies over a checked
-- cursor. The client crate (crates/oxide-spice-client) reads one wire envelope, takes it apart into
-- logical messages, lets the control state and the barrier registry consume theirs, gives the rest to
-- the channel's own task, and accounts for the envelope in the ACK window. The Main channel's task
-- carries agent messages, cut into bodies of at most 2048 bytes. The codecs crate
-- (crates/oxide-spice-codecs) expands the images of the display channel.
--
-- Common      shared names, Boolean tests, lists by native length, bits of numbers.
-- Errors      error.rs of the protocol crate, and results with `?`.
-- Bytes       little-endian forms, two's complement, checked arithmetic of a 64-bit usize.
-- Wire        wire.rs: `Reader`, `resolve_range`, `checked_array_bytes`. A parser passes the reader on.
-- Capability  capability.rs: the bitmap as a list of 32-bit words.
-- Messages    message numbers of channel.rs and inputs.rs.
-- ChannelType, Channel   channel.rs of the protocol crate: headers, sub-message lists, waits.
-- Link        link.rs: header, client message, server reply.
-- Smartcard, Spicevmc, Inputs, MouseMode   smartcard.rs, spicevmc.rs, inputs.rs, and the mouse mode of
--             main_channel.rs.
-- Client      channel.rs and inputs.rs of the client crate: Error (also error.rs), Transport
--             (`write_message`) with Transport/Migration (`read_message`, `migrate_to_replacement`,
--             `activate_replacement`), Control (`ControlState`), Progress (`ProgressRegistry`), Envelope
--             (`IncomingEnvelope`), Inputs (`InputsHandle`) with Inputs/Task (`run_inputs`).
-- Agent       agent.rs of the protocol crate: Stream (`AgentStreamDecoder`) with Feed, the meaning of the
--             stream byte by byte, Outbound (`OutboundAgentMessage`), and Clipboard (its request, data and
--             release payloads).
-- Lz          lz.rs of the codecs crate: Stream (`decompress_units`) with Tokens, the format written down
--             as literals and back-references, Output (pixels and rows) and Decode (`decode_lz`).
-- Glz         glz.rs of the codecs crate: Reference (`decode_reference`, `copy_reference`) and Decode
--             (`decode_glz_with_cancel`). The dictionary is an argument.
-- BigEndian   the reader that lz.rs and glz.rs each have, and its inversions.
--
-- Conventions. Integers are natural numbers with their ranges as hypotheses where a theorem needs
-- them. A `Vec` or slice is a list; a hash map is an association list. A panic of the source is an
-- error or a value of its own. The loops are structural: over the count of a list, over the list of
-- barriers, over the bits. Iterating a sub-message list (`collect`) and an envelope (`drain`) takes a
-- number of calls: one more than the list's count, and two more than the logical messages, are enough.
-- The transport's `write_all`, the read of a header (which a replacement, a failure or cancellation may
-- interrupt), the read of a body and the wait for a replacement of the active generation are
-- arguments. `wait_for` is one poll of the future. In Inputs/Task the branches of `select!` are the
-- constructors of a step relation, so that every order of them is covered; the session's change of the
-- mouse mode is a step of its own, and the branch that sees it another. The rounds of an agent
-- fragment have its length as fuel, since each takes a byte; those that fill an outbound fragment have
-- 2048, since each adds one; those of an LZ stream have the expected units and the length of the input,
-- since each reads a byte; those of a GLZ stream have the expected pixels, since each produces one.
-- `decode_lz` never cancels, and GLZ is modelled for a caller that never does, so the polls of
-- `should_cancel` are left out.
--
-- Not modelled: the other agent payloads, linking a transport, SASL, cancellation outside `wait_for`,
-- the display and audio channels,
-- the agent's task, the other codecs, and the helper process.
pub mod Common
pub mod Errors
pub mod Bytes
pub mod Wire
pub mod Capability
pub mod Messages
pub mod ChannelType
pub mod Channel
pub mod Link
pub mod Client
pub mod Smartcard
pub mod Spicevmc
pub mod MouseMode
pub mod Inputs
pub mod Agent
pub mod BigEndian
pub mod Lz
pub mod Glz
