-- ===== src/Agent.antt =====
-- crates/oxide-spice-protocol/src/agent.rs: the stream of agent messages inside the Main channel.
pub mod Stream
pub mod Outbound
pub mod Clipboard
