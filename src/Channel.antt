-- ===== src/Channel.antt =====
-- crates/oxide-spice-protocol/src/channel.rs: what every channel shares. The headers, the
-- sub-message lists and the channel barriers are in the child modules.
pub mod Header
pub mod SubMessages
pub mod Waits
mod Runs
