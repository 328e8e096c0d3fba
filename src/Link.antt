-- ===== src/Link.antt =====
-- crates/oxide-spice-protocol/src/link.rs: the link header, the client's link message and the
-- server's link reply.
pub mod Header
pub mod Message
pub mod Reply
mod Runs
