-- ===== src/Client.antt =====
-- crates/oxide-spice-client: the parts of the channel tasks that keep protocol state.
pub mod Error
pub mod Transport
pub mod Control
pub mod Progress
pub mod Envelope
pub mod Inputs
