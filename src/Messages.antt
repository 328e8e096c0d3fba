-- ===== src/Messages.antt =====
-- Message identifiers, one module for each `mod` of constants in the source.
pub mod CommonServer
pub mod CommonClient
pub mod InputsServer
pub mod InputsClient
