-- ===== src/Amp.antt =====
-- crates/amp: the addresses and messages of the AMP protocol.
pub mod Address
pub mod Message
pub mod Validate
