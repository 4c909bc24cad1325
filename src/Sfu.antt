-- ===== src/Sfu.antt =====
-- crates/sfu: the selective forwarding unit.
pub mod Room
pub mod Cleanup
pub mod Relay
pub mod Command
pub mod Media
pub mod WebRtc
pub mod Session
pub mod Loop
pub mod Placement
pub mod Sessions
