-- ===== src/Mesh.antt =====
-- crates/meshd: the mesh daemon.
pub mod Peers
pub mod Backoff
pub mod Connection
pub mod Hello
pub mod Sfu
pub mod Bridge
pub mod Dispatch
pub mod Events
pub mod Callback
pub mod Relaying
pub mod Subscribing
pub mod Upgrade
pub mod Tasks
pub mod Config
pub mod Startup
