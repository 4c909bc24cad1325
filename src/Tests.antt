-- ===== src/Tests.antt =====
-- Runs of the definitions at concrete inputs, and the theorems applied at such inputs.
mod Amp
mod Rooms
mod Relays
mod Media
mod Library
mod Loop
mod Orders
mod Joining
mod Subscribing
mod Silence
mod Starting
mod Signalling
mod Relaying
mod Upgrading
mod Connecting
mod Peers
mod Traffic
mod Greetings
mod Documents
