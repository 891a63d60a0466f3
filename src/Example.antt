-- ===== src/Example.antt =====
-- The examples: signalling-peer, from the map of connections to the echo, and signalling-server.
pub mod Connections
pub mod Slots
pub mod Monitor
pub mod Watching
pub mod Reconnecting
pub mod Echo
pub mod EchoPair
pub mod Echoing
pub mod Negotiation
pub mod Signalled
pub mod Callbacks
pub mod Entering
pub mod Handover
pub mod Crossing
pub mod Hosting
