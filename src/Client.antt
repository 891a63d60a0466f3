-- ===== src/Client.antt =====
-- The signalling client, crates/just-webrtc-signalling/src/client.rs.
pub mod State
pub mod Tasks
pub mod Rpc
pub mod Peer
pub mod Step
pub mod Frame
pub mod Armed
pub mod Chains
pub mod Callbacks
pub mod Loop
pub mod Discovery
pub mod Chain
pub mod Builder
pub mod Connecting
