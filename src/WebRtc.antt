-- ===== src/WebRtc.antt =====
-- The crate just-webrtc: its types, the builder of peer connections, and the native and web platforms.
pub mod Types
pub mod Builder
pub mod Exclusive
pub mod Calls
pub mod Outcomes
pub mod Plan
pub mod Queue
pub mod Platform
pub mod Native
pub mod Wasm
