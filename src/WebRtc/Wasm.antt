-- ===== src/WebRtc/Wasm.antt =====
-- crates/just-webrtc/src/platform/wasm.rs: the platform of the browsers.
pub mod Foreign
pub mod Convert
pub mod Link
pub mod Build
pub mod Methods
pub mod Planned
pub mod Thrown
pub mod Local
pub mod Built
pub mod Received
pub mod Ids
pub mod Instance
