-- ===== src/WebRtc/Native.antt =====
-- crates/just-webrtc/src/platform/native.rs: the conversions to and from the types of webrtc-rs, and
-- the channel and the cell through which a connection's handlers reach its user.
pub mod Foreign
pub mod Convert
pub mod Link
pub mod Connections
pub mod Build
pub mod Watched
pub mod Planned
pub mod Hung
pub mod Built
pub mod Methods
pub mod Messages
pub mod Channels
pub mod RoundTrip
pub mod Gathering
pub mod Instance
