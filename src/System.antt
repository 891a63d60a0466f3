-- ===== src/System.antt =====
-- Client and server together, over a transport that delivers each call to the server.
pub mod Transport
pub mod Mirror
pub mod Exchange
pub mod Joining
pub mod Meeting
pub mod Glare
