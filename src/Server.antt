-- ===== src/Server.antt =====
-- The signalling server, crates/just-webrtc-signalling/src/server.rs.
pub mod State
pub mod Peers
pub mod Offers
pub mod Answers
pub mod Service
pub mod NoPanic
pub mod Move
pub mod WellFormed
pub mod Ids
pub mod Announce
pub mod OfferDelivery
pub mod AnswerDelivery
pub mod Mailbox
pub mod Discovery
pub mod Segments
pub mod Quiet
pub mod Settled
pub mod Listening
pub mod Race
pub mod Serving
pub mod Served
