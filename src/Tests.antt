-- ===== src/Tests.antt =====
-- Examples: the theorems at concrete inputs.
mod Channels
mod Data
mod Service
mod Glares
mod Interleaved
mod Offers
mod Answers
mod Streams
mod Clients
mod Peers
mod Whole
mod Builder
mod Native
mod Builds
mod Echoed
mod Monitored
mod Connecting
mod Served
mod Signalled
