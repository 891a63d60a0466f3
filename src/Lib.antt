-- ===== src/Lib.antt =====
-- The signalling of just-webrtc: a server through which peers find one another and exchange WebRTC
-- offers and answers, the client that drives a peer's side of it, and the connections that it builds on
-- the native and on the web platform.
--
-- The parts. Peers call the gRPC service of crates/just-webrtc-signalling/src/server.rs. `advertise`
-- gives a peer its id and announces it on a broadcast channel; the listeners that a peer opens are
-- streams of what the others announce (peers) and send to it (offers, answers). A peer's client,
-- crates/just-webrtc-signalling/src/client.rs, queues one task per listener and one future per
-- signalling chain that is under way, and handles what completes next. The connections themselves are
-- made by crates/just-webrtc/src, whose options the builder collects.
--
-- The files.
--   Common      Boolean tests, lists, `HashMap<u64, _>` as an association list, `BTreeSet<u64>`, and
--               `Action`, code that changes a state and may return early or panic
--   Proto       the messages of crates/just-webrtc-signalling/proto/main.proto
--   Known       what a sequence of peer changes says of a peer
--   Interfaces  flume's bounded channel and async_broadcast's channel, as records of operations with
--               their documented laws; they are parameters of everything that uses them
--   Server      server.rs. State is `Listeners`, `Signalling` and `GENERATOR`; Peers is `advertise`,
--               `teardown`, `peer_discover` and `open_peer_listener`; Offers and Answers are the two
--               pairs `signal_…` and `open_…_listener`; Service is all requests together, and the
--               events by which the environment takes messages from the listeners' channels;
--               Segments is the handlers cut at their locks, which interleave, and Listening and Race
--               are about a listener that is opened meanwhile; Serving is `serve` and `serve_web`, over
--               the transports as a parameter
--   Client      client.rs. State is its data; Tasks the listener tasks; Rpc the private methods of
--               `RtcSignallingClient`, over the generated client as a parameter; Peer the creation,
--               callbacks and end of `RtcSignallingPeer`; Step its `step`; Builder is
--               `RtcSignallingClientBuilder`, over the transports as parameters
--   System      client and server together, joined by calls that are carried out at once
--   WebRtc      crates/just-webrtc/src. Types is types.rs and Builder the builder of lib.rs; Calls is code
--               that calls a library whose calls are recorded, Outcomes what code returns or fails with,
--               Plan what either `build` is to ask of its library, Queue a channel that is received from
--               again and again, Platform the traits that both platforms implement, with laws. Native is
--               platform/native.rs, with webrtc-rs as a parameter, and Wasm is platform/wasm.rs, with the
--               browser's API as a parameter; in each, Foreign (and Connections) is that parameter,
--               Convert the conversions, Link the handlers and what
--               awaits them, Build the `build`, and Methods the methods of `PeerConnection` and `Channel`
--   Example     examples/signalling-peer/src/main.rs: Connections is the map of connections that callbacks
--               share, Monitor the loop of `peer_echo_task`, Negotiation `create_offer`,
--               `receive_offer` and `receive_answer` over either platform, Callbacks the closures of
--               `run_peer`, Echo what `channel_echo_task` does from one await to the next, and
--               EchoPair two such tasks on connected channels. Hosting is
--               examples/signalling-server/src/main.rs
--   Tests       concrete channels and clients, and the theorems at concrete inputs
-- The other files of a directory hold its theorems, and say at their top what they are about.
--
-- How the code is read. A handler is a function from the state to an outcome and the next state:
-- handlers run one after the other, except in Segments, and a lock is never poisoned. The
-- stream that an offer or answer listener gets is named by the peer whose entry holds its channel. A
-- map's list order stands for its iteration order. Ids are numbers below 2 ^ 64, and the generator wraps
-- there; it belongs to the process, so an event draws from it on behalf of another `Signalling`. The
-- enumeration of a peer change takes its two named values only. A `Streaming` is the list of items to
-- come, and a task on a stream that yields nothing more stays pending. A callback is a function to what
-- its future resolves to, if ever. Of the queued futures, an argument of `step` picks the one that
-- completes. What a call of webrtc-rs or of the browser answers is a function of its arguments and of all
-- calls before it on that connection. An exception that the web platform does not catch ends `build` and
-- its callers as an error would, but is none of its errors. A connection's session holds what its handlers
-- and its user share; the handlers run as events between the calls of the user. A turn of the example's
-- loop is the completion of one of its futures. Every loop is over a list, or, where it listens forever,
-- one turn of it, but for
-- the two loops of a platform that await a channel or a cell: they take one unit of fuel for each value,
-- and their theorems say how much is enough. A callback of the example that gathers candidates with too
-- little of it counts as waiting.
--
-- Not modelled: the metadata of requests beyond the timeout that the builder sets; logging; how
-- JavaScript holds the closures that it calls; `run_peer` of the example peer beyond its callbacks, and
-- its `main`.
mod Common
pub mod Proto
pub mod Known
pub mod Interfaces
pub mod Server
pub mod Client
pub mod System
pub mod WebRtc
pub mod Example
mod Tests
