-- ===== src/System/Transport.antt =====
-- What the client relies on of the gRPC transport (`tonic`): a call reaches the server, and its
-- response or status comes back.
use just_webrtc.Common.{◌≡◌}
use just_webrtc.Common.Action.{ok, err, Outcome, ret, fail, panic}
use just_webrtc.Proto.{TonicResult, Status, internal, LocalPeerReq, SignalOfferReq, SignalAnswerReq}
use just_webrtc.Client.State.{Streaming, StreamItem, arrived, broken}
use just_webrtc.Client.Rpc.{Stub}
use just_webrtc.Server.State.{Libs, Signalling, status}
use just_webrtc.Server.Peers.{advertise, peer_discover, open_peer_listener}
use just_webrtc.Server.Offers.{signal_offer, open_offer_listener}
use just_webrtc.Server.Answers.{signal_answer, open_answer_listener}

-- What the caller sees of a handler's outcome.
abbrev pub answer_of : {A : Type 0} → Outcome Status A → TonicResult A
answer_of (ret a) = ok a
answer_of (fail e) = err e
answer_of panic = err (status internal "handler panicked")

-- What the caller's stream yields for an item of the server's stream.
abbrev pub item_of : {M : Type 0} → TonicResult M → StreamItem M
item_of (ok m) = arrived m
item_of (err e) = broken e

-- What the caller gets for a handler that opens a stream.
abbrev pub Opens : {A M : Type 0} → TonicResult (Streaming M) → Outcome Status A → Type 0
Opens {M = M} r (ret a) = (listener : Streaming M) × (r ≡ ok listener)
Opens r (fail e) = r ≡ err e
Opens r panic = r ≡ err (status internal "handler panicked")

module _ (L : Libs) {W : Type 0} (stub : Stub W) (server : W → Signalling L) where
  pub record Serves : Type 0 where
    pub advertises :
        (w : W)
        → ((stub.advertise w).0 ≡ answer_of (advertise L (server w)).0)
          × (server (stub.advertise w).1 ≡ (advertise L (server w)).1)
    pub discovers :
        (m : LocalPeerReq) (w : W)
        → stub.peer_discover m w ≡ (answer_of (peer_discover L m (server w)).0, w)
    pub opens_peers :
        (m : LocalPeerReq) (w : W)
        → Opens (stub.open_peer_listener m w).0 (open_peer_listener L m (server w)).0
          × (server (stub.open_peer_listener m w).1 ≡ (open_peer_listener L m (server w)).1)
    pub opens_offers :
        (m : LocalPeerReq) (w : W)
        → Opens (stub.open_offer_listener m w).0 (open_offer_listener L m (server w)).0
          × (server (stub.open_offer_listener m w).1 ≡ (open_offer_listener L m (server w)).1)
    pub opens_answers :
        (m : LocalPeerReq) (w : W)
        → Opens (stub.open_answer_listener m w).0 (open_answer_listener L m (server w)).0
          × (server (stub.open_answer_listener m w).1 ≡ (open_answer_listener L m (server w)).1)
    pub offers :
        (m : SignalOfferReq) (w : W)
        → ((stub.signal_offer m w).0 ≡ answer_of (signal_offer L m (server w)).0)
          × (server (stub.signal_offer m w).1 ≡ (signal_offer L m (server w)).1)
    pub answers :
        (m : SignalAnswerReq) (w : W)
        → ((stub.signal_answer m w).0 ≡ answer_of (signal_answer L m (server w)).0)
          × (server (stub.signal_answer m w).1 ≡ (signal_answer L m (server w)).1)
