-- ===== src/Tests/Data.antt =====
-- The states and messages of the examples.
use just_webrtc.Common.{ℕ, zero, suc, Bool, none, some, List, [], ◌∷◌}
use just_webrtc.Proto.{
  TonicResult, ok, SignalOffer, SignalAnswer, LocalPeerReq, SignalOfferReq, OfferListenerRsp,
  AnswerListenerRsp,
}
use just_webrtc.Server.State.{Listeners, Signalling, no_listeners, channel_bound}
use just_webrtc.Server.Service.{
  Event, requested, offer_taken, offer_stream_dropped, advertise_req, offer_listener_req,
  signal_offer_req,
}
use just_webrtc.Tests.Channels.{libs, Pipe}

abbrev pub of : ℕ → LocalPeerReq
of id = record { local_peer = some (record { id = id }) }

abbrev pub an_offer : SignalOffer
an_offer = record { offerer_id = 0; offer = 7 ∷ 8 ∷ []; candidates = 9 ∷ [] }

abbrev pub an_answer : SignalAnswer
an_answer = record { answerer_id = 0; answer = 5 ∷ []; candidates = [] }

abbrev pub no_offer : TonicResult OfferListenerRsp
no_offer = ok (record { offer_signal = none })

abbrev pub no_answer : TonicResult AnswerListenerRsp
no_answer = ok (record { answer_signal = none })

abbrev pub times : {A : Type 0} → ℕ → A → List A
times zero x = []
times (suc n) x = x ∷ times n x

abbrev pub pipe : {M : Type 0} → Bool → List M → Pipe M
pipe connected queue = record { queue = queue; capacity = channel_bound; connected = connected }

abbrev pub listens : Bool → ℕ → Listeners libs
listens connected n = record {
  offer_listener_tx = some (pipe connected (times n no_offer));
  answer_listener_tx = some (pipe connected (times n no_answer));
}

-- Peer 0 does not listen; peer 1 does, with `n` messages in each of its buffers.
abbrev pub two_peers : Bool → ℕ → Signalling libs
two_peers connected n = record {
  generator = 2;
  peers = (0, no_listeners libs) ∷ (1, listens connected n) ∷ [];
  peer_broadcast = record { history = []; capacity = channel_bound };
}

abbrev an_offer_to_1 : SignalOfferReq
an_offer_to_1 = record { answerer_peer = some (record { id = 1 }); offer_signal = some an_offer }

-- Two peers join, one listens and is signalled an offer, and its stream is closed before a second one.
abbrev pub session : List Event
session =
    requested advertise_req
    ∷ requested advertise_req
    ∷ requested (offer_listener_req (of 1))
    ∷ offer_taken 1
    ∷ requested (signal_offer_req an_offer_to_1)
    ∷ offer_stream_dropped 1
    ∷ requested (signal_offer_req an_offer_to_1)
    ∷ []
