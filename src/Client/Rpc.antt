-- ===== src/Client/Rpc.antt =====
-- The private methods of `RtcSignallingClient`, over the generated gRPC client.
use just_webrtc.Common.{String, ℕ, Option, none, some, List, map}
use just_webrtc.Common.Action.{Result, ok, err, ret, fail, panic, Action, ◌>>=◌, pure}
use just_webrtc.Proto.{
  TonicResult, Status, PeerId, LocalPeerReq, AdvertiseRsp, PeerDiscoverRsp, PeerListenerRsp,
  SignalOfferReq, OfferListenerRsp, SignalAnswerReq, AnswerListenerRsp,
}
use just_webrtc.Client.State.{ClientError, bincode, tonic_status, Signals, Streaming}

-- The generated client, as calls on the world `W` in which the server and the network stand.
pub record Stub (W : Type 0) : Type 0 where
  pub advertise : W → TonicResult AdvertiseRsp × W
  pub teardown : LocalPeerReq → W → TonicResult (Unit {0}) × W
  pub peer_discover : LocalPeerReq → W → TonicResult PeerDiscoverRsp × W
  pub open_peer_listener : LocalPeerReq → W → TonicResult (Streaming PeerListenerRsp) × W
  pub open_offer_listener : LocalPeerReq → W → TonicResult (Streaming OfferListenerRsp) × W
  pub open_answer_listener : LocalPeerReq → W → TonicResult (Streaming AnswerListenerRsp) × W
  pub signal_offer : SignalOfferReq → W → TonicResult (Unit {0}) × W
  pub signal_answer : SignalAnswerReq → W → TonicResult (Unit {0}) × W

-- A call of the generated client, with `?` on its result.
abbrev pub call : {W A : Type 0} → (W → TonicResult A × W) → Action Status W A
call f w = elim (f w).0 [ ok a ↦ (ret a, (f w).1) | err e ↦ (fail e, (f w).1) ]

-- `?` on an error that converts into another.
abbrev pub convert : {E F S A : Type 0} → (E → F) → Action E S A → Action F S A
convert into m s = elim (m s).0 [
  | ret a ↦ (ret a, (m s).1)
  | fail e ↦ (fail (into e), (m s).1)
  | panic ↦ (panic, (m s).1)
]

abbrev pub serialized : {E S A : Type 0} → (String → E) → Result String A → Action E S A
serialized into (ok a) s = (ret a, s)
serialized into (err e) s = (fail (into e), s)

abbrev pub of_local : ℕ → LocalPeerReq
of_local id = record { local_peer = some (record { id = id }) }

-- `local_peer.unwrap().id`
abbrev pub unwrap_id : {E S : Type 0} → Option PeerId → Action E S ℕ
unwrap_id none s = (panic, s)
unwrap_id (some p) s = (ret p.id, s)

module _ {W : Type 0} (stub : Stub W) where
  unfoldable pub advertise : Action Status W ℕ
  advertise = do response ← call stub.advertise; unwrap_id response.local_peer

  unfoldable pub teardown : ℕ → Action Status W (Unit {0})
  teardown id = do _ ← call (stub.teardown (of_local id)); pure tt

  unfoldable pub peer_discover : ℕ → Action Status W (List ℕ)
  peer_discover id = do
    response ← call (stub.peer_discover (of_local id))
    pure (map (λ (peer : PeerId). peer.id) response.remote_peers)

  unfoldable pub open_peer_listener : ℕ → Action Status W (Streaming PeerListenerRsp)
  open_peer_listener id = call (stub.open_peer_listener (of_local id))

  unfoldable pub open_offer_listener : ℕ → Action Status W (Streaming OfferListenerRsp)
  open_offer_listener id = call (stub.open_offer_listener (of_local id))

  unfoldable pub open_answer_listener : ℕ → Action Status W (Streaming AnswerListenerRsp)
  open_answer_listener id = call (stub.open_answer_listener (of_local id))

  module _ (G : Signals) where
    unfoldable pub signal_answer : ℕ → ℕ → G.Answer → G.Candidates → Action ClientError W ℕ
    signal_answer id remote_id answer candidates = do
      candidates ← serialized bincode (G.candidates.serialize candidates)
      answer ← serialized bincode (G.answers.serialize answer)
      let request : SignalAnswerReq = record {
        offerer_peer = some (record { id = remote_id });
        answer_signal =
            some (record { answerer_id = id; answer = answer; candidates = candidates });
      }
      _ ← convert tonic_status (call (stub.signal_answer request))
      pure remote_id

    unfoldable pub signal_offer : ℕ → ℕ → G.Offer → G.Candidates → Action ClientError W ℕ
    signal_offer id remote_id offer candidates = do
      candidates ← serialized bincode (G.candidates.serialize candidates)
      offer ← serialized bincode (G.offers.serialize offer)
      let request : SignalOfferReq = record {
        answerer_peer = some (record { id = remote_id });
        offer_signal = some (record { offerer_id = id; offer = offer; candidates = candidates });
      }
      _ ← convert tonic_status (call (stub.signal_offer request))
      pure remote_id
