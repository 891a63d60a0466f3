-- ===== src/Server/Service.antt =====
-- The service as a whole: `impl RtcSignalling for RtcSignallingService`, and what its environment
-- does to the channels that the service hands out.
use just_webrtc.Common.{ℕ, ◌+◌, ◌%◌, none, some, List, [], ◌∷◌}
use just_webrtc.Common.Map.{lookup}
use just_webrtc.Common.Action.{◌>>=◌, ◌>>◌, pure}
use just_webrtc.Proto.{LocalPeerReq, SignalOfferReq, SignalAnswerReq, AdvertiseRsp, PeerDiscoverRsp}
use just_webrtc.Server.State.{Libs, Signalling, Handler, u64_mod}
use just_webrtc.Server.Peers.{PeerStream, advertise, teardown, peer_discover, open_peer_listener}
use just_webrtc.Server.Offers.{signal_offer, open_offer_listener, set_offer_tx}
use just_webrtc.Server.Answers.{signal_answer, open_answer_listener, set_answer_tx}

pub data Request : Type 0 where
  advertise_req : Request
  teardown_req peer_discover_req peer_listener_req : LocalPeerReq → Request
  offer_listener_req answer_listener_req : LocalPeerReq → Request
  signal_offer_req : SignalOfferReq → Request
  signal_answer_req : SignalAnswerReq → Request

module _ (L : Libs) where
  pub data Response : Type 0 where
    advertise_rsp : AdvertiseRsp → Response
    peer_discover_rsp : PeerDiscoverRsp → Response
    peer_stream : PeerStream L → Response
    offer_stream answer_stream : ℕ → Response
    done : Response

  -- One request, handled without interruption.
  unfoldable pub serve : Request → Handler L Response
  serve advertise_req = do r ← advertise L; pure (advertise_rsp r)
  serve (teardown_req m) = do teardown L m; pure done
  serve (peer_discover_req m) = do r ← peer_discover L m; pure (peer_discover_rsp r)
  serve (peer_listener_req m) = do r ← open_peer_listener L m; pure (peer_stream r)
  serve (offer_listener_req m) = do r ← open_offer_listener L m; pure (offer_stream r)
  serve (answer_listener_req m) = do r ← open_answer_listener L m; pure (answer_stream r)
  serve (signal_offer_req m) = do signal_offer L m; pure done
  serve (signal_answer_req m) = do signal_answer L m; pure done

  -- What a listener's stream does to the channel of a peer, if it has one: `change` takes the next
  -- message from it, or drops its receiver.
  unfoldable pub with_offer_chan : (L.offers.Chan → L.offers.Chan) → ℕ → Signalling L → Signalling L
  unfolding set_offer_tx
  with_offer_chan change id s = elim (lookup id s.peers) [
    | none ↦ s
    | some peer ↦ elim peer.offer_listener_tx [
      | none ↦ s
      | some tx ↦ set_offer_tx L id peer (change tx) s
    ]
  ]

  unfoldable pub with_answer_chan :
      (L.answers.Chan → L.answers.Chan) → ℕ → Signalling L → Signalling L
  unfolding set_answer_tx
  with_answer_chan change id s = elim (lookup id s.peers) [
    | none ↦ s
    | some peer ↦ elim peer.answer_listener_tx [
      | none ↦ s
      | some tx ↦ set_answer_tx L id peer (change tx) s
    ]
  ]

  -- Another `Signalling` of the process draws from the same generator.
  unfoldable pub draw_elsewhere : Signalling L → Signalling L
  draw_elsewhere s = record s { generator = (s.generator + 1) % u64_mod }

pub data Event : Type 0 where
  requested : Request → Event
  offer_taken offer_stream_dropped answer_taken answer_stream_dropped : ℕ → Event
  drawn_elsewhere : Event

module _ (L : Libs) where
  unfoldable pub step : Event → Signalling L → Signalling L
  step (requested r) s = (serve L r s).1
  step (offer_taken id) s = with_offer_chan L (λ c. (L.offers.recv c).1) id s
  step (offer_stream_dropped id) s = with_offer_chan L L.offers.drop_receiver id s
  step (answer_taken id) s = with_answer_chan L (λ c. (L.answers.recv c).1) id s
  step (answer_stream_dropped id) s = with_answer_chan L L.answers.drop_receiver id s
  step drawn_elsewhere s = draw_elsewhere L s

  unfoldable pub run : List Event → Signalling L → Signalling L
  run [] s = s
  run (e ∷ es) s = run es (step e s)
