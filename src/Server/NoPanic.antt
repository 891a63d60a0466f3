-- ===== src/Server/NoPanic.antt =====
-- No handler panics: the one `unwrap` on a channel, in the two listener handlers, cannot fail.
use just_webrtc.Common.{Option, ◌≡◌, arith}
use just_webrtc.Common.Action.{IsPanic}
use just_webrtc.Proto.{ok}
use just_webrtc.Interfaces.{Flume, sent}
use just_webrtc.Server.State.{Libs, Signalling, channel_bound}
use just_webrtc.Server.Peers.{advertise, teardown, peer_discover, open_peer_listener}
use just_webrtc.Server.Offers.{signal_offer, open_offer_listener}
use just_webrtc.Server.Answers.{signal_answer, open_answer_listener}
use just_webrtc.Server.Service.{
  Request, advertise_req, teardown_req, peer_discover_req, peer_listener_req, offer_listener_req,
  answer_listener_req, signal_offer_req, signal_answer_req, serve,
}

-- A message fits in a channel that was just made.
pub try_send-bounded :
    {M : Type 0} (F : Flume M) (m : M) → (F.try_send m (F.bounded channel_bound)).0 ≡ sent
try_send-bounded F m = ground (
  arith,
  F.try_send_result m (F.bounded channel_bound),
  F.connected-bounded channel_bound,
  F.capacity-bounded channel_bound,
  F.queue-bounded channel_bound,
)

module _ (L : Libs) where
  -- Every request, in every state, is answered with a response or a status; no handler panics.
  pub serve_never_panics : (r : Request) (s : Signalling L) → ¬ IsPanic (serve L r s).0
  unfolding serve advertise teardown peer_discover open_peer_listener signal_offer
      open_offer_listener signal_answer open_answer_listener
  serve_never_panics advertise_req s p = ground arith
  serve_never_panics (teardown_req m) s p = ground arith
  serve_never_panics (peer_discover_req m) s p = ground arith
  serve_never_panics (peer_listener_req m) s p = ground arith
  serve_never_panics (offer_listener_req m) s p =
      ground (arith, try_send-bounded L.offers (ok (record { offer_signal = Option.none })))
  serve_never_panics (answer_listener_req m) s p =
      ground (arith, try_send-bounded L.answers (ok (record { answer_signal = Option.none })))
  serve_never_panics (signal_offer_req m) s p = ground arith
  serve_never_panics (signal_answer_req m) s p = ground arith
