-- ===== src/Client/Peer.antt =====
-- `RtcSignallingPeer`: its creation, its callbacks, its end, and `RtcSignallingClient::start_peer`.
use just_webrtc.Common.{ℕ, true, Option, none, some, [], ◌∷◌}
use just_webrtc.Common.Action.{Result, ok, err, Action, ◌>>=◌, ◌>>◌, pure}
use just_webrtc.Proto.{PeerListenerRsp, OfferListenerRsp, AnswerListenerRsp}
use just_webrtc.Client.State.{
  ClientError, tonic_status, ClientResult, Signals, Streaming, create_offer, receive_answer,
  local_sig_cplt, receive_offer, remote_sig_cplt, RtcSignallingPeer, peer_listener_fut,
  offer_listener_fut, answer_listener_fut,
}
use just_webrtc.Client.Rpc.{
  Stub, convert, advertise, teardown, open_peer_listener, open_offer_listener, open_answer_listener,
}

-- What awaiting a callback's future and wrapping its result gives; `into` is `ClientError::from`.
abbrev pub wrap :
    {E X Y : Type 0} → (E → ClientError) → (X → Y) → Option (Result E X) → Option (ClientResult Y)
wrap into f none = none
wrap into f (some (ok x)) = some (ok (f x))
wrap into f (some (err e)) = some (err (into e))

module _ (G : Signals) where
  -- The default callbacks resolve at once, or never.
  unfoldable pub new :
      ℕ
      → Streaming PeerListenerRsp
      → Streaming OfferListenerRsp
      → Streaming AnswerListenerRsp
      → RtcSignallingPeer G
  new local_id peers offers answers = record {
    local_id = local_id;
    discovered_peers = [];
    first_discovery = true;
    create_offer_task = λ _. none;
    receive_answer_task = λ remote_id _. some (ok (receive_answer remote_id));
    local_sig_cplt_task = λ remote_id. some (ok (local_sig_cplt remote_id));
    receive_offer_task = λ _ _. none;
    remote_sig_cplt_task = λ remote_id. some (ok (remote_sig_cplt remote_id));
    unordered_futs =
        peer_listener_fut peers ∷ offer_listener_fut offers ∷ answer_listener_fut answers ∷ [];
  }

  -- A callback is a function of its arguments; it returns the eventual result of its future.
  module _ {E : Type 0} (into : E → ClientError) where
    unfoldable pub set_on_create_offer :
        (ℕ → Option (Result E (ℕ × (G.Offer × G.Candidates))))
        → RtcSignallingPeer G
        → RtcSignallingPeer G
    set_on_create_offer f p = record p {
      create_offer_task = λ remote_id.
          wrap into (λ (r : ℕ × (G.Offer × G.Candidates)). create_offer r.0 r.1) (f remote_id);
    }

    unfoldable pub set_on_receive_answer :
        (ℕ → G.Answer × G.Candidates → Option (Result E ℕ))
        → RtcSignallingPeer G
        → RtcSignallingPeer G
    set_on_receive_answer f p = record p {
      receive_answer_task =
          λ remote_id answer_set. wrap into receive_answer (f remote_id answer_set);
    }

    unfoldable pub set_on_local_sig_cplt :
        (ℕ → Option (Result E ℕ)) → RtcSignallingPeer G → RtcSignallingPeer G
    set_on_local_sig_cplt f p = record p {
      local_sig_cplt_task = λ remote_id. wrap into local_sig_cplt (f remote_id);
    }

    unfoldable pub set_on_receive_offer :
        (ℕ → G.Offer × G.Candidates → Option (Result E (ℕ × (G.Answer × G.Candidates))))
        → RtcSignallingPeer G
        → RtcSignallingPeer G
    set_on_receive_offer f p = record p {
      receive_offer_task = λ remote_id offer_set.
          wrap into (λ (r : ℕ × (G.Answer × G.Candidates)). receive_offer r.0 r.1)
            (f remote_id offer_set);
    }

    unfoldable pub set_on_remote_sig_cplt :
        (ℕ → Option (Result E ℕ)) → RtcSignallingPeer G → RtcSignallingPeer G
    set_on_remote_sig_cplt f p = record p {
      remote_sig_cplt_task = λ remote_id. wrap into remote_sig_cplt (f remote_id);
    }

  module _ {W : Type 0} (stub : Stub W) where
    unfoldable pub start_peer : Action ClientError W (RtcSignallingPeer G)
    unfolding new advertise open_peer_listener open_offer_listener open_answer_listener
    start_peer = do
      local_id ← convert tonic_status (advertise stub)
      peer_listener ← convert tonic_status (open_peer_listener stub local_id)
      offer_listener ← convert tonic_status (open_offer_listener stub local_id)
      answer_listener ← convert tonic_status (open_answer_listener stub local_id)
      pure (new local_id peer_listener offer_listener answer_listener)

    unfoldable pub close : RtcSignallingPeer G → Action ClientError W (Unit {0})
    unfolding teardown
    close p = do convert tonic_status (teardown stub p.local_id); pure tt
