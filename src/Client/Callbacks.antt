-- ===== src/Client/Callbacks.antt =====
-- Each setter of a callback keeps the peer's callbacks to the signalling chains.
use just_webrtc.Common.{ℕ, refl, Option}
use just_webrtc.Common.Action.{Result}
use just_webrtc.Client.State.{ClientError, Signals, RtcSignallingPeer}
use just_webrtc.Client.Peer.{
  set_on_create_offer, set_on_receive_answer, set_on_local_sig_cplt, set_on_receive_offer,
  set_on_remote_sig_cplt,
}
use just_webrtc.Client.Chains.{RunsChains, IsChain-wrap}

module _ {G : Signals} {E : Type 0} (into : E → ClientError) (p : RtcSignallingPeer G)
    (c : RunsChains p) where
  pub set_on_create_offer-RunsChains :
      (f : ℕ → Option (Result E (ℕ × (G.Offer × G.Candidates))))
      → RunsChains (set_on_create_offer G into f p)
  unfolding set_on_create_offer
  set_on_create_offer-RunsChains f = record {
    creates = λ id. IsChain-wrap into _ (f id) (λ x. (refl, refl, refl));
    receives_answer = c.receives_answer;
    completes_local = c.completes_local;
    receives_offer = c.receives_offer;
    completes_remote = c.completes_remote;
    queued = c.queued;
  }

  pub set_on_receive_offer-RunsChains :
      (f : ℕ → G.Offer × G.Candidates → Option (Result E (ℕ × (G.Answer × G.Candidates))))
      → RunsChains (set_on_receive_offer G into f p)
  unfolding set_on_receive_offer
  set_on_receive_offer-RunsChains f = record {
    creates = c.creates;
    receives_answer = c.receives_answer;
    completes_local = c.completes_local;
    receives_offer = λ id set. IsChain-wrap into _ (f id set) (λ x. (refl, refl, refl));
    completes_remote = c.completes_remote;
    queued = c.queued;
  }

  pub set_on_receive_answer-RunsChains :
      (f : ℕ → G.Answer × G.Candidates → Option (Result E ℕ))
      → RunsChains (set_on_receive_answer G into f p)
  unfolding set_on_receive_answer
  set_on_receive_answer-RunsChains f = record {
    creates = c.creates;
    receives_answer = λ id set. IsChain-wrap into _ (f id set) (λ x. (refl, refl, refl));
    completes_local = c.completes_local;
    receives_offer = c.receives_offer;
    completes_remote = c.completes_remote;
    queued = c.queued;
  }

  pub set_on_local_sig_cplt-RunsChains :
      (f : ℕ → Option (Result E ℕ)) → RunsChains (set_on_local_sig_cplt G into f p)
  unfolding set_on_local_sig_cplt
  set_on_local_sig_cplt-RunsChains f = record {
    creates = c.creates;
    receives_answer = c.receives_answer;
    completes_local = λ id. IsChain-wrap into _ (f id) (λ x. (refl, refl, refl));
    receives_offer = c.receives_offer;
    completes_remote = c.completes_remote;
    queued = c.queued;
  }

  pub set_on_remote_sig_cplt-RunsChains :
      (f : ℕ → Option (Result E ℕ)) → RunsChains (set_on_remote_sig_cplt G into f p)
  unfolding set_on_remote_sig_cplt
  set_on_remote_sig_cplt-RunsChains f = record {
    creates = c.creates;
    receives_answer = c.receives_answer;
    completes_local = c.completes_local;
    receives_offer = c.receives_offer;
    completes_remote = λ id. IsChain-wrap into _ (f id) (λ x. (refl, refl, refl));
    queued = c.queued;
  }
