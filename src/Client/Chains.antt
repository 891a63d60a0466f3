-- ===== src/Client/Chains.antt =====
-- The wrapped callbacks resolve to states of the signalling chains only, and handling a state queues
-- nothing else beside its listener.
use mathlib.Core.List.{append-nil, append_assoc}
use just_webrtc.Common.{
  ℕ, ◌≡◌, refl, ap, inl, inr, ◌⊎◌, Option, none, some, List, [], ◌∷◌, ◌++◌, All, All-append, arith,
}
use just_webrtc.Common.Action.{Result, ok, err}
use just_webrtc.Proto.{
  PeerChange, peer_change_add, peer_change_remove, PeerListenerRsp, OfferListenerRsp,
  AnswerListenerRsp,
}
use just_webrtc.Client.State.{
  ClientError, Signals, Streaming, SignallingState, peer_listener, offer_listener, answer_listener,
  create_offer, receive_answer, local_sig_cplt, receive_offer, remote_sig_cplt, Resolution,
  SignallingStateFut, peer_listener_fut, offer_listener_fut, answer_listener_fut, callback_fut,
  RtcSignallingPeer,
}
use just_webrtc.Client.Rpc.{Stub}
use just_webrtc.Client.Peer.{new, wrap}
use just_webrtc.Client.Step.{
  Session, create_offer_futs, apply_peer_changes, on_peer_listener, on_receive_offer, handle,
}
use just_webrtc.Client.Frame.{create_offer_futs_task, apply_peer_changes_frame}
use just_webrtc.Client.Armed.{peers, offers, answers, heard}

module _ {G : Signals} where
  abbrev pub IsChain : Resolution G → Type 0
  IsChain none = Unit {0}
  IsChain (some (err e)) = Unit {0}
  IsChain (some (ok state)) =
      (heard peers state ≡ 0) × (heard offers state ≡ 0) × (heard answers state ≡ 0)

  abbrev pub FutIsChain : SignallingStateFut G → Type 0
  FutIsChain (peer_listener_fut _) = Unit {0}
  FutIsChain (offer_listener_fut _) = Unit {0}
  FutIsChain (answer_listener_fut _) = Unit {0}
  FutIsChain (callback_fut r) = IsChain r

  -- No callback of the peer, and no callback that it has queued, resolves to a listener's state.
  pub record RunsChains (p : RtcSignallingPeer G) : Type 0 where
    pub creates : (id : ℕ) → IsChain (p.create_offer_task id)
    pub receives_answer :
        (id : ℕ) (set : G.Answer × G.Candidates) → IsChain (p.receive_answer_task id set)
    pub completes_local : (id : ℕ) → IsChain (p.local_sig_cplt_task id)
    pub receives_offer :
        (id : ℕ) (set : G.Offer × G.Candidates) → IsChain (p.receive_offer_task id set)
    pub completes_remote : (id : ℕ) → IsChain (p.remote_sig_cplt_task id)
    pub queued : All FutIsChain p.unordered_futs

  pub new-RunsChains :
      (id : ℕ) (a : Streaming PeerListenerRsp) (b : Streaming OfferListenerRsp)
      (c : Streaming AnswerListenerRsp)
      → RunsChains (new G id a b c)
  unfolding new
  new-RunsChains id a b c = record {
    creates = λ _. tt;
    receives_answer = λ _ _. (refl, refl, refl);
    completes_local = λ _. (refl, refl, refl);
    receives_offer = λ _ _. tt;
    completes_remote = λ _. (refl, refl, refl);
    queued = (tt, (tt, (tt, tt)));
  }

  pub IsChain-wrap :
      {E X : Type 0} (into : E → ClientError) (f : X → SignallingState G) (r : Option (Result E X))
      → ((x : X) → IsChain (some (ok (f x))))
      → IsChain (wrap into f r)
  IsChain-wrap into f none h = tt
  IsChain-wrap into f (some (ok x)) h = h x
  IsChain-wrap into f (some (err e)) h = tt

  create_offer_futs-chains :
      (p : RtcSignallingPeer G) (cs : List PeerChange)
      → ((id : ℕ) → IsChain (p.create_offer_task id))
      → All FutIsChain (create_offer_futs p cs)
  unfolding create_offer_futs
  create_offer_futs-chains p [] h = tt
  create_offer_futs-chains p (c ∷ cs) h =
      elim c.change
        as (λ k. All FutIsChain (elim k [
          | peer_change_add ↦ callback_fut (p.create_offer_task c.id) ∷ create_offer_futs p cs
          | peer_change_remove ↦ create_offer_futs p cs
        ])) [
          | peer_change_add ↦ (h c.id, create_offer_futs-chains p cs h)
          | peer_change_remove ↦ create_offer_futs-chains p cs h
        ]

  -- `q` is `p` with futures queued that resolve to chain states, or are listeners.
  pub record Extends (p q : RtcSignallingPeer G) : Type 0 where
    pub futs : List (SignallingStateFut G)
    pub chains : All FutIsChain futs
    pub same : q ≡ record p {
      discovered_peers = q.discovered_peers;
      first_discovery = q.first_discovery;
      unordered_futs = p.unordered_futs ++ futs;
    }

  pub Extends-RunsChains : {p q : RtcSignallingPeer G} → Extends p q → RunsChains p → RunsChains q
  Extends-RunsChains {p} {q} e c = rw e.same (record {
    creates = c.creates;
    receives_answer = c.receives_answer;
    completes_local = c.completes_local;
    receives_offer = c.receives_offer;
    completes_remote = c.completes_remote;
    queued = All-append FutIsChain p.unordered_futs e.futs c.queued e.chains;
  })

module _ (G : Signals) {W : Type 0} (stub : Stub W) where
  on_peer_listener_peer :
      (listener : Streaming PeerListenerRsp) (cs : List PeerChange) (s : Session G W)
      → let p = s.peer in
        let q = (on_peer_listener G stub listener cs s).1.peer in
        let armed = p.unordered_futs ++ peer_listener_fut listener ∷ [] in
        (q ≡ record p {
          discovered_peers = q.discovered_peers;
          first_discovery = q.first_discovery;
          unordered_futs = armed;
        })
        ⊎ (q ≡ record p {
          discovered_peers = q.discovered_peers;
          first_discovery = q.first_discovery;
          unordered_futs = armed ++ create_offer_futs p cs;
        })
  unfolding on_peer_listener
  on_peer_listener_peer listener cs s =
      let p = record s.peer {
        unordered_futs = s.peer.unordered_futs ++ peer_listener_fut listener ∷ [];
      } in
      let s' = record s { peer = p } in
      let t = (apply_peer_changes G stub cs s').1 in
      let same = apply_peer_changes_frame G stub cs s' in
      let futs =
        create_offer_futs_task t.peer s.peer cs
          (ap (λ (r : RtcSignallingPeer G). r.create_offer_task) same) in
      ground (arith, same, futs)

  on_peer_listener-Extends :
      (listener : Streaming PeerListenerRsp) (cs : List PeerChange) (s : Session G W)
      → RunsChains s.peer
      → Extends s.peer (on_peer_listener G stub listener cs s).1.peer
  on_peer_listener-Extends listener cs s c = elim (on_peer_listener_peer listener cs s) [
    | inl e ↦ record { futs = peer_listener_fut listener ∷ []; chains = (tt, tt); same = e }
    | inr e ↦ record {
      futs = peer_listener_fut listener ∷ create_offer_futs s.peer cs;
      chains = (tt, create_offer_futs-chains s.peer cs c.creates);
      same = rw append_assoc at e;
    }
  ]

  on_receive_offer_peer :
      (id : ℕ) (a : G.Answer) (k : G.Candidates) (s : Session G W)
      → let p = s.peer in
        let q = (on_receive_offer G stub id (a, k) s).1.peer in
        (q ≡ p)
        ⊎ (q ≡ record p {
          unordered_futs = p.unordered_futs ++ callback_fut (p.remote_sig_cplt_task id) ∷ [];
        })
  unfolding on_receive_offer
  on_receive_offer_peer id a k s = ground arith

  on_receive_offer-Extends :
      (id : ℕ) (set : G.Answer × G.Candidates) (s : Session G W)
      → RunsChains s.peer
      → Extends s.peer (on_receive_offer G stub id set s).1.peer
  on_receive_offer-Extends id (a, k) s c = elim (on_receive_offer_peer id a k s) [
    | inl e ↦ record {
      futs = [];
      chains = tt;
      same = ground (arith, append-nil s.peer.unordered_futs);
    }
    | inr e ↦ record {
      futs = callback_fut (s.peer.remote_sig_cplt_task id) ∷ [];
      chains = (c.completes_remote id, tt);
      same = ground arith;
    }
  ]

  -- Handling any state queues only chain futures and listeners.
  pub handle-Extends :
      (state : SignallingState G) (s : Session G W)
      → RunsChains s.peer
      → Extends s.peer (handle G stub state s).1.peer
  unfolding handle
  handle-Extends (peer_listener l cs) s c = on_peer_listener-Extends l cs s c
  handle-Extends (offer_listener l id set) s c = record {
    futs = _;
    chains = (tt, (c.receives_offer id set, tt));
    same = refl;
  }
  handle-Extends (answer_listener l id set) s c = record {
    futs = _;
    chains = (tt, (c.receives_answer id set, tt));
    same = refl;
  }
  handle-Extends (create_offer id (o, k)) s c = record {
    futs = [];
    chains = tt;
    same = ground (arith, append-nil s.peer.unordered_futs);
  }
  handle-Extends (receive_answer id) s c = record {
    futs = _;
    chains = (c.completes_local id, tt);
    same = refl;
  }
  handle-Extends (local_sig_cplt id) s c = record { futs = []; chains = tt; same = rw append-nil }
  handle-Extends (receive_offer id set) s c = on_receive_offer-Extends id set s c
  handle-Extends (remote_sig_cplt id) s c = record { futs = []; chains = tt; same = rw append-nil }
