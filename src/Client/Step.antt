-- ===== src/Client/Step.antt =====
-- `RtcSignallingPeer::step`: one completed future, handled. Which of the queued futures completes
-- first is the environment's choice.
use just_webrtc.Common.{
  ◌≡◌, refl, ◌⊎◌, inl, inr, ℕ, zero, suc, false, if◌then◌else◌, Option, none, some, List, [], ◌∷◌,
  ◌++◌, contains,
}
use just_webrtc.Common.IdSet
use just_webrtc.Common.Action.{
  ok, err, Outcome, ret, fail, panic, Action, ◌>>=◌, ◌>>◌, pure, gets, modify,
}
use just_webrtc.Proto.{
  failed_precondition, PeerChange, peer_change_add, peer_change_remove, PeerListenerRsp,
}
use just_webrtc.Client.State.{
  ClientError, tonic_status, ClientResult, Signals, Streaming, SignallingState, peer_listener,
  offer_listener, answer_listener, create_offer, receive_answer, local_sig_cplt, receive_offer,
  remote_sig_cplt, SignallingStateFut, peer_listener_fut, offer_listener_fut, answer_listener_fut,
  callback_fut, RtcSignallingPeer,
}
use just_webrtc.Client.Tasks.{resolve}
use just_webrtc.Client.Rpc.{Stub, convert, peer_discover, signal_offer, signal_answer}

module _ {G : Signals} where
  -- The `filter_map` over the changes of the first discovery.
  unfoldable pub create_offer_futs :
      RtcSignallingPeer G → List PeerChange → List (SignallingStateFut G)
  create_offer_futs p [] = []
  create_offer_futs p (c ∷ cs) = elim c.change [
    | peer_change_add ↦ callback_fut (p.create_offer_task c.id) ∷ create_offer_futs p cs
    | peer_change_remove ↦ create_offer_futs p cs
  ]

module _ (G : Signals) (W : Type 0) where
  -- A peer and the world that its client reaches.
  pub record Session : Type 0 where
    pub world : W
    pub peer : RtcSignallingPeer G

  abbrev pub Step : Type 0 → Type 0
  Step A = Action ClientError Session A

module _ {G : Signals} {W : Type 0} where
  -- Runs a call of the client.
  abbrev pub with_client : {A : Type 0} → Action ClientError W A → Step G W A
  with_client m s = ((m s.world).0, record s { world = (m s.world).1 })

  abbrev pub update_peer : (RtcSignallingPeer G → RtcSignallingPeer G) → Step G W (Unit {0})
  update_peer f = modify λ (s : Session G W). record s { peer = f s.peer }

  -- `self.unordered_futs.push(…)` and `.extend(…)`.
  unfoldable pub queue : List (SignallingStateFut G) → Step G W (Unit {0})
  queue futs =
      update_peer
        λ (p : RtcSignallingPeer G). record p { unordered_futs = p.unordered_futs ++ futs }

module _ (G : Signals) where
  -- What `unordered_futs.next().await` gives when the `i`-th queued future is the first to complete.
  pub data Next : Type 0 where
    completed : ClientResult (SignallingState G) → List (SignallingStateFut G) → Next
    pending : Next
    exhausted : Next

  pub Next-cases :
      (n : Next)
      → ((r : ClientResult (SignallingState G)) × (rest : List (SignallingStateFut G)) × (n
            ≡ completed r rest))
        ⊎ ((n ≡ pending) ⊎ (n ≡ exhausted))
  Next-cases (completed r rest) = inl (r, rest, refl)
  Next-cases pending = inr (inl refl)
  Next-cases exhausted = inr (inr refl)

  unfoldable pub keep_first : SignallingStateFut G → Next → Next
  keep_first fut (completed r rest) = completed r (fut ∷ rest)
  keep_first fut pending = pending
  keep_first fut exhausted = exhausted

  unfoldable pub next : ℕ → List (SignallingStateFut G) → Next
  unfolding keep_first resolve
  next i [] = exhausted
  next zero (fut ∷ futs) = elim (resolve G fut) [ none ↦ pending | some r ↦ completed r futs ]
  next (suc i) (fut ∷ futs) = keep_first fut (next i futs)

module _ (G : Signals) {W : Type 0} (stub : Stub W) where
  -- Overwrites the discovered peers with what the server knows.
  unfoldable pub synchronise : Step G W (Unit {0})
  unfolding peer_discover
  synchronise = do
    id ← gets (λ (s : Session G W). s.peer.local_id)
    ids ← with_client (convert tonic_status (peer_discover stub id))
    update_peer (λ (p : RtcSignallingPeer G). record p { discovered_peers = IdSet.collect ids })

  -- One turn of the loop over the peer changes. `insert` and `remove` tell whether they did anything.
  unfoldable pub apply_peer_change : PeerChange → Step G W (Unit {0})
  unfolding synchronise
  apply_peer_change change = do
    known ← gets (λ (s : Session G W). contains change.id s.peer.discovered_peers)
    elim change.change [
      | peer_change_add ↦ do
        update_peer (λ (p : RtcSignallingPeer G). record p {
          discovered_peers = IdSet.insert change.id p.discovered_peers;
        })
        if known then synchronise else pure tt
      | peer_change_remove ↦ do
        update_peer (λ (p : RtcSignallingPeer G). record p {
          discovered_peers = IdSet.remove change.id p.discovered_peers;
        })
        if known then pure tt else synchronise
    ]

  unfoldable pub apply_peer_changes : List PeerChange → Step G W (Unit {0})
  apply_peer_changes [] = pure tt
  apply_peer_changes (c ∷ cs) = do apply_peer_change c; apply_peer_changes cs

  -- On the first discovery, queues the creation of an offer for each remote peer.
  unfoldable pub discover_first : List PeerChange → Step G W (Unit {0})
  unfolding queue create_offer_futs
  discover_first changes = do
    p ← gets (λ (s : Session G W). s.peer)
    if p.first_discovery
        then (do
          update_peer (λ (p : RtcSignallingPeer G). record p { first_discovery = false })
          queue (create_offer_futs p changes))
        else pure tt

  unfoldable pub on_peer_listener :
      Streaming PeerListenerRsp → List PeerChange → Step G W (Unit {0})
  unfolding queue apply_peer_changes discover_first
  on_peer_listener listener changes = do
    queue (peer_listener_fut listener ∷ [])
    apply_peer_changes changes
    discover_first changes

  -- The `match result` after a signal: `none` where the remote peer is gone, and `step` returns.
  unfoldable pub unless_gone : Step G W ℕ → Step G W (Option ℕ)
  unless_gone m s = elim (m s).0 [
    | ret remote_id ↦ (ret (some remote_id), (m s).1)
    | fail e ↦ elim e [
      | tonic_status status ↦ elim status.code [
        | failed_precondition ↦ (ret none, (m s).1)
        | _ ↦ (fail (tonic_status status), (m s).1)
      ]
      | other ↦ (fail other, (m s).1)
    ]
    | panic ↦ (panic, (m s).1)
  ]

  unfoldable pub on_create_offer : ℕ → G.Offer × G.Candidates → Step G W (Unit {0})
  unfolding unless_gone signal_offer
  on_create_offer remote_id (offer, candidates) = do
    id ← gets (λ (s : Session G W). s.peer.local_id)
    _ ← unless_gone (with_client (signal_offer stub G id remote_id offer candidates))
    pure tt

  unfoldable pub on_receive_offer : ℕ → G.Answer × G.Candidates → Step G W (Unit {0})
  unfolding unless_gone signal_answer queue
  on_receive_offer remote_id (answer, candidates) = do
    id ← gets (λ (s : Session G W). s.peer.local_id)
    signalled ← unless_gone (with_client (signal_answer stub G id remote_id answer candidates))
    p ← gets (λ (s : Session G W). s.peer)
    elim signalled [
      | none ↦ pure tt
      | some remote_id ↦ queue (callback_fut (p.remote_sig_cplt_task remote_id) ∷ [])
    ]

  -- The `match state_cplt` of `step`.
  unfoldable pub handle : SignallingState G → Step G W (Unit {0})
  unfolding on_peer_listener on_create_offer on_receive_offer queue
  handle (peer_listener listener changes) = on_peer_listener listener changes
  handle (create_offer remote_id offer_set) = on_create_offer remote_id offer_set
  handle (answer_listener listener remote_id answer_set) = do
    p ← gets (λ (s : Session G W). s.peer)
    queue (
        answer_listener_fut listener
        ∷ callback_fut (p.receive_answer_task remote_id answer_set)
        ∷ [])
  handle (receive_answer remote_id) = do
    p ← gets (λ (s : Session G W). s.peer)
    queue (callback_fut (p.local_sig_cplt_task remote_id) ∷ [])
  handle (local_sig_cplt remote_id) = pure tt
  handle (offer_listener listener remote_id offer_set) = do
    p ← gets (λ (s : Session G W). s.peer)
    queue
        (offer_listener_fut listener ∷ callback_fut (p.receive_offer_task remote_id offer_set) ∷ [])
  handle (receive_offer remote_id answer_set) = on_receive_offer remote_id answer_set
  handle (remote_sig_cplt remote_id) = pure tt

  -- `none` while the chosen future has not resolved. No queued future at all is the `unwrap` of
  -- `None`, and an index past the end chooses no future.
  unfoldable pub step : ℕ → Session G W → Option (Outcome ClientError (Unit {0}) × Session G W)
  unfolding next handle
  step i s = elim (next G i s.peer.unordered_futs) [
    | exhausted ↦ elim s.peer.unordered_futs [ [] ↦ some (panic, s) | fut ∷ futs ↦ none ]
    | pending ↦ none
    | completed r rest ↦
        let s' = record s { peer = record s.peer { unordered_futs = rest } } in
        elim r [ err e ↦ some (fail e, s') | ok state ↦ some (handle state s') ]
  ]
