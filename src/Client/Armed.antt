-- ===== src/Client/Armed.antt =====
-- The three listener tasks of a peer stay queued as long as its steps succeed.
use just_webrtc.Common.{ℕ, ◌+◌, ◌≡◌, refl, ap, List, [], ◌∷◌, ◌++◌, arith}
use just_webrtc.Proto.{PeerChange, PeerListenerRsp}
use just_webrtc.Client.State.{
  Signals, Streaming, SignallingState, peer_listener, offer_listener, answer_listener, create_offer,
  receive_answer, local_sig_cplt, receive_offer, remote_sig_cplt, SignallingStateFut,
  peer_listener_fut, offer_listener_fut, answer_listener_fut, callback_fut, RtcSignallingPeer,
}
use just_webrtc.Client.Rpc.{Stub}
use just_webrtc.Client.Step.{
  Session, create_offer_futs, apply_peer_changes, on_peer_listener, on_receive_offer, handle,
}
use just_webrtc.Client.Frame.{apply_peer_changes_frame}

pub data Listener : Type 0 where
  peers offers answers : Listener

module _ {G : Signals} where
  -- 1 for a completed state of this listener.
  abbrev pub heard : Listener → SignallingState G → ℕ
  heard peers (peer_listener _ _) = 1
  heard offers (offer_listener _ _ _) = 1
  heard answers (answer_listener _ _ _) = 1
  heard _ _ = 0

  abbrev pub awaited : Listener → SignallingStateFut G → ℕ
  awaited peers (peer_listener_fut _) = 1
  awaited offers (offer_listener_fut _) = 1
  awaited answers (answer_listener_fut _) = 1
  awaited _ _ = 0

  -- How many tasks of this listener are queued.
  unfoldable pub listening : Listener → List (SignallingStateFut G) → ℕ
  listening k [] = 0
  listening k (f ∷ fs) = awaited k f + listening k fs

  listening-append :
      (k : Listener) (fs gs : List (SignallingStateFut G))
      → listening k (fs ++ gs) ≡ listening k fs + listening k gs
  unfolding listening
  listening-append k [] gs = omega arith
  listening-append k (f ∷ fs) gs = omega (arith, listening-append k fs gs)

  listening-create_offer_futs :
      (k : Listener) (p : RtcSignallingPeer G) (cs : List PeerChange)
      → listening k (create_offer_futs p cs) ≡ 0
  unfolding listening create_offer_futs
  listening-create_offer_futs k p [] = refl
  listening-create_offer_futs peers p (c ∷ cs) =
      ground (arith, listening-create_offer_futs peers p cs)
  listening-create_offer_futs offers p (c ∷ cs) =
      ground (arith, listening-create_offer_futs offers p cs)
  listening-create_offer_futs answers p (c ∷ cs) =
      ground (arith, listening-create_offer_futs answers p cs)

module _ (G : Signals) {W : Type 0} (stub : Stub W) where
  on_peer_listener_rearms :
      (k : Listener) (listener : Streaming PeerListenerRsp) (cs : List PeerChange) (s : Session G W)
      → listening k (on_peer_listener G stub listener cs s).1.peer.unordered_futs
        ≡ listening k s.peer.unordered_futs + awaited {G = G} k (peer_listener_fut listener)
  unfolding on_peer_listener listening
  on_peer_listener_rearms k listener cs s =
      let p = record s.peer {
        unordered_futs = s.peer.unordered_futs ++ peer_listener_fut listener ∷ [];
      } in
      let s' = record s { peer = p } in
      let t = (apply_peer_changes G stub cs s').1 in
      let same =
        ap (λ (r : RtcSignallingPeer G). r.unordered_futs)
          (apply_peer_changes_frame G stub cs s') in
      ground (
        arith,
        same,
        listening-append k t.peer.unordered_futs (create_offer_futs t.peer cs),
        listening-create_offer_futs k t.peer cs,
        listening-append k s.peer.unordered_futs (peer_listener_fut listener ∷ []),
      )

  on_receive_offer_queues :
      (k : Listener) (id : ℕ) (answer : G.Answer) (candidates : G.Candidates) (s : Session G W)
      → listening k (on_receive_offer G stub id (answer, candidates) s).1.peer.unordered_futs
        ≡ listening k s.peer.unordered_futs + 0
  unfolding on_receive_offer listening
  on_receive_offer_queues peers id answer candidates s = ground (
    arith,
    listening-append peers s.peer.unordered_futs
        (callback_fut (s.peer.remote_sig_cplt_task id) ∷ []),
  )
  on_receive_offer_queues offers id answer candidates s = ground (
    arith,
    listening-append offers s.peer.unordered_futs
        (callback_fut (s.peer.remote_sig_cplt_task id) ∷ []),
  )
  on_receive_offer_queues answers id answer candidates s = ground (
    arith,
    listening-append answers s.peer.unordered_futs
        (callback_fut (s.peer.remote_sig_cplt_task id) ∷ []),
  )

  -- Whatever the outcome, handling a listener's completion queues that listener again, once, and
  -- handling any other completion queues no listener.
  pub handle_rearms :
      (k : Listener) (state : SignallingState G) (s : Session G W)
      → listening k (handle G stub state s).1.peer.unordered_futs
        ≡ listening k s.peer.unordered_futs + heard k state
  unfolding handle listening
  handle_rearms peers (peer_listener l cs) s = on_peer_listener_rearms peers l cs s
  handle_rearms offers (peer_listener l cs) s = on_peer_listener_rearms offers l cs s
  handle_rearms answers (peer_listener l cs) s = on_peer_listener_rearms answers l cs s
  handle_rearms peers (offer_listener l id set) s = ground (
    arith,
    listening-append peers s.peer.unordered_futs
        (offer_listener_fut l ∷ callback_fut (s.peer.receive_offer_task id set) ∷ []),
  )
  handle_rearms offers (offer_listener l id set) s = ground (
    arith,
    listening-append offers s.peer.unordered_futs
        (offer_listener_fut l ∷ callback_fut (s.peer.receive_offer_task id set) ∷ []),
  )
  handle_rearms answers (offer_listener l id set) s = ground (
    arith,
    listening-append answers s.peer.unordered_futs
        (offer_listener_fut l ∷ callback_fut (s.peer.receive_offer_task id set) ∷ []),
  )
  handle_rearms peers (answer_listener l id set) s = ground (
    arith,
    listening-append peers s.peer.unordered_futs
        (answer_listener_fut l ∷ callback_fut (s.peer.receive_answer_task id set) ∷ []),
  )
  handle_rearms offers (answer_listener l id set) s = ground (
    arith,
    listening-append offers s.peer.unordered_futs
        (answer_listener_fut l ∷ callback_fut (s.peer.receive_answer_task id set) ∷ []),
  )
  handle_rearms answers (answer_listener l id set) s = ground (
    arith,
    listening-append answers s.peer.unordered_futs
        (answer_listener_fut l ∷ callback_fut (s.peer.receive_answer_task id set) ∷ []),
  )
  handle_rearms peers (receive_answer id) s = ground (
    arith,
    listening-append peers s.peer.unordered_futs
        (callback_fut (s.peer.local_sig_cplt_task id) ∷ []),
  )
  handle_rearms offers (receive_answer id) s = ground (
    arith,
    listening-append offers s.peer.unordered_futs
        (callback_fut (s.peer.local_sig_cplt_task id) ∷ []),
  )
  handle_rearms answers (receive_answer id) s = ground (
    arith,
    listening-append answers s.peer.unordered_futs
        (callback_fut (s.peer.local_sig_cplt_task id) ∷ []),
  )
  handle_rearms peers (create_offer id (offer, candidates)) s = ground arith
  handle_rearms offers (create_offer id (offer, candidates)) s = ground arith
  handle_rearms answers (create_offer id (offer, candidates)) s = ground arith
  handle_rearms peers (local_sig_cplt id) s = ground arith
  handle_rearms offers (local_sig_cplt id) s = ground arith
  handle_rearms answers (local_sig_cplt id) s = ground arith
  handle_rearms peers (remote_sig_cplt id) s = ground arith
  handle_rearms offers (remote_sig_cplt id) s = ground arith
  handle_rearms answers (remote_sig_cplt id) s = ground arith
  handle_rearms peers (receive_offer id (answer, candidates)) s =
      on_receive_offer_queues peers id answer candidates s
  handle_rearms offers (receive_offer id (answer, candidates)) s =
      on_receive_offer_queues offers id answer candidates s
  handle_rearms answers (receive_offer id (answer, candidates)) s =
      on_receive_offer_queues answers id answer candidates s
