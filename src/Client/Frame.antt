-- ===== src/Client/Frame.antt =====
-- What the handling of a completed state leaves alone, and what it queues.
use just_webrtc.Common.{ℕ, ◌≡◌, refl, ap, false, if◌then◌else◌, List, [], ◌∷◌, ◌++◌, arith}
use mathlib.Core.List.{append-nil}
use just_webrtc.Common.Action.{ret}
use just_webrtc.Proto.{PeerChange, PeerListenerRsp}
use just_webrtc.Client.State.{Signals, Streaming, Resolution, peer_listener_fut, RtcSignallingPeer}
use just_webrtc.Client.Rpc.{Stub}
use just_webrtc.Client.Step.{
  Session, create_offer_futs, synchronise, apply_peer_change, apply_peer_changes, on_peer_listener,
}

-- Of the peer, only the callback matters to the offers that are created.
pub create_offer_futs_task :
    {G : Signals} (p q : RtcSignallingPeer G) (cs : List PeerChange)
    → p.create_offer_task ≡ q.create_offer_task
    → create_offer_futs p cs ≡ create_offer_futs q cs
unfolding create_offer_futs
create_offer_futs_task p q [] e = refl
create_offer_futs_task {G} p q (c ∷ cs) e =
    ground (arith, create_offer_futs_task p q cs e, ap (λ (f : ℕ → Resolution G). f c.id) e)

module _ (G : Signals) {W : Type 0} (stub : Stub W) where
  -- Only the discovered peers of the peer differ.
  abbrev pub SameButDiscovered : RtcSignallingPeer G → RtcSignallingPeer G → Type 0
  SameButDiscovered p q = q ≡ record p { discovered_peers = q.discovered_peers }

  synchronise_frame : (s : Session G W) → SameButDiscovered s.peer (synchronise G stub s).1.peer
  unfolding synchronise
  synchronise_frame s = ground arith

  apply_peer_change_frame :
      (c : PeerChange) (s : Session G W)
      → SameButDiscovered s.peer (apply_peer_change G stub c s).1.peer
  unfolding apply_peer_change
  apply_peer_change_frame c s = ground arith

  pub apply_peer_changes_frame :
      (cs : List PeerChange) (s : Session G W)
      → SameButDiscovered s.peer (apply_peer_changes G stub cs s).1.peer
  unfolding apply_peer_changes
  apply_peer_changes_frame [] s = refl
  apply_peer_changes_frame (c ∷ cs) s = ground (
    arith,
    apply_peer_change_frame c s,
    apply_peer_changes_frame cs (apply_peer_change G stub c s).1,
  )

  -- A peer listener's completion that is handled without an error queues the listener again and, on
  -- the first discovery only, one creation of an offer for each peer that it adds; it ends the first
  -- discovery, and changes nothing else of the peer but the discovered peers.
  pub on_peer_listener_queues :
      (listener : Streaming PeerListenerRsp) (cs : List PeerChange) (s : Session G W)
      → (on_peer_listener G stub listener cs s).0 ≡ ret tt
      → let p = s.peer in
        let q = (on_peer_listener G stub listener cs s).1.peer in
        q ≡ record p {
          discovered_peers = q.discovered_peers;
          first_discovery = false;
          unordered_futs =
              (p.unordered_futs ++ peer_listener_fut listener ∷ [])
              ++ (if p.first_discovery then create_offer_futs p cs else []);
        }
  unfolding on_peer_listener
  on_peer_listener_queues listener cs s e =
      let p = record s.peer {
        unordered_futs = s.peer.unordered_futs ++ peer_listener_fut listener ∷ [];
      } in
      let s' = record s { peer = p } in
      let t = (apply_peer_changes G stub cs s').1 in
      let same = apply_peer_changes_frame cs s' in
      let futs =
        create_offer_futs_task t.peer s.peer cs
          (ap (λ (r : RtcSignallingPeer G). r.create_offer_task) same) in
      ground (arith, same, futs, append-nil p.unordered_futs)
