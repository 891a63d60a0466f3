-- ===== src/Client/Discovery.antt =====
-- The discovered peers of a client, against what the server knows.
use just_webrtc.Common.{ℕ, ◌≡◌, refl, ◌∙◌, inl, inr, ◌⊎◌, List, [], ◌∷◌, map, contains, arith}
use just_webrtc.Common.IdSet
use just_webrtc.Common.Action.{ok, ret}
use just_webrtc.Proto.{PeerId, PeerChange, PeerDiscoverRsp}
use just_webrtc.Known.{known_by, known_after, known_after-cases}
use just_webrtc.Client.State.{Signals}
use just_webrtc.Client.Rpc.{Stub, of_local}
use just_webrtc.Client.Step.{Session, synchronise, apply_peer_change, apply_peer_changes}

abbrev pub found : PeerDiscoverRsp → List ℕ
found rsp = map (λ (p : PeerId). p.id) rsp.remote_peers

apply_peer_changes-cons :
    (G : Signals) {W : Type 0} (stub : Stub W) (c : PeerChange) (cs : List PeerChange)
    (s : Session G W)
    → (apply_peer_change G stub c s).0 ≡ ret tt
    → apply_peer_changes G stub (c ∷ cs) s
      ≡ apply_peer_changes G stub cs (apply_peer_change G stub c s).1
unfolding apply_peer_changes
apply_peer_changes-cons G stub c cs s e = ground arith

module _ (G : Signals) {W : Type 0} (stub : Stub W) (w : W) (local_id : ℕ) (rsp : PeerDiscoverRsp)
    (discovers : stub.peer_discover (of_local local_id) w ≡ (ok rsp, w)) where
  -- A session of this peer in this world.
  pub record At (s : Session G W) : Type 0 where
    pub world : s.world ≡ w
    pub peer : s.peer.local_id ≡ local_id

  synchronise-At :
      (s : Session G W)
      → At s
      → synchronise G stub s ≡ (
        ret tt,
        record s { peer = record s.peer { discovered_peers = IdSet.collect (found rsp) } },
      )
  unfolding synchronise
  synchronise-At s here = ground (arith, discovers)

  -- After one change the peer is as the change says, or, where it synchronised, as the server says.
  abbrev Follows : PeerChange → ℕ → Session G W → Session G W → Type 0
  Follows c x s t =
      (contains x t.peer.discovered_peers ≡ known_by x c (contains x s.peer.discovered_peers))
      ⊎ (contains x t.peer.discovered_peers ≡ contains x (found rsp))

  apply_peer_change_known :
      (c : PeerChange) (s : Session G W) (x : ℕ)
      → At s
      → ((apply_peer_change G stub c s).0 ≡ ret tt)
        × At (apply_peer_change G stub c s).1
        × Follows c x s (apply_peer_change G stub c s).1
  unfolding apply_peer_change
  apply_peer_change_known c s x here =
      let added = record s {
        peer = record s.peer { discovered_peers = IdSet.insert c.id s.peer.discovered_peers };
      } in
      let removed = record s {
        peer = record s.peer { discovered_peers = IdSet.remove c.id s.peer.discovered_peers };
      } in
      let after_add = synchronise-At added (record { world = here.world; peer = here.peer }) in
      let after_remove = synchronise-At removed (record { world = here.world; peer = here.peer }) in
      (
        ground (arith, after_add, after_remove),
        ground (arith, after_add, after_remove),
        ground (
          arith,
          after_add,
          after_remove,
          IdSet.contains-insert x c.id s.peer.discovered_peers,
          IdSet.contains-remove x c.id s.peer.discovered_peers,
          IdSet.contains-collect x (found rsp),
        ),
      )

  -- Once a client has worked through all changes that the server announced, with the server's answer
  -- to `peer_discover` the same throughout, it holds a peer discovered exactly if the server lists
  -- it: provided that the announced changes lead from what the client held at the start to what the
  -- server lists. The client does so without an error, however often it had to synchronise.
  pub apply_peer_changes_converges :
      (cs : List PeerChange) (s : Session G W) (x : ℕ)
      → At s
      → known_after x cs (contains x s.peer.discovered_peers) ≡ contains x (found rsp)
      → ((apply_peer_changes G stub cs s).0 ≡ ret tt)
        × At (apply_peer_changes G stub cs s).1
        × (contains x (apply_peer_changes G stub cs s).1.peer.discovered_peers
            ≡ contains x (found rsp))
  unfolding apply_peer_changes known_after
  apply_peer_changes_converges [] s x here e = (refl, here, e)
  apply_peer_changes_converges (c ∷ cs) s x here e =
      let (done, here', follows) = apply_peer_change_known c s x here in
      let t = (apply_peer_change G stub c s).1 in
      let e' : known_after x cs (contains x t.peer.discovered_peers) ≡ contains x (found rsp) =
        elim follows [
          | inl as_said ↦ rw as_said e
          | inr as_listed ↦ elim (known_after-cases x cs) [
            | inl silent ↦ silent _ ∙ as_listed
            | inr settled ↦ settled _ _ ∙ e
          ]
        ] in
      let rest = apply_peer_changes_converges cs t x here' e' in
      rw (apply_peer_changes-cons G stub c cs s done) rest
