-- ===== src/System/Mirror.antt =====
-- The peers that a client has discovered, against the server's map of peers.
use just_webrtc.Common.{
  ℕ, ◌≡◌, refl, sym, ◌∙◌, ap, ◌≢◌, Bool, true, false, if◌then◌else◌, List, [], ◌∷◌, ◌++◌, map,
  contains, arith,
}
use just_webrtc.Common.Map.{contains_key, keys, contains-keys}
use just_webrtc.Common.Action.{ret, ok}
use just_webrtc.Proto.{PeerChange, peer_change_of_add, PeerDiscoverRsp}
use just_webrtc.Known.{known_by, known_after, known_after-append}
use just_webrtc.Client.State.{Signals}
use just_webrtc.Client.Rpc.{Stub, of_local}
use just_webrtc.Client.Step.{Session, apply_peer_changes}
use just_webrtc.Client.Discovery.{apply_peer_changes_converges, found}
use just_webrtc.Server.State.{Libs, Signalling}
use just_webrtc.Server.Peers.{other_ids, initial_peer_changes, peer_discover, peer_id}
use just_webrtc.Server.Discovery.{contains-other_ids}
use just_webrtc.Server.Service.{Event, run}
use just_webrtc.Server.Announce.{announcement, Announced, run_announces}
use just_webrtc.System.Transport.{Serves}

-- The initial changes of a peer listener make known what they list.
known_after-additions :
    (x : ℕ) (ids : List ℕ) (known : Bool)
    → known_after x (map peer_change_of_add ids) known ≡ (if contains x ids then true else known)
unfolding known_after contains
known_after-additions x [] known = refl
known_after-additions x (i ∷ ids) known =
    ground (arith, known_after-additions x ids (known_by x (peer_change_of_add i) known))

if_self : (b : Bool) → (if b then true else false) ≡ b
if_self true = refl
if_self false = refl

found-map : (ids : List ℕ) → found (record { remote_peers = map peer_id ids }) ≡ ids
found-map [] = refl
found-map (i ∷ ids) = ap (◌∷◌ i) (found-map ids)

append-cancel {ℓ} : {A : Type ℓ} (h xs ys : List A) → h ++ xs ≡ h ++ ys → xs ≡ ys
append-cancel [] xs ys e = e
append-cancel (a ∷ h) xs ys e = append-cancel h xs ys (cc)

announcements-injective :
    (cs ds : List PeerChange) → map announcement cs ≡ map announcement ds → cs ≡ ds
announcements-injective [] [] e = refl
announcements-injective [] (d ∷ ds) e = cc
announcements-injective (c ∷ cs) [] e = cc
announcements-injective (c ∷ cs) (d ∷ ds) e = ground (arith, announcements-injective cs ds)

module _ (L : Libs) where
  -- The announced changes are determined by the broadcasts.
  known_after-Announced :
      (s t : Signalling L) (cs : List PeerChange) (x : ℕ)
      → Announced L s t
      → L.changes.history t.peer_broadcast
        ≡ L.changes.history s.peer_broadcast ++ map announcement cs
      → known_after x cs (contains_key x s.peers) ≡ contains_key x t.peers
  known_after-Announced s t cs x a e =
      let same =
        announcements-injective cs a.changes
          (append-cancel (L.changes.history s.peer_broadcast) _ _ (sym e ∙ a.broadcast)) in
      rw same (sym (a.accounts x))

  contains-others :
      (s : Signalling L) (x local_id : ℕ)
      → x ≢ local_id
      → contains x (other_ids local_id (keys s.peers)) ≡ contains_key x s.peers
  contains-others s x local_id other =
      ground (arith, contains-other_ids x local_id (keys s.peers), contains-keys x s.peers)

module _ (L : Libs) (G : Signals) {W : Type 0} (stub : Stub W) (server : W → Signalling L)
    (serves : Serves L stub server) where
  -- A client that has discovered nobody, and then works through the initial changes of a peer listener
  -- opened in the server's state `s` and all changes `cs` that the server broadcast, one to a message,
  -- over the events `es`, holds another peer discovered exactly if the server's map has it after these
  -- events. It gets there without an error. The server does not change while the client works.
  pub discovery_mirrors_server :
      (s : Signalling L) (es : List Event) (cs : List PeerChange) (c : Session G W) (x : ℕ)
      → server c.world ≡ run L es s
      → L.changes.history (run L es s).peer_broadcast
        ≡ L.changes.history s.peer_broadcast ++ map announcement cs
      → c.peer.discovered_peers ≡ []
      → x ≢ c.peer.local_id
      → let done = apply_peer_changes G stub (initial_peer_changes L c.peer.local_id s ++ cs) c in
        (done.0 ≡ ret tt)
        × (contains x done.1.peer.discovered_peers ≡ contains_key x (run L es s).peers)
  unfolding initial_peer_changes peer_discover contains
  discovery_mirrors_server s es cs c x here sent empty other =
      let l = c.peer.local_id in
      let t = run L es s in
      let before = other_ids l (keys s.peers) in
      let rsp : PeerDiscoverRsp = record {
        remote_peers = map peer_id (other_ids l (keys t.peers));
      } in
      let discovers : stub.peer_discover (of_local l) c.world ≡ (ok rsp, c.world) =
        rw (serves.discovers (of_local l) c.world, here) in
      let listed : contains x (found rsp) ≡ contains_key x t.peers =
        rw (found-map (other_ids l (keys t.peers))) (contains-others L t x l other) in
      let start : known_after x (map peer_change_of_add before ++ cs)
            (contains x c.peer.discovered_peers)
          ≡ contains x (found rsp) =
        rw (listed, empty, known_after-append, known_after-additions, contains-others L s x l other)
          (rw (if_self (contains_key x s.peers))
            (known_after-Announced L s t cs x (run_announces L es s) sent)) in
      let (fine, _, same) =
        apply_peer_changes_converges G stub c.world l rsp discovers
          (map peer_change_of_add before ++ cs) c x (record { world = refl; peer = refl }) start in
      (fine, same ∙ listed)
