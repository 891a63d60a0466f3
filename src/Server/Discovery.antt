-- ===== src/Server/Discovery.antt =====
-- What `peer_discover` and the stream of a peer listener deliver.
use just_webrtc.Common.{
  ℕ, zero, suc, ◌+◌, ◌-◌, ◌≤◌, ◌<◌, ◌≡◌, refl, not, ◌&&◌, ◌==◌, Option, some, List, [], ◌∷◌, ◌++◌,
  map, length, drop, drop-length, length-append, length-drop, ap, get_elem?-drop, contains,
  AllDistinct, arith,
}
use just_webrtc.Common.Map.{contains_key, keys, contains-keys}
use just_webrtc.Common.Action.{ret}
use just_webrtc.Proto.{
  TonicResult, PeerChange, ok, err, peer_change_of_add, PeerId, PeerListenerRsp, data_loss,
}
use just_webrtc.Server.State.{Libs, Signalling, status}
use just_webrtc.Server.Peers.{
  other_ids, peer_id, peer_discover, PeerStream, first, following, peer_stream_next,
  open_peer_listener, initial_peer_changes,
}
use just_webrtc.Server.WellFormed.{WellFormed}

abbrev pub ids_of : List PeerId → List ℕ
ids_of [] = []
ids_of (p ∷ ps) = p.id ∷ ids_of ps

pub contains-other_ids :
    (x local_id : ℕ) (ids : List ℕ)
    → contains x (other_ids local_id ids) ≡ (not (x == local_id) && contains x ids)
unfolding contains other_ids
contains-other_ids x l [] = ground arith
contains-other_ids x l (i ∷ ids) = ground (arith, contains-other_ids x l ids)

AllDistinct-other_ids : (l : ℕ) (ids : List ℕ) → AllDistinct ids → AllDistinct (other_ids l ids)
unfolding other_ids
AllDistinct-other_ids l [] h = tt
AllDistinct-other_ids l (i ∷ ids) h =
    ground (arith, AllDistinct-other_ids l ids h.1, contains-other_ids i l ids)

ids_of-map : (ids : List ℕ) → ids_of (map peer_id ids) ≡ ids
ids_of-map [] = refl
ids_of-map (i ∷ ids) = rw (ids_of-map ids)

module _ (L : Libs) where
  -- In a well-formed state, `peer_discover` succeeds for a request with an id, changes nothing, and
  -- lists each advertised peer other than the caller, and no other, exactly once.
  peer_discover_exact :
      (s : Signalling L) (local_id : ℕ)
      → WellFormed L s
      → (ps : List PeerId) × (peer_discover L (record { local_peer = some (peer_id local_id) }) s
          ≡ (ret (record { remote_peers = ps }), s))
        × ((x : ℕ) → contains x (ids_of ps) ≡ (not (x == local_id) && contains_key x s.peers))
        × AllDistinct (ids_of ps)
  unfolding peer_discover
  peer_discover_exact s l w = (
    map peer_id (other_ids l (keys s.peers)),
    refl,
    λ x. rw (ids_of-map (other_ids l (keys s.peers)), contains-other_ids, contains-keys),
    rw (ids_of-map (other_ids l (keys s.peers)))
        (AllDistinct-other_ids l (keys s.peers) w.distinct),
  )

  -- The stream, polled `n` times: what it yields, and where it stands.
  unfoldable pub poll :
      ℕ → Signalling L → PeerStream L → List (Option (TonicResult PeerListenerRsp)) × PeerStream L
  poll zero s stream = ([], stream)
  poll (suc n) s stream =
      let (item, stream') = peer_stream_next L s stream in
      let (items, stream'') = poll n s stream' in (item ∷ items, stream'')

  poll_from :
      (s : Signalling L) (rx : L.changes.Rx) (ms : List (TonicResult PeerListenerRsp))
      → drop (L.changes.position rx) (L.changes.history s.peer_broadcast) ≡ ms
      → length (L.changes.history s.peer_broadcast)
        ≤ L.changes.position rx + L.changes.capacity s.peer_broadcast
      → (poll (length ms) s (following rx)).0 ≡ map some ms
  unfolding poll peer_stream_next
  poll_from s rx [] e h = refl
  poll_from s rx (m ∷ ms) e h =
      let (got, rest, _) =
        get_elem?-drop (L.changes.position rx) (L.changes.history s.peer_broadcast) m ms e in
      let (r, moved) = L.changes.recv_direct_message s.peer_broadcast rx m got h in
      let rx' = (L.changes.recv_direct s.peer_broadcast rx).1 in
      let ih = poll_from s rx' ms (rw moved rest) (omega (arith)) in rw (r, ih)

  -- A stream with some first changes, whose receiver was made in a state and which is polled in another.
  pub poll_after :
      (s t : Signalling L) (changes : List PeerChange) (ms : List (TonicResult PeerListenerRsp))
      → L.changes.history t.peer_broadcast ≡ L.changes.history s.peer_broadcast ++ ms
      → length ms ≤ L.changes.capacity t.peer_broadcast
      → (poll (suc (length ms)) t (first changes (L.changes.new_receiver s.peer_broadcast))).0
        ≡ some (ok (record { peer_changes = changes })) ∷ map some ms
  unfolding poll peer_stream_next
  poll_after s t changes ms e h =
      let rx = L.changes.new_receiver s.peer_broadcast in
      let at_end = L.changes.position-new_receiver s.peer_broadcast in
      rw (
        poll_from t rx ms (rw (at_end, e) (drop-length (L.changes.history s.peer_broadcast) ms)) (
          omega
            (arith, at_end, ap length e, length-append (L.changes.history s.peer_broadcast) ms)))

  -- A listener's stream yields first the peers that were advertised when it was opened, without the
  -- caller, as additions. Polled again in any later state whose broadcasts extend those of the
  -- opening by at most as many messages as the channel holds, it then yields each of them once, in
  -- the order in which they were sent.
  pub stream_follows :
      (s t : Signalling L) (local_id : ℕ) (ms : List (TonicResult PeerListenerRsp))
      → L.changes.history t.peer_broadcast ≡ L.changes.history s.peer_broadcast ++ ms
      → length ms ≤ L.changes.capacity t.peer_broadcast
      → (stream : PeerStream L) × (open_peer_listener L
            (record { local_peer = some (peer_id local_id) })
            s
          ≡ (ret stream, s))
        × ((poll (suc (length ms)) t stream).0
            ≡ some (
                ok (record {
                  peer_changes = map peer_change_of_add (other_ids local_id (keys s.peers));
                }))
              ∷ map some ms)
  unfolding open_peer_listener initial_peer_changes
  stream_follows s t local_id ms e h = (
    first (initial_peer_changes L local_id s) (L.changes.new_receiver s.peer_broadcast),
    refl,
    poll_after s t (initial_peer_changes L local_id s) ms e h,
  )

  -- A stream that has fallen behind by more than the channel holds reports the loss as an error, and
  -- goes on at the oldest message that the channel still has.
  stream_lagged :
      (t : Signalling L) (rx : L.changes.Rx)
      → let h = L.changes.history t.peer_broadcast in
        let cap = L.changes.capacity t.peer_broadcast in
        L.changes.position rx + cap < length h
        → (poll (suc cap) t (following rx)).0
          ≡ some (
              err
                (status data_loss "peer listener has lagged behind. peer changes have been lost!"))
            ∷ map some (drop (length h - cap) h)
  unfolding poll peer_stream_next
  stream_lagged t rx lag =
      let (r, moved) = L.changes.recv_direct_overflowed t.peer_broadcast rx lag in
      let h = L.changes.history t.peer_broadcast in
      let cap = L.changes.capacity t.peer_broadcast in
      let rx' = (L.changes.recv_direct t.peer_broadcast rx).1 in
      let ms = drop (length h - cap) h in
      let size : length ms ≡ cap = omega (arith, length-drop (length h - cap) h) in
      let rest = poll_from t rx' ms (rw moved) (omega arith) in
      rw r (ground (arith, rw size at rest))
