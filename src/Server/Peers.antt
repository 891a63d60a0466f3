-- ===== src/Server/Peers.antt =====
-- The handlers that manage peers: `advertise`, `teardown`, `peer_discover`, `open_peer_listener`
-- and the stream that the last one returns.
use just_webrtc.Common.{ℕ, ◌+◌, ◌%◌, ◌==◌, if◌then◌else◌, Option, none, some, List, [], ◌∷◌, map}
use just_webrtc.Common.Map.{lookup, contains_key, insert, remove, keys}
use just_webrtc.Common.Action.{◌>>=◌, ◌>>◌, pure, throw, ok_or, gets, modify}
use just_webrtc.Proto.{
  TonicResult, ok, err, PeerId, PeerChange, peer_change_of_add, peer_change_of_remove, LocalPeerReq,
  AdvertiseRsp, PeerDiscoverRsp, PeerListenerRsp, invalid_argument, failed_precondition, internal,
  data_loss,
}
use just_webrtc.Interfaces.{message, overflowed, closed, waiting}
use just_webrtc.Server.State.{Libs, Signalling, Handler, no_listeners, u64_mod, status}

-- The ids of `peers.iter().filter_map(…)`: all but the caller's.
unfoldable pub other_ids : ℕ → List ℕ → List ℕ
other_ids local_id [] = []
other_ids local_id (id ∷ ids) =
    if id == local_id then other_ids local_id ids else id ∷ other_ids local_id ids

abbrev pub peer_id : ℕ → PeerId
peer_id id = record { id = id }

module _ (L : Libs) where
  -- `peer_broadcast_tx.try_broadcast`, whose result only selects a line for the log.
  unfoldable pub broadcast_change : PeerChange → Handler L (Unit {0})
  broadcast_change change = modify λ (s : Signalling L).
      let message = ok (record { peer_changes = change ∷ [] }) in
      record s { peer_broadcast = (L.changes.try_broadcast message s.peer_broadcast).1 }

  -- `peers.remove(&id).ok_or(…)?`, under the write lock.
  unfoldable pub remove_peer : ℕ → Handler L (Unit {0})
  remove_peer id = do
    entry ← gets (λ (s : Signalling L). lookup id s.peers)
    modify (λ (s : Signalling L). record s { peers = remove id s.peers })
    _ ← ok_or entry (status failed_precondition "peer ID not advertised!")
    pure tt

  unfoldable pub handle_teardown : ℕ → Handler L (Unit {0})
  unfolding broadcast_change remove_peer
  handle_teardown id = do broadcast_change (peer_change_of_remove id); remove_peer id

  -- The first block of `advertise`: draws an id and inserts its entry.
  unfoldable pub insert_new_peer : Handler L ℕ
  insert_new_peer = do
    id ← gets (λ (s : Signalling L). s.generator)
    modify (λ (s : Signalling L). record s { generator = (s.generator + 1) % u64_mod })
    taken ← gets (λ (s : Signalling L). contains_key id s.peers)
    if taken then throw (status internal "generated duplicate ID!") else do
      modify (λ (s : Signalling L). record s { peers = insert id (no_listeners L) s.peers })
      pure id

  unfoldable pub advertise : Handler L AdvertiseRsp
  unfolding insert_new_peer broadcast_change
  advertise = do
    id ← insert_new_peer
    broadcast_change (peer_change_of_add id)
    pure (record { local_peer = some (peer_id id) })

  unfoldable pub teardown : LocalPeerReq → Handler L (Unit {0})
  unfolding handle_teardown
  teardown request = do
    local_peer ← ok_or request.local_peer (status invalid_argument "missing local peer ID")
    handle_teardown local_peer.id

  unfoldable pub peer_discover : LocalPeerReq → Handler L PeerDiscoverRsp
  peer_discover request = do
    local_peer ← ok_or request.local_peer (status invalid_argument "missing local peer ID")
    ids ← gets (λ (s : Signalling L). other_ids local_peer.id (keys s.peers))
    pure (record { remote_peers = map peer_id ids })

  -- The state of the stream that `open_peer_listener` builds: before and after its first item.
  pub data PeerStream : Type 0 where
    first : List PeerChange → L.changes.Rx → PeerStream
    following : L.changes.Rx → PeerStream

  unfoldable pub initial_peer_changes : ℕ → Signalling L → List PeerChange
  initial_peer_changes local_id s = map peer_change_of_add (other_ids local_id (keys s.peers))

  unfoldable pub open_peer_listener : LocalPeerReq → Handler L PeerStream
  unfolding initial_peer_changes
  open_peer_listener request = do
    local_peer ← ok_or request.local_peer (status invalid_argument "missing local peer ID")
    changes ← gets (initial_peer_changes local_peer.id)
    rx ← gets (λ (s : Signalling L). L.changes.new_receiver s.peer_broadcast)
    pure (first changes rx)

  -- One poll of the stream: its next item, or `none` while `recv_direct` waits.
  unfoldable pub peer_stream_next :
      Signalling L → PeerStream → Option (TonicResult PeerListenerRsp) × PeerStream
  peer_stream_next s (first changes rx) =
      (some (ok (record { peer_changes = changes })), following rx)
  peer_stream_next s (following rx) =
      let received = L.changes.recv_direct s.peer_broadcast rx in
      (
        elim received.0 [
          | message m ↦ some m
          | overflowed missed ↦ some (
              err
                (status data_loss "peer listener has lagged behind. peer changes have been lost!"))
          | closed ↦ some (err (status internal "peer changes broadcast is closed!"))
          | waiting ↦ none
        ],
        following received.1,
      )
