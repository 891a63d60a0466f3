-- ===== src/Tests/Streams.antt =====
-- Discovery and the peer listener's stream at small states.
use just_webrtc.Common.{◌≡◌, refl, true, some, List, [], ◌∷◌, map, arith}
use just_webrtc.Common.Map.{keys}
use just_webrtc.Common.Action.{ret}
use just_webrtc.Proto.{TonicResult, PeerListenerRsp, ok, peer_change_of_add, peer_change_of_remove}
use just_webrtc.Server.State.{Signalling, new, channel_bound}
use just_webrtc.Server.Peers.{PeerStream, peer_id, other_ids, open_peer_listener}
use just_webrtc.Server.Service.{run}
use just_webrtc.Server.Announce.{announcement}
use just_webrtc.Server.Discovery.{poll, stream_follows}
use just_webrtc.Tests.Channels.{libs}
use just_webrtc.Tests.Data.{session, two_peers, times}

abbrev ended : Signalling libs
ended = run libs session (new libs 0)

-- The two peers, and what was broadcast since they joined.
abbrev after : List (TonicResult PeerListenerRsp) → Signalling libs
after ms = record (two_peers true 1) {
  peer_broadcast = record { history = ms; capacity = channel_bound };
}

abbrev news : List (TonicResult PeerListenerRsp)
news = announcement (peer_change_of_add 2) ∷ announcement (peer_change_of_remove 0) ∷ []

stream_follows_example :
    (stream : PeerStream libs) × (open_peer_listener libs
        (record { local_peer = some (peer_id 1) })
        (after [])
      ≡ (ret stream, after []))
    × ((poll libs 3 (after news) stream).0
        ≡ some (
            ok (record {
              peer_changes = map peer_change_of_add (other_ids 1 (keys (after []).peers));
            }))
          ∷ map some news)
stream_follows_example = stream_follows libs (after []) (after news) 1 news refl (omega arith)

abbrev overfull : List (TonicResult PeerListenerRsp)
overfull = announcement (peer_change_of_remove 0) ∷ times 16 (announcement (peer_change_of_add 2))
