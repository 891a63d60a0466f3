-- ===== src/Tests/Peers.antt =====
-- The theorems of the signalling peer at small sessions.
use just_webrtc.Common.{◌+◌, ◌≡◌, refl, true, none, some, List, [], ◌∷◌, contains}
use just_webrtc.Common.Map.{keys}
use just_webrtc.Common.IdSet
use just_webrtc.Common.Action.{ok, ret}
use just_webrtc.Known.{known_after}
use just_webrtc.Proto.{
  PeerChange, PeerDiscoverRsp, SignalOfferReq, peer_change_of_add, peer_change_of_remove,
}
use just_webrtc.Server.State.{Signalling}
use just_webrtc.Server.Peers.{peer_discover, peer_id, other_ids}
use just_webrtc.Client.State.{
  offer_listener, peer_listener_fut, offer_listener_fut, answer_listener_fut, callback_fut, arrived,
}
use just_webrtc.Client.Rpc.{of_local, signal_offer}
use just_webrtc.Client.Peer.{new}
use just_webrtc.Client.Tasks.{offer_listener_task, resolve, decode_offer, decode_pair}
use just_webrtc.Client.Step.{
  Session, apply_peer_change, apply_peer_changes, on_peer_listener, handle, step, next, queue,
  keep_first,
}
use just_webrtc.Client.Armed.{offers, listening, heard, handle_rearms}
use just_webrtc.Client.Chains.{new-RunsChains}
use just_webrtc.Client.Loop.{run_steps, run_steps_keeps_listeners}
use just_webrtc.Client.Discovery.{At, found, apply_peer_changes_converges}
use just_webrtc.Client.Chain.{offer_request, delivered, empty_offers, offer_roundtrip}
use just_webrtc.Tests.Channels.{libs}
use just_webrtc.Tests.Data.{two_peers}
use just_webrtc.Tests.Clients.{signals, stub, newcomer, session_in}

abbrev start : Session signals (Signalling libs)
start = session_in (two_peers true 1)

offer_roundtrip_example :
    (request : SignalOfferReq) × (signal_offer stub signals 0 1 (7 ∷ []) (8 ∷ []) (two_peers true 1)
      ≡ (
        delivered 1 (stub.signal_offer request (two_peers true 1)).0,
        (stub.signal_offer request (two_peers true 1)).1,
      ))
    × (request.answerer_peer ≡ some (record { id = 1 }))
    × (offer_listener_task signals
          (empty_offers signals 1 (arrived (record { offer_signal = request.offer_signal }) ∷ []))
        ≡ some (ok (offer_listener [] 0 (7 ∷ [], 8 ∷ []))))
offer_roundtrip_example =
    offer_roundtrip signals stub 1 0 1 (7 ∷ []) (8 ∷ []) (7 ∷ []) (8 ∷ []) [] (two_peers true 1)
      refl refl

abbrev arrivals : List PeerChange
arrivals = peer_change_of_add 1 ∷ peer_change_of_add 5 ∷ []

arrivals_are_applied : (on_peer_listener signals stub [] arrivals start).0 ≡ ret tt
unfolding on_peer_listener apply_peer_changes contains new apply_peer_change IdSet.insert
arrivals_are_applied = refl

handle_rearms_example :
    listening offers
      (handle signals stub (offer_listener [] 1 (7 ∷ [], 8 ∷ [])) start).1.peer.unordered_futs
    ≡ listening offers newcomer.unordered_futs
      + heard {G = signals} offers (offer_listener [] 1 (7 ∷ [], 8 ∷ []))
handle_rearms_example =
    handle_rearms signals stub offers (offer_listener [] 1 (7 ∷ [], 8 ∷ [])) start

abbrev listed : PeerDiscoverRsp
listed = record { remote_peers = peer_id 1 ∷ [] }

lists_the_other : stub.peer_discover (of_local 0) (two_peers true 1) ≡ (ok listed, two_peers true 1)
unfolding peer_discover other_ids keys
lists_the_other = refl

start-At : At signals stub (two_peers true 1) 0 listed lists_the_other start
unfolding new
start-At = record { world = refl; peer = refl }

abbrev churn : List PeerChange
churn =
    peer_change_of_add 1
    ∷ peer_change_of_add 5
    ∷ peer_change_of_remove 5
    ∷ peer_change_of_add 1
    ∷ []

churn_settles :
    known_after 1 churn (contains 1 newcomer.discovered_peers) ≡ contains 1 (found listed)
unfolding known_after contains new
churn_settles = refl

apply_peer_changes_converges_example :
    ((apply_peer_changes signals stub churn start).0 ≡ ret tt)
    × At signals stub
        (two_peers true 1)
        0
        listed
        lists_the_other
        (apply_peer_changes signals stub churn start).1
    × (contains 1 (apply_peer_changes signals stub churn start).1.peer.discovered_peers
        ≡ contains 1 (found listed))
apply_peer_changes_converges_example =
    apply_peer_changes_converges signals stub (two_peers true 1) 0 listed lists_the_other churn
      start 1 start-At churn_settles

-- A peer whose offer listener has one offer to come.
abbrev called : Session signals (Signalling libs)
called = record start {
  peer =
      new signals 0 []
        (arrived (record { offer_signal = (offer_request 1 0 (7 ∷ []) (8 ∷ [])).offer_signal })
          ∷ [])
        [];
}

abbrev answering : Session signals (Signalling libs)
answering = record called {
  peer = record called.peer {
    unordered_futs =
        peer_listener_fut []
        ∷ answer_listener_fut []
        ∷ offer_listener_fut []
        ∷ callback_fut none
        ∷ [];
  };
}

called_answers : run_steps signals stub (1 ∷ []) called ≡ some answering
unfolding run_steps step next resolve offer_listener_task decode_offer decode_pair handle new queue
    keep_first
called_answers = refl

called_listens : listening offers called.peer.unordered_futs ≡ 1
unfolding listening new
called_listens = refl

run_steps_keeps_listeners_example : listening offers answering.peer.unordered_futs ≡ 1
run_steps_keeps_listeners_example =
    run_steps_keeps_listeners signals stub offers (1 ∷ []) called answering
      (new-RunsChains 0 [] _ []) called_listens called_answers
