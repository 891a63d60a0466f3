-- ===== src/Tests/Whole.antt =====
-- A peer and the server together.
use just_webrtc.Common.{
  ℕ, ◌≡◌, ◌≢◌, refl, true, false, some, List, [], ◌∷◌, ◌++◌, map, contains, arith,
}
use just_webrtc.Common.Map.{lookup, contains_key, insert}
use just_webrtc.Common.Action.{ok, ret}
use just_webrtc.Proto.{
  PeerListenerRsp, OfferListenerRsp, AnswerListenerRsp, PeerChange, peer_change_of_add,
  peer_change_of_remove,
}
use just_webrtc.Server.State.{Listeners, Signalling}
use just_webrtc.Server.Peers.{initial_peer_changes, advertise, handle_teardown}
use just_webrtc.Server.Offers.{signal_offer, open_offer_listener}
use just_webrtc.Server.Service.{run, serve, step, with_offer_chan}
use just_webrtc.Client.State.{
  offer_listener, create_offer, receive_offer, answer_listener, callback_fut, Streaming,
}
use just_webrtc.Client.Peer.{new, start_peer}
use just_webrtc.Client.Tasks.{offer_listener_task, answer_listener_task}
use just_webrtc.Client.Step.{Session, apply_peer_changes, handle}
use just_webrtc.System.Transport.{item_of}
use just_webrtc.System.Mirror.{discovery_mirrors_server}
use just_webrtc.System.Exchange.{offer_reaches_listener, answer_reaches_listener}
use just_webrtc.System.Joining.{new_offers, new_answers, start_peer_joins}
use just_webrtc.System.Meeting.{offer_meets_newcomer}
use just_webrtc.Server.Announce.{announcement}
use just_webrtc.Tests.Channels.{libs}
use just_webrtc.Tests.Data.{two_peers, session, pipe, no_offer, no_answer, listens}
use just_webrtc.Tests.Clients.{signals, stub, stub-Serves, session_in}

abbrev late : Session signals (Signalling libs)
late = session_in (run libs session (two_peers true 1))

-- What the server broadcasts over the session.
abbrev sent : List PeerChange
sent = peer_change_of_add 2 ∷ peer_change_of_add 3 ∷ peer_change_of_remove 1 ∷ []

session_sends :
    libs.changes.history (run libs session (two_peers true 1)).peer_broadcast
    ≡ libs.changes.history (two_peers true 1).peer_broadcast ++ map announcement sent
unfolding run step serve signal_offer lookup with_offer_chan open_offer_listener advertise
    contains_key insert handle_teardown
session_sends = refl

discovery_mirrors_server_example :
    let done =
      apply_peer_changes signals stub
        (initial_peer_changes libs 0 (two_peers true 1) ++ sent)
        late in
    (done.0 ≡ ret tt)
    × (contains 2 done.1.peer.discovered_peers
        ≡ contains_key 2 (run libs session (two_peers true 1)).peers)
unfolding new
discovery_mirrors_server_example =
    discovery_mirrors_server libs signals stub (λ w. w) stub-Serves (two_peers true 1) session sent
      late 2 refl session_sends refl (λ (e : 2 ≡ 0). omega arith)

abbrev caller : Session signals (Signalling libs)
caller = session_in (two_peers true 1)

offer_reaches_listener_example :
    let (outcome, t) = handle signals stub (create_offer 1 (1 ∷ 2 ∷ [], 3 ∷ [])) caller in
    (outcome ≡ ret tt)
    × (t.peer ≡ caller.peer)
    × (peer' : Listeners libs) × (chan : libs.offers.Chan) × (lookup 1 t.world.peers ≡ some peer')
    × (peer'.offer_listener_tx ≡ some chan)
    × (offer_listener_task signals (map item_of (libs.offers.queue chan) ++ [])
        ≡ some (ok (offer_listener [] caller.peer.local_id (1 ∷ 2 ∷ [], 3 ∷ []))))
unfolding lookup
offer_reaches_listener_example =
    offer_reaches_listener libs signals stub (λ w. w) stub-Serves caller 1 (1 ∷ 2 ∷ []) (3 ∷ [])
      (1 ∷ 2 ∷ []) (3 ∷ []) {peer = listens true 1} {tx = pipe true (no_offer ∷ [])} [] refl refl
      refl refl refl (omega arith) refl

answer_reaches_listener_example :
    let (outcome, t) = handle signals stub (receive_offer 1 (4 ∷ [], 3 ∷ [])) caller in
    (outcome ≡ ret tt)
    × (t.peer ≡ record caller.peer {
      unordered_futs =
          caller.peer.unordered_futs ++ callback_fut (caller.peer.remote_sig_cplt_task 1) ∷ [];
    })
    × (peer' : Listeners libs) × (chan : libs.answers.Chan) × (lookup 1 t.world.peers ≡ some peer')
    × (peer'.answer_listener_tx ≡ some chan)
    × (answer_listener_task signals (map item_of (libs.answers.queue chan) ++ [])
        ≡ some (ok (answer_listener [] caller.peer.local_id (4 ∷ [], 3 ∷ []))))
unfolding lookup
answer_reaches_listener_example =
    answer_reaches_listener libs signals stub (λ w. w) stub-Serves caller 1 (4 ∷ []) (3 ∷ [])
      (4 ∷ []) (3 ∷ []) {peer = listens true 1} {tx = pipe true (no_answer ∷ [])} [] refl refl refl
      refl refl (omega arith) refl

two_is_free : contains_key 2 (two_peers true 1).peers ≡ false
unfolding contains_key
two_is_free = refl

start_peer_joins_example :
    (a : Streaming PeerListenerRsp) × (b : Streaming OfferListenerRsp) × (c : Streaming
      AnswerListenerRsp)
    × (t : Signalling libs) × (start_peer signals stub (two_peers true 1)
        ≡ (ret (new signals 2 a b c), t))
    × (lookup 2 t.peers
        ≡ some (record {
          offer_listener_tx = some (new_offers libs);
          answer_listener_tx = some (new_answers libs);
        }))
    × (libs.offers.queue (new_offers libs) ≡ no_offer ∷ [])
    × (libs.answers.queue (new_answers libs) ≡ no_answer ∷ [])
    × ((x : ℕ) → x ≢ 2 → lookup x t.peers ≡ lookup x (two_peers true 1).peers)
    × (libs.changes.history t.peer_broadcast ≡ announcement (peer_change_of_add 2) ∷ [])
start_peer_joins_example =
    start_peer_joins libs signals stub (λ w. w) stub-Serves (two_peers true 1) two_is_free

-- The other client, once the new peer has started.
abbrev next_to_act : Session signals (Signalling libs)
next_to_act = session_in (start_peer signals stub (two_peers true 1)).1

offer_meets_newcomer_example :
    let (outcome, t) = handle signals stub (create_offer 2 (1 ∷ 2 ∷ [], 3 ∷ [])) next_to_act in
    (outcome ≡ ret tt)
    × (peer : Listeners libs) × (chan : libs.offers.Chan) × (lookup 2 t.world.peers ≡ some peer)
    × (peer.offer_listener_tx ≡ some chan)
    × (offer_listener_task signals (map item_of (libs.offers.queue chan) ++ [])
        ≡ some (ok (offer_listener [] next_to_act.peer.local_id (1 ∷ 2 ∷ [], 3 ∷ []))))
offer_meets_newcomer_example =
    offer_meets_newcomer libs signals stub (λ w. w) stub-Serves (two_peers true 1) next_to_act
      (1 ∷ 2 ∷ []) (3 ∷ []) (1 ∷ 2 ∷ []) (3 ∷ []) [] two_is_free refl refl refl
