-- ===== src/Tests/Service.antt =====
-- The theorems of the server's service at small runs.
use just_webrtc.Common.{
  ℕ, ◌+◌, ◌==◌, true, ◌≡◌, refl, if◌then◌else◌, none, some, List, [], ◌∷◌, arith,
}
use just_webrtc.Common.Map.{lookup, contains_key, insert, remove}
use just_webrtc.Common.Action.{ret, IsPanic}
use just_webrtc.Server.State.{new, no_listeners}
use just_webrtc.Server.Peers.{
  advertise, peer_id, insert_new_peer, broadcast_change, teardown, handle_teardown, remove_peer,
}
use just_webrtc.Server.Service.{
  Event, requested, advertise_req, teardown_req, offer_listener_req, serve, step, run,
}
use just_webrtc.Server.NoPanic.{serve_never_panics}
use just_webrtc.Server.WellFormed.{WellFormed, run-WellFormed}
use just_webrtc.Server.Ids.{advertise_fresh}
use just_webrtc.Server.Announce.{Announced, run_announces}
use just_webrtc.Tests.Channels.{libs}
use just_webrtc.Tests.Data.{of, two_peers, session}

serve_never_panics_example : ¬ IsPanic (serve libs (offer_listener_req (of 0)) (two_peers true 1)).0
serve_never_panics_example = serve_never_panics libs (offer_listener_req (of 0)) (two_peers true 1)

run-WellFormed_example : WellFormed libs (run libs session (new libs 0))
run-WellFormed_example = run-WellFormed libs session 0 (omega arith)

run_announces_example : Announced libs (two_peers true 1) (run libs session (two_peers true 1))
run_announces_example = run_announces libs session (two_peers true 1)

abbrev joins : List Event
joins = requested advertise_req ∷ []

abbrev leaves : List Event
leaves = requested (teardown_req (of 1)) ∷ []

advertise_fresh_example :
    let s = run libs joins (new libs 0) in
    let (outcome, t) = advertise libs s in
    (outcome ≡ ret (record { local_peer = some (peer_id s.generator) }))
    × (lookup s.generator s.peers ≡ none)
    × ((id : ℕ)
        → lookup id t.peers
          ≡ (if s.generator == id then some (no_listeners libs) else lookup id s.peers))
    × (t.generator ≡ s.generator + 1)
advertise_fresh_example = advertise_fresh libs joins 0 (omega arith)

joins_as_1 :
    (advertise libs (run libs joins (new libs 0))).0
    ≡ ret (record { local_peer = some (peer_id 1) })
unfolding new run step serve advertise insert_new_peer broadcast_change contains_key insert
joins_as_1 = refl

joins_as_2 :
    (advertise libs (run libs leaves (advertise libs (run libs joins (new libs 0))).1)).0
    ≡ ret (record { local_peer = some (peer_id 2) })
unfolding new run step serve advertise insert_new_peer broadcast_change contains_key insert teardown
    handle_teardown remove_peer remove lookup
joins_as_2 = refl
