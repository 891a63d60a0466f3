-- ===== src/Tests/Interleaved.antt =====
-- A teardown and an `advertise` whose segments interleave.
use just_webrtc.Known.{known_after}
use just_webrtc.Server.Listening.{heard, quiet, history, learned, listener_informed}
use just_webrtc.Server.Race.{phantom_peer, missed_peer}
use just_webrtc.Common.{◌≡◌, ◌≤◌, ◌+◌, refl, true, false, drop, length, [], ◌∷◌, contains, arith}
use just_webrtc.Common.Map.{lookup, insert, contains_key}
use just_webrtc.Proto.{peer_change_of_add, peer_change_of_remove}
use just_webrtc.Server.State.{Signalling}
use just_webrtc.Server.Peers.{insert_new_peer, broadcast_change, remove_peer}
use just_webrtc.Server.Announce.{Announced}
use just_webrtc.Server.Segments.{
  Busy, inserts, announces, tears_down, removes, Interleaving, halt, go,
}
use just_webrtc.Server.Settled.{mentions, Interleaving-announces}
use just_webrtc.Tests.Channels.{libs}
use just_webrtc.Tests.Data.{two_peers}

abbrev at_rest : Signalling libs → Busy libs
at_rest s = record { server = s; announcing = []; removing = [] }

abbrev b0 : Busy libs
b0 = at_rest (two_peers true 1)

-- Peer 2 is inserted, the removal of peer 1 is announced, peer 2 is announced, peer 1 is removed.
abbrev b1 : Busy libs
b1 = record b0 { server = (insert_new_peer libs b0.server).1; announcing = 2 ∷ [] }

abbrev b2 : Busy libs
b2 = record b1 {
  server = (broadcast_change libs (peer_change_of_remove 1) b1.server).1;
  removing = 1 ∷ [];
}

abbrev b3 : Busy libs
b3 = record b2 {
  server = (broadcast_change libs (peer_change_of_add 2) b2.server).1;
  announcing = [];
}

abbrev b4 : Busy libs
b4 = record b3 { server = (remove_peer libs 1 b3.server).1; removing = [] }

interleaved : Interleaving libs b0 b4
unfolding insert_new_peer contains_key contains broadcast_change
interleaved = go b0 b1 b4 (inserts 2 refl (omega arith) refl) (
    go b1 b2 b4 (tears_down 1 (omega arith) refl refl) (
      go b2 b3 b4 (announces 2 [] [] refl refl)
        (go b3 b4 b4 (removes 1 [] [] refl refl) (halt b4))))

Interleaving-announces_example : Announced libs (two_peers true 1) b4.server
Interleaving-announces_example =
    Interleaving-announces libs (two_peers true 1) b4.server interleaved

first_part : Interleaving libs b0 b1
unfolding insert_new_peer contains_key
first_part = go b0 b1 b1 (inserts 2 refl (omega arith) refl) (halt b1)

middle_part : Interleaving libs b1 b2
unfolding contains insert_new_peer contains_key broadcast_change
middle_part = go b1 b2 b2 (tears_down 1 (omega arith) refl refl) (halt b2)

last_part : Interleaving libs b2 b4
unfolding broadcast_change insert_new_peer contains_key
last_part =
    go b2 b3 b4 (announces 2 [] [] refl refl) (go b3 b4 b4 (removes 1 [] [] refl refl) (halt b4))

unmentioned :
    mentions 2 (heard (drop (length (history libs b1.server)) (history libs b2.server))) ≡ false
unfolding mentions heard insert_new_peer contains_key broadcast_change
unmentioned = refl

not_torn_down : contains 2 b1.removing ≡ false
unfolding contains
not_torn_down = refl

has_room :
    length (history libs b4.server)
    ≤ length (history libs b2.server) + libs.changes.capacity b4.server.peer_broadcast
unfolding remove_peer lookup broadcast_change insert_new_peer contains_key insert
has_room = omega arith

-- Peer 0 reads the peers when 2 is there and not yet announced, and subscribes when the removal of 1 is
-- announced.
listener_informed_example :
    known_after 2 (learned libs 0 b1.server b2.server b4.server) false
    ≡ contains_key 2 b4.server.peers
listener_informed_example =
    listener_informed libs (two_peers true 1) b4.server b1 b2 0 2 first_part middle_part last_part
      refl not_torn_down unmentioned has_room

phantom_peer_example :
    let s = two_peers true 1 in
    let told = (broadcast_change libs (peer_change_of_remove 1) s).1 in
    let t = (remove_peer libs 1 told).1 in
    Interleaving libs (quiet libs s) (record { server = told; announcing = []; removing = 1 ∷ [] })
    × Interleaving libs
        (record { server = told; announcing = []; removing = 1 ∷ [] })
        (quiet libs t)
    × (known_after 1 (learned libs 0 told told t) false ≡ true)
    × (contains_key 1 t.peers ≡ false)
unfolding contains_key
phantom_peer_example = phantom_peer libs (two_peers true 1) 0 1 refl (omega arith) refl

missed_peer_example :
    let s = two_peers true 1 in
    let t = (broadcast_change libs (peer_change_of_add 2) (insert_new_peer libs s).1).1 in
    Interleaving libs (quiet libs s) (quiet libs t)
    × (known_after 2 (learned libs 0 s t t) false ≡ false)
    × (contains_key 2 t.peers ≡ true)
unfolding contains_key
missed_peer_example = missed_peer libs (two_peers true 1) 0 refl (omega arith) refl
