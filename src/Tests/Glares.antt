-- ===== src/Tests/Glares.antt =====
-- Two peers that join at the same time, as the third and the fourth.
use just_webrtc.Common.{◌≡◌, refl, true, some, [], arith}
use just_webrtc.Common.Map.{contains_key}
use just_webrtc.Common.Action.{ret}
use just_webrtc.Server.State.{Signalling}
use just_webrtc.Server.Peers.{advertise, peer_id}
use just_webrtc.Client.Peer.{new}
use just_webrtc.Client.Step.{Session}
use just_webrtc.System.Glare.{OffersTo, both_offer}
use just_webrtc.Tests.Channels.{libs}
use just_webrtc.Tests.Data.{two_peers}
use just_webrtc.Tests.Clients.{signals, stub}

abbrev third : Session signals (Signalling libs)
third = record { world = two_peers true 1; peer = new signals 2 [] [] [] }

abbrev fourth : Session signals (Signalling libs)
fourth = record { world = two_peers true 1; peer = new signals 3 [] [] [] }

both_offer_example :
    let (got_a, s1) = advertise libs (two_peers true 1) in
    let (got_b, t) = advertise libs s1 in
    (got_a ≡ ret (record { local_peer = some (peer_id 2) }))
    × (got_b ≡ ret (record { local_peer = some (peer_id 3) }))
    × OffersTo libs signals stub t 2 3 third
    × OffersTo libs signals stub t 3 2 fourth
unfolding contains_key new
both_offer_example =
    both_offer libs signals stub (two_peers true 1) third fourth refl refl (omega arith) refl refl
