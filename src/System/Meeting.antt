-- ===== src/System/Meeting.antt =====
-- A client that is there already makes an offer to a new one.
use just_webrtc.Common.{◌<◌, ◌≡◌, refl, ◌∙◌, ap, true, false, some, ◌++◌, map, length, arith}
use just_webrtc.Common.Map.{lookup, contains_key}
use just_webrtc.Common.Action.{ok, ret}
use just_webrtc.Proto.{Bytes, OfferListenerRsp}
use just_webrtc.Client.State.{Signals, Streaming, create_offer, offer_listener}
use just_webrtc.Client.Tasks.{offer_listener_task}
use just_webrtc.Client.Rpc.{Stub}
use just_webrtc.Client.Peer.{start_peer}
use just_webrtc.Client.Step.{Session, handle}
use just_webrtc.Server.State.{Libs, Listeners, Signalling, channel_bound}
use just_webrtc.System.Transport.{Serves, item_of}
use just_webrtc.System.Exchange.{offer_reaches_listener}
use just_webrtc.System.Joining.{no_offer, new_offers, new_offers_hold, start_peer_joins}

module _ (L : Libs) where
  new_offers_open : L.offers.connected (new_offers L) ≡ true
  new_offers_open =
      L.offers.connected-try_send (no_offer L) (L.offers.bounded channel_bound)
      ∙ L.offers.connected-bounded channel_bound

  new_offers_room : length (L.offers.queue (new_offers L)) < L.offers.capacity (new_offers L)
  new_offers_room =
      let one = ap length (new_offers_hold L) in
      omega (
        arith,
        one,
        L.offers.capacity-try_send (no_offer L) (L.offers.bounded channel_bound),
        L.offers.capacity-bounded channel_bound,
      )

module _ (L : Libs) (G : Signals) {W : Type 0} (stub : Stub W) (server : W → Signalling L)
    (serves : Serves L stub server) where
  -- A client starts a peer, which the server gives a free id, and the next to act is another client,
  -- with an offer ready for that peer. The other client's step succeeds, and the new peer's offer
  -- listener, reading what is then in its buffer, completes with the other client's id, the offer and
  -- the candidates.
  pub offer_meets_newcomer :
      (w : W) (s : Session G W) (offer : G.Offer) (candidates : G.Candidates) (ob cb : Bytes)
      (rest : Streaming OfferListenerRsp)
      → contains_key (server w).generator (server w).peers ≡ false
      → s.world ≡ (start_peer G stub w).1
      → G.offers.serialize offer ≡ ok ob
      → G.candidates.serialize candidates ≡ ok cb
      → let id = (server w).generator in
        let (outcome, t) = handle G stub (create_offer id (offer, candidates)) s in
        (outcome ≡ ret tt)
        × (peer : Listeners L) × (chan : L.offers.Chan) × (lookup id (server t.world).peers
            ≡ some peer)
        × (peer.offer_listener_tx ≡ some chan)
        × (offer_listener_task G (map item_of (L.offers.queue chan) ++ rest)
            ≡ some (ok (offer_listener rest s.peer.local_id (offer, candidates))))
  offer_meets_newcomer w s offer candidates ob cb rest free next o c =
      let (_, _, _, t, started, entry, _, _, _, _) =
        start_peer_joins L G stub server serves w free in
      let here : s.world ≡ t = next ∙ ap (λ r. r.1) started in
      let found = ap (λ v. lookup (server w).generator (server v).peers) here ∙ entry in
      let (done, _, peer, chan, there, listens, reads) =
        offer_reaches_listener L G stub server serves s (server w).generator offer candidates ob cb
          rest o c found refl (new_offers_open L) (new_offers_room L) (new_offers_hold L) in
      (done, peer, chan, there, listens, reads)
