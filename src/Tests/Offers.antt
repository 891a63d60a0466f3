-- ===== src/Tests/Offers.antt =====
-- The delivery of an offer, on every branch, at small states.
use just_webrtc.Common.{◌≡◌, refl, true, some, [], ◌∷◌, arith}
use just_webrtc.Common.Map.{lookup}
use just_webrtc.Common.Action.{ret}
use just_webrtc.Proto.{SignalOffer, SignalOfferReq}
use just_webrtc.Server.State.{no_listeners}
use just_webrtc.Server.Peers.{peer_id}
use just_webrtc.Server.Offers.{signal_offer, open_offer_listener}
use just_webrtc.Server.OfferDelivery.{OfferVerdict, signal_offer_exact, offer_to}
use just_webrtc.Server.Mailbox.{OfferMailbox, signal_offers, items, mailbox_fifo}
use just_webrtc.Tests.Channels.{libs}
use just_webrtc.Tests.Data.{an_offer, no_offer, two_peers}

abbrev another_offer : SignalOffer
another_offer = record { offerer_id = 5; offer = []; candidates = 1 ∷ [] }

abbrev answerer_1 : SignalOfferReq
answerer_1 = offer_to libs (two_peers true 1) 1 an_offer

mailbox_fifo_example :
    let opened =
      (open_offer_listener libs (record { local_peer = some (peer_id 0) }) (two_peers true 1)).1 in
    ((signal_offers libs 0 (an_offer ∷ another_offer ∷ []) opened).0 ≡ ret tt)
    × OfferMailbox libs 0
        (no_offer ∷ items libs (an_offer ∷ another_offer ∷ []))
        (signal_offers libs 0 (an_offer ∷ another_offer ∷ []) opened).1
unfolding lookup
mailbox_fifo_example =
    mailbox_fifo libs 0 (no_listeners libs) (an_offer ∷ another_offer ∷ []) (two_peers true 1) refl
      refl (omega arith)

signal_offer_exact_example :
    OfferVerdict libs
      (two_peers true 1)
      1
      an_offer
      (signal_offer libs answerer_1 (two_peers true 1)).0
      (signal_offer libs answerer_1 (two_peers true 1)).1
signal_offer_exact_example = signal_offer_exact libs (two_peers true 1) 1 an_offer
