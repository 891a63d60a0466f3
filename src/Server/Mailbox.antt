-- ===== src/Server/Mailbox.antt =====
-- A peer's offer mailbox from the opening of its listener on: bounded, first in first out.
use just_webrtc.Common.{
  ℕ, ◌+◌, ◌≤◌, ◌<◌, ◌≡◌, refl, ◌∙◌, ap, true, none, some, List, [], ◌∷◌, ◌++◌, map, length,
  length-append, arith,
}
use mathlib.Core.List.{append-nil, append_assoc}
use just_webrtc.Common.Map.{lookup, lookup-insert}
use just_webrtc.Common.Action.{ret, ◌>>◌, pure}
use just_webrtc.Proto.{TonicResult, ok, SignalOffer, OfferListenerRsp}
use just_webrtc.Server.State.{Libs, Listeners, Signalling, Handler, channel_bound}
use just_webrtc.Server.Peers.{peer_id}
use just_webrtc.Server.NoPanic.{try_send-bounded}
use just_webrtc.Server.Offers.{signal_offer, open_offer_listener, set_offer_tx}
use just_webrtc.Server.OfferDelivery.{offer_to, offer_item, signal_offer_delivers}

module _ (L : Libs) where
  -- The mailbox of `id` is open, with the queue `q` and the bound of every channel.
  pub record OfferMailbox (id : ℕ) (q : List (TonicResult OfferListenerRsp)) (s : Signalling L)
      : Type 0 where
    pub peer : Listeners L
    pub tx : L.offers.Chan
    pub entry : lookup id s.peers ≡ some peer
    pub listens : peer.offer_listener_tx ≡ some tx
    pub open_end : L.offers.connected tx ≡ true
    pub bound : L.offers.capacity tx ≡ channel_bound
    pub holds : L.offers.queue tx ≡ q

  -- The offers are signalled to one peer, one after the other, until one is refused.
  unfoldable pub signal_offers : ℕ → List SignalOffer → Handler L (Unit {0})
  signal_offers id [] = pure tt
  signal_offers id (o ∷ os) = do
    signal_offer L (record { answerer_peer = some (peer_id id); offer_signal = some o })
    signal_offers id os

  abbrev pub items : List SignalOffer → List (TonicResult OfferListenerRsp)
  items = map λ o. ok (record { offer_signal = some o })

  signal_offer-Mailbox :
      (id : ℕ) (q : List (TonicResult OfferListenerRsp)) (o : SignalOffer) (s : Signalling L)
      → length q < channel_bound
      → OfferMailbox id q s
      → ((signal_offer L (offer_to L s id o) s).0 ≡ ret tt)
        × OfferMailbox id (q ++ offer_item L s id o ∷ []) (signal_offer L (offer_to L s id o) s).1
  signal_offer-Mailbox id q o s room m =
      let d =
        signal_offer_delivers L s id o m.entry m.listens m.open_end
          (omega (arith, m.bound, ap length m.holds)) in
      let k = d.1 in
      (
        d.0,
        record {
          peer = record m.peer { offer_listener_tx = some k.chan };
          tx = k.chan;
          entry = k.entry;
          listens = refl;
          open_end = k.connected ∙ m.open_end;
          bound = k.capacity ∙ m.bound;
          holds = rw (k.queued, m.holds);
        },
      )

  signal_offers-cons :
      (id : ℕ) (o : SignalOffer) (os : List SignalOffer) (s : Signalling L)
      → (signal_offer L (offer_to L s id o) s).0 ≡ ret tt
      → signal_offers id (o ∷ os) s ≡ signal_offers id os (signal_offer L (offer_to L s id o) s).1
  unfolding signal_offers
  signal_offers-cons id o os s e = ground arith

  pub signal_offers-Mailbox :
      (id : ℕ) (os : List SignalOffer) (q : List (TonicResult OfferListenerRsp)) (s : Signalling L)
      → length q + length os ≤ channel_bound
      → OfferMailbox id q s
      → ((signal_offers id os s).0 ≡ ret tt)
        × OfferMailbox id (q ++ items os) (signal_offers id os s).1
  unfolding signal_offers
  signal_offers-Mailbox id [] q s h m = (refl, rw append-nil m)
  signal_offers-Mailbox id (o ∷ os) q s h m =
      let (done, m') = signal_offer-Mailbox id q o s (omega arith) m in
      let s' = (signal_offer L (offer_to L s id o) s).1 in
      let rest =
        signal_offers-Mailbox id os (q ++ offer_item L s id o ∷ []) s'
          (omega (arith, length-append q (offer_item L s id o ∷ []))) m' in
      rw (signal_offers-cons id o os s done) (rw append_assoc at rest)

  open_offer_listener-Mailbox :
      (id : ℕ) (peer : Listeners L) (s : Signalling L)
      → lookup id s.peers ≡ some peer
      → peer.offer_listener_tx ≡ none
      → ((open_offer_listener L (record { local_peer = some (peer_id id) }) s).0 ≡ ret id)
        × OfferMailbox id
            (ok (record { offer_signal = none }) ∷ [])
            (open_offer_listener L (record { local_peer = some (peer_id id) }) s).1
  unfolding open_offer_listener set_offer_tx
  open_offer_listener-Mailbox id peer s e n =
      let empty : TonicResult OfferListenerRsp = ok (record { offer_signal = none }) in
      let chan = L.offers.bounded channel_bound in
      let tx = (L.offers.try_send empty chan).1 in
      let peer' = record peer { offer_listener_tx = some tx } in
      let fits = try_send-bounded L.offers empty in
      (
        ground (arith, fits),
        record {
          peer = peer';
          tx = tx;
          entry = ground (arith, fits, lookup-insert id id peer' s.peers);
          listens = refl;
          open_end =
              L.offers.connected-try_send empty chan ∙ L.offers.connected-bounded channel_bound;
          bound = L.offers.capacity-try_send empty chan ∙ L.offers.capacity-bounded channel_bound;
          holds = ground (
            arith,
            fits,
            L.offers.queue-try_send empty chan,
            L.offers.queue-bounded channel_bound,
          );
        },
      )

  -- Offers signalled to a peer that has just opened its listener are all accepted, up to fifteen of
  -- them, and lie in its buffer in the order in which they were signalled, behind the empty message
  -- that the opening put there.
  pub mailbox_fifo :
      (id : ℕ) (peer : Listeners L) (os : List SignalOffer) (s : Signalling L)
      → lookup id s.peers ≡ some peer
      → peer.offer_listener_tx ≡ none
      → length os + 1 ≤ channel_bound
      → let opened = (open_offer_listener L (record { local_peer = some (peer_id id) }) s).1 in
        ((signal_offers id os opened).0 ≡ ret tt)
        × OfferMailbox id
            (ok (record { offer_signal = none }) ∷ items os)
            (signal_offers id os opened).1
  mailbox_fifo id peer os s e n h =
      signal_offers-Mailbox id os _ _ (omega arith) (open_offer_listener-Mailbox id peer s e n).1
