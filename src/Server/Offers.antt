-- ===== src/Server/Offers.antt =====
-- `signal_offer` and `open_offer_listener`, and what the listener's stream does to its channel.
use just_webrtc.Common.{ℕ, none, some}
use just_webrtc.Common.Map.{lookup, insert}
use just_webrtc.Common.Action.{ret, panic, ◌>>=◌, ◌>>◌, pure, throw, ok_or, gets, modify}
use just_webrtc.Proto.{
  ok, SignalOffer, SignalOfferReq, LocalPeerReq, invalid_argument, failed_precondition, aborted,
}
use just_webrtc.Interfaces.{SendResult, sent, full, disconnected}
use just_webrtc.Server.State.{Libs, Listeners, Signalling, Handler, channel_bound, status}
use just_webrtc.Server.Peers.{handle_teardown}

module _ (L : Libs) where
  -- The stored channel of a peer changes in place, through the shared reference of the map's entry.
  unfoldable pub set_offer_tx : ℕ → Listeners L → L.offers.Chan → Signalling L → Signalling L
  set_offer_tx id peer tx s = record s {
    peers = insert id (record peer { offer_listener_tx = some tx }) s.peers;
  }

  -- The block of `signal_offer` under the read lock.
  unfoldable pub forward_offer : ℕ → SignalOffer → Handler L SendResult
  unfolding set_offer_tx
  forward_offer answerer_id offer_signal = do
    entry ← gets (λ (s : Signalling L). lookup answerer_id s.peers)
    peer ← ok_or entry (status failed_precondition "answerer peer not advertised!")
    tx ← ok_or peer.offer_listener_tx (status failed_precondition "answerer peer not listening!")
    let result = L.offers.try_send (ok (record { offer_signal = some offer_signal })) tx
    modify (set_offer_tx answerer_id peer result.1)
    pure result.0

  -- The `match result` of `signal_offer`.
  unfoldable pub respond_to_offer : ℕ → SendResult → Handler L (Unit {0})
  respond_to_offer answerer_id sent = pure tt
  respond_to_offer answerer_id disconnected = do
    handle_teardown L answerer_id
    throw (status failed_precondition "answerer peer has disconnected!")
  respond_to_offer answerer_id full = throw (status aborted "offer listener buffer full!")

  unfoldable pub signal_offer : SignalOfferReq → Handler L (Unit {0})
  unfolding forward_offer respond_to_offer
  signal_offer message = do
    answerer_peer ← ok_or message.answerer_peer (status invalid_argument "missing answerer peer ID")
    offer_signal ← ok_or message.offer_signal (status invalid_argument "missing offer signal")
    result ← forward_offer answerer_peer.id offer_signal
    respond_to_offer answerer_peer.id result

  -- A new channel, loaded with the empty response; `unwrap` panics if that is refused.
  unfoldable pub loaded_offer_channel : Handler L L.offers.Chan
  loaded_offer_channel s =
      let loaded =
        L.offers.try_send (ok (record { offer_signal = none })) (L.offers.bounded channel_bound) in
      elim loaded.0 [ sent ↦ (ret loaded.1, s) | full ↦ (panic, s) | disconnected ↦ (panic, s) ]

  -- `OnceLock::set`: refused where a value is set already.
  unfoldable pub store_offer_tx : ℕ → Listeners L → L.offers.Chan → Handler L (Unit {0})
  unfolding set_offer_tx
  store_offer_tx id peer tx = elim peer.offer_listener_tx [
    | none ↦ modify (set_offer_tx id peer tx)
    | some _ ↦ throw (status failed_precondition "offer listener already exists!")
  ]

  -- The stream that is returned reads the channel of this peer's entry: the peer's id stands for it.
  unfoldable pub open_offer_listener : LocalPeerReq → Handler L ℕ
  unfolding loaded_offer_channel store_offer_tx
  open_offer_listener message = do
    local_peer ← ok_or message.local_peer (status invalid_argument "missing local peer ID")
    entry ← gets (λ (s : Signalling L). lookup local_peer.id s.peers)
    peer ← ok_or entry (status failed_precondition "listener peer not advertised!")
    tx ← loaded_offer_channel
    store_offer_tx local_peer.id peer tx
    pure local_peer.id
