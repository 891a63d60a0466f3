-- ===== src/Server/Answers.antt =====
-- `signal_answer` and `open_answer_listener`, and what the listener's stream does to its channel.
use just_webrtc.Common.{ℕ, none, some}
use just_webrtc.Common.Map.{lookup, insert}
use just_webrtc.Common.Action.{ret, panic, ◌>>=◌, ◌>>◌, pure, throw, ok_or, gets, modify}
use just_webrtc.Proto.{
  ok, SignalAnswer, SignalAnswerReq, LocalPeerReq, invalid_argument, failed_precondition, aborted,
}
use just_webrtc.Interfaces.{SendResult, sent, full, disconnected}
use just_webrtc.Server.State.{Libs, Listeners, Signalling, Handler, channel_bound, status}
use just_webrtc.Server.Peers.{handle_teardown}

module _ (L : Libs) where
  -- The stored channel of a peer changes in place, through the shared reference of the map's entry.
  unfoldable pub set_answer_tx : ℕ → Listeners L → L.answers.Chan → Signalling L → Signalling L
  set_answer_tx id peer tx s = record s {
    peers = insert id (record peer { answer_listener_tx = some tx }) s.peers;
  }

  -- The block of `signal_answer` under the read lock.
  unfoldable pub forward_answer : ℕ → SignalAnswer → Handler L SendResult
  unfolding set_answer_tx
  forward_answer offerer_id answer_signal = do
    entry ← gets (λ (s : Signalling L). lookup offerer_id s.peers)
    peer ← ok_or entry (status failed_precondition "offerer peer not advertised!")
    tx ← ok_or peer.answer_listener_tx (status failed_precondition "offerer peer not listening!")
    let result = L.answers.try_send (ok (record { answer_signal = some answer_signal })) tx
    modify (set_answer_tx offerer_id peer result.1)
    pure result.0

  -- The `match result` of `signal_answer`.
  unfoldable pub respond_to_answer : ℕ → SendResult → Handler L (Unit {0})
  respond_to_answer offerer_id sent = pure tt
  respond_to_answer offerer_id disconnected = do
    handle_teardown L offerer_id
    throw (status failed_precondition "offerer peer has disconnected!")
  respond_to_answer offerer_id full = throw (status aborted "answer listener buffer full!")

  unfoldable pub signal_answer : SignalAnswerReq → Handler L (Unit {0})
  unfolding forward_answer respond_to_answer
  signal_answer message = do
    offerer_peer ← ok_or message.offerer_peer (status invalid_argument "missing offerer peer ID")
    answer_signal ← ok_or message.answer_signal (status invalid_argument "missing answer signal")
    result ← forward_answer offerer_peer.id answer_signal
    respond_to_answer offerer_peer.id result

  -- A new channel, loaded with the empty response; `unwrap` panics if that is refused.
  unfoldable pub loaded_answer_channel : Handler L L.answers.Chan
  loaded_answer_channel s =
      let loaded =
        L.answers.try_send (ok (record { answer_signal = none }))
          (L.answers.bounded channel_bound) in
      elim loaded.0 [ sent ↦ (ret loaded.1, s) | full ↦ (panic, s) | disconnected ↦ (panic, s) ]

  -- `OnceLock::set`: refused where a value is set already.
  unfoldable pub store_answer_tx : ℕ → Listeners L → L.answers.Chan → Handler L (Unit {0})
  unfolding set_answer_tx
  store_answer_tx id peer tx = elim peer.answer_listener_tx [
    | none ↦ modify (set_answer_tx id peer tx)
    | some _ ↦ throw (status failed_precondition "answer listener already exists!")
  ]

  -- The stream that is returned reads the channel of this peer's entry: the peer's id stands for it.
  unfoldable pub open_answer_listener : LocalPeerReq → Handler L ℕ
  unfolding loaded_answer_channel store_answer_tx
  open_answer_listener message = do
    local_peer ← ok_or message.local_peer (status invalid_argument "missing local peer ID")
    entry ← gets (λ (s : Signalling L). lookup local_peer.id s.peers)
    peer ← ok_or entry (status failed_precondition "listener peer not advertised!")
    tx ← loaded_answer_channel
    store_answer_tx local_peer.id peer tx
    pure local_peer.id
