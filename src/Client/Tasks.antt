-- ===== src/Client/Tasks.antt =====
-- The three listener tasks of client.rs.
use just_webrtc.Common.{String, none, some, [], ◌∷◌}
use just_webrtc.Common.Action.{Result, ok, err}
use just_webrtc.Proto.{
  SignalOffer, SignalAnswer, PeerListenerRsp, OfferListenerRsp, AnswerListenerRsp,
}
use just_webrtc.Client.State.{
  bincode, listener_closed, tonic_status, ClientResult, Signals, arrived, ended, broken, Streaming,
  peer_listener, offer_listener, answer_listener, Resolution, SignallingStateFut, peer_listener_fut,
  offer_listener_fut, answer_listener_fut, callback_fut,
}

-- `bincode::deserialize(…)?` of two fields, in this order.
unfoldable pub decode_pair :
    {X Y : Type 0} → Result String X → Result String Y → ClientResult (X × Y)
decode_pair (err e) _ = err (bincode e)
decode_pair (ok x) (err e) = err (bincode e)
decode_pair (ok x) (ok y) = ok (x, y)

abbrev pub then_ok : {X Y : Type 0} → (X → Y) → ClientResult X → ClientResult Y
then_ok f (ok x) = ok (f x)
then_ok f (err e) = err e

module _ (G : Signals) where
  unfoldable pub peer_listener_task : Streaming PeerListenerRsp → Resolution G
  peer_listener_task [] = none
  peer_listener_task (arrived message ∷ listener) =
      some (ok (peer_listener listener message.peer_changes))
  peer_listener_task (ended ∷ listener) = some (err listener_closed)
  peer_listener_task (broken e ∷ listener) = some (err (tonic_status e))

  unfoldable pub decode_offer : SignalOffer → ClientResult (G.Offer × G.Candidates)
  unfolding decode_pair
  decode_offer signal =
      decode_pair (G.offers.deserialize signal.offer) (G.candidates.deserialize signal.candidates)

  unfoldable pub decode_answer : SignalAnswer → ClientResult (G.Answer × G.Candidates)
  unfolding decode_pair
  decode_answer signal =
      decode_pair (G.answers.deserialize signal.answer) (G.candidates.deserialize signal.candidates)

  -- The loop passes over messages without a signal.
  unfoldable pub offer_listener_task : Streaming OfferListenerRsp → Resolution G
  unfolding decode_offer
  offer_listener_task [] = none
  offer_listener_task (arrived message ∷ listener) =
      let again = offer_listener_task listener in
      elim message.offer_signal [
        | none ↦ again
        | some signal ↦
            some (then_ok (offer_listener listener signal.offerer_id) (decode_offer signal))
      ]
  offer_listener_task (ended ∷ listener) = some (err listener_closed)
  offer_listener_task (broken e ∷ listener) = some (err (tonic_status e))

  unfoldable pub answer_listener_task : Streaming AnswerListenerRsp → Resolution G
  unfolding decode_answer
  answer_listener_task [] = none
  answer_listener_task (arrived message ∷ listener) =
      let again = answer_listener_task listener in
      elim message.answer_signal [
        | none ↦ again
        | some signal ↦
            some (then_ok (answer_listener listener signal.answerer_id) (decode_answer signal))
      ]
  answer_listener_task (ended ∷ listener) = some (err listener_closed)
  answer_listener_task (broken e ∷ listener) = some (err (tonic_status e))

  -- What a queued future resolves to.
  unfoldable pub resolve : SignallingStateFut G → Resolution G
  unfolding peer_listener_task offer_listener_task answer_listener_task
  resolve (peer_listener_fut listener) = peer_listener_task listener
  resolve (offer_listener_fut listener) = offer_listener_task listener
  resolve (answer_listener_fut listener) = answer_listener_task listener
  resolve (callback_fut resolution) = resolution
