-- ===== src/Client/Chain.antt =====
-- The signalling chains of a client: what is sent, and how failures end.
use just_webrtc.Common.{
  ℕ, String, zero, suc, ◌≡◌, refl, ◌⊎◌, none, some, List, [], ◌∷◌, ◌++◌, arith,
}
use just_webrtc.Common.Action.{ok, err, Outcome, ret, fail}
use just_webrtc.Proto.{
  TonicResult, Bytes, failed_precondition, SignalOfferReq, SignalAnswerReq, OfferListenerRsp,
  AnswerListenerRsp,
}
use just_webrtc.Client.State.{
  ClientError, bincode, tonic_status, Signals, Streaming, arrived, offer_listener, answer_listener,
  create_offer, receive_offer, callback_fut,
}
use just_webrtc.Client.Tasks.{offer_listener_task, answer_listener_task}
use just_webrtc.Client.Rpc.{Stub, signal_offer}
use just_webrtc.Client.Step.{Session, handle}

-- How a chain goes on after the server's answer to a signal.
abbrev pub chain_outcome : TonicResult (Unit {0}) → Outcome ClientError (Unit {0})
chain_outcome (ok _) = ret tt
chain_outcome (err e) = elim e.code [ failed_precondition ↦ ret tt | _ ↦ fail (tonic_status e) ]

-- The futures, with one more behind them if the server accepted the signal.
abbrev pub if_accepted : {F : Type 0} → TonicResult (Unit {0}) → F → List F → List F
if_accepted (ok _) fut futs = futs ++ fut ∷ []
if_accepted (err _) fut futs = futs

abbrev pub offer_request : ℕ → ℕ → Bytes → Bytes → SignalOfferReq
offer_request id remote_id offer candidates = record {
  answerer_peer = some (record { id = remote_id });
  offer_signal = some (record { offerer_id = id; offer = offer; candidates = candidates });
}

abbrev pub answer_request : ℕ → ℕ → Bytes → Bytes → SignalAnswerReq
answer_request id remote_id answer candidates = record {
  offerer_peer = some (record { id = remote_id });
  answer_signal = some (record { answerer_id = id; answer = answer; candidates = candidates });
}

module _ (G : Signals) {W : Type 0} (stub : Stub W) (s : Session G W) (remote_id : ℕ) where
  -- An offer that is ready, and serializes, is sent to the remote peer under the local id, once.
  -- The step succeeds if the server accepts it or answers that the remote peer is gone, and fails
  -- on any other status; the peer's own state does not change: nothing is queued before an answer
  -- comes.
  pub create_offer_sends :
      (offer : G.Offer) (candidates : G.Candidates) (ob cb : Bytes)
      → G.offers.serialize offer ≡ ok ob
      → G.candidates.serialize candidates ≡ ok cb
      → let sent = stub.signal_offer (offer_request s.peer.local_id remote_id ob cb) s.world in
        handle G stub (create_offer remote_id (offer, candidates)) s
        ≡ (chain_outcome sent.0, record s { world = sent.1 })
  unfolding handle
  create_offer_sends offer candidates ob cb o c = ground arith

  -- An answer that is ready, and serializes, is sent to the remote peer under the local id, once.
  -- If the server accepts it, the handler for a completed remote chain is queued with the remote
  -- peer's id. If the remote peer is gone, the step succeeds and nothing is queued; on any other
  -- status it fails and nothing is queued.
  pub receive_offer_sends :
      (answer : G.Answer) (candidates : G.Candidates) (ab cb : Bytes)
      → G.answers.serialize answer ≡ ok ab
      → G.candidates.serialize candidates ≡ ok cb
      → let sent = stub.signal_answer (answer_request s.peer.local_id remote_id ab cb) s.world in
        let cplt = callback_fut (s.peer.remote_sig_cplt_task remote_id) in
        let queued = if_accepted sent.0 cplt s.peer.unordered_futs in
        handle G stub (receive_offer remote_id (answer, candidates)) s ≡ (
          chain_outcome sent.0,
          record { world = sent.1; peer = record s.peer { unordered_futs = queued } },
        )
  unfolding handle
  receive_offer_sends answer candidates ab cb a c = ground arith

  -- An offer of which the candidates, or else the offer itself, do not serialize is not sent: the
  -- step fails with the serializer's error, and the session stays as it was.
  pub create_offer_unserializable :
      (offer : G.Offer) (candidates : G.Candidates) (why : String)
      → (G.candidates.serialize candidates ≡ err why)
        ⊎ ((cb : Bytes) × (G.candidates.serialize candidates ≡ ok cb)
            × (G.offers.serialize offer ≡ err why))
      → handle G stub (create_offer remote_id (offer, candidates)) s ≡ (fail (bincode why), s)
  unfolding handle
  create_offer_unserializable offer candidates why fails = ground arith

  -- An answer of which the candidates, or else the answer itself, do not serialize is not sent: the
  -- step fails with the serializer's error, and the session stays as it was.
  pub receive_offer_unserializable :
      (answer : G.Answer) (candidates : G.Candidates) (why : String)
      → (G.candidates.serialize candidates ≡ err why)
        ⊎ ((cb : Bytes) × (G.candidates.serialize candidates ≡ ok cb)
            × (G.answers.serialize answer ≡ err why))
      → handle G stub (receive_offer remote_id (answer, candidates)) s ≡ (fail (bincode why), s)
  unfolding handle
  receive_offer_unserializable answer candidates why fails = ground arith

module _ (G : Signals) where
  -- `n` messages without a signal.
  abbrev pub empty_offers : ℕ → Streaming OfferListenerRsp → Streaming OfferListenerRsp
  empty_offers zero l = l
  empty_offers (suc n) l = arrived (record { offer_signal = none }) ∷ empty_offers n l

  abbrev pub empty_answers : ℕ → Streaming AnswerListenerRsp → Streaming AnswerListenerRsp
  empty_answers zero l = l
  empty_answers (suc n) l = arrived (record { answer_signal = none }) ∷ empty_answers n l

  pub offer_read :
      (n id remote_id : ℕ) (offer : G.Offer) (candidates : G.Candidates) (ob cb : Bytes)
      (rest : Streaming OfferListenerRsp)
      → G.offers.serialize offer ≡ ok ob
      → G.candidates.serialize candidates ≡ ok cb
      → offer_listener_task G (
          empty_offers n (
            arrived (record { offer_signal = (offer_request id remote_id ob cb).offer_signal })
            ∷ rest))
        ≡ some (ok (offer_listener rest id (offer, candidates)))
  unfolding offer_listener_task
  offer_read zero id remote_id offer candidates ob cb rest o c = ground (
    arith,
    G.offers.deserialize-serialize offer ob o,
    G.candidates.deserialize-serialize candidates cb c,
  )
  offer_read (suc n) id remote_id offer candidates ob cb rest o c =
      offer_read n id remote_id offer candidates ob cb rest o c

  pub answer_read :
      (n id remote_id : ℕ) (answer : G.Answer) (candidates : G.Candidates) (ab cb : Bytes)
      (rest : Streaming AnswerListenerRsp)
      → G.answers.serialize answer ≡ ok ab
      → G.candidates.serialize candidates ≡ ok cb
      → answer_listener_task G (
          empty_answers n (
            arrived (record { answer_signal = (answer_request id remote_id ab cb).answer_signal })
            ∷ rest))
        ≡ some (ok (answer_listener rest id (answer, candidates)))
  unfolding answer_listener_task
  answer_read zero id remote_id answer candidates ab cb rest a c = ground (
    arith,
    G.answers.deserialize-serialize answer ab a,
    G.candidates.deserialize-serialize candidates cb c,
  )
  answer_read (suc n) id remote_id answer candidates ab cb rest a c =
      answer_read n id remote_id answer candidates ab cb rest a c

-- What a client makes of the server's answer to a signal.
abbrev pub delivered : ℕ → TonicResult (Unit {0}) → Outcome ClientError ℕ
delivered remote_id (ok _) = ret remote_id
delivered remote_id (err e) = fail (tonic_status e)

module _ (G : Signals) {W : Type 0} (stub : Stub W) where
  -- For an offer and candidates that serialize, `signal_offer` makes one request of the server, which names
  -- the remote peer, and its result is the server's: the remote peer's id, or the server's status as the
  -- error. Any listener that gets the signal of that request, after any number of empty messages, reads
  -- the sender's id, the offer and the candidates from it, and goes on with the rest of its stream.
  pub offer_roundtrip :
      (n id remote_id : ℕ) (offer : G.Offer) (candidates : G.Candidates) (ob cb : Bytes)
      (rest : Streaming OfferListenerRsp) (w : W)
      → G.offers.serialize offer ≡ ok ob
      → G.candidates.serialize candidates ≡ ok cb
      → (request : SignalOfferReq) × (signal_offer stub G id remote_id offer candidates w
          ≡ (delivered remote_id (stub.signal_offer request w).0, (stub.signal_offer request w).1))
        × (request.answerer_peer ≡ some (record { id = remote_id }))
        × (offer_listener_task G
              (empty_offers G n (arrived (record { offer_signal = request.offer_signal }) ∷ rest))
            ≡ some (ok (offer_listener rest id (offer, candidates))))
  unfolding signal_offer
  offer_roundtrip n id remote_id offer candidates ob cb rest w o c = (
    offer_request id remote_id ob cb,
    ground (arith, o, c),
    refl,
    offer_read G n id remote_id offer candidates ob cb rest o c,
  )
