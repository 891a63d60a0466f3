-- ===== src/System/Exchange.antt =====
-- An offer and an answer on their way: from the chain of one client, through the server, to the
-- listener of another.
use just_webrtc.Common.{ℕ, ◌<◌, ◌≡◌, refl, true, none, some, [], ◌∷◌, ◌++◌, map, length}
use just_webrtc.Common.Map.{lookup}
use just_webrtc.Common.Action.{ok, ret}
use just_webrtc.Proto.{Bytes, SignalOffer, OfferListenerRsp, SignalAnswer, AnswerListenerRsp}
use just_webrtc.Client.State.{
  Signals, Streaming, create_offer, offer_listener, receive_offer, answer_listener, callback_fut,
}
use just_webrtc.Client.Tasks.{offer_listener_task, answer_listener_task}
use just_webrtc.Client.Rpc.{Stub}
use just_webrtc.Client.Step.{Session, handle}
use just_webrtc.Client.Chain.{
  offer_request, create_offer_sends, offer_read, answer_request, receive_offer_sends, answer_read,
}
use just_webrtc.Server.State.{Libs, Listeners, Signalling}
use just_webrtc.Server.OfferDelivery.{signal_offer_delivers}
use just_webrtc.Server.AnswerDelivery.{signal_answer_delivers}
use just_webrtc.System.Transport.{Serves, item_of}

module _ (L : Libs) (G : Signals) {W : Type 0} (stub : Stub W) (server : W → Signalling L)
    (serves : Serves L stub server) where
  -- Client `id` has an offer ready for a peer that listens, whose buffer has room and holds nothing
  -- but the empty message. Its step succeeds without changing the client, and the offer listener of
  -- the other peer, reading what is then in its buffer, completes with `id`, the offer and the
  -- candidates.
  pub offer_reaches_listener :
      (s : Session G W) (remote_id : ℕ) (offer : G.Offer) (candidates : G.Candidates)
      (ob cb : Bytes) {peer : Listeners L} {tx : L.offers.Chan} (rest : Streaming OfferListenerRsp)
      → G.offers.serialize offer ≡ ok ob
      → G.candidates.serialize candidates ≡ ok cb
      → lookup remote_id (server s.world).peers ≡ some peer
      → peer.offer_listener_tx ≡ some tx
      → L.offers.connected tx ≡ true
      → length (L.offers.queue tx) < L.offers.capacity tx
      → L.offers.queue tx ≡ ok (record { offer_signal = none }) ∷ []
      → let (outcome, t) = handle G stub (create_offer remote_id (offer, candidates)) s in
        (outcome ≡ ret tt)
        × (t.peer ≡ s.peer)
        × (peer' : Listeners L) × (chan : L.offers.Chan) × (lookup remote_id (server t.world).peers
            ≡ some peer')
        × (peer'.offer_listener_tx ≡ some chan)
        × (offer_listener_task G (map item_of (L.offers.queue chan) ++ rest)
            ≡ some (ok (offer_listener rest s.peer.local_id (offer, candidates))))
  offer_reaches_listener s remote_id offer candidates ob cb {peer} {tx} rest o c e l open_end room
        q =
      let id = s.peer.local_id in
      let m = offer_request id remote_id ob cb in
      let signal : SignalOffer = record { offerer_id = id; offer = ob; candidates = cb } in
      let d = signal_offer_delivers L (server s.world) remote_id signal e l open_end room in
      let k = d.1 in
      let (answered, moved) = serves.offers m s.world in
      let sent = create_offer_sends G stub s remote_id offer candidates ob cb o c in
      (
        rw (sent, answered, d.0),
        rw sent,
        record peer { offer_listener_tx = some k.chan },
        k.chan,
        rw (sent, moved) k.entry,
        refl,
        rw (k.queued, q) (offer_read G 1 id remote_id offer candidates ob cb rest o c),
      )

  -- Client `id` has an answer ready for the peer that offered, which listens for answers, and whose
  -- buffer has room and holds nothing but the empty message. Its step succeeds and queues the handler of
  -- the completed remote chain, and the answer listener of the other peer, reading what is then in its
  -- buffer, completes with `id`, the answer and the candidates.
  pub answer_reaches_listener :
      (s : Session G W) (remote_id : ℕ) (answer : G.Answer) (candidates : G.Candidates)
      (ab cb : Bytes) {peer : Listeners L} {tx : L.answers.Chan}
      (rest : Streaming AnswerListenerRsp)
      → G.answers.serialize answer ≡ ok ab
      → G.candidates.serialize candidates ≡ ok cb
      → lookup remote_id (server s.world).peers ≡ some peer
      → peer.answer_listener_tx ≡ some tx
      → L.answers.connected tx ≡ true
      → length (L.answers.queue tx) < L.answers.capacity tx
      → L.answers.queue tx ≡ ok (record { answer_signal = none }) ∷ []
      → let (outcome, t) = handle G stub (receive_offer remote_id (answer, candidates)) s in
        (outcome ≡ ret tt)
        × (t.peer ≡ record s.peer {
          unordered_futs =
              s.peer.unordered_futs ++ callback_fut (s.peer.remote_sig_cplt_task remote_id) ∷ [];
        })
        × (peer' : Listeners L) × (chan : L.answers.Chan) × (lookup remote_id (server t.world).peers
            ≡ some peer')
        × (peer'.answer_listener_tx ≡ some chan)
        × (answer_listener_task G (map item_of (L.answers.queue chan) ++ rest)
            ≡ some (ok (answer_listener rest s.peer.local_id (answer, candidates))))
  answer_reaches_listener s remote_id answer candidates ab cb {peer} {tx} rest a c e l open_end room
        q =
      let id = s.peer.local_id in
      let m = answer_request id remote_id ab cb in
      let signal : SignalAnswer = record { answerer_id = id; answer = ab; candidates = cb } in
      let d = signal_answer_delivers L (server s.world) remote_id signal e l open_end room in
      let k = d.1 in
      let (answered, moved) = serves.answers m s.world in
      let sent = receive_offer_sends G stub s remote_id answer candidates ab cb a c in
      (
        rw (sent, answered, d.0),
        rw (sent, answered, d.0),
        record peer { answer_listener_tx = some k.chan },
        k.chan,
        rw (sent, moved) k.entry,
        refl,
        rw (k.queued, q) (answer_read G 1 id remote_id answer candidates ab cb rest a c),
      )
