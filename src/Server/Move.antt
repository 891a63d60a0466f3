-- ===== src/Server/Move.antt =====
-- What an event of the service can do to its state: a `Move` draws an id, adds a peer, drops one, or
-- changes one stored channel. All invariants of the server go through this classification.
use just_webrtc.Common.{
  ℕ, ◌+◌, ◌%◌, ◌≡◌, refl, inl, inr, false, Option, none, some, [], ◌∷◌, arith, Bool-cases,
  Option-cases,
}
use just_webrtc.Common.Map.{lookup, contains_key, insert, remove, remove-insert}
use just_webrtc.Proto.{
  ok, PeerChange, peer_change_of_add, peer_change_of_remove, LocalPeerReq, SignalOfferReq,
  SignalAnswerReq,
}
use just_webrtc.Interfaces.{Flume, SendResult-cases}
use just_webrtc.Server.State.{Libs, Listeners, Signalling, no_listeners, channel_bound, u64_mod}
use just_webrtc.Server.Peers.{
  advertise, teardown, handle_teardown, peer_discover, open_peer_listener,
}
use just_webrtc.Server.Offers.{set_offer_tx, signal_offer, open_offer_listener}
use just_webrtc.Server.Answers.{set_answer_tx, signal_answer, open_answer_listener}
use just_webrtc.Server.NoPanic.{try_send-bounded}
use just_webrtc.Server.Service.{
  Request, advertise_req, teardown_req, peer_discover_req, peer_listener_req, offer_listener_req,
  answer_listener_req, signal_offer_req, signal_answer_req, serve, Event, requested, offer_taken,
  offer_stream_dropped, answer_taken, answer_stream_dropped, drawn_elsewhere, with_offer_chan,
  with_answer_chan, draw_elsewhere, step,
}

-- How the channel of a listener comes about, or changes.
pub data ChanMove {M : Type 0} (F : Flume M) (old : Option F.Chan) (new : F.Chan) : Type 0 where
  loaded :
      (m : M) → old ≡ none → new ≡ (F.try_send m (F.bounded channel_bound)).1 → ChanMove F old new
  offered : (m : M) (c : F.Chan) → old ≡ some c → new ≡ (F.try_send m c).1 → ChanMove F old new
  taken : (c : F.Chan) → old ≡ some c → new ≡ (F.recv c).1 → ChanMove F old new
  dropped : (c : F.Chan) → old ≡ some c → new ≡ F.drop_receiver c → ChanMove F old new

module _ (L : Libs) where
  -- The broadcast channel after one change was sent.
  abbrev pub announce : PeerChange → L.changes.Bus → L.changes.Bus
  announce c bus = (L.changes.try_broadcast (ok (record { peer_changes = c ∷ [] })) bus).1

  pub data Move (s t : Signalling L) : Type 0 where
    kept : t ≡ s → Move s t
    drawn : t ≡ record s { generator = (s.generator + 1) % u64_mod } → Move s t
    added :
        contains_key s.generator s.peers ≡ false
        → t ≡ record {
          generator = (s.generator + 1) % u64_mod;
          peers = insert s.generator (no_listeners L) s.peers;
          peer_broadcast = announce (peer_change_of_add s.generator) s.peer_broadcast;
        }
        → Move s t
    removed :
        (id : ℕ)
        → t ≡ record s {
          peers = remove id s.peers;
          peer_broadcast = announce (peer_change_of_remove id) s.peer_broadcast;
        }
        → Move s t
    offers :
        (id : ℕ) (peer : Listeners L) (tx : L.offers.Chan)
        → lookup id s.peers ≡ some peer
        → ChanMove L.offers peer.offer_listener_tx tx
        → t ≡ set_offer_tx L id peer tx s
        → Move s t
    answers :
        (id : ℕ) (peer : Listeners L) (tx : L.answers.Chan)
        → lookup id s.peers ≡ some peer
        → ChanMove L.answers peer.answer_listener_tx tx
        → t ≡ set_answer_tx L id peer tx s
        → Move s t

  advertise-Move : (s : Signalling L) → Move s (serve L advertise_req s).1
  unfolding serve advertise
  advertise-Move s = elim (Bool-cases (contains_key s.generator s.peers)) [
    | inl dup ↦ drawn (ground arith)
    | inr new ↦ added new (ground arith)
  ]

  teardown-Move : (m : LocalPeerReq) (s : Signalling L) → Move s (serve L (teardown_req m) s).1
  unfolding serve teardown
  teardown-Move m s = elim (Option-cases m.local_peer) [
    | inl e ↦ kept (ground arith)
    | inr (p, e) ↦ removed p.id (ground arith)
  ]

  peer_discover-Move :
      (m : LocalPeerReq) (s : Signalling L) → Move s (serve L (peer_discover_req m) s).1
  unfolding serve peer_discover
  peer_discover-Move m s = kept (ground arith)

  open_peer_listener-Move :
      (m : LocalPeerReq) (s : Signalling L) → Move s (serve L (peer_listener_req m) s).1
  unfolding serve open_peer_listener
  open_peer_listener-Move m s = kept (ground arith)

  signal_offer-Move :
      (m : SignalOfferReq) (s : Signalling L) → Move s (serve L (signal_offer_req m) s).1
  unfolding serve signal_offer set_offer_tx handle_teardown
  signal_offer-Move m s = elim (Option-cases m.answerer_peer) [
    | inl e ↦ kept (ground arith)
    | inr (p, ep) ↦ elim (Option-cases m.offer_signal) [
      | inl e ↦ kept (ground arith)
      | inr (o, eo) ↦ elim (Option-cases (lookup p.id s.peers)) [
        | inl e ↦ kept (ground arith)
        | inr (peer, e) ↦ elim (Option-cases peer.offer_listener_tx) [
          | inl et ↦ kept (ground arith)
          | inr (tx, et) ↦
              let item = ok (record { offer_signal = some o }) in
              let tx' = (L.offers.try_send item tx).1 in
              let gone =
                remove-insert p.id (record peer { offer_listener_tx = some tx' }) s.peers in
              elim (SendResult-cases (L.offers.try_send item tx).0) [
                | inl r ↦ offers p.id peer tx' e (offered item tx et refl) (ground arith)
                | inr (inl r) ↦ offers p.id peer tx' e (offered item tx et refl) (ground arith)
                | inr (inr r) ↦ removed p.id (ground (arith, gone))
              ]
        ]
      ]
    ]
  ]

  open_offer_listener-Move :
      (m : LocalPeerReq) (s : Signalling L) → Move s (serve L (offer_listener_req m) s).1
  unfolding serve open_offer_listener
  open_offer_listener-Move m s = elim (Option-cases m.local_peer) [
    | inl e ↦ kept (ground arith)
    | inr (p, ep) ↦ elim (Option-cases (lookup p.id s.peers)) [
      | inl e ↦ kept (ground arith)
      | inr (peer, e) ↦ elim (Option-cases peer.offer_listener_tx) [
        | inl et ↦
            let item = ok (record { offer_signal = none }) in
            offers p.id peer _ e (loaded item et refl)
              (ground (arith, try_send-bounded L.offers item))
        | inr (tx, et) ↦ kept (ground arith)
      ]
    ]
  ]

  with_offer_chan-Move :
      (change : L.offers.Chan → L.offers.Chan) (id : ℕ) (s : Signalling L)
      → ((old : Option L.offers.Chan) (c : L.offers.Chan)
          → old ≡ some c
          → ChanMove L.offers old (change c))
      → Move s (with_offer_chan L change id s)
  unfolding with_offer_chan
  with_offer_chan-Move change id s rule = elim (Option-cases (lookup id s.peers)) [
    | inl e ↦ kept (ground arith)
    | inr (peer, e) ↦ elim (Option-cases peer.offer_listener_tx) [
      | inl et ↦ kept (ground arith)
      | inr (tx, et) ↦ offers id peer (change tx) e (rule _ tx et) (ground arith)
    ]
  ]

  signal_answer-Move :
      (m : SignalAnswerReq) (s : Signalling L) → Move s (serve L (signal_answer_req m) s).1
  unfolding serve signal_answer set_answer_tx handle_teardown
  signal_answer-Move m s = elim (Option-cases m.offerer_peer) [
    | inl e ↦ kept (ground arith)
    | inr (p, ep) ↦ elim (Option-cases m.answer_signal) [
      | inl e ↦ kept (ground arith)
      | inr (o, eo) ↦ elim (Option-cases (lookup p.id s.peers)) [
        | inl e ↦ kept (ground arith)
        | inr (peer, e) ↦ elim (Option-cases peer.answer_listener_tx) [
          | inl et ↦ kept (ground arith)
          | inr (tx, et) ↦
              let item = ok (record { answer_signal = some o }) in
              let tx' = (L.answers.try_send item tx).1 in
              let gone =
                remove-insert p.id (record peer { answer_listener_tx = some tx' }) s.peers in
              elim (SendResult-cases (L.answers.try_send item tx).0) [
                | inl r ↦ answers p.id peer tx' e (offered item tx et refl) (ground arith)
                | inr (inl r) ↦ answers p.id peer tx' e (offered item tx et refl) (ground arith)
                | inr (inr r) ↦ removed p.id (ground (arith, gone))
              ]
        ]
      ]
    ]
  ]

  open_answer_listener-Move :
      (m : LocalPeerReq) (s : Signalling L) → Move s (serve L (answer_listener_req m) s).1
  unfolding serve open_answer_listener
  open_answer_listener-Move m s = elim (Option-cases m.local_peer) [
    | inl e ↦ kept (ground arith)
    | inr (p, ep) ↦ elim (Option-cases (lookup p.id s.peers)) [
      | inl e ↦ kept (ground arith)
      | inr (peer, e) ↦ elim (Option-cases peer.answer_listener_tx) [
        | inl et ↦
            let item = ok (record { answer_signal = none }) in
            answers p.id peer _ e (loaded item et refl)
              (ground (arith, try_send-bounded L.answers item))
        | inr (tx, et) ↦ kept (ground arith)
      ]
    ]
  ]

  with_answer_chan-Move :
      (change : L.answers.Chan → L.answers.Chan) (id : ℕ) (s : Signalling L)
      → ((old : Option L.answers.Chan) (c : L.answers.Chan)
          → old ≡ some c
          → ChanMove L.answers old (change c))
      → Move s (with_answer_chan L change id s)
  unfolding with_answer_chan
  with_answer_chan-Move change id s rule = elim (Option-cases (lookup id s.peers)) [
    | inl e ↦ kept (ground arith)
    | inr (peer, e) ↦ elim (Option-cases peer.answer_listener_tx) [
      | inl et ↦ kept (ground arith)
      | inr (tx, et) ↦ answers id peer (change tx) e (rule _ tx et) (ground arith)
    ]
  ]

  serve-Move : (r : Request) (s : Signalling L) → Move s (serve L r s).1
  serve-Move advertise_req s = advertise-Move s
  serve-Move (teardown_req m) s = teardown-Move m s
  serve-Move (peer_discover_req m) s = peer_discover-Move m s
  serve-Move (peer_listener_req m) s = open_peer_listener-Move m s
  serve-Move (offer_listener_req m) s = open_offer_listener-Move m s
  serve-Move (answer_listener_req m) s = open_answer_listener-Move m s
  serve-Move (signal_offer_req m) s = signal_offer-Move m s
  serve-Move (signal_answer_req m) s = signal_answer-Move m s

  -- Every event is one move.
  pub step-Move : (e : Event) (s : Signalling L) → Move s (step L e s)
  unfolding step draw_elsewhere
  step-Move (requested r) s = serve-Move r s
  step-Move (offer_taken id) s = with_offer_chan-Move _ id s (λ old c e. taken c e refl)
  step-Move (offer_stream_dropped id) s = with_offer_chan-Move _ id s (λ old c e. dropped c e refl)
  step-Move (answer_taken id) s = with_answer_chan-Move _ id s (λ old c e. taken c e refl)
  step-Move (answer_stream_dropped id) s =
      with_answer_chan-Move _ id s (λ old c e. dropped c e refl)
  step-Move drawn_elsewhere s = drawn refl
