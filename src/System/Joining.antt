-- ===== src/System/Joining.antt =====
-- A new client's start: what `start_peer` makes of the server.
use just_webrtc.Common.{
  ℕ, ◌+◌, ◌≡◌, refl, ◌∙◌, ◌≢◌, ap, ◌==◌, if◌then◌else◌, false, none, some, [], ◌∷◌, ◌++◌, ◌%◌,
  arith,
}
use just_webrtc.Common.Map.{lookup, contains_key, insert, lookup-insert}
use just_webrtc.Common.Action.{ok, Outcome, ret, fail, panic}
use just_webrtc.Proto.{
  TonicResult, Status, PeerListenerRsp, OfferListenerRsp, AnswerListenerRsp, peer_change_of_add,
}
use just_webrtc.Server.State.{Libs, Listeners, Signalling, no_listeners, channel_bound, u64_mod}
use just_webrtc.Server.Peers.{advertise, peer_id, open_peer_listener}
use just_webrtc.Server.Offers.{open_offer_listener, set_offer_tx}
use just_webrtc.Server.Answers.{open_answer_listener, set_answer_tx}
use just_webrtc.Server.NoPanic.{try_send-bounded}
use just_webrtc.Server.Move.{announce}
use just_webrtc.Server.Announce.{announcement}
use just_webrtc.Client.State.{Signals, Streaming}
use just_webrtc.Client.Rpc.{Stub, of_local}
use just_webrtc.Client.Peer.{new, start_peer}
use just_webrtc.System.Transport.{Serves, Opens, answer_of}

module _ (L : Libs) where
  abbrev pub no_offer : TonicResult OfferListenerRsp
  no_offer = ok (record { offer_signal = none })

  abbrev pub no_answer : TonicResult AnswerListenerRsp
  no_answer = ok (record { answer_signal = none })

  -- The channels that a new listener gets.
  abbrev pub new_offers : L.offers.Chan
  new_offers = (L.offers.try_send no_offer (L.offers.bounded channel_bound)).1

  abbrev pub new_answers : L.answers.Chan
  new_answers = (L.answers.try_send no_answer (L.answers.bounded channel_bound)).1

  advertises_free :
      (s : Signalling L)
      → contains_key s.generator s.peers ≡ false
      → advertise L s ≡ (
        ret (record { local_peer = some (peer_id s.generator) }),
        record {
          generator = (s.generator + 1) % u64_mod;
          peers = insert s.generator (no_listeners L) s.peers;
          peer_broadcast = announce L (peer_change_of_add s.generator) s.peer_broadcast;
        },
      )
  unfolding advertise
  advertises_free s free = ground arith

  opens_offers :
      (id : ℕ) (peer : Listeners L) (s : Signalling L)
      → lookup id s.peers ≡ some peer
      → peer.offer_listener_tx ≡ none
      → open_offer_listener L (of_local id) s ≡ (ret id, set_offer_tx L id peer new_offers s)
  unfolding open_offer_listener
  opens_offers id peer s e n = ground (arith, try_send-bounded L.offers no_offer)

  opens_answers :
      (id : ℕ) (peer : Listeners L) (s : Signalling L)
      → lookup id s.peers ≡ some peer
      → peer.answer_listener_tx ≡ none
      → open_answer_listener L (of_local id) s ≡ (ret id, set_answer_tx L id peer new_answers s)
  unfolding open_answer_listener
  opens_answers id peer s e n = ground (arith, try_send-bounded L.answers no_answer)

  module _ (s : Signalling L) where
    -- The server after each of the requests that change it.
    abbrev advertised : Signalling L
    advertised = record {
      generator = (s.generator + 1) % u64_mod;
      peers = insert s.generator (no_listeners L) s.peers;
      peer_broadcast = announce L (peer_change_of_add s.generator) s.peer_broadcast;
    }

    abbrev with_offers : Listeners L
    with_offers = record (no_listeners L) { offer_listener_tx = some new_offers }

    abbrev with_both : Listeners L
    with_both = record with_offers { answer_listener_tx = some new_answers }

    abbrev offering : Signalling L
    offering = record advertised { peers = insert s.generator with_offers advertised.peers }

    abbrev joined : Signalling L
    joined = record offering { peers = insert s.generator with_both offering.peers }

    -- Whoever looks up an id after the three insertions.
    lookup-joined :
        (x : ℕ)
        → lookup x joined.peers ≡ (if s.generator == x then some with_both else lookup x s.peers)
    lookup-joined x = ground (
      arith,
      lookup-insert s.generator x with_both offering.peers,
      lookup-insert s.generator x with_offers advertised.peers,
      lookup-insert s.generator x (no_listeners L) s.peers,
    )

    joining_opens_offers :
        open_offer_listener L (of_local s.generator) advertised ≡ (ret s.generator, offering)
    unfolding set_offer_tx
    joining_opens_offers =
        opens_offers s.generator (no_listeners L) advertised
          (ground (arith, lookup-insert s.generator s.generator (no_listeners L) s.peers)) refl

    joining_opens_answers :
        open_answer_listener L (of_local s.generator) offering ≡ (ret s.generator, joined)
    unfolding set_answer_tx
    joining_opens_answers =
        opens_answers s.generator with_offers offering
          (ground (arith, lookup-insert s.generator s.generator with_offers advertised.peers)) refl

  pub new_offers_hold : L.offers.queue new_offers ≡ no_offer ∷ []
  new_offers_hold = ground (
    arith,
    try_send-bounded L.offers no_offer,
    L.offers.queue-try_send no_offer (L.offers.bounded channel_bound),
    L.offers.queue-bounded channel_bound,
  )

  new_answers_hold : L.answers.queue new_answers ≡ no_answer ∷ []
  new_answers_hold = ground (
    arith,
    try_send-bounded L.answers no_answer,
    L.answers.queue-try_send no_answer (L.answers.bounded channel_bound),
    L.answers.queue-bounded channel_bound,
  )

module _ (G : Signals) {W : Type 0} (stub : Stub W) where
  start_peer_calls :
      (id : ℕ) (a : Streaming PeerListenerRsp) (b : Streaming OfferListenerRsp)
      (c : Streaming AnswerListenerRsp) (w : W)
      → let w1 = (stub.advertise w).1 in
        let w2 = (stub.open_peer_listener (of_local id) w1).1 in
        let w3 = (stub.open_offer_listener (of_local id) w2).1 in
        (stub.advertise w).0 ≡ ok (record { local_peer = some (peer_id id) })
        → (stub.open_peer_listener (of_local id) w1).0 ≡ ok a
        → (stub.open_offer_listener (of_local id) w2).0 ≡ ok b
        → (stub.open_answer_listener (of_local id) w3).0 ≡ ok c
        → start_peer G stub w
          ≡ (ret (new G id a b c), (stub.open_answer_listener (of_local id) w3).1)
  unfolding start_peer
  start_peer_calls id a b c w e1 e2 e3 e4 = ground arith

Opens-ret :
    {A : Type 0} (M : Type 0) (r : TonicResult (Streaming M)) (o : Outcome Status A) (a : A)
    → Opens r o
    → o ≡ ret a
    → (listener : Streaming M) × (r ≡ ok listener)
Opens-ret M r (ret b) a opens e = opens
Opens-ret M r (fail x) a opens e = ground arith
Opens-ret M r panic a opens e = ground arith

module _ (L : Libs) (G : Signals) {W : Type 0} (stub : Stub W) (server : W → Signalling L)
    (serves : Serves L stub server) where
  -- `start_peer`, with a server whose generator is at an id that no peer has, succeeds. The peer has
  -- this id and waits on its three listeners. At the server, the id is announced last, its entry has
  -- an offer and an answer channel that hold the empty message each, and the other entries are as they
  -- were.
  pub start_peer_joins :
      (w : W)
      → contains_key (server w).generator (server w).peers ≡ false
      → let id = (server w).generator in
        (a : Streaming PeerListenerRsp) × (b : Streaming OfferListenerRsp) × (c : Streaming
          AnswerListenerRsp)
        × (t : W) × (start_peer G stub w ≡ (ret (new G id a b c), t))
        × (lookup id (server t).peers
            ≡ some (record {
              offer_listener_tx = some (new_offers L);
              answer_listener_tx = some (new_answers L);
            }))
        × (L.offers.queue (new_offers L) ≡ no_offer L ∷ [])
        × (L.answers.queue (new_answers L) ≡ no_answer L ∷ [])
        × ((x : ℕ) → x ≢ id → lookup x (server t).peers ≡ lookup x (server w).peers)
        × (L.changes.history (server t).peer_broadcast
            ≡ L.changes.history (server w).peer_broadcast
              ++ announcement (peer_change_of_add id) ∷ [])
  unfolding open_peer_listener
  start_peer_joins w free =
      let s = server w in
      let id = s.generator in
      let m = of_local id in
      let w1 = (stub.advertise w).1 in
      let w2 = (stub.open_peer_listener m w1).1 in
      let w3 = (stub.open_offer_listener m w2).1 in
      let w4 = (stub.open_answer_listener m w3).1 in
      let adv = advertises_free L s free in
      let (r1, m1) = serves.advertises w in
      let at1 : server w1 ≡ advertised L s = m1 ∙ ap (λ r. r.1) adv in
      let ((a, peers), m2) = serves.opens_peers m w1 in
      let at2 : server w2 ≡ advertised L s = m2 ∙ at1 in
      let (r3, m3) = serves.opens_offers m w2 in
      let opens = ap (open_offer_listener L m) at2 ∙ joining_opens_offers L s in
      let at3 : server w3 ≡ offering L s = m3 ∙ ap (λ r. r.1) opens in
      let (b, offers) = Opens-ret OfferListenerRsp _ _ id r3 (ap (λ r. r.0) opens) in
      let (r4, m4) = serves.opens_answers m w3 in
      let opens' = ap (open_answer_listener L m) at3 ∙ joining_opens_answers L s in
      let at4 : server w4 ≡ joined L s = m4 ∙ ap (λ r. r.1) opens' in
      let (c, answers) = Opens-ret AnswerListenerRsp _ _ id r4 (ap (λ r. r.0) opens') in
      let advertises : (stub.advertise w).0 ≡ ok (record { local_peer = some (peer_id id) }) =
        r1 ∙ ap (λ r. answer_of r.0) adv in
      (
        a,
        b,
        c,
        w4,
        start_peer_calls G stub id a b c w advertises peers offers answers,
        rw at4 (ground (arith, lookup-joined L s id)),
        new_offers_hold L,
        new_answers_hold L,
        (λ x other. rw at4 (ground (arith, lookup-joined L s x))),
        rw at4 (
            L.changes.history-try_broadcast (announcement (peer_change_of_add id))
              s.peer_broadcast),
      )
