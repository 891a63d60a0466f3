-- ===== src/Server/OfferDelivery.antt =====
-- `signal_offer` against the mailbox of the peer that it is sent to, on each branch.
use just_webrtc.Common.{
  ap, ltb, Bool-cases, Option-cases, ℕ, String, ◌≤◌, ◌<◌, ◌≡◌, refl, sym, ◌≢◌, ◌⊎◌, inl, inr, true,
  false, ◌==◌, if◌then◌else◌, none, some, List, [], ◌∷◌, ◌++◌, length, arith,
}
use just_webrtc.Common.Map.{lookup, lookup-insert, lookup-remove, remove-insert}
use just_webrtc.Common.Action.{Outcome, ret, fail}
use just_webrtc.Proto.{
  Status, TonicResult, ok, SignalOffer, SignalOfferReq, OfferListenerRsp, peer_change_of_remove,
  failed_precondition, aborted,
}
use just_webrtc.Interfaces.{SendResult, sent, full, disconnected, pushed}
use just_webrtc.Server.State.{Libs, Listeners, Signalling, status}
use just_webrtc.Server.Peers.{peer_id, handle_teardown}
use just_webrtc.Server.Offers.{signal_offer, set_offer_tx, respond_to_offer}
use just_webrtc.Server.Announce.{announcement}

module _ (L : Libs) (s : Signalling L) (id : ℕ) (o : SignalOffer) where
  -- Nothing changes but the offer channel of one peer, whose queue becomes `q`.
  pub record OfferQueued (peer : Listeners L) (tx : L.offers.Chan)
      (q : List (TonicResult OfferListenerRsp)) (t : Signalling L) : Type 0 where
    pub chan : L.offers.Chan
    pub entry : lookup id t.peers ≡ some (record peer { offer_listener_tx = some chan })
    pub queued : L.offers.queue chan ≡ q
    pub capacity : L.offers.capacity chan ≡ L.offers.capacity tx
    pub connected : L.offers.connected chan ≡ L.offers.connected tx
    pub others : (x : ℕ) → x ≢ id → lookup x t.peers ≡ lookup x s.peers
    pub generator : t.generator ≡ s.generator
    pub broadcast : t.peer_broadcast ≡ s.peer_broadcast

  abbrev pub offer_to : SignalOfferReq
  offer_to = record { answerer_peer = some (peer_id id); offer_signal = some o }

  abbrev pub offer_item : TonicResult OfferListenerRsp
  offer_item = ok (record { offer_signal = some o })

  module _ {peer : Listeners L} {tx : L.offers.Chan} (entry : lookup id s.peers ≡ some peer)
      (listens : peer.offer_listener_tx ≡ some tx) where
    offer_stored :
        (r : SendResult)
        → r ≡ (L.offers.try_send offer_item tx).0
        → OfferQueued peer tx
            (pushed r offer_item (L.offers.queue tx))
            (set_offer_tx L id peer (L.offers.try_send offer_item tx).1 s)
    unfolding set_offer_tx
    offer_stored r e =
        let tx' = (L.offers.try_send offer_item tx).1 in
        let peer' = record peer { offer_listener_tx = some tx' } in
        record {
          chan = tx';
          entry = ground (arith, lookup-insert id id peer' s.peers);
          queued = rw e (L.offers.queue-try_send offer_item tx);
          capacity = L.offers.capacity-try_send offer_item tx;
          connected = L.offers.connected-try_send offer_item tx;
          others = λ x ne. ground (arith, lookup-insert id x peer' s.peers);
          generator = refl;
          broadcast = refl;
        }

    signal_offer_sent :
        (r : SendResult)
        → r ≡ (L.offers.try_send offer_item tx).0
        → signal_offer L offer_to s
          ≡ respond_to_offer L id r (set_offer_tx L id peer (L.offers.try_send offer_item tx).1 s)
    unfolding signal_offer
    signal_offer_sent r e = ground arith

    -- If the answerer listens, its stream is open, and its buffer has room, `signal_offer` succeeds and
    -- appends the offer to that buffer; nothing else changes.
    pub signal_offer_delivers :
        L.offers.connected tx ≡ true
        → length (L.offers.queue tx) < L.offers.capacity tx
        → ((signal_offer L offer_to s).0 ≡ ret tt)
          × OfferQueued peer tx (L.offers.queue tx ++ offer_item ∷ []) (signal_offer L offer_to s).1
    unfolding respond_to_offer
    signal_offer_delivers c room =
        let r : (L.offers.try_send offer_item tx).0 ≡ sent =
          ground (arith, L.offers.try_send_result offer_item tx) in
        let run = signal_offer_sent sent (sym r) in (rw run, rw run (offer_stored sent (sym r)))

    -- If the answerer listens and its stream is open, but its buffer is full, the request is aborted and
    -- the buffer stays as it was; nothing else changes.
    pub signal_offer_full :
        L.offers.connected tx ≡ true
        → L.offers.capacity tx ≤ length (L.offers.queue tx)
        → ((signal_offer L offer_to s).0 ≡ fail (status aborted "offer listener buffer full!"))
          × OfferQueued peer tx (L.offers.queue tx) (signal_offer L offer_to s).1
    unfolding respond_to_offer
    signal_offer_full c room =
        let r : (L.offers.try_send offer_item tx).0 ≡ full =
          ground (arith, L.offers.try_send_result offer_item tx) in
        let run = signal_offer_sent full (sym r) in (rw run, rw run (offer_stored full (sym r)))

    -- If the answerer listens, but its stream is gone, the request fails as a failed precondition, the answerer is
    -- removed and its removal is broadcast; no other entry changes.
    pub signal_offer_disconnected :
        L.offers.connected tx ≡ false
        → ((signal_offer L offer_to s).0
            ≡ fail (status failed_precondition "answerer peer has disconnected!"))
          × ((x : ℕ)
              → lookup x (signal_offer L offer_to s).1.peers
                ≡ (if id == x then none else lookup x s.peers))
          × (L.changes.history (signal_offer L offer_to s).1.peer_broadcast
              ≡ L.changes.history s.peer_broadcast ++ announcement (peer_change_of_remove id) ∷ [])
    unfolding respond_to_offer set_offer_tx handle_teardown
    signal_offer_disconnected c =
        let r : (L.offers.try_send offer_item tx).0 ≡ disconnected =
          ground (arith, L.offers.try_send_result offer_item tx) in
        let peer' = record peer { offer_listener_tx = some (L.offers.try_send offer_item tx).1 } in
        let run = signal_offer_sent disconnected (sym r) in
        (
          rw run (ground (arith, lookup-insert id id peer' s.peers)),
          λ x. rw run (ground (arith, remove-insert id peer' s.peers, lookup-remove id x s.peers)),
          rw run (
              ground (
                arith,
                lookup-insert id id peer' s.peers,
                L.changes.history-try_broadcast (announcement (peer_change_of_remove id))
                    s.peer_broadcast,
              )),
        )

  -- If the answerer is not advertised, or does not listen, the request fails as a failed precondition
  -- and the state stays as it was.
  pub signal_offer_unreachable :
      (lookup id s.peers ≡ none)
        ⊎ ((peer : Listeners L) × (lookup id s.peers ≡ some peer) × (peer.offer_listener_tx ≡ none))
      → (why : String) × (signal_offer L offer_to s ≡ (fail (status failed_precondition why), s))
  unfolding signal_offer
  signal_offer_unreachable (inl e) = ("answerer peer not advertised!", ground arith)
  signal_offer_unreachable (inr (peer, e, t)) = ("answerer peer not listening!", ground arith)

  -- What `signal_offer` does, by what it finds. The peer is not advertised or does not listen; or its
  -- buffer has room, is full, or has lost its stream.
  pub data OfferVerdict (out : Outcome Status (Unit {0})) (t : Signalling L) : Type 0 where
    unreachable :
        (why : String)
        → (lookup id s.peers ≡ none)
          ⊎ ((peer : Listeners L) × (lookup id s.peers ≡ some peer)
              × (peer.offer_listener_tx ≡ none))
        → out ≡ fail (status failed_precondition why)
        → t ≡ s
        → OfferVerdict out t
    delivered :
        (peer : Listeners L) (tx : L.offers.Chan)
        → lookup id s.peers ≡ some peer
        → peer.offer_listener_tx ≡ some tx
        → L.offers.connected tx ≡ true
        → length (L.offers.queue tx) < L.offers.capacity tx
        → out ≡ ret tt
        → OfferQueued peer tx (L.offers.queue tx ++ offer_item ∷ []) t
        → OfferVerdict out t
    refused :
        (peer : Listeners L) (tx : L.offers.Chan)
        → lookup id s.peers ≡ some peer
        → peer.offer_listener_tx ≡ some tx
        → L.offers.connected tx ≡ true
        → L.offers.capacity tx ≤ length (L.offers.queue tx)
        → out ≡ fail (status aborted "offer listener buffer full!")
        → OfferQueued peer tx (L.offers.queue tx) t
        → OfferVerdict out t
    torn_down :
        (peer : Listeners L) (tx : L.offers.Chan)
        → lookup id s.peers ≡ some peer
        → peer.offer_listener_tx ≡ some tx
        → L.offers.connected tx ≡ false
        → out ≡ fail (status failed_precondition "answerer peer has disconnected!")
        → ((x : ℕ) → lookup x t.peers ≡ (if id == x then none else lookup x s.peers))
        → L.changes.history t.peer_broadcast
          ≡ L.changes.history s.peer_broadcast ++ announcement (peer_change_of_remove id) ∷ []
        → OfferVerdict out t

  gone :
      (lookup id s.peers ≡ none)
        ⊎ ((peer : Listeners L) × (lookup id s.peers ≡ some peer) × (peer.offer_listener_tx ≡ none))
      → OfferVerdict (signal_offer L offer_to s).0 (signal_offer L offer_to s).1
  gone absent =
      let (why, e) = signal_offer_unreachable absent in
      unreachable why absent (ap (λ r. r.0) e) (ap (λ r. r.1) e)

  -- `signal_offer`, whatever the state. The request fails as a failed precondition, and changes
  -- nothing, if the peer is not advertised or does not listen. Otherwise: if the listener's
  -- stream is open and its buffer has room, the request succeeds and the offer is appended to the buffer;
  -- if the buffer is full, the request is aborted and the buffer stays as it was; in both cases, nothing
  -- else changes. If the stream is gone, the request fails, the peer is removed, no other entry
  -- changes, and its removal is broadcast.
  pub signal_offer_exact : OfferVerdict (signal_offer L offer_to s).0 (signal_offer L offer_to s).1
  signal_offer_exact = elim (Option-cases (lookup id s.peers)) [
    | inl e ↦ gone (inl e)
    | inr (peer, e) ↦ elim (Option-cases peer.offer_listener_tx) [
      | inl e' ↦ gone (inr (peer, e, e'))
      | inr (tx, e') ↦ elim (Bool-cases (L.offers.connected tx)) [
        | inr c ↦
            let (out, others, told) = signal_offer_disconnected e e' c in
            torn_down peer tx e e' c out others told
        | inl c ↦ elim (Bool-cases (ltb (length (L.offers.queue tx)) (L.offers.capacity tx))) [
          | inl lt ↦
              let room : length (L.offers.queue tx) < L.offers.capacity tx = ground arith in
              let (out, queued) = signal_offer_delivers e e' c room in
              delivered peer tx e e' c room out queued
          | inr ge ↦
              let no_room : L.offers.capacity tx ≤ length (L.offers.queue tx) = ground arith in
              let (out, queued) = signal_offer_full e e' c no_room in
              refused peer tx e e' c no_room out queued
        ]
      ]
    ]
  ]
