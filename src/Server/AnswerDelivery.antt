-- ===== src/Server/AnswerDelivery.antt =====
-- `signal_answer` against the mailbox of the peer that it is sent to, on each branch.
use just_webrtc.Common.{
  ap, ltb, Bool-cases, Option-cases, ℕ, String, ◌≤◌, ◌<◌, ◌≡◌, refl, sym, ◌≢◌, ◌⊎◌, inl, inr, true,
  false, ◌==◌, if◌then◌else◌, none, some, List, [], ◌∷◌, ◌++◌, length, arith,
}
use just_webrtc.Common.Map.{lookup, lookup-insert, lookup-remove, remove-insert}
use just_webrtc.Common.Action.{Outcome, ret, fail}
use just_webrtc.Proto.{
  Status, TonicResult, ok, SignalAnswer, SignalAnswerReq, AnswerListenerRsp, peer_change_of_remove,
  failed_precondition, aborted,
}
use just_webrtc.Interfaces.{SendResult, sent, full, disconnected, pushed}
use just_webrtc.Server.State.{Libs, Listeners, Signalling, status}
use just_webrtc.Server.Peers.{peer_id, handle_teardown}
use just_webrtc.Server.Answers.{signal_answer, set_answer_tx, respond_to_answer}
use just_webrtc.Server.Announce.{announcement}

module _ (L : Libs) (s : Signalling L) (id : ℕ) (o : SignalAnswer) where
  -- Nothing changes but the answer channel of one peer, whose queue becomes `q`.
  pub record AnswerQueued (peer : Listeners L) (tx : L.answers.Chan)
      (q : List (TonicResult AnswerListenerRsp)) (t : Signalling L) : Type 0 where
    pub chan : L.answers.Chan
    pub entry : lookup id t.peers ≡ some (record peer { answer_listener_tx = some chan })
    pub queued : L.answers.queue chan ≡ q
    pub capacity : L.answers.capacity chan ≡ L.answers.capacity tx
    pub connected : L.answers.connected chan ≡ L.answers.connected tx
    pub others : (x : ℕ) → x ≢ id → lookup x t.peers ≡ lookup x s.peers
    pub generator : t.generator ≡ s.generator
    pub broadcast : t.peer_broadcast ≡ s.peer_broadcast

  abbrev pub answer_to : SignalAnswerReq
  answer_to = record { offerer_peer = some (peer_id id); answer_signal = some o }

  abbrev pub answer_item : TonicResult AnswerListenerRsp
  answer_item = ok (record { answer_signal = some o })

  module _ {peer : Listeners L} {tx : L.answers.Chan} (entry : lookup id s.peers ≡ some peer)
      (listens : peer.answer_listener_tx ≡ some tx) where
    answer_stored :
        (r : SendResult)
        → r ≡ (L.answers.try_send answer_item tx).0
        → AnswerQueued peer tx
            (pushed r answer_item (L.answers.queue tx))
            (set_answer_tx L id peer (L.answers.try_send answer_item tx).1 s)
    unfolding set_answer_tx
    answer_stored r e =
        let tx' = (L.answers.try_send answer_item tx).1 in
        let peer' = record peer { answer_listener_tx = some tx' } in
        record {
          chan = tx';
          entry = ground (arith, lookup-insert id id peer' s.peers);
          queued = rw e (L.answers.queue-try_send answer_item tx);
          capacity = L.answers.capacity-try_send answer_item tx;
          connected = L.answers.connected-try_send answer_item tx;
          others = λ x ne. ground (arith, lookup-insert id x peer' s.peers);
          generator = refl;
          broadcast = refl;
        }

    signal_answer_sent :
        (r : SendResult)
        → r ≡ (L.answers.try_send answer_item tx).0
        → signal_answer L answer_to s
          ≡ respond_to_answer L id r
              (set_answer_tx L id peer (L.answers.try_send answer_item tx).1 s)
    unfolding signal_answer
    signal_answer_sent r e = ground arith

    -- If the offerer listens, its stream is open, and its buffer has room, `signal_answer` succeeds and
    -- appends the answer to that buffer; nothing else changes.
    pub signal_answer_delivers :
        L.answers.connected tx ≡ true
        → length (L.answers.queue tx) < L.answers.capacity tx
        → ((signal_answer L answer_to s).0 ≡ ret tt)
          × AnswerQueued peer tx
              (L.answers.queue tx ++ answer_item ∷ [])
              (signal_answer L answer_to s).1
    unfolding respond_to_answer
    signal_answer_delivers c room =
        let r : (L.answers.try_send answer_item tx).0 ≡ sent =
          ground (arith, L.answers.try_send_result answer_item tx) in
        let run = signal_answer_sent sent (sym r) in (rw run, rw run (answer_stored sent (sym r)))

    -- If the offerer listens and its stream is open, but its buffer is full, the request is aborted and
    -- the buffer stays as it was; nothing else changes.
    pub signal_answer_full :
        L.answers.connected tx ≡ true
        → L.answers.capacity tx ≤ length (L.answers.queue tx)
        → ((signal_answer L answer_to s).0 ≡ fail (status aborted "answer listener buffer full!"))
          × AnswerQueued peer tx (L.answers.queue tx) (signal_answer L answer_to s).1
    unfolding respond_to_answer
    signal_answer_full c room =
        let r : (L.answers.try_send answer_item tx).0 ≡ full =
          ground (arith, L.answers.try_send_result answer_item tx) in
        let run = signal_answer_sent full (sym r) in (rw run, rw run (answer_stored full (sym r)))

    -- If the offerer listens, but its stream is gone, the request fails as a failed precondition, the offerer is
    -- removed and its removal is broadcast; no other entry changes.
    pub signal_answer_disconnected :
        L.answers.connected tx ≡ false
        → ((signal_answer L answer_to s).0
            ≡ fail (status failed_precondition "offerer peer has disconnected!"))
          × ((x : ℕ)
              → lookup x (signal_answer L answer_to s).1.peers
                ≡ (if id == x then none else lookup x s.peers))
          × (L.changes.history (signal_answer L answer_to s).1.peer_broadcast
              ≡ L.changes.history s.peer_broadcast ++ announcement (peer_change_of_remove id) ∷ [])
    unfolding respond_to_answer set_answer_tx handle_teardown
    signal_answer_disconnected c =
        let r : (L.answers.try_send answer_item tx).0 ≡ disconnected =
          ground (arith, L.answers.try_send_result answer_item tx) in
        let peer' = record peer {
          answer_listener_tx = some (L.answers.try_send answer_item tx).1;
        } in
        let run = signal_answer_sent disconnected (sym r) in
        (
          rw run (ground (arith, lookup-insert id id peer' s.peers)),
          λ x. rw run (ground (arith, remove-insert id peer' s.peers, lookup-remove id x s.peers)),
          rw run (
              ground (
                arith,
                lookup-insert id id peer' s.peers,
                L.changes.history-try_broadcast (announcement (peer_change_of_remove id))
                    s.peer_broadcast,
              )),
        )

  -- If the offerer is not advertised, or does not listen, the request fails as a failed precondition
  -- and the state stays as it was.
  pub signal_answer_unreachable :
      (lookup id s.peers ≡ none)
        ⊎ ((peer : Listeners L) × (lookup id s.peers ≡ some peer)
            × (peer.answer_listener_tx ≡ none))
      → (why : String) × (signal_answer L answer_to s ≡ (fail (status failed_precondition why), s))
  unfolding signal_answer
  signal_answer_unreachable (inl e) = ("offerer peer not advertised!", ground arith)
  signal_answer_unreachable (inr (peer, e, t)) = ("offerer peer not listening!", ground arith)

  -- What `signal_answer` does, by what it finds. The peer is not advertised or does not listen; or its
  -- buffer has room, is full, or has lost its stream.
  pub data AnswerVerdict (out : Outcome Status (Unit {0})) (t : Signalling L) : Type 0 where
    unreachable :
        (why : String)
        → (lookup id s.peers ≡ none)
          ⊎ ((peer : Listeners L) × (lookup id s.peers ≡ some peer)
              × (peer.answer_listener_tx ≡ none))
        → out ≡ fail (status failed_precondition why)
        → t ≡ s
        → AnswerVerdict out t
    delivered :
        (peer : Listeners L) (tx : L.answers.Chan)
        → lookup id s.peers ≡ some peer
        → peer.answer_listener_tx ≡ some tx
        → L.answers.connected tx ≡ true
        → length (L.answers.queue tx) < L.answers.capacity tx
        → out ≡ ret tt
        → AnswerQueued peer tx (L.answers.queue tx ++ answer_item ∷ []) t
        → AnswerVerdict out t
    refused :
        (peer : Listeners L) (tx : L.answers.Chan)
        → lookup id s.peers ≡ some peer
        → peer.answer_listener_tx ≡ some tx
        → L.answers.connected tx ≡ true
        → L.answers.capacity tx ≤ length (L.answers.queue tx)
        → out ≡ fail (status aborted "answer listener buffer full!")
        → AnswerQueued peer tx (L.answers.queue tx) t
        → AnswerVerdict out t
    torn_down :
        (peer : Listeners L) (tx : L.answers.Chan)
        → lookup id s.peers ≡ some peer
        → peer.answer_listener_tx ≡ some tx
        → L.answers.connected tx ≡ false
        → out ≡ fail (status failed_precondition "offerer peer has disconnected!")
        → ((x : ℕ) → lookup x t.peers ≡ (if id == x then none else lookup x s.peers))
        → L.changes.history t.peer_broadcast
          ≡ L.changes.history s.peer_broadcast ++ announcement (peer_change_of_remove id) ∷ []
        → AnswerVerdict out t

  gone :
      (lookup id s.peers ≡ none)
        ⊎ ((peer : Listeners L) × (lookup id s.peers ≡ some peer)
            × (peer.answer_listener_tx ≡ none))
      → AnswerVerdict (signal_answer L answer_to s).0 (signal_answer L answer_to s).1
  gone absent =
      let (why, e) = signal_answer_unreachable absent in
      unreachable why absent (ap (λ r. r.0) e) (ap (λ r. r.1) e)

  -- `signal_answer`, whatever the state. The request fails as a failed precondition, and changes
  -- nothing, if the peer is not advertised or does not listen. Otherwise: if the listener's
  -- stream is open and its buffer has room, the request succeeds and the answer is appended to the buffer;
  -- if the buffer is full, the request is aborted and the buffer stays as it was; in both cases, nothing
  -- else changes. If the stream is gone, the request fails, the peer is removed, no other entry
  -- changes, and its removal is broadcast.
  pub signal_answer_exact :
      AnswerVerdict (signal_answer L answer_to s).0 (signal_answer L answer_to s).1
  signal_answer_exact = elim (Option-cases (lookup id s.peers)) [
    | inl e ↦ gone (inl e)
    | inr (peer, e) ↦ elim (Option-cases peer.answer_listener_tx) [
      | inl e' ↦ gone (inr (peer, e, e'))
      | inr (tx, e') ↦ elim (Bool-cases (L.answers.connected tx)) [
        | inr c ↦
            let (out, others, told) = signal_answer_disconnected e e' c in
            torn_down peer tx e e' c out others told
        | inl c ↦ elim (Bool-cases (ltb (length (L.answers.queue tx)) (L.answers.capacity tx))) [
          | inl lt ↦
              let room : length (L.answers.queue tx) < L.answers.capacity tx = ground arith in
              let (out, queued) = signal_answer_delivers e e' c room in
              delivered peer tx e e' c room out queued
          | inr ge ↦
              let no_room : L.answers.capacity tx ≤ length (L.answers.queue tx) = ground arith in
              let (out, queued) = signal_answer_full e e' c no_room in
              refused peer tx e e' c no_room out queued
        ]
      ]
    ]
  ]
