-- ===== src/Example/EchoPair.antt =====
-- Two peers whose channels are connected, each with the `channel_echo_task` of its side.
use just_webrtc.Common.{ℕ, suc, ◌≡◌, true, false, Option, none, some, List, [], ◌∷◌, ◌++◌}
use just_webrtc.Common.Action.{Outcome, ret, fail, panic, Action}
use just_webrtc.WebRtc.Native.Connections.{Bytes}
use just_webrtc.Example.Echo.{
  Bincode, EchoTask, interval, response, request, EchoFailure, begin, on_interval, on_response,
  on_request,
}

-- One direction of an open data channel that is ordered and reliable, as the default options make it.
-- `queue` is what is under way.
pub record Wire (E : Type 0) : Type 1 where
  pub Way : Type 0
  pub fresh : Way
  pub send : Bytes → Action E Way ℕ
  pub receive : Way → Option Bytes × Way
  pub queue : Way → List Bytes
  pub queue-fresh : queue fresh ≡ []
  pub queue-send :
      (bytes : Bytes) (w : Way)
      → (n : ℕ) × (w' : Way) × (send bytes w ≡ (ret n, w')) × (queue w' ≡ queue w ++ bytes ∷ [])
  pub receive-cons :
      (bytes : Bytes) (rest : List Bytes) (w : Way)
      → queue w ≡ bytes ∷ rest
      → (w' : Way) × (receive w ≡ (some bytes, w')) × (queue w' ≡ rest)
  pub receive-nil : (w : Way) → queue w ≡ [] → receive w ≡ (none, w)

-- What is awaited and comes.
pub data Arrival : Type 0 where
  interval_over request_arrives response_arrives : Arrival

module _ (B : Bincode) {E : Type 0} (W : Wire E) where
  -- `echoes` counts the reports of the offerer.
  pub record Pair : Type 0 where
    pub offerer : EchoTask
    pub answerer : EchoTask
    pub requests : W.Way
    pub responses : W.Way
    pub echoes : ℕ

  abbrev pub Paired : Type 0
  Paired = Outcome (EchoFailure B E) Pair

  abbrev pub after :
      {A : Type 0} → Outcome (EchoFailure B E) A × W.Way → (A → W.Way → Paired) → Paired
  after r f = elim r.0 [ ret a ↦ f a r.1 | fail e ↦ fail e | panic ↦ panic ]

  unfoldable pub begun : Paired
  begun = after (begin B W.send true W.fresh) (λ t w.
      after (begin B W.send false W.fresh) (λ u v.
        ret (record { offerer = t; answerer = u; requests = w; responses = v; echoes = 0 })))

  unfoldable pub turn : Arrival → Pair → Paired
  turn interval_over p = elim p.offerer [
    | interval m ↦
        after (on_interval B W.send m p.requests)
          (λ t w. ret (record p { offerer = t; requests = w }))
    | response m ↦ ret p
    | request m ↦ ret p
  ]
  turn request_arrives p = elim p.answerer [
    | request m ↦ elim (W.receive p.requests).0 [
      | none ↦ ret p
      | some bytes ↦ after (on_request B W.send m bytes p.responses) (λ t w.
          ret (record p { answerer = t; requests = (W.receive p.requests).1; responses = w }))
    ]
    | interval m ↦ ret p
    | response m ↦ ret p
  ]
  turn response_arrives p = elim p.offerer [
    | response m ↦ elim (W.receive p.responses).0 [
      | none ↦ ret p
      | some bytes ↦ after (on_response B W.send m bytes (W.receive p.responses).1) (λ t w.
          ret (record p {
            offerer = t.0;
            responses = w;
            echoes = elim t.1 [ true ↦ suc p.echoes | false ↦ p.echoes ];
          }))
    ]
    | interval m ↦ ret p
    | request m ↦ ret p
  ]

  unfoldable pub turns : List Arrival → Pair → Paired
  turns [] p = ret p
  turns (a ∷ arrivals) p = elim (turn a p) [
    | ret p' ↦ turns arrivals p'
    | fail e ↦ fail e
    | panic ↦ panic
  ]

  unfoldable pub session : List Arrival → Paired
  unfolding begun turns
  session arrivals = elim begun [ ret p ↦ turns arrivals p | fail e ↦ fail e | panic ↦ panic ]
