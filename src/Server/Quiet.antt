-- ===== src/Server/Quiet.antt =====
-- The segments of handlers that only touch the channels of listeners.
use just_webrtc.Common.{ℕ, ◌≡◌, refl, Option-cases, inl, inr, none, some, arith}
use just_webrtc.Common.Map.{lookup, contains_key, insert, contains_key-insert, contains_key-lookup}
use just_webrtc.Proto.{ok, SignalOffer, SignalAnswer, LocalPeerReq}
use just_webrtc.Server.State.{Libs, Listeners, Signalling, channel_bound}
use just_webrtc.Server.Offers.{forward_offer, open_offer_listener, set_offer_tx}
use just_webrtc.Server.Answers.{forward_answer, open_answer_listener, set_answer_tx}
use just_webrtc.Server.Service.{with_offer_chan, with_answer_chan}
use just_webrtc.Server.NoPanic.{try_send-bounded}

module _ (L : Libs) where
  -- Neither the peers, nor the generator, nor the broadcasts change.
  pub record Quiet (s t : Signalling L) : Type 0 where
    pub generator : t.generator ≡ s.generator
    pub broadcast : t.peer_broadcast ≡ s.peer_broadcast
    pub peers : (x : ℕ) → contains_key x t.peers ≡ contains_key x s.peers

  Quiet-self : {s t : Signalling L} → t ≡ s → Quiet s t
  Quiet-self e = rw e (record { generator = refl; broadcast = refl; peers = λ x. refl })

  reset-Quiet :
      (id : ℕ) (l l' : Listeners L) (s t : Signalling L)
      → lookup id s.peers ≡ some l
      → t ≡ record s { peers = insert id l' s.peers }
      → Quiet s t
  reset-Quiet id l l' s t e same = rw same (record {
    generator = refl;
    broadcast = refl;
    peers =
        λ x. ground (arith, contains_key-insert id x l' s.peers, contains_key-lookup id s.peers);
  })

  pub forward_offer-Quiet :
      (id : ℕ) (o : SignalOffer) (s : Signalling L) → Quiet s (forward_offer L id o s).1
  unfolding forward_offer set_offer_tx
  forward_offer-Quiet id o s = elim (Option-cases (lookup id s.peers)) [
    | inl e ↦ Quiet-self (ground arith)
    | inr (l, e) ↦ elim (Option-cases l.offer_listener_tx) [
      | inl n ↦ Quiet-self (ground arith)
      | inr (tx, n) ↦
          reset-Quiet id l
            (record l {
              offer_listener_tx =
                  some (L.offers.try_send (ok (record { offer_signal = some o })) tx).1;
            })
            s _ e (ground arith)
    ]
  ]

  pub with_offer_chan-Quiet :
      (change : L.offers.Chan → L.offers.Chan) (id : ℕ) (s : Signalling L)
      → Quiet s (with_offer_chan L change id s)
  unfolding with_offer_chan set_offer_tx
  with_offer_chan-Quiet change id s = elim (Option-cases (lookup id s.peers)) [
    | inl e ↦ Quiet-self (ground arith)
    | inr (l, e) ↦ elim (Option-cases l.offer_listener_tx) [
      | inl n ↦ Quiet-self (ground arith)
      | inr (tx, n) ↦
          reset-Quiet id l (record l { offer_listener_tx = some (change tx) }) s _ e (ground arith)
    ]
  ]

  pub open_offer_listener-Quiet :
      (m : LocalPeerReq) (s : Signalling L) → Quiet s (open_offer_listener L m s).1
  unfolding open_offer_listener set_offer_tx
  open_offer_listener-Quiet m s = elim (Option-cases m.local_peer) [
    | inl e ↦ Quiet-self (ground arith)
    | inr (p, ep) ↦ elim (Option-cases (lookup p.id s.peers)) [
      | inl e ↦ Quiet-self (ground arith)
      | inr (l, e) ↦ elim (Option-cases l.offer_listener_tx) [
        | inl n ↦
            reset-Quiet p.id l
              (record l {
                offer_listener_tx =
                    some
                      (L.offers.try_send (ok (record { offer_signal = none }))
                        (L.offers.bounded channel_bound)).1;
              })
              s _ e
              (ground (arith, try_send-bounded L.offers (ok (record { offer_signal = none }))))
        | inr (tx, n) ↦
            Quiet-self
              (ground (arith, try_send-bounded L.offers (ok (record { offer_signal = none }))))
      ]
    ]
  ]

  pub forward_answer-Quiet :
      (id : ℕ) (o : SignalAnswer) (s : Signalling L) → Quiet s (forward_answer L id o s).1
  unfolding forward_answer set_answer_tx
  forward_answer-Quiet id o s = elim (Option-cases (lookup id s.peers)) [
    | inl e ↦ Quiet-self (ground arith)
    | inr (l, e) ↦ elim (Option-cases l.answer_listener_tx) [
      | inl n ↦ Quiet-self (ground arith)
      | inr (tx, n) ↦
          reset-Quiet id l
            (record l {
              answer_listener_tx =
                  some (L.answers.try_send (ok (record { answer_signal = some o })) tx).1;
            })
            s _ e (ground arith)
    ]
  ]

  pub with_answer_chan-Quiet :
      (change : L.answers.Chan → L.answers.Chan) (id : ℕ) (s : Signalling L)
      → Quiet s (with_answer_chan L change id s)
  unfolding with_answer_chan set_answer_tx
  with_answer_chan-Quiet change id s = elim (Option-cases (lookup id s.peers)) [
    | inl e ↦ Quiet-self (ground arith)
    | inr (l, e) ↦ elim (Option-cases l.answer_listener_tx) [
      | inl n ↦ Quiet-self (ground arith)
      | inr (tx, n) ↦
          reset-Quiet id l (record l { answer_listener_tx = some (change tx) }) s _ e (ground arith)
    ]
  ]

  pub open_answer_listener-Quiet :
      (m : LocalPeerReq) (s : Signalling L) → Quiet s (open_answer_listener L m s).1
  unfolding open_answer_listener set_answer_tx
  open_answer_listener-Quiet m s = elim (Option-cases m.local_peer) [
    | inl e ↦ Quiet-self (ground arith)
    | inr (p, ep) ↦ elim (Option-cases (lookup p.id s.peers)) [
      | inl e ↦ Quiet-self (ground arith)
      | inr (l, e) ↦ elim (Option-cases l.answer_listener_tx) [
        | inl n ↦
            reset-Quiet p.id l
              (record l {
                answer_listener_tx =
                    some
                      (L.answers.try_send (ok (record { answer_signal = none }))
                        (L.answers.bounded channel_bound)).1;
              })
              s _ e
              (ground (arith, try_send-bounded L.answers (ok (record { answer_signal = none }))))
        | inr (tx, n) ↦
            Quiet-self
              (ground (arith, try_send-bounded L.answers (ok (record { answer_signal = none }))))
      ]
    ]
  ]
