-- ===== src/Example/Handover.antt =====
-- The callbacks of `run_peer` one after the other, for one remote peer: what becomes of its connection.
use just_webrtc.Common.{ℕ, ◌≡◌, ap, subst, inl, inr, ◌⊎◌, true, false, none, List, ◌∷◌}
use mathlib.Core.List.{append-nil}
use just_webrtc.Common.Map.{lookup}
use just_webrtc.WebRtc.Types.{IceCandidate, SessionDescription, default_options}
use just_webrtc.WebRtc.Plan.{accept, open_channel, make_answer, make_offer, set_local}
use just_webrtc.WebRtc.Platform.{Platform}
use just_webrtc.Example.Connections.{Borrow, borrows}
use just_webrtc.Example.Negotiation.{create_offer, receive_offer}
use just_webrtc.Example.Slots.{Elsewhere}
use just_webrtc.Example.Signalled.{candidates_of, create_offer-Follows, receive_offer-Follows}
use just_webrtc.Example.Callbacks.{
  resolved, Connection, Peers, Described, create_offer_fn, receive_offer_fn, receive_answer_fn,
}
use just_webrtc.Example.Entering.{
  Stopped, FailsOwn, GetsConnection, enters_cases, answered_cases, entered_still, handed_over,
}

module _ (P : Platform) where
  -- For an id that is not in the map: `create_offer_fn` stops, or enters an offerer's connection; then
  -- `receive_answer_fn` fails with an error of the connection, or leaves it entered; then
  -- `local_sig_cplt_fn` hands it to the echo task, and its entry is empty. All that the connection
  -- was asked for, by then and in this order, is to open the example's channel, to offer, to set the local
  -- description, to accept the answer and to add its candidates. This holds if what the handlers do asks
  -- for nothing, and whatever the callbacks of other peers do to the map before each of the others and
  -- within `receive_answer_fn`. `create_offer_fn` stops only if its negotiation or the channel of the
  -- candidates fails, with that error, or waits while the collection of the candidates does not finish.
  pub offerer_handed_over :
      (handlers : P.Session → P.Session)
      → ((s : P.Session) → P.asked (handlers s) ≡ P.asked s)
      → (fuel id : ℕ) (inner : Peers P) → lookup id inner ≡ none
      → (answer : SessionDescription) (cs : List IceCandidate)
        (before between after : List (Borrow (Connection P)))
      → Elsewhere id before
      → Elsewhere id between
      → Elsewhere id after
      → let r1 = create_offer_fn P handlers fuel id inner in
        Stopped P handlers fuel inner (create_offer P P.start) r1
        ⊎ ((set : Described P) × (m1 : Peers P) × (r1 ≡ resolved (id, set) m1)
            × (let r2 = receive_answer_fn P (borrows between) id (answer, cs) (borrows before m1) in
                FailsOwn P r2
                ⊎ ((m2 : Peers P) × (r2 ≡ resolved id m2)
                    × GetsConnection P id true
                        (open_channel "example_channel_0" default_options
                          ∷ make_offer
                          ∷ set_local
                          ∷ accept answer
                          ∷ candidates_of P cs)
                        (borrows after m2))))
  unfolding create_offer_fn
  offerer_handed_over handlers keeps fuel id inner fresh answer cs before between after o1 o2 o3 =
      elim (enters_cases P handlers keeps fuel id inner fresh true _ (create_offer P)
        (create_offer-Follows P)) [
          | inl stopped ↦ inl stopped
          | inr (set, m1, r, there) ↦ inr (
            set,
            m1,
            r,
            elim (answered_cases P between id answer cs true _ (borrows before m1) o2
                (entered_still P before id true _ m1 o1 there)) [
                  | inl stopped ↦ inl stopped
                  | inr (m2, r2, there2) ↦ inr (m2, r2, handed_over P after id true _ m2 o3 there2)
                ],
          )
        ]

  -- For an id that is not in the map, `receive_offer_fn` stops, or enters a connection that is no
  -- offerer's, which `remote_sig_cplt_fn` hands to the echo task, and its entry is empty. It was asked to
  -- accept the offer, to answer, to set the local description and to add the offer's candidates, in
  -- this order. This holds if what the handlers do asks for nothing, and whatever the callbacks of other
  -- peers do to the map before the last one. `receive_offer_fn` stops only if its negotiation or the
  -- channel of the candidates fails, with that error, or waits while the collection of the candidates
  -- does not finish.
  pub answerer_handed_over :
      (handlers : P.Session → P.Session)
      → ((s : P.Session) → P.asked (handlers s) ≡ P.asked s)
      → (fuel id : ℕ) (inner : Peers P) → lookup id inner ≡ none
      → (offer : SessionDescription) (cs : List IceCandidate) (after : List (Borrow (Connection P)))
      → Elsewhere id after
      → let r = receive_offer_fn P handlers fuel id (offer, cs) inner in
        Stopped P handlers fuel inner (receive_offer P offer cs P.start) r
        ⊎ ((set : Described P) × (m : Peers P) × (r ≡ resolved (id, set) m)
            × GetsConnection P id false
                (accept offer ∷ make_answer ∷ set_local ∷ candidates_of P cs)
                (borrows after m))
  unfolding receive_offer_fn
  answerer_handed_over handlers keeps fuel id inner fresh offer cs after o =
      elim (enters_cases P handlers keeps fuel id inner fresh false _ (receive_offer P offer cs)
        (receive_offer-Follows P offer cs)) [
          | inl stopped ↦ inl stopped
          | inr (set, m, r, there) ↦ inr (
            set,
            m,
            r,
            subst (λ l. GetsConnection P id false l (borrows after m))
                (ap (λ l. accept offer ∷ make_answer ∷ set_local ∷ l)
                  (append-nil (candidates_of P cs)))
                (handed_over P after id false _ m o there),
          )
        ]
