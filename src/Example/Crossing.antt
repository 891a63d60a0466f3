-- ===== src/Example/Crossing.antt =====
-- What the callbacks of `run_peer` do when both peers make an offer to the other.
use just_webrtc.Common.{
  ℕ, ◌≡◌, ◌∙◌, inl, inr, ◌⊎◌, Bool, true, false, Option, none, some, List, arith,
}
use just_webrtc.Common.Map.{lookup}
use just_webrtc.Common.Action.{Outcome, ret, fail, Action}
use just_webrtc.WebRtc.Types.{IceCandidate, SessionDescription}
use just_webrtc.WebRtc.Calls.{Ends, Follows}
use just_webrtc.WebRtc.Plan.{Request}
use just_webrtc.WebRtc.Native.Link.{Progress-cases}
use just_webrtc.WebRtc.Platform.{Platform}
use just_webrtc.Example.Connections.{Borrow, insert, borrows}
use just_webrtc.Example.Negotiation.{Failure, create_offer, receive_offer, with_candidates}
use just_webrtc.Example.Slots.{borrows-Elsewhere, Elsewhere}
use just_webrtc.Example.Signalled.{Offers, create_offer-Follows, receive_offer-Follows}
use just_webrtc.Example.Callbacks.{
  shared, resolved, failed, Connection, Peers, Callback, Described, enters, create_offer_fn,
  receive_offer_fn,
}
use just_webrtc.Example.Entering.{Outcomes, Stopped, enters_cases}

module _ (P : Platform) where
  insert_refused :
      (id : ℕ) (c : Connection P) (slot : Option (Connection P)) (inner : Peers P)
      → lookup id inner ≡ some slot
      → (insert id c inner).0 ≡ fail "pre-existing peer ID!"
  unfolding insert
  insert_refused id c slot inner e = ground (arith, e)

  -- The callback stops, or it fails because the id has an entry.
  abbrev pub FailsAt :
      (P.Session → P.Session) → ℕ → Peers P → Outcomes P → Callback P (ℕ × Described P) → Type 0
  FailsAt handlers fuel inner made r =
      Stopped P handlers fuel inner made r
      ⊎ ((m : Peers P) × (r ≡ failed (shared "pre-existing peer ID!") m))

  module _ (handlers : P.Session → P.Session) (fuel id : ℕ) (slot : Option (Connection P))
      (inner : Peers P) (there : lookup id inner ≡ some slot) where
    made_refused :
        (d : SessionDescription) (c : P.PeerConnection)
        (made : Outcome (Failure P.Error) (SessionDescription × P.PeerConnection) × P.Session)
        → made.0 ≡ ret (d, c)
        → FailsAt handlers fuel inner made (enters P handlers fuel id made inner)
    unfolding enters with_candidates
    made_refused d c made e =
        elim (Progress-cases (P.connections.collect_ice_candidates fuel (handlers made.1))) [
          | inl (cs, s, r) ↦ inr (
            (insert id (c, s) inner).1,
            ground (arith, e, r, insert_refused id (c, s) slot inner there),
          )
          | inr (inl r) ↦ inl (inr (inr (inl r, ground (arith, e, r))))
          | inr (inr (inl r)) ↦ inl (inr (inl (r, ground (arith, e, r))))
          | inr (inr (inr r)) ↦ inl (inr (inr (inr r, ground (arith, e, r))))
        ]

    enters_refused :
        (offers : Bool) (plan : List Request)
        (m : Action (Failure P.Error) P.Session (SessionDescription × P.PeerConnection))
        → Follows P.asked m plan (Offers P offers)
        → FailsAt handlers fuel inner (m P.start) (enters P handlers fuel id (m P.start) inner)
    unfolding Follows Ends enters
    enters_refused offers plan m follows =
        let (_, _, _, _, ends) = follows P.start in
        elim ends [
          | inr (e, f) ↦ inl (inl (e, f, ground (arith, f)))
          | inl ((d, c), f, _, _) ↦ made_refused d c (m P.start) f
        ]

  -- A peer that makes an offer to a peer whose own offer it also receives, in either order, for an id that
  -- is not in the map, if what the handlers do asks for nothing: once the first callback has resolved, the
  -- second never does, whatever the callbacks of other peers do to the map in between. Where neither
  -- its negotiation nor the collection of its candidates fails or waits, it fails with the error that the
  -- id, which the first one entered, pre-exists.
  pub crossing_offers_refused :
      (handlers later : P.Session → P.Session)
      → ((s : P.Session) → P.asked (handlers s) ≡ P.asked s)
      → (fuel id : ℕ) (inner : Peers P) → lookup id inner ≡ none
      → (offer : SessionDescription) (cs : List IceCandidate)
        (others : List (Borrow (Connection P)))
      → Elsewhere id others
      → let made = create_offer_fn P handlers fuel id inner in
        let got = receive_offer_fn P handlers fuel id (offer, cs) inner in
        (Stopped P handlers fuel inner (create_offer P P.start) made
          ⊎ ((set : Described P) × (m : Peers P) × (made ≡ resolved (id, set) m)
              × FailsAt later fuel
                  (borrows others m)
                  (receive_offer P offer cs P.start)
                  (receive_offer_fn P later fuel id (offer, cs) (borrows others m))))
        × (Stopped P handlers fuel inner (receive_offer P offer cs P.start) got
            ⊎ ((set : Described P) × (m : Peers P) × (got ≡ resolved (id, set) m)
                × FailsAt later fuel
                    (borrows others m)
                    (create_offer P P.start)
                    (create_offer_fn P later fuel id (borrows others m))))
  unfolding create_offer_fn receive_offer_fn
  crossing_offers_refused handlers later keeps fuel id inner fresh offer cs others o = (
    elim (enters_cases P handlers keeps fuel id inner fresh true _ (create_offer P)
        (create_offer-Follows P)) [
          | inl stopped ↦ inl stopped
          | inr (set, m, r, (c, there, _, _)) ↦ inr (
            set,
            m,
            r,
            enters_refused later fuel id (some c) (borrows others m)
                (borrows-Elsewhere others id m o ∙ there) false _ (receive_offer P offer cs)
                (receive_offer-Follows P offer cs),
          )
        ],
    elim (enters_cases P handlers keeps fuel id inner fresh false _ (receive_offer P offer cs)
        (receive_offer-Follows P offer cs)) [
          | inl stopped ↦ inl stopped
          | inr (set, m, r, (c, there, _, _)) ↦ inr (
            set,
            m,
            r,
            enters_refused later fuel id (some c) (borrows others m)
                (borrows-Elsewhere others id m o ∙ there) true _ (create_offer P)
                (create_offer-Follows P),
          )
        ],
  )
