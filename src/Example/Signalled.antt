-- ===== src/Example/Signalled.antt =====
-- What the example asks of either platform.
use just_webrtc.Common.{
  String, ◌≡◌, refl, sym, ap, subst, ◌∙◌, inl, inr, ◌⊎◌, Bool, true, false, Option-cases, List, [],
  ◌∷◌, ◌++◌, map, arith,
}
use mathlib.Core.List.{append-nil}
use just_webrtc.Common.Action.{ret, fail, Action, ◌>>=◌}
use just_webrtc.Common.Decimal.{numbered}
use just_webrtc.WebRtc.Types.{IceCandidate, SessionDescription, default_options}
use just_webrtc.WebRtc.Builder as Builder
use just_webrtc.WebRtc.Builder.{PeerConnectionBuilder, with_remote_offer, with_channel_options}
use just_webrtc.WebRtc.Calls.{Ends, Follows, Follows-bind, Follows-pure, Follows-one}
use just_webrtc.WebRtc.Plan.{
  Request, accept, add_candidate, open_channel, make_answer, make_offer, set_local,
  channel_requests, build_plan, offering,
}
use just_webrtc.WebRtc.Platform.{Platform}
use just_webrtc.Example.Negotiation.{
  Failure, message, platform, lift, described, create_offer, receive_offer, receive_answer,
}

module _ (P : Platform) where
  lift_ret :
      {A : Type 0} (m : Action P.Error P.Session A) (s : P.Session) (a : A)
      → (m s).0 ≡ ret a
      → lift P m s ≡ (ret a, (m s).1)
  lift_ret m s a e = ground arith

  lift_fail :
      {A : Type 0} (m : Action P.Error P.Session A) (s : P.Session) (e : P.Error)
      → (m s).0 ≡ fail e
      → lift P m s ≡ (fail (platform e), (m s).1)
  lift_fail m s e failed = ground arith

  lift-Follows :
      {A : Type 0} (Q : A → Type 0) (m : Action P.Error P.Session A) (plan : List Request)
      → Follows P.asked m plan Q
      → Follows P.asked (lift P m) plan Q
  unfolding Follows Ends
  lift-Follows Q m plan follows s =
      let (done, rest, whole, seen, ends) = follows s in
      elim ends [
        | inl (a, e, q, all) ↦
            rw (lift_ret m s a e) (done, rest, whole, seen, inl (a, refl, q, all))
        | inr (e, failed) ↦
            rw (lift_fail m s e failed) (done, rest, whole, seen, inr (platform e, refl))
      ]

  described-Follows : (missing : String) → Follows P.asked (described P missing) [] (λ _. Unit {0})
  unfolding Ends
  described-Follows missing =
      Follows-one P.asked (λ _. Unit {0}) _ []
        (λ s. elim (Option-cases (P.connections.get_local_description s)) [
          | inl e ↦ rw (e, described) (sym (append-nil (P.asked s)), inr (message missing, refl))
          | inr (d, e) ↦ rw (e, described) (sym (append-nil (P.asked s)), inl (d, refl, tt, refl))
        ])

  abbrev pub Made : Type 0
  Made = SessionDescription × P.PeerConnection

  abbrev pub Offers : Bool → Made → Type 0
  Offers b made = P.connections.is_offerer made.1 ≡ b

  build-Follows :
      (b : PeerConnectionBuilder) (offers : Bool) (plan : List Request)
      → build_plan b ≡ plan
      → offering b ≡ offers
      → Follows P.asked (lift P (P.build b)) plan (λ c. P.connections.is_offerer c ≡ offers)
  build-Follows b offers plan e is =
      lift-Follows (λ c. P.connections.is_offerer c ≡ offers) (P.build b) plan
        (subst (λ o. Follows P.asked (P.build b) plan (λ c. P.connections.is_offerer c ≡ o)) is
          (subst (λ l. Follows P.asked (P.build b) l (λ c. P.connections.is_offerer c ≡ offering b))
            e (P.build-Follows b)))

  pub create_offer-Follows :
      Follows P.asked
        (create_offer P)
        (open_channel "example_channel_0" default_options ∷ make_offer ∷ set_local ∷ [])
        (Offers true)
  unfolding create_offer with_channel_options Builder.new build_plan channel_requests offering
      numbered
  create_offer-Follows =
      Follows-bind P.asked (λ c. P.connections.is_offerer c ≡ true) (Offers true) _ _ _ []
        (build-Follows _ true _ refl refl)
        (λ c is.
          Follows-bind P.asked (λ _. Unit {0}) (Offers true) _ _ [] []
            (described-Follows "could not get local description!")
            (λ d _. Follows-pure P.asked (Failure P.Error) (Offers true) (d, c) is))

  abbrev pub candidates_of : List IceCandidate → List Request
  candidates_of cs = map (λ c. add_candidate (P.sent c)) cs

  pub receive_offer-Follows :
      (offer : SessionDescription) (cs : List IceCandidate)
      → Follows P.asked
          (receive_offer P offer cs)
          ((accept offer ∷ make_answer ∷ set_local ∷ []) ++ (candidates_of cs ++ []))
          (Offers false)
  unfolding receive_offer with_remote_offer Builder.new build_plan offering
  receive_offer-Follows offer cs =
      Follows-bind P.asked (λ c. P.connections.is_offerer c ≡ false) (Offers false) _ _ _ _
        (build-Follows _ false _ refl refl)
        (λ c is.
          Follows-bind P.asked (λ _. Unit {0}) (Offers false) _ _ _ _
            (lift-Follows (λ _. Unit {0}) (P.connections.add_ice_candidates cs) _
              (P.add_ice_candidates-Follows cs))
            (λ _ _.
              Follows-bind P.asked (λ _. Unit {0}) (Offers false) _ _ [] []
                (described-Follows "could not get remote description!")
                (λ d _. Follows-pure P.asked (Failure P.Error) (Offers false) (d, c) is)))

  pub receive_answer-Follows :
      (answer : SessionDescription) (cs : List IceCandidate)
      → Follows P.asked
          (receive_answer P answer cs)
          (accept answer ∷ candidates_of cs)
          (λ _. Unit {0})
  unfolding receive_answer
  receive_answer-Follows answer cs =
      Follows-bind P.asked (λ _. Unit {0}) (λ _. Unit {0}) _ _ (accept answer ∷ []) _
        (lift-Follows (λ _. Unit {0}) (P.connections.set_remote_description answer) _
          (P.set_remote_description-Follows answer))
        (λ _ _.
          lift-Follows (λ _. Unit {0}) (P.connections.add_ice_candidates cs) _
            (P.add_ice_candidates-Follows cs))

  -- On either platform, `receive_offer` asks, from a new session, for a beginning of this: to accept the
  -- offer, to answer, to set the local description, and then to add the candidates that came with the
  -- offer, in their order; for all of it if it succeeds, and then the connection is no offerer's. It does not
  -- panic.
  receive_offer_asks :
      (offer : SessionDescription) (cs : List IceCandidate)
      → let (out, s) = receive_offer P offer cs P.start in
        (done : List Request) × (rest : List Request) × (done ++ rest
          ≡ accept offer ∷ make_answer ∷ set_local ∷ candidates_of cs)
        × (P.asked s ≡ done)
        × (((made : Made) × (out ≡ ret made)
              × (rest ≡ [])
              × (P.connections.is_offerer made.1 ≡ false))
            ⊎ ((e : Failure P.Error) × (out ≡ fail e)))
  unfolding Follows Ends
  receive_offer_asks offer cs =
      let (done, rest, whole, seen, ends) = receive_offer-Follows offer cs P.start in
      (
        done,
        rest,
        whole
            ∙ ap (λ l. accept offer ∷ make_answer ∷ set_local ∷ l) (append-nil (candidates_of cs)),
        seen ∙ ap (λ l. l ++ done) P.asked-start,
        elim ends [ inl (made, e, is, all) ↦ inl (made, e, all, is) | inr failed ↦ inr failed ],
      )

  -- On either platform, `create_offer`, from a new session, and then `receive_answer` ask for a beginning
  -- of this: to open the example's one channel, to offer, to set the local description; then to
  -- accept the answer and only then to add the candidates that came with it, in their order. If both
  -- succeed, they asked for all of it. Neither panics.
  offer_and_answer_ask :
      (answer : SessionDescription) (cs : List IceCandidate)
      → let (out, s) = (create_offer P >>= λ _. receive_answer P answer cs) P.start in
        (done : List Request) × (rest : List Request) × (done ++ rest
          ≡ open_channel "example_channel_0" default_options
            ∷ make_offer
            ∷ set_local
            ∷ accept answer
            ∷ candidates_of cs)
        × (P.asked s ≡ done)
        × (((out ≡ ret tt) × (rest ≡ [])) ⊎ ((e : Failure P.Error) × (out ≡ fail e)))
  unfolding Follows Ends
  offer_and_answer_ask answer cs =
      let (done, rest, whole, seen, ends) =
        Follows-bind P.asked (Offers true) (λ _. Unit {0}) (create_offer P)
          (λ _. receive_answer P answer cs) _ _ create_offer-Follows
          (λ _ _. receive_answer-Follows answer cs) P.start in
      (
        done,
        rest,
        whole,
        seen ∙ ap (λ l. l ++ done) P.asked-start,
        elim ends [ inl (_, e, _, all) ↦ inl (e, all) | inr failed ↦ inr failed ],
      )
