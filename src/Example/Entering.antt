-- ===== src/Example/Entering.antt =====
-- What each callback of `run_peer` does with its connection in the map.
use just_webrtc.Common.{
  ℕ, ◌≡◌, refl, sym, ap, ◌∙◌, inl, inr, ◌⊎◌, Bool, none, some, List, ◌∷◌, ◌++◌, arith,
}
use mathlib.Core.List.{append-nil}
use just_webrtc.Common.Map.{lookup}
use just_webrtc.Common.Action.{Outcome, ret, fail, Action}
use just_webrtc.WebRtc.Types.{IceCandidate, SessionDescription}
use just_webrtc.WebRtc.Calls.{Ends, Follows}
use just_webrtc.WebRtc.Plan.{Request, accept}
use just_webrtc.WebRtc.Native.Link.{Progress-cases, finished, waiting, recv_error, out_of_fuel}
use just_webrtc.WebRtc.Platform.{Platform}
use just_webrtc.Example.Connections.{Borrow, insert, take, place, borrows}
use just_webrtc.Example.Negotiation.{Failure, with_candidates, receive_answer}
use just_webrtc.Example.Slots.{inserted, took, placed_back, borrows-Elsewhere, Elsewhere}
use just_webrtc.Example.Signalled.{Offers, candidates_of, receive_answer-Follows}
use just_webrtc.Example.Callbacks.{
  negotiation, candidates, resolved, failed, pending, Connection, Peers, Callback, Described,
  enters, receive_answer_fn, sig_cplt_fn,
}

module _ (P : Platform) where
  abbrev pub Outcomes : Type 0
  Outcomes = Outcome (Failure P.Error) (SessionDescription × P.PeerConnection) × P.Session

  -- A callback that makes a connection does not resolve: it fails if the negotiation does, or the channel of
  -- the candidates, and waits just as long as their collection waits.
  abbrev pub Stopped :
      (P.Session → P.Session) → ℕ → Peers P → Outcomes → Callback P (ℕ × Described P) → Type 0
  Stopped handlers fuel inner made r =
      let collected = P.connections.collect_ice_candidates fuel (handlers made.1) in
      ((e : Failure P.Error) × (made.0 ≡ fail e) × (r ≡ failed (negotiation e) inner))
      ⊎ (((collected ≡ recv_error) × (r ≡ failed candidates inner))
          ⊎ (((collected ≡ waiting) ⊎ (collected ≡ out_of_fuel)) × (r ≡ pending)))

  -- A callback fails with an error of its connection.
  abbrev pub FailsOwn : {A : Type 0} → Callback P A → Type 0
  FailsOwn r = (e : Failure P.Error) × (m : Peers P) × (r ≡ failed (negotiation e) m)

  -- A connection is what has been entered under an id.
  abbrev pub Keeps : ℕ → Bool → List Request → Peers P → Type 0
  Keeps id offers plan m =
      (c : Connection P) × (lookup id m ≡ some (some c))
      × (P.connections.is_offerer c.0 ≡ offers)
      × (P.asked c.1 ≡ plan)

  module _ (handlers : P.Session → P.Session)
      (keeps : (s : P.Session) → P.asked (handlers s) ≡ P.asked s) (fuel id : ℕ) (inner : Peers P)
      (fresh : lookup id inner ≡ none) where
    enters_resolved :
        (d : SessionDescription) (c : P.PeerConnection)
        (made : Outcome (Failure P.Error) (SessionDescription × P.PeerConnection) × P.Session)
        (cs : List IceCandidate) (s : P.Session)
        → made.0 ≡ ret (d, c)
        → P.connections.collect_ice_candidates fuel (handlers made.1) ≡ finished cs s
        → enters P handlers fuel id made inner ≡ resolved (id, (d, cs)) (insert id (c, s) inner).1
    unfolding enters with_candidates
    enters_resolved d c made cs s e collected =
        ground (arith, e, collected, inserted id (c, s) inner fresh)

    enters_made :
        (d : SessionDescription) (c : P.PeerConnection)
        (made : Outcome (Failure P.Error) (SessionDescription × P.PeerConnection) × P.Session)
        → made.0 ≡ ret (d, c)
        → let r = enters P handlers fuel id made inner in
          Stopped handlers fuel inner made r
          ⊎ ((set : Described P) × (m : Peers P) × (r ≡ resolved (id, set) m)
              × Keeps id (P.connections.is_offerer c) (P.asked made.1) m)
    unfolding enters with_candidates
    enters_made d c made e =
        elim (Progress-cases (P.connections.collect_ice_candidates fuel (handlers made.1))) [
          | inl (cs, s, r) ↦ inr (
            (d, cs),
            (insert id (c, s) inner).1,
            enters_resolved d c made cs s e r,
            (
              (c, s),
              (inserted id (c, s) inner fresh).1,
              refl,
              P.asked-collect fuel (handlers made.1) s cs r ∙ keeps made.1,
            ),
          )
          | inr (inl r) ↦ inl (inr (inr (inl r, ground (arith, e, r))))
          | inr (inr (inl r)) ↦ inl (inr (inl (r, ground (arith, e, r))))
          | inr (inr (inr r)) ↦ inl (inr (inr (inr r, ground (arith, e, r))))
        ]

    pub enters_cases :
        (offers : Bool) (plan : List Request)
        (m : Action (Failure P.Error) P.Session (SessionDescription × P.PeerConnection))
        → Follows P.asked m plan (Offers P offers)
        → let r = enters P handlers fuel id (m P.start) inner in
          Stopped handlers fuel inner (m P.start) r
          ⊎ ((set : Described P) × (m1 : Peers P) × (r ≡ resolved (id, set) m1)
              × Keeps id offers plan m1)
    unfolding Follows Ends enters
    enters_cases offers plan m follows =
        let (done, rest, whole, seen, ends) = follows P.start in
        elim ends [
          | inr (e, f) ↦ inl (inl (e, f, ground (arith, f)))
          | inl ((d, c), f, is, all) ↦ elim (enters_made d c (m P.start) f) [
            | inl stopped ↦ inl stopped
            | inr (set, m1, r, (c', there, offering, asks)) ↦ inr (
              set,
              m1,
              r,
              (
                c',
                there,
                offering ∙ is,
                asks
                    ∙ seen
                    ∙ ap (λ l. l ++ done) P.asked-start
                    ∙ sym (append-nil done)
                    ∙ ap (λ l. done ++ l) (sym all)
                    ∙ whole,
              ),
            )
          ]
        ]

  pub entered_still :
      (others : List (Borrow (Connection P))) (id : ℕ) (offers : Bool) (plan : List Request)
      (inner : Peers P)
      → Elsewhere id others
      → Keeps id offers plan inner
      → Keeps id offers plan (borrows others inner)
  entered_still others id offers plan inner elsewhere (c, there, offering, asks) =
      (c, borrows-Elsewhere others id inner elsewhere ∙ there, offering, asks)

  -- What a callback does to a connection that is entered, whatever the callbacks of other peers do while it
  -- awaits.
  pub answered_cases :
      (others : List (Borrow (Connection P))) (id : ℕ) (answer : SessionDescription)
      (cs : List IceCandidate) (offers : Bool) (plan : List Request) (inner : Peers P)
      → Elsewhere id others
      → Keeps id offers plan inner
      → let r = receive_answer_fn P (borrows others) id (answer, cs) inner in
        FailsOwn r
        ⊎ ((m : Peers P) × (r ≡ resolved id m)
            × Keeps id offers (plan ++ accept answer ∷ candidates_of P cs) m)
  unfolding Follows Ends receive_answer_fn
  answered_cases others id answer cs offers plan inner elsewhere ((c, s), there, offering, asks) =
      let (done, rest, whole, seen, ends) = receive_answer-Follows P answer cs s in
      let (got, left) = took id (c, s) inner there in
      let later = borrows others (take id inner).1 in
      let s' = (receive_answer P answer cs s).1 in
      let (put, stored) =
        placed_back id (c, s') later
          (borrows-Elsewhere others id (take id inner).1 elsewhere ∙ left) in
      elim ends [
        | inr (e, f) ↦ inl (e, later, ground (arith, got, f))
        | inl (u, f, _, all) ↦ inr (
          (place id (c, s') later).1,
          ground (arith, got, f, put),
          (
            (c, s'),
            stored,
            offering,
            seen
                ∙ ap (λ l. l ++ done) asks
                ∙ ap (λ l. plan ++ l)
                    (sym (append-nil done) ∙ ap (λ l. done ++ l) (sym all) ∙ whole),
          ),
        )
      ]

  -- The connection that `peer_echo_task` gets.
  abbrev pub GetsConnection : ℕ → Bool → List Request → Peers P → Type 0
  GetsConnection id offers plan inner =
      (c : Connection P) × ((sig_cplt_fn P id inner).0 ≡ ret c)
      × (P.connections.is_offerer c.0 ≡ offers)
      × (P.asked c.1 ≡ plan)
      × (lookup id (sig_cplt_fn P id inner).1 ≡ some none)

  pub handed_over :
      (others : List (Borrow (Connection P))) (id : ℕ) (offers : Bool) (plan : List Request)
      (inner : Peers P)
      → Elsewhere id others
      → Keeps id offers plan inner
      → GetsConnection id offers plan (borrows others inner)
  unfolding sig_cplt_fn
  handed_over others id offers plan inner elsewhere (c, there, offering, asks) =
      let (got, left) =
        took id c (borrows others inner) (borrows-Elsewhere others id inner elsewhere ∙ there) in
      (c, got, offering, asks, left)
