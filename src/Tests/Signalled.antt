-- ===== src/Tests/Signalled.antt =====
-- The example's negotiation and its callbacks on the two platforms.
use just_webrtc.Common.{◌≡◌, ◌⊎◌, refl, true, false, Option, none, List, [], ◌∷◌}
use just_webrtc.Common.Map.{lookup, insert}
use just_webrtc.WebRtc.Types.{IceCandidate, SessionDescription, offer, answer, default_options}
use just_webrtc.WebRtc.Plan.{accept, open_channel, make_answer, make_offer, set_local}
use just_webrtc.WebRtc.Platform.{Platform}
use just_webrtc.WebRtc.Native.Instance as NativeInstance
use just_webrtc.WebRtc.Native.Build as Native
use just_webrtc.WebRtc.Native.Methods as NativeMethods
use just_webrtc.WebRtc.Native.Link as NativeLink
use just_webrtc.WebRtc.Wasm.Instance as WebInstance
use just_webrtc.WebRtc.Wasm.Build as Web
use just_webrtc.WebRtc.Wasm.Methods as WebMethods
use just_webrtc.WebRtc.Wasm.Link as WebLink
use just_webrtc.WebRtc.Wasm.Planned as WebPlan
use just_webrtc.Example.Signalled.{candidates_of}
use just_webrtc.Example.Connections.{Borrow, created, taken, placed, borrow, borrows}
use just_webrtc.Example.Negotiation.{create_offer, receive_offer}
use just_webrtc.Example.Callbacks.{
  shared, failed, resolved, Connection, Peers, Described, create_offer_fn, receive_offer_fn,
  receive_answer_fn,
}
use just_webrtc.Example.Entering.{Stopped, FailsOwn, GetsConnection}
use just_webrtc.Example.Crossing.{FailsAt, crossing_offers_refused}
use just_webrtc.Example.Handover.{offerer_handed_over, answerer_handed_over}
use just_webrtc.Tests.Native.{rs, lists, options}
use just_webrtc.Tests.Builds.{conns, page, a_candidate}

abbrev native : Platform
native = NativeInstance.platform rs conns lists options

abbrev web : Platform
web = WebInstance.platform page lists options

abbrev an_offer : SessionDescription
an_offer = record { sdp_type = offer; sdp = "v=0" }

abbrev an_answer : SessionDescription
an_answer = record { sdp_type = answer; sdp = "v=0" }

abbrev candidates : List IceCandidate
candidates = a_candidate ∷ a_candidate ∷ []

-- The gathering of candidates ends at once.
abbrev gathers : native.Session → native.Session
gathers s = record s { candidate_rx = (lists (Option IceCandidate)).send none s.candidate_rx }

abbrev web_gathers : web.Session → web.Session
web_gathers s = record s { candidate_rx = (lists (Option IceCandidate)).send none s.candidate_rx }

web_keeps : (s : web.Session) → web.asked (web_gathers s) ≡ web.asked s
unfolding WebPlan.asked
web_keeps s = refl

abbrev another : Connection native
another = (record { is_offerer = true }, native.start)

abbrev others : List (Borrow (Connection native))
others = created 2 another ∷ taken 2 ∷ placed 2 another ∷ []

abbrev web_others : List (Borrow (Connection web))
web_others = taken 2 ∷ taken 3 ∷ []

offerer_handed_over_example :
    let r1 = create_offer_fn native gathers 1 1 [] in
    Stopped native gathers 1 [] (create_offer native native.start) r1
    ⊎ ((set : Described native) × (m1 : Peers native) × (r1 ≡ resolved (1, set) m1)
        × (let r2 =
              receive_answer_fn native
                (borrows others)
                1
                (an_answer, candidates)
                (borrows others m1) in
            FailsOwn native r2
            ⊎ ((m2 : Peers native) × (r2 ≡ resolved 1 m2)
                × GetsConnection native 1 true
                    (open_channel "example_channel_0" default_options
                      ∷ make_offer
                      ∷ set_local
                      ∷ accept an_answer
                      ∷ candidates_of native candidates)
                    (borrows [] m2))))
unfolding lookup
offerer_handed_over_example =
    offerer_handed_over native gathers (λ s. refl) 1 1 [] refl an_answer candidates others others []
      (refl, (refl, (refl, tt))) (refl, (refl, (refl, tt))) tt

answerer_handed_over_example :
    let r = receive_offer_fn web web_gathers 1 1 (an_offer, candidates) [] in
    Stopped web web_gathers 1 [] (receive_offer web an_offer candidates web.start) r
    ⊎ ((set : Described web) × (m : Peers web) × (r ≡ resolved (1, set) m)
        × GetsConnection web 1 false
            (accept an_offer ∷ make_answer ∷ set_local ∷ candidates_of web candidates)
            (borrows web_others m))
unfolding lookup
answerer_handed_over_example =
    answerer_handed_over web web_gathers web_keeps 1 1 [] refl an_offer candidates web_others
      (refl, (refl, tt))

crossing_offers_refused_example :
    let made = create_offer_fn native gathers 1 1 [] in
    let got = receive_offer_fn native gathers 1 1 (an_offer, candidates) [] in
    (Stopped native gathers 1 [] (create_offer native native.start) made
      ⊎ ((set : Described native) × (m : Peers native) × (made ≡ resolved (1, set) m)
          × FailsAt native gathers 1
              (borrows others m)
              (receive_offer native an_offer candidates native.start)
              (receive_offer_fn native gathers 1 1 (an_offer, candidates) (borrows others m))))
    × (Stopped native gathers 1 [] (receive_offer native an_offer candidates native.start) got
        ⊎ ((set : Described native) × (m : Peers native) × (got ≡ resolved (1, set) m)
            × FailsAt native gathers 1
                (borrows others m)
                (create_offer native native.start)
                (create_offer_fn native gathers 1 1 (borrows others m))))
unfolding lookup
crossing_offers_refused_example =
    crossing_offers_refused native gathers gathers (λ s. refl) 1 1 [] refl an_offer candidates
      others (refl, (refl, (refl, tt)))

-- Here the callbacks resolve, and of two crossing offers the second is refused.
offers_resolve :
    (set : Described native) × (m : Peers native) × (create_offer_fn native gathers 1 1 []
      ≡ resolved (1, set) m)
    × (after : Peers native) × (receive_offer_fn native gathers 1 1
          (an_offer, candidates)
          (borrows others m)
        ≡ failed (shared "pre-existing peer ID!") after)
unfolding create_offer_fn receive_offer_fn lookup borrows create_offer Native.build
    NativeMethods.get_local_description NativeLink.collect_ice_candidates Native.start receive_offer
    NativeMethods.add_ice_candidates borrow insert
offers_resolve = (_, _, refl, _, refl)

answer_resolves :
    (set : Described web) × (m : Peers web) × (receive_offer_fn web web_gathers 1 1
        (an_offer, candidates)
        []
      ≡ resolved (1, set) m)
unfolding receive_offer_fn lookup receive_offer Web.build WebMethods.add_ice_candidates
    WebMethods.get_local_description WebLink.collect_ice_candidates Web.start
answer_resolves = (_, _, refl)
