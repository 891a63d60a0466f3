-- ===== src/Example/Negotiation.antt =====
-- `create_offer`, `receive_offer` and `receive_answer` of the example, on either platform. Each of the first two
-- is in two parts, before and after it awaits the end of the gathering of candidates.
use just_webrtc.Common.{ℕ, String, none, some, List, [], ◌∷◌}
use just_webrtc.Common.Action.{Result, ok, err, ret, fail, panic, Action, ◌>>=◌, ◌>>◌, pure, throw}
use just_webrtc.WebRtc.Types.{IceCandidate, SessionDescription, default_options}
use just_webrtc.WebRtc.Builder as Builder
use just_webrtc.WebRtc.Builder.{
  PeerConnectionBuilder, PeerConnectionBuilderError, with_remote_offer, with_channel_options,
}
use just_webrtc.WebRtc.Native.Link.{Progress, finished, waiting, recv_error, out_of_fuel}
use just_webrtc.WebRtc.Platform.{Platform}

-- What an `anyhow::Error` of these functions comes from. The errors of the web platform are taken together
-- with its uncaught exceptions, which end these functions and their callers alike.
pub data Failure (Error : Type 0) : Type 0 where
  builder : PeerConnectionBuilderError → Failure Error
  platform : Error → Failure Error
  message : String → Failure Error

module _ (P : Platform) where
  abbrev pub Attempt : Type 0 → Type 0
  Attempt A = Action (Failure P.Error) P.Session A

  -- `?` on a result of the builder, and on one of the platform.
  abbrev pub configured :
      Result PeerConnectionBuilderError PeerConnectionBuilder → Attempt PeerConnectionBuilder
  configured (ok b) = pure b
  configured (err e) = throw (builder e)

  abbrev pub lift : {A : Type 0} → Action P.Error P.Session A → Attempt A
  lift m s = elim (m s).0 [
    | ret a ↦ (ret a, (m s).1)
    | fail e ↦ (fail (platform e), (m s).1)
    | panic ↦ (panic, (m s).1)
  ]

  abbrev pub described : String → Attempt SessionDescription
  described missing s = elim (P.connections.get_local_description s) [
    | none ↦ (fail (message missing), s)
    | some d ↦ (ret d, s)
  ]

  unfoldable pub create_offer : Attempt (SessionDescription × P.PeerConnection)
  unfolding with_channel_options Builder.new
  create_offer = do
    b ← configured (with_channel_options (("example_channel_", default_options) ∷ []) Builder.new)
    local_peer_connection ← lift (P.build b)
    offer ← described "could not get local description!"
    pure (offer, local_peer_connection)

  unfoldable pub receive_offer :
      SessionDescription → List IceCandidate → Attempt (SessionDescription × P.PeerConnection)
  unfolding with_remote_offer Builder.new
  receive_offer offer candidates = do
    b ← configured (with_remote_offer (some offer) Builder.new)
    remote_peer_connection ← lift (P.build b)
    lift (P.connections.add_ice_candidates candidates)
    answer ← described "could not get remote description!"
    pure (answer, remote_peer_connection)

  -- The second part of both: the description goes with all candidates.
  unfoldable pub with_candidates :
      ℕ
      → SessionDescription × P.PeerConnection
      → P.Session
      → Progress ((SessionDescription × List IceCandidate) × P.PeerConnection) P.Session
  with_candidates fuel (desc, connection) s = elim (P.connections.collect_ice_candidates fuel s) [
    | finished candidates s' ↦ finished ((desc, candidates), connection) s'
    | waiting ↦ waiting
    | recv_error ↦ recv_error
    | out_of_fuel ↦ out_of_fuel
  ]

  unfoldable pub receive_answer : SessionDescription → List IceCandidate → Attempt (Unit {0})
  receive_answer answer candidates = do
    lift (P.connections.set_remote_description answer)
    lift (P.connections.add_ice_candidates candidates)
