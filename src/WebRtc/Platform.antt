-- ===== src/WebRtc/Platform.antt =====
-- What the two platforms have in common, as their users see it: the traits `DataChannelExt` and
-- `PeerConnectionExt` of lib.rs, and `build`, with what it and the methods ask of the implementation. A
-- session is the state of the connection that was built in it; a loop takes fuel.
use just_webrtc.Common.{ℕ, String, ◌≡◌, Bool, Option, List, [], ◌∷◌, map}
use just_webrtc.Common.Action.{Action}
use just_webrtc.WebRtc.Types.{IceCandidate, SessionDescription, PeerConnectionState}
use just_webrtc.WebRtc.Builder.{PeerConnectionBuilder}
use just_webrtc.WebRtc.Calls.{Follows}
use just_webrtc.WebRtc.Plan.{Request, accept, add_candidate, build_plan, offering}
use just_webrtc.WebRtc.Native.Connections.{Bytes}
use just_webrtc.WebRtc.Native.Link.{Progress, finished}

pub record DataChannelExt (Error Session Channel : Type 0) : Type 0 where
  pub wait_ready : ℕ → Channel → Progress (Unit {0}) Channel
  pub receive : Channel → Progress Bytes Channel
  pub send : Channel → Bytes → Action Error Session ℕ
  pub id : Channel → ℕ
  pub label : Channel → String

pub record PeerConnectionExt (Error Session Channel PeerConnection : Type 0) : Type 0 where
  pub state_change : Session → Option PeerConnectionState × Session
  pub receive_channel : Session → Progress Channel Session
  pub collect_ice_candidates : ℕ → Session → Progress (List IceCandidate) Session
  pub get_local_description : Session → Option SessionDescription
  pub add_ice_candidates : List IceCandidate → Action Error Session (Unit {0})
  pub set_remote_description : SessionDescription → Action Error Session (Unit {0})
  pub is_offerer : PeerConnection → Bool

pub record Platform : Type 1 where
  pub Error : Type 0
  pub Session : Type 0
  pub Channel : Type 0
  pub PeerConnection : Type 0
  pub start : Session
  pub channels : DataChannelExt Error Session Channel
  pub connections : PeerConnectionExt Error Session Channel PeerConnection
  pub build : PeerConnectionBuilder → Action Error Session PeerConnection
  -- What the implementation was asked for, and what it gets of a candidate.
  pub asked : Session → List Request
  pub sent : IceCandidate → IceCandidate
  pub asked-start : asked start ≡ []
  pub build-Follows :
      (b : PeerConnectionBuilder)
      → Follows asked (build b) (build_plan b) (λ c. connections.is_offerer c ≡ offering b)
  pub set_remote_description-Follows :
      (d : SessionDescription)
      → Follows asked (connections.set_remote_description d) (accept d ∷ []) (λ _. Unit {0})
  pub add_ice_candidates-Follows :
      (cs : List IceCandidate)
      → Follows asked
          (connections.add_ice_candidates cs)
          (map (λ c. add_candidate (sent c)) cs)
          (λ _. Unit {0})
  -- Awaiting the candidates asks for nothing.
  pub asked-collect :
      (fuel : ℕ) (s s' : Session) (cs : List IceCandidate)
      → connections.collect_ice_candidates fuel s ≡ finished cs s'
      → asked s' ≡ asked s
