-- ===== src/WebRtc/Native/Foreign.antt =====
-- What native.rs uses of other crates: types and constructors of webrtc-rs, an unbounded channel
-- (`flume`) and a cell that is awaited (`async_cell`), with the laws that their documentation gives.
use just_webrtc.Common.{
  ℕ, String, ◌≡◌, refl, inl, inr, ◌⊎◌, Bool, true, false, Option, none, some, List, [], ◌∷◌, ◌++◌,
}
use just_webrtc.Common.Action.{Result, ok}

-- `RTCSdpType` and `RTCPeerConnectionState`, whose variants the source matches one by one.
pub data RtcSdpType : Type 0 where
  answer offer pranswer rollback unspecified : RtcSdpType

pub data RtcPeerConnectionState : Type 0 where
  closed connected connecting disconnected failed new unspecified : RtcPeerConnectionState

-- `RTCIceCandidateInit` and `RTCDataChannelInit`, whose fields the source writes out.
pub record RtcIceCandidateInit : Type 0 where
  pub candidate : String
  pub sdp_mid : Option String
  pub sdp_mline_index : Option ℕ
  pub username_fragment : Option String

pub record RtcDataChannelInit : Type 0 where
  pub protocol : Option String
  pub ordered : Option Bool
  pub max_packet_life_time : Option ℕ
  pub max_retransmits : Option ℕ
  pub negotiated : Option ℕ

-- `RTCIceServer`, over its type of credentials.
pub record RtcIceServer (Credential : Type 0) : Type 0 where
  pub credential : String
  pub credential_type : Credential
  pub urls : List String
  pub username : String

pub record WebRtcRs : Type 1 where
  pub Error : Type 0
  -- The policies, and `RTCConfiguration` with the fields that the source sets; the rest are defaults.
  pub BundlePolicy : Type 0
  pub balanced : BundlePolicy
  pub max_bundle : BundlePolicy
  pub max_compat : BundlePolicy
  pub IceTransportPolicy : Type 0
  pub all : IceTransportPolicy
  pub relay : IceTransportPolicy
  pub RtcpMuxPolicy : Type 0
  pub negotiate : RtcpMuxPolicy
  pub require : RtcpMuxPolicy
  pub IceCredentialType : Type 0
  pub oauth : IceCredentialType
  pub password : IceCredentialType
  pub Configuration : Type 0
  pub configuration :
      ℕ
      → String
      → BundlePolicy
      → IceTransportPolicy
      → RtcpMuxPolicy
      → List (RtcIceServer IceCredentialType)
      → Configuration
  -- `RTCSessionDescription`. Its constructors parse the text, and keep it.
  pub SessionDescription : Type 0
  pub sdp : SessionDescription → String
  pub sdp_type : SessionDescription → RtcSdpType
  pub answer_description : String → Result Error SessionDescription
  pub offer_description : String → Result Error SessionDescription
  pub pranswer_description : String → Result Error SessionDescription
  pub default_with : String → RtcSdpType → SessionDescription
  pub answer_description_keeps :
      (s : String) (d : SessionDescription)
      → answer_description s ≡ ok d
      → (sdp d ≡ s) × (sdp_type d ≡ RtcSdpType.answer)
  pub offer_description_keeps :
      (s : String) (d : SessionDescription)
      → offer_description s ≡ ok d
      → (sdp d ≡ s) × (sdp_type d ≡ RtcSdpType.offer)
  pub pranswer_description_keeps :
      (s : String) (d : SessionDescription)
      → pranswer_description s ≡ ok d
      → (sdp d ≡ s) × (sdp_type d ≡ RtcSdpType.pranswer)
  pub default_with_keeps :
      (s : String) (t : RtcSdpType)
      → (sdp (default_with s t) ≡ s) × (sdp_type (default_with s t) ≡ t)
  -- A gathered candidate, and its serialization.
  pub IceCandidate : Type 0
  pub to_json : IceCandidate → Result Error RtcIceCandidateInit

-- What `recv_async` finds: a message, nothing yet, or no sender any more.
pub data Found (M : Type 0) : Type 0 where
  found : M → Found M
  nothing : Found M
  hung_up : Found M

pub Found-cases :
    {M : Type 0} (r : Found M) → ((m : M) × (r ≡ found m)) ⊎ ((r ≡ nothing) ⊎ (r ≡ hung_up))
Found-cases (found m) = inl (m, refl)
Found-cases nothing = inr (inl refl)
Found-cases hung_up = inr (inr refl)

pub record Unbounded (M : Type 0) : Type 1 where
  pub Chan : Type 0
  pub unbounded : Chan
  pub send : M → Chan → Chan
  pub recv : Chan → Found M × Chan
  pub drop_sender : Chan → Chan
  pub queue : Chan → List M
  pub has_sender : Chan → Bool
  pub queue-unbounded : queue unbounded ≡ []
  pub has_sender-unbounded : has_sender unbounded ≡ true
  pub queue-send : (m : M) (c : Chan) → queue (send m c) ≡ queue c ++ m ∷ []
  pub has_sender-send : (m : M) (c : Chan) → has_sender (send m c) ≡ has_sender c
  pub recv-cons :
      (m : M) (ms : List M) (c : Chan)
      → queue c ≡ m ∷ ms
      → ((recv c).0 ≡ found m) × (queue (recv c).1 ≡ ms) × (has_sender (recv c).1 ≡ has_sender c)
  pub queue-drop_sender : (c : Chan) → queue (drop_sender c) ≡ queue c
  pub has_sender-drop_sender : (c : Chan) → has_sender (drop_sender c) ≡ false
  pub recv-hung_up : (c : Chan) → queue c ≡ [] → has_sender c ≡ false → (recv c).0 ≡ hung_up
  pub recv-nil : (c : Chan) → queue c ≡ [] → has_sender c ≡ true → recv c ≡ (nothing, c)

-- A cell holds the last value that was set and not yet taken.
pub record AsyncCell (A : Type 0) : Type 1 where
  pub Cell : Type 0
  pub empty : Cell
  pub set : A → Cell → Cell
  pub take : Cell → Option A × Cell
  pub take-empty : take empty ≡ (none, empty)
  pub take-set : (a : A) (c : Cell) → take (set a c) ≡ (some a, empty)
