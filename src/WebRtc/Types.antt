-- ===== src/WebRtc/Types.antt =====
-- crates/just-webrtc/src/types.rs: the platform independent types. The integers are in the ranges
-- that the source gives them (`u8`, `u16`); no operation computes with them.
use just_webrtc.Common.{ℕ, String, Bool, List, [], Option, none}

pub record IceCandidate : Type 0 where
  pub candidate : String
  pub sdp_mid : Option String
  pub sdp_mline_index : Option ℕ
  pub username_fragment : Option String

pub data IceCredentialType : Type 0 where
  password oauth : IceCredentialType

pub record IceServer : Type 0 where
  pub urls : List String
  pub username : String
  pub credential : String
  pub credential_type : IceCredentialType

pub data IceTransportPolicy : Type 0 where
  all relay : IceTransportPolicy

pub data BundlePolicy : Type 0 where
  balanced max_compat max_bundle : BundlePolicy

pub data RtcpMuxPolicy : Type 0 where
  negotiate require : RtcpMuxPolicy

pub record PeerConfiguration : Type 0 where
  pub ice_servers : List IceServer
  pub ice_transport_policy : IceTransportPolicy
  pub bundle_policy : BundlePolicy
  pub rtcp_mux_policy : RtcpMuxPolicy
  pub peer_identity : String
  pub ice_candidate_pool_size : ℕ

pub data SdpType : Type 0 where
  offer pranswer answer rollback : SdpType

pub record SessionDescription : Type 0 where
  pub sdp_type : SdpType
  pub sdp : String

pub record DataChannelOptions : Type 0 where
  pub ordered : Option Bool
  pub max_packet_life_time : Option ℕ
  pub max_retransmits : Option ℕ
  pub protocol : Option String
  pub negotiated : Option ℕ

pub data DataChannelState : Type 0 where
  connecting open_state closing closed : DataChannelState

pub data PeerConnectionState : Type 0 where
  new connecting connected disconnected failed closed : PeerConnectionState

-- The derived `Default`s.
abbrev pub default_configuration : PeerConfiguration
default_configuration = record {
  ice_servers = [];
  ice_transport_policy = all;
  bundle_policy = balanced;
  rtcp_mux_policy = require;
  peer_identity = "";
  ice_candidate_pool_size = 0;
}

abbrev pub default_options : DataChannelOptions
default_options = record {
  ordered = none;
  max_packet_life_time = none;
  max_retransmits = none;
  protocol = none;
  negotiated = none;
}
