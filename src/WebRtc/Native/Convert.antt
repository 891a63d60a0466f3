-- ===== src/WebRtc/Native/Convert.antt =====
-- The `From` and `TryFrom` implementations of native.rs.
use just_webrtc.Common.{map}
use just_webrtc.Common.Action.{Result, ok}
use just_webrtc.WebRtc.Types.{
  IceCandidate, IceCredentialType, IceServer, IceTransportPolicy, BundlePolicy, RtcpMuxPolicy,
  PeerConfiguration, SdpType, SessionDescription, DataChannelOptions, PeerConnectionState,
}
use just_webrtc.WebRtc.Native.Foreign.{
  RtcSdpType, RtcPeerConnectionState, RtcIceCandidateInit, RtcDataChannelInit, RtcIceServer,
  WebRtcRs,
}

unfoldable pub data_channel_init : DataChannelOptions → RtcDataChannelInit
data_channel_init value = record {
  protocol = value.protocol;
  ordered = value.ordered;
  max_packet_life_time = value.max_packet_life_time;
  max_retransmits = value.max_retransmits;
  negotiated = value.negotiated;
}

unfoldable pub rtc_sdp_type : SdpType → RtcSdpType
rtc_sdp_type SdpType.answer = RtcSdpType.answer
rtc_sdp_type SdpType.offer = RtcSdpType.offer
rtc_sdp_type SdpType.pranswer = RtcSdpType.pranswer
rtc_sdp_type SdpType.rollback = RtcSdpType.rollback

unfoldable pub sdp_type_of : RtcSdpType → SdpType
sdp_type_of RtcSdpType.answer = SdpType.answer
sdp_type_of RtcSdpType.offer = SdpType.offer
sdp_type_of RtcSdpType.pranswer = SdpType.pranswer
sdp_type_of RtcSdpType.rollback = SdpType.rollback
sdp_type_of RtcSdpType.unspecified = SdpType.answer

unfoldable pub connection_state_of : RtcPeerConnectionState → PeerConnectionState
connection_state_of RtcPeerConnectionState.closed = PeerConnectionState.closed
connection_state_of RtcPeerConnectionState.connected = PeerConnectionState.connected
connection_state_of RtcPeerConnectionState.connecting = PeerConnectionState.connecting
connection_state_of RtcPeerConnectionState.disconnected = PeerConnectionState.disconnected
connection_state_of RtcPeerConnectionState.failed = PeerConnectionState.failed
connection_state_of RtcPeerConnectionState.new = PeerConnectionState.new
connection_state_of RtcPeerConnectionState.unspecified = PeerConnectionState.new

unfoldable pub candidate_of_init : RtcIceCandidateInit → IceCandidate
candidate_of_init value = record {
  candidate = value.candidate;
  sdp_mid = value.sdp_mid;
  sdp_mline_index = value.sdp_mline_index;
  username_fragment = value.username_fragment;
}

unfoldable pub init_of_candidate : IceCandidate → RtcIceCandidateInit
init_of_candidate value = record {
  candidate = value.candidate;
  sdp_mid = value.sdp_mid;
  sdp_mline_index = value.sdp_mline_index;
  username_fragment = value.username_fragment;
}

module _ (R : WebRtcRs) where
  unfoldable pub rtc_description : SessionDescription → Result R.Error R.SessionDescription
  unfolding rtc_sdp_type
  rtc_description value = elim value.sdp_type [
    | SdpType.answer ↦ R.answer_description value.sdp
    | SdpType.offer ↦ R.offer_description value.sdp
    | SdpType.pranswer ↦ R.pranswer_description value.sdp
    | SdpType.rollback ↦ ok (R.default_with value.sdp (rtc_sdp_type value.sdp_type))
  ]

  unfoldable pub description_of : R.SessionDescription → SessionDescription
  unfolding sdp_type_of
  description_of value = record { sdp = R.sdp value; sdp_type = sdp_type_of (R.sdp_type value) }

  unfoldable pub rtc_bundle_policy : BundlePolicy → R.BundlePolicy
  rtc_bundle_policy BundlePolicy.balanced = R.balanced
  rtc_bundle_policy BundlePolicy.max_bundle = R.max_bundle
  rtc_bundle_policy BundlePolicy.max_compat = R.max_compat

  unfoldable pub rtc_transport_policy : IceTransportPolicy → R.IceTransportPolicy
  rtc_transport_policy IceTransportPolicy.all = R.all
  rtc_transport_policy IceTransportPolicy.relay = R.relay

  unfoldable pub rtc_mux_policy : RtcpMuxPolicy → R.RtcpMuxPolicy
  rtc_mux_policy RtcpMuxPolicy.negotiate = R.negotiate
  rtc_mux_policy RtcpMuxPolicy.require = R.require

  unfoldable pub rtc_credential_type : IceCredentialType → R.IceCredentialType
  rtc_credential_type IceCredentialType.oauth = R.oauth
  rtc_credential_type IceCredentialType.password = R.password

  unfoldable pub rtc_ice_server : IceServer → RtcIceServer R.IceCredentialType
  unfolding rtc_credential_type
  rtc_ice_server value = record {
    credential = value.credential;
    credential_type = rtc_credential_type value.credential_type;
    urls = value.urls;
    username = value.username;
  }

  unfoldable pub rtc_configuration : PeerConfiguration → R.Configuration
  unfolding rtc_bundle_policy rtc_transport_policy rtc_mux_policy rtc_ice_server
  rtc_configuration value =
      R.configuration value.ice_candidate_pool_size value.peer_identity
        (rtc_bundle_policy value.bundle_policy) (rtc_transport_policy value.ice_transport_policy)
        (rtc_mux_policy value.rtcp_mux_policy) (map rtc_ice_server value.ice_servers)
