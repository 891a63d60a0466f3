-- ===== src/WebRtc/Wasm/Convert.antt =====
-- The `From` implementations of wasm.rs, and the dictionaries that it fills in.
use just_webrtc.Common.{ℕ, ◌%◌, true, none, some}
use just_webrtc.WebRtc.Types.{
  IceCandidate, IceTransportPolicy, BundlePolicy, PeerConfiguration, SdpType, SessionDescription,
  DataChannelOptions, PeerConnectionState,
}
use just_webrtc.WebRtc.Wasm.Foreign.{
  RtcSdpType, RtcPeerConnectionState, RtcBundlePolicy, RtcIceTransportPolicy, RtcConfiguration,
  RtcSessionDescriptionInit, RtcIceCandidateInit, RtcDataChannelInit,
}

unfoldable pub connection_state_of : RtcPeerConnectionState → PeerConnectionState
connection_state_of RtcPeerConnectionState.closed = PeerConnectionState.closed
connection_state_of RtcPeerConnectionState.connected = PeerConnectionState.connected
connection_state_of RtcPeerConnectionState.connecting = PeerConnectionState.connecting
connection_state_of RtcPeerConnectionState.disconnected = PeerConnectionState.disconnected
connection_state_of RtcPeerConnectionState.failed = PeerConnectionState.failed
connection_state_of RtcPeerConnectionState.new = PeerConnectionState.new
connection_state_of RtcPeerConnectionState.unknown = PeerConnectionState.new

unfoldable pub rtc_bundle_policy : BundlePolicy → RtcBundlePolicy
rtc_bundle_policy BundlePolicy.balanced = RtcBundlePolicy.balanced
rtc_bundle_policy BundlePolicy.max_bundle = RtcBundlePolicy.max_bundle
rtc_bundle_policy BundlePolicy.max_compat = RtcBundlePolicy.max_compat

unfoldable pub rtc_transport_policy : IceTransportPolicy → RtcIceTransportPolicy
rtc_transport_policy IceTransportPolicy.all = RtcIceTransportPolicy.all
rtc_transport_policy IceTransportPolicy.relay = RtcIceTransportPolicy.relay

unfoldable pub rtc_sdp_type : SdpType → RtcSdpType
rtc_sdp_type SdpType.answer = RtcSdpType.answer
rtc_sdp_type SdpType.offer = RtcSdpType.offer
rtc_sdp_type SdpType.pranswer = RtcSdpType.pranswer
rtc_sdp_type SdpType.rollback = RtcSdpType.rollback

unfoldable pub sdp_type_of : RtcSdpType → SdpType
sdp_type_of RtcSdpType.answer = SdpType.answer
sdp_type_of RtcSdpType.offer = SdpType.offer
sdp_type_of RtcSdpType.pranswer = SdpType.pranswer
sdp_type_of RtcSdpType.rollback = SdpType.rollback
sdp_type_of RtcSdpType.unknown = SdpType.answer

unfoldable pub description_init : SessionDescription → RtcSessionDescriptionInit
unfolding rtc_sdp_type
description_init desc = record { type_ = rtc_sdp_type desc.sdp_type; sdp = desc.sdp }

unfoldable pub description_of : RtcSessionDescriptionInit → SessionDescription
unfolding sdp_type_of
description_of js_desc = record { sdp = js_desc.sdp; sdp_type = sdp_type_of js_desc.type_ }

unfoldable pub candidate_init : IceCandidate → RtcIceCandidateInit
candidate_init candidate = record {
  candidate = candidate.candidate;
  sdp_m_line_index = candidate.sdp_mline_index;
  sdp_mid = candidate.sdp_mid;
}

-- A channel that is not negotiated gets `index as u16`.
unfoldable pub channel_id : ℕ → DataChannelOptions → ℕ
channel_id index channel_options = elim channel_options.negotiated [
  | some id ↦ id
  | none ↦ index % 65536
]

unfoldable pub data_channel_dict : ℕ → DataChannelOptions → RtcDataChannelInit
unfolding channel_id
data_channel_dict index channel_options = record {
  ordered = channel_options.ordered;
  max_packet_life_time = channel_options.max_packet_life_time;
  max_retransmits = channel_options.max_retransmits;
  protocol = channel_options.protocol;
  negotiated = elim channel_options.negotiated [ some id ↦ some true | none ↦ none ];
  id = some (channel_id index channel_options);
}

unfoldable pub rtc_configuration :
    {JsValue : Type 0} → JsValue → PeerConfiguration → RtcConfiguration JsValue
unfolding rtc_bundle_policy rtc_transport_policy
rtc_configuration ice_servers config = record {
  bundle_policy = rtc_bundle_policy config.bundle_policy;
  ice_servers = ice_servers;
  ice_transport_policy = rtc_transport_policy config.ice_transport_policy;
  peer_identity = some config.peer_identity;
}
