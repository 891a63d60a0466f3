-- ===== src/WebRtc/Wasm/Foreign.antt =====
-- What wasm.rs uses of the browser's WebRTC (`web_sys`, `js_sys`): types, and the calls of a
-- connection. What a call answers is a function of its arguments and of the calls before it.
use just_webrtc.Common.{ℕ, String, ◌≡◌, Bool, Option, some, List}
use just_webrtc.Common.Action.{Result, ok}
use just_webrtc.WebRtc.Types.{IceServer}
use just_webrtc.WebRtc.Native.Connections.{Bytes}

-- The enumerations whose variants the source matches, with one for a text that is none of them.
pub data RtcSdpType : Type 0 where
  answer offer pranswer rollback unknown : RtcSdpType

pub data RtcPeerConnectionState : Type 0 where
  closed connected connecting disconnected failed new unknown : RtcPeerConnectionState

pub data RtcBundlePolicy : Type 0 where
  balanced max_bundle max_compat : RtcBundlePolicy

pub data RtcIceTransportPolicy : Type 0 where
  all relay : RtcIceTransportPolicy

-- The dictionaries, with the members that the source sets; one that is not set has its default.
pub record RtcConfiguration (JsValue : Type 0) : Type 0 where
  pub bundle_policy : RtcBundlePolicy
  pub ice_servers : JsValue
  pub ice_transport_policy : RtcIceTransportPolicy
  pub peer_identity : Option String

pub record RtcSessionDescriptionInit : Type 0 where
  pub type_ : RtcSdpType
  pub sdp : String

pub record RtcIceCandidateInit : Type 0 where
  pub candidate : String
  pub sdp_mid : Option String
  pub sdp_m_line_index : Option ℕ

pub record RtcDataChannelInit : Type 0 where
  pub ordered : Option Bool
  pub max_packet_life_time : Option ℕ
  pub max_retransmits : Option ℕ
  pub protocol : Option String
  pub negotiated : Option Bool
  pub id : Option ℕ

-- `RtcIceCandidate`, as far as the source reads it, and the data of a `MessageEvent`.
pub record RtcIceCandidate : Type 0 where
  pub candidate : String
  pub sdp_mid : Option String
  pub sdp_m_line_index : Option ℕ

pub data MessageData : Type 0 where
  array_buffer : Bytes → MessageData
  blob : MessageData

pub data Call (JsValue DataChannel : Type 0) : Type 0 where
  new_with_configuration : RtcConfiguration JsValue → Call JsValue DataChannel
  set_onconnectionstatechange set_oniceconnectionstatechange : Call JsValue DataChannel
  set_onicegatheringstatechange set_onicecandidate set_ondatachannel : Call JsValue DataChannel
  set_remote_description : RtcSessionDescriptionInit → Call JsValue DataChannel
  create_answer create_offer : Call JsValue DataChannel
  create_data_channel : String → RtcDataChannelInit → Call JsValue DataChannel
  set_binary_type_array_buffer : DataChannel → Call JsValue DataChannel
  set_onclose set_onopen set_onmessage set_onerror : DataChannel → Call JsValue DataChannel
  set_local_description : RtcSessionDescriptionInit → Call JsValue DataChannel
  add_ice_candidate : RtcIceCandidateInit → Call JsValue DataChannel
  send_with_u8_array : DataChannel → Bytes → Call JsValue DataChannel

-- An error is a JavaScript value.
pub record Browser : Type 1 where
  pub JsValue : Type 0
  pub DataChannel : Type 0
  pub label : DataChannel → String
  pub id : DataChannel → Option ℕ
  -- `serde_wasm_bindgen`: a value for the list of servers, and the text of an error.
  pub to_value : List IceServer → Result String JsValue
  pub error_text : JsValue → String
  pub reflect_get : JsValue → String → Result JsValue JsValue
  pub as_string : JsValue → Option String
  pub new_with_configuration :
      RtcConfiguration JsValue → List (Call JsValue DataChannel) → Result JsValue (Unit {0})
  pub set_remote_description :
      RtcSessionDescriptionInit → List (Call JsValue DataChannel) → Result JsValue (Unit {0})
  pub create_answer : List (Call JsValue DataChannel) → Result JsValue JsValue
  pub create_offer : List (Call JsValue DataChannel) → Result JsValue JsValue
  -- Or the exception that it throws, say for options or an id that it refuses.
  pub create_data_channel :
      String → RtcDataChannelInit → List (Call JsValue DataChannel) → Result JsValue DataChannel
  pub set_local_description :
      RtcSessionDescriptionInit → List (Call JsValue DataChannel) → Result JsValue (Unit {0})
  pub local_description : List (Call JsValue DataChannel) → Option RtcSessionDescriptionInit
  pub add_ice_candidate :
      RtcIceCandidateInit → List (Call JsValue DataChannel) → Result JsValue (Unit {0})
  pub send_with_u8_array :
      DataChannel → Bytes → List (Call JsValue DataChannel) → Result JsValue (Unit {0})
  -- The member `sdp` of a created description is a text.
  pub answer_sdp :
      (calls : List (Call JsValue DataChannel)) (v m : JsValue)
      → create_answer calls ≡ ok v
      → reflect_get v "sdp" ≡ ok m
      → (sdp : String) × (as_string m ≡ some sdp)
  pub offer_sdp :
      (calls : List (Call JsValue DataChannel)) (v m : JsValue)
      → create_offer calls ≡ ok v
      → reflect_get v "sdp" ≡ ok m
      → (sdp : String) × (as_string m ≡ some sdp)
