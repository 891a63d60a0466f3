-- ===== src/WebRtc/Native/Connections.antt =====
-- What native.rs calls of a connection of webrtc-rs (`RTCPeerConnection`, `RTCDataChannel`). What a
-- call answers is a function of its arguments and of the calls before it.
use just_webrtc.Common.{ℕ, String, ◌≡◌, Bool, Option, List}
use just_webrtc.Common.Action.{Result, ok}
use just_webrtc.WebRtc.Native.Foreign.{RtcIceCandidateInit, RtcDataChannelInit, WebRtcRs}

abbrev pub Bytes : Type 0
Bytes = List ℕ

-- `DataChannelMessage`.
pub record Message : Type 0 where
  pub is_string : Bool
  pub data_bytes : Bytes

pub data Call (R : WebRtcRs) (DataChannel : Type 0) : Type 0 where
  new_peer_connection : R.Configuration → Call R DataChannel
  on_peer_connection_state_change on_ice_connection_state_change : Call R DataChannel
  on_ice_gathering_state_change on_ice_candidate on_data_channel : Call R DataChannel
  set_remote_description : R.SessionDescription → Call R DataChannel
  create_answer create_offer : Call R DataChannel
  create_data_channel : String → RtcDataChannelInit → Call R DataChannel
  on_close on_open on_message on_error : DataChannel → Call R DataChannel
  set_local_description : R.SessionDescription → Call R DataChannel
  add_ice_candidate : RtcIceCandidateInit → Call R DataChannel
  send : DataChannel → Bytes → Call R DataChannel

pub record Connections (R : WebRtcRs) : Type 1 where
  pub DataChannel : Type 0
  pub label : DataChannel → String
  pub id : DataChannel → ℕ
  pub new_peer_connection : R.Configuration → List (Call R DataChannel) → Result R.Error (Unit {0})
  pub set_remote_description :
      R.SessionDescription → List (Call R DataChannel) → Result R.Error (Unit {0})
  pub create_answer : List (Call R DataChannel) → Result R.Error R.SessionDescription
  pub create_offer : List (Call R DataChannel) → Result R.Error R.SessionDescription
  pub create_data_channel :
      String → RtcDataChannelInit → List (Call R DataChannel) → Result R.Error DataChannel
  pub set_local_description :
      R.SessionDescription → List (Call R DataChannel) → Result R.Error (Unit {0})
  pub local_description : List (Call R DataChannel) → Option R.SessionDescription
  pub add_ice_candidate :
      RtcIceCandidateInit → List (Call R DataChannel) → Result R.Error (Unit {0})
  pub send : DataChannel → Bytes → List (Call R DataChannel) → Result R.Error ℕ
  -- A new channel has the label it was created with.
  pub label-create_data_channel :
      (l : String) (o : RtcDataChannelInit) (calls : List (Call R DataChannel)) (c : DataChannel)
      → create_data_channel l o calls ≡ ok c
      → label c ≡ l
