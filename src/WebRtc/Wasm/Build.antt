-- ===== src/WebRtc/Wasm/Build.antt =====
-- wasm.rs: `PeerConnectionBuilder<Wasm>::build`, `handle_data_channel` for each channel, and the
-- methods of a `PeerConnection` and of a `Channel`.
use just_webrtc.Common.{ℕ, suc, String, Bool, true, false, Option, none, some, List, [], ◌∷◌, ◌++◌}
use just_webrtc.Common.Action.{
  Result, ok, err, ret, panic, Action, ask, ◌>>=◌, ◌>>◌, pure, modify, throw,
}
use just_webrtc.Common.Decimal.{numbered}
use just_webrtc.WebRtc.Types.{IceCandidate, PeerConnectionState, SessionDescription}
use just_webrtc.WebRtc.Builder.{ChannelOptions, PeerConnectionBuilder}
use just_webrtc.WebRtc.Native.Foreign.{Unbounded, AsyncCell}
use just_webrtc.WebRtc.Native.Connections.{Bytes}
use just_webrtc.WebRtc.Wasm.Foreign.{RtcSdpType, RtcSessionDescriptionInit, Call, Browser}
use just_webrtc.WebRtc.Wasm.Convert.{rtc_configuration, description_init, data_channel_dict}

pub data Error : Type 0 where
  mpsc_recv_error : Error
  webrtc_error : String → Error
  data_channel_closed : Error

-- How code ends early: with an error that it returns, or with an exception that it does not catch, by
-- which the call and its callers end.
pub data Exit (A : Browser) : Type 0 where
  error : Error → Exit A
  thrown : A.JsValue → Exit A

module _ (A : Browser) (flume : (M : Type 0) → Unbounded M)
    (cells : (V : Type 0) → AsyncCell V) where
  -- Its handlers hold the same cell and the sender of the same channel.
  pub record Channel : Type 0 where
    pub inner : A.DataChannel
    pub ready_state : (cells Bool).Cell
    pub rx : (flume Bytes).Chan

  -- The calls so far, and what the connection's handlers and its `PeerConnection` share.
  pub record Session : Type 0 where
    pub calls : List (Call A.JsValue A.DataChannel)
    pub peer_connection_state : (cells PeerConnectionState).Cell
    pub channels_rx : (flume Channel).Chan
    pub candidate_rx : (flume (Option IceCandidate)).Chan

  unfoldable pub start : Session
  start = record {
    calls = [];
    peer_connection_state = (cells PeerConnectionState).empty;
    channels_rx = (flume Channel).unbounded;
    candidate_rx = (flume (Option IceCandidate)).unbounded;
  }

  -- The rest of a `PeerConnection` is the session.
  pub record PeerConnection : Type 0 where
    pub is_offerer : Bool

  unfoldable pub note : List (Call A.JsValue A.DataChannel) → Session → Session
  note cs s = record s { calls = s.calls ++ cs }

  unfoldable pub js_value_to_error : A.JsValue → Error
  js_value_to_error value = webrtc_error (A.error_text value)

  -- A result of JavaScript, with `.map_err(js_value_to_error)?`.
  abbrev pub mapped : {V : Type 0} → Result A.JsValue V → Result (Exit A) V
  mapped (ok v) = ok v
  mapped (err e) = err (error (js_value_to_error e))

  -- A call whose exceptions the binding does not catch.
  abbrev pub uncaught : {V : Type 0} → Result A.JsValue V → Result (Exit A) V
  uncaught (ok v) = ok v
  uncaught (err e) = err (thrown e)

  abbrev pub await :
      {V : Type 0}
      → (List (Call A.JsValue A.DataChannel) → Result A.JsValue V)
      → Call A.JsValue A.DataChannel
      → Action (Exit A) Session V
  await answer c = ask (λ (s : Session). mapped (answer s.calls)) (note (c ∷ []))

  abbrev pub try : {V : Type 0} → Result (Exit A) V → Action (Exit A) Session V
  try (ok v) = pure v
  try (err e) = throw e

  abbrev pub unwrap : {V : Type 0} → Option V → Action (Exit A) Session V
  unwrap none s = (panic, s)
  unwrap (some v) s = (ret v, s)

  -- `serde_wasm_bindgen::to_value(..)?`.
  abbrev pub parsed : {V : Type 0} → Result String V → Action (Exit A) Session V
  parsed (ok v) = pure v
  parsed (err e) = throw (error (webrtc_error e))

  unfoldable pub handle_data_channel : A.DataChannel → Session → Session
  handle_data_channel channel s = record s {
    calls =
        s.calls
        ++ Call.set_binary_type_array_buffer channel
          ∷ Call.set_onclose channel
          ∷ Call.set_onopen channel
          ∷ Call.set_onmessage channel
          ∷ Call.set_onerror channel
          ∷ [];
    channels_rx =
        (flume Channel).send
          (record {
            inner = channel;
            ready_state = (cells Bool).empty;
            rx = (flume Bytes).unbounded;
          })
          s.channels_rx;
  }

  abbrev pub create :
      (List (Call A.JsValue A.DataChannel) → Result A.JsValue A.DataChannel)
      → Call A.JsValue A.DataChannel
      → Action (Exit A) Session A.DataChannel
  create answer c = ask (λ (s : Session). uncaught (answer s.calls)) (note (c ∷ []))

  unfoldable pub open_channels : ℕ → ChannelOptions → Action (Exit A) Session (Unit {0})
  unfolding handle_data_channel note data_channel_dict
  open_channels index [] = pure tt
  open_channels index ((label_prefix, channel_options) ∷ os) = do
    let dict = data_channel_dict index channel_options
    let label = numbered label_prefix index
    channel ← create (A.create_data_channel label dict) (Call.create_data_channel label dict)
    modify (handle_data_channel channel)
    open_channels (suc index) os

  -- The member `sdp` of a created description, as a description of the given type.
  unfoldable pub created_description :
      RtcSdpType → A.JsValue → Action (Exit A) Session RtcSessionDescriptionInit
  unfolding js_value_to_error
  created_description type_ js_value = do
    member ← try (mapped (A.reflect_get js_value "sdp"))
    sdp ← unwrap (A.as_string member)
    pure (record { type_ = type_; sdp = sdp })

  -- The answerer's half.
  unfoldable pub answer_offer :
      SessionDescription → Action (Exit A) Session (RtcSessionDescriptionInit × Bool)
  unfolding note js_value_to_error description_init created_description
  answer_offer offer = do
    modify (note (Call.set_ondatachannel ∷ []))
    let remote = description_init offer
    await (A.set_remote_description remote) (Call.set_remote_description remote)
    js_value ← await A.create_answer Call.create_answer
    answer ← created_description RtcSdpType.answer js_value
    pure (answer, false)

  -- The offerer's half.
  unfoldable pub offer_channels :
      ChannelOptions → Action (Exit A) Session (RtcSessionDescriptionInit × Bool)
  unfolding open_channels note js_value_to_error created_description
  offer_channels channel_options = do
    open_channels 0 channel_options
    js_value ← await A.create_offer Call.create_offer
    offer ← created_description RtcSdpType.offer js_value
    pure (offer, true)

  unfoldable pub make_description :
      PeerConnectionBuilder → Action (Exit A) Session (RtcSessionDescriptionInit × Bool)
  unfolding answer_offer offer_channels
  make_description b = elim b.remote_offer [
    | some offer ↦ answer_offer offer
    | none ↦ offer_channels b.channel_options
  ]

  abbrev pub handlers : List (Call A.JsValue A.DataChannel)
  handlers =
      Call.set_onconnectionstatechange ∷ Call.set_oniceconnectionstatechange
      ∷ Call.set_onicegatheringstatechange ∷ Call.set_onicecandidate ∷ []

  -- Up to the local description; whether it was an offer.
  unfoldable pub negotiate : PeerConnectionBuilder → Action (Exit A) Session Bool
  unfolding make_description note js_value_to_error rtc_configuration
  negotiate b = do
    ice_servers ← parsed (A.to_value b.config.ice_servers)
    let config = rtc_configuration ice_servers b.config
    await (A.new_with_configuration config) (Call.new_with_configuration config)
    modify (note handlers)
    made ← make_description b
    await (A.set_local_description made.0) (Call.set_local_description made.0)
    pure made.1

  -- Where `channels_tx` goes out of scope: as an answerer it was moved into a handler.
  unfoldable pub end_of_scope : Bool → Session → Session
  end_of_scope true s = record s { channels_rx = (flume Channel).drop_sender s.channels_rx }
  end_of_scope false s = s

  unfoldable pub build : PeerConnectionBuilder → Action (Exit A) Session PeerConnection
  unfolding negotiate end_of_scope
  build b = do
    is_offerer ← negotiate b
    modify (end_of_scope is_offerer)
    pure (record { is_offerer = is_offerer })
