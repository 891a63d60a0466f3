-- ===== src/WebRtc/Native/Build.antt =====
-- native.rs: `PeerConnectionBuilder<Native>::build`, and `handle_data_channel` for each channel.
use just_webrtc.Common.{ℕ, suc, Bool, true, false, Option, none, some, List, [], ◌∷◌, ◌++◌}
use just_webrtc.Common.Action.{Result, ok, err, Action, ask, ◌>>=◌, ◌>>◌, pure, modify, throw}
use just_webrtc.Common.Decimal.{numbered}
use just_webrtc.WebRtc.Types.{IceCandidate, PeerConnectionState, SessionDescription}
use just_webrtc.WebRtc.Builder.{ChannelOptions, PeerConnectionBuilder}
use just_webrtc.WebRtc.Native.Foreign.{WebRtcRs, Unbounded, AsyncCell}
use just_webrtc.WebRtc.Native.Connections.{Bytes, Call, Connections}
use just_webrtc.WebRtc.Native.Convert.{data_channel_init, rtc_description, rtc_configuration}

pub data Error (R : WebRtcRs) : Type 0 where
  mpsc_recv_error : Error R
  webrtc_error : R.Error → Error R

module _ (R : WebRtcRs) (A : Connections R) (flume : (M : Type 0) → Unbounded M)
    (cells : (V : Type 0) → AsyncCell V) where
  -- Its handlers hold the same cell and the sender of the same channel.
  pub record Channel : Type 0 where
    pub inner : A.DataChannel
    pub ready_state : (cells Bool).Cell
    pub rx : (flume Bytes).Chan

  -- The calls so far, and what the connection's handlers and its `PeerConnection` share.
  pub record Session : Type 0 where
    pub calls : List (Call R A.DataChannel)
    pub peer_connection_state : (cells PeerConnectionState).Cell
    pub channels_rx : (flume Channel).Chan
    pub candidate_rx : (flume (Option IceCandidate)).Chan

  unfoldable pub start : Session
  start = record {
    calls = [];
    peer_connection_state = (cells PeerConnectionState).empty;
    channels_rx = (flume Channel).unbounded;
    candidate_rx = (flume (Option IceCandidate)).unbounded;
  }

  -- The rest of a `PeerConnection` is the session.
  pub record PeerConnection : Type 0 where
    pub is_offerer : Bool

  unfoldable pub note : List (Call R A.DataChannel) → Session → Session
  note cs s = record s { calls = s.calls ++ cs }

  abbrev pub await :
      {V : Type 0}
      → (List (Call R A.DataChannel) → Result R.Error V)
      → Call R A.DataChannel
      → Action (Error R) Session V
  await answer c =
      ask (λ (s : Session). elim (answer s.calls) [ ok v ↦ ok v | err e ↦ err (webrtc_error e) ])
        (note (c ∷ []))

  -- A conversion that may fail, with `?`.
  abbrev pub try : {V : Type 0} → Result R.Error V → Action (Error R) Session V
  try (ok v) = pure v
  try (err e) = throw (webrtc_error e)

  unfoldable pub handle_data_channel : A.DataChannel → Session → Session
  handle_data_channel channel s = record s {
    calls =
        s.calls
        ++ Call.on_close channel
          ∷ Call.on_open channel
          ∷ Call.on_message channel
          ∷ Call.on_error channel
          ∷ [];
    channels_rx =
        (flume Channel).send
          (record {
            inner = channel;
            ready_state = (cells Bool).empty;
            rx = (flume Bytes).unbounded;
          })
          s.channels_rx;
  }

  unfoldable pub open_channels : ℕ → ChannelOptions → Action (Error R) Session (Unit {0})
  unfolding handle_data_channel note data_channel_init
  open_channels index [] = pure tt
  open_channels index ((label_prefix, channel_options) ∷ os) = do
    let label = numbered label_prefix index
    let options = data_channel_init channel_options
    data_channel ←
        await (A.create_data_channel label options) (Call.create_data_channel label options)
    modify (handle_data_channel data_channel)
    open_channels (suc index) os

  -- The answerer's half.
  unfoldable pub answer_offer :
      SessionDescription → Action (Error R) Session (R.SessionDescription × Bool)
  unfolding note rtc_description
  answer_offer offer = do
    modify (note (Call.on_data_channel ∷ []))
    remote ← try (rtc_description R offer)
    await (A.set_remote_description remote) (Call.set_remote_description remote)
    answer ← await A.create_answer Call.create_answer
    pure (answer, false)

  -- The offerer's half.
  unfoldable pub offer_channels :
      ChannelOptions → Action (Error R) Session (R.SessionDescription × Bool)
  unfolding open_channels note
  offer_channels channel_options = do
    open_channels 0 channel_options
    offer ← await A.create_offer Call.create_offer
    pure (offer, true)

  unfoldable pub make_description :
      PeerConnectionBuilder → Action (Error R) Session (R.SessionDescription × Bool)
  unfolding answer_offer offer_channels
  make_description b = elim b.remote_offer [
    | some offer ↦ answer_offer offer
    | none ↦ offer_channels b.channel_options
  ]

  -- Where `channels_tx` goes out of scope: as an answerer it was moved into a handler.
  unfoldable pub end_of_scope : Bool → Session → Session
  end_of_scope true s = record s { channels_rx = (flume Channel).drop_sender s.channels_rx }
  end_of_scope false s = s

  abbrev pub handlers : List (Call R A.DataChannel)
  handlers =
      Call.on_peer_connection_state_change ∷ Call.on_ice_connection_state_change
      ∷ Call.on_ice_gathering_state_change ∷ Call.on_ice_candidate ∷ []

  -- Up to the local description; whether it was an offer.
  unfoldable pub negotiate : PeerConnectionBuilder → Action (Error R) Session Bool
  unfolding make_description note rtc_configuration
  negotiate b = do
    let config = rtc_configuration R b.config
    await (A.new_peer_connection config) (Call.new_peer_connection config)
    modify (note handlers)
    made ← make_description b
    await (A.set_local_description made.0) (Call.set_local_description made.0)
    pure made.1

  unfoldable pub build : PeerConnectionBuilder → Action (Error R) Session PeerConnection
  unfolding negotiate end_of_scope
  build b = do
    is_offerer ← negotiate b
    modify (end_of_scope is_offerer)
    pure (record { is_offerer = is_offerer })
