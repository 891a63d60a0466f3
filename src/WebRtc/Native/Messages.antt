-- ===== src/WebRtc/Native/Messages.antt =====
-- What the user of the native platform receives.
use just_webrtc.Common.{◌≡◌, refl, List, [], ◌∷◌, length, arith}
use just_webrtc.WebRtc.Native.Link.{waiting}
use just_webrtc.WebRtc.Queue.{each, received, Receives, handled, Sends, received-handled}
use just_webrtc.WebRtc.Native.Foreign.{WebRtcRs, Unbounded, AsyncCell}
use just_webrtc.WebRtc.Native.Connections.{Bytes, Message, Connections}
use just_webrtc.WebRtc.Native.Build.{Channel}
use just_webrtc.WebRtc.Native.Methods.{receive_channel, receive, handle_data_channel_message}

module _ (R : WebRtcRs) (A : Connections R) (flume : (M : Type 0) → Unbounded M)
    (cells : (V : Type 0) → AsyncCell V) where
  message-Sends :
      Sends (flume Bytes) (handle_data_channel_message R A flume cells) (λ m. m.data_bytes ∷ [])
  unfolding handle_data_channel_message
  message-Sends = record {
    queues = λ m tx. (flume Bytes).queue-send m.data_bytes tx;
    keeps = λ m tx. (flume Bytes).has_sender-send m.data_bytes tx;
  }

  receive-Receives : Receives (flume Bytes) (λ c. c.rx) (receive R A flume cells)
  unfolding receive
  receive-Receives = record {
    gets = λ c m e. (record c { rx = ((flume Bytes).recv c.rx).1 }, ground (arith, e), refl);
    waits = λ c e. ground (arith, e);
  }

  -- However many messages came in on a new data channel, texts or not, `receive` gets the bytes of
  -- each, once and in the order of their arrival, and then waits.
  pub messages_received :
      (ms : List Message) (c : Channel R A flume cells)
      → c.rx
        ≡ handled
            (flume Bytes)
            (handle_data_channel_message R A flume cells)
            ms
            (flume Bytes).unbounded
      → let bytes = each (λ (m : Message). m.data_bytes ∷ []) ms in
        let (got, after) = received (receive R A flume cells) (length bytes) c in
        (got ≡ bytes) × (receive R A flume cells after ≡ waiting)
  messages_received =
      received-handled (flume Bytes) (λ c. c.rx) (receive R A flume cells)
        (handle_data_channel_message R A flume cells) (λ m. m.data_bytes ∷ []) receive-Receives
        message-Sends

  pub receive_channel-Receives :
      Receives
        (flume (Channel R A flume cells))
        (λ s. s.channels_rx)
        (receive_channel R A flume cells)
  unfolding receive_channel
  receive_channel-Receives = record {
    gets = λ s m e. (
      record s { channels_rx = ((flume (Channel R A flume cells)).recv s.channels_rx).1 },
      ground (arith, e),
      refl,
    );
    waits = λ s e. ground (arith, e);
  }
