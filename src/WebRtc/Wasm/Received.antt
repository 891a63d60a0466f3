-- ===== src/WebRtc/Wasm/Received.antt =====
-- What the user of a web connection gets from its handlers.
use just_webrtc.Common.{
  ℕ, zero, suc, ◌<◌, ◌≡◌, refl, sym, ap, ◌∙◌, inl, inr, Option, none, some, List, [], ◌∷◌, ◌++◌,
  map, length, arith,
}
use mathlib.Core.List.{append-nil}
use just_webrtc.WebRtc.Types.{IceCandidate}
use just_webrtc.WebRtc.Queue.{
  each, received, Receives, handled, handled-queue, Sends, received-handled,
}
use just_webrtc.WebRtc.Native.Foreign.{Unbounded, AsyncCell, Found-cases}
use just_webrtc.WebRtc.Native.Connections.{Bytes}
use just_webrtc.WebRtc.Native.Link as Native
use just_webrtc.WebRtc.Native.Link.{Progress, finished, waiting}
use just_webrtc.WebRtc.Native.Gathering.{collect_to_end}
use just_webrtc.WebRtc.Wasm.Foreign.{RtcIceCandidate, MessageData, array_buffer, blob, Browser}
use just_webrtc.WebRtc.Wasm.Link.{
  handle_ice_candidate, collect_ice_candidates, handle_data_channel_message,
}
use just_webrtc.WebRtc.Wasm.Build.{Channel}
use just_webrtc.WebRtc.Wasm.Methods.{receive}

-- A candidate of the browser as the other peer gets it, without its user name fragment.
unfoldable pub sent_candidate : RtcIceCandidate → IceCandidate
sent_candidate c = record {
  candidate = c.candidate;
  sdp_mid = c.sdp_mid;
  sdp_mline_index = c.sdp_m_line_index;
  username_fragment = none;
}

module _ (Q : Unbounded (Option IceCandidate)) where
  -- The loop is that of the native platform.
  collect-native :
      (n : ℕ) (acc : List IceCandidate) (rx : Q.Chan)
      → collect_ice_candidates Q n acc rx ≡ Native.collect_ice_candidates Q n acc rx
  unfolding collect_ice_candidates Native.collect_ice_candidates
  collect-native zero acc rx = refl
  collect-native (suc n) acc rx = elim (Found-cases (Q.recv rx).0) [
    | inl (some i, e) ↦ ground (arith, e, collect-native n (acc ++ i ∷ []) (Q.recv rx).1)
    | inl (none, e) ↦ ground (arith, e)
    | inr (inl e) ↦ ground (arith, e)
    | inr (inr e) ↦ ground (arith, e)
  ]

  candidate-Sends :
      Sends Q (λ c. handle_ice_candidate Q (some c)) (λ c. some (sent_candidate c) ∷ [])
  unfolding handle_ice_candidate sent_candidate
  candidate-Sends = record {
    queues = λ c tx. Q.queue-send _ tx;
    keeps = λ c tx. Q.has_sender-send _ tx;
  }

  each-some :
      (cs : List RtcIceCandidate)
      → each (λ c. some (sent_candidate c) ∷ []) cs ≡ map some (map sent_candidate cs)
  each-some [] = refl
  each-some (c ∷ cs) = ap (λ l. some (sent_candidate c) ∷ l) (each-some cs)

  -- In a browser too, the candidates of the events, in their order, are what `collect_ice_candidates`
  -- returns after the event without a candidate, on a new channel; none is left out, and none has a
  -- user name fragment. This is so if the loop may take more turns than there are candidates.
  pub web_collects :
      (cs : List RtcIceCandidate) (n : ℕ)
      → length (map sent_candidate cs) < n
      → let gathered = handled Q (λ c. handle_ice_candidate Q (some c)) cs Q.unbounded in
        (rest : Q.Chan) × (collect_ice_candidates Q n [] (handle_ice_candidate Q none gathered)
          ≡ finished (map sent_candidate cs) rest)
        × (Q.queue rest ≡ [])
  unfolding handle_ice_candidate
  web_collects cs n fuel =
      let (buffered, alive) =
        handled-queue Q (λ c. handle_ice_candidate Q (some c)) (λ c. some (sent_candidate c) ∷ [])
          candidate-Sends cs Q.unbounded in
      let gathered = handled Q (λ c. handle_ice_candidate Q (some c)) cs Q.unbounded in
      let queued : Q.queue gathered ≡ map some (map sent_candidate cs) =
        buffered
        ∙ ap (λ l. l ++ each (λ c. some (sent_candidate c) ∷ []) cs) Q.queue-unbounded
        ∙ each-some cs in
      let (rest, done, empty) =
        collect_to_end Q (map sent_candidate cs) [] n (Q.send none gathered) fuel
          (Q.queue-send none gathered ∙ ap (λ l. l ++ none ∷ []) queued) in
      (rest, collect-native n [] (Q.send none gathered) ∙ done, empty)

module _ (A : Browser) (flume : (M : Type 0) → Unbounded M)
    (cells : (V : Type 0) → AsyncCell V) where
  -- The bytes of a message, if it came as an array buffer.
  unfoldable pub bodies : MessageData → List Bytes
  bodies (array_buffer body) = body ∷ []
  bodies blob = []

  queues :
      (m : MessageData) (tx : (flume Bytes).Chan)
      → (flume Bytes).queue (handle_data_channel_message (flume Bytes) m tx)
        ≡ (flume Bytes).queue tx ++ bodies m
  unfolding handle_data_channel_message bodies
  queues (array_buffer body) tx = (flume Bytes).queue-send body tx
  queues blob tx = sym (append-nil ((flume Bytes).queue tx))

  keeps :
      (m : MessageData) (tx : (flume Bytes).Chan)
      → (flume Bytes).has_sender (handle_data_channel_message (flume Bytes) m tx)
        ≡ (flume Bytes).has_sender tx
  unfolding handle_data_channel_message
  keeps (array_buffer body) tx = (flume Bytes).has_sender-send body tx
  keeps blob tx = refl

  message-Sends : Sends (flume Bytes) (handle_data_channel_message (flume Bytes)) bodies
  unfolding handle_data_channel_message bodies
  message-Sends = record { queues = queues; keeps = keeps }

  receive-Receives : Receives (flume Bytes) (λ c. c.rx) (receive A flume cells)
  unfolding receive
  receive-Receives = record {
    gets = λ c m e. (record c { rx = ((flume Bytes).recv c.rx).1 }, ground (arith, e), refl);
    waits = λ c e. ground (arith, e);
  }

  -- On a new data channel of a browser, `receive` gets the bytes of each message that came as an
  -- array buffer, once and in the order of their arrival, and then waits; any other is left out.
  pub web_messages_received :
      (ms : List MessageData) (c : Channel A flume cells)
      → c.rx
        ≡ handled
            (flume Bytes)
            (handle_data_channel_message (flume Bytes))
            ms
            (flume Bytes).unbounded
      → let (got, after) = received (receive A flume cells) (length (each bodies ms)) c in
        (got ≡ each bodies ms) × (receive A flume cells after ≡ waiting)
  web_messages_received =
      received-handled (flume Bytes) (λ c. c.rx) (receive A flume cells)
        (handle_data_channel_message (flume Bytes)) bodies receive-Receives message-Sends
