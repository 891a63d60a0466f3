-- ===== src/WebRtc/Wasm/Link.antt =====
-- wasm.rs: the handlers of a connection's and of a channel's events, and the methods that await what
-- they pass on. What a handler logs is left out.
use just_webrtc.Common.{ℕ, zero, suc, Bool, true, false, Option, none, some, List, [], ◌∷◌, ◌++◌}
use just_webrtc.WebRtc.Types.{IceCandidate, PeerConnectionState}
use just_webrtc.WebRtc.Native.Foreign.{Unbounded, AsyncCell, found, nothing, hung_up}
use just_webrtc.WebRtc.Native.Connections.{Bytes}
use just_webrtc.WebRtc.Native.Link.{Progress, finished, waiting, recv_error, out_of_fuel}
use just_webrtc.WebRtc.Wasm.Foreign.{
  RtcPeerConnectionState, RtcIceCandidate, MessageData, array_buffer, blob,
}
use just_webrtc.WebRtc.Wasm.Convert.{connection_state_of}

module _ (Q : Unbounded (Option IceCandidate)) where
  unfoldable pub handle_ice_candidate : Option RtcIceCandidate → Q.Chan → Q.Chan
  handle_ice_candidate none candidate_tx = Q.send none candidate_tx
  handle_ice_candidate (some candidate) candidate_tx =
      Q.send
        (some (record {
          candidate = candidate.candidate;
          sdp_mid = candidate.sdp_mid;
          sdp_mline_index = candidate.sdp_m_line_index;
          username_fragment = none;
        }))
        candidate_tx

  -- The loop takes one message for each unit of fuel.
  unfoldable pub collect_ice_candidates :
      ℕ → List IceCandidate → Q.Chan → Progress (List IceCandidate) Q.Chan
  collect_ice_candidates zero candidate_inits rx = out_of_fuel
  collect_ice_candidates (suc fuel) candidate_inits rx = elim (Q.recv rx).0 [
    | hung_up ↦ recv_error
    | nothing ↦ waiting
    | found message ↦ elim message [
      | none ↦ finished candidate_inits (Q.recv rx).1
      | some candidate_init ↦
          collect_ice_candidates fuel (candidate_inits ++ candidate_init ∷ []) (Q.recv rx).1
    ]
  ]

module _ (S : AsyncCell PeerConnectionState) where
  unfoldable pub handle_peer_connection_state_change : RtcPeerConnectionState → S.Cell → S.Cell
  unfolding connection_state_of
  handle_peer_connection_state_change state peer_state =
      S.set (connection_state_of state) peer_state

  unfoldable pub state_change : S.Cell → Option PeerConnectionState × S.Cell
  state_change peer_state = S.take peer_state

module _ (B : AsyncCell Bool) where
  unfoldable pub handle_data_channel_open : B.Cell → B.Cell
  handle_data_channel_open ready_state = B.set true ready_state

  unfoldable pub handle_data_channel_close : B.Cell → B.Cell
  handle_data_channel_close ready_state = B.set false ready_state

  -- The loop takes one value for each unit of fuel.
  unfoldable pub wait_ready : ℕ → B.Cell → Progress (Unit {0}) B.Cell
  wait_ready zero ready_state = out_of_fuel
  wait_ready (suc fuel) ready_state = elim (B.take ready_state).0 [
    | none ↦ waiting
    | some ready ↦ elim ready [
      | true ↦ finished tt (B.take ready_state).1
      | false ↦ wait_ready fuel (B.take ready_state).1
    ]
  ]

module _ (M : Unbounded Bytes) where
  unfoldable pub handle_data_channel_message : MessageData → M.Chan → M.Chan
  handle_data_channel_message (array_buffer body) incoming_tx = M.send body incoming_tx
  handle_data_channel_message blob incoming_tx = incoming_tx
