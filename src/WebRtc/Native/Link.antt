-- ===== src/WebRtc/Native/Link.antt =====
-- How a native connection's handlers reach its user: the candidates and the state of a
-- `PeerConnection`, and the readiness and the messages of a `Channel`. What a handler logs is left out.
use just_webrtc.Common.{
  ℕ, ◌≡◌, refl, ◌⊎◌, inl, inr, zero, suc, Bool, true, false, Option, none, some, List, [], ◌∷◌,
  ◌++◌,
}
use just_webrtc.Common.Action.{ok, err}
use just_webrtc.WebRtc.Types.{IceCandidate, PeerConnectionState}
use just_webrtc.WebRtc.Native.Foreign.{
  WebRtcRs, RtcPeerConnectionState, Unbounded, AsyncCell, found, nothing, hung_up,
}
use just_webrtc.WebRtc.Native.Convert.{candidate_of_init, connection_state_of}

-- How far an awaited loop got.
pub data Progress (A C : Type 0) : Type 0 where
  finished : A → C → Progress A C
  waiting : Progress A C
  recv_error : Progress A C
  out_of_fuel : Progress A C

pub Progress-cases :
    {A C : Type 0} (r : Progress A C)
    → ((a : A) × (c : C) × (r ≡ finished a c))
      ⊎ ((r ≡ waiting) ⊎ ((r ≡ recv_error) ⊎ (r ≡ out_of_fuel)))
Progress-cases (finished a c) = inl (a, c, refl)
Progress-cases waiting = inr (inl refl)
Progress-cases recv_error = inr (inr (inl refl))
Progress-cases out_of_fuel = inr (inr (inr refl))

module _ (R : WebRtcRs) (Q : Unbounded (Option IceCandidate)) where
  unfoldable pub handle_ice_candidate : Option R.IceCandidate → Q.Chan → Q.Chan
  unfolding candidate_of_init
  handle_ice_candidate none candidate_tx = Q.send none candidate_tx
  handle_ice_candidate (some candidate) candidate_tx = elim (R.to_json candidate) [
    | ok candidate_init ↦ Q.send (some (candidate_of_init candidate_init)) candidate_tx
    | err e ↦ candidate_tx
  ]

module _ (Q : Unbounded (Option IceCandidate)) where
  -- The loop takes one message for each unit of fuel.
  unfoldable pub collect_ice_candidates :
      ℕ → List IceCandidate → Q.Chan → Progress (List IceCandidate) Q.Chan
  collect_ice_candidates zero candidate_inits rx = out_of_fuel
  collect_ice_candidates (suc fuel) candidate_inits rx = elim (Q.recv rx).0 [
    | hung_up ↦ recv_error
    | nothing ↦ waiting
    | found message ↦ elim message [
      | none ↦ finished candidate_inits (Q.recv rx).1
      | some candidate_init ↦
          collect_ice_candidates fuel (candidate_inits ++ candidate_init ∷ []) (Q.recv rx).1
    ]
  ]

module _ (S : AsyncCell PeerConnectionState) where
  unfoldable pub handle_peer_connection_state_change : RtcPeerConnectionState → S.Cell → S.Cell
  unfolding connection_state_of
  handle_peer_connection_state_change state peer_state =
      S.set (connection_state_of state) peer_state

  unfoldable pub state_change : S.Cell → Option PeerConnectionState × S.Cell
  state_change peer_state = S.take peer_state

module _ (B : AsyncCell Bool) where
  unfoldable pub handle_data_channel_open : B.Cell → B.Cell
  handle_data_channel_open ready_state = B.set true ready_state

  unfoldable pub handle_data_channel_close : B.Cell → B.Cell
  handle_data_channel_close ready_state = B.set false ready_state

  -- The loop takes one value for each unit of fuel.
  unfoldable pub wait_ready : ℕ → B.Cell → Progress (Unit {0}) B.Cell
  wait_ready zero ready_state = out_of_fuel
  wait_ready (suc fuel) ready_state = elim (B.take ready_state).0 [
    | none ↦ waiting
    | some ready ↦ elim ready [
      | true ↦ finished tt (B.take ready_state).1
      | false ↦ wait_ready fuel (B.take ready_state).1
    ]
  ]
