-- ===== src/WebRtc/Wasm/Instance.antt =====
-- The web platform as an instance of the common interface.
use just_webrtc.Common.{ℕ, ◌≡◌, refl, subst, inl, inr, arith, Bool, Option, List, [], ◌∷◌, map}
use just_webrtc.WebRtc.Types.{IceCandidate, SessionDescription, PeerConnectionState}
use just_webrtc.WebRtc.Calls.{Follows, Follows-bind, Follows-pure, Follows-weaken}
use just_webrtc.WebRtc.Plan.{accept, add_candidate}
use just_webrtc.WebRtc.Platform.{Platform}
use just_webrtc.WebRtc.Native.Foreign.{Unbounded, AsyncCell}
use just_webrtc.WebRtc.Native.Link.{
  Progress, Progress-cases, finished, waiting, recv_error, out_of_fuel,
}
use just_webrtc.WebRtc.Wasm.Foreign.{Call, Browser}
use just_webrtc.WebRtc.Wasm.Convert.{candidate_init, description_init}
use just_webrtc.WebRtc.Wasm.Link as Link
use just_webrtc.WebRtc.Wasm.Build.{Exit, Session, Channel, PeerConnection, start, build}
use just_webrtc.WebRtc.Wasm.Methods as Methods
use just_webrtc.WebRtc.Wasm.Planned.{
  requests, asked, candidate_of_init, description_of-description_init, await-Follows,
}
use just_webrtc.WebRtc.Wasm.Built.{asked-Follows}

module _ (A : Browser) (flume : (M : Type 0) → Unbounded M)
    (cells : (V : Type 0) → AsyncCell V) where
  -- The methods that await something of the session or of the channel.
  abbrev pub state_change :
      Session A flume cells → Option PeerConnectionState × Session A flume cells
  state_change s =
      let taken = Link.state_change (cells PeerConnectionState) s.peer_connection_state in
      (taken.0, record s { peer_connection_state = taken.1 })

  abbrev pub collect_ice_candidates :
      ℕ → Session A flume cells → Progress (List IceCandidate) (Session A flume cells)
  collect_ice_candidates n s =
      elim (Link.collect_ice_candidates (flume (Option IceCandidate)) n [] s.candidate_rx) [
        | finished cs rx ↦ finished cs (record s { candidate_rx = rx })
        | waiting ↦ waiting
        | recv_error ↦ recv_error
        | out_of_fuel ↦ out_of_fuel
      ]

  abbrev pub wait_ready : ℕ → Channel A flume cells → Progress (Unit {0}) (Channel A flume cells)
  wait_ready n c = elim (Link.wait_ready (cells Bool) n c.ready_state) [
    | finished u cell ↦ finished u (record c { ready_state = cell })
    | waiting ↦ waiting
    | recv_error ↦ recv_error
    | out_of_fuel ↦ out_of_fuel
  ]

  pub nothing_asked : asked A flume cells (start A flume cells) ≡ []
  unfolding asked start requests
  nothing_asked = refl

  pub set_remote_description-Follows :
      (d : SessionDescription)
      → Follows
          (asked A flume cells)
          (Methods.set_remote_description A flume cells d)
          (accept d ∷ [])
          (λ _. Unit {0})
  unfolding Methods.set_remote_description requests
  set_remote_description-Follows d =
      let dict = description_init d in
      subst
        (λ d'.
          Follows (asked A flume cells) (Methods.set_remote_description A flume cells d)
            (accept d' ∷ []) (λ _. Unit {0}))
        (description_of-description_init d)
        (Follows-weaken (asked A flume cells) _ _ _ (
          await-Follows A flume cells (A.set_remote_description dict)
            (Call.set_remote_description dict)))

  pub add_ice_candidates-Follows :
      (cs : List IceCandidate)
      → Follows
          (asked A flume cells)
          (Methods.add_ice_candidates A flume cells cs)
          (map (λ c. add_candidate (candidate_of_init (candidate_init c))) cs)
          (λ _. Unit {0})
  unfolding Methods.add_ice_candidates requests
  add_ice_candidates-Follows [] = Follows-pure (asked A flume cells) (Exit A) (λ _. Unit {0}) tt tt
  add_ice_candidates-Follows (c ∷ cs) =
      let init = candidate_init c in
      Follows-bind (asked A flume cells) _ (λ _. Unit {0}) _ _
        (add_candidate (candidate_of_init init) ∷ []) _
        (await-Follows A flume cells (A.add_ice_candidate init) (Call.add_ice_candidate init))
        (λ _ _. add_ice_candidates-Follows cs)

  pub asked-collect :
      (n : ℕ) (s s' : Session A flume cells) (cs : List IceCandidate)
      → collect_ice_candidates n s ≡ finished cs s'
      → asked A flume cells s' ≡ asked A flume cells s
  unfolding asked
  asked-collect n s s' cs e =
      elim (Progress-cases
        (Link.collect_ice_candidates (flume (Option IceCandidate)) n [] s.candidate_rx)) [
          | inl (cs', rx, r) ↦ ground (arith, e, r)
          | inr (inl r) ↦ ground (arith, e, r)
          | inr (inr (inl r)) ↦ ground (arith, e, r)
          | inr (inr (inr r)) ↦ ground (arith, e, r)
        ]

  abbrev pub platform : Platform
  platform = record {
    Error = Exit A;
    Session = Session A flume cells;
    Channel = Channel A flume cells;
    PeerConnection = PeerConnection A flume cells;
    start = start A flume cells;
    channels = record {
      wait_ready = wait_ready;
      receive = Methods.receive A flume cells;
      send = Methods.send A flume cells;
      id = Methods.id A flume cells;
      label = Methods.label A flume cells;
    };
    connections = record {
      state_change = state_change;
      receive_channel = Methods.receive_channel A flume cells;
      collect_ice_candidates = collect_ice_candidates;
      get_local_description = Methods.get_local_description A flume cells;
      add_ice_candidates = Methods.add_ice_candidates A flume cells;
      set_remote_description = Methods.set_remote_description A flume cells;
      is_offerer = λ c. c.is_offerer;
    };
    build = build A flume cells;
    asked = asked A flume cells;
    sent = λ c. candidate_of_init (candidate_init c);
    asked-start = nothing_asked;
    build-Follows = asked-Follows A flume cells;
    set_remote_description-Follows = set_remote_description-Follows;
    add_ice_candidates-Follows = add_ice_candidates-Follows;
    asked-collect = asked-collect;
  }
