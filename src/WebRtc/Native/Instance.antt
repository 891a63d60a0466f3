-- ===== src/WebRtc/Native/Instance.antt =====
-- The native platform as an instance of the common interface.
use just_webrtc.Common.{ℕ, ◌≡◌, refl, sym, subst, inl, inr, arith, Bool, Option, List, [], ◌∷◌, map}
use mathlib.Core.List.{append-nil}
use just_webrtc.Common.Action.{Result, ok, err}
use just_webrtc.WebRtc.Types.{IceCandidate, SessionDescription, PeerConnectionState}
use just_webrtc.WebRtc.Calls.{Follows, Follows-bind, Follows-pure, Follows-ask, Follows-one, Ends}
use just_webrtc.WebRtc.Plan.{accept, add_candidate}
use just_webrtc.WebRtc.Platform.{Platform}
use just_webrtc.WebRtc.Native.Foreign.{WebRtcRs, Unbounded, AsyncCell}
use just_webrtc.WebRtc.Native.Link.{
  Progress, Progress-cases, finished, waiting, recv_error, out_of_fuel,
}
use just_webrtc.WebRtc.Native.Connections.{Call, Connections}
use just_webrtc.WebRtc.Native.Convert.{init_of_candidate, candidate_of_init, rtc_description}
use just_webrtc.WebRtc.Native.Link as Link
use just_webrtc.WebRtc.Native.Build.{
  Error, webrtc_error, Session, Channel, PeerConnection, start, note, await, try, build,
}
use just_webrtc.WebRtc.Native.Methods as Methods
use just_webrtc.WebRtc.Native.Planned.{
  requests, asked, asked-note, accepts-description, asked-Follows,
}

module _ (R : WebRtcRs) (A : Connections R) (flume : (M : Type 0) → Unbounded M)
    (cells : (V : Type 0) → AsyncCell V) where
  -- The methods that await something of the session or of the channel.
  abbrev pub state_change :
      Session R A flume cells → Option PeerConnectionState × Session R A flume cells
  state_change s =
      let taken = Link.state_change (cells PeerConnectionState) s.peer_connection_state in
      (taken.0, record s { peer_connection_state = taken.1 })

  abbrev pub collect_ice_candidates :
      ℕ → Session R A flume cells → Progress (List IceCandidate) (Session R A flume cells)
  collect_ice_candidates n s =
      elim (Link.collect_ice_candidates (flume (Option IceCandidate)) n [] s.candidate_rx) [
        | finished cs rx ↦ finished cs (record s { candidate_rx = rx })
        | waiting ↦ waiting
        | recv_error ↦ recv_error
        | out_of_fuel ↦ out_of_fuel
      ]

  abbrev pub wait_ready :
      ℕ → Channel R A flume cells → Progress (Unit {0}) (Channel R A flume cells)
  wait_ready n c = elim (Link.wait_ready (cells Bool) n c.ready_state) [
    | finished u cell ↦ finished u (record c { ready_state = cell })
    | waiting ↦ waiting
    | recv_error ↦ recv_error
    | out_of_fuel ↦ out_of_fuel
  ]

  await-Follows :
      {X : Type 0} (answer : List (Call R A.DataChannel) → Result R.Error X)
      (c : Call R A.DataChannel)
      → Follows
          (asked R A flume cells)
          (await R A flume cells answer c)
          (requests R (c ∷ []))
          (λ _. Unit {0})
  await-Follows answer c =
      Follows-ask (asked R A flume cells) (λ _. Unit {0}) _ (note R A flume cells (c ∷ [])) _
        (asked-note R A flume cells (c ∷ [])) (λ _ _ _. tt)

  abbrev kept : {X : Type 0} → X → Result R.Error X
  kept x = ok x

  try-Follows :
      {X : Type 0} (r : Result R.Error X)
      → Follows (asked R A flume cells) (try R A flume cells r) [] (λ x. r ≡ ok x)
  unfolding Ends
  try-Follows (ok x) = Follows-pure (asked R A flume cells) (Error R) (λ y. kept x ≡ kept y) x refl
  try-Follows (err e) =
      Follows-one (asked R A flume cells) _ _ []
        (λ s. (sym (append-nil (asked R A flume cells s)), inr (webrtc_error e, refl)))

  pub nothing_asked : asked R A flume cells (start R A flume cells) ≡ []
  unfolding start requests
  nothing_asked = refl

  pub set_remote_description-Follows :
      (d : SessionDescription)
      → Follows
          (asked R A flume cells)
          (Methods.set_remote_description R A flume cells d)
          (accept d ∷ [])
          (λ _. Unit {0})
  unfolding Methods.set_remote_description
  set_remote_description-Follows d =
      Follows-bind (asked R A flume cells) (λ r. rtc_description R d ≡ ok r) (λ _. Unit {0}) _ _ []
        _ (try-Follows (rtc_description R d))
        (λ r e.
          subst
            (λ l.
              Follows (asked R A flume cells)
                (await R A flume cells (A.set_remote_description r) (Call.set_remote_description r))
                l (λ _. Unit {0}))
            (accepts-description R A flume cells d r e)
            (await-Follows (A.set_remote_description r) (Call.set_remote_description r)))

  pub add_ice_candidates-Follows :
      (cs : List IceCandidate)
      → Follows
          (asked R A flume cells)
          (Methods.add_ice_candidates R A flume cells cs)
          (map (λ c. add_candidate c) cs)
          (λ _. Unit {0})
  unfolding Methods.add_ice_candidates requests init_of_candidate candidate_of_init
  add_ice_candidates-Follows [] =
      Follows-pure (asked R A flume cells) (Error R) (λ _. Unit {0}) tt tt
  add_ice_candidates-Follows (c ∷ cs) =
      let init = init_of_candidate c in
      Follows-bind (asked R A flume cells) (λ _. Unit {0}) (λ _. Unit {0}) _ _
        (add_candidate c ∷ []) _
        (await-Follows (A.add_ice_candidate init) (Call.add_ice_candidate init))
        (λ _ _. add_ice_candidates-Follows cs)

  pub asked-collect :
      (n : ℕ) (s s' : Session R A flume cells) (cs : List IceCandidate)
      → collect_ice_candidates n s ≡ finished cs s'
      → asked R A flume cells s' ≡ asked R A flume cells s
  asked-collect n s s' cs e =
      elim (Progress-cases
        (Link.collect_ice_candidates (flume (Option IceCandidate)) n [] s.candidate_rx)) [
          | inl (cs', rx, r) ↦ ground (arith, e, r)
          | inr (inl r) ↦ ground (arith, e, r)
          | inr (inr (inl r)) ↦ ground (arith, e, r)
          | inr (inr (inr r)) ↦ ground (arith, e, r)
        ]

  abbrev pub platform : Platform
  platform = record {
    Error = Error R;
    Session = Session R A flume cells;
    Channel = Channel R A flume cells;
    PeerConnection = PeerConnection R A flume cells;
    start = start R A flume cells;
    channels = record {
      wait_ready = wait_ready;
      receive = Methods.receive R A flume cells;
      send = Methods.send R A flume cells;
      id = Methods.id R A flume cells;
      label = Methods.label R A flume cells;
    };
    connections = record {
      state_change = state_change;
      receive_channel = Methods.receive_channel R A flume cells;
      collect_ice_candidates = collect_ice_candidates;
      get_local_description = Methods.get_local_description R A flume cells;
      add_ice_candidates = Methods.add_ice_candidates R A flume cells;
      set_remote_description = Methods.set_remote_description R A flume cells;
      is_offerer = λ c. c.is_offerer;
    };
    build = build R A flume cells;
    asked = asked R A flume cells;
    sent = λ c. c;
    asked-start = nothing_asked;
    build-Follows = asked-Follows R A flume cells;
    set_remote_description-Follows = set_remote_description-Follows;
    add_ice_candidates-Follows = add_ice_candidates-Follows;
    asked-collect = asked-collect;
  }
