-- ===== src/WebRtc/Native/Gathering.antt =====
-- What the user of a native connection gets from its handlers.
use just_webrtc.Common.{
  ℕ, zero, suc, ap, ◌<◌, ◌≡◌, sym, ◌∙◌, inl, inr, ◌⊎◌, Bool, true, false, Option, none, some, List,
  [], ◌∷◌, ◌++◌, map, length, arith,
}
use mathlib.Core.List.{append-nil, append_assoc, map-append}
use just_webrtc.Common.Action.{Result-cases, ok, err}
use just_webrtc.WebRtc.Types.{IceCandidate, PeerConnectionState}
use just_webrtc.WebRtc.Native.Foreign.{
  WebRtcRs, RtcPeerConnectionState, Unbounded, AsyncCell, found,
}
use just_webrtc.WebRtc.Native.Convert.{candidate_of_init}
use just_webrtc.WebRtc.Native.Link.{
  finished, waiting, handle_ice_candidate, collect_ice_candidates,
  handle_peer_connection_state_change, handle_data_channel_open, handle_data_channel_close,
  wait_ready,
}

module _ (R : WebRtcRs) where
  -- The candidates that serialize, converted, in their order.
  unfoldable pub serializable : List R.IceCandidate → List IceCandidate
  serializable [] = []
  serializable (c ∷ cs) = elim (R.to_json c) [
    | ok init ↦ candidate_of_init init ∷ serializable cs
    | err e ↦ serializable cs
  ]

module _ (Q : Unbounded (Option IceCandidate)) where
  collect_one :
      (i : IceCandidate) (acc : List IceCandidate) (n : ℕ) (rx : Q.Chan)
      → (Q.recv rx).0 ≡ found (some i)
      → collect_ice_candidates Q (suc n) acc rx
        ≡ collect_ice_candidates Q n (acc ++ i ∷ []) (Q.recv rx).1
  unfolding collect_ice_candidates
  collect_one i acc n rx e = ground arith

  -- The loop over what is buffered before the end.
  pub collect_to_end :
      (is acc : List IceCandidate) (n : ℕ) (rx : Q.Chan)
      → length is < n
      → Q.queue rx ≡ map some is ++ none ∷ []
      → (rest : Q.Chan) × (collect_ice_candidates Q n acc rx ≡ finished (acc ++ is) rest)
        × (Q.queue rest ≡ [])
  unfolding collect_ice_candidates
  collect_to_end is acc zero rx fuel q = ground arith
  collect_to_end [] acc (suc n) rx fuel q =
      let (got, left, _) = Q.recv-cons none [] rx q in
      ((Q.recv rx).1, ground (arith, append-nil acc), left)
  collect_to_end (i ∷ is) acc (suc n) rx fuel q =
      let (got, left, _) = Q.recv-cons (some i) (map some is ++ none ∷ []) rx q in
      let (rest, done, empty) =
        collect_to_end is (acc ++ i ∷ []) n (Q.recv rx).1 (omega arith) left in
      let regroup : finished (acc ++ i ∷ [] ++ is) rest ≡ finished (acc ++ i ∷ is) rest =
        ap (λ (js : List IceCandidate). finished js rest) (append_assoc acc (i ∷ []) is) in
      (rest, collect_one i acc n rx got ∙ done ∙ regroup, empty)

  -- Without an end, the loop waits for it.
  collect_waits :
      (is acc : List IceCandidate) (n : ℕ) (rx : Q.Chan)
      → length is < n
      → Q.queue rx ≡ map some is
      → Q.has_sender rx ≡ true
      → collect_ice_candidates Q n acc rx ≡ waiting
  unfolding collect_ice_candidates
  collect_waits is acc zero rx fuel q live = ground arith
  collect_waits [] acc (suc n) rx fuel q live = ground (arith, Q.recv-nil rx q live)
  collect_waits (i ∷ is) acc (suc n) rx fuel q live =
      let (got, left, same) = Q.recv-cons (some i) (map some is) rx q in
      collect_one i acc n rx got
      ∙ collect_waits is (acc ++ i ∷ []) n (Q.recv rx).1 (omega arith) left (same ∙ live)

module _ (R : WebRtcRs) (Q : Unbounded (Option IceCandidate)) where
  -- The handler, called with one candidate after the other.
  unfoldable pub gather : List R.IceCandidate → Q.Chan → Q.Chan
  gather [] tx = tx
  gather (c ∷ cs) tx = gather cs (handle_ice_candidate R Q (some c) tx)

  -- One candidate, buffered or passed over.
  gather_one :
      (c : R.IceCandidate) (cs : List R.IceCandidate) (tx : Q.Chan)
      → ((i : IceCandidate) × (handle_ice_candidate R Q (some c) tx ≡ Q.send (some i) tx)
          × (serializable R (c ∷ cs) ≡ i ∷ serializable R cs))
        ⊎ ((handle_ice_candidate R Q (some c) tx ≡ tx)
            × (serializable R (c ∷ cs) ≡ serializable R cs))
  unfolding handle_ice_candidate serializable
  gather_one c cs tx = elim (Result-cases (R.to_json c)) [
    | inl (init, e) ↦ inl (candidate_of_init init, ground arith, ground arith)
    | inr (why, e) ↦ inr (ground arith, ground arith)
  ]

  gather_buffers :
      (cs : List R.IceCandidate) (before : List IceCandidate) (tx : Q.Chan)
      → Q.queue tx ≡ map some before
      → Q.has_sender tx ≡ true
      → (Q.queue (gather cs tx) ≡ map some (before ++ serializable R cs))
        × (Q.has_sender (gather cs tx) ≡ true)
  unfolding gather serializable
  gather_buffers [] before tx q live = (q ∙ ap (map some) (sym (append-nil before)), live)
  gather_buffers (c ∷ cs) before tx q live = elim (gather_one c cs tx) [
    | inl (i, sends, adds) ↦
        let tx' = Q.send (some i) tx in
        let grown : Q.queue tx' ≡ map some (before ++ i ∷ []) =
          rw (Q.queue-send (some i) tx, q, map-append some before (i ∷ [])) in
        let (buffered, alive) =
          gather_buffers cs (before ++ i ∷ []) tx' grown (Q.has_sender-send (some i) tx ∙ live) in
        rw (sends, adds)
          (buffered ∙ ap (map some) (append_assoc before (i ∷ []) (serializable R cs)), alive)
    | inr (passes, adds) ↦ rw (passes, adds) (gather_buffers cs before tx q live)
  ]

  -- After the handler was called with candidates in turn, on a new channel, `collect_ice_candidates`
  -- waits; once it is called at the end of the gathering too, the loop returns the candidates that
  -- serialize, in the order of the calls, and leaves the channel empty. This is so if
  -- the loop may take more turns than there are such candidates.
  pub collect_gathers :
      (cs : List R.IceCandidate) (n : ℕ)
      → length (serializable R cs) < n
      → let gathered = gather cs Q.unbounded in
        (collect_ice_candidates Q n [] gathered ≡ waiting)
        × (rest : Q.Chan) × (collect_ice_candidates Q n [] (handle_ice_candidate R Q none gathered)
            ≡ finished (serializable R cs) rest)
        × (Q.queue rest ≡ [])
  unfolding handle_ice_candidate
  collect_gathers cs n fuel =
      let (q, live) = gather_buffers cs [] Q.unbounded Q.queue-unbounded Q.has_sender-unbounded in
      let gathered = gather cs Q.unbounded in
      let (rest, done, empty) =
        collect_to_end Q (serializable R cs) [] n (Q.send none gathered) fuel
          (rw (Q.queue-send none gathered, q)) in
      (collect_waits Q (serializable R cs) [] n gathered fuel q live, rest, done, empty)

module _ (S : AsyncCell PeerConnectionState) where
  unfoldable pub states_change : List RtcPeerConnectionState → S.Cell → S.Cell
  states_change [] cell = cell
  states_change (s ∷ ss) cell = states_change ss (handle_peer_connection_state_change S s cell)

module _ (B : AsyncCell Bool) where
  -- What happened to a data channel, `true` for opened and `false` for closed.
  unfoldable pub channel_events : List Bool → B.Cell → B.Cell
  channel_events [] cell = cell
  channel_events (true ∷ es) cell = channel_events es (handle_data_channel_open B cell)
  channel_events (false ∷ es) cell = channel_events es (handle_data_channel_close B cell)

  -- `wait_ready` returns at once if the last event of the channel is that it opened, and waits if it is
  -- that it closed. It takes two turns at most.
  pub wait_ready_last :
      (es : List Bool) (cell : B.Cell)
      → ((rest : B.Cell) × (wait_ready B 2 (channel_events (es ++ true ∷ []) cell)
            ≡ finished tt rest))
        × (wait_ready B 2 (channel_events (es ++ false ∷ []) cell) ≡ waiting)
  unfolding channel_events wait_ready handle_data_channel_open handle_data_channel_close
  wait_ready_last [] cell = (
    (B.empty, ground (arith, B.take-set true cell)),
    ground (arith, B.take-set false cell, B.take-empty),
  )
  wait_ready_last (true ∷ es) cell = wait_ready_last es (handle_data_channel_open B cell)
  wait_ready_last (false ∷ es) cell = wait_ready_last es (handle_data_channel_close B cell)
