-- ===== src/Client/Loop.antt =====
-- The loop `loop { peer.step().await? }`: the three listeners stay queued.
use just_webrtc.Common.{
  ℕ, zero, suc, ◌+◌, ◌≡◌, ◌∙◌, subst, inl, inr, Option, none, some, List, [], ◌∷◌, All, arith,
  Option-cases,
}
use just_webrtc.Common.Action.{Result-cases, ok, err, ret, fail, panic}
use just_webrtc.Proto.{PeerListenerRsp, OfferListenerRsp, AnswerListenerRsp}
use just_webrtc.Client.State.{
  Signals, Streaming, arrived, ended, broken, SignallingState, Resolution, SignallingStateFut,
  peer_listener_fut, offer_listener_fut, answer_listener_fut, callback_fut,
}
use just_webrtc.Client.Tasks.{
  resolve, peer_listener_task, offer_listener_task, answer_listener_task,
}
use just_webrtc.Client.Rpc.{Stub}
use just_webrtc.Client.Step.{Session, handle, Next-cases, completed, next, step}
use just_webrtc.Client.Armed.{
  Listener, peers, offers, answers, heard, awaited, listening, handle_rearms,
}
use just_webrtc.Client.Chains.{IsChain, FutIsChain, RunsChains, handle-Extends, Extends-RunsChains}

module _ (G : Signals) where
  offer_task_heard :
      (k : Listener) (l : Streaming OfferListenerRsp) (st : SignallingState G)
      → offer_listener_task G l ≡ some (ok st)
      → heard k st ≡ awaited {G = G} k (offer_listener_fut l)
  unfolding offer_listener_task
  offer_task_heard k [] st e = cc
  offer_task_heard peers (arrived m ∷ l) st e = ground (arith, offer_task_heard peers l st)
  offer_task_heard offers (arrived m ∷ l) st e = ground (arith, offer_task_heard offers l st)
  offer_task_heard answers (arrived m ∷ l) st e = ground (arith, offer_task_heard answers l st)
  offer_task_heard k (ended ∷ l) st e = ground arith
  offer_task_heard k (broken x ∷ l) st e = ground arith

  answer_task_heard :
      (k : Listener) (l : Streaming AnswerListenerRsp) (st : SignallingState G)
      → answer_listener_task G l ≡ some (ok st)
      → heard k st ≡ awaited {G = G} k (answer_listener_fut l)
  unfolding answer_listener_task
  answer_task_heard k [] st e = cc
  answer_task_heard peers (arrived m ∷ l) st e = ground (arith, answer_task_heard peers l st)
  answer_task_heard offers (arrived m ∷ l) st e = ground (arith, answer_task_heard offers l st)
  answer_task_heard answers (arrived m ∷ l) st e = ground (arith, answer_task_heard answers l st)
  answer_task_heard k (ended ∷ l) st e = ground arith
  answer_task_heard k (broken x ∷ l) st e = ground arith

  peer_task_heard :
      (k : Listener) (l : Streaming PeerListenerRsp) (st : SignallingState G)
      → peer_listener_task G l ≡ some (ok st)
      → heard k st ≡ awaited {G = G} k (peer_listener_fut l)
  unfolding peer_listener_task
  peer_task_heard k [] st e = cc
  peer_task_heard peers (arrived m ∷ l) st e = ground arith
  peer_task_heard offers (arrived m ∷ l) st e = ground arith
  peer_task_heard answers (arrived m ∷ l) st e = ground arith
  peer_task_heard k (ended ∷ l) st e = ground arith
  peer_task_heard k (broken x ∷ l) st e = ground arith

  callback_heard :
      (k : Listener) (r : Resolution G) (st : SignallingState G)
      → IsChain r
      → r ≡ some (ok st)
      → heard k st ≡ 0
  callback_heard k none st c e = cc
  callback_heard k (some (err x)) st c e = ground arith
  callback_heard peers (some (ok x)) st c e = ground arith
  callback_heard offers (some (ok x)) st c e = ground arith
  callback_heard answers (some (ok x)) st c e = ground arith

  resolve-heard :
      (k : Listener) (f : SignallingStateFut G) (st : SignallingState G)
      → FutIsChain f
      → resolve G f ≡ some (ok st)
      → heard k st ≡ awaited k f
  unfolding resolve
  resolve-heard k (peer_listener_fut l) st c e = peer_task_heard k l st e
  resolve-heard k (offer_listener_fut l) st c e = offer_task_heard k l st e
  resolve-heard k (answer_listener_fut l) st c e = answer_task_heard k l st e
  resolve-heard peers (callback_fut r) st c e = callback_heard peers r st c e
  resolve-heard offers (callback_fut r) st c e = callback_heard offers r st c e
  resolve-heard answers (callback_fut r) st c e = callback_heard answers r st c e

  -- What `next` leaves: the completed future is taken out, all others stay.
  next_takes :
      (k : Listener) (i : ℕ) (fs rest : List (SignallingStateFut G)) (st : SignallingState G)
      → All FutIsChain fs
      → next G i fs ≡ completed (ok st) rest
      → (listening k rest + heard k st ≡ listening k fs) × All FutIsChain rest
  unfolding next listening
  next_takes k i [] rest st c e = ground arith
  next_takes k zero (f ∷ fs) rest st c e = elim (Option-cases (resolve G f)) [
    | inl never ↦ ground arith
    | inr (r, done) ↦
        let left : fs ≡ rest = ground arith in
        (ground (arith, resolve-heard k f st c.0), subst (All FutIsChain) left c.1)
  ]
  next_takes k (suc i) (f ∷ fs) rest st c e = elim (Next-cases G (next G i fs)) [
    | inl (r, rest', done) ↦
        let ih = next_takes k i fs rest' st c.1 (ground arith) in
        let left : f ∷ rest' ≡ rest = ground arith in
        (ground (arith, ih.0), subst (All FutIsChain) left (c.0, ih.1))
    | inr none_done ↦ ground arith
  ]

module _ (G : Signals) {W : Type 0} (stub : Stub W) where
  -- A step that succeeds leaves as many tasks of each listener queued as there were.
  step_keeps_listening :
      (k : Listener) (i : ℕ) (s t : Session G W)
      → RunsChains s.peer
      → step G stub i s ≡ some (ret tt, t)
      → (listening k t.peer.unordered_futs ≡ listening k s.peer.unordered_futs) × RunsChains t.peer
  unfolding step
  step_keeps_listening k i s t c e = elim (Next-cases G (next G i s.peer.unordered_futs)) [
    | inr none_done ↦ ground arith
    | inl (r, rest, done) ↦ elim (Result-cases r) [
      | inr (x, failed) ↦ ground arith
      | inl (state, resolved) ↦
          let taken = next_takes G k i s.peer.unordered_futs rest state c.queued (ground arith) in
          let s' = record s { peer = record s.peer { unordered_futs = rest } } in
          let c' : RunsChains s'.peer = record {
            creates = c.creates;
            receives_answer = c.receives_answer;
            completes_local = c.completes_local;
            receives_offer = c.receives_offer;
            completes_remote = c.completes_remote;
            queued = taken.1;
          } in
          let after : (handle G stub state s').1 ≡ t = ground arith in
          let chains = Extends-RunsChains (handle-Extends G stub state s' c') c' in
          (
            ground (arith, taken.0, handle_rearms G stub k state s'),
            subst (λ (u : Session G W). RunsChains u.peer) after chains,
          )
    ]
  ]

  -- The loop over the choices of the environment, which goes on as long as `step` returns `Ok`.
  unfoldable pub run_steps : List ℕ → Session G W → Option (Session G W)
  run_steps [] s = some s
  run_steps (i ∷ is) s = elim (step G stub i s) [
    | none ↦ none
    | some (outcome, t) ↦ elim outcome [ ret _ ↦ run_steps is t | _ ↦ none ]
  ]

  run_steps-listening :
      (k : Listener) (is : List ℕ) (s t : Session G W)
      → RunsChains s.peer
      → run_steps is s ≡ some t
      → listening k t.peer.unordered_futs ≡ listening k s.peer.unordered_futs
  unfolding run_steps
  run_steps-listening k [] s t c e = ground arith
  run_steps-listening k (i ∷ is) s t c e = elim (Option-cases (step G stub i s)) [
    | inl waits ↦ ground arith
    | inr ((ret v, u), stepped) ↦
        let kept = step_keeps_listening k i s u c stepped in
        let rest = run_steps-listening k is u t kept.1 (ground arith) in rest ∙ kept.0
    | inr ((fail x, u), stepped) ↦ ground arith
    | inr ((panic, u), stepped) ↦ ground arith
  ]

  -- If exactly one task of a listener is queued at a peer, and no callback of the peer resolves to a
  -- listener's state, then exactly one is queued after any number of steps that succeed, however the
  -- queued futures complete. This holds of each of the three listeners.
  pub run_steps_keeps_listeners :
      (k : Listener) (is : List ℕ) (s t : Session G W)
      → RunsChains s.peer
      → listening k s.peer.unordered_futs ≡ 1
      → run_steps is s ≡ some t
      → listening k t.peer.unordered_futs ≡ 1
  run_steps_keeps_listeners k is s t c one e = run_steps-listening k is s t c e ∙ one
