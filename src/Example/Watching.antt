-- ===== src/Example/Watching.antt =====
-- What holds in every turn of `peer_echo_task`.
use just_webrtc.Common.{
  ◌≡◌, refl, sym, ap, ◌∙◌, inl, inr, ◌⊎◌, Bool, true, false, List, [], ◌∷◌, ◌++◌, arith,
}
use just_webrtc.WebRtc.Types.{
  PeerConnectionState, new, connecting, connected, disconnected, failed, closed,
}
use just_webrtc.WebRtc.Native.Link.{Progress}
use just_webrtc.Example.Monitor.{
  Monitor, continues, returned, watch, on_connected, on_state, Turn, seen, state_changed, ready,
  task_ended, task_failed, timed_out, timer_failed,
}

-- Whether the connection was interrupted and has not recovered, by its states, the last one first.
unfoldable pub interrupted : List PeerConnectionState → Bool
interrupted [] = false
interrupted (disconnected ∷ states) = true
interrupted (connected ∷ states) = false
interrupted (new ∷ states) = false
interrupted (_ ∷ states) = interrupted states

module _ {Channel S : Type 0} (receive_channel : S → Progress Channel S) (is_offerer : Bool) where
  -- A monitor that turns have led to, with the states that they were about, the last one first.
  pub data Watched (s : S) : List PeerConnectionState → Monitor Channel S → Type 0 where
    begun :
        (states : List PeerConnectionState) (m : Monitor Channel S)
        → states ≡ []
        → m ≡ watch Channel S s
        → Watched s states m
    turned :
        (states before : List PeerConnectionState) (m m0 : Monitor Channel S)
        → Watched s before m0
        → (turn : Turn receive_channel is_offerer m0 (continues m))
        → states ≡ seen receive_channel is_offerer turn ++ before
        → Watched s states m

  on_state-timeout :
      (state : PeerConnectionState) (before : List PeerConnectionState) (m0 m : Monitor Channel S)
      → on_state receive_channel is_offerer state m0 ≡ continues m
      → m0.connection_drop_timeout ≡ interrupted before
      → m.connection_drop_timeout ≡ interrupted (state ∷ before)
  unfolding on_state on_connected interrupted
  on_state-timeout new before m0 m e i = ground arith
  on_state-timeout connected before m0 m e i = ground arith
  on_state-timeout disconnected before m0 m e i = ground arith
  on_state-timeout failed before m0 m e i = ground arith
  on_state-timeout closed before m0 m e i = ground arith
  on_state-timeout connecting before m0 m e i = ground arith

  turn-timeout :
      (before : List PeerConnectionState) (m0 m : Monitor Channel S)
      (turn : Turn receive_channel is_offerer m0 (continues m))
      → m0.connection_drop_timeout ≡ interrupted before
      → m.connection_drop_timeout ≡ interrupted (seen receive_channel is_offerer turn ++ before)
  unfolding seen
  turn-timeout before m0 m (state_changed state e) i = on_state-timeout state before m0 m (sym e) i
  turn-timeout before m0 m (ready channel offerer there e) i = ground arith
  turn-timeout before m0 m (task_ended task there e) i = ground arith
  turn-timeout before m0 m (task_failed task there e) i = ground arith
  turn-timeout before m0 m (timed_out there e) i = ground arith
  turn-timeout before m0 m (timer_failed there e) i = ground arith

  -- Whatever completed in whichever order, the timeout runs exactly while the connection is
  -- interrupted: while the last of the states `New`, `Connected` and `Disconnected` that the loop saw
  -- was `Disconnected`.
  pub timeout_while_interrupted :
      (s : S) (states : List PeerConnectionState) (m : Monitor Channel S)
      → Watched s states m
      → m.connection_drop_timeout ≡ interrupted states
  unfolding interrupted watch
  timeout_while_interrupted s states m (begun _ _ e e') = ground (arith, e, e')
  timeout_while_interrupted s states m (turned _ before _ m0 w turn e) =
      turn-timeout before m0 m turn (timeout_while_interrupted s before m0 w)
      ∙ ap interrupted (sym e)

  -- The loop returns, without an error, only on the state `Failed` or `Closed`, or when the timeout is
  -- over while the connection is interrupted.
  pub returns_at_end :
      (s : S) (states : List PeerConnectionState) (m : Monitor Channel S)
      (turn : Turn receive_channel is_offerer m returned)
      → Watched s states m
      → ((seen receive_channel is_offerer turn ≡ failed ∷ [])
          ⊎ (seen receive_channel is_offerer turn ≡ closed ∷ []))
        ⊎ ((seen receive_channel is_offerer turn ≡ []) × (interrupted states ≡ true))
  unfolding seen on_state on_connected
  returns_at_end s states m (state_changed failed e) w = inl (inl refl)
  returns_at_end s states m (state_changed closed e) w = inl (inr refl)
  returns_at_end s states m (state_changed new e) w = ground arith
  returns_at_end s states m (state_changed connected e) w = ground arith
  returns_at_end s states m (state_changed connecting e) w = ground arith
  returns_at_end s states m (state_changed disconnected e) w = ground arith
  returns_at_end s states m (ready channel offerer there e) w = ground arith
  returns_at_end s states m (task_ended task there e) w = ground arith
  returns_at_end s states m (task_failed task there e) w = ground arith
  returns_at_end s states m (timed_out there e) w =
      inr (refl, sym (timeout_while_interrupted s states m w) ∙ there)
  returns_at_end s states m (timer_failed there e) w = ground arith
