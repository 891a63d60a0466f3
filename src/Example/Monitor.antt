-- ===== src/Example/Monitor.antt =====
-- `peer_echo_task`: the loop that watches a connection and runs one echo task on its channel. What it
-- receives channels from is a parameter, and a turn of the loop is the completion of one of its futures.
use just_webrtc.Common.{◌≡◌, Bool, true, false, Option, none, some, List, [], ◌∷◌}
use just_webrtc.WebRtc.Types.{
  PeerConnectionState, new, connecting, connected, disconnected, failed, closed,
}
use just_webrtc.WebRtc.Native.Link.{Progress, finished, waiting, recv_error, out_of_fuel}

module _ (Channel S : Type 0) where
  -- The futures: that of the state is always there, the others unless they are terminated. A channel
  -- goes with whether this peer is the offerer.
  pub record Monitor : Type 0 where
    pub peer_connection : S
    pub connection_drop_timeout : Bool
    pub channel_ready : Option (Channel × Bool)
    pub channel_task : Option (Channel × Bool)

  -- What a turn leads to. In `awaiting`, the loop stands still within its turn until there is a channel.
  pub data Next : Type 0 where
    continues : Monitor → Next
    awaiting : Next
    returned : Next
    stopped : Next
    panicked : Next

  unfoldable pub watch : S → Monitor
  watch s = record {
    peer_connection = s;
    connection_drop_timeout = false;
    channel_ready = none;
    channel_task = none;
  }

module _ {Channel S : Type 0} (receive_channel : S → Progress Channel S) (is_offerer : Bool) where
  -- `New` or `Connected`.
  unfoldable pub on_connected : Monitor Channel S → Next Channel S
  on_connected m = elim m.connection_drop_timeout [
    | true ↦ continues (record m { connection_drop_timeout = false })
    | false ↦ elim (receive_channel m.peer_connection) [
      | finished channel s ↦
          continues (record m { peer_connection = s; channel_ready = some (channel, is_offerer) })
      | recv_error ↦ panicked
      | waiting ↦ awaiting
      | out_of_fuel ↦ awaiting
    ]
  ]

  unfoldable pub on_state : PeerConnectionState → Monitor Channel S → Next Channel S
  unfolding on_connected
  on_state new m = on_connected m
  on_state connected m = on_connected m
  on_state disconnected m = continues (record m { connection_drop_timeout = true })
  on_state failed m = returned
  on_state closed m = returned
  on_state connecting m = continues m

  -- A turn. Only a future that is there completes; an echo task and a timeout may fail.
  pub data Turn (m : Monitor Channel S) (next : Next Channel S) : Type 0 where
    state_changed : (state : PeerConnectionState) → next ≡ on_state state m → Turn m next
    ready :
        (channel : Channel) (offerer : Bool)
        → m.channel_ready ≡ some (channel, offerer)
        → next
          ≡ continues (record m { channel_ready = none; channel_task = some (channel, offerer) })
        → Turn m next
    task_ended :
        (task : Channel × Bool)
        → m.channel_task ≡ some task
        → next ≡ continues (record m { channel_task = none })
        → Turn m next
    task_failed :
        (task : Channel × Bool) → m.channel_task ≡ some task → next ≡ stopped → Turn m next
    timed_out : m.connection_drop_timeout ≡ true → next ≡ returned → Turn m next
    timer_failed : m.connection_drop_timeout ≡ true → next ≡ stopped → Turn m next

  -- The state that a turn is about, if it is about one.
  unfoldable pub seen :
      {m : Monitor Channel S} {next : Next Channel S} → Turn m next → List PeerConnectionState
  seen (state_changed state e) = state ∷ []
  seen (ready channel offerer there e) = []
  seen (task_ended task there e) = []
  seen (task_failed task there e) = []
  seen (timed_out there e) = []
  seen (timer_failed there e) = []
