-- ===== src/Tests/Monitored.antt =====
-- The monitoring loop of the example peer at concrete states.
use just_webrtc.Common.{String, ◌≡◌, refl, ◌⊎◌, true, none, some, [], ◌∷◌}
use just_webrtc.Common.Action.{ret}
use just_webrtc.Common.Decimal.{numbered}
use just_webrtc.WebRtc.Types.{connected, disconnected, failed, closed, default_options}
use just_webrtc.WebRtc.Builder.{PeerConnectionBuilder}
use just_webrtc.WebRtc.Builder as WebRtcBuilder
use just_webrtc.WebRtc.Plan.{opened_labels}
use just_webrtc.WebRtc.Native.Link.{Progress, waiting}
use just_webrtc.WebRtc.Native.Build.{Channel, Session, start, build}
use just_webrtc.WebRtc.Native.Methods.{receive_channel, label}
use just_webrtc.Example.Monitor.{
  Monitor, continues, returned, panicked, watch, on_state, Turn, state_changed, timed_out, seen,
}
use just_webrtc.Example.Watching.{
  interrupted, Watched, begun, turned, timeout_while_interrupted, returns_at_end,
}
use just_webrtc.Example.Reconnecting.{unseen_interruption_panics}
use just_webrtc.Tests.Native.{rs, lists, options}
use just_webrtc.Tests.Builds.{conns}

-- A connection that has no channel yet; it is watched from the start, and then interrupted.
abbrev no_channel : Unit {0} → Progress String (Unit {0})
no_channel _ = waiting

abbrev interrupted_monitor : Monitor String (Unit {0})
interrupted_monitor = record {
  peer_connection = tt;
  connection_drop_timeout = true;
  channel_ready = none;
  channel_task = none;
}

was_interrupted : Watched no_channel true tt (disconnected ∷ []) interrupted_monitor
unfolding watch on_state seen
was_interrupted =
    turned (disconnected ∷ []) [] interrupted_monitor (watch String (Unit {0}) tt)
      (begun [] (watch String (Unit {0}) tt) refl refl) (state_changed disconnected refl) refl

timeout_while_interrupted_example : true ≡ interrupted (disconnected ∷ [])
timeout_while_interrupted_example =
    timeout_while_interrupted no_channel true tt (disconnected ∷ []) interrupted_monitor
      was_interrupted

abbrev over : Turn no_channel true interrupted_monitor returned
over = timed_out refl refl

returns_at_end_example :
    ((seen no_channel true over ≡ failed ∷ []) ⊎ (seen no_channel true over ≡ closed ∷ []))
    ⊎ ((seen no_channel true over ≡ []) × (interrupted (disconnected ∷ []) ≡ true))
returns_at_end_example =
    returns_at_end no_channel true tt (disconnected ∷ []) interrupted_monitor over was_interrupted

unfoldable offering_one : PeerConnectionBuilder
unfolding WebRtcBuilder.new
offering_one = record WebRtcBuilder.new {
  channel_options = ("example_channel_", default_options) ∷ [];
}

one_returns :
    (build rs conns lists options offering_one (start rs conns lists options)).0
    ≡ ret (record { is_offerer = true })
unfolding build offering_one
one_returns = refl

one_label : opened_labels offering_one ≡ "example_channel_0" ∷ []
unfolding opened_labels offering_one numbered
one_label = refl

unseen_interruption_panics_example :
    let s = (build rs conns lists options offering_one (start rs conns lists options)).1 in
    let on = on_state (receive_channel rs conns lists options) true in
    (channel : Channel rs conns lists options) × (m1 : Monitor
      (Channel rs conns lists options)
      (Session rs conns lists options))
    × (m2 : Monitor (Channel rs conns lists options) (Session rs conns lists options)) × (on
          connected
          (watch _ _ s)
        ≡ continues m1)
    × (m1.channel_ready ≡ some (channel, true))
    × (label rs conns lists options channel ≡ "example_channel_0")
    × (on connected m1 ≡ panicked)
    × (on disconnected m1 ≡ continues m2)
    × (on connected m2 ≡ continues m1)
unseen_interruption_panics_example =
    unseen_interruption_panics rs conns lists options offering_one (record { is_offerer = true })
      "example_channel_0" one_returns refl one_label
