-- ===== src/Tests/Builder.antt =====
-- The builder of peer connections at concrete calls.
use just_webrtc.Common.{◌≡◌, refl, some, List, [], ◌∷◌}
use just_webrtc.Common.Action.{ok}
use just_webrtc.WebRtc.Types.{SessionDescription, answer, default_configuration}
use just_webrtc.WebRtc.Builder
use just_webrtc.WebRtc.Builder.{
  PeerConnectionBuilder, new, Call, calls, with_remote_offer, with_channel_options,
  conflicting_build_options, simple_local, simple_remote,
}
use just_webrtc.WebRtc.Exclusive.{IsExclusive, calls-IsExclusive}

abbrev a_description : SessionDescription
a_description = record { sdp_type = answer; sdp = "v=0" }

abbrev some_calls : List Call
some_calls =
    Call.outgoing_buffer 4
    ∷ Call.remote_offer (some a_description)
    ∷ Call.config default_configuration
    ∷ []

abbrev built : PeerConnectionBuilder
built = record new {
  outgoing_buffer = 4;
  remote_offer = some a_description;
  config = default_configuration;
}

some_calls_succeed : calls some_calls new ≡ ok built
unfolding calls Builder.call with_remote_offer new Builder.set_config Builder.set_outgoing_buffer
some_calls_succeed = refl

calls-IsExclusive_example : IsExclusive built
calls-IsExclusive_example = calls-IsExclusive some_calls built some_calls_succeed
