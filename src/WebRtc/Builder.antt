-- ===== src/WebRtc/Builder.antt =====
-- `PeerConnectionBuilder` of crates/just-webrtc/src/lib.rs, and the two simple builders on it.
use just_webrtc.Common.{ℕ, String, Bool, Option, none, some, List, [], ◌∷◌}
use just_webrtc.Common.Action.{Result, ok, err, Outcome, ret, panic}
use just_webrtc.WebRtc.Types.{
  password, PeerConfiguration, default_configuration, SessionDescription, DataChannelOptions,
  default_options,
}

pub data PeerConnectionBuilderError : Type 0 where
  conflicting_build_options : PeerConnectionBuilderError

abbrev pub ChannelOptions : Type 0
ChannelOptions = List (String × DataChannelOptions)

pub record PeerConnectionBuilder : Type 0 where
  pub config : PeerConfiguration
  pub outgoing_buffer : ℕ
  pub remote_offer : Option SessionDescription
  pub channel_options : ChannelOptions

-- `PeerConnectionBuilder::default`, which `new` calls.
unfoldable pub new : PeerConnectionBuilder
new = record {
  config = record default_configuration {
    ice_servers =
        record {
          urls = "stun:stun.l.google.com:19302" ∷ "stun:stun1.l.google.com:19302" ∷ [];
          username = "";
          credential = "";
          credential_type = password;
        }
        ∷ [];
  };
  outgoing_buffer = 16;
  remote_offer = none;
  channel_options = [];
}

unfoldable pub set_config : PeerConfiguration → PeerConnectionBuilder → PeerConnectionBuilder
set_config set b = record b { config = set }

unfoldable pub set_outgoing_buffer : ℕ → PeerConnectionBuilder → PeerConnectionBuilder
set_outgoing_buffer set b = record b { outgoing_buffer = set }

unfoldable pub with_remote_offer :
    Option SessionDescription
    → PeerConnectionBuilder
    → Result PeerConnectionBuilderError PeerConnectionBuilder
with_remote_offer set b = elim b.channel_options [
  | [] ↦ ok (record b { remote_offer = set })
  | _ ∷ _ ↦ err conflicting_build_options
]

unfoldable pub with_channel_options :
    ChannelOptions → PeerConnectionBuilder → Result PeerConnectionBuilderError PeerConnectionBuilder
with_channel_options set b = elim b.remote_offer [
  | none ↦ ok (record b { channel_options = set })
  | some _ ↦ err conflicting_build_options
]

-- `unwrap`, before the platform's `build` takes over.
abbrev pub unwrap : {E A : Type 0} → Result E A → Outcome E A
unwrap (ok a) = ret a
unwrap (err e) = panic

-- The builder from which `SimpleLocalPeerConnection::build` builds.
unfoldable pub simple_local : Bool → Outcome PeerConnectionBuilderError PeerConnectionBuilder
unfolding new with_channel_options
simple_local ordered = unwrap (
    with_channel_options
      (("simple_channel_", record default_options { ordered = some ordered }) ∷ []) new)

-- The builder from which `SimpleRemotePeerConnection::build` builds.
unfoldable pub simple_remote :
    SessionDescription → Outcome PeerConnectionBuilderError PeerConnectionBuilder
unfolding new with_remote_offer
simple_remote offer = unwrap (with_remote_offer (some offer) new)

-- The calls of a user of the builder. One that fails consumes it.
pub data Call : Type 0 where
  config : PeerConfiguration → Call
  outgoing_buffer : ℕ → Call
  remote_offer : Option SessionDescription → Call
  channel_options : ChannelOptions → Call

unfoldable pub call :
    Call → PeerConnectionBuilder → Result PeerConnectionBuilderError PeerConnectionBuilder
unfolding set_config set_outgoing_buffer with_remote_offer with_channel_options
call (config c) b = ok (set_config c b)
call (outgoing_buffer n) b = ok (set_outgoing_buffer n b)
call (remote_offer o) b = with_remote_offer o b
call (channel_options cs) b = with_channel_options cs b

unfoldable pub calls :
    List Call → PeerConnectionBuilder → Result PeerConnectionBuilderError PeerConnectionBuilder
calls [] b = ok b
calls (c ∷ cs) b = elim (call c b) [ ok b' ↦ calls cs b' | err e ↦ err e ]
