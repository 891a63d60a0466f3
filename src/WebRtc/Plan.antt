-- ===== src/WebRtc/Plan.antt =====
-- What `PeerConnectionBuilder::build` is to ask of a WebRTC implementation, whichever it is.
use just_webrtc.Common.{ℕ, suc, Bool, true, false, String, none, some, List, [], ◌∷◌, ◌++◌}
use just_webrtc.Common.Decimal.{numbered}
use just_webrtc.WebRtc.Types.{IceCandidate, SessionDescription, DataChannelOptions}
use just_webrtc.WebRtc.Builder.{ChannelOptions, PeerConnectionBuilder}

-- The steps of the negotiation, and the candidates of the other peer. The registration of handlers is
-- not among them.
pub data Request : Type 0 where
  accept : SessionDescription → Request
  open_channel : String → DataChannelOptions → Request
  add_candidate : IceCandidate → Request
  make_answer make_offer set_local : Request

-- The labels of channels from an index on.
unfoldable pub labels : ℕ → ChannelOptions → List String
labels index [] = []
labels index ((label_prefix, options) ∷ os) = numbered label_prefix index ∷ labels (suc index) os

unfoldable pub channel_requests : ℕ → ChannelOptions → List Request
channel_requests index [] = []
channel_requests index ((label_prefix, options) ∷ os) =
    open_channel (numbered label_prefix index) options ∷ channel_requests (suc index) os

-- With a remote offer, it is accepted and answered; else the channels are opened, and an offer is made.
unfoldable pub build_plan : PeerConnectionBuilder → List Request
unfolding channel_requests
build_plan b = elim b.remote_offer [
  | some offer ↦ accept offer ∷ make_answer ∷ set_local ∷ []
  | none ↦ channel_requests 0 b.channel_options ++ make_offer ∷ set_local ∷ []
]

unfoldable pub offering : PeerConnectionBuilder → Bool
offering b = elim b.remote_offer [ some offer ↦ false | none ↦ true ]

-- The channels that the builder itself opens.
unfoldable pub opened_labels : PeerConnectionBuilder → List String
unfolding labels
opened_labels b = elim b.remote_offer [ some offer ↦ [] | none ↦ labels 0 b.channel_options ]
