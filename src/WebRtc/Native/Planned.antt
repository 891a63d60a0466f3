-- ===== src/WebRtc/Native/Planned.antt =====
-- The native `build` asks what is planned.
use just_webrtc.Common.{
  ℕ, suc, String, ◌≡◌, refl, sym, ap, subst, ◌∙◌, inl, inr, Bool, true, false, Option, none, some,
  Option-cases, List, [], ◌∷◌, ◌++◌, arith, map,
}
use mathlib.Core.List.{append-nil, append_assoc, map-append}
use just_webrtc.Common.Action.{ok}
use just_webrtc.Common.Decimal.{numbered}
use just_webrtc.WebRtc.Types.{SessionDescription, DataChannelOptions}
use just_webrtc.WebRtc.Builder.{ChannelOptions, PeerConnectionBuilder}
use just_webrtc.WebRtc.Calls.{Follows}
use just_webrtc.WebRtc.Plan.{
  Request, accept, open_channel, add_candidate, make_answer, make_offer, set_local, labels,
  channel_requests, build_plan, opened_labels, offering,
}
use just_webrtc.WebRtc.Native.Foreign.{RtcDataChannelInit, WebRtcRs, Unbounded, AsyncCell}
use just_webrtc.WebRtc.Native.Connections.{Call, Connections}
use just_webrtc.WebRtc.Native.Convert.{
  candidate_of_init, data_channel_init, rtc_description, description_of,
}
use just_webrtc.WebRtc.Native.RoundTrip.{description_roundtrip}
use just_webrtc.WebRtc.Native.Watched.{
  Calls, State, Watch, channels_seen, build_seen, negotiation_seen, build-Follows,
}
use just_webrtc.WebRtc.Native.Build.{
  Channel, PeerConnection, note, handle_data_channel, build, end_of_scope,
}

-- The options that were converted.
unfoldable pub options_of : RtcDataChannelInit → DataChannelOptions
options_of init = record {
  ordered = init.ordered;
  max_packet_life_time = init.max_packet_life_time;
  max_retransmits = init.max_retransmits;
  protocol = init.protocol;
  negotiated = init.negotiated;
}

module _ (R : WebRtcRs) {D : Type 0} where
  -- What a call asks for, if it belongs to the negotiation.
  unfoldable pub request : Call R D → Option Request
  unfolding description_of options_of candidate_of_init
  request (Call.set_remote_description d) = some (accept (description_of R d))
  request (Call.create_data_channel l o) = some (open_channel l (options_of o))
  request (Call.add_ice_candidate init) = some (add_candidate (candidate_of_init init))
  request Call.create_answer = some make_answer
  request Call.create_offer = some make_offer
  request (Call.set_local_description d) = some set_local
  request _ = none

  unfoldable pub requests : List (Call R D) → List Request
  unfolding request
  requests [] = []
  requests (c ∷ cs) = elim (request c) [ none ↦ requests cs | some r ↦ r ∷ requests cs ]

  pub requests-append : (cs ds : List (Call R D)) → requests (cs ++ ds) ≡ requests cs ++ requests ds
  unfolding requests
  requests-append [] ds = refl
  requests-append (c ∷ cs) ds = ground (arith, requests-append cs ds)

module _ (R : WebRtcRs) (A : Connections R) (flume : (M : Type 0) → Unbounded M)
    (cells : (V : Type 0) → AsyncCell V) where
  abbrev pub asked : State R A flume cells → List Request
  asked s = requests R s.calls

  asked-handled :
      (c : A.DataChannel) (s : State R A flume cells)
      → asked (handle_data_channel R A flume cells c s) ≡ asked s ++ []
  unfolding handle_data_channel requests
  asked-handled c s = requests-append R s.calls _

  pub asked-note :
      (cs : Calls R A flume cells) (s : State R A flume cells)
      → asked (note R A flume cells cs s) ≡ asked s ++ requests R cs
  unfolding note
  asked-note cs s = requests-append R s.calls cs

  asked-scoped :
      (b : Bool) (s : State R A flume cells)
      → asked (end_of_scope R A flume cells b s) ≡ asked s ++ []
  unfolding end_of_scope
  asked-scoped true s = sym (append-nil (asked s))
  asked-scoped false s = sym (append-nil (asked s))

  pub accepts-description :
      (d : SessionDescription) (r : R.SessionDescription)
      → rtc_description R d ≡ ok r
      → requests R {D = A.DataChannel} (Call.set_remote_description r ∷ []) ≡ accept d ∷ []
  unfolding requests
  accepts-description d r e = ap (λ x. accept x ∷ []) (description_roundtrip R d r e)

  -- The negotiation, seen.
  unfoldable negotiation : Watch R A flume cells Request
  unfolding requests
  negotiation = record {
    view = asked;
    see = λ c. requests R (c ∷ []);
    see_all = requests R;
    named = λ _. [];
    accepted = λ d. accept d ∷ [];
    local = set_local ∷ [];
    noted = λ c. asked-note (c ∷ []);
    noted_all = asked-note;
    handled = asked-handled;
    accepts = accepts-description;
    sets_local = λ _. refl;
  }

  channels-asked :
      (index : ℕ) (os : ChannelOptions)
      → channels_seen R A flume cells negotiation index os ≡ channel_requests index os
  unfolding channels_seen channel_requests negotiation requests data_channel_init
  channels-asked index [] = refl
  channels-asked index ((label_prefix, options) ∷ os) =
      ap (λ rs. open_channel (numbered label_prefix index) options ∷ rs)
        (channels-asked (suc index) os)

  build-asked :
      (b : PeerConnectionBuilder) → build_seen R A flume cells negotiation b ≡ build_plan b
  unfolding build_seen negotiation_seen build_plan negotiation requests
  build-asked b = elim (Option-cases b.remote_offer) [
    | inl e ↦ rw e (
        append_assoc (channels_seen R A flume cells negotiation 0 b.channel_options)
          (make_offer ∷ []) (set_local ∷ [])
        ∙ ap (λ rs. rs ++ make_offer ∷ set_local ∷ []) (channels-asked 0 b.channel_options))
    | inr (offer, e) ↦ rw e refl
  ]

  -- The labels of the channels that were handed on, the next one first.
  unfoldable pub handed_labels : State R A flume cells → List String
  handed_labels s =
      map (λ (c : Channel R A flume cells). A.label c.inner) ((flume _).queue s.channels_rx)

  handed-handled :
      (c : A.DataChannel) (s : State R A flume cells)
      → handed_labels (handle_data_channel R A flume cells c s) ≡ handed_labels s ++ A.label c ∷ []
  unfolding handed_labels handle_data_channel
  handed-handled c s =
      let new : Channel R A flume cells = record {
        inner = c;
        ready_state = (cells Bool).empty;
        rx = (flume _).unbounded;
      } in
      let label_of : Channel R A flume cells → String = λ x. A.label x.inner in
      ap (map label_of) ((flume (Channel R A flume cells)).queue-send new s.channels_rx)
      ∙ map-append label_of ((flume (Channel R A flume cells)).queue s.channels_rx) (new ∷ [])

  handed-note :
      (cs : Calls R A flume cells) (s : State R A flume cells)
      → handed_labels (note R A flume cells cs s) ≡ handed_labels s ++ []
  unfolding note handed_labels
  handed-note cs s = sym (append-nil (handed_labels s))

  handed-scoped :
      (b : Bool) (s : State R A flume cells)
      → handed_labels (end_of_scope R A flume cells b s) ≡ handed_labels s ++ []
  unfolding end_of_scope handed_labels
  handed-scoped true s =
      ap (map (λ (c : Channel R A flume cells). A.label c.inner))
        ((flume (Channel R A flume cells)).queue-drop_sender s.channels_rx)
      ∙ sym (append-nil (handed_labels s))
  handed-scoped false s = sym (append-nil (handed_labels s))

  -- The channels that are handed on, seen.
  unfoldable handing : Watch R A flume cells String
  handing = record {
    view = handed_labels;
    see = λ _. [];
    see_all = λ _. [];
    named = λ l. l ∷ [];
    accepted = λ _. [];
    local = [];
    noted = λ c. handed-note (c ∷ []);
    noted_all = handed-note;
    handled = handed-handled;
    accepts = λ _ _ _. refl;
    sets_local = λ _. refl;
  }

  channels-handed :
      (index : ℕ) (os : ChannelOptions)
      → channels_seen R A flume cells handing index os ≡ labels index os
  unfolding channels_seen labels handing
  channels-handed index [] = refl
  channels-handed index ((label_prefix, options) ∷ os) =
      ap (λ ls. numbered label_prefix index ∷ ls) (channels-handed (suc index) os)

  build-handed :
      (b : PeerConnectionBuilder) → build_seen R A flume cells handing b ≡ opened_labels b
  unfolding build_seen negotiation_seen opened_labels handing
  build-handed b = elim (Option-cases b.remote_offer) [
    | inl e ↦ rw e (
        append-nil (channels_seen R A flume cells handing 0 b.channel_options ++ [])
        ∙ append-nil (channels_seen R A flume cells handing 0 b.channel_options)
        ∙ channels-handed 0 b.channel_options)
    | inr (offer, e) ↦ rw e refl
  ]

  abbrev pub Says : PeerConnectionBuilder → PeerConnection R A flume cells → Type 0
  Says b c = c.is_offerer ≡ offering b

  pub asked-Follows :
      (b : PeerConnectionBuilder) → Follows asked (build R A flume cells b) (build_plan b) (Says b)
  unfolding negotiation
  asked-Follows b =
      subst (λ plan. Follows asked (build R A flume cells b) plan (Says b))
        (append-nil _ ∙ build-asked b) (build-Follows R A flume cells negotiation b asked-scoped)

  pub handed_labels-Follows :
      (b : PeerConnectionBuilder)
      → Follows handed_labels (build R A flume cells b) (opened_labels b) (Says b)
  unfolding handing
  handed_labels-Follows b =
      subst (λ plan. Follows handed_labels (build R A flume cells b) plan (Says b))
        (append-nil _ ∙ build-handed b) (build-Follows R A flume cells handing b handed-scoped)
