-- ===== src/Tests/Builds.antt =====
-- The two platforms' `build` and methods at concrete libraries.
use just_webrtc.Common.{
  String, ◌≡◌, refl, ◌⊎◌, ◌<◌, true, none, some, List, [], ◌∷◌, ◌++◌, map, length, if◌then◌else◌,
  All, AllDistinct, arith,
}
use just_webrtc.Common.Action.{Result, ok, ret, fail}
use just_webrtc.Common.Decimal.{numbered}
use just_webrtc.WebRtc.Types.{IceCandidate, default_options}
use just_webrtc.WebRtc.Builder.{PeerConnectionBuilder, new, ChannelOptions}
use just_webrtc.WebRtc.Plan.{Request, build_plan, opened_labels, offering}
use just_webrtc.WebRtc.Queue.{each, received, handled}
use just_webrtc.WebRtc.Native.Foreign.{RtcSdpType, RtcDataChannelInit}
use just_webrtc.WebRtc.Native.Connections.{Bytes, Call, Connections}
use just_webrtc.WebRtc.Native.Link.{waiting, recv_error, finished}
use just_webrtc.WebRtc.Native.Build as Native
use just_webrtc.WebRtc.Native.Planned as NativePlan
use just_webrtc.WebRtc.Native.Built.{build_asks_plan}
use just_webrtc.WebRtc.Native.Methods as NativeMethods
use just_webrtc.WebRtc.Native.Channels.{channels_received}
use just_webrtc.WebRtc.Wasm.Foreign.{
  RtcSdpType as WebSdpType, Browser, RtcIceCandidate, MessageData, array_buffer, blob,
}
use just_webrtc.WebRtc.Wasm.Build as Web
use just_webrtc.WebRtc.Wasm.Planned as WebPlan
use just_webrtc.WebRtc.Wasm.Built.{web_build_asks_plan}
use just_webrtc.WebRtc.Wasm.Link.{
  handle_ice_candidate, collect_ice_candidates, handle_data_channel_message,
}
use just_webrtc.WebRtc.Wasm.Methods as WebMethods
use just_webrtc.WebRtc.Wasm.Received.{sent_candidate, web_collects, bodies, web_messages_received}
use just_webrtc.WebRtc.Wasm.Ids.{dicts, ids, web_channel_ids}
use just_webrtc.WebRtc.Wasm.Thrown.{ThrownBy, own_channels}
use just_webrtc.WebRtc.Wasm.Local.{SetLast}
use just_webrtc.Tests.Native.{rs, lists, options, q}

abbrev pub created : String → Result String String
created l = ok l

-- A channel is its label; a description answered is a text, and a local one is there.
pub same_label :
    (l : String) (o : RtcDataChannelInit) (calls : List (Call rs String)) (c : String)
    → created l ≡ ok c
    → c ≡ l
same_label l o calls c e = ground arith

abbrev pub conns : Connections rs
conns = record {
  DataChannel = String;
  label = λ c. c;
  id = λ _. 0;
  new_peer_connection = λ _ _. ok tt;
  set_remote_description = λ _ _. ok tt;
  create_answer = λ _. rs.answer_description "answer";
  create_offer = λ _. rs.offer_description "offer";
  create_data_channel = λ l _ _. created l;
  set_local_description = λ _ _. ok tt;
  local_description = λ _. some (RtcSdpType.offer, "v=0");
  add_ice_candidate = λ _ _. ok tt;
  send = λ _ b _. ok (length b);
  label-create_data_channel = same_label;
}

abbrev pub page : Browser
page = record {
  JsValue = String;
  DataChannel = String;
  label = λ c. c;
  id = λ _. some 0;
  to_value = λ _. ok "servers";
  error_text = λ e. e;
  reflect_get = λ v _. ok v;
  as_string = λ v. some v;
  new_with_configuration = λ _ _. ok tt;
  set_remote_description = λ _ _. ok tt;
  create_answer = λ _. ok "answer";
  create_offer = λ _. ok "offer";
  create_data_channel = λ l _ _. ok l;
  set_local_description = λ _ _. ok tt;
  local_description = λ _. some (record { type_ = WebSdpType.answer; sdp = "v=0" });
  add_ice_candidate = λ _ _. ok tt;
  send_with_u8_array = λ _ _ _. ok tt;
  answer_sdp = λ _ v m _ _. (m, refl);
  offer_sdp = λ _ v m _ _. (m, refl);
}

abbrev two_channels : ChannelOptions
two_channels = ("a_", default_options) ∷ ("b_", default_options) ∷ []

unfoldable offering_two : PeerConnectionBuilder
unfolding new
offering_two = record new { channel_options = two_channels }

abbrev native_session : Native.Session rs conns lists options
native_session =
    (Native.build rs conns lists options offering_two (Native.start rs conns lists options)).1

abbrev web_session : Web.Session page lists options
web_session = (Web.build page lists options offering_two (Web.start page lists options)).1

native_returns :
    (Native.build rs conns lists options offering_two (Native.start rs conns lists options)).0
    ≡ ret (record { is_offerer = true })
unfolding Native.build offering_two
native_returns = refl

build_asks_plan_example :
    (done : List Request) × (rest : List Request) × (done ++ rest ≡ build_plan offering_two)
    × (NativePlan.asked rs conns lists options native_session ≡ done)
    × (((c : Native.PeerConnection rs conns lists options) × ((Native.build rs conns lists options
              offering_two
              (Native.start rs conns lists options)).0
            ≡ ret c)
          × (rest ≡ [])
          × (c.is_offerer ≡ offering offering_two)
          × (NativePlan.handed_labels rs conns lists options native_session
              ≡ opened_labels offering_two))
        ⊎ ((e : Native.Error rs) × ((Native.build rs conns lists options offering_two
                (Native.start rs conns lists options)).0
              ≡ fail e)))
build_asks_plan_example = build_asks_plan rs conns lists options offering_two

channels_received_example :
    let (got, after) =
      received
        (NativeMethods.receive_channel rs conns lists options)
        (length (opened_labels offering_two))
        native_session in
    (map (NativeMethods.label rs conns lists options) got ≡ opened_labels offering_two)
    × (NativeMethods.receive_channel rs conns lists options after
        ≡ (if true then recv_error else waiting))
channels_received_example =
    channels_received rs conns lists options offering_two (record { is_offerer = true })
      native_returns

two_labels : opened_labels offering_two ≡ "a_0" ∷ "b_1" ∷ []
unfolding opened_labels offering_two numbered
two_labels = refl

abbrev pub a_candidate : IceCandidate
a_candidate = record {
  candidate = "candidate:1 1 udp 1 192.0.2.1 5000 typ host";
  sdp_mid = some "";
  sdp_mline_index = some 0;
  username_fragment = none;
}

web_build_asks_plan_example :
    (done : List Request) × (rest : List Request) × (done ++ rest ≡ build_plan offering_two)
    × (WebPlan.asked page lists options web_session ≡ done)
    × (((c : Web.PeerConnection page lists options) × ((Web.build page lists options offering_two
              (Web.start page lists options)).0
            ≡ ret c)
          × (rest ≡ [])
          × (c.is_offerer ≡ offering offering_two)
          × SetLast page lists options (offering offering_two) web_session.calls)
        ⊎ ((e : Web.Exit page) × ((Web.build page lists options offering_two
                (Web.start page lists options)).0
              ≡ fail e)
            × ThrownBy page lists options 0 (own_channels page lists options offering_two) e))
web_build_asks_plan_example = web_build_asks_plan page lists options offering_two

abbrev browser_candidate : RtcIceCandidate
browser_candidate = record { candidate = ""; sdp_mid = none; sdp_m_line_index = some 0 }

web_collects_example :
    let cs = browser_candidate ∷ browser_candidate ∷ [] in
    let gathered = handled q (λ c. handle_ice_candidate q (some c)) cs q.unbounded in
    (rest : q.Chan) × (collect_ice_candidates q 3 [] (handle_ice_candidate q none gathered)
      ≡ finished (map sent_candidate cs) rest)
    × (q.queue rest ≡ [])
web_collects_example = web_collects q (browser_candidate ∷ browser_candidate ∷ []) 3 (omega arith)

abbrev some_data : List MessageData
some_data = array_buffer (1 ∷ []) ∷ blob ∷ array_buffer (2 ∷ []) ∷ []

abbrev web_channel : Web.Channel page lists options
web_channel = record { inner = "a_0"; ready_state = none; rx = ((1 ∷ []) ∷ (2 ∷ []) ∷ [], true) }

web_buffered :
    web_channel.rx
    ≡ handled
        (lists Bytes)
        (handle_data_channel_message (lists Bytes))
        some_data
        (lists Bytes).unbounded
unfolding handled handle_data_channel_message
web_buffered = refl

web_messages_received_example :
    let bytes = each (bodies page lists options) some_data in
    let (got, after) =
      received (WebMethods.receive page lists options) (length bytes) web_channel in
    (got ≡ bytes) × (WebMethods.receive page lists options after ≡ waiting)
web_messages_received_example =
    web_messages_received page lists options some_data web_channel web_buffered

web_channel_ids_example :
    AllDistinct (ids (dicts 0 two_channels)) × All (λ id. id < 65536) (ids (dicts 0 two_channels))
web_channel_ids_example = web_channel_ids two_channels (refl, (refl, tt)) (omega arith)
