-- ===== src/WebRtc/Wasm/Planned.antt =====
-- The web `build` asks what is planned.
use just_webrtc.Common.{
  ℕ, suc, String, ◌≡◌, refl, sym, ap, subst, inl, inr, true, false, Option, none, some, List, [],
  ◌∷◌, ◌++◌, arith,
}
use mathlib.Core.List.{append-nil}
use just_webrtc.Common.Action.{Result, ok, err, Result-cases, modify}
use just_webrtc.Common.Decimal.{numbered}
use just_webrtc.WebRtc.Types.{IceCandidate, SdpType, SessionDescription, DataChannelOptions}
use just_webrtc.WebRtc.Builder.{ChannelOptions}
use just_webrtc.WebRtc.Calls.{
  Ends, Follows, Follows-bind, Follows-pure, Follows-ask, Follows-modify, Follows-one,
}
use just_webrtc.WebRtc.Plan.{
  Request, accept, open_channel, add_candidate, make_answer, make_offer, set_local,
  channel_requests,
}
use just_webrtc.WebRtc.Native.Foreign.{Unbounded, AsyncCell}
use just_webrtc.WebRtc.Wasm.Foreign.{
  RtcIceCandidateInit, RtcSdpType, RtcDataChannelInit, Call, Browser,
}
use just_webrtc.WebRtc.Wasm.Convert.{
  rtc_sdp_type, sdp_type_of, description_init, description_of, data_channel_dict, channel_id,
}
use just_webrtc.WebRtc.Wasm.Build.{
  webrtc_error, Exit, error, Session, note, js_value_to_error, mapped, await, try, unwrap, parsed,
  create, handle_data_channel, open_channels, created_description,
}

sdp_type_of-rtc_sdp_type : (t : SdpType) → sdp_type_of (rtc_sdp_type t) ≡ t
unfolding sdp_type_of rtc_sdp_type
sdp_type_of-rtc_sdp_type SdpType.answer = refl
sdp_type_of-rtc_sdp_type SdpType.offer = refl
sdp_type_of-rtc_sdp_type SdpType.pranswer = refl
sdp_type_of-rtc_sdp_type SdpType.rollback = refl

pub description_of-description_init :
    (d : SessionDescription) → description_of (description_init d) ≡ d
unfolding description_of description_init
description_of-description_init d =
    ap (λ t. record d { sdp_type = t }) (sdp_type_of-rtc_sdp_type d.sdp_type)

-- The options that a dictionary stands for: an id counts if the channel is negotiated.
unfoldable pub options_of : RtcDataChannelInit → DataChannelOptions
options_of init = record {
  ordered = init.ordered;
  max_packet_life_time = init.max_packet_life_time;
  max_retransmits = init.max_retransmits;
  protocol = init.protocol;
  negotiated = elim init.negotiated [
    | none ↦ none
    | some is ↦ elim is [ true ↦ init.id | false ↦ none ]
  ];
}

negotiated_kept :
    (index : ℕ) (o : DataChannelOptions)
    → (options_of (data_channel_dict index o)).negotiated ≡ o.negotiated
unfolding options_of data_channel_dict channel_id
negotiated_kept index o = ground arith

options_of-data_channel_dict :
    (index : ℕ) (o : DataChannelOptions) → options_of (data_channel_dict index o) ≡ o
unfolding options_of data_channel_dict
options_of-data_channel_dict index o =
    ap (λ n. record o { negotiated = n }) (negotiated_kept index o)

-- What a candidate's dictionary holds of it.
unfoldable pub candidate_of_init : RtcIceCandidateInit → IceCandidate
candidate_of_init init = record {
  candidate = init.candidate;
  sdp_mid = init.sdp_mid;
  sdp_mline_index = init.sdp_m_line_index;
  username_fragment = none;
}

module _ {J D : Type 0} where
  -- What a call asks for, if it belongs to the negotiation.
  unfoldable pub request : Call J D → Option Request
  unfolding description_of options_of candidate_of_init
  request (Call.set_remote_description d) = some (accept (description_of d))
  request (Call.create_data_channel l o) = some (open_channel l (options_of o))
  request (Call.add_ice_candidate init) = some (add_candidate (candidate_of_init init))
  request Call.create_answer = some make_answer
  request Call.create_offer = some make_offer
  request (Call.set_local_description d) = some set_local
  request _ = none

  unfoldable pub requests : List (Call J D) → List Request
  unfolding request
  requests [] = []
  requests (c ∷ cs) = elim (request c) [ none ↦ requests cs | some r ↦ r ∷ requests cs ]

  requests-append : (cs ds : List (Call J D)) → requests (cs ++ ds) ≡ requests cs ++ requests ds
  unfolding requests
  requests-append [] ds = refl
  requests-append (c ∷ cs) ds = ground (arith, requests-append cs ds)

module _ (A : Browser) (flume : (M : Type 0) → Unbounded M)
    (cells : (V : Type 0) → AsyncCell V) where
  abbrev pub State : Type 0
  State = Session A flume cells

  unfoldable pub asked : State → List Request
  asked s = requests s.calls

  asked-note :
      (cs : List (Call A.JsValue A.DataChannel)) (s : State)
      → asked (note A flume cells cs s) ≡ asked s ++ requests cs
  unfolding asked note
  asked-note cs s = requests-append s.calls cs

  abbrev pub Any : {X : Type 0} → X → Type 0
  Any x = Unit {0}

  pub await-Follows :
      {X : Type 0} (answer : List (Call A.JsValue A.DataChannel) → Result A.JsValue X)
      (c : Call A.JsValue A.DataChannel)
      → Follows asked
          (await A flume cells answer c)
          (requests (c ∷ []))
          (λ x. (cs : List (Call A.JsValue A.DataChannel)) × (answer cs ≡ ok x))
  unfolding js_value_to_error
  await-Follows answer c =
      Follows-ask asked _ _ (note A flume cells (c ∷ [])) _ (asked-note (c ∷ [])) (λ s x e. (
        s.calls,
        elim (Result-cases (answer s.calls)) [
          | inl (y, found) ↦ ground (arith, found, e)
          | inr (why, failed) ↦ ground (arith, failed, e)
        ],
      ))

  pub register-Follows :
      (cs : List (Call A.JsValue A.DataChannel))
      → Follows asked (modify {E = Exit A} (note A flume cells cs)) (requests cs) Any
  register-Follows cs = Follows-modify asked (Exit A) (note A flume cells cs) _ (asked-note cs)

  create-Follows :
      (answer : List (Call A.JsValue A.DataChannel) → Result A.JsValue A.DataChannel)
      (c : Call A.JsValue A.DataChannel)
      → Follows asked (create A flume cells answer c) (requests (c ∷ [])) Any
  create-Follows answer c =
      Follows-ask asked Any _ (note A flume cells (c ∷ [])) _ (asked-note (c ∷ [])) (λ _ _ _. tt)

  try-Follows :
      {X : Type 0} (r : Result (Exit A) X) → Follows asked (try A flume cells r) [] (λ x. r ≡ ok x)
  unfolding Ends
  try-Follows (ok x) =
      Follows-one asked _ _ [] (λ s. (sym (append-nil (asked s)), inl (x, refl, refl, refl)))
  try-Follows (err e) = Follows-one asked _ _ [] (λ s. (sym (append-nil (asked s)), inr (e, refl)))

  unwrap-Follows :
      {X : Type 0} (o : Option X) (x : X)
      → o ≡ some x
      → Follows asked (unwrap A flume cells o) [] Any
  unfolding Ends
  unwrap-Follows o x e =
      subst (λ o. Follows asked (unwrap A flume cells o) [] Any) (sym e)
        (Follows-pure asked (Exit A) Any x tt)

  pub parsed-Follows :
      {X : Type 0} (r : Result String X) → Follows asked (parsed A flume cells r) [] Any
  unfolding Ends
  parsed-Follows (ok x) = Follows-pure asked (Exit A) Any x tt
  parsed-Follows (err e) =
      Follows-one asked Any _ []
        (λ s. (sym (append-nil (asked s)), inr (error (webrtc_error e), refl)))

  pub open_channels-Follows :
      (index : ℕ) (os : ChannelOptions)
      → Follows asked (open_channels A flume cells index os) (channel_requests index os) Any
  unfolding open_channels channel_requests requests asked handle_data_channel
  open_channels-Follows index [] = Follows-pure asked (Exit A) Any tt tt
  open_channels-Follows index ((label_prefix, o) ∷ os) =
      let label = numbered label_prefix index in
      let dict = data_channel_dict index o in
      subst
        (λ o'.
          Follows asked (open_channels A flume cells index ((label_prefix, o) ∷ os))
            (open_channel label o' ∷ channel_requests (suc index) os) Any)
        (options_of-data_channel_dict index o)
        (Follows-bind asked Any Any _ _ (open_channel label (options_of dict) ∷ []) _
          (create-Follows (A.create_data_channel label dict) (Call.create_data_channel label dict))
          (λ c _.
            Follows-bind asked Any Any _ _ [] _
              (Follows-modify asked (Exit A) (handle_data_channel A flume cells c) []
                (λ s. requests-append s.calls _))
              (λ _ _. open_channels-Follows (suc index) os)))

  got : {X : Type 0} (r : Result A.JsValue X) (x : X) → mapped A flume cells r ≡ ok x → r ≡ ok x
  unfolding js_value_to_error
  got (ok y) x e = ground arith
  got (err why) x e = ground arith

  pub created_description-Follows :
      (t : RtcSdpType) (v : A.JsValue)
      → ((m : A.JsValue)
          → A.reflect_get v "sdp" ≡ ok m
          → (sdp : String) × (A.as_string m ≡ some sdp))
      → Follows asked (created_description A flume cells t v) [] Any
  unfolding created_description js_value_to_error
  created_description-Follows t v is_text =
      Follows-bind asked (λ m. mapped A flume cells (A.reflect_get v "sdp") ≡ ok m) Any _ _ [] []
        (try-Follows (mapped A flume cells (A.reflect_get v "sdp")))
        (λ m e.
          let (sdp, text) = is_text m (got (A.reflect_get v "sdp") m e) in
          Follows-bind asked Any Any _ _ [] [] (unwrap-Follows (A.as_string m) sdp text)
            (λ sdp _. Follows-pure asked (Exit A) Any (record { type_ = t; sdp = sdp }) tt))
