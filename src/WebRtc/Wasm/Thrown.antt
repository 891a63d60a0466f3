-- ===== src/WebRtc/Wasm/Thrown.antt =====
-- Which exception the web `build` may end with.
use just_webrtc.Common.{
  ℕ, suc, ◌+◌, String, ◌≡◌, refl, ap, ◌∙◌, true, false, none, some, inl, inr, Option, Option-cases,
  List, [], ◌∷◌, ◌++◌, length, arith,
}
use just_webrtc.Common.Action.{Result, ok, err, Action, pure}
use just_webrtc.Common.Decimal.{numbered}
use just_webrtc.WebRtc.Types.{SessionDescription, DataChannelOptions}
use just_webrtc.WebRtc.Builder.{ChannelOptions, PeerConnectionBuilder}
use just_webrtc.WebRtc.Outcomes.{
  FailsWith, FailsWith-bind, FailsWith-pure, FailsWith-modify, FailsWith-ask, FailsWith-weaken,
}
use just_webrtc.WebRtc.Native.Foreign.{Unbounded, AsyncCell}
use just_webrtc.WebRtc.Wasm.Foreign.{RtcSdpType, Call, Browser}
use just_webrtc.WebRtc.Wasm.Convert.{description_init, data_channel_dict, rtc_configuration}
use just_webrtc.WebRtc.Wasm.Build.{
  Session, Exit, error, thrown, note, mapped, uncaught, await, try, unwrap, parsed,
  handle_data_channel, open_channels, created_description, answer_offer, offer_channels,
  make_description, handlers, negotiate, end_of_scope, build,
}

module _ (A : Browser) (flume : (M : Type 0) → Unbounded M)
    (cells : (V : Type 0) → AsyncCell V) where
  -- The browser throws for one of the channels, whose indices begin with this one.
  abbrev pub Refuses : ℕ → ChannelOptions → A.JsValue → Type 0
  Refuses from os v =
      (before : ChannelOptions) × (after : ChannelOptions) × (label_prefix : String)
      × (o : DataChannelOptions) × (index : ℕ) × (calls : List (Call A.JsValue A.DataChannel)) × (os
          ≡ before ++ (label_prefix, o) ∷ after)
      × (index ≡ from + length before)
      × (A.create_data_channel (numbered label_prefix index) (data_channel_dict index o) calls
          ≡ err v)

  abbrev pub ThrownBy : ℕ → ChannelOptions → Exit A → Type 0
  ThrownBy from os (error e) = Unit {0}
  ThrownBy from os (thrown v) = Refuses from os v

  later :
      (from : ℕ) (c : String × DataChannelOptions) (os : ChannelOptions) (e : Exit A)
      → ThrownBy (suc from) os e
      → ThrownBy from (c ∷ os) e
  later from c os (error e) by = tt
  later from c os (thrown v) (before, after, label_prefix, o, index, calls, whole, at, threw) = (
    c ∷ before,
    after,
    label_prefix,
    o,
    index,
    calls,
    ap (λ l. c ∷ l) whole,
    at ∙ omega arith,
    threw,
  )

  module _ (from : ℕ) (os : ChannelOptions) where
    abbrev Safe : {X : Type 0} → Action (Exit A) (Session A flume cells) X → Type 0
    Safe m = FailsWith m (ThrownBy from os)

    mapped-ThrownBy :
        {X : Type 0} (r : Result A.JsValue X) (e : Exit A)
        → mapped A flume cells r ≡ err e
        → ThrownBy from os e
    mapped-ThrownBy (ok x) e failed = ground arith
    mapped-ThrownBy (err why) (error e) failed = tt
    mapped-ThrownBy (err why) (thrown v) failed = ground (arith, failed)

    await-Safe :
        {X : Type 0} (answer : List (Call A.JsValue A.DataChannel) → Result A.JsValue X)
        (c : Call A.JsValue A.DataChannel)
        → Safe (await A flume cells answer c)
    await-Safe answer c =
        FailsWith-ask _ _ (note A flume cells (c ∷ []))
          (λ s e failed. mapped-ThrownBy (answer s.calls) e failed)

    try-Safe :
        {X : Type 0} (r : Result A.JsValue X) → Safe (try A flume cells (mapped A flume cells r))
    unfolding FailsWith
    try-Safe (ok x) s e failed = ground arith
    try-Safe (err why) s (error e) failed = tt
    try-Safe (err why) s (thrown v) failed = ground (arith, failed)

    parsed-Safe : {X : Type 0} (r : Result String X) → Safe (parsed A flume cells r)
    unfolding FailsWith
    parsed-Safe (ok x) s e failed = ground arith
    parsed-Safe (err why) s (error e) failed = tt
    parsed-Safe (err why) s (thrown v) failed = ground (arith, failed)

    unwrap-Safe : {X : Type 0} (o : Option X) → Safe (unwrap A flume cells o)
    unfolding FailsWith
    unwrap-Safe none s e failed = ground arith
    unwrap-Safe (some x) s e failed = ground arith

    returns-Safe : {X : Type 0} (x : X) → Safe (pure x)
    returns-Safe x = FailsWith-pure (Exit A) (Session A flume cells) (ThrownBy from os) x

    created_description-Safe :
        (t : RtcSdpType) (v : A.JsValue) → Safe (created_description A flume cells t v)
    unfolding created_description
    created_description-Safe t v =
        FailsWith-bind (ThrownBy from os) _ _ (try-Safe (A.reflect_get v "sdp")) (λ member.
          FailsWith-bind (ThrownBy from os) _ _ (unwrap-Safe (A.as_string member))
            (λ sdp. returns-Safe (record { type_ = t; sdp = sdp })))

  head-ThrownBy :
      (from : ℕ) (label_prefix : String) (o : DataChannelOptions) (os : ChannelOptions)
      (calls : List (Call A.JsValue A.DataChannel)) (e : Exit A)
      (r : Result A.JsValue A.DataChannel)
      → A.create_data_channel (numbered label_prefix from) (data_channel_dict from o) calls ≡ r
      → uncaught A flume cells r ≡ err e
      → ThrownBy from ((label_prefix, o) ∷ os) e
  head-ThrownBy from label_prefix o os calls (error e) r is failed = tt
  head-ThrownBy from label_prefix o os calls (thrown v) (ok c) is failed = ground (arith, failed)
  head-ThrownBy from label_prefix o os calls (thrown v) (err why) is failed = (
    [],
    os,
    label_prefix,
    o,
    from,
    calls,
    refl,
    omega arith,
    is ∙ ap (λ w. err w) (ground (arith, failed)),
  )

  open_channels-ThrownBy :
      (from : ℕ) (os : ChannelOptions)
      → FailsWith (open_channels A flume cells from os) (ThrownBy from os)
  unfolding open_channels
  open_channels-ThrownBy from [] =
      FailsWith-pure (Exit A) (Session A flume cells) (ThrownBy from []) tt
  open_channels-ThrownBy from ((label_prefix, o) ∷ os) =
      let all = (label_prefix, o) ∷ os in
      let label = numbered label_prefix from in
      let dict = data_channel_dict from o in
      FailsWith-bind (ThrownBy from all) _ _
        (FailsWith-ask (ThrownBy from all) _
          (note A flume cells (Call.create_data_channel label dict ∷ []))
          (λ s e failed.
            head-ThrownBy from label_prefix o os s.calls e
              (A.create_data_channel label dict s.calls) refl failed))
        (λ channel.
          FailsWith-bind (ThrownBy from all) _ _
            (FailsWith-modify (ThrownBy from all) (handle_data_channel A flume cells channel))
            (λ _.
              FailsWith-weaken (ThrownBy (suc from) os) (ThrownBy from all)
                (open_channels A flume cells (suc from) os) (later from (label_prefix, o) os)
                (open_channels-ThrownBy (suc from) os)))

  answer_offer-ThrownBy :
      (offer : SessionDescription) (os : ChannelOptions)
      → FailsWith (answer_offer A flume cells offer) (ThrownBy 0 os)
  unfolding answer_offer
  answer_offer-ThrownBy offer os =
      let Q = ThrownBy 0 os in
      let remote = description_init offer in
      FailsWith-bind Q _ _ (FailsWith-modify Q (note A flume cells (Call.set_ondatachannel ∷ [])))
        (λ _.
          FailsWith-bind Q _ _
            (await-Safe 0 os (A.set_remote_description remote) (Call.set_remote_description remote))
            (λ _. FailsWith-bind Q _ _ (await-Safe 0 os A.create_answer Call.create_answer) (λ v.
              FailsWith-bind Q _ _ (created_description-Safe 0 os RtcSdpType.answer v)
                (λ d. returns-Safe 0 os (d, false)))))

  offer_channels-ThrownBy :
      (os : ChannelOptions) → FailsWith (offer_channels A flume cells os) (ThrownBy 0 os)
  unfolding offer_channels
  offer_channels-ThrownBy os =
      let Q = ThrownBy 0 os in
      FailsWith-bind Q _ _ (open_channels-ThrownBy 0 os) (λ _.
        FailsWith-bind Q _ _ (await-Safe 0 os A.create_offer Call.create_offer) (λ v.
          FailsWith-bind Q _ _ (created_description-Safe 0 os RtcSdpType.offer v)
            (λ d. returns-Safe 0 os (d, true))))

  -- The channels that `build` creates itself.
  unfoldable pub own_channels : PeerConnectionBuilder → ChannelOptions
  own_channels b = elim b.remote_offer [ some offer ↦ [] | none ↦ b.channel_options ]

  make_description-ThrownBy :
      (b : PeerConnectionBuilder)
      → FailsWith (make_description A flume cells b) (ThrownBy 0 (own_channels b))
  unfolding make_description own_channels
  make_description-ThrownBy b = elim (Option-cases b.remote_offer) [
    | inl e ↦ rw e (offer_channels-ThrownBy b.channel_options)
    | inr (offer, e) ↦ rw e (answer_offer-ThrownBy offer [])
  ]

  negotiate-ThrownBy :
      (b : PeerConnectionBuilder)
      → FailsWith (negotiate A flume cells b) (ThrownBy 0 (own_channels b))
  unfolding negotiate
  negotiate-ThrownBy b =
      let os = own_channels b in
      let Q = ThrownBy 0 os in
      FailsWith-bind Q _ _ (parsed-Safe 0 os (A.to_value b.config.ice_servers)) (λ servers.
        let config = rtc_configuration servers b.config in
        FailsWith-bind Q _ _
          (await-Safe 0 os (A.new_with_configuration config) (Call.new_with_configuration config))
          (λ _.
            FailsWith-bind Q _ _ (FailsWith-modify Q (note A flume cells (handlers A flume cells)))
              (λ _. FailsWith-bind Q _ _ (make_description-ThrownBy b) (λ made.
                FailsWith-bind Q _ _
                  (await-Safe 0 os (A.set_local_description made.0)
                    (Call.set_local_description made.0))
                  (λ _. returns-Safe 0 os made.1)))))

  pub build-ThrownBy :
      (b : PeerConnectionBuilder) → FailsWith (build A flume cells b) (ThrownBy 0 (own_channels b))
  unfolding build
  build-ThrownBy b =
      let os = own_channels b in
      let Q = ThrownBy 0 os in
      FailsWith-bind Q _ _ (negotiate-ThrownBy b) (λ is_offerer.
        FailsWith-bind Q _ _ (FailsWith-modify Q (end_of_scope A flume cells is_offerer))
          (λ _. returns-Safe 0 os (record { is_offerer = is_offerer })))
