-- ===== src/WebRtc/Wasm/Local.antt =====
-- The local description that the web `build` sets.
use just_webrtc.Common.{
  ◌≡◌, refl, sym, ap, subst, Bool, true, false, none, some, inl, inr, Option, Option-cases, List,
  [], ◌∷◌, ◌++◌, arith,
}
use just_webrtc.Common.Action.{Result, ok, err, pure, ◌>>=◌, modify}
use just_webrtc.WebRtc.Types.{SessionDescription}
use just_webrtc.WebRtc.Builder.{ChannelOptions, PeerConnectionBuilder}
use just_webrtc.WebRtc.Plan.{offering}
use just_webrtc.WebRtc.Outcomes.{
  Returns, ReturnsAt, Returns-bind, Returns-any, Returns-ReturnsAt, Returns-ask, Returns-pure,
}
use just_webrtc.WebRtc.Native.Foreign.{Unbounded, AsyncCell}
use just_webrtc.WebRtc.Wasm.Foreign.{RtcSdpType, RtcSessionDescriptionInit, Call, Browser}
use just_webrtc.WebRtc.Wasm.Convert.{description_init, rtc_configuration}
use just_webrtc.WebRtc.Wasm.Build.{
  open_channels, parsed, handlers, Session, Exit, PeerConnection, note, mapped, await, try, unwrap,
  created_description, answer_offer, offer_channels, make_description, negotiate, end_of_scope,
  build,
}

module _ (A : Browser) (flume : (M : Type 0) → Unbounded M)
    (cells : (V : Type 0) → AsyncCell V) where
  abbrev Any : {X : Type 0} → X → Session A flume cells → Type 0
  Any x s = Unit {0}

  -- What the browser created, by whether it was asked for an offer.
  abbrev pub creates : Bool → List (Call A.JsValue A.DataChannel) → Result A.JsValue A.JsValue
  creates true calls = A.create_offer calls
  creates false calls = A.create_answer calls

  abbrev pub type_of : Bool → RtcSdpType
  type_of true = RtcSdpType.offer
  type_of false = RtcSdpType.answer

  -- A description of this type whose text is the member `sdp` of a value.
  abbrev pub Describes : RtcSdpType → A.JsValue → RtcSessionDescriptionInit → Type 0
  Describes t v d =
      (member : A.JsValue) × (A.reflect_get v "sdp" ≡ ok member)
      × (A.as_string member ≡ some d.sdp)
      × (d.type_ ≡ t)

  abbrev pub Made : Bool → RtcSessionDescriptionInit → Type 0
  Made offers d =
      (calls : List (Call A.JsValue A.DataChannel)) × (v : A.JsValue) × (creates offers calls
        ≡ ok v)
      × Describes (type_of offers) v d

  got : {X : Type 0} (r : Result A.JsValue X) (x : X) → mapped A flume cells r ≡ ok x → r ≡ ok x
  got (ok y) x e = ground arith
  got (err why) x e = ground arith

  await_answered :
      {X : Type 0} (answer : List (Call A.JsValue A.DataChannel) → Result A.JsValue X)
      (c : Call A.JsValue A.DataChannel)
      → Returns (await A flume cells answer c) (λ x t.
        (s : Session A flume cells) × (answer s.calls ≡ ok x) × (t ≡ note A flume cells (c ∷ []) s))
  unfolding Returns ReturnsAt
  await_answered answer c s x e =
      let (s', answered, after) =
        Returns-ask (λ (s : Session A flume cells). mapped A flume cells (answer s.calls))
          (note A flume cells (c ∷ [])) s x e in
      (s', got (answer s'.calls) x answered, after)

  try_ok :
      {X : Type 0} (r : Result A.JsValue X)
      → Returns (try A flume cells (mapped A flume cells r)) (λ x s. r ≡ ok x)
  unfolding Returns ReturnsAt
  try_ok (ok y) s x e = ground (arith, e)
  try_ok (err why) s x e = ground (arith, e)

  unwrapped : {X : Type 0} (o : Option X) → Returns (unwrap A flume cells o) (λ x s. o ≡ some x)
  unfolding Returns ReturnsAt
  unwrapped none s x e = ground (arith, e)
  unwrapped (some y) s x e = ground (arith, e)

  created_description-Describes :
      (t : RtcSdpType) (v : A.JsValue)
      → Returns (created_description A flume cells t v) (λ d s. Describes t v d)
  unfolding created_description
  created_description-Describes t v =
      Returns-bind (λ m s. A.reflect_get v "sdp" ≡ ok m) (λ d s. Describes t v d) _ _
        (try_ok (A.reflect_get v "sdp"))
        (λ member s read.
          Returns-ReturnsAt _ _
            (Returns-bind (λ x s. A.as_string member ≡ some x) (λ d s. Describes t v d) _ _
              (unwrapped (A.as_string member))
              (λ sdp s' text.
                Returns-pure (Exit A) (Session A flume cells) (λ d s. Describes t v d)
                  (record { type_ = t; sdp = sdp }) s' (member, read, text, refl)))
            s)

  -- The description that is made, and whether it is an offer.
  abbrev MadeFor : Bool → RtcSessionDescriptionInit × Bool → Session A flume cells → Type 0
  MadeFor offers made s = (made.1 ≡ offers) × Made offers made.0

  described_made :
      (offers : Bool) (v : A.JsValue) (calls : List (Call A.JsValue A.DataChannel))
      (d : RtcSessionDescriptionInit) (s : Session A flume cells)
      → creates offers calls ≡ ok v
      → Describes (type_of offers) v d
      → ReturnsAt s (pure {E = Exit A} (d, offers)) (MadeFor offers)
  described_made offers v calls d s answered describes =
      Returns-pure (Exit A) (Session A flume cells) (MadeFor offers) (d, offers) s
        (refl, (calls, v, answered, describes))

  answer_offer-MadeFor :
      (offer : SessionDescription) → Returns (answer_offer A flume cells offer) (MadeFor false)
  unfolding answer_offer
  answer_offer-MadeFor offer =
      Returns-bind Any (MadeFor false) _ _
        (Returns-any (modify {E = Exit A} (note A flume cells (Call.set_ondatachannel ∷ []))))
        (λ _ s1 _.
          Returns-ReturnsAt _ _
            (Returns-bind Any (MadeFor false) _ _
              (Returns-any (
                await A flume cells (A.set_remote_description (description_init offer))
                  (Call.set_remote_description (description_init offer))))
              (λ _ s2 _.
                Returns-ReturnsAt _ _
                  (Returns-bind _ (MadeFor false) _ _
                    (await_answered A.create_answer Call.create_answer)
                    (λ v s3 from.
                      Returns-ReturnsAt _ _
                        (Returns-bind _ (MadeFor false) _ _
                          (created_description-Describes RtcSdpType.answer v)
                          (λ d s4 describes.
                            described_made false v from.0.calls d s4 from.1 describes))
                        s3))
                  s2))
            s1)

  offer_channels-MadeFor :
      (os : ChannelOptions) → Returns (offer_channels A flume cells os) (MadeFor true)
  unfolding offer_channels
  offer_channels-MadeFor os =
      Returns-bind Any (MadeFor true) _ _ (Returns-any (open_channels A flume cells 0 os))
        (λ _ s1 _.
          Returns-ReturnsAt _ _
            (Returns-bind _ (MadeFor true) _ _ (await_answered A.create_offer Call.create_offer)
              (λ v s2 from.
                Returns-ReturnsAt _ _
                  (Returns-bind _ (MadeFor true) _ _
                    (created_description-Describes RtcSdpType.offer v)
                    (λ d s3 describes. described_made true v from.0.calls d s3 from.1 describes))
                  s2))
            s1)

  make_description-MadeFor :
      (b : PeerConnectionBuilder)
      → Returns (make_description A flume cells b) (MadeFor (offering b))
  unfolding make_description offering
  make_description-MadeFor b = elim (Option-cases b.remote_offer) [
    | inl e ↦ rw e (offer_channels-MadeFor b.channel_options)
    | inr (offer, e) ↦ rw e (answer_offer-MadeFor offer)
  ]

  -- The last call was to set such a description.
  abbrev pub SetLast : Bool → List (Call A.JsValue A.DataChannel) → Type 0
  SetLast offers calls =
      (before : List (Call A.JsValue A.DataChannel)) × (d : RtcSessionDescriptionInit) × (calls
        ≡ before ++ Call.set_local_description d ∷ [])
      × Made offers d

  set_last :
      (offers : Bool) (made : RtcSessionDescriptionInit × Bool)
      → Made offers made.0
      → Returns
          (await A flume cells (A.set_local_description made.0) (Call.set_local_description made.0))
          (λ _ s. SetLast offers s.calls)
  unfolding Returns ReturnsAt note
  set_last offers made is s x e =
      let (s', _, after) =
        await_answered (A.set_local_description made.0) (Call.set_local_description made.0) s x e in
      (s'.calls, made.0, ap (λ (t : Session A flume cells). t.calls) after, is)

  abbrev Set : Bool → Bool → Session A flume cells → Type 0
  Set offers _ s = SetLast offers s.calls

  negotiate-SetLast :
      (b : PeerConnectionBuilder) → Returns (negotiate A flume cells b) (Set (offering b))
  unfolding negotiate
  negotiate-SetLast b =
      Returns-bind Any (Set (offering b)) _ _
        (Returns-any (parsed A flume cells (A.to_value b.config.ice_servers)))
        (λ servers s1 _.
          let config = rtc_configuration servers b.config in
          Returns-ReturnsAt _ _
            (Returns-bind Any (Set (offering b)) _ _
              (Returns-any (
                await A flume cells (A.new_with_configuration config)
                  (Call.new_with_configuration config)))
              (λ _ s2 _.
                Returns-ReturnsAt _ _
                  (Returns-bind Any (Set (offering b)) _ _
                    (Returns-any
                      (modify {E = Exit A} (note A flume cells (handlers A flume cells))))
                    (λ _ s3 _.
                      Returns-ReturnsAt _ _
                        (Returns-bind _ (Set (offering b)) _ _ (make_description-MadeFor b)
                          (λ made s4 is.
                            Returns-ReturnsAt _ _
                              (Returns-bind _ (Set (offering b)) _ _
                                (set_last (offering b) made is.1)
                                (λ _ s5 last.
                                  Returns-pure (Exit A) (Session A flume cells) (Set (offering b))
                                    made.1 s5 last))
                              s4))
                        s3))
                  s2))
            s1)

  scoped :
      (offers : Bool) (s : Session A flume cells)
      → (end_of_scope A flume cells offers s).calls ≡ s.calls
  unfolding end_of_scope
  scoped true s = refl
  scoped false s = refl

  closed :
      (offers made : Bool) (s : Session A flume cells)
      → SetLast offers s.calls
      → ReturnsAt s
          (modify {E = Exit A} (end_of_scope A flume cells made) >>= λ _.
            pure (record { is_offerer = made }))
          (λ (c : PeerConnection A flume cells) t. SetLast offers t.calls)
  unfolding ReturnsAt
  closed offers made s last x e = subst (SetLast offers) (sym (scoped made s)) last

  -- A `build` that returns has last set, as the local description, what the browser created for
  -- it.
  pub build-SetLast :
      (b : PeerConnectionBuilder)
      → Returns (build A flume cells b) (λ c s. SetLast (offering b) s.calls)
  unfolding build
  build-SetLast b =
      Returns-bind (Set (offering b)) (λ c s. SetLast (offering b) s.calls) _ _
        (negotiate-SetLast b) (λ made s last. closed (offering b) made s last)
