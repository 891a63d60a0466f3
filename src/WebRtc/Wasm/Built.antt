-- ===== src/WebRtc/Wasm/Built.antt =====
-- What the web `build` does, from the first call to the `PeerConnection`.
use just_webrtc.Common.{
  ◌≡◌, refl, sym, ap, subst, ◌∙◌, inl, inr, ◌⊎◌, Bool, true, false, none, some, Option-cases, List,
  [], ◌∷◌, ◌++◌,
}
use mathlib.Core.List.{append-nil, append_assoc}
use just_webrtc.Common.Action.{Result, ok, ret, fail}
use just_webrtc.WebRtc.Types.{SessionDescription}
use just_webrtc.WebRtc.Builder.{ChannelOptions, PeerConnectionBuilder}
use just_webrtc.WebRtc.Calls.{Ends, Follows, Follows-bind, Follows-pure, Follows-modify}
use just_webrtc.WebRtc.Plan.{
  Request, accept, make_answer, make_offer, set_local, channel_requests, build_plan, offering,
}
use just_webrtc.WebRtc.Outcomes.{FailsWith, Returns, ReturnsAt}
use just_webrtc.WebRtc.Wasm.Thrown.{ThrownBy, own_channels, build-ThrownBy}
use just_webrtc.WebRtc.Wasm.Local.{SetLast, build-SetLast}
use just_webrtc.WebRtc.Native.Foreign.{Unbounded, AsyncCell}
use just_webrtc.WebRtc.Wasm.Foreign.{RtcSdpType, RtcSessionDescriptionInit, Call, Browser}
use just_webrtc.WebRtc.Wasm.Convert.{description_init, rtc_configuration}
use just_webrtc.WebRtc.Wasm.Planned.{
  requests, State, asked, Any, description_of-description_init, await-Follows, register-Follows,
  parsed-Follows, open_channels-Follows, created_description-Follows,
}
use just_webrtc.WebRtc.Wasm.Build.{
  Exit, PeerConnection, start, answer_offer, offer_channels, make_description, handlers, negotiate,
  end_of_scope, build,
}

module _ (A : Browser) (flume : (M : Type 0) → Unbounded M)
    (cells : (V : Type 0) → AsyncCell V) where
  abbrev Offers : Bool → RtcSessionDescriptionInit × Bool → Type 0
  Offers b made = made.1 ≡ b

  -- What a call that succeeded answered.
  abbrev Answered :
      {X : Type 0} → (List (Call A.JsValue A.DataChannel) → Result A.JsValue X) → X → Type 0
  Answered answer x = (cs : List (Call A.JsValue A.DataChannel)) × (answer cs ≡ ok x)

  answer_offer-Follows :
      (offer : SessionDescription)
      → Follows
          (asked A flume cells)
          (answer_offer A flume cells offer)
          (accept offer ∷ make_answer ∷ [])
          (Offers false)
  unfolding answer_offer requests
  answer_offer-Follows offer =
      let remote = description_init offer in
      subst
        (λ d.
          Follows (asked A flume cells) (answer_offer A flume cells offer)
            (accept d ∷ make_answer ∷ []) (Offers false))
        (description_of-description_init offer)
        (Follows-bind (asked A flume cells) (Any A flume cells) (Offers false) _ _ [] _
          (register-Follows A flume cells (Call.set_ondatachannel ∷ []))
          (λ _ _.
            Follows-bind (asked A flume cells) (Answered (A.set_remote_description remote))
              (Offers false) _ _ _ _
              (await-Follows A flume cells (A.set_remote_description remote)
                (Call.set_remote_description remote))
              (λ _ _.
                Follows-bind (asked A flume cells) (Answered A.create_answer) (Offers false) _ _ _
                  [] (await-Follows A flume cells A.create_answer Call.create_answer)
                  (λ v from.
                    Follows-bind (asked A flume cells) (Any A flume cells) (Offers false) _ _ [] []
                      (created_description-Follows A flume cells RtcSdpType.answer v
                        (λ m e. A.answer_sdp from.0 v m from.1 e))
                      (λ d _.
                        Follows-pure (asked A flume cells) (Exit A) (Offers false) (d, false)
                          refl)))))

  offer_channels-Follows :
      (os : ChannelOptions)
      → Follows
          (asked A flume cells)
          (offer_channels A flume cells os)
          (channel_requests 0 os ++ make_offer ∷ [])
          (Offers true)
  unfolding offer_channels requests
  offer_channels-Follows os =
      Follows-bind (asked A flume cells) (Any A flume cells) (Offers true) _ _ _ _
        (open_channels-Follows A flume cells 0 os)
        (λ _ _.
          Follows-bind (asked A flume cells) (Answered A.create_offer) (Offers true) _ _ _ []
            (await-Follows A flume cells A.create_offer Call.create_offer)
            (λ v from.
              Follows-bind (asked A flume cells) (Any A flume cells) (Offers true) _ _ [] []
                (created_description-Follows A flume cells RtcSdpType.offer v
                  (λ m e. A.offer_sdp from.0 v m from.1 e))
                (λ d _. Follows-pure (asked A flume cells) (Exit A) (Offers true) (d, true) refl)))

  unfoldable negotiation : PeerConnectionBuilder → List Request
  negotiation b = elim b.remote_offer [
    | some offer ↦ accept offer ∷ make_answer ∷ []
    | none ↦ channel_requests 0 b.channel_options ++ make_offer ∷ []
  ]

  make_description-Follows :
      (b : PeerConnectionBuilder)
      → Follows
          (asked A flume cells)
          (make_description A flume cells b)
          (negotiation b)
          (Offers (offering b))
  unfolding make_description negotiation offering
  make_description-Follows b = elim (Option-cases b.remote_offer) [
    | inl e ↦ rw e (offer_channels-Follows b.channel_options)
    | inr (offer, e) ↦ rw e (answer_offer-Follows offer)
  ]

  negotiation-plan : (b : PeerConnectionBuilder) → negotiation b ++ set_local ∷ [] ≡ build_plan b
  unfolding negotiation build_plan
  negotiation-plan b = elim (Option-cases b.remote_offer) [
    | inl e ↦
        rw e
          (append_assoc (channel_requests 0 b.channel_options) (make_offer ∷ []) (set_local ∷ []))
    | inr (offer, e) ↦ rw e refl
  ]

  negotiate-Follows :
      (b : PeerConnectionBuilder)
      → Follows
          (asked A flume cells)
          (negotiate A flume cells b)
          (negotiation b ++ set_local ∷ [])
          (λ made. made ≡ offering b)
  unfolding negotiate requests
  negotiate-Follows b =
      let P : Bool → Type 0 = λ made. made ≡ offering b in
      Follows-bind (asked A flume cells) (Any A flume cells) P _ _ [] _
        (parsed-Follows A flume cells (A.to_value b.config.ice_servers))
        (λ servers _.
          let config = rtc_configuration servers b.config in
          Follows-bind (asked A flume cells) (Answered (A.new_with_configuration config)) P _ _ [] _
            (await-Follows A flume cells (A.new_with_configuration config)
              (Call.new_with_configuration config))
            (λ _ _.
              Follows-bind (asked A flume cells) (Any A flume cells) P _ _ [] _
                (register-Follows A flume cells (handlers A flume cells))
                (λ _ _.
                  Follows-bind (asked A flume cells) (Offers (offering b)) P _ _ _ _
                    (make_description-Follows b)
                    (λ made is.
                      Follows-bind (asked A flume cells) (Answered (A.set_local_description made.0))
                        P _ _ _ []
                        (await-Follows A flume cells (A.set_local_description made.0)
                          (Call.set_local_description made.0))
                        (λ _ _. Follows-pure (asked A flume cells) (Exit A) P made.1 is)))))

  scoped :
      (made : Bool) (s : State A flume cells)
      → asked A flume cells (end_of_scope A flume cells made s) ≡ asked A flume cells s ++ []
  unfolding end_of_scope asked
  scoped true s = sym (append-nil (asked A flume cells s))
  scoped false s = sym (append-nil (asked A flume cells s))

  build-Follows :
      (b : PeerConnectionBuilder)
      → Follows
          (asked A flume cells)
          (build A flume cells b)
          ((negotiation b ++ set_local ∷ []) ++ [])
          (λ c. c.is_offerer ≡ offering b)
  unfolding build
  build-Follows b =
      let P : PeerConnection A flume cells → Type 0 = λ c. c.is_offerer ≡ offering b in
      Follows-bind (asked A flume cells) (λ made. made ≡ offering b) P _ _ _ _ (negotiate-Follows b)
        (λ made is.
          Follows-bind (asked A flume cells) (Any A flume cells) P _ _ [] []
            (Follows-modify (asked A flume cells) (Exit A) (end_of_scope A flume cells made) []
              (scoped made))
            (λ _ _.
              Follows-pure (asked A flume cells) (Exit A) P (record { is_offerer = made }) is))

  pub asked-Follows :
      (b : PeerConnectionBuilder)
      → Follows
          (asked A flume cells)
          (build A flume cells b)
          (build_plan b)
          (λ c. c.is_offerer ≡ offering b)
  asked-Follows b =
      subst
        (λ plan.
          Follows (asked A flume cells) (build A flume cells b) plan
            (λ c. c.is_offerer ≡ offering b))
        (append-nil (negotiation b ++ set_local ∷ []) ∙ negotiation-plan b) (build-Follows b)

  nothing_asked : asked A flume cells (start A flume cells) ≡ []
  unfolding asked start requests
  nothing_asked = refl

  -- The web `build` asks the browser, from a new session, for a beginning of what is planned: with a
  -- remote offer, to accept just that offer, to answer and to set the local description; without one,
  -- to open the channels in order, each with its options and with its index after its label, to
  -- offer and to set the local description. It ends in one of three ways. All of it was asked, and a
  -- `PeerConnection` is returned, an offerer if there was no remote offer; then the last call set
  -- the description that the browser created, with its text and as an offer or an answer. Or an error
  -- is returned. Or it ends with an exception, which the browser threw for the creation of one of the
  -- channels that `build` opens, with the label and the dictionary of that channel. It does not panic.
  pub web_build_asks_plan :
      (b : PeerConnectionBuilder)
      → let (out, s) = build A flume cells b (start A flume cells) in
        (done : List Request) × (rest : List Request) × (done ++ rest ≡ build_plan b)
        × (asked A flume cells s ≡ done)
        × (((c : PeerConnection A flume cells) × (out ≡ ret c)
              × (rest ≡ [])
              × (c.is_offerer ≡ offering b)
              × SetLast A flume cells (offering b) s.calls)
            ⊎ ((e : Exit A) × (out ≡ fail e)
                × ThrownBy A flume cells 0 (own_channels A flume cells b) e))
  unfolding Follows Ends Returns ReturnsAt FailsWith
  web_build_asks_plan b =
      let fresh = start A flume cells in
      let (done, rest, whole, seen, ends) = asked-Follows b fresh in
      (
        done,
        rest,
        whole,
        seen ∙ ap (λ l. l ++ done) nothing_asked,
        elim ends [
          | inl (c, e, is, all) ↦ inl (c, e, all, is, build-SetLast A flume cells b fresh c e)
          | inr (why, failed) ↦ inr (why, failed, build-ThrownBy A flume cells b fresh why failed)
        ],
      )
