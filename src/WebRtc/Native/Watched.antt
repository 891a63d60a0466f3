-- ===== src/WebRtc/Native/Watched.antt =====
-- The native `build`, as it is seen through any view of its session that grows with the calls.
use just_webrtc.Common.{
  ℕ, suc, String, ◌≡◌, refl, sym, ap, subst, ◌∙◌, inl, inr, Bool, true, false, none, some,
  Option-cases, List, [], ◌∷◌, ◌++◌, arith,
}
use just_webrtc.Common.Action.{Result, ok, err, Result-cases, Action}
use just_webrtc.Common.Decimal.{numbered}
use just_webrtc.WebRtc.Types.{SessionDescription}
use just_webrtc.WebRtc.Builder.{ChannelOptions, PeerConnectionBuilder}
use just_webrtc.WebRtc.Plan.{offering}
use mathlib.Core.List.{append-nil}
use just_webrtc.WebRtc.Calls.{
  Ends, Follows, Follows-bind, Follows-pure, Follows-ask, Follows-modify,
}
use just_webrtc.WebRtc.Native.Foreign.{WebRtcRs, Unbounded, AsyncCell}
use just_webrtc.WebRtc.Native.Connections.{Call, Connections}
use just_webrtc.WebRtc.Native.Convert.{data_channel_init, rtc_description, rtc_configuration}
use just_webrtc.WebRtc.Native.Build.{
  Error, webrtc_error, Session, PeerConnection, note, await, try, handle_data_channel,
  open_channels, answer_offer, offer_channels, make_description, negotiate, build, end_of_scope,
  handlers,
}

module _ (R : WebRtcRs) (A : Connections R) (flume : (M : Type 0) → Unbounded M)
    (cells : (V : Type 0) → AsyncCell V) where
  abbrev pub Calls : Type 0
  Calls = List (Call R A.DataChannel)

  abbrev pub State : Type 0
  State = Session R A flume cells

  abbrev Act : Type 0 → Type 0
  Act V = Action (Error R) State V

  -- A view shows something of each call, and of each channel that is handed on.
  pub record Watch (Seen : Type 0) : Type 0 where
    pub view : State → List Seen
    pub see : Call R A.DataChannel → List Seen
    pub see_all : Calls → List Seen
    pub named : String → List Seen
    pub accepted : SessionDescription → List Seen
    pub local : List Seen
    pub noted :
        (c : Call R A.DataChannel) (s : State)
        → view (note R A flume cells (c ∷ []) s) ≡ view s ++ see c
    pub noted_all :
        (cs : Calls) (s : State) → view (note R A flume cells cs s) ≡ view s ++ see_all cs
    pub handled :
        (c : A.DataChannel) (s : State)
        → view (handle_data_channel R A flume cells c s) ≡ view s ++ named (A.label c)
    pub accepts :
        (d : SessionDescription) (r : R.SessionDescription)
        → rtc_description R d ≡ ok r
        → see (Call.set_remote_description r) ≡ accepted d
    pub sets_local : (r : R.SessionDescription) → see (Call.set_local_description r) ≡ local

  module _ {Seen : Type 0} (V : Watch Seen) where
    await-Follows :
        {X : Type 0} (P : X → Type 0) (answer : Calls → Result R.Error X) (c : Call R A.DataChannel)
        → ((cs : Calls) (x : X) → answer cs ≡ ok x → P x)
        → Follows V.view (await R A flume cells answer c) (V.see c) P
    unfolding Follows
    await-Follows P answer c holds =
        Follows-ask V.view P _ (note R A flume cells (c ∷ [])) (V.see c) (V.noted c) (λ s x e.
          elim (Result-cases (answer s.calls)) [
            | inl (y, found) ↦ holds s.calls x (ground (arith, found, e))
            | inr (why, failed) ↦ ground (arith, failed, e)
          ])

    -- What is seen while channels are opened.
    unfoldable pub channels_seen : ℕ → ChannelOptions → List Seen
    channels_seen index [] = []
    channels_seen index ((label_prefix, options) ∷ os) =
        V.see (Call.create_data_channel (numbered label_prefix index) (data_channel_init options))
        ++ (V.named (numbered label_prefix index) ++ channels_seen (suc index) os)

    abbrev Any : {X : Type 0} → X → Type 0
    Any x = Unit {0}

    open_channels-Follows :
        (index : ℕ) (os : ChannelOptions)
        → Follows V.view (open_channels R A flume cells index os) (channels_seen index os) Any
    unfolding open_channels channels_seen
    open_channels-Follows index [] = Follows-pure V.view (Error R) Any tt tt
    open_channels-Follows index ((label_prefix, options) ∷ os) =
        let label = numbered label_prefix index in
        let init = data_channel_init options in
        Follows-bind V.view (λ c. A.label c ≡ label) Any _ _ _ _
          (await-Follows (λ c. A.label c ≡ label) (A.create_data_channel label init)
            (Call.create_data_channel label init)
            (λ cs c e. A.label-create_data_channel label init cs c e))
          (λ c named.
            Follows-bind V.view Any Any _ _ _ _
              (Follows-modify V.view (Error R) (handle_data_channel R A flume cells c) _
                (λ s. V.handled c s ∙ ap (λ l. V.view s ++ V.named l) named))
              (λ _ _. open_channels-Follows (suc index) os))

    abbrev answered : SessionDescription → List Seen
    answered offer =
        V.see_all (Call.on_data_channel ∷ [])
        ++ ([] ++ (V.accepted offer ++ (V.see Call.create_answer ++ [])))

    abbrev offered : ChannelOptions → List Seen
    offered os = channels_seen 0 os ++ (V.see Call.create_offer ++ [])

    abbrev Offers : Bool → R.SessionDescription × Bool → Type 0
    Offers b made = made.1 ≡ b

    accept-Follows :
        (offer : SessionDescription) (r : R.SessionDescription)
        → rtc_description R offer ≡ ok r
        → Follows V.view
            (await R A flume cells (A.set_remote_description r) (Call.set_remote_description r))
            (V.accepted offer)
            Any
    accept-Follows offer r e =
        subst
          (λ l.
            Follows V.view
              (await R A flume cells (A.set_remote_description r) (Call.set_remote_description r)) l
              Any)
          (V.accepts offer r e)
          (await-Follows Any (A.set_remote_description r) (Call.set_remote_description r)
            (λ _ _ _. tt))

    local-Follows :
        (d : R.SessionDescription)
        → Follows V.view
            (await R A flume cells (A.set_local_description d) (Call.set_local_description d))
            V.local
            Any
    local-Follows d =
        subst
          (λ l.
            Follows V.view
              (await R A flume cells (A.set_local_description d) (Call.set_local_description d)) l
              Any)
          (V.sets_local d)
          (await-Follows Any (A.set_local_description d) (Call.set_local_description d)
            (λ _ _ _. tt))

    try-Follows :
        {X : Type 0} (r : Result R.Error X)
        → Follows V.view (try R A flume cells r) [] (λ x. r ≡ ok x)
    unfolding Follows Ends
    try-Follows (ok x) s = ([], [], refl, sym (append-nil (V.view s)), inl (x, refl, refl, refl))
    try-Follows (err e) s = ([], [], refl, sym (append-nil (V.view s)), inr (webrtc_error e, refl))

    answer_offer-Follows :
        (offer : SessionDescription)
        → Follows V.view (answer_offer R A flume cells offer) (answered offer) (Offers false)
    unfolding answer_offer
    answer_offer-Follows offer =
        Follows-bind V.view Any (Offers false) _ _ _ _
          (Follows-modify V.view (Error R) (note R A flume cells (Call.on_data_channel ∷ [])) _
            (V.noted_all (Call.on_data_channel ∷ [])))
          (λ _ _.
            Follows-bind V.view (λ r. rtc_description R offer ≡ ok r) (Offers false) _ _ _ _
              (try-Follows (rtc_description R offer))
              (λ r e.
                Follows-bind V.view Any (Offers false) _ _ _ _ (accept-Follows offer r e) (λ _ _.
                  Follows-bind V.view Any (Offers false) _ _ _ _
                    (await-Follows Any A.create_answer Call.create_answer (λ _ _ _. tt))
                    (λ d _. Follows-pure V.view (Error R) (Offers false) (d, false) refl))))

    offer_channels-Follows :
        (os : ChannelOptions)
        → Follows V.view (offer_channels R A flume cells os) (offered os) (Offers true)
    unfolding offer_channels
    offer_channels-Follows os =
        Follows-bind V.view Any (Offers true) _ _ _ _ (open_channels-Follows 0 os) (λ _ _.
          Follows-bind V.view Any (Offers true) _ _ _ _
            (await-Follows Any A.create_offer Call.create_offer (λ _ _ _. tt))
            (λ d _. Follows-pure V.view (Error R) (Offers true) (d, true) refl))

    unfoldable pub negotiation_seen : PeerConnectionBuilder → List Seen
    unfolding channels_seen
    negotiation_seen b = elim b.remote_offer [
      | some offer ↦ answered offer
      | none ↦ offered b.channel_options
    ]

    make_description-Follows :
        (b : PeerConnectionBuilder)
        → Follows V.view
            (make_description R A flume cells b)
            (negotiation_seen b)
            (Offers (offering b))
    unfolding make_description negotiation_seen offering
    make_description-Follows b = elim (Option-cases b.remote_offer) [
      | inl e ↦ rw e (offer_channels-Follows b.channel_options)
      | inr (offer, e) ↦ rw e (answer_offer-Follows offer)
    ]

    -- All that is seen of `build`.
    unfoldable pub build_seen : PeerConnectionBuilder → List Seen
    unfolding negotiation_seen
    build_seen b =
        V.see (Call.new_peer_connection (rtc_configuration R b.config))
        ++ (V.see_all (handlers R A flume cells) ++ (negotiation_seen b ++ (V.local ++ [])))

    pub negotiate-Follows :
        (b : PeerConnectionBuilder)
        → Follows V.view (negotiate R A flume cells b) (build_seen b) (λ made. made ≡ offering b)
    unfolding negotiate build_seen
    negotiate-Follows b =
        let config = rtc_configuration R b.config in
        let P : Bool → Type 0 = λ made. made ≡ offering b in
        Follows-bind V.view Any P _ _ _ _
          (await-Follows Any (A.new_peer_connection config) (Call.new_peer_connection config)
            (λ _ _ _. tt))
          (λ _ _.
            Follows-bind V.view Any P _ _ _ _
              (Follows-modify V.view (Error R) (note R A flume cells (handlers R A flume cells)) _
                (V.noted_all (handlers R A flume cells)))
              (λ _ _.
                Follows-bind V.view (Offers (offering b)) P _ _ _ _ (make_description-Follows b)
                  (λ made is.
                    Follows-bind V.view Any P _ _ _ _ (local-Follows made.0)
                      (λ _ _. Follows-pure V.view (Error R) P made.1 is))))

    -- The end of the scope is seen if anything of it is.
    pub build-Follows :
        (b : PeerConnectionBuilder)
        → ((is_offerer : Bool) (s : State)
            → V.view (end_of_scope R A flume cells is_offerer s) ≡ V.view s ++ [])
        → Follows V.view
            (build R A flume cells b)
            (build_seen b ++ [])
            (λ c. c.is_offerer ≡ offering b)
    unfolding build
    build-Follows b scoped =
        let P : PeerConnection R A flume cells → Type 0 = λ c. c.is_offerer ≡ offering b in
        Follows-bind V.view (λ made. made ≡ offering b) P _ _ _ _ (negotiate-Follows b)
          (λ made is.
            Follows-bind V.view Any P _ _ _ []
              (Follows-modify V.view (Error R) (end_of_scope R A flume cells made) [] (scoped made))
              (λ _ _. Follows-pure V.view (Error R) P (record { is_offerer = made }) is))
