-- ===== src/WebRtc/Native/Hung.antt =====
-- Whether the queue of channels has a sender after the native `build`.
use just_webrtc.Common.{
  ℕ, suc, ◌≡◌, refl, sym, ap, ◌∙◌, inl, inr, Bool, true, false, not, Option-cases, List, [], ◌∷◌,
  ◌++◌, arith,
}
use mathlib.Core.List.{append-nil}
use just_webrtc.Common.Action.{ret, Action, modify, pure, ◌>>=◌, ◌>>◌, Outcome-cases}
use just_webrtc.WebRtc.Builder.{ChannelOptions, PeerConnectionBuilder}
use just_webrtc.WebRtc.Calls.{Follows}
use just_webrtc.WebRtc.Native.Foreign.{WebRtcRs, Unbounded, AsyncCell}
use just_webrtc.WebRtc.Native.Connections.{Connections}
use just_webrtc.WebRtc.Native.Watched.{
  Calls, State, Watch, channels_seen, build_seen, negotiation_seen, negotiate-Follows,
}
use just_webrtc.WebRtc.Native.Build.{
  Channel, PeerConnection, start, note, handle_data_channel, negotiate, build, end_of_scope,
}

nothing_of : {X : Type 0} (done rest : List X) → done ++ rest ≡ [] → done ≡ []
nothing_of [] rest e = refl
nothing_of (x ∷ done) rest e = ground arith

-- An action that ends with a change of state by its value.
at_return :
    {E S X Y : Type 0} (m : Action E S X) (end : X → S → S) (f : X → Y) (s : S) (y : Y)
    → ((m >>= λ x. modify (end x) >> pure (f x)) s).0 ≡ ret y
    → (x : X) × (f x ≡ y) × (((m >>= λ x. modify (end x) >> pure (f x)) s).1 ≡ end x (m s).1)
at_return m end f s y e = elim (Outcome-cases (m s).0) [
  | inl (x, r) ↦ (x, ground arith, ground arith)
  | inr (inl (why, r)) ↦ ground arith
  | inr (inr r) ↦ ground arith
]

module _ (R : WebRtcRs) (A : Connections R) (flume : (M : Type 0) → Unbounded M)
    (cells : (V : Type 0) → AsyncCell V) where
  -- What is seen of a queue without a sender.
  unfoldable hung : State R A flume cells → List (Unit {0})
  hung s = elim ((flume (Channel R A flume cells)).has_sender s.channels_rx) [
    | true ↦ []
    | false ↦ tt ∷ []
  ]

  hung-handled :
      (c : A.DataChannel) (s : State R A flume cells)
      → hung (handle_data_channel R A flume cells c s) ≡ hung s ++ []
  unfolding hung handle_data_channel
  hung-handled c s =
      let new : Channel R A flume cells = record {
        inner = c;
        ready_state = (cells Bool).empty;
        rx = (flume _).unbounded;
      } in
      ground (arith, (flume (Channel R A flume cells)).has_sender-send new s.channels_rx)

  hung-note :
      (cs : Calls R A flume cells) (s : State R A flume cells)
      → hung (note R A flume cells cs s) ≡ hung s ++ []
  unfolding note hung
  hung-note cs s = sym (append-nil (hung s))

  not_hung :
      (s : State R A flume cells)
      → hung s ≡ []
      → (flume (Channel R A flume cells)).has_sender s.channels_rx ≡ true
  unfolding hung
  not_hung s e = ground arith

  unfoldable hanging : Watch R A flume cells (Unit {0})
  hanging = record {
    view = hung;
    see = λ _. [];
    see_all = λ _. [];
    named = λ _. [];
    accepted = λ _. [];
    local = [];
    noted = λ c. hung-note (c ∷ []);
    noted_all = hung-note;
    handled = hung-handled;
    accepts = λ _ _ _. refl;
    sets_local = λ _. refl;
  }

  channels-hung :
      (index : ℕ) (os : ChannelOptions) → channels_seen R A flume cells hanging index os ≡ []
  unfolding channels_seen hanging
  channels-hung index [] = refl
  channels-hung index (o ∷ os) = channels-hung (suc index) os

  build-hung : (b : PeerConnectionBuilder) → build_seen R A flume cells hanging b ≡ []
  unfolding build_seen negotiation_seen hanging
  build-hung b = elim (Option-cases b.remote_offer) [
    | inl e ↦ rw e (rw (channels-hung 0 b.channel_options) refl)
    | inr (offer, e) ↦ rw e refl
  ]

  negotiate-has_sender :
      (b : PeerConnectionBuilder)
      → (flume (Channel R A flume cells)).has_sender
          (negotiate R A flume cells b (start R A flume cells)).1.channels_rx
        ≡ true
  unfolding Follows hanging hung start
  negotiate-has_sender b =
      let fresh = start R A flume cells in
      let (done, rest, whole, seen, ends) = negotiate-Follows R A flume cells hanging b fresh in
      let none_done : done ≡ [] = nothing_of done rest (whole ∙ build-hung b) in
      let fresh_seen : hung fresh ≡ [] =
        ground (arith, (flume (Channel R A flume cells)).has_sender-unbounded) in
      not_hung (negotiate R A flume cells b fresh).1
        (seen ∙ ap (◌++◌ (hung fresh)) none_done ∙ append-nil (hung fresh) ∙ fresh_seen)

  build-end_of_scope :
      (b : PeerConnectionBuilder) (s : State R A flume cells) (c : PeerConnection R A flume cells)
      → (build R A flume cells b s).0 ≡ ret c
      → (made : Bool) × (made ≡ c.is_offerer)
        × ((build R A flume cells b s).1
            ≡ end_of_scope R A flume cells made (negotiate R A flume cells b s).1)
  unfolding build
  build-end_of_scope b s c returned =
      let (made, same, at_end) =
        at_return (negotiate R A flume cells b) (end_of_scope R A flume cells)
          (λ made. record { is_offerer = made }) s c returned in
      (made, ap (λ (c : PeerConnection R A flume cells). c.is_offerer) same, at_end)

  scope-has_sender :
      (made : Bool) (s : State R A flume cells)
      → (flume (Channel R A flume cells)).has_sender s.channels_rx ≡ true
      → (flume (Channel R A flume cells)).has_sender
          (end_of_scope R A flume cells made s).channels_rx
        ≡ not made
  unfolding end_of_scope
  scope-has_sender true s live =
      (flume (Channel R A flume cells)).has_sender-drop_sender s.channels_rx
  scope-has_sender false s live = live

  -- When `build` returns, the sender of an answerer's queue lives, and that of an offerer's does not.
  pub build-has_sender :
      (b : PeerConnectionBuilder) (c : PeerConnection R A flume cells)
      → (build R A flume cells b (start R A flume cells)).0 ≡ ret c
      → (flume (Channel R A flume cells)).has_sender
          (build R A flume cells b (start R A flume cells)).1.channels_rx
        ≡ not c.is_offerer
  build-has_sender b c returned =
      let (made, same, at_end) = build-end_of_scope b (start R A flume cells) c returned in
      ap (λ (s : State R A flume cells). (flume (Channel R A flume cells)).has_sender s.channels_rx)
        at_end
      ∙ scope-has_sender made (negotiate R A flume cells b (start R A flume cells)).1
          (negotiate-has_sender b)
      ∙ ap not same
