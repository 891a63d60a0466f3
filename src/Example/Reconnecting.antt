-- ===== src/Example/Reconnecting.antt =====
-- `peer_echo_task` on a native connection that was built with one channel, as `create_offer` does.
use just_webrtc.Common.{
  String, ◌≡◌, refl, sym, ap, subst, ◌∙◌, inl, inr, true, false, none, some, [], ◌∷◌, map, length,
  if◌then◌else◌, arith,
}
use just_webrtc.Common.Action.{ret}
use just_webrtc.WebRtc.Types.{connected, disconnected}
use just_webrtc.WebRtc.Builder.{PeerConnectionBuilder}
use just_webrtc.WebRtc.Plan.{opened_labels}
use just_webrtc.WebRtc.Queue.{received}
use just_webrtc.WebRtc.Native.Foreign.{WebRtcRs, Unbounded, AsyncCell}
use just_webrtc.WebRtc.Native.Link.{Progress, Progress-cases, finished, waiting, recv_error}
use just_webrtc.WebRtc.Native.Connections.{Connections}
use just_webrtc.WebRtc.Native.Build.{PeerConnection, Channel, Session, start, build}
use just_webrtc.WebRtc.Native.Methods.{receive_channel, label}
use just_webrtc.WebRtc.Native.Channels.{channels_received}
use just_webrtc.Example.Monitor.{Monitor, continues, panicked, watch, on_connected, on_state}

-- One call that got something, and what stands after it.
received_one :
    {M C : Type 0} (get : C → Progress M C) (f : M → String) (c : C) (l : String)
    → map f (received get 1 c).0 ≡ l ∷ []
    → (m : M) × (c' : C) × (get c ≡ finished m c') × (f m ≡ l) × ((received get 1 c).1 ≡ c')
unfolding received
received_one get f c l e = elim (Progress-cases (get c)) [
  | inl (m, c', g) ↦ (m, c', g, ground (arith, g, e), ground (arith, g))
  | inr (inl g) ↦ ground (arith, g, e)
  | inr (inr (inl g)) ↦ ground (arith, g, e)
  | inr (inr (inr g)) ↦ ground (arith, g, e)
]

module _ (R : WebRtcRs) (A : Connections R) (flume : (M : Type 0) → Unbounded M)
    (cells : (V : Type 0) → AsyncCell V) where
  abbrev Watcher : Type 0
  Watcher = Monitor (Channel R A flume cells) (Session R A flume cells)

  one_channel :
      (b : PeerConnectionBuilder) (c : PeerConnection R A flume cells) (l : String)
      → (build R A flume cells b (start R A flume cells)).0 ≡ ret c
      → opened_labels b ≡ l ∷ []
      → (channel : Channel R A flume cells) × (s : Session R A flume cells) × (receive_channel R A
            flume cells
            (build R A flume cells b (start R A flume cells)).1
          ≡ finished channel s)
        × (label R A flume cells channel ≡ l)
        × (receive_channel R A flume cells s ≡ (if c.is_offerer then recv_error else waiting))
  one_channel b c l returned opened =
      let s = (build R A flume cells b (start R A flume cells)).1 in
      let get = receive_channel R A flume cells in
      let (all, last) = channels_received R A flume cells b c returned in
      let all1 : map (label R A flume cells) (received get 1 s).0 ≡ l ∷ [] =
        subst (λ ls. map (label R A flume cells) (received get (length ls) s).0 ≡ ls) opened all in
      let last1 : get (received get 1 s).1 ≡ (if c.is_offerer then recv_error else waiting) =
        subst
          (λ ls.
            get (received get (length ls) s).1 ≡ (if c.is_offerer then recv_error else waiting))
          opened last in
      let (channel, s', got, named, after) = received_one get (label R A flume cells) s l all1 in
      (channel, s', got, named, ap get (sym after) ∙ last1)

  -- An offerer's connection with one channel: on the first `Connected`, the loop receives
  -- that channel. If the next state that it sees is `Connected` again, because the cell kept only the
  -- later one of `Disconnected` and `Connected`, the loop panics. If it does see `Disconnected` in
  -- between, it goes on with the channel.
  pub unseen_interruption_panics :
      (b : PeerConnectionBuilder) (c : PeerConnection R A flume cells) (l : String)
      → (build R A flume cells b (start R A flume cells)).0 ≡ ret c
      → c.is_offerer ≡ true
      → opened_labels b ≡ l ∷ []
      → let s = (build R A flume cells b (start R A flume cells)).1 in
        let on = on_state (receive_channel R A flume cells) c.is_offerer in
        (channel : Channel R A flume cells) × (m1 : Watcher) × (m2 : Watcher) × (on connected
            (watch _ _ s)
          ≡ continues m1)
        × (m1.channel_ready ≡ some (channel, true))
        × (label R A flume cells channel ≡ l)
        × (on connected m1 ≡ panicked)
        × (on disconnected m1 ≡ continues m2)
        × (on connected m2 ≡ continues m1)
  unfolding on_state on_connected watch
  unseen_interruption_panics b c l returned offerer opened =
      let s = (build R A flume cells b (start R A flume cells)).1 in
      let (channel, s', got, named, last) = one_channel b c l returned opened in
      let m1 : Watcher = record {
        peer_connection = s';
        connection_drop_timeout = false;
        channel_ready = some (channel, true);
        channel_task = none;
      } in
      let m2 : Watcher = record m1 { connection_drop_timeout = true } in
      (
        channel,
        m1,
        m2,
        ground (arith, got, offerer),
        refl,
        named,
        ground (arith, last, offerer),
        refl,
        refl,
      )
