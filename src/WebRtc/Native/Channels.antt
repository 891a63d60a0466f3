-- ===== src/WebRtc/Native/Channels.antt =====
-- The channels that the user of a built native connection receives.
use just_webrtc.Common.{
  suc, ◌≡◌, refl, sym, ap, subst, ◌∙◌, inl, inr, Bool, true, false, not, List, [], ◌∷◌, map, length,
  if◌then◌else◌, arith,
}
use just_webrtc.Common.Action.{ret}
use just_webrtc.WebRtc.Builder.{PeerConnectionBuilder}
use just_webrtc.WebRtc.Plan.{opened_labels}
use just_webrtc.WebRtc.Queue.{received, received-all}
use just_webrtc.WebRtc.Native.Foreign.{WebRtcRs, Unbounded, AsyncCell}
use just_webrtc.WebRtc.Native.Link.{waiting, recv_error}
use just_webrtc.WebRtc.Native.Connections.{Connections}
use just_webrtc.WebRtc.Native.Build.{PeerConnection, Channel, Session, start, build}
use just_webrtc.WebRtc.Native.Planned.{handed_labels}
use just_webrtc.WebRtc.Native.Hung.{build-has_sender}
use just_webrtc.WebRtc.Native.Built.{build_asks_plan}
use just_webrtc.WebRtc.Native.Methods.{receive_channel, label}
use just_webrtc.WebRtc.Native.Messages.{receive_channel-Receives}

length-map : {X Y : Type 0} (f : X → Y) (xs : List X) → length (map f xs) ≡ length xs
length-map f [] = refl
length-map f (x ∷ xs) = ap suc (length-map f xs)

module _ (R : WebRtcRs) (A : Connections R) (flume : (M : Type 0) → Unbounded M)
    (cells : (V : Type 0) → AsyncCell V) where
  abbrev Queue : Unbounded (Channel R A flume cells)
  Queue = flume (Channel R A flume cells)

  at_end :
      (s : Session R A flume cells) (made : Bool)
      → Queue.queue s.channels_rx ≡ []
      → Queue.has_sender s.channels_rx ≡ not made
      → receive_channel R A flume cells s ≡ (if made then recv_error else waiting)
  unfolding receive_channel
  at_end s true empty gone = ground (arith, Queue.recv-hung_up s.channels_rx empty gone)
  at_end s false empty live = ground (arith, Queue.recv-nil s.channels_rx empty live)

  opened_in_order :
      (b : PeerConnectionBuilder) (c : PeerConnection R A flume cells)
      → (build R A flume cells b (start R A flume cells)).0 ≡ ret c
      → handed_labels R A flume cells (build R A flume cells b (start R A flume cells)).1
        ≡ opened_labels b
  opened_in_order b c returned =
      let (done, rest, whole, seen, ends) = build_asks_plan R A flume cells b in
      elim ends [
        | inl (made, e, all, is, handed) ↦ handed
        | inr (why, failed) ↦ ground (arith, returned, failed)
      ]

  -- When `build` returned, `receive_channel` gets the channels that it opened, in the order of the
  -- builder's options, each labelled with its prefix and its index. After the last of them, it returns
  -- an error to the offerer, whose `build` was the only one to send; to an answerer, it waits.
  pub channels_received :
      (b : PeerConnectionBuilder) (c : PeerConnection R A flume cells)
      → (build R A flume cells b (start R A flume cells)).0 ≡ ret c
      → let s = (build R A flume cells b (start R A flume cells)).1 in
        let (got, after) =
          received (receive_channel R A flume cells) (length (opened_labels b)) s in
        (map (label R A flume cells) got ≡ opened_labels b)
        × (receive_channel R A flume cells after ≡ (if c.is_offerer then recv_error else waiting))
  unfolding handed_labels label
  channels_received b c returned =
      let s = (build R A flume cells b (start R A flume cells)).1 in
      let queue = Queue.queue s.channels_rx in
      let labels : map (label R A flume cells) queue ≡ opened_labels b =
        opened_in_order b c returned in
      let long : length (opened_labels b) ≡ length queue =
        ap length (sym labels) ∙ length-map (label R A flume cells) queue in
      let (all, empty, same) =
        received-all Queue (λ s. s.channels_rx) (receive_channel R A flume cells)
          (receive_channel-Receives R A flume cells) queue s refl in
      subst
        (λ n.
          let (got, after) = received (receive_channel R A flume cells) n s in
          (map (label R A flume cells) got ≡ opened_labels b)
          × (receive_channel R A flume cells after
              ≡ (if c.is_offerer then recv_error else waiting)))
        (sym long)
        (
          ap (map (label R A flume cells)) all ∙ labels,
          at_end (received (receive_channel R A flume cells) (length queue) s).1 c.is_offerer empty
              (same ∙ build-has_sender R A flume cells b c returned),
        )
