-- ===== src/WebRtc/Native/Built.antt =====
-- What the native `build` does, from the first call to the `PeerConnection`.
use just_webrtc.Common.{◌≡◌, refl, sym, ap, ◌∙◌, inl, inr, ◌⊎◌, List, [], ◌++◌, map, arith}
use mathlib.Core.List.{append-nil}
use just_webrtc.Common.Action.{ret, fail}
use just_webrtc.WebRtc.Builder.{PeerConnectionBuilder}
use just_webrtc.WebRtc.Calls.{Ends, Follows}
use just_webrtc.WebRtc.Plan.{Request, build_plan, opened_labels, offering}
use just_webrtc.WebRtc.Native.Foreign.{WebRtcRs, Unbounded, AsyncCell}
use just_webrtc.WebRtc.Native.Connections.{Connections}
use just_webrtc.WebRtc.Native.Build.{Error, PeerConnection, Channel, start, build}
use just_webrtc.WebRtc.Native.Planned.{
  requests, asked, handed_labels, asked-Follows, handed_labels-Follows,
}

module _ (R : WebRtcRs) (A : Connections R) (flume : (M : Type 0) → Unbounded M)
    (cells : (V : Type 0) → AsyncCell V) where
  starts_empty :
      (asked R A flume cells (start R A flume cells) ≡ [])
      × (handed_labels R A flume cells (start R A flume cells) ≡ [])
  unfolding start requests handed_labels
  starts_empty = (
    refl,
    ap (map (λ (c : Channel R A flume cells). A.label c.inner))
        (flume (Channel R A flume cells)).queue-unbounded,
  )

  -- `build` asks webrtc-rs, from a new session, for a beginning of what is planned: with a remote
  -- offer, to accept just that offer, to answer and to set the local description; without one, to open
  -- the channels in order, each with its options and with its index after its label, to
  -- offer and to set the local description. Either all of it was asked and a `PeerConnection` is
  -- returned, an offerer if there was no remote offer, from which `receive_channel` gets the opened
  -- channels in that order, or an error is returned.
  pub build_asks_plan :
      (b : PeerConnectionBuilder)
      → let (out, s) = build R A flume cells b (start R A flume cells) in
        (done : List Request) × (rest : List Request) × (done ++ rest ≡ build_plan b)
        × (asked R A flume cells s ≡ done)
        × (((c : PeerConnection R A flume cells) × (out ≡ ret c)
              × (rest ≡ [])
              × (c.is_offerer ≡ offering b)
              × (handed_labels R A flume cells s ≡ opened_labels b))
            ⊎ ((e : Error R) × (out ≡ fail e)))
  unfolding Follows Ends
  build_asks_plan b =
      let fresh = start R A flume cells in
      let (none_asked, none_handed) = starts_empty in
      let (done, rest, whole, seen, ends) = asked-Follows R A flume cells b fresh in
      let (done', rest', whole', seen', ends') = handed_labels-Follows R A flume cells b fresh in
      (
        done,
        rest,
        whole,
        seen ∙ ap (λ l. l ++ done) none_asked,
        elim ends [
          | inr failed ↦ inr failed
          | inl (c, e, is, all) ↦ elim ends' [
            | inr (why, failed) ↦ ground (arith, e, failed)
            | inl (c', e', is', all') ↦ inl (
              c,
              e,
              all,
              is,
              seen'
                  ∙ ap (λ l. l ++ done') none_handed
                  ∙ sym (append-nil done')
                  ∙ ap (◌++◌ done') (sym all')
                  ∙ whole',
            )
          ]
        ],
      )
