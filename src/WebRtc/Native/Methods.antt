-- ===== src/WebRtc/Native/Methods.antt =====
-- native.rs: the methods of a `PeerConnection` and of a `Channel`, and the handler of messages.
use just_webrtc.Common.{ℕ, String, Option, none, some, List, [], ◌∷◌}
use just_webrtc.Common.Action.{Action, ◌>>=◌, ◌>>◌, pure}
use just_webrtc.WebRtc.Types.{IceCandidate, SessionDescription}
use just_webrtc.WebRtc.Native.Foreign.{WebRtcRs, Unbounded, AsyncCell, found, nothing, hung_up}
use just_webrtc.WebRtc.Native.Connections.{Bytes, Message, Call, Connections}
use just_webrtc.WebRtc.Native.Convert.{init_of_candidate, rtc_description, description_of}
use just_webrtc.WebRtc.Native.Link.{Progress, finished, waiting, recv_error}
use just_webrtc.WebRtc.Native.Build.{Error, Channel, Session, note, await, try}

module _ (R : WebRtcRs) (A : Connections R) (flume : (M : Type 0) → Unbounded M)
    (cells : (V : Type 0) → AsyncCell V) where
  abbrev Act : Type 0 → Type 0
  Act V = Action (Error R) (Session R A flume cells) V

  -- The next channel is taken off the session's.
  unfoldable pub receive_channel :
      Session R A flume cells → Progress (Channel R A flume cells) (Session R A flume cells)
  receive_channel s = elim ((flume _).recv s.channels_rx).0 [
    | found c ↦ finished c (record s { channels_rx = ((flume _).recv s.channels_rx).1 })
    | nothing ↦ waiting
    | hung_up ↦ recv_error
  ]

  unfoldable pub get_local_description : Session R A flume cells → Option SessionDescription
  unfolding description_of
  get_local_description s = elim (A.local_description s.calls) [
    | none ↦ none
    | some desc ↦ some (description_of R desc)
  ]

  unfoldable pub add_ice_candidates : List IceCandidate → Act (Unit {0})
  unfolding note init_of_candidate
  add_ice_candidates [] = pure tt
  add_ice_candidates (candidate ∷ candidates) = do
    let init = init_of_candidate candidate
    await R A flume cells (A.add_ice_candidate init) (Call.add_ice_candidate init)
    add_ice_candidates candidates

  unfoldable pub set_remote_description : SessionDescription → Act (Unit {0})
  unfolding note rtc_description
  set_remote_description remote_answer = do
    remote ← try R A flume cells (rtc_description R remote_answer)
    await R A flume cells (A.set_remote_description remote) (Call.set_remote_description remote)

  unfoldable pub handle_data_channel_message : Message → (flume Bytes).Chan → (flume Bytes).Chan
  handle_data_channel_message message incoming_tx =
      (flume Bytes).send message.data_bytes incoming_tx

  unfoldable pub receive : Channel R A flume cells → Progress Bytes (Channel R A flume cells)
  receive c = elim ((flume _).recv c.rx).0 [
    | found b ↦ finished b (record c { rx = ((flume _).recv c.rx).1 })
    | nothing ↦ waiting
    | hung_up ↦ recv_error
  ]

  unfoldable pub send : Channel R A flume cells → Bytes → Act ℕ
  unfolding note
  send c bytes = await R A flume cells (A.send c.inner bytes) (Call.send c.inner bytes)

  unfoldable pub id : Channel R A flume cells → ℕ
  id c = A.id c.inner

  unfoldable pub label : Channel R A flume cells → String
  label c = A.label c.inner
