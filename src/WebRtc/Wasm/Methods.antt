-- ===== src/WebRtc/Wasm/Methods.antt =====
-- wasm.rs: the methods of a `PeerConnection` and of a `Channel`.
use just_webrtc.Common.{ℕ, String, Option, none, some, List, [], ◌∷◌, length}
use just_webrtc.Common.Action.{Action, ◌>>◌, pure}
use just_webrtc.WebRtc.Types.{IceCandidate, SessionDescription}
use just_webrtc.WebRtc.Native.Foreign.{Unbounded, AsyncCell, found, nothing, hung_up}
use just_webrtc.WebRtc.Native.Connections.{Bytes}
use just_webrtc.WebRtc.Native.Link.{Progress, finished, waiting, recv_error}
use just_webrtc.WebRtc.Wasm.Foreign.{Call, Browser}
use just_webrtc.WebRtc.Wasm.Convert.{description_init, description_of, candidate_init}
use just_webrtc.WebRtc.Wasm.Build.{Exit, Channel, Session, note, js_value_to_error, await}

module _ (A : Browser) (flume : (M : Type 0) → Unbounded M)
    (cells : (V : Type 0) → AsyncCell V) where
  abbrev Act : Type 0 → Type 0
  Act V = Action (Exit A) (Session A flume cells) V

  -- The next channel is taken off the session's.
  unfoldable pub receive_channel :
      Session A flume cells → Progress (Channel A flume cells) (Session A flume cells)
  receive_channel s = elim ((flume _).recv s.channels_rx).0 [
    | found c ↦ finished c (record s { channels_rx = ((flume _).recv s.channels_rx).1 })
    | nothing ↦ waiting
    | hung_up ↦ recv_error
  ]

  unfoldable pub get_local_description : Session A flume cells → Option SessionDescription
  unfolding description_of
  get_local_description s = elim (A.local_description s.calls) [
    | none ↦ none
    | some js_desc ↦ some (description_of js_desc)
  ]

  unfoldable pub add_ice_candidates : List IceCandidate → Act (Unit {0})
  unfolding note candidate_init js_value_to_error
  add_ice_candidates [] = pure tt
  add_ice_candidates (candidate ∷ candidates) = do
    let init = candidate_init candidate
    await A flume cells (A.add_ice_candidate init) (Call.add_ice_candidate init)
    add_ice_candidates candidates

  unfoldable pub set_remote_description : SessionDescription → Act (Unit {0})
  unfolding note description_init js_value_to_error
  set_remote_description remote_answer = do
    let desc_dict = description_init remote_answer
    await A flume cells (A.set_remote_description desc_dict) (Call.set_remote_description desc_dict)

  unfoldable pub receive : Channel A flume cells → Progress Bytes (Channel A flume cells)
  receive c = elim ((flume _).recv c.rx).0 [
    | found b ↦ finished b (record c { rx = ((flume _).recv c.rx).1 })
    | nothing ↦ waiting
    | hung_up ↦ recv_error
  ]

  unfoldable pub send : Channel A flume cells → Bytes → Act ℕ
  unfolding note js_value_to_error
  send c bytes = do
    await A flume cells (A.send_with_u8_array c.inner bytes) (Call.send_with_u8_array c.inner bytes)
    pure (length bytes)

  unfoldable pub id : Channel A flume cells → ℕ
  id c = elim (A.id c.inner) [ none ↦ 0 | some n ↦ n ]

  unfoldable pub label : Channel A flume cells → String
  label c = A.label c.inner
