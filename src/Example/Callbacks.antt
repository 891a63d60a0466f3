-- ===== src/Example/Callbacks.antt =====
-- The callbacks that `run_peer` sets, over the common interface of the platforms. The map holds each
-- connection with its session. What runs while a callback awaits is a parameter: the handlers of its
-- connection, which change the session, or the callbacks of other peers, which change the map.
use just_webrtc.Common.{ℕ, String, List}
use just_webrtc.Common.Action.{Outcome, ret, fail, panic}
use just_webrtc.WebRtc.Types.{IceCandidate, SessionDescription}
use just_webrtc.WebRtc.Native.Link.{finished, waiting, recv_error, out_of_fuel}
use just_webrtc.WebRtc.Platform.{Platform}
use just_webrtc.Example.Connections.{PeerConnectionMap, Shared, insert, take, place}
use just_webrtc.Example.Negotiation.{
  Failure, create_offer, receive_offer, with_candidates, receive_answer,
}

-- Whose `anyhow::Error` a callback returns; the channel of the candidates is the platform's.
pub data CallbackError (Error : Type 0) : Type 0 where
  shared : String → CallbackError Error
  negotiation : Failure Error → CallbackError Error
  candidates : CallbackError Error

-- A callback's future: resolved, with the map that it leaves, or not yet.
pub data Called (Error A M : Type 0) : Type 0 where
  resolved : A → M → Called Error A M
  failed : CallbackError Error → M → Called Error A M
  panicked : Called Error A M
  pending : Called Error A M

module _ (P : Platform) where
  abbrev pub Connection : Type 0
  Connection = P.PeerConnection × P.Session

  abbrev pub Peers : Type 0
  Peers = PeerConnectionMap Connection

  abbrev pub Callback : Type 0 → Type 0
  Callback A = Called P.Error A Peers

  abbrev pub Described : Type 0
  Described = SessionDescription × List IceCandidate

  -- The last call on the map, and what the callback returns.
  abbrev pub ends_with : {A : Type 0} → A → Outcome String (Unit {0}) × Peers → Callback A
  ends_with a r = elim r.0 [
    | ret _ ↦ resolved a r.1
    | fail e ↦ failed (shared e) r.1
    | panic ↦ panicked
  ]

  -- From the connection that was made to the end: `create_offer_fn` and `receive_offer_fn` end alike.
  unfoldable pub enters :
      (P.Session → P.Session)
      → ℕ
      → ℕ
      → Outcome (Failure P.Error) (SessionDescription × P.PeerConnection) × P.Session
      → Peers
      → Callback (ℕ × Described)
  unfolding insert with_candidates
  enters handlers fuel remote_id made inner = elim made.0 [
    | ret (desc, connection) ↦ elim (with_candidates P fuel (desc, connection) (handlers made.1)) [
      | finished (set, c) s ↦ ends_with (remote_id, set) (insert remote_id (c, s) inner)
      | waiting ↦ pending
      | recv_error ↦ failed candidates inner
      | out_of_fuel ↦ pending
    ]
    | fail e ↦ failed (negotiation e) inner
    | panic ↦ panicked
  ]

  unfoldable pub create_offer_fn :
      (P.Session → P.Session) → ℕ → ℕ → Peers → Callback (ℕ × Described)
  unfolding enters
  create_offer_fn handlers fuel remote_id inner =
      enters handlers fuel remote_id (create_offer P P.start) inner

  unfoldable pub receive_offer_fn :
      (P.Session → P.Session) → ℕ → ℕ → Described → Peers → Callback (ℕ × Described)
  unfolding enters
  receive_offer_fn handlers fuel remote_id (offer, cs) inner =
      enters handlers fuel remote_id (receive_offer P offer cs P.start) inner

  unfoldable pub receive_answer_fn : (Peers → Peers) → ℕ → Described → Peers → Callback ℕ
  unfolding take place receive_answer
  receive_answer_fn others remote_id (answer, cs) inner = elim (take remote_id inner).0 [
    | ret (c, s) ↦
        let set = receive_answer P answer cs s in
        elim set.0 [
          | ret _ ↦
              ends_with remote_id (place remote_id (c, set.1) (others (take remote_id inner).1))
          | fail e ↦ failed (negotiation e) (others (take remote_id inner).1)
          | panic ↦ panicked
        ]
    | fail e ↦ failed (shared e) (take remote_id inner).1
    | panic ↦ panicked
  ]

  -- `local_sig_cplt_fn` and `remote_sig_cplt_fn` up to `peer_echo_task`, which gets the connection.
  unfoldable pub sig_cplt_fn : ℕ → Shared Connection Connection
  unfolding take
  sig_cplt_fn remote_id = take remote_id
