-- ===== src/Client/State.antt =====
-- The data of client.rs: `ClientError`, `SignallingState`, the queued futures, and the signalling peer.
use just_webrtc.Common.{ℕ, String, ◌≡◌, Bool, Option, List}
use just_webrtc.Common.Action.{Result}
use just_webrtc.Proto.{
  Status, Bytes, PeerChange, PeerListenerRsp, OfferListenerRsp, AnswerListenerRsp,
}

-- What the errors of `bincode`, `tonic::transport` and user callbacks carry is their text.
pub data ClientError : Type 0 where
  bincode : String → ClientError
  listener_closed : ClientError
  invalid_url : ClientError
  tonic_status : Status → ClientError
  tonic_transport : String → ClientError
  external_fn : String → ClientError

abbrev pub ClientResult : Type 0 → Type 0
ClientResult A = Result ClientError A

-- `bincode::serialize` and `bincode::deserialize` at one type. What was serialized is read back.
pub record Codec (X : Type 0) : Type 0 where
  pub serialize : X → Result String Bytes
  pub deserialize : Bytes → Result String X
  pub deserialize-serialize :
      (x : X) (b : Bytes) → serialize x ≡ Result.ok b → deserialize b ≡ Result.ok x

-- The type parameters `A`, `O` and `C` with their serialization.
pub record Signals : Type 1 where
  pub Answer : Type 0
  pub Offer : Type 0
  pub Candidates : Type 0
  pub answers : Codec Answer
  pub offers : Codec Offer
  pub candidates : Codec Candidates

-- What `Streaming::message` yields next: `Ok(Some(_))`, `Ok(None)` or `Err(_)`.
pub data StreamItem (M : Type 0) : Type 0 where
  arrived : M → StreamItem M
  ended : StreamItem M
  broken : Status → StreamItem M

-- A `tonic::Streaming`, by the items that it will yield; behind them it waits for ever.
abbrev pub Streaming : Type 0 → Type 0
Streaming M = List (StreamItem M)

module _ (G : Signals) where
  pub data SignallingState : Type 0 where
    peer_listener : Streaming PeerListenerRsp → List PeerChange → SignallingState
    offer_listener : Streaming OfferListenerRsp → ℕ → G.Offer × G.Candidates → SignallingState
    answer_listener : Streaming AnswerListenerRsp → ℕ → G.Answer × G.Candidates → SignallingState
    create_offer : ℕ → G.Offer × G.Candidates → SignallingState
    receive_answer : ℕ → SignallingState
    local_sig_cplt : ℕ → SignallingState
    receive_offer : ℕ → G.Answer × G.Candidates → SignallingState
    remote_sig_cplt : ℕ → SignallingState

  -- What a future resolves to; `none` for one that never does.
  abbrev pub Resolution : Type 0
  Resolution = Option (ClientResult SignallingState)

  -- A queued future: a listener task on its stream, or what a wrapped callback returned.
  pub data SignallingStateFut : Type 0 where
    peer_listener_fut : Streaming PeerListenerRsp → SignallingStateFut
    offer_listener_fut : Streaming OfferListenerRsp → SignallingStateFut
    answer_listener_fut : Streaming AnswerListenerRsp → SignallingStateFut
    callback_fut : Resolution → SignallingStateFut

  -- `RtcSignallingPeer`, less its reference to the client.
  pub record RtcSignallingPeer : Type 0 where
    pub local_id : ℕ
    pub discovered_peers : List ℕ
    pub first_discovery : Bool
    pub create_offer_task : ℕ → Resolution
    pub receive_answer_task : ℕ → G.Answer × G.Candidates → Resolution
    pub local_sig_cplt_task : ℕ → Resolution
    pub receive_offer_task : ℕ → G.Offer × G.Candidates → Resolution
    pub remote_sig_cplt_task : ℕ → Resolution
    pub unordered_futs : List SignallingStateFut
