-- ===== src/Proto.antt =====
-- The messages of crates/just-webrtc-signalling/proto/main.proto, the gRPC statuses that the service
-- and its client exchange, and the constructors of `PeerChange` (server.rs, "pb type helpers").
use just_webrtc.Common.Action.{Result}
pub use just_webrtc.Common.Action.{ok, err}
use just_webrtc.Common.{ℕ, String, List, Option}

pub record PeerId : Type 0 where
  pub id : ℕ

pub data Change : Type 0 where
  peer_change_add peer_change_remove : Change

-- `change` is the value that the generated accessor `change()` reads from the wire's integer.
pub record PeerChange : Type 0 where
  pub id : ℕ
  pub change : Change

abbrev pub Bytes : Type 0
Bytes = List ℕ

pub record SignalOffer : Type 0 where
  pub offerer_id : ℕ
  pub offer : Bytes
  pub candidates : Bytes

pub record SignalAnswer : Type 0 where
  pub answerer_id : ℕ
  pub answer : Bytes
  pub candidates : Bytes

-- `TeardownReq`, `PeerDiscoverReq`, `PeerListenerReq`, `OfferListenerReq` and `AnswerListenerReq`
-- have this one field.
pub record LocalPeerReq : Type 0 where
  pub local_peer : Option PeerId

pub record AdvertiseRsp : Type 0 where
  pub local_peer : Option PeerId

pub record PeerDiscoverRsp : Type 0 where
  pub remote_peers : List PeerId

pub record PeerListenerRsp : Type 0 where
  pub peer_changes : List PeerChange

pub record SignalOfferReq : Type 0 where
  pub answerer_peer : Option PeerId
  pub offer_signal : Option SignalOffer

pub record OfferListenerRsp : Type 0 where
  pub offer_signal : Option SignalOffer

pub record SignalAnswerReq : Type 0 where
  pub offerer_peer : Option PeerId
  pub answer_signal : Option SignalAnswer

pub record AnswerListenerRsp : Type 0 where
  pub answer_signal : Option SignalAnswer

-- The gRPC codes that the code names; `other` stands for the rest.
pub data Code : Type 0 where
  invalid_argument failed_precondition aborted internal data_loss : Code
  other : ℕ → Code

pub record Status : Type 0 where
  pub code : Code
  pub message : String

-- `PeerChange::add`.
abbrev pub peer_change_of_add : ℕ → PeerChange
peer_change_of_add id = record { id = id; change = peer_change_add }

-- `PeerChange::remove`.
abbrev pub peer_change_of_remove : ℕ → PeerChange
peer_change_of_remove id = record { id = id; change = peer_change_remove }

-- `tonic::Result`.
abbrev pub TonicResult : Type 0 → Type 0
TonicResult A = Result Status A
