-- ===== src/Server/State.antt =====
-- The state of server.rs: `Listeners`, `Signalling`, and the static `GENERATOR`, which is kept with
-- the signalling channels that the handlers reach it with.
use just_webrtc.Common.{ℕ, String, Option, none, List, []}
use just_webrtc.Common.Action.{Action}
use just_webrtc.Proto.{
  TonicResult, Status, Code, PeerListenerRsp, OfferListenerRsp, AnswerListenerRsp,
}
use just_webrtc.Interfaces.{Flume, Broadcast}

-- The channels that the server takes from `flume` and `async_broadcast`.
pub record Libs : Type 1 where
  pub offers : Flume (TonicResult OfferListenerRsp)
  pub answers : Flume (TonicResult AnswerListenerRsp)
  pub changes : Broadcast (TonicResult PeerListenerRsp)

-- 2 ^ 64, where `AtomicU64::fetch_add` wraps.
abbrev pub u64_mod : ℕ
u64_mod = 18446744073709551616

-- The argument of the three channel constructors.
abbrev pub channel_bound : ℕ
channel_bound = 16

abbrev pub status : Code → String → Status
status c m = record { code = c; message = m }

module _ (L : Libs) where
  -- The stored sender also carries the receiver's end, which the listener's stream reads.
  pub record Listeners : Type 0 where
    pub offer_listener_tx : Option L.offers.Chan
    pub answer_listener_tx : Option L.answers.Chan

  -- `Listeners::default()`.
  abbrev pub no_listeners : Listeners
  no_listeners = record { offer_listener_tx = none; answer_listener_tx = none }

  pub record Signalling : Type 0 where
    pub generator : ℕ
    pub peers : List (ℕ × Listeners)
    pub peer_broadcast : L.changes.Bus

  -- `Signalling::new`, with the generator where it stands.
  unfoldable pub new : ℕ → Signalling
  new generator = record {
    generator = generator;
    peers = [];
    peer_broadcast = L.changes.broadcast channel_bound;
  }

  abbrev pub Handler : Type 0 → Type 0
  Handler A = Action Status Signalling A
