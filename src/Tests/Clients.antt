-- ===== src/Tests/Clients.antt =====
-- Concrete clients for the examples: signals of bytes, and calls that reach a server at once.
use just_webrtc.Common.{String, ◌≡◌, refl, [], ◌∷◌, arith}
use just_webrtc.Common.Action.{Outcome, ret, fail, panic, Result, ok, err}
use just_webrtc.Proto.{Status, Bytes, TonicResult}
use just_webrtc.Server.State.{Signalling}
use just_webrtc.Server.Peers.{advertise, teardown, peer_discover, open_peer_listener}
use just_webrtc.Server.Offers.{signal_offer, open_offer_listener}
use just_webrtc.Server.Answers.{signal_answer, open_answer_listener}
use just_webrtc.Client.State.{Codec, Signals, Streaming, RtcSignallingPeer}
use just_webrtc.Client.Rpc.{Stub}
use just_webrtc.Client.Peer.{new}
use just_webrtc.Client.Step.{Session}
use just_webrtc.System.Transport.{answer_of, Opens, Serves}
use just_webrtc.Tests.Channels.{libs}

-- Refuses to serialize the empty signal.
abbrev nonempty : Bytes → Result String Bytes
nonempty [] = err "empty signal"
nonempty (b ∷ bs) = ok (b ∷ bs)

abbrev as_it_is : Bytes → Result String Bytes
as_it_is b = ok b

pub as_it_is-nonempty : (x b : Bytes) → nonempty x ≡ ok b → as_it_is b ≡ ok x
as_it_is-nonempty [] b e = ground arith
as_it_is-nonempty (x ∷ xs) b e = ground arith

abbrev bytes : Codec Bytes
bytes = record {
  serialize = nonempty;
  deserialize = as_it_is;
  deserialize-serialize = as_it_is-nonempty;
}

abbrev pub signals : Signals
signals = record {
  Answer = Bytes;
  Offer = Bytes;
  Candidates = Bytes;
  answers = bytes;
  offers = bytes;
  candidates = bytes;
}

-- The stream of a listener that opens, with nothing in it yet.
abbrev opened : {A M : Type 0} → TonicResult A → TonicResult (Streaming M)
opened (ok _) = ok []
opened (err e) = err e

pub opened-Opens :
    (M : Type 0) {A : Type 0} (o : Outcome Status A)
    → Opens {A = A} {M = M} (opened (answer_of o)) o
opened-Opens M (ret a) = ([], refl)
opened-Opens M (fail e) = refl
opened-Opens M panic = refl

abbrev pub stub : Stub (Signalling libs)
stub = record {
  advertise = λ w. (answer_of (advertise libs w).0, (advertise libs w).1);
  teardown = λ m w. (answer_of (teardown libs m w).0, (teardown libs m w).1);
  peer_discover = λ m w. (answer_of (peer_discover libs m w).0, w);
  open_peer_listener =
      λ m w. (opened (answer_of (open_peer_listener libs m w).0), (open_peer_listener libs m w).1);
  open_offer_listener = λ m w.
      (opened (answer_of (open_offer_listener libs m w).0), (open_offer_listener libs m w).1);
  open_answer_listener = λ m w.
      (opened (answer_of (open_answer_listener libs m w).0), (open_answer_listener libs m w).1);
  signal_offer = λ m w. (answer_of (signal_offer libs m w).0, (signal_offer libs m w).1);
  signal_answer = λ m w. (answer_of (signal_answer libs m w).0, (signal_answer libs m w).1);
}

pub stub-Serves : Serves libs stub (λ w. w)
stub-Serves = record {
  advertises = λ w. (refl, refl);
  opens_peers = λ m w. (opened-Opens _ (open_peer_listener libs m w).0, refl);
  opens_offers = λ m w. (opened-Opens _ (open_offer_listener libs m w).0, refl);
  opens_answers = λ m w. (opened-Opens _ (open_answer_listener libs m w).0, refl);
  discovers = λ m w. refl;
  offers = λ m w. (refl, refl);
  answers = λ m w. (refl, refl);
}

-- Peer 0, which has discovered nobody.
abbrev pub newcomer : RtcSignallingPeer signals
newcomer = new signals 0 [] [] []

abbrev pub session_in : Signalling libs → Session signals (Signalling libs)
session_in w = record { world = w; peer = newcomer }
