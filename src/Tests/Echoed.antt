-- ===== src/Tests/Echoed.antt =====
-- The echo of the example between two peers, over concrete bytes and queues.
use just_webrtc.Common.{
  zero, suc, ◌+◌, ◌≤◌, ◌≡◌, refl, Option, none, some, List, [], ◌∷◌, ◌++◌, length, if◌then◌else◌,
  arith,
}
use text.Mathlib.Text.{◌==◌}
use just_webrtc.Common.Action.{ok, err, ret}
use just_webrtc.WebRtc.Native.Connections.{Bytes}
use just_webrtc.Example.Echo.{Bincode, echo_request, echo_response}
use just_webrtc.Example.EchoPair.{
  Wire, Arrival, interval_over, request_arrives, response_arrives, Pair, session,
}
use just_webrtc.Example.Echoing.{echo_goes_on}

-- Two texts can be sent.
abbrev texts : Bincode
texts = record {
  Error = Unit {0};
  serialize = λ s.
      if s == echo_request
      then ok (0 ∷ [])
      else if s == echo_response
      then ok (0 ∷ 0 ∷ [])
      else err tt;
  deserialize = λ bytes. elim bytes [
    | zero ∷ [] ↦ ok echo_request
    | zero ∷ zero ∷ [] ↦ ok echo_response
    | _ ↦ err tt
  ];
}

abbrev first : List Bytes → Option Bytes × List Bytes
first [] = (none, [])
first (bytes ∷ rest) = (some bytes, rest)

first-cons :
    (bytes : Bytes) (rest w : List Bytes)
    → w ≡ bytes ∷ rest
    → (w' : List Bytes) × (first w ≡ (some bytes, w')) × (w' ≡ rest)
first-cons bytes rest w e = (rest, ground arith, refl)

first-nil : (w : List Bytes) → w ≡ [] → first w ≡ (none, w)
first-nil w e = ground arith

abbrev queues : Wire (Unit {0})
queues = record {
  Way = List Bytes;
  fresh = [];
  send = λ bytes w. (ret (length bytes), w ++ bytes ∷ []);
  receive = first;
  queue = λ w. w;
  queue-fresh = refl;
  queue-send = λ bytes w. (length bytes, w ++ bytes ∷ [], refl, refl);
  receive-cons = first-cons;
  receive-nil = first-nil;
}

abbrev some_arrivals : List Arrival
some_arrivals = request_arrives ∷ interval_over ∷ interval_over ∷ request_arrives ∷ []

echo_goes_on_example :
    (p p' : Pair texts queues) × (session texts queues some_arrivals ≡ ret p)
    × (length p.requests + length p.responses ≤ 1)
    × (session texts queues
          (some_arrivals ++ interval_over ∷ request_arrives ∷ response_arrives ∷ [])
        ≡ ret p')
    × (p'.echoes ≡ suc p.echoes)
echo_goes_on_example =
    echo_goes_on texts queues (0 ∷ []) (0 ∷ 0 ∷ []) refl refl refl refl some_arrivals
