-- ===== src/Tests/Native.antt =====
-- The native platform at concrete queues, cells and candidates.
use just_webrtc.Common.{
  String, ◌≡◌, refl, Bool, true, false, Option, none, some, List, [], ◌∷◌, ◌++◌, arith,
}
use just_webrtc.Common.Action.{Result, ok, err}
use just_webrtc.WebRtc.Types.{IceCandidate}
use just_webrtc.WebRtc.Native.Foreign.{
  RtcSdpType, RtcPeerConnectionState, RtcIceCandidateInit, WebRtcRs, Found, found, nothing, hung_up,
  Unbounded, AsyncCell,
}
use just_webrtc.WebRtc.Native.Convert.{candidate_of_init, init_of_candidate}
use just_webrtc.WebRtc.Native.Link.{finished, waiting, handle_ice_candidate, collect_ice_candidates}
use just_webrtc.WebRtc.Native.RoundTrip.{candidate_roundtrip}
use just_webrtc.WebRtc.Native.Gathering.{serializable, gather, collect_gathers}

abbrev pub kept : RtcSdpType → String → Result String (RtcSdpType × String)
kept t s = ok (t, s)

pub kept_both :
    (t : RtcSdpType) (s : String) (d : RtcSdpType × String)
    → kept t s ≡ ok d
    → (d.1 ≡ s) × (d.0 ≡ t)
kept_both t s d e = (ground arith, ground arith)

-- Candidates are their own serialization, or none; policies are strings.
abbrev pub rs : WebRtcRs
rs = record {
  Error = String;
  BundlePolicy = String;
  balanced = "balanced";
  max_bundle = "max-bundle";
  max_compat = "max-compat";
  IceTransportPolicy = String;
  all = "all";
  relay = "relay";
  RtcpMuxPolicy = String;
  negotiate = "negotiate";
  require = "require";
  IceCredentialType = String;
  oauth = "oauth";
  password = "password";
  Configuration = String;
  configuration = λ _ identity _ _ _ _. identity;
  SessionDescription = RtcSdpType × String;
  sdp = λ d. d.1;
  sdp_type = λ d. d.0;
  answer_description = kept RtcSdpType.answer;
  offer_description = kept RtcSdpType.offer;
  pranswer_description = kept RtcSdpType.pranswer;
  default_with = λ s t. (t, s);
  answer_description_keeps = kept_both RtcSdpType.answer;
  offer_description_keeps = kept_both RtcSdpType.offer;
  pranswer_description_keeps = kept_both RtcSdpType.pranswer;
  default_with_keeps = λ s t. (refl, refl);
  IceCandidate = Option RtcIceCandidateInit;
  to_json = λ c. elim c [ none ↦ err "no candidate" | some init ↦ ok init ];
}

abbrev pub receive : {M : Type 0} → List M × Bool → Found M × (List M × Bool)
receive ([], true) = (nothing, ([], true))
receive ([], false) = (hung_up, ([], false))
receive (m ∷ ms, live) = (found m, (ms, live))

pub receive-cons :
    {M : Type 0} (m : M) (ms : List M) (c : List M × Bool)
    → c.0 ≡ m ∷ ms
    → ((receive c).0 ≡ found m) × ((receive c).1.0 ≡ ms) × ((receive c).1.1 ≡ c.1)
receive-cons m ms ([], true) e = ground arith
receive-cons m ms ([], false) e = ground arith
receive-cons m ms (x ∷ xs, live) e = (ground arith, ground arith, refl)

pub receive-nil :
    {M : Type 0} (c : List M × Bool) → c.0 ≡ [] → c.1 ≡ true → receive c ≡ (nothing, c)
receive-nil ([], true) e live = refl
receive-nil ([], false) e live = ground arith
receive-nil (x ∷ xs, live) e l = ground arith

pub receive-hung_up :
    {M : Type 0} (c : List M × Bool) → c.0 ≡ [] → c.1 ≡ false → (receive c).0 ≡ hung_up
receive-hung_up ([], true) e gone = ground arith
receive-hung_up ([], false) e gone = refl
receive-hung_up (x ∷ xs, live) e gone = ground arith

abbrev pub lists : (M : Type 0) → Unbounded M
lists M = record {
  Chan = List M × Bool;
  unbounded = ([], true);
  send = λ m c. (c.0 ++ m ∷ [], c.1);
  recv = receive;
  drop_sender = λ c. (c.0, false);
  queue = λ c. c.0;
  has_sender = λ c. c.1;
  queue-unbounded = refl;
  has_sender-unbounded = refl;
  queue-send = λ m c. refl;
  has_sender-send = λ m c. refl;
  recv-cons = receive-cons;
  queue-drop_sender = λ c. refl;
  has_sender-drop_sender = λ c. refl;
  recv-hung_up = receive-hung_up;
  recv-nil = receive-nil;
}

abbrev pub options : (A : Type 0) → AsyncCell A
options A = record {
  Cell = Option A;
  empty = none;
  set = λ a _. some a;
  take = λ c. (c, none);
  take-empty = refl;
  take-set = λ a c. refl;
}

abbrev pub host : RtcIceCandidateInit
host = record {
  candidate = "candidate:1 1 udp 1 192.0.2.1 5000 typ host";
  sdp_mid = some "";
  sdp_mline_index = some 0;
  username_fragment = none;
}

candidate_roundtrip_example :
    (candidate_of_init (init_of_candidate (candidate_of_init host)) ≡ candidate_of_init host)
    × (init_of_candidate (candidate_of_init host) ≡ host)
candidate_roundtrip_example = candidate_roundtrip (candidate_of_init host) host

abbrev gathering : List (Option RtcIceCandidateInit)
gathering = some host ∷ none ∷ some host ∷ []

abbrev pub q : Unbounded (Option IceCandidate)
q = lists (Option IceCandidate)

collect_gathers_example :
    let gathered = gather rs q gathering q.unbounded in
    (collect_ice_candidates q 3 [] gathered ≡ waiting)
    × (rest : q.Chan) × (collect_ice_candidates q 3 [] (handle_ice_candidate rs q none gathered)
        ≡ finished (serializable rs gathering) rest)
    × (q.queue rest ≡ [])
unfolding serializable
collect_gathers_example = collect_gathers rs q gathering 3 (omega arith)

abbrev states : List RtcPeerConnectionState
states = RtcPeerConnectionState.connecting ∷ RtcPeerConnectionState.connected ∷ []
