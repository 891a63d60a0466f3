-- ===== src/WebRtc/Native/RoundTrip.antt =====
-- What is converted to a type of webrtc-rs is converted back.
use just_webrtc.Common.{◌≡◌, refl, arith}
use just_webrtc.Common.Action.{ok}
use just_webrtc.WebRtc.Types.{
  IceCandidate, SdpType, SessionDescription, answer, offer, pranswer, rollback,
}
use just_webrtc.WebRtc.Native.Foreign.{RtcSdpType, RtcIceCandidateInit, WebRtcRs}
use just_webrtc.WebRtc.Native.Convert.{
  rtc_sdp_type, sdp_type_of, candidate_of_init, init_of_candidate, rtc_description, description_of,
}

sdp_type_of-rtc_sdp_type : (t : SdpType) → sdp_type_of (rtc_sdp_type t) ≡ t
unfolding sdp_type_of rtc_sdp_type
sdp_type_of-rtc_sdp_type answer = refl
sdp_type_of-rtc_sdp_type offer = refl
sdp_type_of-rtc_sdp_type pranswer = refl
sdp_type_of-rtc_sdp_type rollback = refl

-- A candidate survives the way to webrtc-rs and back, and one of webrtc-rs the way here and back.
pub candidate_roundtrip :
    (c : IceCandidate) (init : RtcIceCandidateInit)
    → (candidate_of_init (init_of_candidate c) ≡ c)
      × (init_of_candidate (candidate_of_init init) ≡ init)
unfolding candidate_of_init init_of_candidate
candidate_roundtrip c init = (refl, refl)

-- A description that webrtc-rs accepts, of whichever type, reads back as the description that it was.
pub description_roundtrip :
    (R : WebRtcRs) (d : SessionDescription) (r : R.SessionDescription)
    → rtc_description R d ≡ ok r
    → description_of R r ≡ d
unfolding rtc_description description_of sdp_type_of rtc_sdp_type
description_roundtrip R d r e = ground (
  arith,
  R.answer_description_keeps d.sdp r,
  R.offer_description_keeps d.sdp r,
  R.pranswer_description_keeps d.sdp r,
  R.default_with_keeps d.sdp RtcSdpType.rollback,
)
