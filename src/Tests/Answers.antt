-- ===== src/Tests/Answers.antt =====
-- The delivery of an answer, on every branch, at small states.
use just_webrtc.Common.{true}
use just_webrtc.Proto.{SignalAnswerReq}
use just_webrtc.Server.Answers.{signal_answer}
use just_webrtc.Server.AnswerDelivery.{AnswerVerdict, signal_answer_exact, answer_to}
use just_webrtc.Tests.Channels.{libs}
use just_webrtc.Tests.Data.{an_answer, two_peers}

abbrev offerer_1 : SignalAnswerReq
offerer_1 = answer_to libs (two_peers true 1) 1 an_answer

signal_answer_exact_example :
    AnswerVerdict libs
      (two_peers true 1)
      1
      an_answer
      (signal_answer libs offerer_1 (two_peers true 1)).0
      (signal_answer libs offerer_1 (two_peers true 1)).1
signal_answer_exact_example = signal_answer_exact libs (two_peers true 1) 1 an_answer
