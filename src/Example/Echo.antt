-- ===== src/Example/Echo.antt =====
-- `channel_echo_task`: what the task of the offerer and that of the answerer do between two awaits, with
-- `bincode` and the sending of a channel as parameters.
use just_webrtc.Common.{ℕ, String, Bool, true, false, if◌then◌else◌}
use text.Mathlib.Text.{◌==◌}
use just_webrtc.Common.Action.{Result, ok, err, ret, fail, panic, Action, ◌>>=◌, pure, throw}
use just_webrtc.WebRtc.Native.Connections.{Bytes}

pub record Bincode : Type 1 where
  pub Error : Type 0
  pub serialize : String → Result Error Bytes
  pub deserialize : Bytes → Result Error String

abbrev pub echo_request : String
echo_request = "I'm literally Ryan Gosling."

abbrev pub echo_response : String
echo_response = "I know right! He's literally me."

-- What the task awaits, with the message that it is to send.
pub data EchoTask : Type 0 where
  interval : Bytes → EchoTask
  response : Bytes → EchoTask
  request : Bytes → EchoTask

-- What the `anyhow::Error` of the task comes from.
pub data EchoFailure (B : Bincode) (E : Type 0) : Type 0 where
  bincode : B.Error → EchoFailure B E
  channel : E → EchoFailure B E

module _ (B : Bincode) {E S : Type 0} (send : Bytes → Action E S ℕ) where
  abbrev pub Echo : Type 0 → Type 0
  Echo A = Action (EchoFailure B E) S A

  abbrev pub serialized : String → Echo Bytes
  serialized s = elim (B.serialize s) [ ok bytes ↦ pure bytes | err e ↦ throw (bincode e) ]

  abbrev pub deserialized : Bytes → Echo String
  deserialized bytes = elim (B.deserialize bytes) [ ok s ↦ pure s | err e ↦ throw (bincode e) ]

  abbrev pub sent : Bytes → Echo ℕ
  sent bytes s = elim (send bytes s).0 [
    | ret n ↦ (ret n, (send bytes s).1)
    | fail e ↦ (fail (channel e), (send bytes s).1)
    | panic ↦ (panic, (send bytes s).1)
  ]

  -- Up to the first await.
  unfoldable pub begin : Bool → Echo EchoTask
  begin true = do message ← serialized echo_request; pure (interval message)
  begin false = do message ← serialized echo_response; pure (request message)

  unfoldable pub on_interval : Bytes → Echo EchoTask
  on_interval message = do n ← sent message; pure (response message)

  -- With whether the echo is reported.
  unfoldable pub on_response : Bytes → Bytes → Echo (EchoTask × Bool)
  on_response message bytes = do s ← deserialized bytes; pure (interval message, s == echo_response)

  unfoldable pub on_request : Bytes → Bytes → Echo EchoTask
  on_request message bytes = do
    s ← deserialized bytes
    if s == echo_request
        then (sent message >>= λ n. pure (request message))
        else pure (request message)
