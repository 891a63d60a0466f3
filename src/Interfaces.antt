-- ===== src/Interfaces.antt =====
-- What the signalling server relies on of two crates that it only calls: a bounded single-consumer
-- channel (`flume`) and a broadcast channel in overflow mode (`async_broadcast`). Each is a record
-- of operations with the views and laws that its documentation gives.
use just_webrtc.Common.{
  ℕ, suc, ◌+◌, ◌-◌, ◌≤◌, ◌<◌, ◌≡◌, refl, ◌⊎◌, inl, inr, Bool, true, false, ltb, Option, none, some,
  List, [], ◌∷◌, ◌++◌, length, get_elem?,
}

-- `flume::TrySendError`, or success.
pub data SendResult : Type 0 where
  sent full disconnected : SendResult

pub SendResult-cases : (r : SendResult) → (r ≡ sent) ⊎ (r ≡ full) ⊎ (r ≡ disconnected)
SendResult-cases sent = inl refl
SendResult-cases full = inr (inl refl)
SendResult-cases disconnected = inr (inr refl)

-- What `try_send` answers, from whether the receiver lives and whether there is room.
abbrev pub verdict : Bool → Bool → SendResult
verdict true true = sent
verdict true false = full
verdict false _ = disconnected

-- The queue after `try_send`.
abbrev pub pushed {ℓ} : {M : Type ℓ} → SendResult → M → List M → List M
pushed sent m q = q ++ m ∷ []
pushed full m q = q
pushed disconnected m q = q

-- A channel with its two ends. `queue`, `capacity` and `connected` are the views in which the laws
-- are stated: what is buffered, oldest first; the bound; whether the receiver still exists.
pub record Flume (M : Type 0) : Type 1 where
  pub Chan : Type 0
  pub bounded : ℕ → Chan
  pub try_send : M → Chan → SendResult × Chan
  pub recv : Chan → Option M × Chan
  pub drop_receiver : Chan → Chan
  pub queue : Chan → List M
  pub capacity : Chan → ℕ
  pub connected : Chan → Bool
  pub queue-bounded : (n : ℕ) → queue (bounded n) ≡ []
  pub capacity-bounded : (n : ℕ) → capacity (bounded n) ≡ n
  pub connected-bounded : (n : ℕ) → connected (bounded n) ≡ true
  pub try_send_result :
      (m : M) (c : Chan)
      → (try_send m c).0 ≡ verdict (connected c) (ltb (length (queue c)) (capacity c))
  pub queue-try_send :
      (m : M) (c : Chan) → queue (try_send m c).1 ≡ pushed (try_send m c).0 m (queue c)
  pub capacity-try_send : (m : M) (c : Chan) → capacity (try_send m c).1 ≡ capacity c
  pub connected-try_send : (m : M) (c : Chan) → connected (try_send m c).1 ≡ connected c
  pub recv-cons :
      (m : M) (ms : List M) (c : Chan)
      → queue c ≡ m ∷ ms
      → ((recv c).0 ≡ some m) × (queue (recv c).1 ≡ ms)
  pub recv-nil : (c : Chan) → queue c ≡ [] → recv c ≡ (none, c)
  pub capacity-recv : (c : Chan) → capacity (recv c).1 ≡ capacity c
  pub connected-recv : (c : Chan) → connected (recv c).1 ≡ connected c
  pub capacity-drop_receiver : (c : Chan) → capacity (drop_receiver c) ≡ capacity c
  pub length-queue-drop_receiver : (c : Chan) → length (queue (drop_receiver c)) ≤ length (queue c)
  pub connected-drop_receiver : (c : Chan) → connected (drop_receiver c) ≡ false

-- `recv_direct`: a message, the count of messages lost to overflow, or nothing yet.
pub data Received (M : Type 0) : Type 0 where
  message : M → Received M
  overflowed : ℕ → Received M
  closed : Received M
  waiting : Received M

-- A broadcast channel in overflow mode whose owner keeps a receiver. `history` is all that was ever
-- broadcast, oldest first, and `position` the index in it of a receiver's next message.
pub record Broadcast (M : Type 0) : Type 1 where
  pub Bus : Type 0
  pub Rx : Type 0
  pub broadcast : ℕ → Bus
  pub try_broadcast : M → Bus → Bool × Bus
  pub new_receiver : Bus → Rx
  pub recv_direct : Bus → Rx → Received M × Rx
  pub history : Bus → List M
  pub capacity : Bus → ℕ
  pub position : Rx → ℕ
  pub history-broadcast : (n : ℕ) → history (broadcast n) ≡ []
  pub capacity-broadcast : (n : ℕ) → capacity (broadcast n) ≡ n
  pub try_broadcast_accepts : (m : M) (b : Bus) → (try_broadcast m b).0 ≡ true
  pub history-try_broadcast :
      (m : M) (b : Bus) → history (try_broadcast m b).1 ≡ history b ++ m ∷ []
  pub capacity-try_broadcast : (m : M) (b : Bus) → capacity (try_broadcast m b).1 ≡ capacity b
  pub position-new_receiver : (b : Bus) → position (new_receiver b) ≡ length (history b)
  pub recv_direct_message :
      (b : Bus) (r : Rx) (m : M)
      → get_elem? (history b) (position r) ≡ some m
      → length (history b) ≤ position r + capacity b
      → ((recv_direct b r).0 ≡ message m) × (position (recv_direct b r).1 ≡ suc (position r))
  pub recv_direct_waiting :
      (b : Bus) (r : Rx) → length (history b) ≤ position r → recv_direct b r ≡ (waiting, r)
  pub recv_direct_overflowed :
      (b : Bus) (r : Rx)
      → position r + capacity b < length (history b)
      → ((recv_direct b r).0 ≡ overflowed (length (history b) - capacity b - position r))
        × (position (recv_direct b r).1 ≡ length (history b) - capacity b)
