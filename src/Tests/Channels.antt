-- ===== src/Tests/Channels.antt =====
-- Concrete channels for the examples: a bounded queue, and a log that its receivers read by position.
use just_webrtc.Common.{
  ℕ, zero, suc, ◌+◌, ◌-◌, ◌≤◌, ◌<◌, ◌≡◌, refl, Bool, true, false, ltb, if◌then◌else◌, Option, none,
  some, List, [], ◌∷◌, ◌++◌, length, get_elem?, arith,
}
use just_webrtc.Interfaces.{
  SendResult, verdict, pushed, Flume, Received, message, overflowed, waiting, Broadcast,
}
use just_webrtc.Server.State.{Libs}

pub record Pipe (M : Type 0) : Type 0 where
  pub queue : List M
  pub capacity : ℕ
  pub connected : Bool

abbrev pipe_send : {M : Type 0} → M → Pipe M → SendResult × Pipe M
pipe_send m p =
    let v = verdict p.connected (ltb (length p.queue) p.capacity) in
    (v, record p { queue = pushed v m p.queue })

abbrev pipe_recv : {M : Type 0} → Pipe M → Option M × Pipe M
pipe_recv p = elim p.queue [ [] ↦ (none, p) | m ∷ ms ↦ (some m, record p { queue = ms }) ]

pub pipe_recv-cons :
    {M : Type 0} (m : M) (ms : List M) (p : Pipe M)
    → p.queue ≡ m ∷ ms
    → ((pipe_recv p).0 ≡ some m) × ((pipe_recv p).1.queue ≡ ms)
pipe_recv-cons m ms p e = (ground arith, ground arith)

pub pipe_recv-nil : {M : Type 0} (p : Pipe M) → p.queue ≡ [] → pipe_recv p ≡ (none, p)
pipe_recv-nil p e = ground arith

pub pipe_recv_keeps :
    {M : Type 0} (p : Pipe M)
    → ((pipe_recv p).1.capacity ≡ p.capacity) × ((pipe_recv p).1.connected ≡ p.connected)
pipe_recv_keeps p = (ground arith, ground arith)

abbrev pub pipes : (M : Type 0) → Flume M
pipes M = record {
  Chan = Pipe M;
  bounded = λ n. record { queue = []; capacity = n; connected = true };
  try_send = pipe_send;
  recv = pipe_recv;
  drop_receiver = λ p. record p { connected = false };
  queue = λ p. p.queue;
  capacity = λ p. p.capacity;
  connected = λ p. p.connected;
  queue-bounded = λ n. refl;
  capacity-bounded = λ n. refl;
  connected-bounded = λ n. refl;
  try_send_result = λ m p. refl;
  queue-try_send = λ m p. refl;
  capacity-try_send = λ m p. refl;
  connected-try_send = λ m p. refl;
  recv-cons = pipe_recv-cons;
  recv-nil = pipe_recv-nil;
  capacity-recv = λ p. (pipe_recv_keeps p).0;
  connected-recv = λ p. (pipe_recv_keeps p).1;
  capacity-drop_receiver = λ p. refl;
  length-queue-drop_receiver = λ p. omega arith;
  connected-drop_receiver = λ p. refl;
}

pub record Log (M : Type 0) : Type 0 where
  pub history : List M
  pub capacity : ℕ

abbrev log_recv : {M : Type 0} → Log M → ℕ → Received M × ℕ
log_recv l r =
    if ltb (r + l.capacity) (length l.history)
    then (overflowed (length l.history - l.capacity - r), length l.history - l.capacity)
    else elim (get_elem? l.history r) [ none ↦ (waiting, r) | some m ↦ (message m, suc r) ]

get_elem?-past : {M : Type 0} (xs : List M) (n : ℕ) → length xs ≤ n → get_elem? xs n ≡ none
get_elem?-past [] n h = refl
get_elem?-past (x ∷ xs) zero h = ground arith
get_elem?-past (x ∷ xs) (suc n) h = get_elem?-past xs n (omega arith)

pub log_recv_message :
    {M : Type 0} (l : Log M) (r : ℕ) (m : M)
    → get_elem? l.history r ≡ some m
    → length l.history ≤ r + l.capacity
    → ((log_recv l r).0 ≡ message m) × ((log_recv l r).1 ≡ suc r)
log_recv_message l r m e h = (ground arith, ground arith)

pub log_recv_waiting :
    {M : Type 0} (l : Log M) (r : ℕ) → length l.history ≤ r → log_recv l r ≡ (waiting, r)
log_recv_waiting l r h = ground (arith, get_elem?-past l.history r h)

pub log_recv_overflowed :
    {M : Type 0} (l : Log M) (r : ℕ)
    → r + l.capacity < length l.history
    → ((log_recv l r).0 ≡ overflowed (length l.history - l.capacity - r))
      × ((log_recv l r).1 ≡ length l.history - l.capacity)
log_recv_overflowed l r h = (ground arith, ground arith)

abbrev pub logs : (M : Type 0) → Broadcast M
logs M = record {
  Bus = Log M;
  Rx = ℕ;
  broadcast = λ n. record { history = []; capacity = n };
  try_broadcast = λ m l. (true, record l { history = l.history ++ m ∷ [] });
  new_receiver = λ l. length l.history;
  recv_direct = log_recv;
  history = λ l. l.history;
  capacity = λ l. l.capacity;
  position = λ r. r;
  history-broadcast = λ n. refl;
  capacity-broadcast = λ n. refl;
  try_broadcast_accepts = λ m l. refl;
  history-try_broadcast = λ m l. refl;
  capacity-try_broadcast = λ m l. refl;
  position-new_receiver = λ l. refl;
  recv_direct_message = log_recv_message;
  recv_direct_waiting = log_recv_waiting;
  recv_direct_overflowed = log_recv_overflowed;
}

abbrev pub libs : Libs
libs = record { offers = pipes _; answers = pipes _; changes = logs _ }
