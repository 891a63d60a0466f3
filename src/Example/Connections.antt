-- ===== src/Example/Connections.antt =====
-- `PeerConnectionMap`, over any type of connections, and what the callbacks of `run_peer` do with it.
-- What creates a connection or talks to one is a parameter: its eventual result.
use just_webrtc.Common.{ℕ, String, Option, none, some, List}
use just_webrtc.Common.Map
use just_webrtc.Common.Action.{Action, ◌>>=◌, ◌>>◌, pure, throw, ok_or, gets, modify}

module _ (PeerConnection : Type 0) where
  -- An entry without a connection is one that was taken out.
  abbrev pub PeerConnectionMap : Type 0
  PeerConnectionMap = List (ℕ × Option PeerConnection)

  abbrev pub Shared : Type 0 → Type 0
  Shared A = Action String PeerConnectionMap A

  -- The parts of the callbacks between two awaits, each of which borrows the map once: the ends of
  -- `create_offer_fn` and `receive_offer_fn`, both halves of `receive_answer_fn`, and the start of
  -- `local_sig_cplt_fn` and `remote_sig_cplt_fn`.
  pub data Borrow : Type 0 where
    created : ℕ → PeerConnection → Borrow
    taken : ℕ → Borrow
    placed : ℕ → PeerConnection → Borrow

module _ {PeerConnection : Type 0} where
  unfoldable pub insert : ℕ → PeerConnection → Shared PeerConnection (Unit {0})
  insert id peer_connection = do
    before ← gets (λ (inner : PeerConnectionMap PeerConnection). Map.lookup id inner)
    modify (Map.insert id (some peer_connection))
    elim before [ none ↦ pure tt | some _ ↦ throw "pre-existing peer ID!" ]

  unfoldable pub take : ℕ → Shared PeerConnection PeerConnection
  take id = do
    entry ← gets (λ (inner : PeerConnectionMap PeerConnection). Map.lookup id inner)
    slot ← ok_or entry "peer ID not found!"
    modify (Map.insert id none)
    ok_or slot "peer connection not found!"

  unfoldable pub place : ℕ → PeerConnection → Shared PeerConnection (Unit {0})
  place id peer_connection = do
    entry ← gets (λ (inner : PeerConnectionMap PeerConnection). Map.lookup id inner)
    slot ← ok_or entry "peer ID not found!"
    modify (Map.insert id (some peer_connection))
    elim slot [ none ↦ pure tt | some _ ↦ throw "dropped peer connection!" ]

  unfoldable pub borrow :
      Borrow PeerConnection → PeerConnectionMap PeerConnection → PeerConnectionMap PeerConnection
  unfolding insert take place
  borrow (created id c) inner = (insert id c inner).1
  borrow (taken id) inner = (take id inner).1
  borrow (placed id c) inner = (place id c inner).1

  unfoldable pub borrows :
      List (Borrow PeerConnection)
      → PeerConnectionMap PeerConnection
      → PeerConnectionMap PeerConnection
  borrows List.[] inner = inner
  borrows (List.◌∷◌ b bs) inner = borrows bs (borrow b inner)
