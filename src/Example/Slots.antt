-- ===== src/Example/Slots.antt =====
-- The connections of different remote peers do not interfere in the map.
use just_webrtc.Common.{ℕ, ◌≡◌, refl, ◌∙◌, ◌==◌, false, none, some, List, [], ◌∷◌, All, arith}
use just_webrtc.Common.Map.{lookup, lookup-insert}
use just_webrtc.Common.Action.{ret}
use just_webrtc.Example.Connections.{
  PeerConnectionMap, insert, take, place, Borrow, created, taken, placed, borrow, borrows,
}

module _ {C : Type 0} where
  abbrev pub borrower : Borrow C → ℕ
  borrower (created id c) = id
  borrower (taken id) = id
  borrower (placed id c) = id

  -- Another peer's part of the map.
  borrow_elsewhere :
      (b : Borrow C) (id : ℕ) (inner : PeerConnectionMap C)
      → (borrower b == id) ≡ false
      → lookup id (borrow b inner) ≡ lookup id inner
  unfolding borrow insert take place
  borrow_elsewhere (created j c) id inner other = ground (arith, lookup-insert j id (some c) inner)
  borrow_elsewhere (taken j) id inner other = ground (arith, lookup-insert j id none inner)
  borrow_elsewhere (placed j c) id inner other = ground (arith, lookup-insert j id (some c) inner)

  abbrev pub Elsewhere : ℕ → List (Borrow C) → Type 0
  Elsewhere id = All (λ b. (borrower b == id) ≡ false)

  pub borrows-Elsewhere :
      (bs : List (Borrow C)) (id : ℕ) (inner : PeerConnectionMap C)
      → Elsewhere id bs
      → lookup id (borrows bs inner) ≡ lookup id inner
  unfolding borrows
  borrows-Elsewhere [] id inner others = refl
  borrows-Elsewhere (b ∷ bs) id inner (other, others) =
      borrows-Elsewhere bs id (borrow b inner) others ∙ borrow_elsewhere b id inner other

  pub inserted :
      (id : ℕ) (c : C) (inner : PeerConnectionMap C)
      → lookup id inner ≡ none
      → ((insert id c inner).0 ≡ ret tt) × (lookup id (insert id c inner).1 ≡ some (some c))
  unfolding insert
  inserted id c inner e = (ground arith, ground (arith, lookup-insert id id (some c) inner))

  pub took :
      (id : ℕ) (c : C) (inner : PeerConnectionMap C)
      → lookup id inner ≡ some (some c)
      → ((take id inner).0 ≡ ret c) × (lookup id (take id inner).1 ≡ some none)
  unfolding take
  took id c inner e = (ground arith, ground (arith, lookup-insert id id none inner))

  pub placed_back :
      (id : ℕ) (c : C) (inner : PeerConnectionMap C)
      → lookup id inner ≡ some none
      → ((place id c inner).0 ≡ ret tt) × (lookup id (place id c inner).1 ≡ some (some c))
  unfolding place
  placed_back id c inner e = (ground arith, ground (arith, lookup-insert id id (some c) inner))

  -- A connection that one callback enters under a new id is what the next takes out, and once that is
  -- put back, what the last one takes out again; no call fails, whatever the callbacks of other
  -- peers did to the map in between. In the end the entry is there, and empty.
  connection_handed_on :
      (id : ℕ) (c : C) (inner : PeerConnectionMap C) (before between after : List (Borrow C))
      → lookup id inner ≡ none
      → Elsewhere id before
      → Elsewhere id between
      → Elsewhere id after
      → let (entered, m1) = insert id c inner in
        let (first, m2) = take id (borrows before m1) in
        let (back, m3) = place id c (borrows between m2) in
        let (last, m4) = take id (borrows after m3) in
        (entered ≡ ret tt)
        × (first ≡ ret c)
        × (back ≡ ret tt)
        × (last ≡ ret c)
        × (lookup id m4 ≡ some none)
  unfolding insert take place
  connection_handed_on id c inner before between after fresh o1 o2 o3 =
      let e1 = inserted id c inner fresh in
      let m1 = (insert id c inner).1 in
      let e2 = took id c (borrows before m1) (borrows-Elsewhere before id m1 o1 ∙ e1.1) in
      let m2 = (take id (borrows before m1)).1 in
      let e3 = placed_back id c (borrows between m2) (borrows-Elsewhere between id m2 o2 ∙ e2.1) in
      let m3 = (place id c (borrows between m2)).1 in
      let e4 = took id c (borrows after m3) (borrows-Elsewhere after id m3 o3 ∙ e3.1) in
      (e1.0, e2.0, e3.0, e4.0, e4.1)
