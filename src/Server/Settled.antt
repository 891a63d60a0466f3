-- ===== src/Server/Settled.antt =====
-- What the broadcasts tell of the peers when handlers interleave.
use just_webrtc.Common.{
  ℕ, ◌+◌, ◌%◌, ◌<◌, ◌≡◌, refl, ap, ◌∙◌, ◌==◌, Bool, not, ◌&&◌, ◌||◌, true, false, Bool-cases,
  Option-cases, inl, inr, List, [], ◌∷◌, ◌++◌, map, contains, arith,
}
use mathlib.Core.List.{append-nil, append_assoc, map-append}
use just_webrtc.Common.Action.{ret, fail}
use just_webrtc.Common.Map.{
  lookup, contains_key, insert, remove, contains_key-insert, contains_key-remove,
}
use just_webrtc.Proto.{
  Status, TonicResult, PeerListenerRsp, PeerChange, peer_change_of_add, peer_change_of_remove,
}
use just_webrtc.Known.{known_after, known_after-append}
use just_webrtc.Server.State.{Libs, Signalling, no_listeners, u64_mod}
use just_webrtc.Server.Peers.{insert_new_peer, broadcast_change, remove_peer}
use just_webrtc.Server.Announce.{announcement, Announced}
use just_webrtc.Server.Quiet.{
  Quiet, forward_offer-Quiet, with_offer_chan-Quiet, open_offer_listener-Quiet,
  forward_answer-Quiet, with_answer_chan-Quiet, open_answer_listener-Quiet,
}
use just_webrtc.Server.Service.{draw_elsewhere}
use just_webrtc.Server.Segments.{
  Busy, Segment, inserts, refuses, draws_elsewhere, announces, tears_down, removes, forwards_offer,
  forwards_answer, opens_offers, opens_answers, reads_offers, reads_answers, Interleaving, halt, go,
}

contains-middle :
    (x y : ℕ) (before after : List ℕ)
    → contains x (before ++ y ∷ after) ≡ (y == x || contains x (before ++ after))
unfolding contains
contains-middle x y [] after = refl
contains-middle x y (z ∷ before) after = ground (arith, contains-middle x y before after)

-- Whether one of the changes is of a peer.
unfoldable pub mentions : ℕ → List PeerChange → Bool
mentions x [] = false
mentions x (c ∷ cs) = c.id == x || mentions x cs

-- What is said of a peer that is mentioned does not depend on what was known before.
pub mentions-known :
    (x : ℕ) (cs : List PeerChange) (known known' : Bool)
    → mentions x cs ≡ true
    → known_after x cs known ≡ known_after x cs known'
unfolding mentions known_after
mentions-known x [] known known' m = ground arith
mentions-known x (c ∷ cs) known known' m = elim (Bool-cases (c.id == x)) [
  | inl hit ↦ rw hit refl
  | inr miss ↦ rw miss (mentions-known x cs known known' (ground arith))
]

pub silent-known :
    (x : ℕ) (cs : List PeerChange) (known : Bool)
    → mentions x cs ≡ false
    → known_after x cs known ≡ known
unfolding mentions known_after
silent-known x [] known m = refl
silent-known x (c ∷ cs) known m =
    let miss : (c.id == x) ≡ false = ground arith in
    rw miss (silent-known x cs known (ground arith))

mentions-append :
    (x : ℕ) (cs : List PeerChange) (c : PeerChange)
    → mentions x (cs ++ c ∷ []) ≡ (mentions x cs || c.id == x)
unfolding mentions
mentions-append x [] c = ground arith
mentions-append x (d ∷ cs) c = ground (arith, mentions-append x cs c)

module _ (L : Libs) where
  pub removed :
      (id : ℕ) (s : Signalling L) → (remove_peer L id s).1 ≡ record s { peers = remove id s.peers }
  unfolding remove_peer
  removed id s = elim (Option-cases (lookup id s.peers)) [
    | inl e ↦ ground arith
    | inr (l, e) ↦ ground arith
  ]

  -- What it takes for an id to be drawn.
  pub drawn :
      (id : ℕ) (s : Signalling L)
      → (insert_new_peer L s).0 ≡ ret id
      → (id ≡ s.generator)
        × (contains_key s.generator s.peers ≡ false)
        × ((insert_new_peer L s).1 ≡ record s {
          generator = (s.generator + 1) % u64_mod;
          peers = insert s.generator (no_listeners L) s.peers;
        })
  unfolding insert_new_peer
  drawn id s made = elim (Bool-cases (contains_key s.generator s.peers)) [
    | inl taken ↦ ground arith
    | inr free ↦ (ground arith, free, ground arith)
  ]

  refused :
      (why : Status) (s : Signalling L)
      → (insert_new_peer L s).0 ≡ fail why
      → (insert_new_peer L s).1 ≡ draw_elsewhere L s
  unfolding insert_new_peer draw_elsewhere
  refused why s failed = ground arith

-- From a start with such broadcasts, such knowledge of peers, and such additions in flight.
module _ (L : Libs) (told : List (TonicResult PeerListenerRsp)) (known : ℕ → Bool)
    (flying : List ℕ) where
  -- The changes broadcast since the start, with the additions that are in flight, tell which peers
  -- the map has, less the removals that are in flight. An addition lands by being announced.
  pub record Settles (b : Busy L) : Type 0 where
    pub changes : List PeerChange
    pub broadcast : L.changes.history b.server.peer_broadcast ≡ told ++ map announcement changes
    pub agrees :
        (x : ℕ)
        → (contains x b.announcing || known_after x changes (known x))
          ≡ (contains_key x b.server.peers && not (contains x b.removing))
    pub issued : (x : ℕ) → contains x b.removing ≡ true → x < b.server.generator
    pub landed :
        (x : ℕ)
        → contains x flying ≡ true
        → contains x b.announcing ≡ false
        → mentions x changes ≡ true

  Quiet-Settles :
      {b c : Busy L} (t : Signalling L)
      → Quiet L b.server t
      → c ≡ record b { server = t }
      → Settles b
      → Settles c
  Quiet-Settles {b} t q e s = rw e (record {
    changes = s.changes;
    broadcast = rw q.broadcast s.broadcast;
    agrees = λ x. rw (q.peers x) (s.agrees x);
    issued = λ x h. rw q.generator (s.issued x h);
    landed = s.landed;
  })

  one_more :
      (c : PeerChange) (cs : List PeerChange) (s : Signalling L)
      → L.changes.history s.peer_broadcast ≡ told ++ map announcement cs
      → L.changes.history (L.changes.try_broadcast (announcement c) s.peer_broadcast).1
        ≡ told ++ map announcement (cs ++ c ∷ [])
  one_more c cs s e = rw (L.changes.history-try_broadcast, e, map-append, append_assoc)

  Ahead-Settles :
      {b c : Busy L}
      → b.server.generator + 1 < u64_mod
      → c ≡ record b { server = draw_elsewhere L b.server }
      → Settles b
      → Settles c
  unfolding draw_elsewhere
  Ahead-Settles {b} bound e s = rw e (record {
    changes = s.changes;
    broadcast = s.broadcast;
    agrees = s.agrees;
    issued = λ x h. omega (arith, s.issued x h);
    landed = s.landed;
  })

  unused : {b : Busy L} → Settles b → contains b.server.generator b.removing ≡ false
  unused {b} s = elim (Bool-cases (contains b.server.generator b.removing)) [
    | inl used ↦ let less = s.issued b.server.generator used in ground (arith, less)
    | inr free ↦ free
  ]

  Segment-Settles : {b c : Busy L} → Segment L b c → Settles b → Settles c
  unfolding contains known_after broadcast_change
  Segment-Settles {b} (inserts id made bound e) s =
      let g = b.server.generator in
      let (same, free, moved) = drawn L id b.server made in
      rw (e, moved, same)
        (record {
          changes = s.changes;
          broadcast = s.broadcast;
          agrees = λ x. ground (
            arith,
            s.agrees x,
            unused s,
            contains_key-insert g x (no_listeners L) b.server.peers,
          );
          issued = λ x h. omega (arith, s.issued x h);
          landed = λ x up down. s.landed x up (ground arith);
        })
  Segment-Settles {b} (refuses why failed bound e) s =
      Ahead-Settles bound (e ∙ ap (λ t. record b { server = t }) (refused L why b.server failed)) s
  Segment-Settles {b} (draws_elsewhere bound e) s = Ahead-Settles bound e s
  Segment-Settles {b} (announces id before after split e) s = rw e (record {
    changes = s.changes ++ peer_change_of_add id ∷ [];
    broadcast = one_more (peer_change_of_add id) s.changes b.server s.broadcast;
    agrees = λ x. ground (
      arith,
      rw (split, contains-middle x id before after) at (s.agrees x),
      known_after-append x s.changes (peer_change_of_add id ∷ []) (known x),
    );
    issued = s.issued;
    landed = λ x up down. ground (
      arith,
      rw (split, contains-middle x id before after) at (s.landed x up),
      mentions-append x s.changes (peer_change_of_add id),
    );
  })
  Segment-Settles {b} (tears_down id old free e) s = rw e (record {
    changes = s.changes ++ peer_change_of_remove id ∷ [];
    broadcast = one_more (peer_change_of_remove id) s.changes b.server s.broadcast;
    agrees = λ x. ground (
      arith,
      s.agrees x,
      known_after-append x s.changes (peer_change_of_remove id ∷ []) (known x),
    );
    issued = λ x h. ground (arith, s.issued x);
    landed = λ x up down.
        ground (arith, s.landed x up, mentions-append x s.changes (peer_change_of_remove id));
  })
  Segment-Settles {b} (removes id before after split e) s =
      rw (e, removed L id b.server)
        (record {
          changes = s.changes;
          broadcast = s.broadcast;
          agrees = λ x. ground (
            arith,
            rw (split, contains-middle x id before after) at (s.agrees x),
            contains_key-remove id x b.server.peers,
          );
          issued = λ x h. s.issued x (rw (split, contains-middle x id before after) (ground arith));
          landed = s.landed;
        })
  Segment-Settles {b} (forwards_offer id o e) s =
      Quiet-Settles _ (forward_offer-Quiet L id o b.server) e s
  Segment-Settles {b} (forwards_answer id o e) s =
      Quiet-Settles _ (forward_answer-Quiet L id o b.server) e s
  Segment-Settles {b} (opens_offers m e) s =
      Quiet-Settles _ (open_offer_listener-Quiet L m b.server) e s
  Segment-Settles {b} (opens_answers m e) s =
      Quiet-Settles _ (open_answer_listener-Quiet L m b.server) e s
  Segment-Settles {b} (reads_offers change id e) s =
      Quiet-Settles _ (with_offer_chan-Quiet L change id b.server) e s
  Segment-Settles {b} (reads_answers change id e) s =
      Quiet-Settles _ (with_answer_chan-Quiet L change id b.server) e s

  pub Interleaving-Settles : (b c : Busy L) → Interleaving L b c → Settles b → Settles c
  Interleaving-Settles _ _ (halt b) s = s
  Interleaving-Settles _ _ (go a b c first rest) s =
      Interleaving-Settles b c rest (Segment-Settles first s)

-- However the segments of the handlers interleave, once no handler is in flight, the server has
-- broadcast changes, one to a message, such that the peers in its map are exactly those that these
-- changes, applied in order to the peers in its map at the start, leave. It holds as long as a teardown
-- is only of an id that a completed `advertise` has handed out, and the generator does not wrap.
pub Interleaving-announces :
    (L : Libs) (s t : Signalling L)
    → Interleaving L
        (record { server = s; announcing = []; removing = [] })
        (record { server = t; announcing = []; removing = [] })
    → Announced L s t
unfolding known_after contains
Interleaving-announces L s t run =
    let settled =
      Interleaving-Settles L (L.changes.history s.peer_broadcast) (λ x. contains_key x s.peers) [] _
        _ run
        (record {
          changes = [];
          broadcast = rw append-nil;
          agrees = λ x. ground arith;
          issued = λ x h. ground arith;
          landed = λ x up down. ground arith;
        }) in
    record {
      changes = settled.changes;
      broadcast = settled.broadcast;
      accounts = λ x. ground (arith, settled.agrees x);
    }
