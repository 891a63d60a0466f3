-- ===== src/Server/Announce.antt =====
-- The broadcast of peer changes, against the map of peers.
use just_webrtc.Common.{ℕ, ◌≡◌, refl, some, List, [], ◌∷◌, ◌++◌, map, arith}
use mathlib.Core.List.{append-nil, append_assoc, map-append}
use just_webrtc.Common.Map.{
  lookup, contains_key, insert, contains_key-insert, contains_key-remove, contains_key-lookup,
}
use just_webrtc.Proto.{
  TonicResult, ok, PeerChange, peer_change_of_add, peer_change_of_remove, PeerListenerRsp,
}
use just_webrtc.Known.{known_after, known_after-append}
use just_webrtc.Server.State.{Libs, Listeners, Signalling, no_listeners}
use just_webrtc.Server.Offers.{set_offer_tx}
use just_webrtc.Server.Answers.{set_answer_tx}
use just_webrtc.Server.Service.{Event, step, run}
use just_webrtc.Server.Move.{Move, kept, drawn, added, removed, offers, answers, step-Move}

-- The message in which the server announces one change.
abbrev pub announcement : PeerChange → TonicResult PeerListenerRsp
announcement c = ok (record { peer_changes = c ∷ [] })

module _ (L : Libs) where
  -- The changes announced between two states tell which peers came and went.
  pub record Announced (s t : Signalling L) : Type 0 where
    pub changes : List PeerChange
    pub broadcast :
        L.changes.history t.peer_broadcast
        ≡ L.changes.history s.peer_broadcast ++ map announcement changes
    pub accounts : (x : ℕ) → contains_key x t.peers ≡ known_after x changes (contains_key x s.peers)

  contains_key-reset :
      (id x : ℕ) (l l' : Listeners L) (m : List (ℕ × Listeners L))
      → lookup id m ≡ some l
      → contains_key x (insert id l' m) ≡ contains_key x m
  contains_key-reset id x l l' m e =
      ground (arith, contains_key-insert id x l' m, contains_key-lookup id m)

  Move-Announced : {s t : Signalling L} → Move L s t → Announced s t
  unfolding known_after set_offer_tx set_answer_tx
  Move-Announced {s} (kept e) = record {
    changes = [];
    broadcast = rw (e, append-nil);
    accounts = λ x. rw e;
  }
  Move-Announced {s} (drawn e) = record {
    changes = [];
    broadcast = rw (e, append-nil);
    accounts = λ x. rw e;
  }
  Move-Announced {s} (added _ e) = record {
    changes = peer_change_of_add s.generator ∷ [];
    broadcast = rw e (L.changes.history-try_broadcast _ _);
    accounts =
        λ x. rw e (ground (arith, contains_key-insert s.generator x (no_listeners L) s.peers));
  }
  Move-Announced {s} (removed id e) = record {
    changes = peer_change_of_remove id ∷ [];
    broadcast = rw e (L.changes.history-try_broadcast _ _);
    accounts = λ x. rw e (ground (arith, contains_key-remove id x s.peers));
  }
  Move-Announced {s} (offers id peer tx l c e) = record {
    changes = [];
    broadcast = rw (e, append-nil);
    accounts = λ x. rw e (contains_key-reset id x peer _ s.peers l);
  }
  Move-Announced {s} (answers id peer tx l c e) = record {
    changes = [];
    broadcast = rw (e, append-nil);
    accounts = λ x. rw e (contains_key-reset id x peer _ s.peers l);
  }

  -- Over any sequence of events, the server broadcasts changes, one to a message, such that the peers
  -- in its map at the end are exactly those that these changes, applied in order to the peers in its
  -- map at the start, leave: no arrival or departure goes unannounced.
  pub run_announces : (es : List Event) (s : Signalling L) → Announced s (run L es s)
  unfolding run known_after
  run_announces [] s = record { changes = []; broadcast = rw append-nil; accounts = λ x. refl }
  run_announces (e ∷ es) s =
      let a = Move-Announced (step-Move L e s) in
      let b = run_announces es (step L e s) in
      record {
        changes = a.changes ++ b.changes;
        broadcast = rw (b.broadcast, a.broadcast, map-append, append_assoc);
        accounts = λ x. rw (b.accounts x, a.accounts x, known_after-append);
      }
