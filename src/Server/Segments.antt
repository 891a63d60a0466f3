-- ===== src/Server/Segments.antt =====
-- The handlers interleaved: each is cut where it holds no lock, and what is left of a handler between
-- two of its segments is kept in flight. Handlers that only read are left out, as they change nothing.
-- `advertise` draws its id just before it takes the lock; here it does so under the lock.
use just_webrtc.Common.{ℕ, ◌+◌, ◌<◌, ◌≡◌, false, List, ◌∷◌, ◌++◌, contains}
use just_webrtc.Common.Action.{ret, fail}
use just_webrtc.Proto.{
  Status, SignalOffer, SignalAnswer, LocalPeerReq, peer_change_of_add, peer_change_of_remove,
}
use just_webrtc.Server.State.{Libs, Signalling, u64_mod}
use just_webrtc.Server.Peers.{insert_new_peer, broadcast_change, remove_peer}
use just_webrtc.Server.Offers.{forward_offer, open_offer_listener}
use just_webrtc.Server.Answers.{forward_answer, open_answer_listener}
use just_webrtc.Server.Service.{with_offer_chan, with_answer_chan, draw_elsewhere}

module _ (L : Libs) where
  -- The server, the ids that `advertise` has inserted and not yet announced, and the ids that
  -- `handle_teardown` has announced as removed and not yet removed.
  pub record Busy : Type 0 where
    pub server : Signalling L
    pub announcing : List ℕ
    pub removing : List ℕ

  -- A teardown is of an id that was handed out before, by an `advertise` that has returned. The
  -- generator does not wrap.
  pub data Segment (b c : Busy) : Type 0 where
    inserts :
        (id : ℕ)
        → (insert_new_peer L b.server).0 ≡ ret id
        → b.server.generator + 1 < u64_mod
        → c ≡ record b { server = (insert_new_peer L b.server).1; announcing = id ∷ b.announcing }
        → Segment b c
    refuses :
        (why : Status)
        → (insert_new_peer L b.server).0 ≡ fail why
        → b.server.generator + 1 < u64_mod
        → c ≡ record b { server = (insert_new_peer L b.server).1 }
        → Segment b c
    draws_elsewhere :
        b.server.generator + 1 < u64_mod
        → c ≡ record b { server = draw_elsewhere L b.server }
        → Segment b c
    announces :
        (id : ℕ) (before after : List ℕ)
        → b.announcing ≡ before ++ id ∷ after
        → c ≡ record b {
          server = (broadcast_change L (peer_change_of_add id) b.server).1;
          announcing = before ++ after;
        }
        → Segment b c
    tears_down :
        (id : ℕ)
        → id < b.server.generator
        → contains id b.announcing ≡ false
        → c ≡ record b {
          server = (broadcast_change L (peer_change_of_remove id) b.server).1;
          removing = id ∷ b.removing;
        }
        → Segment b c
    removes :
        (id : ℕ) (before after : List ℕ)
        → b.removing ≡ before ++ id ∷ after
        → c ≡ record b { server = (remove_peer L id b.server).1; removing = before ++ after }
        → Segment b c
    forwards_offer :
        (id : ℕ) (o : SignalOffer)
        → c ≡ record b { server = (forward_offer L id o b.server).1 }
        → Segment b c
    forwards_answer :
        (id : ℕ) (o : SignalAnswer)
        → c ≡ record b { server = (forward_answer L id o b.server).1 }
        → Segment b c
    opens_offers :
        (m : LocalPeerReq)
        → c ≡ record b { server = (open_offer_listener L m b.server).1 }
        → Segment b c
    opens_answers :
        (m : LocalPeerReq)
        → c ≡ record b { server = (open_answer_listener L m b.server).1 }
        → Segment b c
    reads_offers :
        (change : L.offers.Chan → L.offers.Chan) (id : ℕ)
        → c ≡ record b { server = with_offer_chan L change id b.server }
        → Segment b c
    reads_answers :
        (change : L.answers.Chan → L.answers.Chan) (id : ℕ)
        → c ≡ record b { server = with_answer_chan L change id b.server }
        → Segment b c

  pub data Interleaving : Busy → Busy → Type 0 where
    halt : (b : Busy) → Interleaving b b
    go : (a b c : Busy) → Segment a b → Interleaving b c → Interleaving a c
