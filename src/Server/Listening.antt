-- ===== src/Server/Listening.antt =====
-- A peer listener that is opened while other handlers run: it reads the peers under the lock, and
-- subscribes to the broadcast once the lock is released.
use just_webrtc.Common.{
  ℕ, suc, ◌+◌, ◌-◌, ◌≤◌, ◌≡◌, refl, sym, ap, ◌∙◌, ◌==◌, ◌||◌, Bool, false, Bool-cases, Option, none,
  some, inl, inr, List, [], ◌∷◌, ◌++◌, map, length, drop, drop-length, length-append, contains,
  arith,
}
use mathlib.Core.List.{append-nil}
use just_webrtc.Common.Map.{contains_key, keys, contains-keys}
use just_webrtc.Proto.{TonicResult, ok, err, PeerChange, peer_change_of_add, PeerListenerRsp}
use just_webrtc.Known.{known_by, known_after, known_after-append}
use just_webrtc.Server.State.{Libs, Signalling}
use just_webrtc.Server.Peers.{other_ids, first, initial_peer_changes}
use just_webrtc.Server.Announce.{announcement}
use just_webrtc.Server.Discovery.{contains-other_ids, poll, poll_after}
use just_webrtc.Server.Segments.{Busy, Interleaving}
use just_webrtc.Server.Settled.{
  mentions, mentions-known, silent-known, Settles, Interleaving-Settles,
}

-- The changes in the messages of a stream, in order.
unfoldable pub heard : List (TonicResult PeerListenerRsp) → List PeerChange
heard [] = []
heard (ok m ∷ ms) = m.peer_changes ++ heard ms
heard (err e ∷ ms) = heard ms

unfoldable pub heard_polled : List (Option (TonicResult PeerListenerRsp)) → List PeerChange
heard_polled [] = []
heard_polled (none ∷ ms) = heard_polled ms
heard_polled (some (ok m) ∷ ms) = m.peer_changes ++ heard_polled ms
heard_polled (some (err e) ∷ ms) = heard_polled ms

heard-announcement : (cs : List PeerChange) → heard (map announcement cs) ≡ cs
unfolding heard
heard-announcement [] = refl
heard-announcement (c ∷ cs) = ap (λ ds. c ∷ ds) (heard-announcement cs)

heard_polled-announcement :
    (cs : List PeerChange) → heard_polled (map some (map announcement cs)) ≡ cs
unfolding heard_polled
heard_polled-announcement [] = refl
heard_polled-announcement (c ∷ cs) = ap (λ ds. c ∷ ds) (heard_polled-announcement cs)

known_after-additions :
    (x : ℕ) (ids : List ℕ) (known : Bool)
    → known_after x (map peer_change_of_add ids) known ≡ (contains x ids || known)
unfolding known_after contains
known_after-additions x [] known = refl
known_after-additions x (i ∷ ids) known =
    ground (arith, known_after-additions x ids (known_by x (peer_change_of_add i) known))

module _ (L : Libs) where
  abbrev pub quiet : Signalling L → Busy L
  quiet s = record { server = s; announcing = []; removing = [] }

  abbrev pub history : Signalling L → List (TonicResult PeerListenerRsp)
  history s = L.changes.history s.peer_broadcast

  -- Starting anew from a state within an interleaving, with what is known there.
  restart :
      (told : List (TonicResult PeerListenerRsp)) (known : ℕ → Bool) (flying : List ℕ) (b : Busy L)
      (s : Settles L told known flying b)
      → Settles L (history b.server) (λ x. known_after x s.changes (known x)) b.announcing b
  unfolding known_after
  restart told known flying b s = record {
    changes = [];
    broadcast = sym (append-nil (history b.server));
    agrees = s.agrees;
    issued = s.issued;
    landed = λ x up down. ground arith;
  }

  -- What an interleaving that ends with nothing in flight says of a peer, once some broadcasts have
  -- told so much of it.
  at_rest :
      (told : List (TonicResult PeerListenerRsp)) (known : ℕ → Bool) (flying : List ℕ)
      (t : Signalling L) (s : Settles L told known flying (quiet t)) (x : ℕ)
      → contains_key x t.peers ≡ known_after x s.changes (known x)
  unfolding contains
  at_rest told known flying t s x = ground (arith, s.agrees x)

  pub snapshot_known :
      (s : Signalling L) (local_id x : ℕ)
      → (x == local_id) ≡ false
      → known_after x (initial_peer_changes L local_id s) false ≡ contains_key x s.peers
  unfolding initial_peer_changes
  snapshot_known s local_id x other = ground (
    arith,
    known_after-additions x (other_ids local_id (keys s.peers)) false,
    contains-other_ids x local_id (keys s.peers),
    contains-keys x s.peers,
  )

  -- What a snapshot and the changes broadcast after the subscription say of a peer that
  -- was not spoken of in between.
  informed :
      (k0 : ℕ → Bool) (told0 : List (TonicResult PeerListenerRsp)) (f0 : List ℕ) (b1 b2 : Busy L)
      (t : Signalling L) (x : ℕ) (s1 : Settles L told0 k0 f0 b1)
      (s2 : Settles L (history b1.server) (λ x. known_after x s1.changes (k0 x)) b1.announcing b2)
      (s3 : Settles L
        (history b2.server)
        (λ x. known_after x s2.changes (known_after x s1.changes (k0 x)))
        b2.announcing
        (quiet t))
      → contains x b1.removing ≡ false
      → mentions x s2.changes ≡ false
      → known_after x s3.changes (contains_key x b1.server.peers) ≡ contains_key x t.peers
  unfolding contains
  informed k0 told0 f0 b1 b2 t x s1 s2 s3 staying silent =
      let end = at_rest (history b2.server) _ b2.announcing t s3 x in
      let k1 = known_after x s1.changes (k0 x) in
      let same : known_after x s2.changes k1 ≡ k1 = silent-known x s2.changes k1 silent in
      elim (Bool-cases (mentions x s3.changes)) [
        | inl spoken ↦
            mentions-known x s3.changes (contains_key x b1.server.peers)
              (known_after x s2.changes k1) spoken
            ∙ sym end
        | inr unspoken ↦
            let here : contains x b2.announcing ≡ false = ground (arith, s3.landed x) in
            let there : contains x b1.announcing ≡ false = ground (arith, s2.landed x) in
            let k : k1 ≡ contains_key x b1.server.peers = ground (arith, s1.agrees x) in
            ap (known_after x s3.changes) (sym k ∙ sym same) ∙ sym end
      ]

  -- The stream of a listener that read the peers in one state and subscribed in another, polled for
  -- all that was broadcast since.
  unfoldable pub learned : ℕ → Signalling L → Signalling L → Signalling L → List PeerChange
  unfolding heard_polled
  learned local_id read subscribed t =
      let rx = L.changes.new_receiver subscribed.peer_broadcast in
      let missed = length (history t) - length (history subscribed) in
      heard_polled (poll L (suc missed) t (first (initial_peer_changes L local_id read) rx)).0

  pub learned_changes :
      (local_id : ℕ) (read subscribed t : Signalling L) (cs : List PeerChange)
      → history t ≡ history subscribed ++ map announcement cs
      → length (history t) ≤ length (history subscribed) + L.changes.capacity t.peer_broadcast
      → learned local_id read subscribed t ≡ initial_peer_changes L local_id read ++ cs
  unfolding learned heard_polled
  learned_changes local_id read subscribed t cs e bound =
      let ms = map announcement cs in
      let sum : length (history t) ≡ length (history subscribed) + length ms =
        ap length e ∙ length-append (history subscribed) ms in
      let n : length (history t) - length (history subscribed) ≡ length ms = omega (arith, sum) in
      rw
        (
          n,
          poll_after L subscribed t (initial_peer_changes L local_id read) ms e
              (omega (arith, sum, bound)),
        )
        (ap (λ ds. initial_peer_changes L local_id read ++ ds) (heard_polled-announcement cs))

  -- A peer listener is opened while the segments of other handlers interleave: it reads the peers in
  -- one state and subscribes in a later one. Once nothing is in flight any more, and its stream is
  -- polled for all that was broadcast, what the listener has heard says of another peer that it is there
  -- exactly if it is in the map. It holds if no change of that peer was broadcast between the reading and
  -- the subscription, no teardown of it was under way at the reading, and the listener has
  -- not fallen behind by more than the channel holds; and as long as a teardown is only of an id that a
  -- completed `advertise` has handed out, and the generator does not wrap.
  pub listener_informed :
      (s t : Signalling L) (read subscribed : Busy L) (local_id x : ℕ)
      → Interleaving L (quiet s) read
      → Interleaving L read subscribed
      → Interleaving L subscribed (quiet t)
      → (x == local_id) ≡ false
      → contains x read.removing ≡ false
      → mentions x (heard (drop (length (history read.server)) (history subscribed.server))) ≡ false
      → length (history t)
        ≤ length (history subscribed.server) + L.changes.capacity t.peer_broadcast
      → known_after x (learned local_id read.server subscribed.server t) false
        ≡ contains_key x t.peers
  unfolding known_after contains
  listener_informed s t read subscribed local_id x before between after other staying silent bound =
      let k0 : ℕ → Bool = λ x. contains_key x s.peers in
      let s1 = Interleaving-Settles L (history s) k0 [] _ _ before (record {
        changes = [];
        broadcast = sym (append-nil (history s));
        agrees = λ x. ground arith;
        issued = λ x h. ground arith;
        landed = λ x up down. ground arith;
      }) in
      let s2 = Interleaving-Settles L _ _ _ _ _ between (restart (history s) k0 [] read s1) in
      let s3 = Interleaving-Settles L _ _ _ _ _ after (restart _ _ _ subscribed s2) in
      let silent2 : mentions x s2.changes ≡ false = rw⁻¹ (heard-announcement s2.changes) (
        rw⁻¹ (drop-length (history read.server) (map announcement s2.changes))
          (rw⁻¹ s2.broadcast silent)) in
      ap (λ cs. known_after x cs false)
        (learned_changes local_id read.server subscribed.server t s3.changes s3.broadcast bound)
      ∙ known_after-append x (initial_peer_changes L local_id read.server) s3.changes false
      ∙ ap (known_after x s3.changes) (snapshot_known read.server local_id x other)
      ∙ informed k0 (history s) [] read subscribed t x s1 s2 s3 staying silent2
