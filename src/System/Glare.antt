-- ===== src/System/Glare.antt =====
-- Two peers that advertise before either opens its peer listener: both make an offer to the other.
use just_webrtc.Common.{
  ℕ, ◌+◌, ◌<◌, ◌≡◌, refl, ap, ◌∙◌, ◌==◌, ==-self, ==-eq, Bool-cases, inl, inr, true, false, some,
  List, [], ◌∷◌, ◌++◌, map, contains, ◌||◌, sym, arith,
}
use just_webrtc.Common.Map.{contains_key, contains_key-insert, keys, contains-keys}
use just_webrtc.Common.Action.{ret}
use just_webrtc.Proto.{PeerChange, peer_change_of_add}
use just_webrtc.Client.State.{Signals, SignallingStateFut, callback_fut, RtcSignallingPeer}
use just_webrtc.Client.Rpc.{Stub}
use just_webrtc.Client.Step.{Session, create_offer_futs, discover_first, queue}
use just_webrtc.Server.State.{Libs, Signalling, no_listeners, u64_mod}
use just_webrtc.Server.Peers.{
  advertise, peer_id, first, other_ids, initial_peer_changes, open_peer_listener,
}
use just_webrtc.Server.Discovery.{contains-other_ids}

module _ {G : Signals} where
  -- Among the queued futures is the creation of an offer to a peer.
  abbrev pub HasOffer : RtcSignallingPeer G → ℕ → List (SignallingStateFut G) → Type 0
  HasOffer p x futs =
      (before : List (SignallingStateFut G)) × (after : List (SignallingStateFut G)) × (futs
        ≡ before ++ callback_fut (p.create_offer_task x) ∷ after)

  offers_each :
      (p : RtcSignallingPeer G) (x : ℕ) (ids : List ℕ)
      → contains x ids ≡ true
      → HasOffer p x (create_offer_futs p (map peer_change_of_add ids))
  unfolding create_offer_futs contains
  offers_each p x [] e = ground (arith, e)
  offers_each p x (id ∷ ids) e = elim (Bool-cases (x == id)) [
    | inl same ↦ (
      [],
      create_offer_futs p (map peer_change_of_add ids),
      ap
          (λ i.
            callback_fut (p.create_offer_task i) ∷ create_offer_futs p (map peer_change_of_add ids))
          (sym (==-eq x id same)),
    )
    | inr other ↦
        let (before, after, e') = offers_each p x ids (ground (arith, e, other)) in
        (
          callback_fut (p.create_offer_task id) ∷ before,
          after,
          ap (λ l. callback_fut (p.create_offer_task id) ∷ l) e',
        )
  ]

module _ (L : Libs) where
  advertised :
      (s : Signalling L)
      → contains_key s.generator s.peers ≡ false
      → s.generator + 1 < u64_mod
      → let (outcome, t) = advertise L s in
        (outcome ≡ ret (record { local_peer = some (peer_id s.generator) }))
        × (t.generator ≡ s.generator + 1)
        × ((x : ℕ) → contains_key x t.peers ≡ (s.generator == x || contains_key x s.peers))
  unfolding advertise
  advertised s free bound = (
    ground (arith, free),
    ground (arith, free),
    λ x. ground (arith, free, contains_key-insert s.generator x (no_listeners L) s.peers),
  )

  lists_other :
      (t : Signalling L) (local_id x : ℕ)
      → contains_key x t.peers ≡ true
      → (x == local_id) ≡ false
      → contains x (other_ids local_id (keys t.peers)) ≡ true
  lists_other t local_id x there other =
      contains-other_ids x local_id (keys t.peers)
      ∙ ground (arith, other, contains-keys x t.peers, there)

module _ (L : Libs) (G : Signals) {W : Type 0} (stub : Stub W) where
  discover_first_offers :
      (changes : List PeerChange) (s : Session G W)
      → s.peer.first_discovery ≡ true
      → (discover_first G stub changes s).1.peer.unordered_futs
        ≡ s.peer.unordered_futs ++ create_offer_futs s.peer changes
  unfolding discover_first queue
  discover_first_offers changes s e = ground (arith, e)

  -- The first item of the stream that the server returns for a peer makes its client, at its first
  -- discovery, queue an offer to another peer.
  abbrev pub OffersTo : Signalling L → ℕ → ℕ → Session G W → Type 0
  OffersTo t local_id x s =
      (changes : List PeerChange) × (futs : List (SignallingStateFut G)) × ((open_peer_listener L
          (record { local_peer = some (peer_id local_id) }) t).0
        ≡ ret (first changes (L.changes.new_receiver t.peer_broadcast)))
      × ((discover_first G stub changes s).1.peer.unordered_futs ≡ s.peer.unordered_futs ++ futs)
      × HasOffer s.peer x futs

  offers_other :
      (t : Signalling L) (local_id x : ℕ) (s : Session G W)
      → contains_key x t.peers ≡ true
      → (x == local_id) ≡ false
      → s.peer.first_discovery ≡ true
      → OffersTo t local_id x s
  unfolding open_peer_listener initial_peer_changes
  offers_other t local_id x s there other e =
      let changes = initial_peer_changes L local_id t in
      (
        changes,
        create_offer_futs s.peer changes,
        refl,
        discover_first_offers changes s e,
        offers_each s.peer x (other_ids local_id (keys t.peers))
            (lists_other L t local_id x there other),
      )

  -- Two requests to advertise are served, with free ids and without a wrap of the generator, before
  -- either peer opens its peer listener; neither client has had its first discovery. Then the first item of
  -- each listener names the other peer, and both clients queue the creation of an offer to the other.
  pub both_offer :
      (s : Signalling L) (one another : Session G W)
      → contains_key s.generator s.peers ≡ false
      → contains_key (s.generator + 1) s.peers ≡ false
      → s.generator + 2 < u64_mod
      → one.peer.first_discovery ≡ true
      → another.peer.first_discovery ≡ true
      → let a = s.generator in
        let b = s.generator + 1 in
        let (got_a, s1) = advertise L s in
        let (got_b, t) = advertise L s1 in
        (got_a ≡ ret (record { local_peer = some (peer_id a) }))
        × (got_b ≡ ret (record { local_peer = some (peer_id b) }))
        × OffersTo t a b one
        × OffersTo t b a another
  both_offer s one another free_a free_b bound e e' =
      let a = s.generator in
      let b = s.generator + 1 in
      let (got_a, next, has) = advertised L s free_a (omega arith) in
      let s1 = (advertise L s).1 in
      let free_b' : contains_key s1.generator s1.peers ≡ false =
        ap (λ g. contains_key g s1.peers) next ∙ has b ∙ ground (arith, free_b) in
      let (got_b, _, has') = advertised L s1 free_b' (omega (arith, next)) in
      let t = (advertise L s1).1 in
      (
        got_a,
        got_b ∙ ap (λ g. ret (record { local_peer = some (peer_id g) })) next,
        offers_other t a b one (has' b ∙ ground (arith, next)) (ground arith) e,
        offers_other t b a another (has' a ∙ ground (arith, has a, ==-self a)) (ground arith) e',
      )
