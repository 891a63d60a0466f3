-- ===== src/Server/Ids.antt =====
-- The ids that `advertise` hands out, as long as the 64-bit generator has not wrapped around.
use just_webrtc.Common.{
  ℕ, suc, ◌+◌, ◌≤◌, ◌<◌, ◌≡◌, refl, false, ◌==◌, if◌then◌else◌, none, some, List, [], ◌∷◌, length,
  All, arith,
}
use just_webrtc.Common.Map.{
  lookup, contains_key, All-insert, All-remove, All-lookup, lookup-insert, contains_key-lookup,
}
use just_webrtc.Common.Action.{ret}
use just_webrtc.Server.State.{Libs, Listeners, Signalling, new, no_listeners, u64_mod}
use just_webrtc.Server.Peers.{advertise, peer_id}
use just_webrtc.Server.Offers.{set_offer_tx}
use just_webrtc.Server.Answers.{set_answer_tx}
use just_webrtc.Server.Service.{requested, advertise_req, serve, Event, step, run}
use just_webrtc.Server.Move.{Move, kept, drawn, added, removed, offers, answers, step-Move}

module _ (L : Libs) where
  -- Every entry has an id below the generator, which has drawn at most `n` ids since `g`.
  pub record Issued (g n : ℕ) (s : Signalling L) : Type 0 where
    pub below : All (λ (e : ℕ × Listeners L). e.0 < s.generator) s.peers
    pub from_start : g ≤ s.generator
    pub drawn_at_most : s.generator ≤ g + n

  All-weaken :
      (a b : ℕ) (m : List (ℕ × Listeners L))
      → a ≤ b
      → All (λ (e : ℕ × Listeners L). e.0 < a) m
      → All (λ (e : ℕ × Listeners L). e.0 < b) m
  All-weaken a b [] h x = tt
  All-weaken a b (e ∷ m) h x = (omega arith, All-weaken a b m h x.1)

  Move-Issued :
      {s t : Signalling L} (g n : ℕ)
      → Move L s t
      → g + suc n < u64_mod
      → Issued g n s
      → Issued g (suc n) t
  unfolding set_offer_tx set_answer_tx
  Move-Issued g n (kept e) h i =
      rw e (record { below = i.below; from_start = i.from_start; drawn_at_most = omega arith })
  Move-Issued {s} g n (drawn e) h i = rw e (record {
    below = All-weaken s.generator _ s.peers (omega arith) i.below;
    from_start = omega arith;
    drawn_at_most = omega arith;
  })
  Move-Issued {s} g n (added _ e) h i = rw e (record {
    below =
        All-insert _ s.generator (no_listeners L) s.peers (omega arith)
          (All-weaken s.generator _ s.peers (omega arith) i.below);
    from_start = omega arith;
    drawn_at_most = omega arith;
  })
  Move-Issued {s} g n (removed id e) h i = rw e (record {
    below = All-remove _ id s.peers i.below;
    from_start = i.from_start;
    drawn_at_most = omega arith;
  })
  Move-Issued {s} g n (offers id peer tx l c e) h i = rw e (record {
    below = All-insert _ id _ s.peers (All-lookup _ id s.peers i.below l) i.below;
    from_start = i.from_start;
    drawn_at_most = omega arith;
  })
  Move-Issued {s} g n (answers id peer tx l c e) h i = rw e (record {
    below = All-insert _ id _ s.peers (All-lookup _ id s.peers i.below l) i.below;
    from_start = i.from_start;
    drawn_at_most = omega arith;
  })

  run_from-Issued :
      (es : List Event) (s : Signalling L) (g n : ℕ)
      → g + n + length es < u64_mod
      → Issued g n s
      → Issued g (n + length es) (run L es s)
  unfolding run
  run_from-Issued [] s g n h i = record {
    below = i.below;
    from_start = i.from_start;
    drawn_at_most = omega arith;
  }
  run_from-Issued (e ∷ es) s g n h i =
      let r =
        run_from-Issued es (step L e s) g (suc n) (omega arith)
          (Move-Issued g n (step-Move L e s) (omega arith) i) in
      record { below = r.below; from_start = r.from_start; drawn_at_most = omega arith }

  pub run-Issued :
      (es : List Event) (g : ℕ)
      → g + length es < u64_mod
      → Issued g (length es) (run L es (new L g))
  unfolding new
  run-Issued es g h =
      let r =
        run_from-Issued es (new L g) g 0 (omega arith)
          (record { below = tt; from_start = omega arith; drawn_at_most = omega arith }) in
      record { below = r.below; from_start = r.from_start; drawn_at_most = omega arith }

  not-contains_key_above :
      (k n : ℕ) (m : List (ℕ × Listeners L))
      → n ≤ k
      → All (λ (e : ℕ × Listeners L). e.0 < n) m
      → contains_key k m ≡ false
  unfolding contains_key
  not-contains_key_above k n [] h a = refl
  not-contains_key_above k n ((j, v) ∷ m) h a = ground (arith, not-contains_key_above k n m h a.1)

  -- After any sequence of events in which the generator cannot have wrapped around, `advertise`
  -- succeeds: it returns an id that no entry has, adds an entry for it with no listeners, leaves the
  -- entries of all other ids alone, and moves the generator past the id.
  pub advertise_fresh :
      (es : List Event) (g : ℕ)
      → g + length es + 1 < u64_mod
      → let s = run L es (new L g) in
        let (outcome, t) = advertise L s in
        (outcome ≡ ret (record { local_peer = some (peer_id s.generator) }))
        × (lookup s.generator s.peers ≡ none)
        × ((id : ℕ)
            → lookup id t.peers
              ≡ (if s.generator == id then some (no_listeners L) else lookup id s.peers))
        × (t.generator ≡ s.generator + 1)
  unfolding advertise
  advertise_fresh es g h =
      let s = run L es (new L g) in
      let i = run-Issued es g (omega arith) in
      let free = not-contains_key_above s.generator s.generator s.peers (omega arith) i.below in
      (
        ground (arith, free),
        ground (arith, free, contains_key-lookup s.generator s.peers),
        (λ id. ground (arith, free, lookup-insert s.generator id (no_listeners L) s.peers)),
        ground (arith, free),
      )

  serve-advertise : (s : Signalling L) → (serve L advertise_req s).1 ≡ (advertise L s).1
  unfolding serve advertise
  serve-advertise s = ground arith

  -- No id is handed out twice: before the generator can have wrapped around, an id that `advertise`
  -- returns is smaller than every id that it returns after further events.
  pub advertise_increasing :
      (es fs : List Event) (g i j : ℕ)
      → g + length es + length fs + 2 < u64_mod
      → let (first, t) = advertise L (run L es (new L g)) in
        first ≡ ret (record { local_peer = some (peer_id i) })
        → (advertise L (run L fs t)).0 ≡ ret (record { local_peer = some (peer_id j) })
        → i < j
  unfolding advertise run step
  advertise_increasing es fs g i j h e f =
      let s = run L es (new L g) in
      let t = (advertise L s).1 in
      let issued = run-Issued es g (omega arith) in
      let fresh = advertise_fresh es g (omega arith) in
      let moved = rw (serve-advertise s) at (step-Move L (requested advertise_req) s) in
      let below = (Move-Issued g (length es) moved (omega arith) issued).below in
      let later =
        run_from-Issued fs t t.generator 0 (omega (arith, fresh.3))
          (record { below = below; from_start = omega arith; drawn_at_most = omega arith }) in
      ground (arith, fresh.0, fresh.3, later.from_start)
