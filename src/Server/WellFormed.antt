-- ===== src/Server/WellFormed.antt =====
-- The invariant of the server's state, kept by every event.
use just_webrtc.Common.{
  ℕ, ◌≤◌, ◌<◌, ◌≡◌, refl, Option, none, some, List, [], ◌∷◌, length, length-append, All,
  AllDistinct, arith,
}
use just_webrtc.Common.Map.{
  insert, keys, All-insert, All-remove, All-lookup, AllDistinct-insert, AllDistinct-remove,
}
use just_webrtc.Interfaces.{Flume}
use just_webrtc.Server.State.{
  Libs, Listeners, Signalling, new, no_listeners, channel_bound, u64_mod,
}
use just_webrtc.Server.Offers.{set_offer_tx}
use just_webrtc.Server.Answers.{set_answer_tx}
use just_webrtc.Server.Service.{Event, step, run}
use just_webrtc.Server.Move.{
  ChanMove, loaded, offered, taken, dropped, Move, kept, drawn, added, removed, offers, answers,
  step-Move,
}

-- A listener's channel has the bound that it was made with, and holds no more.
abbrev pub ChanIsBounded : {M : Type 0} (F : Flume M) → F.Chan → Type 0
ChanIsBounded F c = (F.capacity c ≡ channel_bound) × (length (F.queue c) ≤ channel_bound)

abbrev pub TxIsBounded : {M : Type 0} (F : Flume M) → Option F.Chan → Type 0
TxIsBounded F none = Unit {0}
TxIsBounded F (some c) = ChanIsBounded F c

module _ {M : Type 0} (F : Flume M) where
  try_send-ChanIsBounded :
      (m : M) (c : F.Chan) → ChanIsBounded F c → ChanIsBounded F (F.try_send m c).1
  try_send-ChanIsBounded m c b = (
    omega (arith, F.capacity-try_send m c),
    ground (arith, F.try_send_result m c, F.queue-try_send m c, length-append (F.queue c) (m ∷ [])),
  )

  recv-ChanIsBounded :
      (q : List M) (c : F.Chan) → F.queue c ≡ q → ChanIsBounded F c → ChanIsBounded F (F.recv c).1
  recv-ChanIsBounded [] c e b = rw (F.recv-nil c e) b
  recv-ChanIsBounded (m ∷ ms) c e b = ground (arith, F.recv-cons m ms c, F.capacity-recv c)

  ChanMove-ChanIsBounded :
      {old : Option F.Chan} {c : F.Chan} → ChanMove F old c → TxIsBounded F old → ChanIsBounded F c
  ChanMove-ChanIsBounded (loaded m o e) b = rw e (
      try_send-ChanIsBounded m _
        (F.capacity-bounded channel_bound, ground (arith, F.queue-bounded channel_bound)))
  ChanMove-ChanIsBounded (offered m c o e) b = rw e (try_send-ChanIsBounded m c (rw o at b))
  ChanMove-ChanIsBounded (taken c o e) b = rw e (recv-ChanIsBounded (F.queue c) c refl (rw o at b))
  ChanMove-ChanIsBounded (dropped c o e) b =
      rw e (ground (arith, F.capacity-drop_receiver c, F.length-queue-drop_receiver c))

module _ (L : Libs) where
  abbrev pub ListenersAreBounded : Listeners L → Type 0
  ListenersAreBounded l =
      TxIsBounded L.offers l.offer_listener_tx × TxIsBounded L.answers l.answer_listener_tx

  -- Ids are 64-bit numbers, no id has two entries, and no channel is over its bound.
  pub record WellFormed (s : Signalling L) : Type 0 where
    pub generator_in_range : s.generator < u64_mod
    pub ids_in_range : All (λ (e : ℕ × Listeners L). e.0 < u64_mod) s.peers
    pub distinct : AllDistinct (keys s.peers)
    pub bounded : All (λ (e : ℕ × Listeners L). ListenersAreBounded e.1) s.peers

  insert-WellFormed :
      (id : ℕ) (l : Listeners L) (s : Signalling L)
      → id < u64_mod
      → ListenersAreBounded l
      → WellFormed s
      → WellFormed (record s { peers = insert id l s.peers })
  insert-WellFormed id l s i b w = record {
    generator_in_range = w.generator_in_range;
    ids_in_range = All-insert _ id l s.peers i w.ids_in_range;
    distinct = AllDistinct-insert id l s.peers w.distinct;
    bounded = All-insert _ id l s.peers b w.bounded;
  }

  Move-WellFormed : {s t : Signalling L} → Move L s t → WellFormed s → WellFormed t
  unfolding set_offer_tx set_answer_tx
  Move-WellFormed (kept e) w = rw e w
  Move-WellFormed {s} (drawn e) w = rw e (record {
    generator_in_range = omega arith;
    ids_in_range = w.ids_in_range;
    distinct = w.distinct;
    bounded = w.bounded;
  })
  Move-WellFormed {s} (added _ e) w =
      let w' = insert-WellFormed s.generator (no_listeners L) s w.generator_in_range (tt, tt) w in
      rw e (record {
        generator_in_range = omega arith;
        ids_in_range = w'.ids_in_range;
        distinct = w'.distinct;
        bounded = w'.bounded;
      })
  Move-WellFormed {s} (removed id e) w = rw e (record {
    generator_in_range = w.generator_in_range;
    ids_in_range = All-remove _ id s.peers w.ids_in_range;
    distinct = AllDistinct-remove id s.peers w.distinct;
    bounded = All-remove _ id s.peers w.bounded;
  })
  Move-WellFormed {s} (offers id peer tx l c e) w =
      let old =
        All-lookup (λ (e : ℕ × Listeners L). ListenersAreBounded e.1) id s.peers w.bounded l in
      rw e (
        insert-WellFormed id _ s (All-lookup _ id s.peers w.ids_in_range l)
          (ChanMove-ChanIsBounded L.offers c old.0, old.1) w)
  Move-WellFormed {s} (answers id peer tx l c e) w =
      let old =
        All-lookup (λ (e : ℕ × Listeners L). ListenersAreBounded e.1) id s.peers w.bounded l in
      rw e (
        insert-WellFormed id _ s (All-lookup _ id s.peers w.ids_in_range l)
          (old.0, ChanMove-ChanIsBounded L.answers c old.1) w)

  -- Every event keeps the state well formed.
  pub step-WellFormed : (e : Event) (s : Signalling L) → WellFormed s → WellFormed (step L e s)
  step-WellFormed e s = Move-WellFormed (step-Move L e s)

  run_from-WellFormed :
      (es : List Event) (s : Signalling L) → WellFormed s → WellFormed (run L es s)
  unfolding run
  run_from-WellFormed [] s w = w
  run_from-WellFormed (e ∷ es) s w = run_from-WellFormed es (step L e s) (step-WellFormed e s w)

  -- From `Signalling::new`, with a generator that is a 64-bit number, every sequence of events leads
  -- to a state in which the generator and all ids are 64-bit numbers, no id has two entries, and every
  -- listener's channel has the bound 16 and holds no more than that.
  pub run-WellFormed : (es : List Event) (g : ℕ) → g < u64_mod → WellFormed (run L es (new L g))
  unfolding new keys
  run-WellFormed es g h =
      run_from-WellFormed es (new L g)
        (record { generator_in_range = h; ids_in_range = tt; distinct = tt; bounded = tt })
