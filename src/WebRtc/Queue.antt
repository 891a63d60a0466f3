-- ===== src/WebRtc/Queue.antt =====
-- An unbounded channel that is received from again and again.
use just_webrtc.Common.{
  ℕ, zero, suc, ◌≡◌, refl, sym, ap, ◌∙◌, true, List, [], ◌∷◌, ◌++◌, length, arith,
}
use mathlib.Core.List.{append_assoc, append-nil}
use just_webrtc.WebRtc.Native.Foreign.{Unbounded, found, nothing}
use just_webrtc.WebRtc.Native.Link.{Progress, finished, waiting, recv_error, out_of_fuel}

abbrev pub each : {X M : Type 0} → (X → List M) → List X → List M
each g [] = []
each g (x ∷ xs) = g x ++ each g xs

-- What so many calls of a method get, up to the first that gets nothing.
unfoldable pub received : {M C : Type 0} → (C → Progress M C) → ℕ → C → List M × C
received get zero c = ([], c)
received {M} {C} get (suc n) c = elim (get c) [
  | finished m c' ↦ let rest : List M × C = received get n c' in (m ∷ rest.0, rest.1)
  | waiting ↦ ([], c)
  | recv_error ↦ ([], c)
  | out_of_fuel ↦ ([], c)
]

received_after :
    {M C : Type 0} (get : C → Progress M C) (m : M) (c c' : C) (n : ℕ)
    → get c ≡ finished m c'
    → (received get (suc n) c).1 ≡ (received get n c').1
unfolding received
received_after get m c c' n e = ground (arith, e)

module _ {M : Type 0} (Q : Unbounded M) where
  -- A method that receives from a channel `rx` of what it is called on.
  pub record Receives {C : Type 0} (rx : C → Q.Chan) (get : C → Progress M C) : Type 0 where
    pub gets :
        (c : C) (m : M)
        → (Q.recv (rx c)).0 ≡ found m
        → (c' : C) × (get c ≡ finished m c') × (rx c' ≡ (Q.recv (rx c)).1)
    pub waits : (c : C) → (Q.recv (rx c)).0 ≡ nothing → get c ≡ waiting

  -- A handler is called with one input after the other.
  unfoldable pub handled : {X : Type 0} → (X → Q.Chan → Q.Chan) → List X → Q.Chan → Q.Chan
  handled f [] tx = tx
  handled f (x ∷ xs) tx = handled f xs (f x tx)

  -- A handler that sends `g x` for each input `x`.
  pub record Sends {X : Type 0} (f : X → Q.Chan → Q.Chan) (g : X → List M) : Type 0 where
    pub queues : (x : X) (tx : Q.Chan) → Q.queue (f x tx) ≡ Q.queue tx ++ g x
    pub keeps : (x : X) (tx : Q.Chan) → Q.has_sender (f x tx) ≡ Q.has_sender tx

  pub handled-queue :
      {X : Type 0} (f : X → Q.Chan → Q.Chan) (g : X → List M)
      → Sends f g
      → (xs : List X) (tx : Q.Chan)
      → (Q.queue (handled f xs tx) ≡ Q.queue tx ++ each g xs)
        × (Q.has_sender (handled f xs tx) ≡ Q.has_sender tx)
  unfolding handled
  handled-queue f g law [] tx = (sym (append-nil (Q.queue tx)), refl)
  handled-queue f g law (x ∷ xs) tx =
      let (buffered, alive) = handled-queue f g law xs (f x tx) in
      (
        buffered
            ∙ ap (λ l. l ++ each g xs) (law.queues x tx)
            ∙ append_assoc (Q.queue tx) (g x) (each g xs),
        alive ∙ law.keeps x tx,
      )

  -- What is queued is received in order.
  pub received-all :
      {C : Type 0} (rx : C → Q.Chan) (get : C → Progress M C)
      → Receives rx get
      → (ms : List M) (c : C) → Q.queue (rx c) ≡ ms
      → let (got, after) = received get (length ms) c in
        (got ≡ ms) × (Q.queue (rx after) ≡ []) × (Q.has_sender (rx after) ≡ Q.has_sender (rx c))
  unfolding received
  received-all rx get law [] c q = (refl, q, refl)
  received-all rx get law (m ∷ ms) c q =
      let (found_it, left, same) = Q.recv-cons m ms (rx c) q in
      let (c', gets, on) = law.gets c m found_it in
      let (all, empty, kept) = received-all rx get law ms c' (ap Q.queue on ∙ left) in
      (
        ground (arith, gets, all),
        ground (arith, gets, empty),
        ap (λ r. Q.has_sender (rx r)) (received_after get m c c' (length ms) gets)
            ∙ kept
            ∙ ap Q.has_sender on
            ∙ same,
      )

  -- Then the receiver waits if there is a sender.
  pub received-queue :
      {C : Type 0} (rx : C → Q.Chan) (get : C → Progress M C)
      → Receives rx get
      → (ms : List M) (c : C) → Q.queue (rx c) ≡ ms
      → Q.has_sender (rx c) ≡ true
      → let (got, after) = received get (length ms) c in (got ≡ ms) × (get after ≡ waiting)
  received-queue rx get law ms c q live =
      let (all, empty, same) = received-all rx get law ms c q in
      let after = (received get (length ms) c).1 in
      (all, law.waits after (ap (λ r. r.0) (Q.recv-nil (rx after) empty (same ∙ live))))

  -- What a new channel's receiver gets from its handler.
  pub received-handled :
      {C X : Type 0} (rx : C → Q.Chan) (get : C → Progress M C) (f : X → Q.Chan → Q.Chan)
      (g : X → List M)
      → Receives rx get
      → Sends f g
      → (xs : List X) (c : C) → rx c ≡ handled f xs Q.unbounded
      → let (got, after) = received get (length (each g xs)) c in
        (got ≡ each g xs) × (get after ≡ waiting)
  received-handled rx get f g receives law xs c e =
      let (buffered, alive) = handled-queue f g law xs Q.unbounded in
      received-queue rx get receives (each g xs) c
        (ap Q.queue e ∙ buffered ∙ ap (λ l. l ++ each g xs) Q.queue-unbounded)
        (ap Q.has_sender e ∙ alive ∙ Q.has_sender-unbounded)
