-- ===== src/Example/Echoing.antt =====
-- The exchange of the two echo tasks as a machine of three states, which never stops.
use just_webrtc.Common.{
  ℕ, suc, ◌+◌, ◌≤◌, ◌≡◌, refl, ◌∙◌, ap, sym, List, [], ◌∷◌, ◌++◌, length, arith,
}
use just_webrtc.Common.Action.{ok, ret}
use just_webrtc.WebRtc.Native.Connections.{Bytes}
use just_webrtc.Example.Echo.{
  Bincode, echo_request, echo_response, EchoTask, interval, response, request, begin, on_interval,
  on_response, on_request,
}
use just_webrtc.Example.EchoPair.{
  Wire, Arrival, interval_over, request_arrives, response_arrives, Pair, begun, turn, turns,
  session,
}

-- A state goes with the number of echoes so far.
data Stage : Type 0 where
  idle asked answered : Stage

unfoldable step : Arrival → Stage × ℕ → Stage × ℕ
step interval_over (idle, n) = (asked, n)
step request_arrives (asked, n) = (answered, n)
step response_arrives (answered, n) = (idle, suc n)
step _ (s, n) = (s, n)

unfoldable steps : List Arrival → Stage × ℕ → Stage × ℕ
unfolding step
steps [] s = s
steps (a ∷ arrivals) s = steps arrivals (step a s)

abbrev round : List Arrival
round = interval_over ∷ request_arrives ∷ response_arrives ∷ []

steps-round :
    (arrivals : List Arrival) (s : Stage × ℕ)
    → (steps (arrivals ++ round) s).1 ≡ suc (steps arrivals s).1
unfolding steps step
steps-round [] (idle, n) = refl
steps-round [] (asked, n) = refl
steps-round [] (answered, n) = refl
steps-round (a ∷ arrivals) s = steps-round arrivals (step a s)

abbrev awaits : Stage → Bytes → EchoTask
awaits idle q = interval q
awaits asked q = response q
awaits answered q = response q

abbrev requested : Stage → Bytes → List Bytes
requested idle q = []
requested asked q = q ∷ []
requested answered q = []

abbrev replied : Stage → Bytes → List Bytes
replied idle r = []
replied asked r = []
replied answered r = r ∷ []

module _ (B : Bincode) {E : Type 0} (W : Wire E) where
  record Holds (q r : Bytes) (s : Stage × ℕ) (p : Pair B W) : Type 0 where
    offering : p.offerer ≡ awaits s.0 q
    answering : p.answerer ≡ request r
    requesting : W.queue p.requests ≡ requested s.0 q
    responding : W.queue p.responses ≡ replied s.0 r
    counted : p.echoes ≡ s.1

  module _ (q r : Bytes) (asks : B.deserialize q ≡ ok echo_request)
      (answers : B.deserialize r ≡ ok echo_response) where
    interval-Holds :
        (n : ℕ) (p : Pair B W)
        → Holds q r (idle, n) p
        → (p' : Pair B W) × (turn B W interval_over p ≡ ret p') × Holds q r (asked, n) p'
    unfolding turn on_interval
    interval-Holds n p h =
        let (k, w, sent, left) = W.queue-send q p.requests in
        (
          record p { offerer = response q; requests = w },
          ground (arith, h.offering, sent),
          record {
            offering = refl;
            answering = h.answering;
            requesting = left ∙ ground (arith, h.requesting);
            responding = h.responding;
            counted = h.counted;
          },
        )

    request-Holds :
        (n : ℕ) (p : Pair B W)
        → Holds q r (asked, n) p
        → (p' : Pair B W) × (turn B W request_arrives p ≡ ret p') × Holds q r (answered, n) p'
    unfolding turn on_request
    request-Holds n p h =
        let (w, got, left) = W.receive-cons q [] p.requests h.requesting in
        let (k, v, sent, put) = W.queue-send r p.responses in
        (
          record p { answerer = request r; requests = w; responses = v },
          ground (arith, h.answering, got, sent, asks),
          record {
            offering = h.offering;
            answering = refl;
            requesting = left;
            responding = put ∙ ground (arith, h.responding);
            counted = h.counted;
          },
        )

    response-Holds :
        (n : ℕ) (p : Pair B W)
        → Holds q r (answered, n) p
        → (p' : Pair B W) × (turn B W response_arrives p ≡ ret p') × Holds q r (idle, suc n) p'
    unfolding turn on_response
    response-Holds n p h =
        let (w, got, left) = W.receive-cons r [] p.responses h.responding in
        (
          record p { offerer = interval q; responses = w; echoes = suc p.echoes },
          ground (arith, h.offering, got, answers),
          record {
            offering = refl;
            answering = h.answering;
            requesting = h.requesting;
            responding = left;
            counted = ground (arith, h.counted);
          },
        )

    -- A turn does what the machine does.
    turn-Holds :
        (a : Arrival) (s : Stage × ℕ) (p : Pair B W)
        → Holds q r s p
        → (p' : Pair B W) × (turn B W a p ≡ ret p') × Holds q r (step a s) p'
    unfolding turn step
    turn-Holds interval_over (idle, n) p h = interval-Holds n p h
    turn-Holds interval_over (asked, n) p h = (p, ground (arith, h.offering), h)
    turn-Holds interval_over (answered, n) p h = (p, ground (arith, h.offering), h)
    turn-Holds request_arrives (idle, n) p h =
        (p, ground (arith, h.answering, W.receive-nil p.requests h.requesting), h)
    turn-Holds request_arrives (asked, n) p h = request-Holds n p h
    turn-Holds request_arrives (answered, n) p h =
        (p, ground (arith, h.answering, W.receive-nil p.requests h.requesting), h)
    turn-Holds response_arrives (idle, n) p h = (p, ground (arith, h.offering), h)
    turn-Holds response_arrives (asked, n) p h =
        (p, ground (arith, h.offering, W.receive-nil p.responses h.responding), h)
    turn-Holds response_arrives (answered, n) p h = response-Holds n p h

    turns-Holds :
        (arrivals : List Arrival) (s : Stage × ℕ) (p : Pair B W)
        → Holds q r s p
        → (p' : Pair B W) × (turns B W arrivals p ≡ ret p') × Holds q r (steps arrivals s) p'
    unfolding turns steps
    turns-Holds [] s p h = (p, refl, h)
    turns-Holds (a ∷ arrivals) s p h =
        let (p1, one, h1) = turn-Holds a s p h in
        let (p', all, h') = turns-Holds arrivals (step a s) p1 h1 in
        (p', ground (arith, one, all), h')

    session-Holds :
        B.serialize echo_request ≡ ok q
        → B.serialize echo_response ≡ ok r
        → (arrivals : List Arrival)
        → (p : Pair B W) × (session B W arrivals ≡ ret p) × Holds q r (steps arrivals (idle, 0)) p
    unfolding session begun begin
    session-Holds fits fits' arrivals =
        let p0 : Pair B W = record {
          offerer = interval q;
          answerer = request r;
          requests = W.fresh;
          responses = W.fresh;
          echoes = 0;
        } in
        let (p, all, h) =
          turns-Holds arrivals (idle, 0) p0
            (record {
              offering = refl;
              answering = refl;
              requesting = W.queue-fresh;
              responding = W.queue-fresh;
              counted = refl;
            }) in
        (p, ground (arith, fits, fits', all), h)

    Holds-one :
        (s : Stage × ℕ) (p : Pair B W)
        → Holds q r s p
        → length (W.queue p.requests) + length (W.queue p.responses) ≤ 1
    Holds-one (idle, n) p h = ground (arith, h.requesting, h.responding)
    Holds-one (asked, n) p h = ground (arith, h.requesting, h.responding)
    Holds-one (answered, n) p h = ground (arith, h.requesting, h.responding)

  -- If `bincode` gets the two texts back from the bytes that it makes of them, then, over open data
  -- channels, the echo tasks of the two peers never fail, whatever arrives in whichever order; at most
  -- one message is under way; and from wherever they have got to, an interval, a request and a response
  -- lead to exactly one more reported echo.
  pub echo_goes_on :
      (q r : Bytes)
      → B.serialize echo_request ≡ ok q
      → B.deserialize q ≡ ok echo_request
      → B.serialize echo_response ≡ ok r
      → B.deserialize r ≡ ok echo_response
      → (arrivals : List Arrival)
      → (p p' : Pair B W) × (session B W arrivals ≡ ret p)
        × (length (W.queue p.requests) + length (W.queue p.responses) ≤ 1)
        × (session B W (arrivals ++ interval_over ∷ request_arrives ∷ response_arrives ∷ [])
            ≡ ret p')
        × (p'.echoes ≡ suc p.echoes)
  echo_goes_on q r fits asks fits' answers arrivals =
      let (p, some_turns, h) = session-Holds q r asks answers fits fits' arrivals in
      let (p', more_turns, h') = session-Holds q r asks answers fits fits' (arrivals ++ round) in
      (
        p,
        p',
        some_turns,
        Holds-one q r asks answers (steps arrivals (idle, 0)) p h,
        more_turns,
        h'.counted ∙ steps-round arrivals (idle, 0) ∙ ap suc (sym h.counted),
      )
